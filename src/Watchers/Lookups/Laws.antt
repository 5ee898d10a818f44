-- ===== src/Watchers/Lookups/Laws.antt =====
-- The lookups of a template wake the watcher when what they found changes.
use kube_dns_manager.Prelude.{
  String, ◌≡◌, sym, ap, ◌∙◌, ◌||◌, List, [], ◌∷◌, ◌==◌, any, map, arith, inl, inr,
}
use kube_dns_manager.Effects.{Result-cases, ok}
use kube_dns_manager.Api.Meta.{ObjectMeta}
use kube_dns_manager.Api.Watcher.{ResourceWatcherStatus, to_string}
use kube_dns_manager.Watchers.{resources_index}
use kube_dns_manager.Watchers.Resources.{resource, add_resource-index}
use kube_dns_manager.Watchers.Lookups.{
  LookupClient, Endpoints, Node, kind_node, note_all, noted, addresses, find_nodes, nodes,
}

note_all-index :
    (kind key : String) (ms : List ObjectMeta) (s : ResourceWatcherStatus)
    → any (λ k. k == key) (resources_index (note_all kind ms s)) ≡ (
        any (λ k. k == key) (resources_index s)
        || any (λ m. to_string (resource kind m.namespace m.name) == key) ms)
unfolding note_all
note_all-index kind key [] s = ground arith
note_all-index kind key (m ∷ ms) s =
    note_all-index kind key ms (noted kind m s)
    ∙ ground (arith, add_resource-index s kind m.namespace m.name key)

-- Where Nodes succeeds, the watcher is found in the index under the keys that it was found under before
-- and under those of the nodes that the template gets, and under no other.
pub nodes-index :
    {W : Type 0} (c : LookupClient W) (e : Endpoints) (s s' : ResourceWatcherStatus) (w w' : W)
    (found : List Node) (key : String)
    → nodes c e s w ≡ ((ok found, s'), w')
    → any (λ k. k == key) (resources_index s') ≡ (
        any (λ k. k == key) (resources_index s)
        || any
            (λ m. to_string (resource kind_node m.namespace m.name) == key)
            (map (λ n. n.meta) found))
unfolding nodes
nodes-index c e s s' w w' found key h =
    elim (Result-cases (find_nodes c (addresses e.subsets) [] w).0) [
      | inr (f, failed) ↦ absurd (ground (arith, h, failed))
      | inl (entries, got) ↦
          let ns = map (λ entry. entry.1) entries in
          let same : ns ≡ found = ground (arith, h, got) in
          let status : note_all kind_node (map (λ n. n.meta) ns) s ≡ s' = ground (arith, h, got) in
          ap (λ t. any (λ k. k == key) (resources_index t)) (sym status)
          ∙ note_all-index kind_node key (map (λ n. n.meta) ns) s
          ∙ ap
              (λ l.
                any (λ k. k == key) (resources_index s)
                || any (λ m. to_string (resource kind_node m.namespace m.name) == key)
                    (map (λ n. n.meta) l))
              same
    ]
