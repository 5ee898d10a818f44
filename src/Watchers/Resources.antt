-- ===== src/Watchers/Resources.antt =====
-- Which objects wake a watcher: the index over the resources that its status notes.
use kube_dns_manager.Prelude.{
  String, ◌≡◌, ap, ◌∙◌, true, ◌||◌, List, [], ◌∷◌, ◌++◌, ◌==◌, any, map, arith, eq_iff, Bool-cases,
  inl, inr,
}
use kube_dns_manager.Api.Watcher.{
  WatchResource, ResourceWatcherStatus, same_resource, add_resource, to_string,
}
use kube_dns_manager.Watchers.{resources_index}

abbrev pub resource : String → String → String → WatchResource
resource kind namespace name = record {
  named = record { name = name; namespace = namespace };
  kind = kind;
}

abbrev keys : List WatchResource → List String
keys rs = map to_string rs

keys-append :
    (key : String) (rs : List WatchResource) (r : WatchResource)
    → any (λ k. k == key) (keys (rs ++ r ∷ []))
      ≡ (any (λ k. k == key) (keys rs) || to_string r == key)
keys-append key [] r = ground arith
keys-append key (x ∷ rs) r = ground (arith, keys-append key rs r)

pub same_resource_lem :
    (kind namespace name : String) (r : WatchResource)
    → same_resource kind namespace name r ≡ true
    → r ≡ resource kind namespace name
same_resource_lem kind namespace name r h =
    ground (arith, eq_iff r.kind kind, eq_iff r.named.name name, eq_iff r.named.namespace namespace)

pub keys_noted :
    (kind namespace name key : String) (rs : List WatchResource)
    → any (same_resource kind namespace name) rs ≡ true
    → (to_string (resource kind namespace name) == key) ≡ true
    → any (λ k. k == key) (keys rs) ≡ true
keys_noted kind namespace name key [] h e = cc
keys_noted kind namespace name key (r ∷ rs) h e =
    elim (Bool-cases (same_resource kind namespace name r)) [
      | inl same ↦
          let own : (to_string r == key) ≡ true =
            ap (λ x. to_string x == key) (same_resource_lem kind namespace name r same) ∙ e in
          rw own
      | inr other ↦ ground (arith, other, keys_noted kind namespace name key rs)
    ]

-- After AddResource a watcher is found in the index under the key of the added resource, and under
-- the keys that it was found under before, and under no other.
pub add_resource-index :
    (s : ResourceWatcherStatus) (kind namespace name key : String)
    → any (λ k. k == key) (resources_index (add_resource s kind namespace name))
      ≡ (any (λ k. k == key) (resources_index s) || to_string (resource kind namespace name) == key)
unfolding resources_index add_resource
add_resource-index s kind namespace name key =
    elim (Bool-cases (any (same_resource kind namespace name) s.resources)) [
      | inl there ↦ ground (arith, there, keys_noted kind namespace name key s.resources there)
      | inr absent ↦
          ground (arith, absent, keys-append key s.resources (resource kind namespace name))
    ]
