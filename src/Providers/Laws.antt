-- ===== src/Providers/Laws.antt =====
-- When a provider may go, what its cache holds, and what its status says.
use kube_dns_manager.Prelude.{
  ◌≡◌, refl, Bool, true, false, not, ◌&&◌, none, some, List, [], ◌∷◌, ◌==◌, any, lookup-insert,
  arith, nat_eq, if◌then◌else◌,
}
use kube_dns_manager.Effects.{ok}
use kube_dns_manager.Api.Meta.{NamespacedName, to_string, equal, is_deleted, key_of}
use kube_dns_manager.Api.Record.{Record, RecordProviderStatus}
use kube_dns_manager.Api.Provider.{Provider}
use kube_dns_manager.Dns.{DnsProvider, Cache, Registry, new, ready_provider}
use kube_dns_manager.Providers.{ProviderCluster, has_id, can_delete, make, let_go, delete, body}

-- A status of the record names the provider and has an ID.
abbrev pub holds : Provider → Record → Bool
holds p r = any (λ s. equal s.named (key_of p.meta) && not (s.record_id == "")) r.status.providers

has_id-any :
    (p : Provider) (ss : List RecordProviderStatus)
    → has_id p ss ≡ any (λ s. equal s.named (key_of p.meta) && not (s.record_id == "")) ss
unfolding has_id equal
has_id-any p [] = refl
has_id-any p (s ∷ ss) = ground (arith, has_id-any p ss)

can_delete-any : (p : Provider) (rs : List Record) → can_delete p rs ≡ not (any (holds p) rs)
unfolding can_delete
can_delete-any p [] = refl
can_delete-any p (r ∷ rs) = ground (arith, has_id-any p r.status.providers, can_delete-any p rs)

module _ {W : Type 0} (cluster : ProviderCluster W) (registry : Registry W) where
  -- Where no listed record holds an ID at a provider that is being deleted, the run removes the
  -- finalizer, whatever the cache holds.
  pub body_lets_go :
      (key : NamespacedName) (p : Provider) (cache : Cache W) (w w1 : W) (rs : List Record)
      → is_deleted p.meta ≡ true
      → cluster.list_records p.meta.namespace (to_string key) w ≡ (ok rs, w1)
      → any (holds p) rs ≡ false
      → body cluster registry key p cache w
        ≡ (((let_go cluster registry p w1).0, cache), (let_go cluster registry p w1).1)
  unfolding body delete
  body_lets_go key p cache w w1 rs deleted got free =
      ground (arith, deleted, got, free, can_delete-any p rs)

  -- A run over a provider that is not being deleted and that can be made puts it into the cache: a
  -- record then finds it for the generation it was made for and for no other, and what other
  -- providers have there stays.
  pub body_makes :
      (key : NamespacedName) (p : Provider) (cache : Cache W) (w w1 : W) (dns : DnsProvider W)
      → is_deleted p.meta ≡ false
      → new registry p w ≡ (ok dns, w1)
      → (q : Provider)
      → ready_provider (body cluster registry key p cache w).0.1 q ≡ (
          if p.meta.uid == q.meta.uid
          then (if nat_eq p.meta.generation q.meta.generation then some dns else none)
          else ready_provider cache q)
  unfolding body make ready_provider
  body_makes key p cache w w1 dns alive made q = ground (
    arith,
    alive,
    made,
    lookup-insert p.meta.uid q.meta.uid (record { provider = dns; generation = p.meta.generation })
        cache,
  )
