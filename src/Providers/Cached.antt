-- ===== src/Providers/Cached.antt =====
-- Runs of the provider reconciler keep the cache to providers that clear the ID.
use kube_dns_manager.Prelude.{
  String, ◌≡◌, ◌⊎◌, sym, ap, subst, none, some, [], ◌==◌, arith, lookup, insert, lookup-insert,
  Bool-cases, Option-cases, inl, inr,
}
use kube_dns_manager.Effects.{Result-cases}
use kube_dns_manager.Api.Meta.{NamespacedName, to_string, is_deleted}
use kube_dns_manager.Api.Provider.{Provider}
use kube_dns_manager.Finalizers.{add_finalizer}
use kube_dns_manager.Dns.{
  DnsProvider, Cache, CachedDnsProvider, new, Payload, ClearsId, CacheClearsId, ready_provider,
}
use kube_dns_manager.Dns.Registered.{Services, registered, new-AllClear}
use kube_dns_manager.Providers.{ProviderCluster, make, hold, can_delete, delete, body, reconcile}

pair_eta : {A B : Type 0} {p : A × B} {a : A} → p.0 ≡ a → p ≡ (a, p.1)
pair_eta {p = p} e = ap (λ x. (x, p.1)) e

nothing_cached : {W : Type 0} (uid : String) (c : CachedDnsProvider W) → lookup uid [] ≡ some c → ⊥
nothing_cached uid c h = cc

module _ {W : Type 0} (cluster : ProviderCluster W) (s : Services W) where
  make-clears :
      (p : Provider) (cache : Cache W) (w : W)
      → CacheClearsId cache
      → CacheClearsId (make cluster (registered s) p cache w).0.1
  unfolding make
  make-clears p cache w h uid cached found = elim (Result-cases (new (registered s) p w).0) [
    | inr (e, failed) ↦ h uid cached (ground (arith, failed, found))
    | inl (dns, made) ↦
        let entry : CachedDnsProvider W = record {
          provider = dns;
          generation = p.meta.generation;
        } in
        let grown : lookup uid (insert p.meta.uid entry cache) ≡ some cached =
          ground (arith, made, found) in
        elim (Bool-cases (p.meta.uid == uid)) [
          | inr other ↦
              h uid cached (ground (arith, other, grown, lookup-insert p.meta.uid uid entry cache))
          | inl same ↦
              let e : entry ≡ cached =
                ground (arith, same, grown, lookup-insert p.meta.uid uid entry cache) in
              subst (λ c. ClearsId c.provider) e
                (new-AllClear s p w (new (registered s) p w).1 dns (pair_eta made))
        ]
  ]

  -- The cache of a run is the one from before, or the one that newDnsProvider leaves.
  abbrev KeptOrMade : Provider → Cache W → Cache W → Type 0
  KeptOrMade p cache cache' =
      (cache' ≡ cache) ⊎ ((w : W) × (cache' ≡ (make cluster (registered s) p cache w).0.1))

  hold_cache :
      (p : Provider) (cache : Cache W) (w : W)
      → KeptOrMade p cache (hold cluster (registered s) p cache w).0.1
  unfolding hold
  hold_cache p cache w = elim (Option-cases (ready_provider cache p)) [
    | inr (dns, ready) ↦ inl (ground (arith, ready))
    | inl unready ↦ inr (
      w,
      elim (Option-cases (make cluster (registered s) p cache w).0.0) [
        | inl fine ↦ ground (arith, unready, fine)
        | inr (e, failed) ↦ ground (arith, unready, failed)
      ],
    )
  ]

  delete_cache :
      (key : NamespacedName) (p : Provider) (cache : Cache W) (w : W)
      → KeptOrMade p cache (delete cluster (registered s) key p cache w).0.1
  unfolding delete
  delete_cache key p cache w =
      let listed = cluster.list_records p.meta.namespace (to_string key) w in
      elim (Result-cases listed.0) [
        | inr (e, failed) ↦ inl (ground (arith, failed))
        | inl (rs, got) ↦ elim (Bool-cases (can_delete p rs)) [
          | inl free ↦ inl (ground (arith, got, free))
          | inr held ↦
              let whole : (delete cluster (registered s) key p cache w).0.1
                  ≡ (hold cluster (registered s) p cache listed.1).0.1 =
                ground (arith, got, held) in
              subst (KeptOrMade p cache) (sym whole) (hold_cache p cache listed.1)
        ]
      ]

  body_cache :
      (key : NamespacedName) (p : Provider) (cache : Cache W) (w : W)
      → KeptOrMade p cache (body cluster (registered s) key p cache w).0.1
  unfolding body
  body_cache key p cache w = elim (Bool-cases (is_deleted p.meta)) [
    | inl deleted ↦
        let whole : (body cluster (registered s) key p cache w).0.1
            ≡ (delete cluster (registered s) key p cache w).0.1 =
          ground (arith, deleted) in
        subst (KeptOrMade p cache) (sym whole) (delete_cache key p cache w)
    | inr alive ↦ inr (
      w,
      elim (Option-cases (make cluster (registered s) p cache w).0.0) [
        | inl fine ↦ ground (arith, alive, fine)
        | inr (e, failed) ↦ ground (arith, alive, failed)
      ],
    )
  ]

  body-clears :
      (key : NamespacedName) (p : Provider) (cache : Cache W) (w : W)
      → CacheClearsId cache
      → CacheClearsId (body cluster (registered s) key p cache w).0.1
  body-clears key p cache w h = elim (body_cache key p cache w) [
    | inl same ↦ subst CacheClearsId (sym same) h
    | inr (v, made) ↦ subst CacheClearsId (sym made) (make-clears p cache v h)
  ]

  reconcile-clears :
      (key : NamespacedName) (cache : Cache W) (w : W)
      → CacheClearsId cache
      → CacheClearsId (reconcile cluster (registered s) key cache w).1
  unfolding reconcile
  reconcile-clears key cache w h =
      let got = cluster.get_provider key w in
      elim (Result-cases got.0) [
        | inr (e, failed) ↦
            let whole : (reconcile cluster (registered s) key cache w).1 ≡ cache =
              ground (arith, failed) in
            subst CacheClearsId (sym whole) h
        | inl (p, found) ↦ elim (Bool-cases (add_finalizer p.meta).1) [
          | inl changed ↦
              let whole : (reconcile cluster (registered s) key cache w).1 ≡ cache =
                ground (arith, found, changed) in
              subst CacheClearsId (sym whole) h
          | inr unchanged ↦
              let whole : (reconcile cluster (registered s) key cache w).1
                  ≡ (body cluster (registered s) key p cache got.1).0.1 =
                ground (arith, found, unchanged) in
              subst CacheClearsId (sym whole) (body-clears key p cache got.1 h)
        ]
      ]

  -- The caches that runs of the reconciler leave, from the empty one, each run over any object in any
  -- state of the world.
  pub data Reachable : Cache W → Type 0 where
    started : Reachable []
    ran :
        (key : NamespacedName) (cache : Cache W) (w : W)
        → Reachable cache
        → Reachable (reconcile cluster (registered s) key cache w).1

  Reachable-clears : {cache : Cache W} → Reachable cache → CacheClearsId cache
  Reachable-clears started = λ uid cached found. absurd (nothing_cached uid cached found)
  Reachable-clears (ran key cache w r) = reconcile-clears key cache w (Reachable-clears r)

  -- In every cache that the runs of the reconciler reach, a provider that a record finds ready clears
  -- the record's ID where its Delete succeeds.
  pub ready_provider_clears :
      (cache : Cache W) (p : Provider) (dns : DnsProvider W) (payload : Payload) (w : W)
      → Reachable cache
      → ready_provider cache p ≡ some dns
      → (dns.delete payload w).0.failure ≡ none
      → (dns.delete payload w).0.payload.id ≡ ""
  unfolding ready_provider
  ready_provider_clears cache p dns payload w reachable ready done =
      elim (Option-cases (lookup p.meta.uid cache)) [
        | inl absent ↦ absurd (ground (arith, absent))
        | inr (cached, found) ↦
            let same : cached.provider ≡ dns = ground (arith, found) in
            (subst ClearsId same (Reachable-clears reachable p.meta.uid cached found)).cleared
              payload w done
      ]
