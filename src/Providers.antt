-- ===== src/Providers.antt =====
-- internal/controller/dns/provider_controller.go: the reconciler of Provider and ClusterProvider
-- objects, which makes the DNS providers and puts them into the cache.
pub mod Laws
pub mod Cached
use kube_dns_manager.Prelude.{
  String, Bool, true, false, not, ◌&&◌, Option, none, some, List, [], ◌∷◌, ◌==◌, any, lookup,
  insert, if◌then◌else◌,
}
use kube_dns_manager.Effects.{Error, error_text, is_panic, is_not_found, Result, ok, err, Exec}
use kube_dns_manager.Api.Meta.{NamespacedName, to_string, is_deleted}
use kube_dns_manager.Api.Record.{Record, RecordProviderStatus}
use kube_dns_manager.Api.Provider.{Provider, ProviderStatus}
use kube_dns_manager.Finalizers.{add_finalizer, remove_finalizer, error_wait_records}
use kube_dns_manager.Dns.{DnsProvider, Cache, Registry, new, ready_provider}
use kube_dns_manager.Records.Client.{Reply, done, again, after}

-- The calls that the reconciler makes of the Kubernetes client. `list_records` takes a namespace,
-- empty for all, and a key of the index of records by the names of their providers.
pub record ProviderCluster (W : Type 0) : Type 0 where
  pub get_provider : NamespacedName → Exec W Provider
  pub update_provider : Provider → Exec W Provider
  pub update_status : Provider → Exec W Provider
  pub list_records : String → String → Exec W (List Record)

-- What the body of Reconcile hands to its deferred function: the results, and the object. Where the
-- body panics, the panic stands in the place of the error.
pub record Outcome : Type 0 where
  pub reply : Reply
  pub failure : Option Error
  pub provider : Provider

-- The inner loop: the statuses of one record.
unfoldable pub has_id : Provider → List RecordProviderStatus → Bool
has_id p [] = false
has_id p (s ∷ ss) =
    if not (s.named.namespace == p.meta.namespace && s.named.name == p.meta.name)
    then has_id p ss
    else if not (s.record_id == "")
    then true
    else has_id p ss

-- The outer loop: no record has an ID at the provider.
unfoldable pub can_delete : Provider → List Record → Bool
can_delete p [] = true
can_delete p (r ∷ rs) =
    let rest = can_delete p rs in if has_id p r.status.providers then false else rest

-- The status that the deferred function writes. While a panic unwinds, the named result is nil.
unfoldable pub reported : Option Error → ProviderStatus
unfolding error_text
reported none = record { ready = true; reason = "" }
reported (some e) =
    if is_panic e
    then record { ready = true; reason = "" }
    else record { ready = false; reason = error_text e }

-- What Reconcile returns behind the deferred function, which sets the error to nil. A panic goes on.
unfoldable pub returned : Option Error → Reply → Result Reply
returned none reply = ok reply
returned (some e) reply = if is_panic e then err e else ok reply

module _ {W : Type 0} (cluster : ProviderCluster W) (registry : Registry W) where
  -- newDnsProvider: the error or the panic of the factory, and the cache
  unfoldable pub make : Provider → Cache W → W → (Option Error × Cache W) × W
  make p cache w =
      let (got, w') = new registry p w in
      elim got [
        | err e ↦ ((some e, cache), w')
        | ok dns ↦ (
          (
            none,
            insert p.meta.uid (record { provider = dns; generation = p.meta.generation }) cache,
          ),
          w',
        )
      ]

  -- The removal of the finalizer of an object that no record needs.
  unfoldable pub let_go : Provider → W → Outcome × W
  let_go p w =
      let gone = record p { meta = remove_finalizer p.meta } in
      let (got, w') = cluster.update_provider gone w in
      elim got [
        | err e ↦ (record { reply = done; failure = some e; provider = gone }, w')
        | ok saved ↦ (record { reply = done; failure = none; provider = saved }, w')
      ]

  -- The provider is kept ready while records wait for it.
  unfoldable pub hold : Provider → Cache W → W → (Outcome × Cache W) × W
  hold p cache w =
      let waits : Outcome = record {
        reply = after 1;
        failure = some error_wait_records;
        provider = p;
      } in
      elim (ready_provider cache p) [
        | some dns ↦ ((waits, cache), w)
        | none ↦
            let ((failure, cache'), w') = make p cache w in
            elim failure [
              | some e ↦ ((record { reply = after 1; failure = some e; provider = p }, cache'), w')
              | none ↦ ((waits, cache'), w')
            ]
      ]

  unfoldable pub delete : NamespacedName → Provider → Cache W → W → (Outcome × Cache W) × W
  delete key p cache w =
      let (got, w1) = cluster.list_records p.meta.namespace (to_string key) w in
      elim got [
        | err e ↦ ((record { reply = done; failure = some e; provider = p }, cache), w1)
        | ok rs ↦
            if can_delete p rs
            then (let (out, w2) = let_go p w1 in ((out, cache), w2))
            else hold p cache w1
      ]

  -- What Reconcile does between its defer statement and its return.
  unfoldable pub body : NamespacedName → Provider → Cache W → W → (Outcome × Cache W) × W
  body key p cache w =
      if is_deleted p.meta
      then delete key p cache w
      else (let ((failure, cache'), w') = make p cache w in
          elim failure [
            | some e ↦ ((record { reply = after 60; failure = some e; provider = p }, cache'), w')
            | none ↦ ((record { reply = done; failure = none; provider = p }, cache'), w')
          ])

  -- The deferred function: it writes the status and drops the error, but does not stop a panic.
  unfoldable pub deferred : Outcome → W → Result Reply × W
  deferred out w =
      let (_, w') =
        cluster.update_status (record out.provider { status = reported out.failure }) w in
      (returned out.failure out.reply, w')

  -- ProviderReconciler.Reconcile
  unfoldable pub reconcile : NamespacedName → Cache W → W → Result Reply × Cache W × W
  reconcile key cache w =
      let (got, w1) = cluster.get_provider key w in
      elim got [
        | err e ↦ (if is_not_found e then ok done else err e, cache, w1)
        | ok p ↦
            let (meta, changed) = add_finalizer p.meta in
            if changed
            then (let (updated, w2) = cluster.update_provider (record p { meta = meta }) w1 in
                (elim updated [ err e ↦ err e | ok saved ↦ ok again ], cache, w2))
            else (let ((out, cache'), w2) = body key p cache w1 in
                let (result, w3) = deferred out w2 in (result, cache', w3))
      ]
