-- ===== src/Records.antt =====
-- internal/controller/dns/record_controller.go: the reconciler of Record objects.
-- The Kubernetes client and the event recorder are the parameter `cluster`, the DNS providers are
-- in `cache`.
pub mod Client
pub mod Statuses
pub mod Compaction
pub mod Summary
pub mod Loops
pub mod Aborts
pub mod Watch
pub mod Coverage
pub mod Released
pub mod Settled
pub mod Refines
pub mod Names
pub mod Zones
pub mod Mirrored
pub mod Emptied
pub mod Orphans
pub mod Leftovers
pub mod Farewell
pub mod Mirror
pub mod Deletion
use Prim.Native.String.{◌++◌ as append}
use kube_dns_manager.Prelude.{
  ℕ, String, Bool, true, false, ◌||◌, not, Option, none, some, List, [], ◌∷◌, ◌++◌, ◌==◌, ◌-◌, zero,
  suc, length, any, keep, is_some, nat_eq, trim_suffix, if◌then◌else◌,
}
use kube_dns_manager.Effects.{
  nil_pointer, is_panic, Error, plain, is_not_found, Result, ok, err, Exec, pure, raise, ◌>>=◌,
  ◌>>◌,
}
use kube_dns_manager.Api.Meta.{NamespacedName, equal, to_string, ObjectMeta, is_deleted, key_of}
use kube_dns_manager.Api.Record.{
  Record, RecordSpec, RecordStatus, RecordProviderStatus, find_provider_status, success, error,
}
use kube_dns_manager.Api.Provider.{Provider, selector_matches}
use kube_dns_manager.Finalizers.{add_finalizer, remove_finalizer}
use kube_dns_manager.Dns.{Payload, Answer, DnsProvider, Cache, new_payload, ready_provider}
use kube_dns_manager.Records.Client.{RecordCluster, Reply, done, again, after, time_wait_provider}
use kube_dns_manager.Records.Statuses.{
  not_ready, current, enlist, write, compact, dereference, summarise,
}

module _ {W : Type 0} (cluster : RecordCluster W) where
  -- The status after a call of a provider that returned, with its event.
  unfoldable pub conclude :
      ObjectMeta
      → String
      → String
      → String
      → Answer
      → RecordProviderStatus
      → W
      → RecordProviderStatus × W
  conclude meta reason past verb answer s w =
      let named = to_string s.named in
      elim answer.failure [
        | some e ↦ (
          error s answer.payload.id answer.payload.data_ e,
          cluster.event meta "Warning" "Failed"
              (append "Failed to " (append verb (append " record by provider " named))) w,
        )
        | none ↦ (
          success s answer.payload.id answer.payload.data_,
          cluster.event meta "Normal" reason
              (append "Record is " (append past (append " by provider " named))) w,
        )
      ]

  -- The call that a ready provider gets for its status: delete, create or update. Where the call
  -- panics (`call`, `panic_of`), the run ends there and nothing reads what stands here.
  unfoldable pub sync :
      DnsProvider W → Record → Bool → RecordProviderStatus → W → RecordProviderStatus × W
  unfolding conclude new_payload
  sync dns r deleted s w =
      let payload = new_payload s r.spec in
      if deleted
      then if s.record_id == ""
        then (success s s.record_id s.data_, w)
        else (let (answer, w') = dns.delete payload w in
            conclude r.meta "Deleted" "deleted" "delete" answer s w')
      else if s.record_id == ""
      then (let (answer, w') = dns.create payload w in
          conclude r.meta "Created" "created" "create" answer s w')
      else (let (answer, w') = dns.update payload w in
          conclude r.meta "Updated" "updated" "update" answer s w')

  -- The call that `sync` makes, if it makes one.
  unfoldable pub call :
      DnsProvider W → Record → Bool → RecordProviderStatus → W → Option (Answer × W)
  unfolding new_payload
  call dns r deleted s w =
      let payload = new_payload s r.spec in
      if deleted
      then if s.record_id == "" then none else some (dns.delete payload w)
      else if s.record_id == ""
      then some (dns.create payload w)
      else some (dns.update payload w)

  -- The panic of a call, with the world that it leaves.
  abbrev pub panic_of : Option (Answer × W) → Option (Error × W)
  panic_of none = none
  panic_of (some (answer, w)) = elim answer.failure [
    | none ↦ none
    | some e ↦ if is_panic e then some (e, w) else none
  ]

  -- What a call is followed by, or its panic.
  abbrev pub unless_panic : {A : Type 0} → Option (Error × W) → Result A × W → Result A × W
  unless_panic none rest = rest
  unless_panic (some (e, w)) rest = (err e, w)

  -- One round of the loop over the providers, for a provider that matches and does not panic.
  unfoldable pub serve :
      Cache W → Record → Provider → List RecordProviderStatus → W → List RecordProviderStatus × W
  serve cache r p ss w =
      let name = key_of p.meta in
      let s = record (current name ss) { checked = true } in
      elim (ready_provider cache p) [
        | none ↦ (write name (not_ready s) (enlist name ss), w)
        | some dns ↦
            let (s', w') = sync dns r (is_deleted r.meta || is_deleted p.meta) s w in
            (write name s' (enlist name ss), w')
      ]

  -- The panic of the provider in a round of the loop over the providers.
  unfoldable pub serve_panic :
      Cache W → Record → Provider → List RecordProviderStatus → W → Option (Error × W)
  serve_panic cache r p ss w =
      let s = record (current (key_of p.meta) ss) { checked = true } in
      elim (ready_provider cache p) [
        | none ↦ none
        | some dns ↦ panic_of (call dns r (is_deleted r.meta || is_deleted p.meta) s w)
      ]

  -- One round of the loop over the providers: a panic ends the run where the call left the world.
  unfoldable pub visit :
      Cache W → Record → Provider → List RecordProviderStatus → Exec W (List RecordProviderStatus)
  visit cache r p ss w = elim (selector_matches p.spec.selector r) [
    | err e ↦ (err e, w)
    | ok matched ↦
        if matched
        then unless_panic (serve_panic cache r p ss w)
            (let (ss', w') = serve cache r p ss w in (ok ss', w'))
        else (ok ss, w)
  ]

  -- The loop over the providers.
  unfoldable pub visit_all :
      Cache W
      → Record
      → List Provider
      → List RecordProviderStatus
      → Exec W (List RecordProviderStatus)
  visit_all cache r [] ss = pure ss
  visit_all cache r (p ∷ ps) ss = do ss' ← visit cache r p ss; visit_all cache r ps ss'

  -- getProvider
  unfoldable pub get_provider : NamespacedName → Exec W Provider
  get_provider key =
      if key.namespace == "" then cluster.get_cluster_provider key else cluster.get_provider key

  -- The deletion at a provider that no longer matches and does not panic; `none` is the nil entry of a released
  -- status.
  unfoldable pub release_from :
      Cache W → Record → Provider → RecordProviderStatus → W → Option RecordProviderStatus × W
  release_from cache r p s w = elim (ready_provider cache p) [
    | none ↦ (some (not_ready s), w)
    | some dns ↦
        let (answer, w1) = dns.delete (new_payload s r.spec) w in
        let (s', w2) = conclude r.meta "Deleted" "deleted" "delete" answer s w1 in
        elim answer.failure [ some e ↦ (some s', w2) | none ↦ (none, w2) ]
  ]

  -- One round of the loop over the statuses, without a panic.
  unfoldable pub release :
      Cache W → Record → RecordProviderStatus → W → Option RecordProviderStatus × W
  release cache r s w =
      if s.checked
      then (some s, w)
      else (let (got, w1) = get_provider s.named w in
          elim got [
            | err e ↦
                if is_not_found e then (none, w1) else (some (error s s.record_id s.data_ e), w1)
            | ok p ↦ if s.record_id == "" then (none, w1) else release_from cache r p s w1
          ])

  -- The panic of the provider in a round of the loop over the statuses.
  unfoldable pub release_panic : Cache W → Record → RecordProviderStatus → W → Option (Error × W)
  release_panic cache r s w =
      if s.checked
      then none
      else (let (got, w1) = get_provider s.named w in
          elim got [
            | err e ↦ none
            | ok p ↦ if s.record_id == "" then none else elim (ready_provider cache p) [
              | none ↦ none
              | some dns ↦ panic_of (some (dns.delete (new_payload s r.spec) w1))
            ]
          ])

  -- The loop over the statuses, without a panic, with the count of the entries that are left.
  unfoldable pub release_all :
      Cache W
      → Record
      → List RecordProviderStatus
      → ℕ
      → W
      → (List (Option RecordProviderStatus) × ℕ) × W
  release_all cache r [] count w = (([], count), w)
  release_all cache r (s ∷ ss) count w =
      let (slot, w1) = release cache r s w in
      let left : ℕ = elim slot [ none ↦ count - 1 | some _ ↦ count ] in
      let ((slots, total), w2) = release_all cache r ss left w1 in ((slot ∷ slots, total), w2)

  -- The first panic in the loop over the statuses.
  unfoldable pub release_panics :
      Cache W → Record → List RecordProviderStatus → W → Option (Error × W)
  release_panics cache r [] w = none
  release_panics cache r (s ∷ ss) w =
      let rest = release_panics cache r ss (release cache r s w).1 in
      elim (release_panic cache r s w) [ some p ↦ some p | none ↦ rest ]

  -- What follows the update of the status, from the object that the server returned.
  unfoldable pub conclude_record : Record → Exec W Reply
  conclude_record r w =
      if not r.status.all_ready
      then (ok (after time_wait_provider), w)
      else if is_deleted r.meta
      then (let (got, w') = cluster.update_record (record r { meta = remove_finalizer r.meta }) w in
          (ok done, w'))
      else (ok done, w)

  -- The update of the status; its failure is only reported.
  unfoldable pub report : Record → List RecordProviderStatus → Exec W Reply
  report r ss w =
      let r' = record r { status = summarise r.status ss } in
      let (got, w') = cluster.update_status r' w in
      elim got [
        | ok saved ↦ conclude_record saved w'
        | err e ↦
            conclude_record r'
              (cluster.event r.meta "Warning" "Failed" "Failed to update record status" w')
      ]

  -- The loop over the statuses and all that follows it: a panic ends the run where the call left
  -- the world.
  unfoldable pub finish : Cache W → Record → List RecordProviderStatus → Exec W Reply
  finish cache r ss w =
      let ((slots, count), w') = release_all cache r ss (length ss) w in
      unless_panic (release_panics cache r ss w) (elim (dereference (compact count slots)) [
        | none ↦ (err nil_pointer, w')
        | some ss' ↦ report r ss' w'
      ])

  unfoldable pub reconcile_record : Cache W → Record → Exec W Reply
  reconcile_record cache r =
      let (meta, changed) = add_finalizer r.meta in
      if changed then (do _ ← cluster.update_record (record r { meta = meta }); pure again) else do
        ps ← cluster.list_providers r.meta.namespace
        cluster_ps ← cluster.list_cluster_providers
        ss ← visit_all cache r (ps ++ cluster_ps) r.status.providers
        finish cache r ss

  -- RecordReconciler.Reconcile
  unfoldable pub reconcile : Cache W → NamespacedName → Exec W Reply
  reconcile cache key w =
      let (got, w') = cluster.get_record key w in
      elim got [
        | ok r ↦ reconcile_record cache r w'
        | err e ↦ if is_not_found e then (ok done, w') else (err e, w')
      ]
