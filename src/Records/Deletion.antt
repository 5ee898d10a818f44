-- ===== src/Records/Deletion.antt =====
-- When the finalizer of a record that is being deleted goes.
use kube_dns_manager.Prelude.{
  ◌≡◌, ◌∙◌, Bool, true, false, not, List, [], ◌∷◌, arith, ◌==◌, any, inl, inr, All, length,
}
use kube_dns_manager.Effects.{Result-cases, ok, err}
use kube_dns_manager.Api.Meta.{is_deleted}
use kube_dns_manager.Api.Record.{Record, RecordProviderStatus}
use kube_dns_manager.Api.Provider.{Provider}
use kube_dns_manager.Dns.{Cache}
use kube_dns_manager.Records.Client.{RecordCluster, after, time_wait_provider}
use kube_dns_manager.Records.Statuses.{all_ready, summarise}
use kube_dns_manager.Records.Compaction.{present, finish_calm}
use kube_dns_manager.Records.Settled.{
  IsSettled, SettledIfChecked, CachePromises, LookupsSpeak, visit_all-Settled, release_all-Settled,
  release_all-calm,
}
use kube_dns_manager.Records.{visit_all, release_all, conclude_record, report, finish}

-- The server answers an update of a status with the status that it was sent, and no deletion slips
-- in between: it would have changed the version, and the update would have failed.
abbrev pub Echoes : {W : Type 0} → RecordCluster W → Type 0
Echoes {W} cluster =
    (r saved : Record) (w : W)
    → (cluster.update_status r w).0 ≡ ok saved
    → (saved.status.all_ready ≡ r.status.all_ready) × (is_deleted saved.meta ≡ is_deleted r.meta)

-- Some provider still has the record.
abbrev pub held : List RecordProviderStatus → Bool
held ss = any (λ s. not (s.record_id == "")) ss

pub held-not-ready :
    (ss : List RecordProviderStatus) → All IsSettled ss → held ss ≡ true → all_ready ss ≡ false
held-not-ready [] hs h = cc
held-not-ready (s ∷ ss) hs h = ground (arith, hs.0, held-not-ready ss hs.1)

-- The record with its statuses, as the run sends it to the server.
abbrev pub written : Record → List RecordProviderStatus → Record
written r ss = record r { status = summarise r.status ss }

pub unchecked-Settled :
    (ss : List RecordProviderStatus) → All (λ s. s.checked ≡ false) ss → All SettledIfChecked ss
unchecked-Settled [] h = tt
unchecked-Settled (s ∷ ss) h = (ground (arith, h.0), unchecked-Settled ss h.1)

module _ {W : Type 0} (cluster : RecordCluster W) (r : Record) where
  -- The world behind the update of the status, with the event where it failed.
  abbrev pub after_status : List RecordProviderStatus → W → W
  after_status ss w =
      let (got, w') = cluster.update_status (written r ss) w in
      elim got [
        | ok saved ↦ w'
        | err e ↦ cluster.event r.meta "Warning" "Failed" "Failed to update record status" w'
      ]

  module _ (echoes : Echoes cluster) (ss : List RecordProviderStatus) (w : W) where
    pub report_waits :
        all_ready ss ≡ false
        → report cluster r ss w ≡ (ok (after time_wait_provider), after_status ss w)
    unfolding report conclude_record summarise
    report_waits h = elim (Result-cases (cluster.update_status (written r ss) w).0) [
      | inl (saved, got) ↦ ground (arith, got, echoes (written r ss) saved w got, h)
      | inr (e, failed) ↦ ground (arith, failed, h)
    ]

module _ {W : Type 0} (cluster : RecordCluster W) (cache : Cache W) (r : Record)
    (ss : List RecordProviderStatus) (w : W) where
  -- What the loop over the statuses leaves: the statuses, and the world.
  abbrev pub left : List RecordProviderStatus
  left = present (release_all cluster cache r ss (length ss) w).0.0

  abbrev pub after_loop : W
  after_loop = (release_all cluster cache r ss (length ss) w).1

-- While a provider still has the record, a deleted record keeps its finalizer: the run updates the
-- status, asks to be run again after a minute, and makes no further call but an event where that
-- update fails. It is for a run that starts from statuses not checked yet, over providers and a
-- client that keep their promises.
pub finish_waits :
    {W : Type 0} (cluster : RecordCluster W) (cache : Cache W) (r : Record)
    → CachePromises cache
    → LookupsSpeak cluster
    → Echoes cluster
    → is_deleted r.meta ≡ true
    → (ps : List Provider) (ss ss' : List RecordProviderStatus) (w w' : W)
    → All (λ s. s.checked ≡ false) ss
    → visit_all cluster cache r ps ss w ≡ (ok ss', w')
    → held (left cluster cache r ss' w') ≡ true
    → finish cluster cache r ss' w' ≡ (
      ok (after time_wait_provider),
      after_status cluster r (left cluster cache r ss' w') (after_loop cluster cache r ss' w'),
    )
finish_waits cluster cache r promises speak echoes deleted ps ss ss' w w' unchecked e h =
    let visited =
      visit_all-Settled cluster cache r promises deleted ps ss w (unchecked-Settled ss unchecked)
        e in
    let settled = release_all-Settled cluster cache r promises speak ss' (length ss') w' visited in
    finish_calm cluster cache r ss' w' (release_all-calm cluster cache r promises ss' w')
    ∙ report_waits cluster r echoes (left cluster cache r ss' w')
        (after_loop cluster cache r ss' w') (held-not-ready (left cluster cache r ss' w') settled h)
