-- ===== src/Records/Orphans.antt =====
-- What the run of a deleted record does to the table of a provider, up to the loop over the statuses.
use Prim.Native.String.{◌++◌ as append}
use kube_dns_manager.Prelude.{
  String, ◌≡◌, ◌⊎◌, ap, ◌∙◌, subst, true, false, none, some, List, [], ◌∷◌, arith, ◌==◌, eq_iff,
  any, Bool-cases, Option-cases, inl, inr,
}
use kube_dns_manager.Effects.{Error, ok, continue-eq-ok}
use kube_dns_manager.Api.Meta.{to_string, NamespacedName, ObjectMeta, equal_iff, is_deleted, key_of}
use kube_dns_manager.Api.Record.{Record, RecordProviderStatus, error}
use kube_dns_manager.Api.Provider.{Provider}
use kube_dns_manager.Dns.{Cache, Answer, DnsProvider, new_payload, ready_provider}
use kube_dns_manager.Dns.Contract.{Table}
use kube_dns_manager.Records.Client.{RecordCluster}
use kube_dns_manager.Records.Statuses.{not_ready, current, enlist}
use kube_dns_manager.Records.Loops.{looked_at, serve-ready, serve-unready, visit_cases}
use kube_dns_manager.Records.{conclude, sync, serve, visit, visit_all}
use kube_dns_manager.Records.Emptied.{Empties, Around, has, any-written, find-enlist, written_over}

module _ {W E : Type 0} (cluster : RecordCluster W) (cache : Cache W) (r : Record)
    (name : NamespacedName) (table : W → Table E) (around : Around cluster cache name table)
    (id : String) (named : (id == "") ≡ false) where
  -- The entry is gone, or a status still has it.
  abbrev pub Kept : List RecordProviderStatus → W → Type 0
  Kept ss w = (table w id ≡ none) ⊎ (any (has name id) ss ≡ true)

  carried :
      (ss ss0 : List RecordProviderStatus) (w w0 : W) → ss ≡ ss0 → w ≡ w0 → Kept ss0 w0 → Kept ss w
  carried ss ss0 w w0 e f (inl gone) = inl (ap (λ v. table v id) f ∙ gone)
  carried ss ss0 w w0 e f (inr there) = inr (ap (any (has name id)) e ∙ there)

  pub conclude-none :
      (meta : ObjectMeta) (reason past verb : String) (answer : Answer) (s : RecordProviderStatus)
      (w : W)
      → table w id ≡ none
      → table (conclude cluster meta reason past verb answer s w).1 id ≡ none
  unfolding conclude
  conclude-none meta reason past verb answer s w h = elim (Option-cases answer.failure) [
    | inl fine ↦ rw fine (
        around.events meta "Normal" reason
          (append "Record is " (append past (append " by provider " (to_string s.named)))) w id h)
    | inr (e, failed) ↦ rw failed (
        around.events meta "Warning" "Failed"
          (append "Failed to " (append verb (append " record by provider " (to_string s.named)))) w
          id h)
  ]

  sync-none :
      (p : Provider) (dns : DnsProvider W) (s : RecordProviderStatus) (w : W)
      → ready_provider cache p ≡ some dns
      → table w id ≡ none
      → table (sync cluster dns r true s w).1 id ≡ none
  unfolding sync
  sync-none p dns s w ready h =
      let payload = new_payload s r.spec in
      let (answer, w') = dns.delete payload w in
      elim (Bool-cases (s.record_id == "")) [
        | inl empty ↦ rw empty h
        | inr held ↦ rw held (
            conclude-none r.meta "Deleted" "deleted" "delete" answer s w'
              (around.deletions p dns payload w id ready h))
      ]

  -- A deletion at the provider that the table is of: it empties the place, or the status keeps the ID.
  pub delete-Kept :
      (dns : DnsProvider W) (s : RecordProviderStatus) (w : W)
      → Empties dns table
      → has name id s ≡ true
      → let (answer, w') = dns.delete (new_payload s r.spec) w in
        (table (conclude cluster r.meta "Deleted" "deleted" "delete" answer s w').1 id ≡ none)
        ⊎ ((has name id (conclude cluster r.meta "Deleted" "deleted" "delete" answer s w').0 ≡ true)
            × ((e : Error) × (answer.failure ≡ some e)))
  unfolding conclude error new_payload
  delete-Kept dns s w empties h =
      let payload = new_payload s r.spec in
      let (answer, w') = dns.delete payload w in
      let mine : s.record_id ≡ id = ground (arith, h, eq_iff s.record_id id) in
      elim (Option-cases answer.failure) [
        | inl fine ↦ inl (
            conclude-none r.meta "Deleted" "deleted" "delete" answer s w'
              (subst (λ x. table w' x ≡ none) mine (empties.emptied payload w fine)))
        | inr (e, failed) ↦
            inr (ground (arith, h, failed, empties.kept payload w e failed), (e, failed))
      ]

  sync-Kept :
      (dns : DnsProvider W) (s : RecordProviderStatus) (w : W)
      → Empties dns table
      → has name id s ≡ true
      → (table (sync cluster dns r true s w).1 id ≡ none)
        ⊎ (has name id (sync cluster dns r true s w).0 ≡ true)
  unfolding sync
  sync-Kept dns s w empties h =
      let held : (s.record_id == "") ≡ false = ground (arith, h, eq_iff s.record_id id, named) in
      let (answer, w') = dns.delete (new_payload s r.spec) w in
      let same : sync cluster dns r true s w
          ≡ conclude cluster r.meta "Deleted" "deleted" "delete" answer s w' =
        ground (arith, held) in
      elim (delete-Kept dns s w empties h) [
        | inl gone ↦ inl (rw same gone)
        | inr (kept, _) ↦ inr (rw same kept)
      ]

  module _ (deleted : is_deleted r.meta ≡ true) where
    serve-Kept :
        (p : Provider) (ss : List RecordProviderStatus) (w : W)
        → Kept ss w
        → Kept (serve cluster cache r p ss w).0 (serve cluster cache r p ss w).1
    serve-Kept p ss w (inl gone) = elim (Option-cases (ready_provider cache p)) [
      | inl unready ↦ inl (rw (serve-unready cluster cache r p ss w unready) gone)
      | inr (dns, ready) ↦ inl (
          rw (serve-ready cluster cache r p ss w ready, deleted)
            (sync-none p dns (looked_at cluster cache r p ss w) w ready gone))
    ]
    serve-Kept p ss w (inr there) =
        let n = key_of p.meta in
        let s = looked_at cluster cache r p ss w in
        elim (Option-cases (ready_provider cache p)) [
          | inl unready ↦ inr (
              rw (serve-unready cluster cache r p ss w unready)
                (elim (written_over name id n ss (not_ready s) there) [
                  | inl stays ↦ stays
                  | inr (own, holds) ↦
                      any-written (has name id) n (not_ready s) (current n ss) (enlist n ss)
                        (find-enlist n ss) holds
                ]))
          | inr (dns, ready) ↦
              let s' = (sync cluster dns r true s w).0 in
              rw (serve-ready cluster cache r p ss w ready, deleted)
                (elim (written_over name id n ss s' there) [
                  | inl stays ↦ inr stays
                  | inr (own, holds) ↦
                      elim (sync-Kept dns s w (around.own p dns ((equal_iff n name).0 own) ready)
                        holds) [
                          | inl gone ↦ inl gone
                          | inr kept ↦ inr (
                              any-written (has name id) n s' (current n ss) (enlist n ss)
                                (find-enlist n ss) kept)
                        ]
                ])
        ]

    pub visit_all-Kept :
        (ps : List Provider) (ss : List RecordProviderStatus) (w : W)
        {ss' : List RecordProviderStatus} {w' : W}
        → Kept ss w
        → visit_all cluster cache r ps ss w ≡ (ok ss', w')
        → Kept ss' w'
    unfolding visit_all
    visit_all-Kept [] ss w {ss'} {w'} h e =
        carried ss' ss w' w (ground (arith, e)) (ground (arith, e)) h
    visit_all-Kept (p ∷ ps) ss w h e =
        let (ss1, w1, visited, rest) =
          continue-eq-ok (visit cluster cache r p ss w) (visit_all cluster cache r ps) e in
        elim (visit_cases cluster cache r p ss w visited) [
          | inl (_, same, same') ↦ visit_all-Kept ps ss1 w1 (carried ss1 ss w1 w same same' h) rest
          | inr (_, served, served') ↦
              visit_all-Kept ps ss1 w1
                (carried ss1 (serve cluster cache r p ss w).0 w1 (serve cluster cache r p ss w).1
                  served served' (serve-Kept p ss w h))
                rest
        ]
