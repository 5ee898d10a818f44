-- ===== src/Records/Settled.antt =====
-- What the reconciler leaves of a record that is being deleted: no status that still has an ID is
-- silent.
use kube_dns_manager.Prelude.{
  String, ℕ, ◌≡◌, refl, sym, ◌≢◌, Bool, true, false, not, ◌||◌, none, some, List, [], ◌∷◌, ◌++◌,
  arith, ◌==◌, eq_iff, Bool-cases, Option-cases, subst, inl, inr, All, All-append, ◌-◌,
}
use kube_dns_manager.Effects.{Error, error_text, speaks-is_panic, Result-cases, ok, err}
use kube_dns_manager.Api.Meta.{NamespacedName, equal, is_deleted, key_of, ObjectMeta}
use kube_dns_manager.Api.Record.{Record, RecordProviderStatus, find_provider_status, success, error}
use kube_dns_manager.Api.Provider.{Provider}
use kube_dns_manager.Dns.{
  Cache, DnsProvider, Payload, new_payload, ready_provider, ClearsId, Answer,
}
use kube_dns_manager.Records.Client.{RecordCluster}
use kube_dns_manager.Records.Statuses.{not_ready, fresh, current, enlist, write}
use kube_dns_manager.Records.Loops.{serve-ready, serve-unready, visit_all_induction}
use kube_dns_manager.Records.Compaction.{present}
use kube_dns_manager.Records.{
  conclude, sync, serve, visit_all, get_provider, release_from, release, release_all, release_panic,
  release_panics,
}

-- The provider has nothing of the record, or the status says what is wrong.
abbrev pub is_settled : RecordProviderStatus → Bool
is_settled s = s.record_id == "" || not (s.message == "")

abbrev pub IsSettled : RecordProviderStatus → Type 0
IsSettled s = is_settled s ≡ true

-- A status that this run has not looked at may be anything.
abbrev pub SettledIfChecked : RecordProviderStatus → Type 0
SettledIfChecked s = (not s.checked || is_settled s) ≡ true

-- What the documentation of the interface promises: a Delete that succeeds clears the ID, and an
-- error has a text. So it does not panic.
pub record Promises {W : Type 0} (dns : DnsProvider W) : Type 0 where
  pub clears : ClearsId dns
  pub speaks :
      (payload : Payload) (w : W) (e : Error)
      → (dns.delete payload w).0.failure ≡ some e
      → error_text e ≢ ""

abbrev pub CachePromises : {W : Type 0} → Cache W → Type 0
CachePromises {W} cache =
    (p : Provider) (dns : DnsProvider W) → ready_provider cache p ≡ some dns → Promises dns

-- The errors of the Kubernetes client have a text.
abbrev pub LookupsSpeak : {W : Type 0} → RecordCluster W → Type 0
LookupsSpeak {W} cluster =
    (key : NamespacedName) (w : W) (e : Error)
    → (get_provider cluster key w).0 ≡ err e
    → error_text e ≢ ""

write-All :
    (P : RecordProviderStatus → Type 0) (name : NamespacedName) (new : RecordProviderStatus)
    (ss : List RecordProviderStatus)
    → P new
    → All P ss
    → All P (write name new ss)
unfolding write
write-All P name new [] h hs = tt
write-All P name new (s ∷ ss) h hs = elim (Bool-cases (equal s.named name)) [
  | inl same ↦ rw same (h, hs.1)
  | inr other ↦ rw other (hs.0, write-All P name new ss h hs.1)
]

enlist-All :
    (P : RecordProviderStatus → Type 0) (name : NamespacedName) (ss : List RecordProviderStatus)
    → P (fresh name)
    → All P ss
    → All P (enlist name ss)
unfolding enlist
enlist-All P name ss h hs = elim (Option-cases (find_provider_status ss name)) [
  | inl absent ↦
      let e : enlist name ss ≡ ss ++ fresh name ∷ [] = ground (arith, absent) in
      subst (All P) (sym e) (All-append P ss (fresh name ∷ []) hs (h, tt))
  | inr (s, found) ↦ let e : enlist name ss ≡ ss = ground (arith, found) in subst (All P) (sym e) hs
]

not_ready-IsSettled : (s : RecordProviderStatus) → IsSettled (not_ready s)
not_ready-IsSettled s = ground arith

-- The text of an error is not the empty text, as the test on messages reads it.
speaks_lem : (t : String) → t ≢ "" → (t == "") ≡ false
speaks_lem t h = ground (arith, eq_iff t "")

module _ {W : Type 0} (cluster : RecordCluster W) (cache : Cache W) (r : Record) where
  conclude-IsSettled :
      (meta : ObjectMeta) (reason past verb : String) (answer : Answer) (s : RecordProviderStatus)
      (w : W)
      → (answer.failure ≡ none → answer.payload.id ≡ "")
      → ((e : Error) → answer.failure ≡ some e → error_text e ≢ "")
      → IsSettled (conclude cluster meta reason past verb answer s w).0
  unfolding conclude success error
  conclude-IsSettled meta reason past verb answer s w clears speaks =
      elim (Option-cases answer.failure) [
        | inl fine ↦ ground (arith, eq_iff answer.payload.id "", clears fine)
        | inr (e, failed) ↦ ground (arith, speaks_lem (error_text e) (speaks e failed))
      ]

  -- A deletion of a record or of a provider leaves a settled status.
  sync-IsSettled :
      (dns : DnsProvider W) (s : RecordProviderStatus) (w : W)
      → Promises dns
      → IsSettled (sync cluster dns r true s w).0
  unfolding sync success
  sync-IsSettled dns s w h =
      let payload = new_payload s r.spec in
      let asked =
        conclude-IsSettled r.meta "Deleted" "deleted" "delete" (dns.delete payload w).0 s
          (dns.delete payload w).1 (h.clears.cleared payload w) (h.speaks payload w) in
      elim (Bool-cases (s.record_id == "")) [
        | inl empty ↦ ground (arith, empty)
        | inr held ↦ rw held asked
      ]

  module _ (promises : CachePromises cache) (deleted : is_deleted r.meta ≡ true) where
    serve-Settled :
        (p : Provider) (ss : List RecordProviderStatus) (w : W)
        → All SettledIfChecked ss
        → All SettledIfChecked (serve cluster cache r p ss w).0
    serve-Settled p ss w hs =
        let name = key_of p.meta in
        let s = record (current name ss) { checked = true } in
        let listed = enlist-All SettledIfChecked name ss refl hs in
        elim (Option-cases (ready_provider cache p)) [
          | inl unready ↦
              rw (serve-unready cluster cache r p ss w unready) (
                write-All SettledIfChecked name (not_ready s) (enlist name ss) (ground arith)
                  listed)
          | inr (dns, ready) ↦
              let synced = sync-IsSettled dns s w (promises p dns ready) in
              rw (serve-ready cluster cache r p ss w ready, deleted)
                (write-All SettledIfChecked name (sync cluster dns r true s w).0 (enlist name ss)
                  (ground (arith, synced)) listed)
        ]

    pub visit_all-Settled :
        (ps : List Provider) (ss : List RecordProviderStatus) (w : W)
        {ss' : List RecordProviderStatus} {w' : W}
        → All SettledIfChecked ss
        → visit_all cluster cache r ps ss w ≡ (ok ss', w')
        → All SettledIfChecked ss'
    visit_all-Settled = visit_all_induction cluster cache r (All SettledIfChecked) serve-Settled

  release_from-IsSettled :
      CachePromises cache
      → (p : Provider) (s : RecordProviderStatus) (w : W) {s' : RecordProviderStatus}
      → (release_from cluster cache r p s w).0 ≡ some s'
      → IsSettled s'
  unfolding release_from
  release_from-IsSettled promises p s w {s'} e = elim (Option-cases (ready_provider cache p)) [
    | inl unready ↦
        let kept : some (not_ready s) ≡ some s' = rw (unready, release_from) at e in
        let same : not_ready s ≡ s' = cc kept in subst IsSettled same (not_ready-IsSettled s)
    | inr (dns, ready) ↦
        let payload = new_payload s r.spec in
        let (answer, w') = dns.delete payload w in
        let h = promises p dns ready in
        ground (
          arith,
          ready,
          conclude-IsSettled r.meta "Deleted" "deleted" "delete" answer s w'
              (h.clears.cleared payload w) (h.speaks payload w),
        )
  ]

  -- A status that the loop over the statuses keeps is settled.
  release-IsSettled :
      CachePromises cache
      → LookupsSpeak cluster
      → (s : RecordProviderStatus) (w : W) {s' : RecordProviderStatus} → SettledIfChecked s
      → (release cluster cache r s w).0 ≡ some s'
      → IsSettled s'
  unfolding release error
  release-IsSettled promises speak s w {s'} h e = elim (Bool-cases s.checked) [
    | inl seen ↦ ground (arith, seen)
    | inr unseen ↦ elim (Result-cases (get_provider cluster s.named w).0) [
      | inl (p, got) ↦ ground (
        arith,
        got,
        release_from-IsSettled promises p s (get_provider cluster s.named w).1 {s' = s'},
      )
      | inr (f, failed) ↦
          ground (arith, failed, speaks_lem (error_text f) (speak s.named w f failed))
    ]
  ]

  pub release_all-Settled :
      CachePromises cache
      → LookupsSpeak cluster
      → (ss : List RecordProviderStatus) (count : ℕ) (w : W) → All SettledIfChecked ss
      → All IsSettled (present (release_all cluster cache r ss count w).0.0)
  unfolding release_all
  release_all-Settled promises speak [] count w h = tt
  release_all-Settled promises speak (s ∷ ss) count w h =
      let w1 = (release cluster cache r s w).1 in
      elim (Option-cases (release cluster cache r s w).0) [
        | inl gone ↦ rw gone (release_all-Settled promises speak ss (count - 1) w1 h.1)
        | inr (s', kept) ↦ rw kept (
          release-IsSettled promises speak s w h.0 kept,
          release_all-Settled promises speak ss count w1 h.1,
        )
      ]

  release-calm :
      CachePromises cache
      → (s : RecordProviderStatus) (w : W) → release_panic cluster cache r s w ≡ none
  unfolding release_panic
  release-calm promises s w = elim (Bool-cases s.checked) [
    | inl seen ↦ rw seen refl
    | inr unseen ↦ elim (Result-cases (get_provider cluster s.named w).0) [
      | inr (f, failed) ↦ rw (unseen, failed) refl
      | inl (p, got) ↦ elim (Bool-cases (s.record_id == "")) [
        | inl empty ↦ rw (unseen, got, empty) refl
        | inr full ↦ elim (Option-cases (ready_provider cache p)) [
          | inl unready ↦ rw (unseen, got, full, unready) refl
          | inr (dns, ready) ↦
              let w1 = (get_provider cluster s.named w).1 in
              let payload = new_payload s r.spec in
              elim (Option-cases (dns.delete payload w1).0.failure) [
                | inl fine ↦ rw (unseen, got, full, ready, fine) refl
                | inr (e, failed) ↦
                    let speaks = (promises p dns ready).speaks payload w1 e failed in
                    rw (unseen, got, full, ready, failed, speaks-is_panic e speaks) refl
              ]
        ]
      ]
    ]
  ]

  -- Providers that keep their promises do not panic.
  pub release_all-calm :
      CachePromises cache
      → (ss : List RecordProviderStatus) (w : W) → release_panics cluster cache r ss w ≡ none
  unfolding release_panics
  release_all-calm promises [] w = refl
  release_all-calm promises (s ∷ ss) w =
      rw (release-calm promises s w, release_panics)
        (release_all-calm promises ss (release cluster cache r s w).1)
