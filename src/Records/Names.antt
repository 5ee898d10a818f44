-- ===== src/Records/Names.antt =====
-- The names of the providers in the statuses of a record.
use kube_dns_manager.Prelude.{
  ℕ, ◌≡◌, refl, sym, ap, subst, false, none, some, List, [], ◌∷◌, ◌++◌, ◌-◌, arith, any, length,
  Bool-cases, Option-cases, inl, inr,
}
use kube_dns_manager.Effects.{ok, Result-cases}
use kube_dns_manager.Api.Meta.{NamespacedName, equal, equal_iff, key_of}
use kube_dns_manager.Api.Record.{Record, RecordProviderStatus, find_provider_status, success, error}
use kube_dns_manager.Api.Provider.{Provider}
use kube_dns_manager.Api.Generator.Resources.{Distinct, Distinct-snoc}
use kube_dns_manager.Dns.{Cache, new_payload, ready_provider}
use kube_dns_manager.Records.Client.{RecordCluster}
use kube_dns_manager.Records.Statuses.{fresh, enlist, write}
use kube_dns_manager.Records.Loops.{visit_all_induction}
use kube_dns_manager.Records.Coverage.{serve_writes}
use kube_dns_manager.Records.Compaction.{present, finish_lem}
use kube_dns_manager.Records.{
  conclude, serve, visit_all, get_provider, release_from, release, release_all, release_panics,
  report, finish, unless_panic,
}

-- The providers that the statuses are of.
abbrev pub names : List RecordProviderStatus → List NamespacedName
names [] = []
names (s ∷ ss) = s.named ∷ names ss

names-snoc :
    (ss : List RecordProviderStatus) (s : RecordProviderStatus)
    → names (ss ++ s ∷ []) ≡ names ss ++ s.named ∷ []
names-snoc [] s = refl
names-snoc (x ∷ ss) s = ap (◌∷◌ x.named) (names-snoc ss s)

names-write :
    (name : NamespacedName) (new : RecordProviderStatus) (ss : List RecordProviderStatus)
    → new.named ≡ name
    → names (write name new ss) ≡ names ss
unfolding write
names-write name new [] e = refl
names-write name new (s ∷ ss) e = ground (arith, equal_iff s.named name, names-write name new ss e)

find-none-names :
    (ss : List RecordProviderStatus) (name : NamespacedName)
    → find_provider_status ss name ≡ none
    → any (equal name) (names ss) ≡ false
unfolding find_provider_status
find-none-names [] name h = refl
find-none-names (s ∷ ss) name h =
    ground (arith, equal_iff s.named name, equal_iff name s.named, find-none-names ss name)

enlist-Distinct :
    (name : NamespacedName) (ss : List RecordProviderStatus)
    → Distinct (names ss)
    → Distinct (names (enlist name ss))
unfolding enlist
enlist-Distinct name ss d = elim (Option-cases (find_provider_status ss name)) [
  | inr (s, found) ↦
      let e : enlist name ss ≡ ss = ground (arith, found) in
      subst (λ l. Distinct (names l)) (sym e) d
  | inl absent ↦
      let e : enlist name ss ≡ ss ++ fresh name ∷ [] = ground (arith, absent) in
      rw (e, names-snoc ss (fresh name))
        (Distinct-snoc (names ss) name d (find-none-names ss name absent))
]

module _ {W : Type 0} (cluster : RecordCluster W) (cache : Cache W) (r : Record) where
  serve-Distinct :
      (p : Provider) (ss : List RecordProviderStatus) (w : W)
      → Distinct (names ss)
      → Distinct (names (serve cluster cache r p ss w).0)
  serve-Distinct p ss w d =
      let name = key_of p.meta in
      let (new, named, seen, e) = serve_writes cluster cache r p ss w in
      rw (e, names-write name new (enlist name ss) named) (enlist-Distinct name ss d)

  release_from-named :
      (p : Provider) (s : RecordProviderStatus) (w : W) {s' : RecordProviderStatus}
      → (release_from cluster cache r p s w).0 ≡ some s'
      → s'.named ≡ s.named
  unfolding release_from conclude error success
  release_from-named p s w {s'} h = elim (Option-cases (ready_provider cache p)) [
    | inl unready ↦ ground (arith, unready)
    | inr (dns, ready) ↦ elim (Option-cases (dns.delete (new_payload s r.spec) w).0.failure) [
      | inl fine ↦ absurd (ground (arith, ready, fine))
      | inr (e, failed) ↦ ground (arith, ready, failed)
    ]
  ]

  -- A status that the loop over the statuses leaves keeps its name.
  release-named :
      (s : RecordProviderStatus) (w : W) {s' : RecordProviderStatus}
      → (release cluster cache r s w).0 ≡ some s'
      → s'.named ≡ s.named
  unfolding release error
  release-named s w {s'} h =
      let (got, w1) = get_provider cluster s.named w in
      elim (Bool-cases s.checked) [
        | inl seen ↦ ground (arith, seen)
        | inr unseen ↦ elim (Result-cases got) [
          | inr (f, failed) ↦ ground (arith, failed)
          | inl (p, there) ↦ ground (arith, there, release_from-named p s w1 {s' = s'})
        ]
      ]

  any-released :
      (name : NamespacedName) (ss : List RecordProviderStatus) (count : ℕ) (w : W)
      → any (equal name) (names ss) ≡ false
      → any (equal name) (names (present (release_all cluster cache r ss count w).0.0)) ≡ false
  unfolding release_all
  any-released name [] count w h = refl
  any-released name (s ∷ ss) count w h =
      let w1 = (release cluster cache r s w).1 in
      elim (Option-cases (release cluster cache r s w).0) [
        | inl gone ↦ rw gone (any-released name ss (count - 1) w1 (ground arith))
        | inr (s', kept) ↦
            rw (kept) (ground (arith, release-named s w kept, any-released name ss count w1))
      ]

  released-Distinct :
      (ss : List RecordProviderStatus) (count : ℕ) (w : W)
      → Distinct (names ss)
      → Distinct (names (present (release_all cluster cache r ss count w).0.0))
  unfolding release_all
  released-Distinct [] count w d = tt
  released-Distinct (s ∷ ss) count w d =
      let w1 = (release cluster cache r s w).1 in
      elim (Option-cases (release cluster cache r s w).0) [
        | inl gone ↦ rw gone (released-Distinct ss (count - 1) w1 d.1)
        | inr (s', kept) ↦
            rw (kept, release-named s w kept)
              (any-released s.named ss count w1 d.0, released-Distinct ss count w1 d.1)
      ]

  -- The statuses of a record whose statuses stand for different providers still do after the loop
  -- over the providers, and so do those that the run then reports, the ones that were not released;
  -- it reports them unless a provider panics.
  pub run-Distinct :
      (ps : List Provider) (w w1 : W) (ss : List RecordProviderStatus)
      → Distinct (names r.status.providers)
      → visit_all cluster cache r ps r.status.providers w ≡ (ok ss, w1)
      → Distinct (names ss)
        × Distinct (names (present (release_all cluster cache r ss (length ss) w1).0.0))
        × (finish cluster cache r ss w1
            ≡ unless_panic cluster (release_panics cluster cache r ss w1) (
                report cluster r
                  (present (release_all cluster cache r ss (length ss) w1).0.0)
                  (release_all cluster cache r ss (length ss) w1).1))
  run-Distinct ps w w1 ss d visited =
      let kept =
        visit_all_induction cluster cache r (λ l. Distinct (names l)) serve-Distinct ps
          r.status.providers w d visited in
      (kept, released-Distinct ss (length ss) w1 kept, finish_lem cluster cache r ss w1)
