-- ===== src/Records/Coverage.antt =====
-- Which statuses the loop over the providers looks at.
use kube_dns_manager.Prelude.{
  ◌≡◌, refl, ap, ◌∙◌, subst, Bool, true, false, ◌&&◌, ◌||◌, none, some, List, [], ◌∷◌, ◌++◌, arith,
  any, Bool-cases, Option-cases, inl, inr, if◌then◌else◌, is_some,
}
use kube_dns_manager.Effects.{ok, err, continue-eq-ok}
use kube_dns_manager.Api.Meta.{NamespacedName, equal, equal_iff, equal_refl, key_of, is_deleted}
use kube_dns_manager.Api.Record.{Record, RecordProviderStatus, find_provider_status, success, error}
use kube_dns_manager.Api.Provider.{Provider, selector_matches}
use kube_dns_manager.Dns.{Cache, DnsProvider, ready_provider}
use kube_dns_manager.Records.Client.{RecordCluster}
use kube_dns_manager.Records.Statuses.{not_ready, fresh, current, enlist, write}
use kube_dns_manager.Records.Loops.{looked_at, serve-ready, serve-unready, visit_cases}
use kube_dns_manager.Records.{conclude, sync, serve, visit, visit_all}

pub find-append :
    (ss : List RecordProviderStatus) (x : RecordProviderStatus) (n : NamespacedName)
    → find_provider_status (ss ++ x ∷ []) n ≡ elim (find_provider_status ss n) [
      | some s ↦ some s
      | none ↦ if equal x.named n then some x else none
    ]
unfolding find_provider_status
find-append [] x n = refl
find-append (s ∷ ss) x n = ground (arith, find-append ss x n)

find-enlist_ne :
    (name n : NamespacedName) (ss : List RecordProviderStatus)
    → equal name n ≡ false
    → find_provider_status (enlist name ss) n ≡ find_provider_status ss n
unfolding enlist
find-enlist_ne name n ss h = ground (arith, find-append ss (fresh name) n)

find-enlist_self :
    (name : NamespacedName) (ss : List RecordProviderStatus)
    → is_some (find_provider_status (enlist name ss) name) ≡ true
unfolding enlist
find-enlist_self name ss = ground (arith, find-append ss (fresh name) name, equal_refl name)

find-write_ne :
    (name n : NamespacedName) (new : RecordProviderStatus) (ss : List RecordProviderStatus)
    → new.named ≡ name
    → equal name n ≡ false
    → find_provider_status (write name new ss) n ≡ find_provider_status ss n
unfolding write find_provider_status
find-write_ne name n new [] e h = refl
find-write_ne name n new (s ∷ ss) e h = ground (
  arith,
  equal_iff s.named name,
  equal_iff name n,
  equal_iff s.named n,
  equal_iff new.named n,
  find-write_ne name n new ss e h,
)

find-write_self :
    (name : NamespacedName) (new : RecordProviderStatus) (ss : List RecordProviderStatus)
    → new.named ≡ name
    → is_some (find_provider_status ss name) ≡ true
    → find_provider_status (write name new ss) name ≡ some new
unfolding write find_provider_status
find-write_self name new [] e h = cc
find-write_self name new (s ∷ ss) e h =
    ground (arith, equal_iff new.named name, find-write_self name new ss e)

find-named :
    (ss : List RecordProviderStatus) (n : NamespacedName) (s : RecordProviderStatus)
    → find_provider_status ss n ≡ some s
    → s.named ≡ n
unfolding find_provider_status
find-named [] n s h = cc
find-named (x ∷ ss) n s h = ground (arith, equal_iff x.named n, find-named ss n s)

pub named-current : (n : NamespacedName) (ss : List RecordProviderStatus) → (current n ss).named ≡ n
unfolding current
named-current n ss = elim (Option-cases (find_provider_status ss n)) [
  | inl absent ↦ ground (arith, absent)
  | inr (s, found) ↦ ground (arith, found, find-named ss n s found)
]

-- The run has looked at the status of that name.
abbrev pub checked_in : List RecordProviderStatus → NamespacedName → Bool
checked_in ss n = elim (find_provider_status ss n) [ none ↦ false | some s ↦ s.checked ]

-- The provider takes the record.
abbrev pub takes : Record → Provider → Bool
takes r p = elim (selector_matches p.spec.selector r) [ ok b ↦ b | err e ↦ false ]

module _ {W : Type 0} (cluster : RecordCluster W) (cache : Cache W) (r : Record) where
  sync_keeps :
      (dns : DnsProvider W) (deleted : Bool) (s : RecordProviderStatus) (w : W)
      → ((sync cluster dns r deleted s w).0.named ≡ s.named)
        × ((sync cluster dns r deleted s w).0.checked ≡ s.checked)
  unfolding sync conclude success error
  sync_keeps dns deleted s w = ground arith

  -- What the loop writes for a provider has its name, and is checked.
  pub serve_writes :
      (p : Provider) (ss : List RecordProviderStatus) (w : W)
      → (new : RecordProviderStatus) × (new.named ≡ key_of p.meta)
        × (new.checked ≡ true)
        × ((serve cluster cache r p ss w).0 ≡ write (key_of p.meta) new (enlist (key_of p.meta) ss))
  serve_writes p ss w =
      let name = key_of p.meta in
      let s = looked_at cluster cache r p ss w in
      elim (Option-cases (ready_provider cache p)) [
        | inl unready ↦ (
          not_ready s,
          named-current name ss,
          refl,
          ap (λ t. t.0) (serve-unready cluster cache r p ss w unready),
        )
        | inr (dns, ready) ↦
            let deleted = is_deleted r.meta || is_deleted p.meta in
            let (same, seen) = sync_keeps dns deleted s w in
            (
              (sync cluster dns r deleted s w).0,
              same ∙ named-current name ss,
              seen,
              ap (λ t. t.0) (serve-ready cluster cache r p ss w ready),
            )
      ]

  -- A served provider changes the status of its own name and no other.
  pub serve-frame :
      (p : Provider) (ss : List RecordProviderStatus) (w : W) (n : NamespacedName)
      → equal (key_of p.meta) n ≡ false
      → find_provider_status (serve cluster cache r p ss w).0 n ≡ find_provider_status ss n
  serve-frame p ss w n other =
      let name = key_of p.meta in
      let (new, named, seen, e) = serve_writes p ss w in
      rw e (find-write_ne name n new (enlist name ss) named other ∙ find-enlist_ne name n ss other)

  serve-own :
      (p : Provider) (ss : List RecordProviderStatus) (w : W)
      → checked_in (serve cluster cache r p ss w).0 (key_of p.meta) ≡ true
  serve-own p ss w =
      let name = key_of p.meta in
      let (new, named, seen, e) = serve_writes p ss w in
      rw e (
        ground
          (arith, seen, find-write_self name new (enlist name ss) named (find-enlist_self name ss)))

  serve-checked_in :
      (p : Provider) (ss : List RecordProviderStatus) (w : W) (n : NamespacedName)
      → checked_in (serve cluster cache r p ss w).0 n ≡ (equal (key_of p.meta) n || checked_in ss n)
  serve-checked_in p ss w n = elim (Bool-cases (equal (key_of p.meta) n)) [
    | inl same ↦
        let e : key_of p.meta ≡ n = (equal_iff (key_of p.meta) n).0 same in
        rw same
          (subst (λ m. checked_in (serve cluster cache r p ss w).0 m ≡ true) e (serve-own p ss w))
    | inr other ↦ ground (arith, other, serve-frame p ss w n other)
  ]

  -- After the loop over the providers a status is checked exactly if it was before, or if a
  -- provider of its name takes the record.
  pub visit_all-checked_in :
      (ps : List Provider) (ss ss' : List RecordProviderStatus) (w w' : W) (n : NamespacedName)
      → visit_all cluster cache r ps ss w ≡ (ok ss', w')
      → checked_in ss' n ≡ (any (λ p. takes r p && equal (key_of p.meta) n) ps || checked_in ss n)
  unfolding visit_all
  visit_all-checked_in [] ss ss' w w' n e = ap (λ l. checked_in l n) (ground (arith, e))
  visit_all-checked_in (p ∷ ps) ss ss' w w' n e =
      let (ss1, w1, visited, rest) =
        continue-eq-ok (visit cluster cache r p ss w) (visit_all cluster cache r ps) e in
      let later = visit_all-checked_in ps ss1 ss' w1 w' n rest in
      elim (visit_cases cluster cache r p ss w visited) [
        | inl (skipped, same, _) ↦
            let e1 : checked_in ss1 n ≡ checked_in ss n = ap (λ l. checked_in l n) same in
            later ∙ ground (arith, skipped, e1)
        | inr (taken, served, _) ↦
            let e1 = ap (λ l. checked_in l n) served ∙ serve-checked_in p ss w n in
            later ∙ ground (arith, taken, e1)
      ]
