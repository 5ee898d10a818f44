-- ===== src/Examples/Deletion.antt =====
-- A record that is being deleted while its provider refuses, and afterwards.
use kube_dns_manager.Prelude.{
  ℕ, suc, String, ◌≡◌, ◌≢◌, refl, sym, ap, ◌∙◌, subst, Bool, true, false, not, ◌||◌, Option, none,
  some, List, [], ◌∷◌, ◌==◌, arith, eq_iff, All, lookup, Bool-cases, inl, inr, nat_eq,
}
use kube_dns_manager.Effects.{Error, error_text, plain, api, Result, ok, err}
use kube_dns_manager.Api.Meta.{NamespacedName}
use kube_dns_manager.Api.Record.{Record, RecordProviderStatus}
use kube_dns_manager.Api.Provider.{Provider}
use kube_dns_manager.Dns.{ready_provider}
use kube_dns_manager.Records.Client.{after, time_wait_provider}
use kube_dns_manager.Records.{get_provider, visit_all, finish}
use kube_dns_manager.Records.Statuses.{all_ready}
use kube_dns_manager.Records.Settled.{Promises, CachePromises, LookupsSpeak}
use kube_dns_manager.Records.Deletion.{Echoes, held, left, after_loop, after_status, finish_waits}
use kube_dns_manager.Examples.Fixtures.{
  deleted_meta, status_of, record_with, nonempty, first, obliging, stubborn, cache_of_first,
}

refused_text : error_text (plain "refused") ≢ ""
unfolding error_text
refused_text = nonempty "refused" refl

stubborn-Promises : Promises stubborn
stubborn-Promises = record {
  clears = record { cleared = λ payload w h. ground (arith, h) };
  speaks = λ payload w e h.
      let same : plain "refused" ≡ e = cc h in subst (λ f. error_text f ≢ "") same refused_text;
}

cache_promises : CachePromises cache_of_first
unfolding ready_provider
cache_promises p dns h =
    let same : stubborn ≡ dns = ground (arith, h) in subst Promises same stubborn-Promises

abbrev not_found : Result Provider
not_found = err (api true "not found")

speaks_missing : (e : Error) → not_found ≡ err e → error_text e ≢ ""
unfolding error_text
speaks_missing e h =
    let same : api true "not found" ≡ e = cc h in
    subst (λ f. error_text f ≢ "") same (nonempty "not found" refl)

ok_not_err : {p : Provider} (e : Error) → ok p ≡ err e → ⊥
ok_not_err e h = cc

lookups_speak : LookupsSpeak obliging
unfolding get_provider error_text
lookups_speak key w e h = elim (Bool-cases (key.namespace == "")) [
  | inl wide ↦ speaks_missing e (rw wide at h)
  | inr inside ↦ elim (Bool-cases (key.name == "first")) [
    | inl present ↦ absurd (ok_not_err e (rw (inside, present) at h))
    | inr missing ↦ speaks_missing e (rw (inside, missing) at h)
  ]
]

echoes : Echoes obliging
echoes r saved w h =
    let same : r ≡ saved = cc h in
    (
      ap (λ x. x.status.all_ready) (sym same),
      ap (λ x. elim x.meta.deletion_timestamp [ none ↦ false | some t ↦ true ]) (sym same),
    )

abbrev asked_for : List RecordProviderStatus
asked_for = status_of "first" "1" ∷ []

abbrev leaving : Record
leaving = record_with (deleted_meta "web") asked_for

abbrev refused : List RecordProviderStatus
refused = record (status_of "first" "1") { message = "refused"; checked = true } ∷ []

visited : visit_all obliging cache_of_first leaving (first ∷ []) asked_for 5 ≡ (ok refused, 6)
unfolding visit_all kube_dns_manager.Records.visit kube_dns_manager.Api.Provider.selector_matches
    kube_dns_manager.Api.Provider.in_domain kube_dns_manager.Prelude.has_suffix
    kube_dns_manager.Api.Provider.labels_match kube_dns_manager.Records.serve ready_provider
    kube_dns_manager.Records.Statuses.write kube_dns_manager.Records.sync
    kube_dns_manager.Records.Statuses.enlist kube_dns_manager.Records.Statuses.current
    kube_dns_manager.Api.Record.find_provider_status kube_dns_manager.Api.Meta.equal
    kube_dns_manager.Api.Record.error kube_dns_manager.Records.serve_panic
    kube_dns_manager.Records.call
visited = refl

kept : held (left obliging cache_of_first leaving refused 6) ≡ true
unfolding kube_dns_manager.Records.release_all kube_dns_manager.Records.release
kept = refl

finish_waits_example : finish obliging cache_of_first leaving refused 6 ≡ (
  ok (after time_wait_provider),
  after_status obliging leaving
      (left obliging cache_of_first leaving refused 6)
      (after_loop obliging cache_of_first leaving refused 6),
)
finish_waits_example =
    finish_waits obliging cache_of_first leaving cache_promises lookups_speak echoes refl
      (first ∷ []) asked_for refused 5 6 (refl, tt) visited kept
