-- ===== src/Examples/Records.antt =====
-- Rounds of the record reconciler over two providers.
use kube_dns_manager.Prelude.{
  ◌⊎◌, ℕ, suc, String, ◌≡◌, refl, Bool, true, false, ◌&&◌, ◌||◌, any, keep, length, Option, none,
  some, List, [], ◌∷◌, ◌++◌, ◌==◌,
}
use kube_dns_manager.Effects.{plain, index_out_of_range, ok, err}
use kube_dns_manager.Api.Meta.{Labels, equal, key_of}
use kube_dns_manager.Api.Record.{Record, RecordProviderStatus, find_provider_status}
use kube_dns_manager.Api.Provider.{selector_matches}
use kube_dns_manager.Finalizers.{add_finalizer}
use kube_dns_manager.Records.{
  unless_panic, release_panics, serve_panic, serve, visit_all, release_all, report, finish,
  reconcile_record,
}
use kube_dns_manager.Records.Statuses.{summarise}
use kube_dns_manager.Records.Summary.{lines, texts, is_nil, summarise_lem}
use kube_dns_manager.Records.Compaction.{present, finish_lem}
use kube_dns_manager.Records.Names.{names, run-Distinct}
use kube_dns_manager.Api.Generator.Resources.{Distinct}
use kube_dns_manager.Records.Coverage.{checked_in, takes, serve-frame, visit_all-checked_in}
use kube_dns_manager.Dns.{DnsProvider, Cache}
use kube_dns_manager.Records.{release}
use kube_dns_manager.Records.Client.{RecordCluster}
use kube_dns_manager.Records.Released.{Vanished, Deleted, release_drops}
use kube_dns_manager.Records.Aborts.{reconcile_record_aborts, reconcile_record_panics}
use kube_dns_manager.Records.Watch.{
  EmptySelectsAll, ListRecords, listed, watch_for_providers, watch_for_providers_complete,
}
use kube_dns_manager.Examples.Fixtures.{
  named, meta_of, status_of, record_with, first, other_domain, invalid, obliging, stubborn,
  cache_of_first,
}

abbrev ids : List RecordProviderStatus
ids = status_of "old" "9" ∷ []

abbrev web : Record
web = record_with (meta_of "web") ids

abbrev made : List RecordProviderStatus
made = status_of "old" "9" ∷ record (status_of "first" "1") { checked = true } ∷ []

visited : visit_all obliging cache_of_first web (other_domain ∷ first ∷ []) ids 0 ≡ (ok made, 1)
unfolding visit_all kube_dns_manager.Records.visit selector_matches
    kube_dns_manager.Api.Provider.in_domain kube_dns_manager.Prelude.has_suffix
    kube_dns_manager.Api.Provider.labels_match serve kube_dns_manager.Dns.ready_provider
    kube_dns_manager.Records.Statuses.write kube_dns_manager.Records.sync
    kube_dns_manager.Records.Statuses.enlist kube_dns_manager.Records.Statuses.current
    find_provider_status equal kube_dns_manager.Api.Record.success serve_panic
    kube_dns_manager.Records.call
visited = refl

visit_all-checked_in_example : checked_in made (named "old") ≡ (
    any (λ p. takes web p && equal (key_of p.meta) (named "old")) (other_domain ∷ first ∷ [])
    || checked_in ids (named "old"))
visit_all-checked_in_example =
    visit_all-checked_in obliging cache_of_first web (other_domain ∷ first ∷ []) ids made 0 1
      (named "old") visited

differs : equal (key_of first.meta) (named "old") ≡ false
unfolding equal
differs = refl

serve-frame_example :
    find_provider_status (serve obliging cache_of_first web first ids 0).0 (named "old")
    ≡ find_provider_status ids (named "old")
serve-frame_example = serve-frame obliging cache_of_first web first ids 0 (named "old") differs

finish_lem_example :
    finish obliging cache_of_first web made 1
    ≡ unless_panic obliging (release_panics obliging cache_of_first web made 1) (
        report obliging web
          (present (release_all obliging cache_of_first web made (length made) 1).0.0)
          (release_all obliging cache_of_first web made (length made) 1).1)
finish_lem_example = finish_lem obliging cache_of_first web made 1

abbrev failing : List RecordProviderStatus
failing =
    record (status_of "first" "") { message = "refused" }
    ∷ status_of "second" "2"
    ∷ record (status_of "third" "") { message = "no zone" }
    ∷ []

summarise_lem_example :
    ((summarise web.status failing).message ≡ lines (texts failing))
    × ((summarise web.status failing).all_ready ≡ is_nil (texts failing))
summarise_lem_example = summarise_lem web.status failing

has_finalizer : (add_finalizer web.meta).1 ≡ false
unfolding add_finalizer
has_finalizer = refl

visited_first :
    visit_all obliging cache_of_first web (first ∷ []) web.status.providers 2 ≡ (ok made, 3)
unfolding visit_all kube_dns_manager.Records.visit selector_matches
    kube_dns_manager.Api.Provider.in_domain kube_dns_manager.Prelude.has_suffix
    kube_dns_manager.Api.Provider.labels_match serve kube_dns_manager.Dns.ready_provider
    kube_dns_manager.Records.Statuses.write kube_dns_manager.Records.sync
    kube_dns_manager.Records.Statuses.enlist kube_dns_manager.Records.Statuses.current
    find_provider_status equal kube_dns_manager.Api.Record.success serve_panic
    kube_dns_manager.Records.call
visited_first = refl

broken_selector : selector_matches invalid.spec.selector web ≡ err (plain "not a valid selector")
unfolding selector_matches kube_dns_manager.Api.Provider.labels_match
broken_selector = refl

reconcile_record_aborts_example :
    reconcile_record obliging cache_of_first web 0 ≡ (err (plain "not a valid selector"), 3)
reconcile_record_aborts_example =
    reconcile_record_aborts obliging cache_of_first web (first ∷ invalid ∷ []) [] (first ∷ [])
      invalid [] made 0 1 2 3 (plain "not a valid selector") has_finalizer refl refl refl
      visited_first broken_selector

abbrev elsewhere : Record
elsewhere = record_with (record (meta_of "far") { namespace = "away" }) []

abbrev store : List Record
store = elsewhere ∷ web ∷ []

abbrev lists : ListRecords ℕ
lists namespace test w = (ok (keep (listed namespace test) store), suc w)

empty_selects_all : EmptySelectsAll first.spec.selector.label_selector
empty_selects_all _ = refl

lists_store :
    (test : Labels → Bool)
    → (lists first.meta.namespace test 0).0
      ≡ ok (keep (listed first.meta.namespace test) (elsewhere ∷ web ∷ []))
lists_store test = refl

taken : takes web first ≡ true
unfolding selector_matches kube_dns_manager.Api.Provider.in_domain
    kube_dns_manager.Prelude.has_suffix kube_dns_manager.Api.Provider.labels_match
taken = refl

watch_for_providers_complete_example :
    any (equal (key_of web.meta)) (watch_for_providers lists first 0).0 ≡ true
watch_for_providers_complete_example =
    watch_for_providers_complete lists first 0 (elsewhere ∷ []) [] web empty_selects_all lists_store
      refl taken

-- A provider whose Create panics.
abbrev broken : DnsProvider ℕ
broken = record stubborn {
  create = λ payload w. (record { failure = some index_out_of_range; payload = payload }, suc w);
}

abbrev two_providers : RecordCluster ℕ
two_providers = record obliging {
  list_providers = λ namespace w. (ok (other_domain ∷ first ∷ []), suc w);
}

abbrev broken_cache : Cache ℕ
broken_cache = ("first", record { provider = broken; generation = 1 }) ∷ []

none_before :
    visit_all two_providers broken_cache web (other_domain ∷ []) web.status.providers 2
    ≡ (ok ids, 2)
unfolding visit_all kube_dns_manager.Records.visit selector_matches
    kube_dns_manager.Api.Provider.in_domain kube_dns_manager.Prelude.has_suffix
none_before = refl

matches : selector_matches first.spec.selector web ≡ ok true
unfolding selector_matches kube_dns_manager.Api.Provider.in_domain
    kube_dns_manager.Prelude.has_suffix kube_dns_manager.Api.Provider.labels_match
matches = refl

panicked :
    serve_panic two_providers broken_cache web first web.status.providers 2
    ≡ some (index_out_of_range, 3)
unfolding serve_panic kube_dns_manager.Dns.ready_provider kube_dns_manager.Records.call
    kube_dns_manager.Records.Statuses.current find_provider_status equal
panicked = refl

reconcile_record_panics_example :
    reconcile_record two_providers broken_cache web 0 ≡ (err index_out_of_range, 3)
reconcile_record_panics_example =
    reconcile_record_panics two_providers broken_cache web (other_domain ∷ first ∷ []) []
      (other_domain ∷ []) first [] ids 0 1 2 2 3 index_out_of_range has_finalizer refl refl refl
      none_before matches panicked

-- A provider that deletes what it is asked to.
abbrev yielding : DnsProvider ℕ
yielding = record stubborn {
  delete = λ payload w. (record { failure = none; payload = record payload { id = "" } }, suc w);
}

abbrev yielding_cache : Cache ℕ
yielding_cache = ("first", record { provider = yielding; generation = 1 }) ∷ []

dropped : (release obliging yielding_cache web (status_of "first" "1") 0).0 ≡ none
unfolding release kube_dns_manager.Records.get_provider kube_dns_manager.Records.release_from
    kube_dns_manager.Dns.ready_provider
dropped = refl

release_drops_example :
    ((status_of "first" "1").checked ≡ false)
    × (((status_of "first" "1").record_id ≡ "")
        ⊎ (Vanished obliging yielding_cache web (status_of "first" "1") 0
            ⊎ Deleted obliging yielding_cache web (status_of "first" "1") 0))
release_drops_example = release_drops obliging yielding_cache web (status_of "first" "1") 0 dropped

run-Distinct_example :
    Distinct (names made)
    × Distinct (names (present (release_all obliging cache_of_first web made (length made) 1).0.0))
    × (finish obliging cache_of_first web made 1
        ≡ unless_panic obliging (release_panics obliging cache_of_first web made 1) (
            report obliging web
              (present (release_all obliging cache_of_first web made (length made) 1).0.0)
              (release_all obliging cache_of_first web made (length made) 1).1))
run-Distinct_example =
    run-Distinct obliging cache_of_first web (other_domain ∷ first ∷ []) 0 1 made (refl, tt) visited
