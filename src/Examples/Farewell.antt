-- ===== src/Examples/Farewell.antt =====
-- A deleted record that lets go of a Cloudflare zone.
use kube_dns_manager.Prelude.{
  ℕ, String, ◌≡◌, ◌≢◌, ◌⊎◌, refl, sym, ap, subst, ◌∙◌, true, false, none, some, Option, List, [],
  ◌∷◌, ◌==◌, arith, All, Bool-cases, Option-cases, inl, inr, any, lookup, nat_eq, if◌then◌else◌,
}
use kube_dns_manager.Effects.{Error, ok, err}
use kube_dns_manager.Api.Meta.{NamespacedName, key_of, equal, is_deleted}
use kube_dns_manager.Api.Record.{Record, RecordProviderStatus, success, find_provider_status}
use kube_dns_manager.Api.Provider.{Provider, selector_matches}
use kube_dns_manager.Dns.{Payload, DnsProvider, Cache, new_payload, ready_provider}
use kube_dns_manager.Dns.Cloudflare.{provider, delete, is_record_not_found_error}
use kube_dns_manager.Dns.Cloudflare.Laws.{provider-ClearsId}
use kube_dns_manager.Dns.Cloudflare.Speaks.{delete_speaks}
use kube_dns_manager.Dns.Cloudflare.Zone.{Entry, entry}
use kube_dns_manager.Records.Client.{RecordCluster, done}
use kube_dns_manager.Records.{conclude, sync, serve, visit, visit_all, get_provider, finish}
use kube_dns_manager.Records.Settled.{Promises, CachePromises, LookupsSpeak}
use kube_dns_manager.Records.Deletion.{Echoes, after_loop}
use kube_dns_manager.Records.Emptied.{Empties, Around}
use kube_dns_manager.Records.Leftovers.{NoProvider}
use kube_dns_manager.Records.Farewell.{deletion_leaves_nothing}
use kube_dns_manager.Examples.Fixtures.{
  named, meta_of, deleted_meta, record_with, status_of, web_spec, first,
}
use kube_dns_manager.Examples.Zone.{one_record, table_of, one_record-laws}
use kube_dns_manager.Examples.Refines.{silent}

abbrev zone : DnsProvider (Option Entry)
zone = provider one_record "zone" false

abbrev zones : Cache (Option Entry)
zones = ("first", record { provider = zone; generation = 1 }) ∷ []

-- Every provider that is asked for is there.
abbrev provider_at : NamespacedName → Provider
provider_at key = record first { meta = record (meta_of key.name) { namespace = key.namespace } }

abbrev settled : RecordCluster (Option Entry)
settled = record silent {
  get_provider = λ key w. (ok (provider_at key), w);
  get_cluster_provider = λ key w. (ok (provider_at key), w);
}

only_zone :
    (p : Provider) (dns : DnsProvider (Option Entry))
    → ready_provider zones p ≡ some dns
    → zone ≡ dns
unfolding ready_provider
only_zone p dns h = elim (Bool-cases ("first" == p.meta.uid)) [
  | inr other ↦ absurd (ground (arith, other))
  | inl same ↦ elim (Bool-cases (nat_eq 1 p.meta.generation)) [
    | inr old ↦ absurd (ground (arith, same, old))
    | inl new ↦ ground (arith, same, new)
  ]
]

got :
    (key : NamespacedName) (w : Option Entry)
    → get_provider settled key w ≡ (ok (provider_at key), w)
unfolding get_provider
got key w = ground arith

deletes :
    (payload : Payload) (w : Option Entry) (k : String)
    → table_of w k ≡ none
    → table_of (zone.delete payload w).1 k ≡ none
unfolding delete is_record_not_found_error
deletes payload none k h = ground arith
deletes payload (some e) k h = ground arith

zone-Empties : Empties zone table_of
unfolding delete is_record_not_found_error
zone-Empties = record { emptied = emptied; kept = kept }
  where
    emptied :
        (payload : Payload) (w : Option Entry)
        → (zone.delete payload w).0.failure ≡ none
        → table_of (zone.delete payload w).1 payload.id ≡ none
    emptied payload none h = ground arith
    emptied payload (some e) h = ground arith

    kept :
        (payload : Payload) (w : Option Entry) (e : Error)
        → (zone.delete payload w).0.failure ≡ some e
        → (zone.delete payload w).0.payload.id ≡ payload.id
    kept payload none e h = absurd (ground arith)
    kept payload (some x) e h = absurd (ground arith)

around : Around settled zones (named "first") table_of
around = record {
  events = λ meta kind reason text w k h. h;
  lookups = λ key w k h. rw (got key w) h;
  found = λ key w p h.
      let both : ok (provider_at key) ≡ ok p = sym (ap (λ x. x.0) (got key w)) ∙ h in
      let e : provider_at key ≡ p = cc both in sym (ap (λ x. key_of x.meta) e);
  deletions = λ p dns payload w k ready h.
      subst (λ d. table_of (d.delete payload w).1 k ≡ none) (only_zone p dns ready)
        (deletes payload w k h);
  own = λ p dns same ready. subst (λ d. Empties d table_of) (only_zone p dns ready) zone-Empties;
}

zone-Promises : Promises zone
zone-Promises = record {
  clears = provider-ClearsId one_record "zone" false;
  speaks = delete_speaks one_record "zone" false table_of one_record-laws;
}

promises : CachePromises zones
promises p dns ready = subst Promises (only_zone p dns ready) zone-Promises

speak : LookupsSpeak settled
speak key w e h =
    let both : ok (provider_at key) ≡ err e = sym (ap (λ x. x.0) (got key w)) ∙ h in
    absurd (ground (arith, both))

echoes : Echoes settled
echoes r saved w h =
    let e : r ≡ saved = cc h in
    (ap (λ x. x.status.all_ready) (sym e), ap (λ x. is_deleted x.meta) (sym e))

abbrev had : List RecordProviderStatus
had = status_of "first" "1" ∷ []

abbrev web : Record
web = record_with (deleted_meta "www") had

abbrev cleared : List RecordProviderStatus
cleared = record (status_of "first" "") { checked = true } ∷ []

looped : visit_all settled zones web (first ∷ []) had (some (entry web_spec)) ≡ (ok cleared, none)
unfolding visit_all visit selector_matches kube_dns_manager.Api.Provider.in_domain
    kube_dns_manager.Prelude.has_suffix kube_dns_manager.Api.Provider.labels_match serve
    ready_provider kube_dns_manager.Records.Statuses.write sync conclude new_payload delete
    kube_dns_manager.Records.Statuses.enlist kube_dns_manager.Records.Statuses.current
    find_provider_status equal success kube_dns_manager.Records.serve_panic
    kube_dns_manager.Records.call
looped = refl

ends : (finish settled zones web cleared none).0 ≡ ok done
unfolding finish kube_dns_manager.Records.release_all kube_dns_manager.Records.release
    kube_dns_manager.Records.Statuses.compact kube_dns_manager.Records.Statuses.dereference
    kube_dns_manager.Records.report kube_dns_manager.Records.conclude_record
    kube_dns_manager.Records.Statuses.summarise kube_dns_manager.Records.release_panics
    kube_dns_manager.Records.release_panic
ends = refl

deletion_leaves_nothing_example :
    (table_of (after_loop settled zones web cleared none) "1" ≡ none)
    ⊎ NoProvider settled zones web (named "first") "1" cleared none
unfolding equal
deletion_leaves_nothing_example =
    deletion_leaves_nothing settled zones web (named "first") table_of "1" around promises speak
      echoes refl refl (first ∷ []) had cleared (some (entry web_spec)) none (refl, tt) looped refl
      ends
