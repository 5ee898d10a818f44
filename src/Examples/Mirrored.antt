-- ===== src/Examples/Mirrored.antt =====
-- One record that is run once at an empty zone.
use kube_dns_manager.Prelude.{
  String, ◌≡◌, refl, sym, ap, subst, false, none, some, Option, [], ◌==◌, arith, eq_iff, Bool-cases,
  inl, inr,
}
use kube_dns_manager.Effects.{ok}
use kube_dns_manager.Api.Record.{Record, success, error}
use kube_dns_manager.Dns.{new_payload}
use kube_dns_manager.Dns.Contract.{Table}
use kube_dns_manager.Dns.Cloudflare.{RecordParams, create, create_params, provider}
use kube_dns_manager.Dns.Cloudflare.Zone.{Entry, entry}
use kube_dns_manager.Records.Statuses.{fresh}
use kube_dns_manager.Records.{conclude, sync}
use kube_dns_manager.Records.Zones.{System, ran, Reached, started, run}
use kube_dns_manager.Records.Mirrored.{set_at_there, zone_mirrors}
use kube_dns_manager.Examples.Fixtures.{named, meta_of, record_with, web_spec}
use kube_dns_manager.Examples.Zone.{one_record, zone_create, table_of, one_record-laws}
use kube_dns_manager.Examples.Refines.{silent}

unused :
    (p : RecordParams String) (w : Option Entry) (id : String)
    → (zone_create p w).0 ≡ ok id
    → table_of w id ≡ none
unused p none id h = ground arith
unused p (some x) id h = absurd (ground arith)

abbrev empty_zone : Table Entry
empty_zone k = none

abbrev before : System (Option Entry)
before = record { statuses = λ n. fresh (named "first"); specs = λ n. web_spec; world = none }

abbrev web : Record
web = record_with (meta_of "www") []

abbrev after : System (Option Entry)
after = ran silent (provider one_record "zone" false) before "www" web false

nothing_there : (k : String) → table_of none k ≡ none
nothing_there k = ground arith

reached : Reached silent (provider one_record "zone" false) table_of empty_zone after
unfolding sync conclude create create_params new_payload success error
reached = run before "www" web false (started before (λ n. refl) nothing_there) refl

-- No record has the ID "2".
away : (l : String) → ((after.statuses l).record_id == "2") ≡ false
unfolding sync conclude create create_params new_payload success error
away l = elim (Bool-cases (l == "www")) [
  | inl own ↦
      subst (λ x. ((after.statuses x).record_id == "2") ≡ false) (sym ((eq_iff l "www").0 own)) refl
  | inr other ↦
      ap (λ s. s.record_id == "2")
        (set_at_there "www" l (after.statuses "www") before.statuses other)
]

abbrev after_name : String
after_name = "www"

zone_mirrors_example :
    (table_of after.world (after.statuses "www").record_id ≡ some (entry (after.specs "www")))
    × (after_name ≡ after_name)
    × (table_of after.world "2" ≡ none)
unfolding sync conclude create create_params new_payload success error
zone_mirrors_example =
    zone_mirrors one_record "zone" table_of silent empty_zone after one_record-laws unused
      (λ meta kind reason text w k. refl) reached "www" "www" "2" refl refl away
