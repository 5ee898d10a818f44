-- ===== src/Dns/Cloudflare.antt =====
-- internal/controller/dns/provider/cloudflare/cloudflare.go. The Cloudflare client is a parameter.
pub mod Laws
pub mod Zone
pub mod Moves
pub mod Speaks
pub mod Keeps
pub mod NewIds
use kube_dns_manager.Prelude.{
  ℕ, String, Bool, true, false, not, ◌&&◌, Option, none, some, List, [], ◌∷◌, ◌==◌, any, lookup,
  nat_eq, if◌then◌else◌,
}
use kube_dns_manager.Effects.{
  Error, plain, api, sdk, cf_not_found, cf_request, panic, nil_pointer, index_out_of_range, Result,
  ok, err, Exec, pure, raise, ◌>>=◌,
}
use kube_dns_manager.Api.Record.{ℤ, RecordSpec, extra_bool, extra_string, extra_strings}
use kube_dns_manager.Api.Provider.{Provider, CloudflareProviderConfig}
use kube_dns_manager.Dns.{Payload, Answer, DnsProvider, Factory}

abbrev pub extra_key_proxied : String
extra_key_proxied = "dns.xzzpig.com/cloudflare/proxied"

abbrev pub extra_key_comment : String
extra_key_comment = "dns.xzzpig.com/cloudflare/comment"

abbrev pub extra_key_tags : String
extra_key_tags = "dns.xzzpig.com/cloudflare/tags"

-- CreateDNSRecordParams and UpdateDNSRecordParams, whose comments differ in type.
pub record RecordParams (C : Type 0) : Type 0 where
  pub name : String
  pub type : String
  pub content : String
  pub ttl : ℤ
  pub proxied : Option Bool
  pub comment : C
  pub tags : List String

-- *cloudflare.API: a record is known by its ID. `list` returns the IDs of a page and the total.
pub record CloudflareApi (W : Type 0) : Type 0 where
  pub create : String → RecordParams String → Exec W String
  pub update : String → String → RecordParams (Option String) → Exec W String
  pub delete : String → String → Exec W (Unit {0})
  pub list : String → String → String → String → Exec W (List String × ℕ)
  pub zone_id_by_name : String → Exec W String

pub record CloudflareSdk (W : Type 0) : Type 0 where
  pub new_with_api_token : String → Exec W (CloudflareApi W)
  pub new : String → String → Exec W (CloudflareApi W)

unfoldable pub is_record_not_found_error : Error → Bool
is_record_not_found_error (cf_not_found s) = true
is_record_not_found_error (plain s) = false
is_record_not_found_error (api nf s) = false
is_record_not_found_error (sdk c s) = false
is_record_not_found_error (cf_request cs s) = false
is_record_not_found_error (panic s) = false

unfoldable pub is_record_duplicate_error : Error → Bool
is_record_duplicate_error (cf_request codes s) = any (λ code. nat_eq code 81058) codes
is_record_duplicate_error (plain s) = false
is_record_duplicate_error (api nf s) = false
is_record_duplicate_error (sdk c s) = false
is_record_duplicate_error (cf_not_found s) = false
is_record_duplicate_error (panic s) = false

-- A missing key of a Go map reads as the empty text.
unfoldable pub create_params : RecordSpec → RecordParams String
create_params r = record {
  name = r.name;
  type = r.type;
  content = r.value;
  ttl = r.ttl;
  proxied = extra_bool r extra_key_proxied;
  comment = elim (lookup extra_key_comment r.extra) [ none ↦ "" | some c ↦ c ];
  tags = extra_strings r extra_key_tags;
}

unfoldable pub update_params : RecordSpec → RecordParams (Option String)
update_params r = record {
  name = r.name;
  type = r.type;
  content = r.value;
  ttl = r.ttl;
  proxied = extra_bool r extra_key_proxied;
  comment = extra_string r extra_key_comment;
  tags = extra_strings r extra_key_tags;
}

module _ {W : Type 0} (cf : CloudflareApi W) (zone_id : String) (match_exists_record : Bool) where
  -- An index past the end of the list is a panic.
  unfoldable pub find : RecordSpec → Exec W String
  find r w =
      let (got, w') = cf.list zone_id r.name r.type r.value w in
      elim got [
        | err e ↦ (err e, w')
        | ok (ids, total) ↦
            if nat_eq total 0
            then (ok "", w')
            else elim ids [ [] ↦ (err index_out_of_range, w') | id ∷ _ ↦ (ok id, w') ]
      ]

  -- `payload.Id, err = p.find(...)` writes the empty ID where it fails.
  unfoldable pub adopt : Payload → W → Answer × W
  adopt payload w =
      let (got, w') = find payload.spec w in
      elim got [
        | err e ↦ (record { failure = some e; payload = record payload { id = "" } }, w')
        | ok id ↦ (record { failure = none; payload = record payload { id = id } }, w')
      ]

  unfoldable pub create : Payload → W → Answer × W
  unfolding create_params
  create payload w =
      let (got, w') = cf.create zone_id (create_params payload.spec) w in
      elim got [
        | ok id ↦ (record { failure = none; payload = record payload { id = id } }, w')
        | err e ↦
            if match_exists_record && is_record_duplicate_error e
            then adopt payload w'
            else (record { failure = some e; payload = payload }, w')
      ]

  unfoldable pub update : Payload → W → Answer × W
  unfolding update_params
  update payload w =
      let (got, w') = cf.update zone_id payload.id (update_params payload.spec) w in
      elim got [
        | ok id ↦ (record { failure = none; payload = record payload { id = id } }, w')
        | err e ↦
            if is_record_not_found_error e
            then create payload w'
            else (record { failure = some e; payload = payload }, w')
      ]

  unfoldable pub delete : Payload → W → Answer × W
  unfolding is_record_not_found_error
  delete payload w =
      let (got, w') = cf.delete zone_id payload.id w in
      elim got [
        | ok _ ↦ (record { failure = none; payload = record payload { id = "" } }, w')
        | err e ↦
            if is_record_not_found_error e
            then (record { failure = none; payload = record payload { id = "" } }, w')
            else (record { failure = some e; payload = payload }, w')
      ]

  abbrev pub provider : DnsProvider W
  provider = record { create = create; update = update; delete = delete }

abbrev pub zone_of : Provider → CloudflareProviderConfig → String
zone_of p c = if c.zone_name == "" then p.spec.selector.domain else c.zone_name

abbrev pub open_zone :
    {W : Type 0} → CloudflareApi W → CloudflareProviderConfig → String → Exec W (DnsProvider W)
open_zone cf c zone_name = do
  zone_id ← cf.zone_id_by_name zone_name
  pure (provider cf zone_id c.match_exists_record)

module _ {W : Type 0} (cf_sdk : CloudflareSdk W) where
  abbrev pub connect : CloudflareProviderConfig → Exec W (CloudflareApi W)
  connect c =
      if not (c.api_token == "")
      then cf_sdk.new_with_api_token c.api_token
      else if not (c.key == "") && not (c.email == "")
      then cf_sdk.new c.key c.email
      else raise (plain "cloudflare provider requires either apiToken or key/email to be set")

  -- The factory that init registers. A missing configuration is a nil pointer.
  unfoldable pub factory : Factory W
  factory p = elim p.spec.cloudflare [
    | none ↦ raise nil_pointer
    | some c ↦ do cf ← connect c; open_zone cf c (zone_of p c)
  ]
