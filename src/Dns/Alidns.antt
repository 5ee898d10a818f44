-- ===== src/Dns/Alidns.antt =====
-- internal/controller/dns/provider/alidns/alidns.go. The Alibaba Cloud client is a parameter.
pub mod Laws
pub mod Names
use Prim.Native.String.{◌++◌}
use kube_dns_manager.Prelude.{
  ℕ, zero, suc, String, Bool, true, false, not, Option, none, some, List, [], ◌∷◌, ◌==◌, nat_eq,
  trim_suffix, if◌then◌else◌,
}
use kube_dns_manager.Effects.{
  Error, plain, api, sdk, cf_not_found, cf_request, panic, nil_pointer, index_out_of_range, Result,
  ok, err, Exec, pure, raise, ◌>>=◌,
}
use kube_dns_manager.Api.Record.{ℤ, pos, negsuc, RecordSpec, extra_string}
use kube_dns_manager.Api.Provider.{Provider, ProviderSpec, AliyunProviderConfig}
use kube_dns_manager.Dns.{Payload, Answer, DnsProvider, Factory}

abbrev pub extra_key_line : String
extra_key_line = "dns.xzzpig.com/alidns/line"

-- What AddDomainRecord and UpdateDomainRecord are sent besides the domain and the ID.
pub record DomainRecord : Type 0 where
  pub rr : String
  pub type : String
  pub value : String
  pub ttl : Option ℤ
  pub line : Option String

-- *alidns.Client: a record is known by its ID. `describe_domain_records` takes the domain and the
-- keywords for host, type and value, and returns the total and the IDs of a page.
pub record AlidnsApi (W : Type 0) : Type 0 where
  pub add_domain_record : String → DomainRecord → Exec W String
  pub update_domain_record : String → DomainRecord → Exec W String
  pub delete_domain_record : String → Exec W (Unit {0})
  pub describe_domain_records : String → String → String → String → Exec W (ℕ × List String)
  pub describe_domain_info : String → Exec W (Unit {0})

-- NewClient, from key, secret and endpoint.
abbrev pub AlidnsSdk : Type 0 → Type 0
AlidnsSdk W = String → String → String → Exec W (AlidnsApi W)

-- The host part of a name under the domain.
unfoldable pub get_rr : String → String → String
get_rr domain_name domain =
    if domain == domain_name then "" else trim_suffix domain ("." ++ domain_name)

unfoldable pub get_ttl : ℤ → Option ℤ
get_ttl (pos zero) = none
get_ttl (pos (suc n)) = some (pos (suc n))
get_ttl (negsuc n) = some (negsuc n)

abbrev sdk_code : Error → Option String
sdk_code (sdk code s) = some code
sdk_code (plain s) = none
sdk_code (api nf s) = none
sdk_code (cf_not_found s) = none
sdk_code (cf_request cs s) = none
sdk_code (panic s) = none

unfoldable pub is_record_not_found_error : Error → Bool
is_record_not_found_error e = elim (sdk_code e) [
  | none ↦ false
  | some code ↦ code == "DomainRecordNotBelongToUser"
]

unfoldable pub is_record_duplicate_error : Error → Bool
is_record_duplicate_error e = elim (sdk_code e) [
  | none ↦ false
  | some code ↦ code == "DomainRecordDuplicate"
]

unfoldable pub domain_record : String → RecordSpec → DomainRecord
domain_record domain_name r = record {
  rr = get_rr domain_name r.name;
  type = r.type;
  value = r.value;
  ttl = get_ttl r.ttl;
  line = extra_string r extra_key_line;
}

module _ {W : Type 0} (client : AlidnsApi W) (domain_name : String) where
  -- An index past the end of the list is a panic.
  unfoldable pub find : RecordSpec → Exec W String
  find r w =
      let (got, w') =
        client.describe_domain_records domain_name (get_rr domain_name r.name) r.type r.value w in
      elim got [
        | err e ↦ (err e, w')
        | ok (total, ids) ↦
            if nat_eq total 0
            then (ok "", w')
            else elim ids [ [] ↦ (err index_out_of_range, w') | id ∷ _ ↦ (ok id, w') ]
      ]

  -- A duplicate is looked up: the error of the search comes first, then that of the addition.
  unfoldable pub adopt : Error → Payload → W → Answer × W
  adopt e payload w =
      let (got, w') = find payload.spec w in
      elim got [
        | err f ↦ (record { failure = some f; payload = payload }, w')
        | ok id ↦
            if id == ""
            then (record { failure = some e; payload = payload }, w')
            else (record { failure = none; payload = record payload { id = id } }, w')
      ]

  unfoldable pub create : Payload → W → Answer × W
  create payload w =
      let (got, w') =
        client.add_domain_record domain_name (domain_record domain_name payload.spec) w in
      elim got [
        | ok id ↦ (record { failure = none; payload = record payload { id = id } }, w')
        | err e ↦
            if is_record_duplicate_error e
            then adopt e payload w'
            else (record { failure = some e; payload = payload }, w')
      ]

  unfoldable pub update : Payload → W → Answer × W
  update payload w =
      let (got, w') =
        client.update_domain_record payload.id (domain_record domain_name payload.spec) w in
      elim got [
        | ok id ↦ (record { failure = none; payload = record payload { id = id } }, w')
        | err e ↦
            if is_record_not_found_error e
            then create payload w'
            else if is_record_duplicate_error e
            then (record { failure = none; payload = payload }, w')
            else (record { failure = some e; payload = payload }, w')
      ]

  unfoldable pub delete : Payload → W → Answer × W
  delete payload w =
      let (got, w') = client.delete_domain_record payload.id w in
      elim got [
        | err e ↦ (record { failure = some e; payload = payload }, w')
        | ok _ ↦ (record { failure = none; payload = record payload { id = "" } }, w')
      ]

  abbrev pub provider : DnsProvider W
  provider = record { create = create; update = update; delete = delete }

abbrev pub endpoint_of : AliyunProviderConfig → String
endpoint_of c = if c.endpoint == "" then "dns.aliyuncs.com" else c.endpoint

module _ {W : Type 0} (new_client : AlidnsSdk W) where
  abbrev pub open_domain : AliyunProviderConfig → String → Exec W (DnsProvider W)
  open_domain c domain_name = do
    client ← new_client c.access_key_id c.access_key_secret (endpoint_of c)
    _ ← client.describe_domain_info domain_name
    pure (provider client domain_name)

  -- The factory that init registers. A missing configuration is a nil pointer.
  unfoldable pub factory : Factory W
  factory p = elim p.spec.aliyun [
    | none ↦ raise nil_pointer
    | some c ↦
        if not (c.domain_name == "")
        then open_domain c c.domain_name
        else if not (p.spec.selector.domain == "")
        then open_domain c p.spec.selector.domain
        else raise (plain "aliyun DNS provider requires domain name")
  ]
