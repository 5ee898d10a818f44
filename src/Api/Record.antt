-- ===== src/Api/Record.antt =====
-- api/dns/v1/record_types.go and record_funcs.go.
use kube_dns_manager.Prelude.{
  ℕ, String, Bool, Option, none, some, List, [], ◌∷◌, ◌==◌, ◌&&◌, lookup, split, if◌then◌else◌,
}
use kube_dns_manager.Effects.{Error, error_text}
use kube_dns_manager.Api.Meta.{NamespacedName, equal, Labels, ObjectMeta}

-- Go's int: `negsuc n` is -(n + 1).
pub data ℤ : Type 0 where
  pos : ℕ → ℤ
  negsuc : ℕ → ℤ

pub record RecordSpec : Type 0 where
  pub name : String
  pub type : String
  pub value : String
  pub ttl : ℤ
  pub extra : Labels

pub record RecordProviderStatus : Type 0 where
  pub named : NamespacedName
  pub record_id : String
  pub message : String
  pub data_ : String
  pub checked : Bool

pub record RecordStatus : Type 0 where
  pub checked : Bool
  pub all_ready : Bool
  pub message : String
  pub providers : List RecordProviderStatus

pub record Record : Type 0 where
  pub meta : ObjectMeta
  pub spec : RecordSpec
  pub status : RecordStatus

-- RecordList.Get
unfoldable pub get : List Record → String → String → Option Record
get [] namespace name = none
get (r ∷ rs) namespace name =
    if r.meta.namespace == namespace && r.meta.name == name then some r else get rs namespace name

unfoldable pub extra_bool : RecordSpec → String → Option Bool
extra_bool r key = elim (lookup key r.extra) [ none ↦ none | some value ↦ some (value == "true") ]

unfoldable pub extra_string : RecordSpec → String → Option String
extra_string r key = elim (lookup key r.extra) [ none ↦ none | some value ↦ some value ]

-- A nil slice is the empty list.
unfoldable pub extra_strings : RecordSpec → String → List String
extra_strings r key = elim (lookup key r.extra) [ none ↦ [] | some value ↦ split value b',' ]

unfoldable pub find_provider_status :
    List RecordProviderStatus → NamespacedName → Option RecordProviderStatus
find_provider_status [] p = none
find_provider_status (s ∷ ss) p = if equal s.named p then some s else find_provider_status ss p

unfoldable pub success : RecordProviderStatus → String → String → RecordProviderStatus
success s id payload_data = record s { record_id = id; data_ = payload_data; message = "" }

unfoldable pub error : RecordProviderStatus → String → String → Error → RecordProviderStatus
unfolding error_text
error s id payload_data e = record s {
  record_id = id;
  data_ = payload_data;
  message = error_text e;
}
