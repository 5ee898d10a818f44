-- ===== src/Dns.antt =====
-- internal/controller/dns/provider/provider.go: the interface of the DNS providers, their registry
-- and the cache of the providers that are ready.
pub mod Cloudflare
pub mod Alidns
pub mod Adguard
pub mod Job
pub mod Contract
pub mod Registered
use kube_dns_manager.Prelude.{
  ℕ, String, ◌≡◌, Option, none, some, List, lookup, insert, nat_eq, if◌then◌else◌,
}
use kube_dns_manager.Effects.{Error, plain, Exec, raise}
use kube_dns_manager.Api.Record.{RecordSpec, RecordProviderStatus}
use kube_dns_manager.Api.Provider.{Provider}

abbrev pub error_provider_not_found : Error
error_provider_not_found = plain "provider not found"

pub record Payload : Type 0 where
  pub id : String
  pub data_ : String
  pub spec : RecordSpec

-- What a call leaves: its error, nil as `none`, and the payload, whose Id and Data are in and out. A
-- call that panics returns nothing; its panic stands in the place of the error.
pub record Answer : Type 0 where
  pub failure : Option Error
  pub payload : Payload

-- interface DNSProvider
pub record DnsProvider (W : Type 0) : Type 0 where
  pub create : Payload → W → Answer × W
  pub update : Payload → W → Answer × W
  pub delete : Payload → W → Answer × W

pub record CachedDnsProvider (W : Type 0) : Type 0 where
  pub provider : DnsProvider W
  pub generation : ℕ

-- DNSProviderFactory
abbrev pub Factory : Type 0 → Type 0
Factory W = Provider → Exec W (DnsProvider W)

abbrev pub Registry : Type 0 → Type 0
Registry W = List (String × Factory W)

-- providerCache: by the UID of the provider object
abbrev pub Cache : Type 0 → Type 0
Cache W = List (String × CachedDnsProvider W)

-- Register
unfoldable pub register : {W : Type 0} → String → Factory W → Registry W → Registry W
register provider_type factory providers = insert provider_type factory providers

-- New
unfoldable pub new : {W : Type 0} → Registry W → Provider → Exec W (DnsProvider W)
new providers p = elim (lookup p.spec.type providers) [
  | none ↦ raise error_provider_not_found
  | some factory ↦ factory p
]

-- NewPayload
unfoldable pub new_payload : RecordProviderStatus → RecordSpec → Payload
new_payload status spec = record { id = status.record_id; data_ = status.data_; spec = spec }

-- The cached provider, if it was made for the object's present generation.
unfoldable pub ready_provider : {W : Type 0} → Cache W → Provider → Option (DnsProvider W)
ready_provider cache p = elim (lookup p.meta.uid cache) [
  | none ↦ none
  | some cached ↦ if nat_eq cached.generation p.meta.generation then some cached.provider else none
]

-- What the Record controller relies on: a Delete that succeeds clears the record's ID.
pub record ClearsId {W : Type 0} (dns : DnsProvider W) : Type 0 where
  pub cleared :
      (payload : Payload) (w : W)
      → (dns.delete payload w).0.failure ≡ none
      → (dns.delete payload w).0.payload.id ≡ ""

-- Every provider of the cache clears the ID.
abbrev pub CacheClearsId : {W : Type 0} → Cache W → Type 0
CacheClearsId {W} cache =
    (uid : String) (cached : CachedDnsProvider W)
    → lookup uid cache ≡ some cached
    → ClearsId cached.provider
