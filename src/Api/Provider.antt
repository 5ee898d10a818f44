-- ===== src/Api/Provider.antt =====
-- api/dns/v1/provider_types.go and provider_funcs.go. `Provider` and `ClusterProvider` have the
-- same fields and methods; a ClusterProvider has no namespace.
pub mod Selector
pub mod ProviderType
use Prim.Native.String.{◌++◌}
use kube_dns_manager.Prelude.{
  String, Bool, true, false, not, ◌&&◌, ◌||◌, Option, ◌==◌, has_suffix, nat_eq, if◌then◌else◌,
}
use kube_dns_manager.Effects.{Result, ok, err}
use kube_dns_manager.Api.Meta.{LabelSelector, Labels, ObjectMeta}
use kube_dns_manager.Api.Record.{Record}

pub record AliyunProviderConfig : Type 0 where
  pub domain_name : String
  pub access_key_id : String
  pub access_key_secret : String
  pub endpoint : String

pub record CloudflareProviderConfig : Type 0 where
  pub zone_name : String
  pub api_token : String
  pub key : String
  pub email : String
  pub match_exists_record : Bool

pub record JobProviderConfig : Type 0 where
  pub create_job_template : String
  pub update_job_template : String
  pub delete_job_template : String
  pub data_template : String
  pub data_update_strategy : String

pub record AdguardProviderConfig : Type 0 where
  pub url : String
  pub username : String
  pub password : String

pub record ProviderSelector : Type 0 where
  pub domain : String
  pub label_selector : LabelSelector

pub record ProviderSpec : Type 0 where
  pub type : String
  pub selector : ProviderSelector
  pub aliyun : Option AliyunProviderConfig
  pub cloudflare : Option CloudflareProviderConfig
  pub job : Option JobProviderConfig
  pub adguard : Option AdguardProviderConfig

pub record ProviderStatus : Type 0 where
  pub ready : Bool
  pub reason : String

-- A ProviderObject: a Provider or a ClusterProvider.
pub record Provider : Type 0 where
  pub meta : ObjectMeta
  pub spec : ProviderSpec
  pub status : ProviderStatus

unfoldable pub in_domain : String → String → Bool
in_domain domain name = name == domain || has_suffix name ("." ++ domain)

unfoldable pub labels_match : LabelSelector → Labels → Result Bool
labels_match s labels =
    if nat_eq s.size 0
    then ok true
    else elim s.as_selector [ err e ↦ err e | ok test ↦ ok (test labels) ]

-- ProviderSelector.Matches
unfoldable pub selector_matches : ProviderSelector → Record → Result Bool
selector_matches s r =
    if not (s.domain == "") && not (in_domain s.domain r.spec.name)
    then ok false
    else labels_match s.label_selector r.meta.labels
