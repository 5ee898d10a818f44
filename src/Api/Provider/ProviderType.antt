-- ===== src/Api/Provider/ProviderType.antt =====
-- The provider types of api/dns/v1/provider_types.go.
use kube_dns_manager.Prelude.{String}

abbrev pub aliyun : String
aliyun = "ALIYUN"

abbrev pub cloudflare : String
cloudflare = "CLOUDFLARE"

abbrev pub job : String
job = "JOB"

abbrev pub adguard : String
adguard = "ADGUARD"
