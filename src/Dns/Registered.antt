-- ===== src/Dns/Registered.antt =====
-- The providers that the init functions below internal/controller/dns/provider register.
use kube_dns_manager.Prelude.{
  String, ◌≡◌, subst, Option, none, some, [], ◌==◌, arith, lookup, lookup-insert, Bool-cases, inl,
  inr, Option-cases, if◌then◌else◌,
}
use kube_dns_manager.Effects.{Result, Result-cases, ok}
use kube_dns_manager.Api.Provider.{Provider, AliyunProviderConfig, CloudflareProviderConfig}
use kube_dns_manager.Api.Provider.ProviderType
use kube_dns_manager.Dns.{DnsProvider, Factory, Registry, register, new, Payload, ClearsId}
use kube_dns_manager.Dns.Cloudflare
use kube_dns_manager.Dns.Cloudflare.Laws as CloudflareLaws
use kube_dns_manager.Dns.Alidns
use kube_dns_manager.Dns.Alidns.Laws as AlidnsLaws
use kube_dns_manager.Dns.Adguard
use kube_dns_manager.Dns.Adguard.Laws as AdguardLaws
use kube_dns_manager.Dns.Job
use kube_dns_manager.Dns.Job.Config as JobConfig
use kube_dns_manager.Dns.Job.Laws as JobLaws

-- What the factories take from outside.
pub record Services (W : Type 0) : Type 0 where
  pub cloudflare_sdk : Cloudflare.CloudflareSdk W
  pub alidns_sdk : Alidns.AlidnsSdk W
  pub json : Adguard.Json
  pub open_url : String → Option (String × String) → Result (Adguard.Server W)
  pub job_cluster : Job.JobCluster W
  pub parse_template : String → String → Result Job.Template

-- The calls of Register in the init functions; no type stands twice, so their order is of no matter.
unfoldable pub registered : {W : Type 0} → Services W → Registry W
registered s = register ProviderType.cloudflare (Cloudflare.factory s.cloudflare_sdk) (
    register ProviderType.aliyun (Alidns.factory s.alidns_sdk) (
      register ProviderType.adguard (Adguard.factory s.json s.open_url)
        (register ProviderType.job (JobConfig.factory s.job_cluster s.parse_template) [])))

-- A factory makes only providers whose Delete clears the ID where it succeeds.
abbrev AllClear : {W : Type 0} → Factory W → Type 0
AllClear {W} f =
    (p : Provider) (w w' : W) (dns : DnsProvider W) → f p w ≡ (ok dns, w') → ClearsId dns

module _ {W : Type 0} where
  cloudflare_zone :
      (cf : Cloudflare.CloudflareApi W) (c : CloudflareProviderConfig) (zone_name : String)
      (w w' : W) (dns : DnsProvider W)
      → Cloudflare.open_zone cf c zone_name w ≡ (ok dns, w')
      → ClearsId dns
  cloudflare_zone cf c zone_name w w' dns e =
      elim (Result-cases (cf.zone_id_by_name zone_name w).0) [
        | inr (f, failed) ↦ absurd (ground (arith, failed))
        | inl (zone, named) ↦
            let same : Cloudflare.provider cf zone c.match_exists_record ≡ dns =
              ground (arith, named) in
            subst ClearsId same (CloudflareLaws.provider-ClearsId cf zone c.match_exists_record)
      ]

  cloudflare-AllClear : (cf_sdk : Cloudflare.CloudflareSdk W) → AllClear (Cloudflare.factory cf_sdk)
  unfolding Cloudflare.factory
  cloudflare-AllClear cf_sdk p w w' dns e = elim (Option-cases p.spec.cloudflare) [
    | inl absent ↦ absurd (ground (arith, absent))
    | inr (c, present) ↦ elim (Result-cases (Cloudflare.connect cf_sdk c w).0) [
      | inr (f, failed) ↦ absurd (ground (arith, present, failed))
      | inl (cf, connected) ↦
          cloudflare_zone cf c (Cloudflare.zone_of p c) (Cloudflare.connect cf_sdk c w).1 w' dns
            (ground (arith, present, connected))
    ]
  ]

  open_domain_lem :
      (sdk : Alidns.AlidnsSdk W) (c : AliyunProviderConfig) (domain : String) (w w' : W)
      (dns : DnsProvider W)
      → Alidns.open_domain sdk c domain w ≡ (ok dns, w')
      → ClearsId dns
  open_domain_lem sdk c domain w w' dns e =
      let opened = sdk c.access_key_id c.access_key_secret (Alidns.endpoint_of c) w in
      elim (Result-cases opened.0) [
        | inr (f, failed) ↦ absurd (ground (arith, failed))
        | inl (client, connected) ↦
            elim (Result-cases (client.describe_domain_info domain opened.1).0) [
              | inr (f, failed) ↦ absurd (ground (arith, connected, failed))
              | inl (_, described) ↦
                  let same : Alidns.provider client domain ≡ dns =
                    ground (arith, connected, described) in
                  subst ClearsId same (AlidnsLaws.provider-ClearsId client domain)
            ]
      ]

  alidns-AllClear : (sdk : Alidns.AlidnsSdk W) → AllClear (Alidns.factory sdk)
  unfolding Alidns.factory
  alidns-AllClear sdk p w w' dns e = elim (Option-cases p.spec.aliyun) [
    | inl absent ↦ absurd (ground (arith, absent))
    | inr (c, present) ↦ elim (Bool-cases (c.domain_name == "")) [
      | inr named ↦ open_domain_lem sdk c c.domain_name w w' dns (rw (present, named) at e)
      | inl unnamed ↦ elim (Bool-cases (p.spec.selector.domain == "")) [
        | inl nowhere ↦ absurd (ground (arith, present, unnamed, nowhere))
        | inr selected ↦
            open_domain_lem sdk c p.spec.selector.domain w w' dns
              (rw (present, unnamed, selected) at e)
      ]
    ]
  ]

  adguard-AllClear :
      (json : Adguard.Json)
      (open_url : String → Option (String × String) → Result (Adguard.Server W))
      → AllClear (Adguard.factory json open_url)
  unfolding Adguard.factory
  adguard-AllClear json open_url p w w' dns e = elim (Option-cases p.spec.adguard) [
    | inl absent ↦ absurd (ground (arith, absent))
    | inr (c, present) ↦
        let user : Option (String × String) =
          if c.username == "" then none else some (c.username, c.password) in
        elim (Result-cases (open_url c.url user)) [
          | inr (f, failed) ↦ absurd (ground (arith, present, failed))
          | inl (server, opened) ↦
              let same : Adguard.provider json server ≡ dns = ground (arith, present, opened) in
              subst ClearsId same (AdguardLaws.provider-ClearsId json server)
        ]
  ]

  job-AllClear :
      (job_cluster : Job.JobCluster W) (parse : String → String → Result Job.Template)
      → AllClear (JobConfig.factory job_cluster parse)
  unfolding JobConfig.factory
  job-AllClear job_cluster parse p w w' dns e = elim (Option-cases p.spec.job) [
    | inl absent ↦ absurd (ground (arith, absent))
    | inr (c, present) ↦
        elim (Result-cases (JobConfig.configure job_cluster parse p.meta.namespace c)) [
          | inr (f, failed) ↦ absurd (ground (arith, present, failed))
          | inl (q, configured) ↦
              let same : Job.provider job_cluster q ≡ dns = ground (arith, present, configured) in
              subst ClearsId same (JobLaws.provider-ClearsId job_cluster q)
        ]
  ]

  register-AllClear :
      (t : String) (f : Factory W) (fs : Registry W)
      → AllClear f
      → ((u : String) (g : Factory W) → lookup u fs ≡ some g → AllClear g)
      → (u : String) (g : Factory W) → lookup u (register t f fs) ≡ some g
      → AllClear g
  unfolding register
  register-AllClear t f fs own rest u g found = elim (Bool-cases (t == u)) [
    | inl same ↦
        let e : f ≡ g = ground (arith, same, lookup-insert t u f fs, found) in subst AllClear e own
    | inr other ↦ rest u g (ground (arith, other, lookup-insert t u f fs, found))
  ]

  nothing_registered : (u : String) (g : Factory W) → lookup u [] ≡ some g → ⊥
  nothing_registered u g h = cc

  registered-AllClear :
      (s : Services W) (u : String) (g : Factory W) → lookup u (registered s) ≡ some g → AllClear g
  unfolding registered
  registered-AllClear s =
      register-AllClear ProviderType.cloudflare (Cloudflare.factory s.cloudflare_sdk) _
        (cloudflare-AllClear s.cloudflare_sdk)
        (register-AllClear ProviderType.aliyun (Alidns.factory s.alidns_sdk) _
          (alidns-AllClear s.alidns_sdk)
          (register-AllClear ProviderType.adguard (Adguard.factory s.json s.open_url) _
            (adguard-AllClear s.json s.open_url)
            (register-AllClear ProviderType.job (JobConfig.factory s.job_cluster s.parse_template)
              [] (job-AllClear s.job_cluster s.parse_template)
              (λ u g found. absurd (nothing_registered u g found)))))

  pub new-AllClear :
      (s : Services W) (p : Provider) (w w' : W) (dns : DnsProvider W)
      → new (registered s) p w ≡ (ok dns, w')
      → ClearsId dns
  unfolding new
  new-AllClear s p w w' dns e = elim (Option-cases (lookup p.spec.type (registered s))) [
    | inl absent ↦ absurd (ground (arith, absent))
    | inr (f, found) ↦ registered-AllClear s p.spec.type f found p w w' dns (rw (found, new) at e)
  ]

  -- A Delete that succeeds clears the record's ID, by every provider that New makes with the factories
  -- of this program, whatever the services behind them answer.
  pub new_clears :
      (s : Services W) (p : Provider) (w w' : W) (dns : DnsProvider W) (payload : Payload) (v : W)
      → new (registered s) p w ≡ (ok dns, w')
      → (dns.delete payload v).0.failure ≡ none
      → (dns.delete payload v).0.payload.id ≡ ""
  new_clears s p w w' dns payload v made = (new-AllClear s p w w' dns made).cleared payload v
