-- ===== src/Examples/Providers.antt =====
-- Runs of the provider reconciler.
use kube_dns_manager.Prelude.{
  ℕ, suc, String, ◌≡◌, refl, Bool, true, false, not, any, Option, none, some, List, [], ◌∷◌, ◌==◌,
  nat_eq, is_some, if◌then◌else◌,
}
use kube_dns_manager.Effects.{plain, api, nil_pointer, ok, err}
use kube_dns_manager.Api.Meta.{NamespacedName, to_string, is_deleted}
use kube_dns_manager.Api.Record.{Record}
use kube_dns_manager.Api.Provider.{Provider}
use kube_dns_manager.Api.Provider.ProviderType as ProviderType
use kube_dns_manager.Finalizers.{add_finalizer}
use kube_dns_manager.Dns.{DnsProvider, Registry, Payload, new, ready_provider}
use kube_dns_manager.Dns.Adguard as Adguard
use kube_dns_manager.Dns.Registered.{Services, registered}
use kube_dns_manager.Providers.{ProviderCluster, body, let_go, reconcile, reported}
use kube_dns_manager.Providers.Laws.{holds, body_makes}
use kube_dns_manager.Providers.Cached.{started, ran, ready_provider_clears}
use kube_dns_manager.Examples.Fixtures.{
  named, deleted_meta, meta_of, status_of, record_with, first, stubborn, web_spec,
}

-- One record holds an ID at the provider `first`.
abbrev cluster : ProviderCluster ℕ
cluster = record {
  get_provider = λ key w. (ok first, suc w);
  update_provider = λ p w. (ok p, suc w);
  update_status = λ p w. (ok p, suc w);
  list_records = λ namespace key w.
      (ok (record_with (meta_of "web") (status_of "first" "1" ∷ []) ∷ []), suc w);
}

abbrev registry : Registry ℕ
registry = (ProviderType.adguard, λ p w. (ok stubborn, suc w)) ∷ []

abbrev leaving : Provider
leaving = record first { meta = deleted_meta "first" }

abbrev unused : Provider
unused = record first { meta = deleted_meta "unused" }

abbrev holding : List Record
holding = record_with (meta_of "web") (status_of "first" "1" ∷ []) ∷ []

free : any (holds unused) holding ≡ false
unfolding kube_dns_manager.Api.Meta.equal
free = refl

made : new registry first 0 ≡ (ok stubborn, 1)
unfolding new
made = refl

body_makes_example : ready_provider (body cluster registry (named "first") first [] 0).0.1 first ≡ (
    if first.meta.uid == first.meta.uid
    then (if nat_eq first.meta.generation first.meta.generation then some stubborn else none)
    else ready_provider [] first)
body_makes_example =
    body_makes cluster registry (named "first") first [] 0 1 stubborn refl made first

-- A factory that panics: the object is written as ready, and the panic goes on.
abbrev broken : Registry ℕ
broken = (ProviderType.adguard, λ p w. (err nil_pointer, suc w)) ∷ []

broken_panics : (reconcile cluster broken (named "first") [] 0).0 ≡ err nil_pointer
unfolding reconcile add_finalizer kube_dns_manager.Providers.deferred
    kube_dns_manager.Providers.returned body kube_dns_manager.Providers.make new
broken_panics = refl

broken_ready : (reported (some nil_pointer)).ready ≡ true
unfolding reported
broken_ready = refl

-- A server that accepts every request; the other services refuse.
abbrev server : Adguard.Server ℕ
server = record { parse = λ path. ok path; post = λ url body w. (ok (200, ""), suc w) }

abbrev json : Adguard.Json
json = record {
  marshal = λ r. ok r.domain;
  unmarshal = λ s. ok (record { domain = s; answer = "" });
}

abbrev services : Services ℕ
services = record {
  cloudflare_sdk = record {
    new_with_api_token = λ token w. (err (plain "no account"), w);
    new = λ key email w. (err (plain "no account"), w);
  };
  alidns_sdk = λ key secret endpoint w. (err (plain "no account"), w);
  json = json;
  open_url = λ url user. ok server;
  job_cluster = record {
    get_job = λ key w. (err (api true "not found"), w);
    create_job = λ job w. (ok job, w);
    delete_job = λ job w. (ok tt, w);
    unmarshal = λ text. err (plain "no job");
    pod_namespace = "dns";
  };
  parse_template = λ name text. err (plain "no template");
}

abbrev payload : Payload
payload = record { id = "1"; data_ = ""; spec = web_spec }

deletes : ((Adguard.provider json server).delete payload 0).0.failure ≡ none
unfolding Adguard.delete Adguard.send
deletes = refl

found :
    ready_provider (reconcile cluster (registered services) (named "first") [] 0).1 first
    ≡ some (Adguard.provider json server)
unfolding ready_provider reconcile add_finalizer body kube_dns_manager.Providers.make new registered
    kube_dns_manager.Dns.register kube_dns_manager.Prelude.insert Adguard.factory
found = refl

ready_provider_clears_example : ((Adguard.provider json server).delete payload 0).0.payload.id ≡ ""
ready_provider_clears_example =
    ready_provider_clears cluster services
      (reconcile cluster (registered services) (named "first") [] 0).1 first
      (Adguard.provider json server) payload 0 (ran (named "first") [] 0 started) found deletes
