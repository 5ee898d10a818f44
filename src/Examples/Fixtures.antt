-- ===== src/Examples/Fixtures.antt =====
-- Objects and a world for the examples. The world counts the calls of the cluster.
use kube_dns_manager.Prelude.{
  ℕ, suc, String, ◌≡◌, ◌≢◌, arith, eq_iff, true, false, none, some, List, [], ◌∷◌, ◌==◌,
  if◌then◌else◌,
}
use kube_dns_manager.Effects.{plain, api, Result, ok, err}
use kube_dns_manager.Api.Meta.{NamespacedName, LabelSelector, ObjectMeta}
use kube_dns_manager.Api.Record.{pos, Record, RecordSpec, RecordProviderStatus}
use kube_dns_manager.Api.Provider.{Provider}
use kube_dns_manager.Api.Provider.ProviderType as ProviderType
use kube_dns_manager.Finalizers.{finalizer_label}
use kube_dns_manager.Dns.{DnsProvider, Cache}
use kube_dns_manager.Records.Client.{RecordCluster}

pub nonempty : (s : String) → (s == "") ≡ false → s ≢ ""
nonempty s h e = ground (arith, eq_iff s "", e)

abbrev pub named : String → NamespacedName
named name = record { name = name; namespace = "home" }

-- An object that has the finalizer.
abbrev pub meta_of : String → ObjectMeta
meta_of name = record {
  name = name;
  generate_name = "";
  namespace = "home";
  uid = name;
  resource_version = "1";
  generation = 1;
  deletion_timestamp = none;
  labels = ("app", "web") ∷ [];
  annotations = [];
  owner_references = [];
  finalizers = finalizer_label ∷ [];
}

abbrev pub deleted_meta : String → ObjectMeta
deleted_meta name = record (meta_of name) { deletion_timestamp = some 7 }

abbrev pub everything : LabelSelector
everything = record { size = 0; as_selector = ok (λ _. true) }

abbrev pub broken : LabelSelector
broken = record { size = 1; as_selector = err (plain "not a valid selector") }

abbrev pub selecting : String → LabelSelector → String → Provider
selecting name labels domain = record {
  meta = meta_of name;
  spec = record {
    type = ProviderType.adguard;
    selector = record { domain = domain; label_selector = labels };
    aliyun = none;
    cloudflare = none;
    job = none;
    adguard = some (record { url = "http://dns"; username = ""; password = "" });
  };
  status = record { ready = true; reason = "" };
}

abbrev pub first : Provider
first = selecting "first" everything "example.org"

abbrev pub other_domain : Provider
other_domain = selecting "other" everything "example.com"

abbrev pub invalid : Provider
invalid = selecting "invalid" broken ""

abbrev pub web_spec : RecordSpec
web_spec = record {
  name = "www.example.org";
  type = "A";
  value = "10.0.0.1";
  ttl = pos 600;
  extra = [];
}

abbrev pub status_of : String → String → RecordProviderStatus
status_of name id = record {
  named = named name;
  record_id = id;
  message = "";
  data_ = "";
  checked = false;
}

abbrev pub record_with : ObjectMeta → List RecordProviderStatus → Record
record_with meta ss = record {
  meta = meta;
  spec = web_spec;
  status = record { checked = false; all_ready = true; message = ""; providers = ss };
}

abbrev find_first : String → Result Provider
find_first name = if name == "first" then ok first else err (api true "not found")

-- Every call succeeds, and the server stores what it is sent.
abbrev pub obliging : RecordCluster ℕ
obliging = record {
  get_record = λ key w. (ok (record_with (meta_of key.name) []), suc w);
  update_record = λ r w. (ok r, suc w);
  update_status = λ r w. (ok r, suc w);
  list_providers = λ namespace w. (ok (first ∷ invalid ∷ []), suc w);
  list_cluster_providers = λ w. (ok [], suc w);
  get_provider = λ key w. (find_first key.name, suc w);
  get_cluster_provider = λ key w. (err (api true "not found"), suc w);
  event = λ meta type reason message w. w;
}

-- A provider that gives every record the ID "1" and that refuses to delete it.
abbrev pub stubborn : DnsProvider ℕ
stubborn = record {
  create = λ payload w. (record { failure = none; payload = record payload { id = "1" } }, suc w);
  update = λ payload w. (record { failure = none; payload = payload }, suc w);
  delete = λ payload w. (record { failure = some (plain "refused"); payload = payload }, suc w);
}

abbrev pub cache_of_first : Cache ℕ
cache_of_first = ("first", record { provider = stubborn; generation = 1 }) ∷ []
