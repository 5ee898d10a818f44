-- ===== src/Examples/Watchers.antt =====
-- Runs of the watcher reconciler over three records.
use kube_dns_manager.Prelude.{
  map, some, ℕ, suc, String, ◌≡◌, refl, sym, ap, true, false, ◌&&◌, ◌||◌, not, any, keep, is_some,
  none, List, [], ◌∷◌, ◌==◌,
}
use kube_dns_manager.Effects.{plain, api, ok, err}
use kube_dns_manager.Api.Record.{Record}
use kube_dns_manager.Api.Watcher.{ResourceWatcher, add_resource, to_string}
use kube_dns_manager.Watchers.Client.{WatcherCluster, Engine, Decoder, kind_template}
use kube_dns_manager.Watchers.Templates.{TemplateCache, get_template, get_template_again}
use kube_dns_manager.Watchers.{sync_all, sweep, resources_index}
use kube_dns_manager.Watchers.Resources.{resource, add_resource-index}
use kube_dns_manager.Watchers.Lookups.{Address, Endpoints, Node, LookupClient, kind_node, nodes}
use kube_dns_manager.Watchers.Lookups.Laws.{nodes-index}
use kube_dns_manager.Examples.Fixtures.{named, meta_of, record_with}

abbrev pub watcher : ResourceWatcher
watcher = record {
  meta = meta_of "watcher";
  resource = named "web";
  status = record { ready = false; reason = ""; checked = false; resources = [] };
}

abbrev pub record_of : String → Record
record_of name = record_with (meta_of name) []

abbrev pub cluster : WatcherCluster ℕ
cluster = record {
  get_watcher = λ key w. (ok watcher, suc w);
  get_generator = λ key w. (err (api true "not found"), suc w);
  get_cluster_generator = λ key w. (err (api true "not found"), suc w);
  get_object = λ kind key w. (ok (meta_of key.name), suc w);
  get_template = λ key w. (err (api true "not found"), suc w);
  get_cluster_template = λ key w. (err (api true "not found"), suc w);
  list_records = λ namespace uid w. (ok (record_of "old" ∷ record_of "www" ∷ []), suc w);
  create_record = λ r w. (ok r, suc w);
  update_record = λ r w. (ok r, suc w);
  delete_record = λ r w. (ok tt, suc w);
  list_watchers = λ key w. (ok (watcher ∷ []), suc w);
  update_status = λ x w. (ok x, suc w);
  event = λ meta type reason message w. w;
  set_controller_reference = λ x r. r;
}

abbrev pub listed : List Record
listed = record_of "old" ∷ record_of "www" ∷ []

-- Templates that are their texts, and that count how often they are parsed.
abbrev pub engine : Engine ℕ ℕ
engine = record {
  parse = λ key text t. (none, suc t);
  execute = λ key values t status w. ((ok "", status), w);
}

abbrev pub cache : TemplateCache ℕ
cache = record { templates = 0; generations = [] }

parses_first : (get_template engine "Template/home/web" 1 "a" cache).0 ≡ ok "Template/home/web"
unfolding get_template
parses_first = refl

get_template_again_example :
    get_template engine "Template/home/web" 1 "b"
      (get_template engine "Template/home/web" 1 "a" cache).1
    ≡ (ok "Template/home/web", (get_template engine "Template/home/web" 1 "a" cache).1)
get_template_again_example =
    get_template_again engine "Template/home/web" "a" "Template/home/web" "b" 1 cache parses_first

add_resource-index_example :
    any
      (λ k. k == "Template/home/web")
      (resources_index (add_resource watcher.status kind_template "home" "web"))
    ≡ (any (λ k. k == "Template/home/web") (resources_index watcher.status)
        || to_string (resource kind_template "home" "web") == "Template/home/web")
add_resource-index_example =
    add_resource-index watcher.status kind_template "home" "web" "Template/home/web"

abbrev pub decoder : Decoder
decoder = record {
  json_record = λ s. err (plain "no record");
  json_records = λ s. err (plain "no record");
  yaml_record = λ s. err (plain "no record");
  yaml_records = λ s. err (plain "no record");
}

abbrev on : String → Address
on name = record { node_name = some name; target = none }

-- Three addresses on two nodes.
abbrev pub pair : Endpoints
pair = record {
  meta = meta_of "web";
  subsets = (on "first" ∷ on "second" ∷ []) ∷ (on "first" ∷ []) ∷ [];
}

abbrev node_of : String → Node
node_of name = record { meta = record (meta_of name) { namespace = "" }; conditions = [] }

abbrev pub lookups : LookupClient ℕ
lookups = record {
  get_namespace = λ name w. (ok (meta_of name), suc w);
  get_service = λ key w. (ok (meta_of key.name), suc w);
  get_endpoints = λ key w. (ok pair, suc w);
  get_node = λ name w. (ok (node_of name), suc w);
  get_pod = λ key w. (ok (record { meta = meta_of key.name; node_name = "first" }), suc w);
}

looked_up : nodes lookups pair watcher.status 0 ≡ (
  (
    ok (node_of "first" ∷ node_of "second" ∷ []),
    record watcher.status {
      resources = resource kind_node "" "first" ∷ resource kind_node "" "second" ∷ [];
    },
  ),
  2,
)
unfolding nodes kube_dns_manager.Watchers.Lookups.find_nodes kube_dns_manager.Prelude.insert
    kube_dns_manager.Watchers.Lookups.note_all add_resource
looked_up = refl

nodes-index_example :
    any
      (λ k. k == "Node//second")
      (resources_index (record watcher.status {
        resources = resource kind_node "" "first" ∷ resource kind_node "" "second" ∷ [];
      }))
    ≡ (any (λ k. k == "Node//second") (resources_index watcher.status)
        || any
            (λ m. to_string (resource kind_node m.namespace m.name) == "Node//second")
            (map (λ n. n.meta) (node_of "first" ∷ node_of "second" ∷ [])))
nodes-index_example =
    nodes-index lookups pair watcher.status
      (record watcher.status {
        resources = resource kind_node "" "first" ∷ resource kind_node "" "second" ∷ [];
      })
      0 2 (node_of "first" ∷ node_of "second" ∷ []) "Node//second" looked_up
