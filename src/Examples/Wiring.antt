-- ===== src/Examples/Wiring.antt =====
-- A watcher that looked up two nodes, and an event of one of them.
use kube_dns_manager.Prelude.{
  ℕ, suc, String, ◌≡◌, refl, true, not, ◌&&◌, List, [], ◌∷◌, ◌==◌, any, keep,
}
use kube_dns_manager.Effects.{ok}
use kube_dns_manager.Api.Meta.{ObjectMeta, equal, key_of}
use kube_dns_manager.Api.Generator.{Generator, namespaced}
use kube_dns_manager.Api.Watcher.{ResourceWatcher, add_resource}
use kube_dns_manager.Watchers.{resources_index}
use kube_dns_manager.Watchers.Client.{WatcherCluster}
use kube_dns_manager.Watchers.Choice.{choose}
use kube_dns_manager.Watchers.Templates.{get_template}
use kube_dns_manager.Watchers.Lookups.{kind_node, nodes, find_nodes, note_all}
use kube_dns_manager.Watchers.Resources.{resource}
use kube_dns_manager.Watchers.Run.{watch_resources}
use kube_dns_manager.Wiring.Answered.{answered, of_nodes}
use kube_dns_manager.Wiring.Wakes.{noted_wakes}
use kube_dns_manager.Examples.Fixtures.{meta_of, everything}
use kube_dns_manager.Generators.{get_resource}
use kube_dns_manager.Wiring.Setup.{generator_controller}
use kube_dns_manager.Wiring.Kinds.{is_known, is_namespaced, watched_kinds}
use kube_dns_manager.Examples.Generators.{cluster as objects}
use kube_dns_manager.Examples.Watchers.{watcher, cluster, engine, cache, pair, lookups}

abbrev generator : Generator
generator = record {
  scope = namespaced;
  meta = meta_of "endpoints";
  spec = record {
    selector = everything;
    resource_kind = "Service";
    template_ref = "";
    template = "text";
    watcher_generate_name = "";
  };
  status = record { resources = []; applied_generation = 1 };
}

abbrev stored : ResourceWatcher
stored = record watcher {
  status = record watcher.status {
    resources = resource kind_node "" "first" ∷ resource kind_node "" "second" ∷ [];
  };
}

abbrev indexed : String → List ResourceWatcher
indexed key = keep (λ y. any (λ k. k == key) (resources_index y.status)) (watcher ∷ stored ∷ [])

abbrev indexing : WatcherCluster ℕ
indexing = record cluster { list_watchers = λ key w. (ok (indexed key), suc w) }

abbrev second_node : ObjectMeta
second_node = record (meta_of "second") { namespace = "" }

noted_wakes_example :
    (answered kind_node ≡ true)
    × (any (equal (key_of stored.meta)) (watch_resources indexing kind_node second_node 7).0 ≡ true)
unfolding choose get_template nodes find_nodes note_all add_resource kube_dns_manager.Prelude.insert
noted_wakes_example =
    noted_wakes indexing engine lookups watcher generator cache (of_nodes pair ∷ []) 0 stored
      kind_node second_node (watcher ∷ []) [] 7 refl refl refl

watched_kinds_example :
    (any (λ x. kind_node == x.kind) (generator_controller namespaced).watches
      ≡ (is_known kind_node && not (is_namespaced namespaced && kind_node == kind_node)))
    × (get_resource objects kind_node (key_of (meta_of "first")) 0
        ≡ (objects.get_object kind_node (record (key_of (meta_of "first")) { namespace = "" }) 0))
watched_kinds_example = watched_kinds objects namespaced kind_node (key_of (meta_of "first")) 0
