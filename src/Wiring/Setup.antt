-- ===== src/Wiring/Setup.antt =====
-- The SetupWithManager functions of the four controllers.
use kube_dns_manager.Prelude.{String, none, some, [], ◌∷◌}
use kube_dns_manager.Effects.{Exec, ◌>>◌}
use kube_dns_manager.Api.Generator.{Scope, namespaced, cluster}
use kube_dns_manager.Generators.Client.{kind_ingress, kind_record, kind_node, kind_service}
use kube_dns_manager.Watchers.Client.{kind_template, kind_cluster_template}
use kube_dns_manager.Watchers.Lookups.{kind_namespace, kind_endpoints, kind_pod}
use kube_dns_manager.Wiring.{
  by_resource_kind, by_owners, by_resources, by_providers, generator_resources, watcher_resources,
  provider_events, generation_changed, label_changed, deletions, provider_changes, either, Watch,
  Controller, Manager,
}

-- The kind that a reconciler of generators or of providers is for.
abbrev pub generator_kind : Scope → String
generator_kind namespaced = "Generator"
generator_kind cluster = "ClusterGenerator"

abbrev pub provider_kind : Scope → String
provider_kind namespaced = "Provider"
provider_kind cluster = "ClusterProvider"

abbrev pub generator_watch : Scope → String → Watch
generator_watch scope kind = record {
  kind = kind;
  response = generator_resources scope kind;
  filter = some (either label_changed deletions);
}

-- Nodes are watched for cluster-wide generators only.
unfoldable pub generator_controller : Scope → Controller
generator_controller scope = record {
  reconciled = generator_kind scope;
  watches =
      generator_watch scope kind_ingress
      ∷ generator_watch scope kind_record
      ∷ generator_watch scope kind_service
      ∷ elim scope [ namespaced ↦ [] | cluster ↦ generator_watch cluster kind_node ∷ [] ];
  filter = none;
}

abbrev pub watcher_watch : String → Watch
watcher_watch kind = record { kind = kind; response = watcher_resources kind; filter = none }

unfoldable pub watcher_controller : Controller
watcher_controller = record {
  reconciled = "ResourceWatcher";
  watches =
      watcher_watch kind_template
      ∷ watcher_watch kind_cluster_template
      ∷ watcher_watch kind_namespace
      ∷ watcher_watch kind_ingress
      ∷ watcher_watch kind_service
      ∷ watcher_watch kind_endpoints
      ∷ watcher_watch kind_node
      ∷ watcher_watch kind_pod
      ∷ watcher_watch kind_record
      ∷ [];
  filter = none;
}

abbrev pub provider_watch : Scope → Watch
provider_watch scope = record {
  kind = provider_kind scope;
  response = provider_events;
  filter = some provider_changes;
}

unfoldable pub record_controller : Controller
record_controller = record {
  reconciled = "Record";
  watches = provider_watch namespaced ∷ provider_watch cluster ∷ [];
  filter = some (either generation_changed label_changed);
}

unfoldable pub provider_controller : Scope → Controller
provider_controller scope = record {
  reconciled = provider_kind scope;
  watches = [];
  filter = some generation_changed;
}

-- The names of the indexes.
abbrev pub resource_kind_field : String
resource_kind_field = ".spec.resourceKind"

abbrev pub owner_references_field : String
owner_references_field = ".metadata.ownerReferences"

abbrev pub resources_field : String
resources_field = ".status.resources"

abbrev pub providers_field : String
providers_field = ".status.providers"

module _ {W : Type 0} (mgr : Manager W) where
  -- GeneratorReconciler.SetupWithManager
  unfoldable pub setup_generator : Scope → Exec W (Unit {0})
  setup_generator scope =
      mgr.index_field (generator_kind scope) resource_kind_field by_resource_kind
      >> mgr.complete (generator_controller scope)

  -- ResourceWatcherReconciler.SetupWithManager; the map of generations that it makes is empty.
  unfoldable pub setup_watcher : Exec W (Unit {0})
  setup_watcher =
      mgr.index_field "ResourceWatcher" owner_references_field by_owners
      >> mgr.index_field "Record" owner_references_field by_owners
      >> mgr.index_field "ResourceWatcher" resources_field by_resources
      >> mgr.complete watcher_controller

  -- RecordReconciler.SetupWithManager
  unfoldable pub setup_record : Exec W (Unit {0})
  setup_record =
      mgr.index_field "Record" providers_field by_providers >> mgr.complete record_controller

  -- ProviderReconciler.SetupWithManager
  unfoldable pub setup_provider : Scope → Exec W (Unit {0})
  setup_provider scope = mgr.complete (provider_controller scope)
