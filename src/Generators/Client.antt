-- ===== src/Generators/Client.antt =====
-- What the generator reconciler calls outside the program, and the kinds of resource that it knows.
use kube_dns_manager.Prelude.{String, Bool, List}
use kube_dns_manager.Effects.{Result, Exec}
use kube_dns_manager.Api.Meta.{NamespacedName, ObjectMeta, Labels}
use kube_dns_manager.Api.Generator.{Generator, Scope}
use kube_dns_manager.Api.Watcher.{ResourceWatcher}

-- GeneratorResourceKind
abbrev pub kind_ingress : String
kind_ingress = "Ingress"

abbrev pub kind_record : String
kind_record = "Record"

abbrev pub kind_node : String
kind_node = "Node"

abbrev pub kind_service : String
kind_service = "Service"

-- The calls of the Kubernetes client, SetControllerReference and the environment. An object of one of
-- the kinds is known by its metadata; an empty namespace lists all.
pub record GeneratorCluster (W : Type 0) : Type 0 where
  pub get_generator : NamespacedName → Exec W Generator
  pub update_status : Generator → Exec W Generator
  pub get_object : String → NamespacedName → Exec W ObjectMeta
  pub list_objects : String → String → (Labels → Bool) → Exec W (List ObjectMeta)
  pub list_watchers : String → Exec W (List ResourceWatcher)
  pub create_watcher : ResourceWatcher → Exec W ResourceWatcher
  pub update_watcher : ResourceWatcher → Exec W ResourceWatcher
  pub delete_watcher : ResourceWatcher → Exec W (Unit {0})
  -- the scope, the namespace and the resource kind
  pub list_generators : Scope → String → String → Exec W (List Generator)
  pub set_controller_reference : Generator → ObjectMeta → Result ObjectMeta
  pub pod_namespace : String
