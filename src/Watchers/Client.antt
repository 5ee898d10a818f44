-- ===== src/Watchers/Client.antt =====
-- What the reconciler of ResourceWatcher objects calls outside the program, and the kinds of object
-- that a watcher notes.
use kube_dns_manager.Prelude.{String, List, Option}
use kube_dns_manager.Effects.{Error, Result, Exec}
use kube_dns_manager.Api.Meta.{NamespacedName, ObjectMeta}
use kube_dns_manager.Api.Record.{Record}
use kube_dns_manager.Api.Generator.{Generator}
use kube_dns_manager.Api.Watcher.{ResourceWatcher, ResourceWatcherStatus}

-- WatchResourceKind
abbrev pub kind_template : String
kind_template = "Template"

abbrev pub kind_cluster_template : String
kind_cluster_template = "ClusterTemplate"

-- A Template or a ClusterTemplate: its metadata, and the text of its specification.
pub record TemplateObject : Type 0 where
  pub meta : ObjectMeta
  pub template : String

-- What a template is executed over: the kind of the object, and the object.
pub record TemplateData : Type 0 where
  pub kind : String
  pub object : ObjectMeta

-- The calls of the Kubernetes client, of the event recorder and of SetControllerReference, whose
-- error the code drops. An event is known by its object, type, reason and message.
pub record WatcherCluster (W : Type 0) : Type 0 where
  pub get_watcher : NamespacedName → Exec W ResourceWatcher
  pub get_generator : NamespacedName → Exec W Generator
  pub get_cluster_generator : NamespacedName → Exec W Generator
  pub get_object : String → NamespacedName → Exec W ObjectMeta
  pub get_template : NamespacedName → Exec W TemplateObject
  pub get_cluster_template : NamespacedName → Exec W TemplateObject
  pub list_records : String → String → Exec W (List Record)
  pub create_record : Record → Exec W Record
  pub update_record : Record → Exec W Record
  pub delete_record : Record → Exec W (Unit {0})
  pub list_watchers : String → Exec W (List ResourceWatcher)
  pub update_status : ResourceWatcher → Exec W ResourceWatcher
  pub event : ObjectMeta → String → String → String → W → W
  pub set_controller_reference : ResourceWatcher → Record → Record

-- The templates of r.Template, as a state `T`. `parse` is Parse of the template of a name; `execute`
-- runs it over the data, whose methods call the cluster and note resources in the watcher's status.
-- text/template recovers the panic of a method and returns it as an error.
pub record Engine (T W : Type 0) : Type 0 where
  pub parse : String → String → T → Option Error × T
  pub execute :
      String
      → TemplateData
      → T
      → ResourceWatcherStatus
      → W
      → (Result String × ResourceWatcherStatus) × W

-- json.Unmarshal and yaml.Unmarshal, into one record or into a list.
pub record Decoder : Type 0 where
  pub json_record : String → Result Record
  pub json_records : String → Result (List Record)
  pub yaml_record : String → Result Record
  pub yaml_records : String → Result (List Record)
