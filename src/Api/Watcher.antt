-- ===== src/Api/Watcher.antt =====
-- api/dns/v1/resourcewatcher_types.go and resourcewatcher_funcs.go.
use Prim.Native.String.{◌++◌ as append}
use kube_dns_manager.Prelude.{
  String, Bool, Option, none, some, List, [], ◌∷◌, ◌++◌, ◌==◌, ◌&&◌, any, if◌then◌else◌,
}
use kube_dns_manager.Api.Meta.{NamespacedName, ObjectMeta}

pub record WatchResource : Type 0 where
  pub named : NamespacedName
  pub kind : String

pub record ResourceWatcherStatus : Type 0 where
  pub ready : Bool
  pub reason : String
  pub checked : Bool
  pub resources : List WatchResource

pub record ResourceWatcher : Type 0 where
  pub meta : ObjectMeta
  pub resource : NamespacedName
  pub status : ResourceWatcherStatus

-- ResourceWatcherList.Get
unfoldable pub get : List ResourceWatcher → NamespacedName → Option ResourceWatcher
get [] ref = none
get (w ∷ ws) ref =
    if w.resource.name == ref.name && w.resource.namespace == ref.namespace
    then some w
    else get ws ref

abbrev pub same_resource : String → String → String → WatchResource → Bool
same_resource kind namespace name r =
    r.kind == kind && (r.named.name == name && r.named.namespace == namespace)

-- ResourceWatcherStatus.AddResource
unfoldable pub add_resource :
    ResourceWatcherStatus → String → String → String → ResourceWatcherStatus
add_resource s kind namespace name =
    if any (same_resource kind namespace name) s.resources then s else record s {
      resources =
          s.resources
          ++ record { named = record { name = name; namespace = namespace }; kind = kind } ∷ [];
    }

-- WatchResource.String
unfoldable pub to_string : WatchResource → String
to_string r = append r.kind (append "/" (append r.named.namespace (append "/" r.named.name)))
