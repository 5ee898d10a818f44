-- ===== src/Wiring.antt =====
-- How the controllers are registered with the manager: what the SetupWithManager functions of
-- internal/controller/dns tell controller-runtime. The manager is a parameter.
pub mod Setup
pub mod Main
pub mod Answered
pub mod Wakes
pub mod Kinds
use kube_dns_manager.Prelude.{String, Bool, Option, List, ◌∷◌, [], map}
use kube_dns_manager.Effects.{plain, Result, ok, err, Exec}
use kube_dns_manager.Api.Meta.{ObjectMeta}
use kube_dns_manager.Api.Record.{Record}
use kube_dns_manager.Api.Generator.{Generator, Scope}
use kube_dns_manager.Api.Watcher.{ResourceWatcher}
use kube_dns_manager.Records.Watch.{providers_index}
use kube_dns_manager.Watchers.{resources_index}

-- An object as an index function gets it.
pub data Object : Type 0 where
  of_generator : Generator → Object
  of_watcher : ResourceWatcher → Object
  of_record : Record → Object

-- The functions that are handed to IndexField.
pub data Index : Type 0 where
  by_resource_kind by_owners by_resources by_providers : Index

abbrev pub meta_of : Object → ObjectMeta
meta_of (of_generator g) = g.meta
meta_of (of_watcher x) = x.meta
meta_of (of_record r) = r.meta

unfoldable pub owners_index : ObjectMeta → List String
owners_index m = map (λ ref. ref.owner_uid) m.owner_references

unfoldable pub resource_kind_index : Generator → List String
resource_kind_index g = g.spec.resource_kind ∷ []

-- The keys of an object; a type assertion on another type panics.
unfoldable pub index_keys : Index → Object → Result (List String)
index_keys by_owners o = ok (owners_index (meta_of o))
index_keys by_resource_kind (of_generator g) = ok (resource_kind_index g)
index_keys by_resources (of_watcher x) = ok (resources_index x.status)
index_keys by_providers (of_record r) = ok (providers_index r)
index_keys by_resource_kind o = err (plain "interface conversion")
index_keys by_resources o = err (plain "interface conversion")
index_keys by_providers o = err (plain "interface conversion")

-- What a watch does with an event: the function behind EnqueueRequestsFromMapFunc.
pub data Response : Type 0 where
  -- GeneratorReconciler.watchResources, for a kind
  generator_resources : Scope → String → Response
  -- ResourceWatcherReconciler.watchResources, for a kind
  watcher_resources : String → Response
  -- RecordReconciler.watchForProviders
  provider_events : Response

-- The predicates that the program hands over; `deletions` is a predicate.Funcs with a DeleteFunc only.
pub data Predicate : Type 0 where
  generation_changed label_changed deletions provider_changes : Predicate
  either : Predicate → Predicate → Predicate

-- Watches: the kind of the objects, the response to their events, and which events count.
pub record Watch : Type 0 where
  pub kind : String
  pub response : Response
  pub filter : Option Predicate

-- What NewControllerManagedBy collects until Complete.
pub record Controller : Type 0 where
  pub reconciled : String
  pub watches : List Watch
  pub filter : Option Predicate

-- ctrl.Manager: a field index by the kind of object and the name of the field, and Complete.
pub record Manager (W : Type 0) : Type 0 where
  pub index_field : String → String → Index → Exec W (Unit {0})
  pub complete : Controller → Exec W (Unit {0})
  pub add_healthz_check : String → Exec W (Unit {0})
  pub add_readyz_check : String → Exec W (Unit {0})
  pub start : Exec W (Unit {0})
