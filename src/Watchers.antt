-- ===== src/Watchers.antt =====
-- internal/controller/dns/resourcewatcher_controller.go: the reconciler of ResourceWatcher objects,
-- which renders the template of its generator into records.
pub mod Client
pub mod Templates
pub mod Parse
pub mod Choice
pub mod Run
pub mod Sync
pub mod Lookups
pub mod Functions
pub mod Resources
pub mod Server
pub mod Leaves
use Prim.Native.String.{◌++◌ as append}
use kube_dns_manager.Prelude.{
  ℕ, String, Bool, true, false, not, ◌&&◌, ◌||◌, Option, none, some, List, [], ◌∷◌, ◌==◌, map,
  if◌then◌else◌,
}
use kube_dns_manager.Effects.{
  Error, error_text, nil_pointer, Result, ok, err, Exec, pure, raise, continue, ◌>>=◌,
}
use kube_dns_manager.Api.Meta.{NamespacedName, ObjectMeta, OwnerReference, key_of}
use kube_dns_manager.Api.Record.{Record, get}
use kube_dns_manager.Api.Generator.{Generator, Scope, namespaced, cluster}
use kube_dns_manager.Api.Watcher.{
  WatchResource, ResourceWatcher, ResourceWatcherStatus, add_resource, to_string,
}
use kube_dns_manager.Finalizers.{error_unknown_kind, error_no_template}
use kube_dns_manager.Records.Client.{Reply, done, after}
use kube_dns_manager.Generators.Client.{kind_node}
use kube_dns_manager.Generators.{is_namespaced_kind}
use kube_dns_manager.Watchers.Client.{
  WatcherCluster, TemplateObject, TemplateData, Engine, Decoder, kind_template,
  kind_cluster_template,
}
use kube_dns_manager.Watchers.Templates.{TemplateCache, get_template}
use kube_dns_manager.Watchers.Parse.{parse}

-- A write through the pointer that RecordList.Get returns.
unfoldable pub write : String → String → Record → List Record → List Record
write namespace name new [] = []
write namespace name new (r ∷ rs) =
    let rest = write namespace name new rs in
    if r.meta.namespace == namespace && r.meta.name == name then new ∷ rs else r ∷ rest

-- The index of watchers by the resources that they noted.
unfoldable pub resources_index : ResourceWatcherStatus → List String
resources_index s = map to_string s.resources

module _ {W : Type 0} (c : WatcherCluster W) where
  -- getOwner: the loop over the owner references, with the generator found so far. A Generator ends
  -- the loop, a ClusterGenerator does not.
  unfoldable pub get_owner :
      String → List OwnerReference → Option Generator → Exec W (Option Generator)
  get_owner namespace [] found w = (ok found, w)
  get_owner namespace (o ∷ owners) found w =
      if o.kind == "Generator"
      then (let (got, w') =
            c.get_generator (record { name = o.owner_name; namespace = namespace }) w in
          elim got [ err e ↦ (err e, w') | ok g ↦ (ok (some g), w') ])
      else if o.kind == "ClusterGenerator"
      then (let (got, w') =
            c.get_cluster_generator (record { name = o.owner_name; namespace = "" }) w in
          elim got [ err e ↦ (err e, w') | ok g ↦ get_owner namespace owners (some g) w' ])
      else (err error_unknown_kind, w)

  -- getTemplateData
  unfoldable pub get_template_data : ResourceWatcher → Generator → Exec W TemplateData
  get_template_data watcher g w =
      let kind = g.spec.resource_kind in
      if is_namespaced_kind kind
      then (let (got, w') = c.get_object kind watcher.resource w in
          elim got [ err e ↦ (err e, w') | ok o ↦ (ok (record { kind = kind; object = o }), w') ])
      else if kind == kind_node
      then (let (got, w') = c.get_object kind (record watcher.resource { namespace = "" }) w in
          elim got [ err e ↦ (err e, w') | ok o ↦ (ok (record { kind = kind; object = o }), w') ])
      else (err error_unknown_kind, w)

  abbrev pub modified : ResourceWatcher → String → Record → W → W
  modified watcher old_version r w =
      if old_version == r.meta.resource_version
      then w
      else c.event r.meta "Normal" "Modify"
          (append "Record modified by ResourceWatcher " watcher.meta.name) w

  -- The record as the watcher owns it.
  abbrev pub owned : ResourceWatcher → Record → Record
  owned watcher r =
      c.set_controller_reference watcher
        (record r { meta = record r.meta { namespace = watcher.meta.namespace } })

  -- The listed record with what the parsed one says.
  abbrev pub updated : Record → Record → Record
  updated old r = record old {
    meta = record old.meta {
      labels = r.meta.labels;
      annotations = r.meta.annotations;
      owner_references = r.meta.owner_references;
    };
    spec = r.spec;
  }

  abbrev pub seen : Record → Record
  seen r = record r { status = record r.status { checked = true } }

  -- One round of the loop over the parsed records.
  unfoldable pub sync : ResourceWatcher → Record → List Record → Exec W (List Record)
  sync watcher r rs w =
      let placed = owned watcher r in
      elim (get rs placed.meta.namespace placed.meta.name) [
        | some old ↦
            let (got, w') = c.update_record (updated old placed) w in
            elim got [
              | err e ↦ (err e, w')
              | ok saved ↦ (
                ok (write placed.meta.namespace placed.meta.name (seen saved) rs),
                modified watcher old.meta.resource_version saved w',
              )
            ]
        | none ↦
            let (got, w') = c.create_record placed w in
            elim got [ err e ↦ (err e, w') | ok saved ↦ (ok rs, modified watcher "" saved w') ]
      ]

  -- The loop over the parsed records.
  unfoldable pub sync_all : ResourceWatcher → List Record → List Record → Exec W (List Record)
  sync_all watcher [] rs w = (ok rs, w)
  sync_all watcher (r ∷ parsed) rs w = continue (sync watcher r rs w) (sync_all watcher parsed)

  -- The loop that deletes the records that were not marked.
  unfoldable pub sweep : List Record → Exec W (Unit {0})
  sweep [] w = (ok tt, w)
  sweep (r ∷ rs) w =
      if r.status.checked
      then sweep rs w
      else (let (got, w') = c.delete_record r w in
          elim got [ err e ↦ (err e, w') | ok _ ↦ sweep rs w' ])
