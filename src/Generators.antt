-- ===== src/Generators.antt =====
-- internal/controller/dns/generator_controller.go: the reconciler of Generator and ClusterGenerator
-- objects, which keeps one ResourceWatcher for each matched resource.
pub mod Client
pub mod Rematch
pub mod Watchers
pub mod Pass
pub mod Events
pub mod Traces
use kube_dns_manager.Prelude.{
  ℕ, String, Bool, true, false, not, ◌&&◌, ◌||◌, Option, none, some, List, [], ◌∷◌, ◌==◌, nat_eq,
  if◌then◌else◌,
}
use kube_dns_manager.Effects.{
  Error, is_not_found, slice_out_of_range, Result, ok, err, Exec, pure, raise, attempt, ◌>>=◌,
}
use kube_dns_manager.Api.Meta.{NamespacedName, equal, ObjectMeta, is_deleted, key_of}
use kube_dns_manager.Api.Generator.{
  Generator, GeneratorSpec, GeneratorStatus, Scope, namespaced, cluster, matches, add_resource,
  remove_resource,
}
use kube_dns_manager.Api.Watcher.{ResourceWatcher, get}
use kube_dns_manager.Finalizers.{error_unknown_kind}
use kube_dns_manager.Records.Client.{Reply, done, again}
use kube_dns_manager.Generators.Client.{
  GeneratorCluster, kind_ingress, kind_record, kind_node, kind_service,
}

abbrev pub is_namespaced_kind : String → Bool
is_namespaced_kind kind = kind == kind_ingress || (kind == kind_record || kind == kind_service)

-- `ok, _ := Matches(...)`: an error counts as no match.
abbrev pub matched : GeneratorSpec → ObjectMeta → Bool
matched spec obj = elim (matches spec obj) [ ok b ↦ b | err e ↦ false ]

-- The matching of the listed resources, from an empty list of resources.
unfoldable pub rematch : GeneratorSpec → List ObjectMeta → GeneratorStatus → GeneratorStatus
rematch spec [] status = status
rematch spec (obj ∷ objs) status =
    rematch spec objs (if matched spec obj then (add_resource status (key_of obj)).0 else status)

-- A write through the pointer that ResourceWatcherList.Get returns.
unfoldable pub write :
    NamespacedName → ResourceWatcher → List ResourceWatcher → List ResourceWatcher
write ref new [] = []
write ref new (w ∷ ws) =
    let rest = write ref new ws in
    if w.resource.name == ref.name && w.resource.namespace == ref.namespace
    then new ∷ ws
    else w ∷ rest

-- A round of the loop over the resources returns from Reconcile, or goes on with the watchers.
pub data Next : Type 0 where
  stop : Result Reply → Next
  go_on : List ResourceWatcher → Next

abbrev pub empty_meta : ObjectMeta
empty_meta = record {
  name = "";
  generate_name = "";
  namespace = "";
  uid = "";
  resource_version = "";
  generation = 0;
  deletion_timestamp = none;
  labels = [];
  annotations = [];
  owner_references = [];
  finalizers = [];
}

module _ {W : Type 0} (c : GeneratorCluster W) where
  -- getResource: a node has no namespace.
  unfoldable pub get_resource : String → NamespacedName → Exec W ObjectMeta
  get_resource kind resource =
      if is_namespaced_kind kind
      then c.get_object kind resource
      else if kind == kind_node
      then c.get_object kind (record resource { namespace = "" })
      else raise error_unknown_kind

  -- listResources
  unfoldable pub list_resources : Generator → Exec W (List ObjectMeta)
  list_resources g w = elim g.spec.selector.as_selector [
    | err e ↦ (err e, w)
    | ok test ↦
        if is_namespaced_kind g.spec.resource_kind
        then c.list_objects g.spec.resource_kind g.meta.namespace test w
        else if g.spec.resource_kind == kind_node
        then c.list_objects g.spec.resource_kind "" test w
        else (err error_unknown_kind, w)
  ]

  -- updateAppliedGeneration
  unfoldable pub update_applied_generation : Generator → ℕ → Exec W Reply
  update_applied_generation g generation = do
    _ ← c.update_status (record g { status = record g.status { applied_generation = generation } })
    pure again

  abbrev pub rematched : Generator → List ObjectMeta → Generator
  rematched g objs = record g { status = rematch g.spec objs (record g.status { resources = [] }) }

  -- The specification changed: the resources are matched anew.
  unfoldable pub apply_spec : Generator → Exec W Reply
  apply_spec g w =
      let (got, w') = list_resources g w in
      elim got [
        | err e ↦ (if is_not_found e then ok done else err e, w')
        | ok objs ↦ update_applied_generation (rematched g objs) g.meta.generation w'
      ]

  -- A watcher for a resource that has none yet.
  unfoldable pub new_watcher : Generator → NamespacedName → Result ResourceWatcher
  new_watcher g resource =
      let meta : ObjectMeta = record empty_meta {
        generate_name =
            if g.spec.watcher_generate_name == "" then "watcher-" else g.spec.watcher_generate_name;
        namespace = if resource.namespace == "" then c.pod_namespace else resource.namespace;
      } in
      elim (c.set_controller_reference g meta) [
        | err e ↦ err e
        | ok owned ↦ ok (record {
          meta = owned;
          resource = record { name = ""; namespace = "" };
          status = record { ready = false; reason = ""; checked = false; resources = [] };
        })
      ]

  -- The watcher is marked, and stored where it stands for another resource. `listed` says whether it
  -- stands in the list; a new one does not.
  unfoldable pub store :
      NamespacedName → Bool → ResourceWatcher → List ResourceWatcher → W → Next × W
  store resource listed watcher ws w =
      let marked = record watcher { status = record watcher.status { checked = true } } in
      if equal marked.resource resource
      then (go_on (if listed then write resource marked ws else ws), w)
      else (let placed = record marked {
        resource = resource;
        status = record marked.status { ready = false };
      } in
          let (got, w') =
            (if nat_eq marked.meta.generation 0
              then c.create_watcher placed w
              else c.update_watcher placed w) in
          elim got [
            | err e ↦ (stop (err e), w')
            | ok saved ↦ (go_on (if listed then write resource saved ws else ws), w')
          ])

  -- The part of a round that follows the match of the resource.
  unfoldable pub ensure : Generator → NamespacedName → List ResourceWatcher → W → Next × W
  ensure g resource ws w = elim (get ws resource) [
    | some watcher ↦ store resource true watcher ws w
    | none ↦ elim (new_watcher g resource) [
      | err e ↦ (stop (err e), w)
      | ok watcher ↦ store resource false watcher ws w
    ]
  ]

  -- A resource that is gone leaves the list of the generator.
  unfoldable pub forget : Generator → NamespacedName → Exec W Reply
  forget g resource w = elim (remove_resource g.status resource) [
    | none ↦ (err slice_out_of_range, w)
    | some (status, changed) ↦
        let (got, w') = c.update_status (record g { status = status }) w in
        (elim got [ err e ↦ err e | ok saved ↦ ok done ], w')
  ]

  -- One round of the loop over the resources.
  unfoldable pub round : Generator → NamespacedName → List ResourceWatcher → W → Next × W
  round g resource ws w =
      let (got, w1) = get_resource g.spec.resource_kind resource w in
      elim got [
        | err e ↦
            if is_not_found e
            then (let (result, w2) = forget g resource w1 in (stop result, w2))
            else (stop (err e), w1)
        | ok obj ↦
            if matched g.spec obj
            then ensure g resource ws w1
            else (let (result, w2) = update_applied_generation g 0 w1 in (stop result, w2))
      ]

  -- The loop over the resources.
  unfoldable pub rounds : Generator → List NamespacedName → List ResourceWatcher → W → Next × W
  rounds g [] ws w = (go_on ws, w)
  rounds g (resource ∷ resources) ws w =
      let (next, w') = round g resource ws w in
      elim next [ stop result ↦ (stop result, w') | go_on ws' ↦ rounds g resources ws' w' ]

  -- The loop that deletes the watchers that were not marked.
  unfoldable pub sweep : List ResourceWatcher → Exec W Reply
  sweep [] w = (ok done, w)
  sweep (x ∷ ws) w =
      if x.status.checked
      then sweep ws w
      else (let (got, w') = c.delete_watcher x w in
          elim got [ err e ↦ (err e, w') | ok _ ↦ sweep ws w' ])

  unfoldable pub watch_matched : Generator → Exec W Reply
  watch_matched g w =
      let (got, w1) = c.list_watchers g.meta.uid w in
      elim got [
        | err e ↦ (err e, w1)
        | ok ws ↦
            let (next, w2) = rounds g g.status.resources ws w1 in
            elim next [ stop result ↦ (result, w2) | go_on ws' ↦ sweep ws' w2 ]
      ]

  -- GeneratorReconciler.Reconcile
  unfoldable pub reconcile : NamespacedName → Exec W Reply
  reconcile key w =
      let (got, w') = c.get_generator key w in
      elim got [
        | err e ↦ (if is_not_found e then ok done else err e, w')
        | ok g ↦
            if nat_eq g.meta.generation g.status.applied_generation
            then watch_matched g w'
            else apply_spec g w'
      ]
