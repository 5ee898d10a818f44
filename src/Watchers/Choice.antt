-- ===== src/Watchers/Choice.antt =====
-- The choice of the template in Reconcile of internal/controller/dns/resourcewatcher_controller.go.
use Prim.Native.String.{◌++◌ as append}
use kube_dns_manager.Prelude.{String, not, ◌==◌, if◌then◌else◌}
use kube_dns_manager.Effects.{Result, ok, err}
use kube_dns_manager.Api.Meta.{ObjectMeta}
use kube_dns_manager.Api.Generator.{Generator, namespaced, cluster}
use kube_dns_manager.Api.Watcher.{ResourceWatcher, ResourceWatcherStatus, add_resource}
use kube_dns_manager.Finalizers.{error_no_template}
use kube_dns_manager.Watchers.Client.{WatcherCluster, Engine, kind_template, kind_cluster_template}
use kube_dns_manager.Watchers.Templates.{TemplateCache, get_template}

-- The key of the template in a generator, or of one that it refers to.
abbrev own_key : Generator → String
own_key g = append "Generator/" (append g.meta.namespace (append "/" g.meta.name))

abbrev template_key : ObjectMeta → String
template_key m = append "Template/" (append m.namespace (append "/" m.name))

abbrev cluster_template_key : ObjectMeta → String
cluster_template_key m = append "ClusterTemplate/" m.name

module _ {T W : Type 0} (c : WatcherCluster W) (engine : Engine T W) where
  -- The template of a reference: the status notes it where it could be had.
  unfoldable pub referred :
      ResourceWatcher
      → Generator
      → ResourceWatcherStatus
      → TemplateCache T
      → W
      → ((Result String × ResourceWatcherStatus) × TemplateCache T) × W
  referred watcher g status cache w = elim g.scope [
    | namespaced ↦
        let (got, w') =
          c.get_template (record { name = g.spec.template_ref; namespace = watcher.meta.namespace })
            w in
        elim got [
          | err e ↦ (((err e, status), cache), w')
          | ok t ↦
              let (key, cache') =
                get_template engine (template_key t.meta) t.meta.generation t.template cache in
              elim key [
                | err e ↦ (((err e, status), cache'), w')
                | ok k ↦ (
                  (
                    (
                      ok k,
                      add_resource status kind_template watcher.meta.namespace g.spec.template_ref,
                    ),
                    cache',
                  ),
                  w',
                )
              ]
        ]
    | cluster ↦
        let (got, w') =
          c.get_cluster_template (record { name = g.spec.template_ref; namespace = "" }) w in
        elim got [
          | err e ↦ (((err e, status), cache), w')
          | ok t ↦
              let (key, cache') =
                get_template engine (cluster_template_key t.meta) t.meta.generation t.template
                  cache in
              elim key [
                | err e ↦ (((err e, status), cache'), w')
                | ok k ↦ (
                  (
                    (ok k, add_resource status kind_cluster_template "" g.spec.template_ref),
                    cache',
                  ),
                  w',
                )
              ]
        ]
  ]

  -- The template of the generator: its own, or the one that it refers to.
  unfoldable pub choose :
      ResourceWatcher
      → Generator
      → ResourceWatcherStatus
      → TemplateCache T
      → W
      → ((Result String × ResourceWatcherStatus) × TemplateCache T) × W
  choose watcher g status cache w =
      if not (g.spec.template == "")
      then (let (key, cache') =
            get_template engine (own_key g) g.meta.generation g.spec.template cache in
          (((key, status), cache'), w))
      else if not (g.spec.template_ref == "")
      then referred watcher g status cache w
      else (
        ((err error_no_template, status), cache),
        c.event watcher.meta "Warning" "Failed" "No template specified" w,
      )
