-- ===== src/Watchers/Run.antt =====
-- Reconcile of internal/controller/dns/resourcewatcher_controller.go, with its deferred function.
use Prim.Native.String.{◌++◌ as append}
use kube_dns_manager.Prelude.{String, true, false, Option, none, some, List, [], ◌∷◌, map}
use kube_dns_manager.Effects.{Error, error_text, nil_pointer, Result, ok, err}
use kube_dns_manager.Api.Meta.{NamespacedName, ObjectMeta, key_of}
use kube_dns_manager.Api.Record.{Record}
use kube_dns_manager.Api.Generator.{Generator}
use kube_dns_manager.Api.Watcher.{ResourceWatcher, ResourceWatcherStatus, to_string}
use kube_dns_manager.Records.Client.{Reply, done, after}
use kube_dns_manager.Watchers.Client.{WatcherCluster, TemplateData, Engine, Decoder}
use kube_dns_manager.Watchers.Templates.{TemplateCache}
use kube_dns_manager.Watchers.Choice.{choose}
use kube_dns_manager.Watchers.Parse.{parse}
use kube_dns_manager.Watchers.{get_owner, get_template_data, sync_all, sweep}

-- What the body of Reconcile hands to its deferred function.
pub record Outcome : Type 0 where
  pub reply : Reply
  pub failure : Option Error
  pub status : ResourceWatcherStatus

abbrev failed : Reply → Error → ResourceWatcherStatus → Outcome
failed reply e status = record { reply = reply; failure = some e; status = status }

-- The status that the deferred function writes.
unfoldable pub reported : Option Error → ResourceWatcherStatus → ResourceWatcherStatus
reported none s = record s { ready = true; reason = "" }
reported (some e) s = record s { ready = false; reason = error_text e }

module _ {T W : Type 0} (c : WatcherCluster W) (engine : Engine T W) (decoder : Decoder) where
  -- parse: the execution of the template, and its text as records.
  unfoldable pub render :
      String
      → TemplateData
      → T
      → ResourceWatcherStatus
      → W
      → (Result (List Record) × ResourceWatcherStatus) × W
  render key data_ templates status w =
      let ((got, status'), w') = engine.execute key data_ templates status w in
      elim got [ err e ↦ ((err e, status'), w') | ok text ↦ ((parse decoder text, status'), w') ]

  -- The two loops over the records.
  unfoldable pub store :
      ResourceWatcher → List Record → List Record → ResourceWatcherStatus → W → Outcome × W
  store watcher parsed records status w =
      let (got, w1) = sync_all c watcher parsed records w in
      elim got [
        | err e ↦ (failed (after 60) e status, w1)
        | ok rs ↦
            let (swept, w2) = sweep c rs w1 in
            elim swept [
              | err e ↦ (failed (after 60) e status, w2)
              | ok _ ↦ (record { reply = done; failure = none; status = status }, w2)
            ]
      ]

  -- What follows the choice of the template.
  unfoldable pub apply :
      ResourceWatcher
      → String
      → TemplateData
      → List Record
      → ResourceWatcherStatus
      → T
      → W
      → Outcome × W
  apply watcher key data_ records status templates w =
      let ((got, status'), w1) = render key data_ templates status w in
      elim got [
        | err e ↦ (
          failed (after 60) e status',
          c.event watcher.meta "Warning" "Failed" "Failed to parse template" w1,
        )
        | ok parsed ↦ store watcher parsed records status' w1
      ]

  -- What Reconcile does between its defer statement and its return.
  unfoldable pub body :
      ResourceWatcher
      → Generator
      → List Record
      → TemplateCache T
      → W
      → (Outcome × TemplateCache T) × W
  body watcher g records cache w =
      let status = record watcher.status { resources = [] } in
      let (got, w1) = get_template_data c watcher g w in
      elim got [
        | err e ↦ (
          (failed (after 60) e status, cache),
          c.event watcher.meta "Warning" "Failed" "Failed to get template data" w1,
        )
        | ok data_ ↦
            let (((key, status'), cache'), w2) = choose c engine watcher g status cache w1 in
            elim key [
              | err e ↦ ((failed done e status', cache'), w2)
              | ok k ↦
                  let (out, w3) = apply watcher k data_ records status' cache'.templates w2 in
                  ((out, cache'), w3)
            ]
      ]

  -- The deferred function: it writes the status and drops the error.
  unfoldable pub deferred : ResourceWatcher → Outcome → W → W
  deferred watcher out w =
      let w1 : W = elim out.failure [
        | none ↦ c.event watcher.meta "Normal" "Parsed" "Record parsed successfully" w
        | some e ↦ w
      ] in
      (c.update_status (record watcher { status = reported out.failure out.status }) w1).1

  -- From the owner on. Without an owner the generator is a nil interface: its first use panics, behind
  -- the deferred function, which finds no error.
  unfoldable pub run :
      ResourceWatcher
      → Option Generator
      → TemplateCache T
      → W
      → (Result Reply × TemplateCache T) × W
  run watcher owner cache w =
      let (got, w1) = c.list_records watcher.meta.namespace watcher.meta.uid w in
      elim got [
        | err e ↦ ((err e, cache), w1)
        | ok records ↦ elim owner [
          | none ↦
              let out : Outcome = record {
                reply = done;
                failure = none;
                status = record watcher.status { resources = [] };
              } in
              ((err nil_pointer, cache), deferred watcher out w1)
          | some g ↦
              let ((out, cache'), w2) = body watcher g records cache w1 in
              ((ok out.reply, cache'), deferred watcher out w2)
        ]
      ]

  -- ResourceWatcherReconciler.Reconcile
  unfoldable pub reconcile :
      NamespacedName → TemplateCache T → W → (Result Reply × TemplateCache T) × W
  reconcile key cache w =
      let (got, w1) = c.get_watcher key w in
      elim got [
        | err e ↦ ((err e, cache), w1)
        | ok watcher ↦
            let (owner, w2) =
              get_owner c watcher.meta.namespace watcher.meta.owner_references none w1 in
            elim owner [ err e ↦ ((err e, cache), w2) | ok g ↦ run watcher g cache w2 ]
      ]

module _ {W : Type 0} (c : WatcherCluster W) where
  abbrev triggered : String → List ResourceWatcher → W → W
  triggered key [] w = w
  triggered key (x ∷ xs) w =
      triggered key xs
        (c.event x.meta "Normal" "Trigger" (append "Record re-parsing, trigged by " key) w)

  -- watchResources
  unfoldable pub watch_resources : String → ObjectMeta → W → List NamespacedName × W
  watch_resources kind obj w =
      let key = to_string (record { named = key_of obj; kind = kind }) in
      let (got, w') = c.list_watchers key w in
      elim got [ err e ↦ ([], w') | ok ws ↦ (map (λ x. key_of x.meta) ws, triggered key ws w') ]
