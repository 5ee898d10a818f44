-- ===== src/Wiring/Wakes.antt =====
-- From what a watcher notes to what wakes it: the choice of its template, the lookups of
-- internal/controller/dns/template.go, the index and the watches of the controller, together.
use kube_dns_manager.Prelude.{
  String, ◌≡◌, refl, sym, ap, subst, ◌⊎◌, All, false≢true, true, List, [], ◌∷◌, ◌++◌, ◌==◌, any,
  keep, map, arith, eq_refl, Bool-cases, inl, inr,
}
use kube_dns_manager.Effects.{ok}
use kube_dns_manager.Api.Meta.{equal, equal_refl, key_of, ObjectMeta}
use kube_dns_manager.Api.Generator.{Generator}
use kube_dns_manager.Api.Watcher.{
  WatchResource, ResourceWatcher, ResourceWatcherStatus, same_resource, add_resource, to_string,
}
use kube_dns_manager.Watchers.{resources_index}
use kube_dns_manager.Watchers.Client.{WatcherCluster, Engine, kind_template, kind_cluster_template}
use kube_dns_manager.Watchers.Choice.{referred, choose}
use kube_dns_manager.Watchers.Templates.{TemplateCache}
use kube_dns_manager.Watchers.Lookups.{LookupClient}
use kube_dns_manager.Watchers.Resources.{resource, keys_noted, same_resource_lem}
use kube_dns_manager.Watchers.Run.{watch_resources}
use kube_dns_manager.Wiring.Setup.{watcher_controller}
use kube_dns_manager.Wiring.Answered.{
  answered, NotesAnswered, add_resource-answered, carry, Call, perform_all, perform_all-answered,
}

-- A watcher that has the key among those of its index is in what the index gives, and is requested.
requested :
    (key : String) (x : ResourceWatcher) (before after : List ResourceWatcher)
    → any (λ k. k == key) (resources_index x.status) ≡ true
    → any (equal (key_of x.meta)) (
        map
          (λ y. key_of y.meta)
          (keep (λ y. any (λ k. k == key) (resources_index y.status)) (before ++ x ∷ after)))
      ≡ true
requested key x [] after h = rw h (ground (arith, equal_refl (key_of x.meta)))
requested key x (y ∷ before) after h = ground (arith, requested key x before after h)

-- A noted resource is under its own key in the index.
noted-index :
    (kind namespace name : String) (s : ResourceWatcherStatus)
    → any (same_resource kind namespace name) s.resources ≡ true
    → any (λ k. k == to_string (resource kind namespace name)) (resources_index s) ≡ true
unfolding resources_index
noted-index kind namespace name s h =
    keys_noted kind namespace name (to_string (resource kind namespace name)) s.resources h
      (eq_refl (to_string (resource kind namespace name)))

module _ {T W : Type 0} (c : WatcherCluster W) (engine : Engine T W) where
  -- The choice of the template notes at most the template that the generator refers to.
  choose_cases :
      (watcher : ResourceWatcher) (g : Generator) (status : ResourceWatcherStatus)
      (cache : TemplateCache T) (w : W)
      → ((choose c engine watcher g status cache w).0.0.1 ≡ status)
        ⊎ (((choose c engine watcher g status cache w).0.0.1
              ≡ add_resource status kind_template watcher.meta.namespace g.spec.template_ref)
            ⊎ ((choose c engine watcher g status cache w).0.0.1
                ≡ add_resource status kind_cluster_template "" g.spec.template_ref))
  unfolding choose referred
  choose_cases watcher g status cache w = ground arith

  choose-answered :
      (watcher : ResourceWatcher) (g : Generator) (status : ResourceWatcherStatus)
      (cache : TemplateCache T) (w : W)
      → NotesAnswered status
      → NotesAnswered (choose c engine watcher g status cache w).0.0.1
  unfolding watcher_controller
  choose-answered watcher g status cache w h =
      let chosen = (choose c engine watcher g status cache w).0.0.1 in
      elim (choose_cases watcher g status cache w) [
        | inl same ↦ carry status chosen (sym same) h
        | inr (inl own) ↦
            carry (add_resource status kind_template watcher.meta.namespace g.spec.template_ref)
              chosen (sym own)
              (add_resource-answered status kind_template watcher.meta.namespace g.spec.template_ref
                refl h)
        | inr (inr shared) ↦
            carry (add_resource status kind_cluster_template "" g.spec.template_ref) chosen
              (sym shared)
              (add_resource-answered status kind_cluster_template "" g.spec.template_ref refl h)
      ]

answered_of :
    (kind namespace name : String) (rs : List WatchResource)
    → All (λ r. answered r.kind ≡ true) rs
    → any (same_resource kind namespace name) rs ≡ true
    → answered kind ≡ true
answered_of kind namespace name [] h found = absurd (false≢true found)
answered_of kind namespace name (r ∷ rs) h found =
    elim (Bool-cases (same_resource kind namespace name r)) [
      | inl same ↦
          let e : r.kind ≡ kind = ap (λ x. x.kind) (same_resource_lem kind namespace name r same) in
          subst (λ k. answered k ≡ true) e h.0
      | inr other ↦ answered_of kind namespace name rs h.1 (ground (arith, other))
    ]

module _ {T W : Type 0} (c : WatcherCluster W) (engine : Engine T W)
    (lookups : LookupClient W) where
  -- The status that a run writes where its template makes these calls.
  abbrev pub noting :
      ResourceWatcher → Generator → TemplateCache T → List Call → W → ResourceWatcherStatus
  noting watcher g cache calls w =
      let cleared = record watcher.status { resources = [] } in
      let ((got, _), w') = choose c engine watcher g cleared cache w in
      (perform_all lookups calls got.1 w').0

  -- Whatever a run noted, whether the template that its generator refers to or an object that the
  -- template looked up by any sequence of calls, the watcher controller is registered for events of
  -- its kind with an answer for that kind; and the answer to an event of that object requests the
  -- watcher, where the watcher carries what the run noted and the index gives the watchers that have
  -- the key of the object.
  pub noted_wakes :
      (watcher : ResourceWatcher) (g : Generator) (cache : TemplateCache T) (calls : List Call)
      (w : W) (stored : ResourceWatcher) (kind : String) (obj : ObjectMeta)
      (before after : List ResourceWatcher) (v : W)
      → stored.status.resources ≡ (noting watcher g cache calls w).resources
      → any (same_resource kind obj.namespace obj.name) stored.status.resources ≡ true
      → (c.list_watchers (to_string (resource kind obj.namespace obj.name)) v).0
        ≡ ok (
            keep
              (λ y.
                any
                  (λ k. k == to_string (resource kind obj.namespace obj.name))
                  (resources_index y.status))
              (before ++ stored ∷ after))
      → (answered kind ≡ true)
        × (any (equal (key_of stored.meta)) (watch_resources c kind obj v).0 ≡ true)
  unfolding watch_resources
  noted_wakes watcher g cache calls w stored kind obj before after v same noted lists =
      let cleared = record watcher.status { resources = [] } in
      let chosen = choose c engine watcher g cleared cache w in
      let all =
        perform_all-answered lookups calls chosen.0.0.1 chosen.1
          (choose-answered c engine watcher g cleared cache w tt) in
      let key = to_string (resource kind obj.namespace obj.name) in
      (
        answered_of kind obj.namespace obj.name (noting watcher g cache calls w).resources all
            (subst (λ rs. any (same_resource kind obj.namespace obj.name) rs ≡ true) same noted),
        ground (
          arith,
          lists,
          requested key stored before after
              (noted-index kind obj.namespace obj.name stored.status noted),
        ),
      )
