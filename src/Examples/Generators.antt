-- ===== src/Examples/Generators.antt =====
-- Runs of the generator reconciler over two services and two watchers.
use kube_dns_manager.Prelude.{
  ℕ, suc, String, ◌≡◌, ◌≢◌, refl, sym, ap, ◌∙◌, false≢true, ◌==◌, arith, Bool-cases, inl, inr, true,
  false, not, ◌&&◌, any, keep, some, List, [], ◌∷◌,
}
use kube_dns_manager.Effects.{ok}
use kube_dns_manager.Api.Meta.{NamespacedName, equal, equal_iff, key_of}
use kube_dns_manager.Api.Generator.{
  Generator, GeneratorStatus, namespaced, matches, remove_resource,
}
use kube_dns_manager.Api.Generator.Resources.{
  Distinct, Change, add, remove, apply_changes, remove_resource_lem, apply_changes_total,
}
use kube_dns_manager.Api.Watcher.{ResourceWatcher, get}
use kube_dns_manager.Generators.Client.{GeneratorCluster, kind_service}
use kube_dns_manager.Generators.{matched, rematched, go_on, rounds, watch_matched}
use kube_dns_manager.Generators.Rematch.{rematched_lem}
use kube_dns_manager.Generators.Watchers.{marked, delete_all}
use kube_dns_manager.Generators.Pass.{Apart, watch_matched_lem}
use kube_dns_manager.Generators.Traces.{
  follow_all, selected, follow_all_refines, follow_all_commutes,
}
use kube_dns_manager.Examples.Fixtures.{named, meta_of, deleted_meta, everything}

abbrev generator : Generator
generator = record {
  scope = namespaced;
  meta = meta_of "services";
  spec = record {
    selector = everything;
    resource_kind = kind_service;
    template_ref = "";
    template = "";
    watcher_generate_name = "";
  };
  status = record { resources = named "web" ∷ named "mail" ∷ []; applied_generation = 1 };
}

abbrev watcher_of : String → ResourceWatcher
watcher_of name = record {
  meta = meta_of name;
  resource = named name;
  status = record { ready = true; reason = ""; checked = false; resources = [] };
}

abbrev watchers : List ResourceWatcher
watchers = watcher_of "old" ∷ watcher_of "web" ∷ []

abbrev pub cluster : GeneratorCluster ℕ
cluster = record {
  get_generator = λ key w. (ok generator, suc w);
  update_status = λ g w. (ok g, suc w);
  get_object = λ kind key w. (ok (meta_of key.name), suc w);
  list_objects = λ kind namespace test w. (ok (meta_of "web" ∷ []), suc w);
  list_watchers = λ uid w. (ok watchers, suc w);
  create_watcher = λ x w. (ok x, suc w);
  update_watcher = λ x w. (ok x, suc w);
  delete_watcher = λ x w. (ok tt, suc w);
  list_generators = λ scope namespace kind w. (ok (generator ∷ []), suc w);
  set_controller_reference = λ g meta. ok meta;
  pod_namespace = "dns";
}

abbrev passed : List ResourceWatcher
passed = watcher_of "old" ∷ marked (watcher_of "web") ∷ []

-- The watcher of `mail` is created.
pass : rounds cluster generator generator.status.resources watchers 1 ≡ (go_on passed, 4)
unfolding rounds kube_dns_manager.Generators.round kube_dns_manager.Generators.get_resource matches
    kube_dns_manager.Generators.ensure get kube_dns_manager.Generators.store equal
    kube_dns_manager.Generators.write kube_dns_manager.Generators.new_watcher
pass = refl

pass_goes_on : (rounds cluster generator generator.status.resources watchers 1).0 ≡ go_on passed
unfolding rounds kube_dns_manager.Generators.round kube_dns_manager.Generators.get_resource matches
    kube_dns_manager.Generators.ensure get kube_dns_manager.Generators.store equal
    kube_dns_manager.Generators.write kube_dns_manager.Generators.new_watcher
pass_goes_on = refl

apart : Apart watchers
unfolding get
apart = (refl, (refl, tt))

watch_matched_lem_example :
    watch_matched cluster generator 0
    ≡ delete_all cluster
        (keep (λ x. not (any (equal x.resource) generator.status.resources)) watchers)
        4
watch_matched_lem_example =
    watch_matched_lem cluster generator watchers passed 0 1 4 refl apart (refl, (refl, tt)) pass

rematched_lem_example :
    (any (equal (named "web")) (rematched cluster generator (meta_of "web" ∷ [])).status.resources
      ≡ any (λ o. matched generator.spec o && equal (named "web") (key_of o)) (meta_of "web" ∷ []))
    × Distinct (rematched cluster generator (meta_of "web" ∷ [])).status.resources
rematched_lem_example = rematched_lem cluster generator (meta_of "web" ∷ []) (named "web")

matches_web : matches generator.spec (deleted_meta "web") ≡ ok true
unfolding matches
matches_web = refl

distinct : Distinct generator.status.resources
unfolding equal
distinct = (refl, (refl, tt))

remove_resource_lem_example :
    remove_resource generator.status (named "web")
    ≡ some (
      record generator.status {
        resources = keep (λ x. not (equal (named "web") x)) generator.status.resources;
      },
      any (equal (named "web")) generator.status.resources,
    )
remove_resource_lem_example = remove_resource_lem generator.status (named "web") distinct

abbrev changes : List Change
changes = remove (named "web") ∷ add (named "web") ∷ add (named "mail") ∷ remove (named "ftp") ∷ []

apply_changes_total_example :
    (s' : GeneratorStatus) × (apply_changes generator.status changes ≡ some s')
    × Distinct s'.resources
apply_changes_total_example = apply_changes_total generator.status changes distinct

follow_all_refines_example :
    (s : GeneratorStatus) × (follow_all generator (deleted_meta "web" ∷ meta_of "mail" ∷ [])
      ≡ some s)
    × Distinct s.resources
    × ((n : NamespacedName)
        → any (equal n) s.resources
          ≡ selected generator.spec n
              (deleted_meta "web" ∷ meta_of "mail" ∷ [])
              (any (equal n) generator.status.resources))
follow_all_refines_example =
    follow_all_refines generator (deleted_meta "web" ∷ meta_of "mail" ∷ []) distinct

-- No name is that of both objects.
two_orders :
    (n : NamespacedName)
    → keep (λ obj. equal n (key_of obj)) (deleted_meta "web" ∷ meta_of "mail" ∷ [])
      ≡ keep (λ obj. equal n (key_of obj)) (meta_of "mail" ∷ deleted_meta "web" ∷ [])
two_orders n = elim (Bool-cases (equal n (named "web"))) [
  | inl web ↦ elim (Bool-cases (equal n (named "mail"))) [
    | inl mail ↦
        absurd
          (unlike (sym ((equal_iff n (named "web")).0 web) ∙ (equal_iff n (named "mail")).0 mail))
    | inr other ↦ rw (web, other)
  ]
  | inr other ↦ ground (arith, other)
]
  where
    unlike : named "web" ≢ named "mail"
    unlike h = false≢true (ap (λ m. m.name == "web") (sym h))

follow_all_commutes_example :
    (s : GeneratorStatus) × (s' : GeneratorStatus) × (follow_all generator
        (deleted_meta "web" ∷ meta_of "mail" ∷ [])
      ≡ some s)
    × (follow_all generator (meta_of "mail" ∷ deleted_meta "web" ∷ []) ≡ some s')
    × Distinct s.resources
    × Distinct s'.resources
    × ((n : NamespacedName) → any (equal n) s.resources ≡ any (equal n) s'.resources)
follow_all_commutes_example =
    follow_all_commutes generator (deleted_meta "web" ∷ meta_of "mail" ∷ [])
      (meta_of "mail" ∷ deleted_meta "web" ∷ []) distinct two_orders
