-- ===== src/Generators/Events.antt =====
-- internal/controller/dns/generator_controller.go: watchResources, the answer to a change of an
-- object that a generator may select.
use kube_dns_manager.Prelude.{
  ◌≡◌, ◌∙◌, String, Bool, true, false, not, ◌&&◌, Option, none, some, List, [], ◌∷◌, arith, any,
  keep, keep_all, Bool-cases, inl, inr, if◌then◌else◌,
}
use kube_dns_manager.Effects.{slice_out_of_range, ok, err, Exec}
use kube_dns_manager.Api.Meta.{NamespacedName, equal, equal_iff, ObjectMeta, is_deleted, key_of}
use kube_dns_manager.Api.Generator.{
  Generator, GeneratorStatus, Scope, namespaced, cluster, matches, add_resource, remove_resource,
}
use kube_dns_manager.Api.Generator.Resources.{
  Distinct, add_resource-Distinct, remove_resource_lem, keep-Distinct,
}
use kube_dns_manager.Generators.Client.{GeneratorCluster}
use kube_dns_manager.Generators.Rematch.{any-add_resource}

-- The new status of a generator for a changed object, and whether it changed. `none` is a panic.
unfoldable pub follow : Generator → ObjectMeta → Option (GeneratorStatus × Bool)
follow g obj = elim (matches g.spec obj) [
  | err e ↦ some (g.status, false)
  | ok matching ↦
      if matching && not (is_deleted obj)
      then some (add_resource g.status (key_of obj))
      else remove_resource g.status (key_of obj)
]

module _ {W : Type 0} (c : GeneratorCluster W) where
  -- checkGenerator: an error of the update is logged.
  unfoldable pub check_generator : ObjectMeta → Generator → Exec W (Unit {0})
  check_generator obj g w = elim (follow g obj) [
    | none ↦ (err slice_out_of_range, w)
    | some (status, changed) ↦
        if changed
        then (let (got, w') = c.update_status (record g { status = status }) w in (ok tt, w'))
        else (ok tt, w)
  ]

  unfoldable pub check_generators : ObjectMeta → List Generator → Exec W (List NamespacedName)
  check_generators obj [] w = (ok [], w)
  check_generators obj (g ∷ gs) w =
      let (got, w') = check_generator obj g w in
      elim got [ err e ↦ (err e, w') | ok _ ↦ check_generators obj gs w' ]

  -- watchResources, for the generators of one scope: it requests no reconciliation itself.
  unfoldable pub watch_resources : Scope → String → ObjectMeta → Exec W (List NamespacedName)
  watch_resources scope kind obj w =
      let namespace : String = elim scope [ namespaced ↦ obj.namespace | cluster ↦ "" ] in
      let (got, w') = c.list_generators scope namespace kind w in
      elim got [ err e ↦ (ok [], w') | ok gs ↦ check_generators obj gs w' ]

any-keep_ne :
    (n res : NamespacedName) (xs : List NamespacedName)
    → any (equal n) (keep (λ x. not (equal res x)) xs) ≡ (not (equal n res) && any (equal n) xs)
any-keep_ne n res [] = ground arith
any-keep_ne n res (x ∷ xs) =
    ground (arith, any-keep_ne n res xs, equal_iff n x, equal_iff res x, equal_iff n res)

follow_added :
    (g : Generator) (obj : ObjectMeta) (matching : Bool)
    → matches g.spec obj ≡ ok matching
    → (matching && not (is_deleted obj)) ≡ true
    → follow g obj ≡ some (add_resource g.status (key_of obj))
unfolding follow
follow_added g obj matching h chosen = ground (arith, h)

follow_removed :
    (g : Generator) (obj : ObjectMeta) (matching : Bool)
    → matches g.spec obj ≡ ok matching
    → (matching && not (is_deleted obj)) ≡ false
    → follow g obj ≡ remove_resource g.status (key_of obj)
unfolding follow
follow_removed g obj matching h left = ground (arith, h)

add_resource_unchanged :
    (s : GeneratorStatus) (res : NamespacedName)
    → (if (add_resource s res).1 then (add_resource s res).0 else s) ≡ (add_resource s res).0
unfolding add_resource
add_resource_unchanged s res = ground arith

keep_unchanged :
    (s : GeneratorStatus) (res : NamespacedName)
    → (if any (equal res) s.resources
        then record s { resources = keep (λ x. not (equal res x)) s.resources }
        else s)
      ≡ record s { resources = keep (λ x. not (equal res x)) s.resources }
keep_unchanged s res = elim (Bool-cases (any (equal res) s.resources)) [
  | inl there ↦ rw there
  | inr absent ↦ rw (absent, keep_all (equal res) s.resources absent)
]

-- After an event the object's name is among the resources of a generator whose resources are
-- distinct exactly if the object matches and is not being deleted; every other name is there if it
-- was, all names stay distinct, nothing panics, and a status that is reported as unchanged is
-- unchanged.
pub follow_lem :
    (g : Generator) (obj : ObjectMeta) (matching : Bool) (n : NamespacedName)
    → matches g.spec obj ≡ ok matching
    → Distinct g.status.resources
    → (s : GeneratorStatus) × (changed : Bool) × (follow g obj ≡ some (s, changed))
      × (any (equal n) s.resources ≡ (
          if equal n (key_of obj)
          then matching && not (is_deleted obj)
          else any (equal n) g.status.resources))
      × Distinct s.resources
      × ((if changed then s else g.status) ≡ s)
follow_lem g obj matching n h d = elim (Bool-cases (matching && not (is_deleted obj))) [
  | inl chosen ↦
      let next = add_resource g.status (key_of obj) in
      (
        next.0,
        next.1,
        follow_added g obj matching h chosen,
        any-add_resource g.status (key_of obj) n ∙ ground (arith, chosen),
        add_resource-Distinct g.status (key_of obj) d,
        add_resource_unchanged g.status (key_of obj),
      )
  | inr left ↦ (
    record g.status { resources = keep (λ x. not (equal (key_of obj) x)) g.status.resources },
    any (equal (key_of obj)) g.status.resources,
    follow_removed g obj matching h left ∙ remove_resource_lem g.status (key_of obj) d,
    any-keep_ne n (key_of obj) g.status.resources ∙ ground (arith, left),
    keep-Distinct (λ x. not (equal (key_of obj) x)) g.status.resources d,
    keep_unchanged g.status (key_of obj),
  )
]
