-- ===== src/Generators/Rematch.antt =====
-- The resources that a changed specification selects.
use kube_dns_manager.Prelude.{
  ◌≡◌, refl, sym, subst, ap, ◌∙◌, ◌&&◌, ◌||◌, List, [], ◌∷◌, arith, any, any-append, Bool-cases,
  inl, inr, if◌then◌else◌,
}
use kube_dns_manager.Api.Meta.{NamespacedName, equal, equal_iff, equal_refl, ObjectMeta, key_of}
use kube_dns_manager.Api.Generator.{Generator, GeneratorSpec, GeneratorStatus, add_resource}
use kube_dns_manager.Api.Generator.Resources.{Distinct, add_resource-Distinct}
use kube_dns_manager.Generators.Client.{GeneratorCluster}
use kube_dns_manager.Generators.{matched, rematch, rematched}

pub any-add_resource :
    (s : GeneratorStatus) (res n : NamespacedName)
    → any (equal n) (add_resource s res).0.resources ≡ (equal n res || any (equal n) s.resources)
unfolding add_resource
any-add_resource s res n = elim (Bool-cases (any (equal res) s.resources)) [
  | inl there ↦ rw there (elim (Bool-cases (equal n res)) [
    | inl same ↦ rw ((equal_iff n res).0 same, there, equal_refl res)
    | inr other ↦ rw other
  ])
  | inr absent ↦ rw absent (any-append (equal n) s.resources (res ∷ []) ∙ ground arith)
]

rematch_taken :
    (spec : GeneratorSpec) (o : ObjectMeta) (objs : List ObjectMeta) (s : GeneratorStatus)
    → rematch spec (o ∷ objs) s
      ≡ rematch spec objs (if matched spec o then (add_resource s (key_of o)).0 else s)
unfolding rematch
rematch_taken spec o objs s = refl

rematch_lem :
    (spec : GeneratorSpec) (objs : List ObjectMeta) (s : GeneratorStatus) (n : NamespacedName)
    → any (equal n) (rematch spec objs s).resources
      ≡ (any (λ o. matched spec o && equal n (key_of o)) objs || any (equal n) s.resources)
rematch_lem spec [] s n = unfold rematch in refl
rematch_lem spec (o ∷ objs) s n =
    ap (λ t. any (equal n) t.resources) (rematch_taken spec o objs s)
    ∙ rematch_lem spec objs (if matched spec o then (add_resource s (key_of o)).0 else s) n
    ∙ elim (Bool-cases (matched spec o)) [
      | inl taken ↦ rw (taken, any-add_resource s (key_of o) n) (ground arith)
      | inr skipped ↦ rw skipped
    ]

rematch-Distinct :
    (spec : GeneratorSpec) (objs : List ObjectMeta) (s : GeneratorStatus)
    → Distinct s.resources
    → Distinct (rematch spec objs s).resources
rematch-Distinct spec [] s d = unfold rematch in d
rematch-Distinct spec (o ∷ objs) s d =
    subst (λ t. Distinct t.resources) (sym (rematch_taken spec o objs s))
      (rematch-Distinct spec objs (if matched spec o then (add_resource s (key_of o)).0 else s)
        (elim (Bool-cases (matched spec o)) [
          | inl taken ↦
              subst (λ b. Distinct (if b then (add_resource s (key_of o)).0 else s).resources)
                (sym taken) (add_resource-Distinct s (key_of o) d)
          | inr skipped ↦
              subst (λ b. Distinct (if b then (add_resource s (key_of o)).0 else s).resources)
                (sym skipped) d
        ]))

-- After a change of the specification the generator's resources are the names of the listed objects
-- that match, each once, whatever they were before.
pub rematched_lem :
    {W : Type 0} (c : GeneratorCluster W) (g : Generator) (objs : List ObjectMeta)
    (n : NamespacedName)
    → (any (equal n) (rematched c g objs).status.resources
        ≡ any (λ o. matched g.spec o && equal n (key_of o)) objs)
      × Distinct (rematched c g objs).status.resources
rematched_lem c g objs n = (
  rematch_lem g.spec objs (record g.status { resources = [] }) n ∙ ground arith,
  rematch-Distinct g.spec objs (record g.status { resources = [] }) tt,
)
