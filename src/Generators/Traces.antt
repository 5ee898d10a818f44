-- ===== src/Generators/Traces.antt =====
-- Sequences of changes of objects, as the watches of the generator controller bring them, over what a
-- generator selects as a set of names.
use kube_dns_manager.Prelude.{
  ◌≡◌, refl, sym, ap, subst, ◌∙◌, Bool, false, not, ◌&&◌, Option, none, some, List, [], ◌∷◌, arith,
  any, keep, Bool-cases, inl, inr, if◌then◌else◌,
}
use kube_dns_manager.Effects.{Result-cases, ok, err}
use kube_dns_manager.Api.Meta.{NamespacedName, equal, ObjectMeta, is_deleted, key_of}
use kube_dns_manager.Api.Generator.{Generator, GeneratorSpec, GeneratorStatus, matches}
use kube_dns_manager.Api.Generator.Resources.{Distinct}
use kube_dns_manager.Generators.Events.{follow, follow_lem}

-- The status after the changes, in their order; each is stored before the next comes.
unfoldable pub follow_all : Generator → List ObjectMeta → Option GeneratorStatus
follow_all g [] = some g.status
follow_all g (obj ∷ objs) = elim (follow g obj) [
  | none ↦ none
  | some (s, changed) ↦ follow_all (record g { status = if changed then s else g.status }) objs
]

-- What a change decides of its object; nothing where the selector of the generator is invalid.
abbrev pub decision : GeneratorSpec → ObjectMeta → Option Bool
decision spec obj = elim (matches spec obj) [
  | err e ↦ none
  | ok matching ↦ some (matching && not (is_deleted obj))
]

-- One step of the abstract machine: is a name selected after the change?
abbrev pub decide : GeneratorSpec → NamespacedName → ObjectMeta → Bool → Bool
decide spec n obj before =
    if equal n (key_of obj) then elim (decision spec obj) [ none ↦ before | some b ↦ b ] else before

-- The abstract machine: each change decides of its own object only.
abbrev pub selected : GeneratorSpec → NamespacedName → List ObjectMeta → Bool → Bool
selected spec n [] before = before
selected spec n (obj ∷ objs) before = selected spec n objs (decide spec n obj before)

follow_failed :
    (g : Generator) (obj : ObjectMeta) {e : kube_dns_manager.Effects.Error}
    → matches g.spec obj ≡ err e
    → follow g obj ≡ some (g.status, false)
unfolding follow
follow_failed g obj h = ground (arith, h)

-- A change runs through, keeps the names distinct and does to every name what the abstract machine
-- does.
follow_step :
    (g : Generator) (obj : ObjectMeta)
    → Distinct g.status.resources
    → (s : GeneratorStatus) × (changed : Bool) × (follow g obj ≡ some (s, changed))
      × Distinct s.resources
      × ((if changed then s else g.status) ≡ s)
      × ((n : NamespacedName)
          → any (equal n) s.resources ≡ decide g.spec n obj (any (equal n) g.status.resources))
follow_step g obj d = elim (Result-cases (matches g.spec obj)) [
  | inr (e, failed) ↦
      (g.status, false, follow_failed g obj failed, d, refl, λ n. ground (arith, failed))
  | inl (matching, tested) ↦
      let (s, changed, run, _, distinct, same) = follow_lem g obj matching (key_of obj) tested d in
      (
        s,
        changed,
        run,
        distinct,
        same,
        λ n.
            let (t, _, run', members, _, _) = follow_lem g obj matching n tested d in
            let e : t ≡ s = cc (sym run' ∙ run) in
            let here =
              subst
                (λ x. any (equal n) x.resources ≡ (
                  if equal n (key_of obj)
                  then matching && not (is_deleted obj)
                  else any (equal n) g.status.resources))
                e members in
            here ∙ ground (arith, tested),
      )
]

follow_all_next :
    (g : Generator) (obj : ObjectMeta) (objs : List ObjectMeta) {s : GeneratorStatus}
    {changed : Bool}
    → follow g obj ≡ some (s, changed)
    → follow_all g (obj ∷ objs)
      ≡ follow_all (record g { status = if changed then s else g.status }) objs
unfolding follow_all
follow_all_next g obj objs h = ground (arith, h)

-- Any sequence of changes runs through without a panic, keeps the names distinct, and leaves just the
-- names that the abstract machine selects: for each name its last change decides. Each changed status
-- is taken as stored before the next change.
pub follow_all_refines :
    (g : Generator) (objs : List ObjectMeta)
    → Distinct g.status.resources
    → (s : GeneratorStatus) × (follow_all g objs ≡ some s)
      × Distinct s.resources
      × ((n : NamespacedName)
          → any (equal n) s.resources ≡ selected g.spec n objs (any (equal n) g.status.resources))
unfolding follow_all
follow_all_refines g [] d = (g.status, refl, d, λ n. refl)
follow_all_refines g (obj ∷ objs) d =
    let (s, changed, run, distinct, same, members) = follow_step g obj d in
    let (t, rest, distinct', members') =
      follow_all_refines (record g { status = s }) objs distinct in
    (
      t,
      follow_all_next g obj objs run
          ∙ ap (λ x. follow_all (record g { status = x }) objs) same
          ∙ rest,
      distinct',
      λ n. members' n ∙ ap (selected g.spec n objs) (members n),
    )

-- The changes of other names decide nothing.
selected_own :
    (spec : GeneratorSpec) (n : NamespacedName) (objs : List ObjectMeta) (before : Bool)
    → selected spec n objs before ≡ selected spec n (keep (λ obj. equal n (key_of obj)) objs) before
selected_own spec n [] before = refl
selected_own spec n (obj ∷ objs) before = elim (Bool-cases (equal n (key_of obj))) [
  | inl own ↦
      let mine = keep (λ o. equal n (key_of o)) objs in
      let e : keep (λ o. equal n (key_of o)) (obj ∷ objs) ≡ obj ∷ mine = rw own refl in
      selected_own spec n objs (decide spec n obj before)
      ∙ ap (λ l. selected spec n l before) (sym e)
  | inr other ↦ rw other (selected_own spec n objs before)
]

-- Two sequences of changes that have the changes of each single object in the same order, however
-- they interleave those of different objects, lead to the same set of names without a repetition.
pub follow_all_commutes :
    (g : Generator) (objs objs' : List ObjectMeta)
    → Distinct g.status.resources
    → ((n : NamespacedName)
        → keep (λ obj. equal n (key_of obj)) objs ≡ keep (λ obj. equal n (key_of obj)) objs')
    → (s : GeneratorStatus) × (s' : GeneratorStatus) × (follow_all g objs ≡ some s)
      × (follow_all g objs' ≡ some s')
      × Distinct s.resources
      × Distinct s'.resources
      × ((n : NamespacedName) → any (equal n) s.resources ≡ any (equal n) s'.resources)
follow_all_commutes g objs objs' d alike =
    let (s, run, distinct, members) = follow_all_refines g objs d in
    let (s', run', distinct', members') = follow_all_refines g objs' d in
    (
      s,
      s',
      run,
      run',
      distinct,
      distinct',
      λ n.
          let before = any (equal n) g.status.resources in
          members n
          ∙ selected_own g.spec n objs before
          ∙ ap (λ l. selected g.spec n l before) (alike n)
          ∙ sym (selected_own g.spec n objs' before)
          ∙ sym (members' n),
    )
