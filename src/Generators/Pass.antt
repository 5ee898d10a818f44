-- ===== src/Generators/Pass.antt =====
-- A whole pass over the watchers of a generator, where no two watchers stand for one resource.
use kube_dns_manager.Prelude.{
  ◌≡◌, refl, sym, ap, ◌∙◌, subst, Bool, true, false, not, some, List, [], ◌∷◌, arith, any, keep,
  is_some, All, Bool-cases, Option-cases, inl, inr, if◌then◌else◌,
}
use kube_dns_manager.Effects.{ok}
use kube_dns_manager.Api.Meta.{NamespacedName, equal, equal_iff}
use kube_dns_manager.Api.Generator.{Generator}
use kube_dns_manager.Api.Watcher.{ResourceWatcher, get}
use kube_dns_manager.Generators.Client.{GeneratorCluster}
use kube_dns_manager.Generators.{write, go_on, get_resource, round, rounds, sweep, watch_matched}
use kube_dns_manager.Generators.Watchers.{
  marked, go_on-inj, ensure_missing, ensure_found, round_lem, rounds_step, delete_all, sweep_lem,
}

-- No two watchers stand for one resource.
abbrev pub Apart : List ResourceWatcher → Type 0
Apart [] = Unit
Apart (x ∷ xs) = (is_some (get xs x.resource) ≡ false) × Apart xs

-- The watchers of the listed resources are marked.
abbrev pub marks : List NamespacedName → List ResourceWatcher → List ResourceWatcher
marks refs [] = []
marks refs (x ∷ xs) =
    let rest = marks refs xs in (if any (equal x.resource) refs then marked x else x) ∷ rest

get-marks :
    (refs : List NamespacedName) (ws : List ResourceWatcher) (n : NamespacedName)
    → is_some (get (marks refs ws) n) ≡ is_some (get ws n)
unfolding get
get-marks refs [] n = refl
get-marks refs (x ∷ xs) n = ground (arith, get-marks refs xs n)

resource_if_marked :
    (b : Bool) (x : ResourceWatcher) → (if b then marked x else x).resource ≡ x.resource
resource_if_marked true x = refl
resource_if_marked false x = refl

marks-Apart :
    (refs : List NamespacedName) (ws : List ResourceWatcher) → Apart ws → Apart (marks refs ws)
marks-Apart refs [] apart = tt
marks-Apart refs (x ∷ xs) apart = (
  ap (λ n. is_some (get (marks refs xs) n)) (resource_if_marked (any (equal x.resource) refs) x)
      ∙ get-marks refs xs x.resource
      ∙ apart.0,
  marks-Apart refs xs apart.1,
)

marks-marks :
    (r : NamespacedName) (refs : List NamespacedName) (ws : List ResourceWatcher)
    → marks refs (marks (r ∷ []) ws) ≡ marks (r ∷ refs) ws
marks-marks r refs [] = refl
marks-marks r refs (x ∷ xs) = ground (arith, marks-marks r refs xs)

marks_absent :
    (r : NamespacedName) (ws : List ResourceWatcher)
    → is_some (get ws r) ≡ false
    → marks (r ∷ []) ws ≡ ws
unfolding get equal
marks_absent r [] h = refl
marks_absent r (x ∷ xs) h = ground (arith, marks_absent r xs)

write-marks :
    (r : NamespacedName) (ws : List ResourceWatcher) (x : ResourceWatcher)
    → Apart ws
    → get ws r ≡ some x
    → write r (marked x) ws ≡ marks (r ∷ []) ws
unfolding get write equal
write-marks r [] y apart h = cc
write-marks r (x ∷ xs) y apart h = elim (Bool-cases (equal x.resource r)) [
  | inl same ↦
      let absent : is_some (get xs r) ≡ false =
        subst (λ n. is_some (get xs n) ≡ false) ((equal_iff x.resource r).0 same) apart.0 in
      ground (arith, marks_absent r xs absent)
  | inr other ↦ ground (arith, write-marks r xs y apart.1)
]

marks_nil : (ws : List ResourceWatcher) → ws ≡ marks [] ws
marks_nil [] = refl
marks_nil (x ∷ xs) = ap (◌∷◌ x) (marks_nil xs)

keep-marks :
    (refs : List NamespacedName) (ws : List ResourceWatcher)
    → All (λ x. x.status.checked ≡ false) ws
    → keep (λ x. not x.status.checked) (marks refs ws)
      ≡ keep (λ x. not (any (equal x.resource) refs)) ws
keep-marks refs [] fresh = refl
keep-marks refs (x ∷ xs) fresh = ground (arith, keep-marks refs xs fresh.1, fresh.0)

module _ {W : Type 0} (c : GeneratorCluster W) where
  round-marks :
      (g : Generator) (resource : NamespacedName) (ws : List ResourceWatcher) (w : W)
      {ws' : List ResourceWatcher}
      → Apart ws
      → (round c g resource ws w).0 ≡ go_on ws'
      → ws' ≡ marks (resource ∷ []) ws
  round-marks g resource ws w apart h =
      let w1 = (get_resource c g.spec.resource_kind resource w).1 in
      let ensured = round_lem c g resource ws w h in
      elim (Option-cases (get ws resource)) [
        | inl missing ↦
            ensure_missing c g resource ws w1 missing ensured
            ∙ sym (marks_absent resource ws (rw missing))
        | inr (x, found) ↦
            go_on-inj (sym ensured ∙ ap (λ r. r.0) (ensure_found c g resource ws w1 x found))
            ∙ write-marks resource ws x apart found
      ]

  rounds-marks :
      (g : Generator) (refs : List NamespacedName) (ws : List ResourceWatcher) (w : W)
      {ws' : List ResourceWatcher}
      → Apart ws
      → (rounds c g refs ws w).0 ≡ go_on ws'
      → ws' ≡ marks refs ws
  unfolding rounds
  rounds-marks g [] ws w apart h = go_on-inj (sym h) ∙ marks_nil ws
  rounds-marks g (resource ∷ refs) ws w apart h =
      let (mid, first, rest) = rounds_step c g resource refs ws w h in
      let marked_mid = round-marks g resource ws w apart first in
      rounds-marks g refs mid (round c g resource ws w).1
        (subst Apart (sym marked_mid) (marks-Apart (resource ∷ []) ws apart)) rest
      ∙ ap (marks refs) marked_mid
      ∙ marks-marks resource refs ws

  watch_passed :
      (g : Generator) (ws ws' : List ResourceWatcher) (w w1 w2 : W)
      → c.list_watchers g.meta.uid w ≡ (ok ws, w1)
      → rounds c g g.status.resources ws w1 ≡ (go_on ws', w2)
      → watch_matched c g w ≡ sweep c ws' w2
  unfolding watch_matched
  watch_passed g ws ws' w w1 w2 listed passed = ground (arith, listed, passed)

  -- Where the listed watchers stand for different resources, none of them is marked and no round
  -- returns early, the part of Reconcile for an unchanged specification ends with the deletion of
  -- the listed watchers whose resource is not among the resources of the generator, in the order
  -- of the list, and of no other.
  pub watch_matched_lem :
      (g : Generator) (ws ws' : List ResourceWatcher) (w w1 w2 : W)
      → c.list_watchers g.meta.uid w ≡ (ok ws, w1)
      → Apart ws
      → All (λ x. x.status.checked ≡ false) ws
      → rounds c g g.status.resources ws w1 ≡ (go_on ws', w2)
      → watch_matched c g w
        ≡ delete_all c (keep (λ x. not (any (equal x.resource) g.status.resources)) ws) w2
  watch_matched_lem g ws ws' w w1 w2 listed apart fresh passed =
      let all_marked = rounds-marks g g.status.resources ws w1 apart (ap (λ r. r.0) passed) in
      watch_passed g ws ws' w w1 w2 listed passed
      ∙ sweep_lem c ws' w2
      ∙ ap (λ v. delete_all c v w2)
          (ap (keep (λ x. not x.status.checked)) all_marked
            ∙ keep-marks g.status.resources ws fresh)
