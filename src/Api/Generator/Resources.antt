-- ===== src/Api/Generator/Resources.antt =====
-- The list of resources of a generator: it has no name twice, and a removal takes out one name.
use mathlib.Core.List.{cons≢nil}
use native.Mathlib.Nat.{add-zero}
use kube_dns_manager.Prelude.{
  ℕ, zero, suc, ◌+◌, ◌-◌, ◌≡◌, refl, ◌∙◌, Bool, true, false, not, Option, none, some, List, [], ◌∷◌,
  ◌++◌, append_assoc, arith, any, keep, length, take, drop, any-append, length-append, length-snoc,
  get_elem?-middle, take-append, take_all, drop-append, any-drop, keep_all, append-nil, ◌≢◌,
  Bool-cases, inl, inr,
}
use kube_dns_manager.Api.Meta.{NamespacedName, equal, equal_iff}
use kube_dns_manager.Api.Generator.{
  GeneratorStatus, add_resource, close_gap, remove_loop, remove_resource,
}

-- No name stands twice.
abbrev pub Distinct : List NamespacedName → Type 0
Distinct [] = Unit
Distinct (x ∷ xs) = (any (equal x) xs ≡ false) × Distinct xs

pub Distinct-snoc :
    (xs : List NamespacedName) (y : NamespacedName)
    → Distinct xs
    → any (equal y) xs ≡ false
    → Distinct (xs ++ y ∷ [])
Distinct-snoc [] y d h = (refl, tt)
Distinct-snoc (x ∷ xs) y d h = (
  any-append (equal x) xs (y ∷ []) ∙ ground (arith, equal_iff x y, equal_iff y x, d.0),
  Distinct-snoc xs y d.1 (ground arith),
)

-- Adding a resource keeps the names distinct.
pub add_resource-Distinct :
    (s : GeneratorStatus) (res : NamespacedName)
    → Distinct s.resources
    → Distinct (add_resource s res).0.resources
unfolding add_resource
add_resource-Distinct s res d = elim (Bool-cases (any (equal res) s.resources)) [
  | inl there ↦ rw there d
  | inr absent ↦ rw absent (Distinct-snoc s.resources res d absent)
]

-- Past the removed name nothing is equal to it, so the rest of the loop changes nothing.
remove_loop-absent :
    (res : NamespacedName) (rounds : ℕ) (before after : List NamespacedName) (len : ℕ)
    (changed : Bool)
    → length after ≡ rounds
    → any (equal res) after ≡ false
    → remove_loop res rounds (length before) len (before ++ after) changed
      ≡ some (take len (before ++ after), changed)
unfolding remove_loop
remove_loop-absent res zero before after len changed h a = refl
remove_loop-absent res (suc rounds) before [] len changed h a = absurd (omega arith)
remove_loop-absent res (suc rounds) before (x ∷ after) len changed h a =
    let rest = remove_loop-absent res rounds (before ++ x ∷ []) after len changed in
    ground (
      arith,
      get_elem?-middle before x after,
      rw (length-snoc before x, append_assoc before (x ∷ []) after) at rest (omega arith)
          (ground arith),
    )

close_gap_lem :
    (x : NamespacedName) (before after : List NamespacedName)
    → close_gap (length before) (length (before ++ x ∷ after)) (before ++ x ∷ after)
      ≡ before ++ (after ++ drop (length after) (x ∷ after))
unfolding close_gap
close_gap_lem x before after =
    let all = before ++ x ∷ after in
    let next : suc (length before) ≡ length before + 1 = omega arith in
    let last : length all - 1 ≡ length before + length after =
      omega (arith, length-append before (x ∷ after)) in
    rw (
      take-append before (x ∷ after),
      take_all all,
      next,
      drop-append before (x ∷ after) 1,
      last,
      drop-append before (x ∷ after) (length after),
    )

-- The loop behind the removed name, whose gap was closed.
remove_loop-removed :
    (res : NamespacedName) (before after last : List NamespacedName)
    → any (equal res) after ≡ false
    → (after ≢ [] → any (equal res) last ≡ false)
    → length last ≡ 1
    → remove_loop res
        (length after)
        (suc (length before))
        (length before + length after)
        (before ++ (after ++ last))
        true
      ≡ some (before ++ after, true)
remove_loop-removed res before [] last absent ends one =
    unfold remove_loop in rw (add-zero, take-append before last, append-nil)
remove_loop-removed res before (y ∷ ys) last absent ends one =
    let fits : length (ys ++ last) ≡ suc (length ys) = omega (arith, length-append ys last) in
    let none_left : any (equal res) (ys ++ last) ≡ false =
      any-append (equal res) ys last ∙ ground (arith, ends cons≢nil, absent) in
    let rest =
      remove_loop-absent res (suc (length ys)) (before ++ y ∷ []) (ys ++ last)
        (length before + suc (length ys)) true fits none_left in
    let whole : length before + suc (length ys) ≡ length (before ++ y ∷ ys) =
      omega (arith, length-append before (y ∷ ys)) in
    (rw (length-snoc before y, append_assoc before (y ∷ []) (ys ++ last)) at rest)
    ∙ rw (← append_assoc before (y ∷ ys) last, whole, take-append (before ++ y ∷ ys) last)

length_last :
    (x : NamespacedName) (after : List NamespacedName)
    → length (drop (length after) (x ∷ after)) ≡ 1
length_last x [] = refl
length_last x (y ∷ ys) = length_last y ys

last_absent :
    (res x : NamespacedName) (after : List NamespacedName)
    → any (equal res) after ≡ false
    → after ≢ []
    → any (equal res) (drop (length after) (x ∷ after)) ≡ false
last_absent res x [] h ne = absurd (ne refl)
last_absent res x (y ∷ ys) h ne = any-drop (equal res) (length ys) (y ∷ ys) h

-- The loop from a place on, where nothing was removed before it.
remove_loop_lem :
    (res : NamespacedName) (before after : List NamespacedName)
    → Distinct after
    → remove_loop res
        (length after)
        (length before)
        (length (before ++ after))
        (before ++ after)
        false
      ≡ some (before ++ keep (λ x. not (equal res x)) after, any (equal res) after)
unfolding remove_loop
remove_loop_lem res before [] d = rw (append-nil, take_all before)
remove_loop_lem res before (x ∷ after) d = elim (Bool-cases (equal res x)) [
  | inl same ↦
      let absent : any (equal res) after ≡ false = rw ((equal_iff res x).0 same) d.0 in
      let fewer : length (before ++ x ∷ after) - 1 ≡ length before + length after =
        omega (arith, length-append before (x ∷ after)) in
      let rest =
        remove_loop-removed res before after (drop (length after) (x ∷ after)) absent
          (last_absent res x after absent) (length_last x after) in
      ground (
        arith,
        get_elem?-middle before x after,
        length-append before (x ∷ after),
        close_gap_lem x before after,
        fewer,
        rest,
        keep_all (equal res) after absent,
      )
  | inr other ↦
      let rest = remove_loop_lem res (before ++ x ∷ []) after d.1 in
      let rest' =
        rw
          (
            length-snoc before x,
            append_assoc before (x ∷ []) after,
            append_assoc before (x ∷ []) (keep (λ y. not (equal res y)) after),
          )
          at rest in
      ground (arith, get_elem?-middle before x after, rest')
]

-- From distinct resources a removal takes out the named one and no other, and reports whether it
-- was there. Its slice expressions stay in range.
pub remove_resource_lem :
    (s : GeneratorStatus) (res : NamespacedName)
    → Distinct s.resources
    → remove_resource s res
      ≡ some (
        record s { resources = keep (λ x. not (equal res x)) s.resources },
        any (equal res) s.resources,
      )
unfolding remove_resource
remove_resource_lem s res d = rw (remove_resource, remove_loop_lem res [] s.resources d)

any-keep :
    (q p : NamespacedName → Bool) (xs : List NamespacedName)
    → any q xs ≡ false
    → any q (keep p xs) ≡ false
any-keep q p [] h = refl
any-keep q p (x ∷ xs) h = ground (arith, any-keep q p xs)

pub keep-Distinct :
    (p : NamespacedName → Bool) (xs : List NamespacedName) → Distinct xs → Distinct (keep p xs)
keep-Distinct p [] d = tt
keep-Distinct p (x ∷ xs) d = elim (Bool-cases (p x)) [
  | inl kept ↦ rw kept (any-keep (equal x) p xs d.0, keep-Distinct p xs d.1)
  | inr dropped ↦ rw dropped (keep-Distinct p xs d.1)
]

-- What the controllers do to the list: AddResource and RemoveResource, in any order.
pub data Change : Type 0 where
  add remove : NamespacedName → Change

abbrev pub apply_change : GeneratorStatus → Change → Option GeneratorStatus
apply_change s (add res) = some (add_resource s res).0
apply_change s (remove res) = elim (remove_resource s res) [ none ↦ none | some r ↦ some r.0 ]

abbrev pub apply_changes : GeneratorStatus → List Change → Option GeneratorStatus
apply_changes s [] = some s
apply_changes s (c ∷ cs) = elim (apply_change s c) [ none ↦ none | some s' ↦ apply_changes s' cs ]

-- From distinct resources no sequence of additions and removals panics, and all the names stay
-- distinct.
pub apply_changes_total :
    (s : GeneratorStatus) (cs : List Change)
    → Distinct s.resources
    → (s' : GeneratorStatus) × (apply_changes s cs ≡ some s') × Distinct s'.resources
apply_changes_total s [] d = (s, refl, d)
apply_changes_total s (add res ∷ cs) d =
    apply_changes_total (add_resource s res).0 cs (add_resource-Distinct s res d)
apply_changes_total s (remove res ∷ cs) d =
    let s' = record s { resources = keep (λ x. not (equal res x)) s.resources } in
    let (t, run, kept) =
      apply_changes_total s' cs (keep-Distinct (λ x. not (equal res x)) s.resources d) in
    (t, ground (arith, remove_resource_lem s res d, run), kept)
