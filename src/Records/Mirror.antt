-- ===== src/Records/Mirror.antt =====
-- A table that is a base with the entries of the holders of some IDs, and how it changes with one of
-- them.
use kube_dns_manager.Prelude.{
  String, ◌≡◌, ◌≢◌, ◌⊎◌, sym, ap, ◌∙◌, subst, true, false, Option, none, some, arith, ◌==◌, eq_iff,
  eq_refl, Bool-cases, inl, inr, false≢true,
}
use kube_dns_manager.Dns.Contract.{Table, put}

-- The holder `n` has the ID `ids n`, empty where it holds nothing, for the entry `es n`.
pub record Mirror {E : Type 0} (ids : String → String) (es : String → E) (t base : Table E)
    : Type 0 where
  pub unnamed : base "" ≡ none
  pub holds : (n : String) → (ids n == "") ≡ false → t (ids n) ≡ some (es n)
  pub free : (n : String) → (ids n == "") ≡ false → base (ids n) ≡ none
  pub apart : (n m : String) → (ids n == "") ≡ false → ids m ≡ ids n → m ≡ n
  pub rest : (k : String) → ((n : String) → (ids n == k) ≡ false) → t k ≡ base k

put_there :
    {E : Type 0} (id k : String) (e : Option E) (t : Table E) → (k == id) ≡ true → put id e t k ≡ e
put_there id k e t same = rw same

put_elsewhere :
    {E : Type 0} (id k : String) (e : Option E) (t : Table E)
    → (k == id) ≡ false
    → put id e t k ≡ t k
put_elsewhere id k e t other = rw other

differ : (a b : String) → a ≢ b → (a == b) ≡ false
differ a b h = ground (arith, eq_iff a b)

module _ {E : Type 0} (ids ids' : String → String) (es es' : String → E) (t t' base : Table E)
    (name : String) (mirror : Mirror ids es t base)
    (ids_there : (n : String) → (n == name) ≡ false → ids' n ≡ ids n)
    (es_there : (n : String) → (n == name) ≡ false → es' n ≡ es n) where
  -- Another holder has another ID.
  other_id :
      (n : String) → (n == name) ≡ false → (ids n == "") ≡ false → (ids n == ids name) ≡ false
  other_id n other held = elim (Bool-cases (ids n == ids name)) [
    | inr away ↦ away
    | inl same ↦
        let e : name ≡ n = mirror.apart n name held (sym ((eq_iff (ids n) (ids name)).0 same)) in
        absurd (false≢true (sym other ∙ (eq_iff n name).1 (sym e)))
  ]

  -- The table without what the holder had.
  abbrev less : Table E
  less = put (ids name) none t

  less-holds :
      (n : String) → (n == name) ≡ false → (ids n == "") ≡ false → less (ids n) ≡ some (es n)
  less-holds n other held =
      put_elsewhere (ids name) (ids n) none t (other_id n other held) ∙ mirror.holds n held

  base_own : base (ids name) ≡ none
  base_own = elim (Bool-cases (ids name == "")) [
    | inl empty ↦ ap base ((eq_iff (ids name) "").0 empty) ∙ mirror.unnamed
    | inr held ↦ mirror.free name held
  ]

  -- Where no other holder has the ID, it is there as in the base.
  less-rest :
      (k : String) → ((n : String) → (n == name) ≡ false → (ids n == k) ≡ false) → less k ≡ base k
  less-rest k away = elim (Bool-cases (k == ids name)) [
    | inl same ↦
        put_there (ids name) k none t same ∙ sym (ap base ((eq_iff k (ids name)).0 same) ∙ base_own)
    | inr off ↦ put_elsewhere (ids name) k none t off ∙ mirror.rest k (λ n. nobody n off)
  ]
    where
      nobody : (n : String) → (k == ids name) ≡ false → (ids n == k) ≡ false
      nobody n off = elim (Bool-cases (n == name)) [
        | inr other ↦ away n other
        | inl own ↦
            let e : ids n ≡ ids name = ap ids ((eq_iff n name).0 own) in
            ground (arith, eq_iff (ids n) k, eq_iff k (ids name), e)
      ]

  -- The holder lets go of its ID.
  pub removed-Mirror :
      (ids' name == "") ≡ true → ((k : String) → t' k ≡ less k) → Mirror ids' es' t' base
  removed-Mirror gone now = record {
    unnamed = mirror.unnamed;
    holds = λ n held.
        let other = stranger n held in
        rw (ids_there n other, es_there n other)
          (now (ids n) ∙ less-holds n other (was n other held));
    free = λ n held.
        let other = stranger n held in rw (ids_there n other) (mirror.free n (was n other held));
    apart = λ n m held same.
        let other = stranger n held in
        let held' = subst (λ x. (x == "") ≡ false) (sym same) held in
        let other' = stranger m held' in
        mirror.apart n m (was n other held) (sym (ids_there m other') ∙ same ∙ ids_there n other);
    rest = λ k away.
        now k ∙ less-rest k (λ n other. subst (λ x. (x == k) ≡ false) (ids_there n other) (away n));
  }
    where
      stranger : (n : String) → (ids' n == "") ≡ false → (n == name) ≡ false
      stranger n held = elim (Bool-cases (n == name)) [
        | inr other ↦ other
        | inl own ↦
            let e : ids' n ≡ ids' name = ap ids' ((eq_iff n name).0 own) in
            absurd (false≢true (sym held ∙ ap (λ x. x == "") e ∙ gone))
      ]

      was : (n : String) → (n == name) ≡ false → (ids' n == "") ≡ false → (ids n == "") ≡ false
      was n other held = subst (λ x. (x == "") ≡ false) (ids_there n other) held

  module _ (named : (ids' name == "") ≡ false)
      (new : (ids' name ≡ ids name) ⊎ (t (ids' name) ≡ none))
      (now : (k : String) → t' k ≡ put (ids' name) (some (es' name)) less k) where
    -- No other holder has the new ID.
    not_taken : (n : String) → (n == name) ≡ false → (ids n == ids' name) ≡ false
    not_taken n other = elim (Bool-cases (ids n == ids' name)) [
      | inr free ↦ free
      | inl taken ↦
          let e : ids n ≡ ids' name = (eq_iff (ids n) (ids' name)).0 taken in
          let held = subst (λ x. (x == "") ≡ false) (sym e) named in
          elim new [
            | inl kept ↦ absurd (
                false≢true (sym (other_id n other held) ∙ (eq_iff (ids n) (ids name)).1 (e ∙ kept)))
            | inr nothing ↦
                let both : some (es n) ≡ none = sym (mirror.holds n held) ∙ ap t e ∙ nothing in
                absurd (ground (arith, both))
          ]
    ]

    base_new : base (ids' name) ≡ none
    base_new = elim (Bool-cases (ids name == ids' name)) [
      | inl same ↦
          let e : ids name ≡ ids' name = (eq_iff (ids name) (ids' name)).0 same in
          subst (λ x. base x ≡ none) e
            (mirror.free name (subst (λ x. (x == "") ≡ false) (sym e) named))
      | inr changed ↦ elim new [
        | inl kept ↦
            absurd (false≢true (sym changed ∙ (eq_iff (ids name) (ids' name)).1 (sym kept)))
        | inr nothing ↦ sym (mirror.rest (ids' name) (nobody changed)) ∙ nothing
      ]
    ]
      where
        nobody : (ids name == ids' name) ≡ false → (n : String) → (ids n == ids' name) ≡ false
        nobody changed n = elim (Bool-cases (n == name)) [
          | inr other ↦ not_taken n other
          | inl own ↦
              subst (λ x. (ids x == ids' name) ≡ false) (sym ((eq_iff n name).0 own)) changed
        ]

    placed-apart : (n m : String) → (ids' n == "") ≡ false → ids' m ≡ ids' n → m ≡ n
    placed-apart n m held same = elim (Bool-cases (n == name)) [
      | inl own ↦ elim (Bool-cases (m == name)) [
        | inl own' ↦ (eq_iff m name).0 own' ∙ sym ((eq_iff n name).0 own)
        | inr other' ↦
            absurd
              (taken m other' (sym (ids_there m other') ∙ same ∙ ap ids' ((eq_iff n name).0 own)))
      ]
      | inr other ↦ elim (Bool-cases (m == name)) [
        | inl own' ↦
            absurd (
              taken n other (sym (ids_there n other) ∙ sym same ∙ ap ids' ((eq_iff m name).0 own')))
        | inr other' ↦
            mirror.apart n m (subst (λ x. (x == "") ≡ false) (ids_there n other) held)
              (sym (ids_there m other') ∙ same ∙ ids_there n other)
      ]
    ]
      where
        taken : (n : String) → (n == name) ≡ false → ids n ≢ ids' name
        taken n other e = false≢true (sym (not_taken n other) ∙ (eq_iff (ids n) (ids' name)).1 e)

    placed-holds : (n : String) → (ids' n == "") ≡ false → t' (ids' n) ≡ some (es' n)
    placed-holds n held = elim (Bool-cases (n == name)) [
      | inl own ↦
          subst (λ x. t' (ids' x) ≡ some (es' x)) (sym ((eq_iff n name).0 own))
            (now (ids' name)
              ∙ put_there (ids' name) (ids' name) (some (es' name)) less (eq_refl (ids' name)))
      | inr other ↦
          rw (ids_there n other, es_there n other)
            (now (ids n)
              ∙ put_elsewhere (ids' name) (ids n) (some (es' name)) less (not_taken n other)
              ∙ less-holds n other (subst (λ x. (x == "") ≡ false) (ids_there n other) held))
    ]

    placed-free : (n : String) → (ids' n == "") ≡ false → base (ids' n) ≡ none
    placed-free n held = elim (Bool-cases (n == name)) [
      | inl own ↦ subst (λ x. base (ids' x) ≡ none) (sym ((eq_iff n name).0 own)) base_new
      | inr other ↦
          rw (ids_there n other)
            (mirror.free n (subst (λ x. (x == "") ≡ false) (ids_there n other) held))
    ]

    -- The holder has a new entry, under its ID or under one that stood for nothing.
    pub placed-Mirror : Mirror ids' es' t' base
    placed-Mirror = record {
      unnamed = mirror.unnamed;
      holds = placed-holds;
      free = placed-free;
      apart = placed-apart;
      rest = λ k away.
          now k
          ∙ put_elsewhere (ids' name) k (some (es' name)) less (flip k (away name))
          ∙ less-rest k (λ n other. subst (λ x. (x == k) ≡ false) (ids_there n other) (away n));
    }
      where
        flip : (k : String) → (ids' name == k) ≡ false → (k == ids' name) ≡ false
        flip k h = ground (arith, eq_iff (ids' name) k, eq_iff k (ids' name))
