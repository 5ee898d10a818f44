-- ===== src/Records/Watch.antt =====
-- watchForProviders, getProviderWatchPredicates and the field index of
-- internal/controller/dns/record_controller.go: which records a change of a provider wakes.
use kube_dns_manager.Prelude.{
  ◌≡◌, refl, Bool, true, false, not, ◌&&◌, ◌||◌, Option, some, String, List, [], ◌∷◌, ◌++◌, arith,
  any, map, keep, nat_eq, Bool-cases, inl, inr, if◌then◌else◌, ◌==◌,
}
use kube_dns_manager.Effects.{Result-cases, ok, err, Exec}
use kube_dns_manager.Api.Meta.{
  NamespacedName, equal, equal_refl, to_string, key_of, ObjectMeta, Labels, LabelSelector,
  is_deleted,
}
use kube_dns_manager.Api.Record.{Record}
use kube_dns_manager.Api.Provider.{Provider, selector_matches, labels_match}
use kube_dns_manager.Records.Coverage.{takes}

-- r.List with a namespace, empty for all, and a selector of labels.
abbrev pub ListRecords : Type 0 → Type 0
ListRecords W = String → (Labels → Bool) → Exec W (List Record)

abbrev pub matched : Provider → List Record → List NamespacedName
matched p [] = []
matched p (r ∷ rs) = let rest = matched p rs in if takes r p then key_of r.meta ∷ rest else rest

unfoldable pub watch_for_providers :
    {W : Type 0} → ListRecords W → Provider → W → List NamespacedName × W
watch_for_providers list_records p w = elim p.spec.selector.label_selector.as_selector [
  | err e ↦ ([], w)
  | ok test ↦
      let (got, w') = list_records p.meta.namespace test w in
      elim got [ err e ↦ ([], w') | ok rs ↦ (matched p rs, w') ]
]

-- UpdateFunc; a nil object is `none`.
unfoldable pub update_wakes : Option ObjectMeta → Option ObjectMeta → Bool
update_wakes (some old) (some new) = is_deleted new || not (nat_eq old.generation new.generation)
update_wakes _ _ = false

-- The index of records by the names of their providers.
unfoldable pub providers_index : Record → List String
providers_index r = map (λ s. to_string s.named) r.status.providers

-- An empty label selector is valid and takes everything.
abbrev pub EmptySelectsAll : LabelSelector → Type 0
EmptySelectsAll s = s.size ≡ 0 → s.as_selector ≡ ok (λ _. true)

-- What List selects of the records that there are.
abbrev pub listed : String → (Labels → Bool) → Record → Bool
listed namespace test r = (namespace == "" || r.meta.namespace == namespace) && test r.meta.labels

matched_complete :
    (p : Provider) (test : Labels → Bool) (rs : List Record) (r : Record)
    → takes r p ≡ true
    → listed p.meta.namespace test r ≡ true
    → (before after : List Record) → rs ≡ before ++ r ∷ after
    → any (equal (key_of r.meta)) (matched p (keep (listed p.meta.namespace test) rs)) ≡ true
matched_complete p test rs r taken here [] after e =
    rw e (ground (arith, taken, here, equal_refl (key_of r.meta)))
matched_complete p test rs r taken here (x ∷ before) after e =
    let ih = matched_complete p test (before ++ r ∷ after) r taken here before after refl in
    rw e (ground (arith, ih))

labels_of_takes :
    (r : Record) (p : Provider)
    → takes r p ≡ true
    → labels_match p.spec.selector.label_selector r.meta.labels ≡ ok true
unfolding selector_matches
labels_of_takes r p h = ground arith

-- A selector that matches was converted, and its test takes the labels.
test_of_match :
    (s : LabelSelector) (labels : Labels)
    → EmptySelectsAll s
    → labels_match s labels ≡ ok true
    → (test : Labels → Bool) × (s.as_selector ≡ ok test) × (test labels ≡ true)
unfolding labels_match
test_of_match s labels all h = elim (Bool-cases (nat_eq s.size 0)) [
  | inl empty ↦ ((λ _. true), all (ground arith), refl)
  | inr asks ↦ elim (Result-cases s.as_selector) [
    | inl (test, valid) ↦ (test, valid, ground (arith, asks, valid))
    | inr (e, invalid) ↦ absurd (ground (arith, asks, invalid))
  ]
]

-- The requests for a change of a provider hold every record that the provider takes, in the namespace
-- of the provider, or in any for a cluster-wide one. It is for a List that returns the records of
-- the namespace whose labels pass.
pub watch_for_providers_complete :
    {W : Type 0} (list_records : ListRecords W) (p : Provider) (w : W) (before after : List Record)
    (r : Record)
    → EmptySelectsAll p.spec.selector.label_selector
    → ((test : Labels → Bool)
        → (list_records p.meta.namespace test w).0
          ≡ ok (keep (listed p.meta.namespace test) (before ++ r ∷ after)))
    → (p.meta.namespace == "" || r.meta.namespace == p.meta.namespace) ≡ true
    → takes r p ≡ true
    → any (equal (key_of r.meta)) (watch_for_providers list_records p w).0 ≡ true
unfolding watch_for_providers
watch_for_providers_complete list_records p w before after r all lists inside taken =
    let (test, valid, passes) =
      test_of_match p.spec.selector.label_selector r.meta.labels all (labels_of_takes r p taken) in
    let found =
      matched_complete p test (before ++ r ∷ after) r taken (ground (arith, inside, passes)) before
        after refl in
    ground (arith, valid, lists test, found)
