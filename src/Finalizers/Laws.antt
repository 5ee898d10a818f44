-- ===== src/Finalizers/Laws.antt =====
-- Adding the finalizer and taking it away again.
use kube_dns_manager.Prelude.{
  ◌≡◌, refl, not, String, true, false, List, [], ◌∷◌, ◌++◌, any, arith, Bool-cases, inl, inr,
  eq_refl, any-append, ◌∙◌,
}
use kube_dns_manager.Api.Meta.{ObjectMeta}
use kube_dns_manager.Finalizers.{
  finalizer_label, is_finalizer, add_finalizer, remove_first, remove_finalizer,
}

-- After add_finalizer the finalizer is there, and the metadata changed exactly when it was not.
pub add_finalizer_lem :
    (m : ObjectMeta)
    → (any is_finalizer (add_finalizer m).0.finalizers ≡ true)
      × ((add_finalizer m).1 ≡ not (any is_finalizer m.finalizers))
unfolding add_finalizer
add_finalizer_lem m = elim (Bool-cases (any is_finalizer m.finalizers)) [
  | inl there ↦ rw there (there, refl)
  | inr absent ↦
      rw absent
        (any-append is_finalizer m.finalizers _ ∙ ground (arith, eq_refl finalizer_label), refl)
]

remove_first-snoc :
    (fs : List String)
    → any is_finalizer fs ≡ false
    → remove_first (fs ++ finalizer_label ∷ []) ≡ fs
unfolding remove_first
remove_first-snoc [] h = refl
remove_first-snoc (f ∷ fs) h = ground (arith, remove_first-snoc fs)

-- Where add_finalizer changed an object, remove_finalizer gives back the object as it was.
pub remove_finalizer-add_finalizer :
    (m : ObjectMeta) → (add_finalizer m).1 ≡ true → remove_finalizer (add_finalizer m).0 ≡ m
unfolding add_finalizer remove_finalizer
remove_finalizer-add_finalizer m h = ground (arith, remove_first-snoc m.finalizers)
