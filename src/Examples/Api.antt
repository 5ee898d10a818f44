-- ===== src/Examples/Api.antt =====
-- Selectors and finalizers on small objects.
use kube_dns_manager.Prelude.{◌≡◌, ◌↔◌, refl, true, [], ◌∷◌}
use kube_dns_manager.Effects.{ok}
use kube_dns_manager.Api.Meta.{ObjectMeta}
use kube_dns_manager.Api.Provider.{selector_matches}
use kube_dns_manager.Api.Provider.Selector.{InDomain, LabelsMatch, selector_matches-true_iff}
use kube_dns_manager.Finalizers.{add_finalizer, remove_finalizer}
use kube_dns_manager.Finalizers.Laws.{remove_finalizer-add_finalizer}
use kube_dns_manager.Examples.Fixtures.{meta_of, record_with, first}

selector_matches-true_iff_example :
    (selector_matches first.spec.selector (record_with (meta_of "web") []) ≡ ok true) ↔ (
      InDomain "example.org" "www.example.org"
      × LabelsMatch first.spec.selector.label_selector (("app", "web") ∷ []))
selector_matches-true_iff_example =
    selector_matches-true_iff first.spec.selector (record_with (meta_of "web") [])

abbrev bare : ObjectMeta
bare = record (meta_of "web") { finalizers = "example.org/other" ∷ [] }

changed : (add_finalizer bare).1 ≡ true
unfolding add_finalizer
changed = refl

remove_finalizer-add_finalizer_example : remove_finalizer (add_finalizer bare).0 ≡ bare
remove_finalizer-add_finalizer_example = remove_finalizer-add_finalizer bare changed
