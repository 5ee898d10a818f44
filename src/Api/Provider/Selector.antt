-- ===== src/Api/Provider/Selector.antt =====
-- Which records a provider's selector takes.
use Prim.Native.String.{◌++◌}
use kube_dns_manager.Prelude.{
  String, Bool, true, ◌≡◌, ◌↔◌, ◌⊎◌, inl, inr, arith, eq_iff, has_suffix_iff, Bool-cases, ◌==◌,
}
use kube_dns_manager.Effects.{ok}
use kube_dns_manager.Api.Meta.{LabelSelector, Labels}
use kube_dns_manager.Api.Record.{Record}
use kube_dns_manager.Api.Provider.{ProviderSelector, in_domain, labels_match, selector_matches}

-- The name is the domain, or it ends in a dot and the domain; the empty domain takes every name.
abbrev pub InDomain : String → String → Type 0
InDomain domain name =
    (domain ≡ "") ⊎ ((name ≡ domain) ⊎ ((sub : String) × (name ≡ sub ++ ("." ++ domain))))

-- The label selector is empty, or it is valid and takes the labels.
abbrev pub LabelsMatch : LabelSelector → Labels → Type 0
LabelsMatch s labels =
    (s.size ≡ 0) ⊎ ((test : Labels → Bool) × (s.as_selector ≡ ok test) × (test labels ≡ true))

in_domain_iff :
    (domain name : String)
    → (in_domain domain name ≡ true)
      ↔ ((name ≡ domain) ⊎ ((sub : String) × (name ≡ sub ++ ("." ++ domain))))
unfolding in_domain
in_domain_iff domain name = (
  λ h. elim (Bool-cases (name == domain)) [
    | inl same ↦ inl ((eq_iff name domain).0 same)
    | inr other ↦ inr ((has_suffix_iff name ("." ++ domain)).0 (ground arith))
  ],
  λ h. elim h [
    | inl same ↦ ground (arith, eq_iff name domain)
    | inr sub ↦ ground (arith, (has_suffix_iff name ("." ++ domain)).1 sub)
  ],
)

labels_match_iff :
    (s : LabelSelector) (labels : Labels) → (labels_match s labels ≡ ok true) ↔ LabelsMatch s labels
unfolding labels_match
labels_match_iff s labels = ground arith

-- A selector takes a record exactly when the record's name lies in its domain and its labels match.
pub selector_matches-true_iff :
    (s : ProviderSelector) (r : Record)
    → (selector_matches s r ≡ ok true)
      ↔ (InDomain s.domain r.spec.name × LabelsMatch s.label_selector r.meta.labels)
unfolding selector_matches
selector_matches-true_iff s r = (
  λ h. elim (Bool-cases (s.domain == "")) [
    | inl all ↦ (inl ((eq_iff s.domain "").0 all), (labels_match_iff _ _).0 (ground arith))
    | inr some_domain ↦ (
      inr ((in_domain_iff s.domain r.spec.name).0 (ground arith)),
      (labels_match_iff _ _).0 (ground arith),
    )
  ],
  λ h.
      let labelled = (labels_match_iff s.label_selector r.meta.labels).1 h.1 in
      elim h.0 [
        | inl all ↦ ground (arith, eq_iff s.domain "")
        | inr inside ↦ ground (arith, (in_domain_iff s.domain r.spec.name).1 inside)
      ],
)
