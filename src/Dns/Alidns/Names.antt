-- ===== src/Dns/Alidns/Names.antt =====
-- The host part that the Aliyun provider sends, for the names that a selector takes.
use Prim.Native.String.{◌++◌}
use kube_dns_manager.Prelude.{true, ◌≡◌, ◌≢◌, ◌⊎◌, inl, inr, sym, ap, ◌∙◌}
use kube_dns_manager.Effects.{ok}
use kube_dns_manager.Api.Record.{Record}
use kube_dns_manager.Api.Provider.{ProviderSelector, selector_matches}
use kube_dns_manager.Api.Provider.Selector.{selector_matches-true_iff}
use kube_dns_manager.Dns.Alidns.{get_rr}
use kube_dns_manager.Dns.Alidns.Laws.{get_rr-append, get_rr_self}

-- A provider with the domain of its selector sends a host part that gives back the name of every
-- record that the selector takes: the name is the domain itself and the host part is empty, or the
-- name is the host part, a dot and the domain. It is for a selector with a domain.
pub matched_rr :
    (s : ProviderSelector) (r : Record)
    → s.domain ≢ ""
    → selector_matches s r ≡ ok true
    → ((r.spec.name ≡ s.domain) × (get_rr s.domain r.spec.name ≡ ""))
      ⊎ (r.spec.name ≡ get_rr s.domain r.spec.name ++ ("." ++ s.domain))
matched_rr s r some_domain h = elim ((selector_matches-true_iff s r).0 h).0 [
  | inl all ↦ absurd (some_domain all)
  | inr (inl same) ↦ inl (same, ap (get_rr s.domain) same ∙ get_rr_self s.domain)
  | inr (inr (host, under)) ↦
      let part : get_rr s.domain r.spec.name ≡ host =
        ap (get_rr s.domain) under ∙ get_rr-append s.domain host in
      inr (under ∙ ap (λ x. x ++ ("." ++ s.domain)) (sym part))
]
