-- ===== src/Wiring/Kinds.antt =====
-- The kinds of object that a generator can select, and those whose events reach it.
use kube_dns_manager.Prelude.{
  String, ◌≡◌, refl, sym, subst, Bool-cases, inl, inr, Bool, true, false, not, ◌&&◌, ◌||◌, ◌==◌,
  any, arith, eq_iff, if◌then◌else◌,
}
use kube_dns_manager.Effects.{err}
use kube_dns_manager.Api.Meta.{NamespacedName}
use kube_dns_manager.Api.Generator.{Scope, namespaced, cluster}
use kube_dns_manager.Finalizers.{error_unknown_kind}
use kube_dns_manager.Generators.Client.{GeneratorCluster, kind_node}
use kube_dns_manager.Generators.{is_namespaced_kind, get_resource}
use kube_dns_manager.Wiring.Setup.{generator_controller}

abbrev pub is_known : String → Bool
is_known kind = is_namespaced_kind kind || kind == kind_node

abbrev pub is_namespaced : Scope → Bool
is_namespaced namespaced = true
is_namespaced cluster = false

watched :
    (scope : Scope) (kind : String)
    → any (λ x. kind == x.kind) (generator_controller scope).watches
      ≡ (is_known kind && not (is_namespaced scope && kind == kind_node))
unfolding generator_controller
watched cluster kind = ground arith
watched namespaced kind = elim (Bool-cases (kind == kind_node)) [
  | inr other ↦ ground (arith, other)
  | inl node ↦
      subst
        (λ k.
          any (λ x. k == x.kind) (generator_controller namespaced).watches
          ≡ (is_known k && not (k == kind_node)))
        (sym ((eq_iff kind kind_node).0 node)) refl
]

got :
    {W : Type 0} (c : GeneratorCluster W) (kind : String) (key : NamespacedName) (w : W)
    → get_resource c kind key w ≡ (
        if is_known kind
        then c.get_object kind (if kind == kind_node then record key { namespace = "" } else key) w
        else (err error_unknown_kind, w))
unfolding get_resource
got c kind key w = elim (Bool-cases (kind == kind_node)) [
  | inr other ↦ ground (arith, other)
  | inl node ↦
      subst
        (λ k. get_resource c k key w ≡ (
          if is_known k
          then c.get_object k (if k == kind_node then record key { namespace = "" } else key) w
          else (err error_unknown_kind, w)))
        (sym ((eq_iff kind kind_node).0 node)) refl
]

-- The generator controller is registered for the events of just those kinds that getResource knows,
-- except that the controller of namespaced generators is not registered for nodes, which getResource
-- does get for it.
pub watched_kinds :
    {W : Type 0} (c : GeneratorCluster W) (scope : Scope) (kind : String) (key : NamespacedName)
    (w : W)
    → (any (λ x. kind == x.kind) (generator_controller scope).watches
        ≡ (is_known kind && not (is_namespaced scope && kind == kind_node)))
      × (get_resource c kind key w ≡ (
          if is_known kind
          then c.get_object kind
              (if kind == kind_node then record key { namespace = "" } else key)
              w
          else (err error_unknown_kind, w)))
watched_kinds c scope kind key w = (watched scope kind, got c kind key w)
