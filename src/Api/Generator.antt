-- ===== src/Api/Generator.antt =====
-- api/dns/v1/generator_types.go and generator_funcs.go. `Generator` and `ClusterGenerator` have the
-- same fields and methods; `scope` tells them apart.
pub mod Resources
use kube_dns_manager.Prelude.{
  ℕ, zero, suc, ◌+◌, ◌-◌, String, Bool, true, false, Option, none, some, List, [], ◌∷◌, ◌++◌, any,
  length, take, drop, get_elem?, ltb, if◌then◌else◌,
}
use kube_dns_manager.Effects.{Result, ok, err}
use kube_dns_manager.Api.Meta.{NamespacedName, equal, LabelSelector, ObjectMeta}

pub record GeneratorSpec : Type 0 where
  pub selector : LabelSelector
  pub resource_kind : String
  pub template_ref : String
  pub template : String
  pub watcher_generate_name : String

pub record GeneratorStatus : Type 0 where
  pub resources : List NamespacedName
  pub applied_generation : ℕ

pub data Scope : Type 0 where
  namespaced cluster : Scope

-- A GeneratorObject.
pub record Generator : Type 0 where
  pub scope : Scope
  pub meta : ObjectMeta
  pub spec : GeneratorSpec
  pub status : GeneratorStatus

-- GeneratorSpec.Matches
unfoldable pub matches : GeneratorSpec → ObjectMeta → Result Bool
matches g obj = elim g.selector.as_selector [ err e ↦ err e | ok test ↦ ok (test obj.labels) ]

-- GeneratorStatus.AddResource: the new status, and whether it changed.
unfoldable pub add_resource : GeneratorStatus → NamespacedName → GeneratorStatus × Bool
add_resource s res =
    if any (equal res) s.resources
    then (s, false)
    else (record s { resources = s.resources ++ res ∷ [] }, true)

-- `append(s[:i], s[i+1:]...)` for the slice of the first `len` places of an array: what stands
-- behind place `i` moves down by one, and the place that becomes free keeps its old content.
unfoldable pub close_gap : ℕ → ℕ → List NamespacedName → List NamespacedName
close_gap i len array = take i array ++ (drop (suc i) (take len array) ++ drop (len - 1) array)

-- The loop of RemoveResource. It ranges over the array as it stood at the start, `rounds` places
-- from `i` on, while `s.Resources` is the slice of its first `len` places. `none` is the panic of
-- a slice expression out of range.
unfoldable pub remove_loop :
    NamespacedName → ℕ → ℕ → ℕ → List NamespacedName → Bool → Option (List NamespacedName × Bool)
remove_loop res zero i len array changed = some (take len array, changed)
remove_loop res (suc rounds) i len array changed =
    let found = remove_loop res rounds (suc i) (len - 1) (close_gap i len array) true in
    let kept = remove_loop res rounds (suc i) len array changed in
    elim (get_elem? array i) [
      | none ↦ none
      | some r ↦ if equal res r then (if ltb i len then found else none) else kept
    ]

-- GeneratorStatus.RemoveResource
unfoldable pub remove_resource : GeneratorStatus → NamespacedName → Option (GeneratorStatus × Bool)
unfolding remove_loop close_gap
remove_resource s res =
    elim (remove_loop res (length s.resources) 0 (length s.resources) s.resources false) [
      | none ↦ none
      | some (rest, changed) ↦ some (record s { resources = rest }, changed)
    ]
