-- ===== src/Api/Meta.antt =====
-- api/dns/v1/custom_types.go and custom_funcs.go: names of objects. And what the program uses of
-- Kubernetes' own types: the metadata of an object, and a label selector as the two things that
-- the program asks of it.
use Prim.Native.String.{◌++◌}
use kube_dns_manager.Prelude.{
  ℕ, String, Bool, true, false, ◌&&◌, Option, none, some, List, ◌==◌, ◌≡◌, ◌↔◌, arith, eq_iff,
}
use kube_dns_manager.Effects.{Result}

pub record NamespacedName : Type 0 where
  pub name : String
  pub namespace : String

unfoldable pub equal : NamespacedName → NamespacedName → Bool
equal n other = n.name == other.name && n.namespace == other.namespace

unfoldable pub to_string : NamespacedName → String
to_string n = n.namespace ++ ("/" ++ n.name)

pub equal_iff : (n m : NamespacedName) → (equal n m ≡ true) ↔ (n ≡ m)
unfolding equal
equal_iff n m = ground (arith, eq_iff n.name m.name, eq_iff n.namespace m.namespace)

pub equal_refl : (n : NamespacedName) → equal n n ≡ true
equal_refl n = (equal_iff n n).1 (λ i. n)

abbrev pub Labels : Type 0
Labels = List (String × String)

-- metav1.LabelSelector: its Size(), and LabelSelectorAsSelector with the Matches of the result.
pub record LabelSelector : Type 0 where
  pub size : ℕ
  pub as_selector : Result (Labels → Bool)

pub record OwnerReference : Type 0 where
  pub kind : String
  pub owner_name : String
  pub owner_uid : String

-- metav1.ObjectMeta: the fields that the program reads or writes.
pub record ObjectMeta : Type 0 where
  pub name : String
  pub generate_name : String
  pub namespace : String
  pub uid : String
  pub resource_version : String
  pub generation : ℕ
  pub deletion_timestamp : Option ℕ
  pub labels : Labels
  pub annotations : Labels
  pub owner_references : List OwnerReference
  pub finalizers : List String

-- !GetDeletionTimestamp().IsZero()
abbrev pub is_deleted : ObjectMeta → Bool
is_deleted m = elim m.deletion_timestamp [ none ↦ false | some t ↦ true ]

abbrev pub key_of : ObjectMeta → NamespacedName
key_of m = record { name = m.name; namespace = m.namespace }
