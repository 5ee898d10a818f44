-- ===== src/Watchers/Functions.antt =====
-- internal/controller/dns/template.go: the functions that NewTemplate adds to the template language.
use kube_dns_manager.Prelude.{String, Option, none, some}
use kube_dns_manager.Effects.{plain, Result, ok, err}

-- What a template hands to a function, seen by reflection: nil, a nil map, slice or pointer, one that
-- is not nil, or a value of a kind that has no nil, such as a text, a number or a struct.
pub data Value (A : Type 0) : Type 0 where
  untyped_nil : Value A
  typed_nil : Value A
  reference : A → Value A
  direct : A → Value A

-- toYaml, over yaml.Marshal. IsNil panics for a kind that has no nil.
unfoldable pub to_yaml : {A : Type 0} → (A → Result String) → Value A → Result String
to_yaml marshal untyped_nil = ok ""
to_yaml marshal typed_nil = ok ""
to_yaml marshal (reference a) = marshal a
to_yaml marshal (direct a) = err (plain "reflect: call of reflect.Value.IsNil")

-- unPtrStr
unfoldable pub un_ptr_str : Option String → String
un_ptr_str none = ""
un_ptr_str (some s) = s
