-- ===== src/Finalizers.antt =====
-- internal/controller/dns/common.go: the finalizer that the controllers put on an object.
pub mod Laws
use kube_dns_manager.Prelude.{
  String, Bool, true, false, List, [], ◌∷◌, ◌++◌, ◌==◌, any, if◌then◌else◌,
}
use kube_dns_manager.Effects.{Error, plain}
use kube_dns_manager.Api.Meta.{ObjectMeta}

abbrev pub finalizer_label : String
finalizer_label = "dns.xzzpig.com/finalizer"

abbrev pub error_wait_records : Error
error_wait_records = plain "waiting for Records"

abbrev pub error_unknown_kind : Error
error_unknown_kind = plain "unknown kind"

abbrev pub error_no_template : Error
error_no_template = plain "no template specified"

abbrev pub is_finalizer : String → Bool
is_finalizer f = f == finalizer_label

-- The metadata with the finalizer, and whether it changed.
unfoldable pub add_finalizer : ObjectMeta → ObjectMeta × Bool
add_finalizer m =
    if any is_finalizer m.finalizers
    then (m, false)
    else (record m { finalizers = m.finalizers ++ finalizer_label ∷ [] }, true)

-- `append(fs[:i], fs[i+1:]...)` at the first place of the finalizer, and out of the loop.
unfoldable pub remove_first : List String → List String
remove_first [] = []
remove_first (f ∷ fs) = let rest = remove_first fs in if is_finalizer f then fs else f ∷ rest

unfoldable pub remove_finalizer : ObjectMeta → ObjectMeta
unfolding remove_first
remove_finalizer m = record m { finalizers = remove_first m.finalizers }
