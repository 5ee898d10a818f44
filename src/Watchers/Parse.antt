-- ===== src/Watchers/Parse.antt =====
-- parse of internal/controller/dns/resourcewatcher_controller.go: the text of an executed template as
-- records, by its first character.
use Prim.Native.Nat.{ℕ}
use Prim.Native.Char.{code}
use Prim.Native.String.{String}
use kube_dns_manager.Prelude.{Bool, false, List, [], ◌∷◌, ◌==◌, nat_eq, if◌then◌else◌}
use kube_dns_manager.Effects.{Result, ok, err}
use kube_dns_manager.Api.Record.{Record}
use kube_dns_manager.Watchers.Client.{Decoder}

-- strings.TrimPrefix and strings.HasPrefix, for a prefix of one character.
unfoldable pub trim_char : ℕ → String → String
trim_char c String.[] = String.[]
trim_char c (String.◌∷◌ d s) = if nat_eq (code d) c then s else String.◌∷◌ d s

unfoldable pub starts_with : ℕ → String → Bool
starts_with c String.[] = false
starts_with c (String.◌∷◌ d s) = nat_eq (code d) c

abbrev one : Result Record → Result (List Record)
one (ok r) = ok (r ∷ [])
one (err e) = err e

unfoldable pub parse : Decoder → String → Result (List Record)
unfolding trim_char starts_with
parse decoder text =
    let clean = trim_char b' ' (trim_char b'\n' text) in
    if clean == ""
    then ok []
    else if starts_with b'{' clean
    then one (decoder.json_record text)
    else if starts_with b'[' clean
    then decoder.json_records text
    else if starts_with b'-' clean
    then decoder.yaml_records text
    else one (decoder.yaml_record text)
