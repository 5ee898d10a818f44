-- ===== src/Prelude/Strings.antt =====
-- What the program uses of Go's package strings: HasSuffix, TrimSuffix and Split at one character.
-- Texts are sequences of characters; on valid UTF-8 these agree with Go's bytes.
use Prim.Native.Nat.{ℕ}
use Prim.Native.Char.{Char, code}
use Prim.Native.String.{String, ◌++◌, count}
use mathlib.Core.Path.{◌≡◌, refl, sym, ap, ◌∙◌}
use mathlib.Core.Logic.{◌≢◌, ◌↔◌, inl, inr}
use mathlib.Core.Bool.{Bool, true, false, ◌||◌}
use mathlib.Core.List.{List, [], ◌∷◌}
use native.Mathlib.Omega.{arith}
use text.Mathlib.Text.{◌==◌}
use text.Mathlib.TextEquality.{eq_iff}
use text.Mathlib.TextPositions.{eq_refl}
use text.Mathlib.TextLemmas.{
  nil-append, cons-append, append-nil, append_assoc, length-append, length-cons,
}
use kube_dns_manager.Prelude.Tests.{nat_eq, if◌then◌else◌, Bool-cases}

-- strings.HasSuffix
unfoldable pub has_suffix : String → String → Bool
has_suffix String.[] t = String.[] == t
has_suffix (String.◌∷◌ c s) t = String.◌∷◌ c s == t || has_suffix s t

-- strings.TrimSuffix: the text without that end, or the text itself where it has another.
unfoldable pub trim_suffix : String → String → String
trim_suffix String.[] t = String.[]
trim_suffix (String.◌∷◌ c s) t =
    let rest = trim_suffix s t in if String.◌∷◌ c s == t then String.[] else String.◌∷◌ c rest

pub has_suffix-append : (p t : String) → has_suffix (p ++ t) t ≡ true
unfolding has_suffix
has_suffix-append String.[] String.[] = refl
has_suffix-append String.[] (String.◌∷◌ d t) = rw (nil-append, eq_refl (String.◌∷◌ d t))
has_suffix-append (String.◌∷◌ c p) t = rw cons-append (ground (arith, has_suffix-append p t))

suffix_of_has_suffix : (s t : String) → has_suffix s t ≡ true → (p : String) × (s ≡ p ++ t)
unfolding has_suffix
suffix_of_has_suffix String.[] t h = (String.[], rw nil-append ((eq_iff String.[] t).0 h))
suffix_of_has_suffix (String.◌∷◌ c s) t h = elim (Bool-cases (String.◌∷◌ c s == t)) [
  | inl same ↦ (String.[], rw nil-append ((eq_iff (String.◌∷◌ c s) t).0 same))
  | inr other ↦
      let (p, e) = suffix_of_has_suffix s t (ground arith) in
      (String.◌∷◌ c p, rw cons-append (ap (String.◌∷◌ c) e))
]

-- The test passes exactly for the texts that end so.
pub has_suffix_iff : (s t : String) → (has_suffix s t ≡ true) ↔ ((p : String) × (s ≡ p ++ t))
has_suffix_iff s t = (suffix_of_has_suffix s t, λ (p, e). rw e (has_suffix-append p t))

longer_ne : (c : Char) (p t : String) → String.◌∷◌ c (p ++ t) ≢ t
longer_ne c p t e = omega (arith, ap count e, length-cons c (p ++ t), length-append p t)

pub trim_suffix-append : (p t : String) → trim_suffix (p ++ t) t ≡ p
unfolding trim_suffix
trim_suffix-append String.[] String.[] = refl
trim_suffix-append String.[] (String.◌∷◌ d t) = rw (nil-append, eq_refl (String.◌∷◌ d t))
trim_suffix-append (String.◌∷◌ c p) t =
    rw cons-append
      (ground (arith, trim_suffix-append p t, eq_iff (String.◌∷◌ c (p ++ t)) t, longer_ne c p t))

pub trim_suffix-eq_self : (s t : String) → has_suffix s t ≡ false → trim_suffix s t ≡ s
unfolding has_suffix trim_suffix
trim_suffix-eq_self String.[] t h = refl
trim_suffix-eq_self (String.◌∷◌ c s) t h = ground (arith, trim_suffix-eq_self s t)

-- strings.Split at one character: always at least one piece.
unfoldable pub split_from : String → ℕ → String → List String
split_from piece sep String.[] = piece ∷ []
split_from piece sep (String.◌∷◌ c s) =
    let cut = split_from String.[] sep s in
    let go_on = split_from (piece ++ String.◌∷◌ c String.[]) sep s in
    if nat_eq (code c) sep then piece ∷ cut else go_on

unfoldable pub split : String → ℕ → List String
unfolding split_from
split s sep = split_from String.[] sep s

-- The character stands in the text.
unfoldable pub has_char : ℕ → String → Bool
has_char sep String.[] = false
has_char sep (String.◌∷◌ c s) = nat_eq (code c) sep || has_char sep s

append-cons :
    (piece : String) (c : Char) (a : String)
    → (piece ++ String.◌∷◌ c String.[]) ++ a ≡ piece ++ String.◌∷◌ c a
append-cons piece c a =
    append_assoc piece (String.◌∷◌ c String.[]) a
    ∙ ap (λ t. piece ++ t) (cons-append c String.[] a ∙ ap (String.◌∷◌ c) (nil-append a))

split_from-append :
    (piece : String) (sep : ℕ) (a rest : String)
    → has_char sep a ≡ false
    → split_from piece sep (a ++ rest) ≡ split_from (piece ++ a) sep rest
unfolding split_from has_char
split_from-append piece sep String.[] rest h = rw (nil-append, append-nil)
split_from-append piece sep (String.◌∷◌ c a) rest h = ground (
  arith,
  cons-append c a rest,
  split_from-append (piece ++ String.◌∷◌ c String.[]) sep a rest,
  append-cons piece c a,
)

split_from-slash : (a b : String) → split_from a b'/' ("/" ++ b) ≡ a ∷ split_from "" b'/' b
unfolding split_from
split_from-slash a b =
    ap (split_from a b'/') (cons-append "/" "" b ∙ ap (String.◌∷◌ "/") (nil-append b))

-- The empty text is one empty piece.
pub split_empty : (sep : ℕ) → split "" sep ≡ "" ∷ []
unfolding split split_from
split_empty sep = refl

-- Two texts with a slash between them are split again, if neither has a slash in it.
pub split-slash-append :
    (a b : String)
    → has_char b'/' a ≡ false
    → has_char b'/' b ≡ false
    → split (a ++ ("/" ++ b)) b'/' ≡ a ∷ b ∷ []
unfolding split split_from
split-slash-append a b ha hb =
    split_from-append "" b'/' a ("/" ++ b) ha
    ∙ ap (λ t. split_from t b'/' ("/" ++ b)) (nil-append a)
    ∙ split_from-slash a b
    ∙ ap (◌∷◌ a) (
        ap (split_from "" b'/') (sym (append-nil b))
        ∙ split_from-append "" b'/' b "" hb
        ∙ ap (λ t. t ∷ []) (nil-append b))
