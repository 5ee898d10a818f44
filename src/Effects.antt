-- ===== src/Effects.antt =====
-- Go's error values, and code that calls the outside world.
-- A call of the cluster, of a DNS service or of a provider runs in a state `W` of the world, which
-- is a parameter: the calls are functions on it, and the program threads it in the order of its calls.
use kube_dns_manager.Prelude.{ℕ, String, Bool, true, false, List, ◌≡◌, ◌≢◌, refl, ◌⊎◌, inl, inr}

-- The errors that the program tells apart, each with its text.
pub data Error : Type 0 where
  -- errors.New, fmt.Errorf and the errors of libraries that are only passed on
  plain : String → Error
  -- a reply of the Kubernetes API: is it NotFound?
  api : Bool → String → Error
  -- *tea.SDKError: its code
  sdk : String → String → Error
  -- *cloudflare.NotFoundError
  cf_not_found : String → Error
  -- *cloudflare.RequestError: its error codes
  cf_request : List ℕ → String → Error
  -- no error value, but a panic: it unwinds past every test of an error, up to the end of the run
  panic : String → Error

abbrev pub nil_pointer : Error
nil_pointer = panic "invalid memory address or nil pointer dereference"

-- An index past the end of a slice.
abbrev pub index_out_of_range : Error
index_out_of_range = panic "index out of range"

abbrev pub slice_out_of_range : Error
slice_out_of_range = panic "slice bounds out of range"

-- err.Error(). A panic has no text, for nothing reads it: code that promises that its errors have a
-- text promises that it does not panic.
unfoldable pub error_text : Error → String
error_text (plain s) = s
error_text (api nf s) = s
error_text (sdk c s) = s
error_text (cf_not_found s) = s
error_text (cf_request cs s) = s
error_text (panic s) = ""

abbrev pub is_panic : Error → Bool
is_panic (panic s) = true
is_panic (plain s) = false
is_panic (api nf s) = false
is_panic (sdk c s) = false
is_panic (cf_not_found s) = false
is_panic (cf_request cs s) = false

pub speaks-is_panic : (e : Error) → error_text e ≢ "" → is_panic e ≡ false
unfolding error_text
speaks-is_panic (panic s) h = absurd (h refl)
speaks-is_panic (plain s) h = refl
speaks-is_panic (api nf s) h = refl
speaks-is_panic (sdk c s) h = refl
speaks-is_panic (cf_not_found s) h = refl
speaks-is_panic (cf_request cs s) h = refl

-- apierrors.IsNotFound
abbrev pub is_not_found : Error → Bool
is_not_found (api nf s) = nf
is_not_found (plain s) = false
is_not_found (sdk c s) = false
is_not_found (cf_not_found s) = false
is_not_found (cf_request cs s) = false
is_not_found (panic s) = false

-- A value or an error.
pub data Result {ℓ} (A : Type ℓ) : Type ℓ where
  ok : A → Result A
  err : Error → Result A

pub Result-cases {ℓ} :
    {A : Type ℓ} (r : Result A) → ((a : A) × (r ≡ ok a)) ⊎ ((e : Error) × (r ≡ err e))
Result-cases (ok a) = inl (a, refl)
Result-cases (err e) = inr (e, refl)

-- Code that may fail and that changes the world also where it fails.
abbrev pub Exec : Type 0 → Type 0 → Type 0
Exec W A = W → Result A × W

module _ {W A B : Type 0} where
  abbrev pub continue : Result A × W → (A → Exec W B) → Result B × W
  continue (ok a, w) f = f a w
  continue (err e, w) f = (err e, w)

  infixl 5 ◌>>=◌
  -- `if err != nil { return err }` behind every call
  abbrev pub ◌>>=◌ : Exec W A → (A → Exec W B) → Exec W B
  ◌>>=◌ m f w = continue (m w) f

  -- A chain that succeeds: its first call did, and so did the rest from where that ended.
  pub continue-eq-ok :
      (m : Result A × W) (f : A → Exec W B) {b : B} {w' : W}
      → continue m f ≡ (ok b, w')
      → (a : A) × (w : W) × (m ≡ (ok a, w)) × (f a w ≡ (ok b, w'))
  continue-eq-ok (ok a, w) f h = (a, w, refl, h)
  continue-eq-ok (err e, w) f h = cc

module _ {W B : Type 0} where
  infixl 5 ◌>>◌
  abbrev pub ◌>>◌ : Exec W (Unit {0}) → Exec W B → Exec W B
  ◌>>◌ m n w = continue (m w) (λ _. n)

module _ {W A : Type 0} where
  abbrev pub pure : A → Exec W A
  pure a w = (ok a, w)

  abbrev pub raise : Error → Exec W A
  raise e w = (err e, w)

  -- A call whose error the caller looks at.
  abbrev pub attempt : Exec W A → Exec W (Result A)
  attempt m w = let (r, w') = m w in (ok r, w')
