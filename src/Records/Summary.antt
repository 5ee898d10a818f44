-- ===== src/Records/Summary.antt =====
-- The summary of the statuses: AllReady, and the message.
use Prim.Native.String.{◌++◌ as append}
use text.Mathlib.TextLemmas as TextLemmas
use kube_dns_manager.Prelude.{
  String, ◌≡◌, refl, sym, ap, ◌∙◌, Bool, true, false, not, List, [], ◌∷◌, arith, ◌==◌, map, keep,
  trim_suffix, trim_suffix-append,
}
use kube_dns_manager.Api.Record.{RecordStatus, RecordProviderStatus}
use kube_dns_manager.Records.Statuses.{messages, all_ready, summarise}

-- The texts with a line end between each two.
abbrev pub lines : List String → String
lines [] = ""
lines (s ∷ []) = s
lines (s ∷ t ∷ ts) = append s (append "\n" (lines (t ∷ ts)))

abbrev pub texts : List RecordProviderStatus → List String
texts ss = keep (λ m. not (m == "")) (map (λ s. s.message) ss)

closed : List String → String
closed [] = ""
closed (t ∷ ts) = append t (append "\n" (closed ts))

messages-eq-closed : (ss : List RecordProviderStatus) → messages ss ≡ closed (texts ss)
unfolding messages closed
messages-eq-closed [] = refl
messages-eq-closed (s ∷ ss) = ground (arith, messages-eq-closed ss)

closed-cons : (t : String) (ts : List String) → closed (t ∷ ts) ≡ append (lines (t ∷ ts)) "\n"
unfolding closed
closed-cons t [] = refl
closed-cons t (u ∷ us) = rw (closed-cons u us) (
    ap (append t) (sym (TextLemmas.append_assoc "\n" (lines (u ∷ us)) "\n"))
    ∙ sym (TextLemmas.append_assoc t (append "\n" (lines (u ∷ us))) "\n"))

trim_suffix-closed : (ts : List String) → trim_suffix (closed ts) "\n" ≡ lines ts
trim_suffix-closed [] = unfold closed trim_suffix in refl
trim_suffix-closed (t ∷ ts) = rw closed-cons (trim_suffix-append (lines (t ∷ ts)) "\n")

abbrev pub is_nil : List String → Bool
is_nil [] = true
is_nil (t ∷ ts) = false

all_ready-is_nil : (ss : List RecordProviderStatus) → all_ready ss ≡ is_nil (texts ss)
all_ready-is_nil [] = refl
all_ready-is_nil (s ∷ ss) = ground (arith, all_ready-is_nil ss)

-- The record's message is the messages of its statuses, without the empty ones, with a line end
-- between each two; and the record is ready exactly when that leaves nothing.
pub summarise_lem :
    (status : RecordStatus) (ss : List RecordProviderStatus)
    → ((summarise status ss).message ≡ lines (texts ss))
      × ((summarise status ss).all_ready ≡ is_nil (texts ss))
unfolding summarise
summarise_lem status ss =
    (rw messages-eq-closed (trim_suffix-closed (texts ss)), all_ready-is_nil ss)
