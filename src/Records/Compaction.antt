-- ===== src/Records/Compaction.antt =====
-- The nil entries and their count: the list that is left holds no nil pointer.
use kube_dns_manager.Prelude.{
  ℕ, ◌+◌, ◌-◌, ◌≤◌, ◌≡◌, refl, Option, none, some, List, [], ◌∷◌, arith, length, keep, is_some,
  Bool-cases, Option-cases, inl, inr, nat_eq,
}
use kube_dns_manager.Api.Record.{Record, RecordProviderStatus}
use kube_dns_manager.Dns.{Cache}
use kube_dns_manager.Records.Client.{RecordCluster}
use kube_dns_manager.Records.Statuses.{compact, dereference}
use kube_dns_manager.Records.{unless_panic, release, release_all, release_panics, report, finish}

-- The statuses that are left, in their order.
abbrev pub present : List (Option RecordProviderStatus) → List RecordProviderStatus
present [] = []
present (none ∷ slots) = present slots
present (some s ∷ slots) = s ∷ present slots

dereference-keep :
    (slots : List (Option RecordProviderStatus))
    → dereference (keep is_some slots) ≡ some (present slots)
unfolding dereference
dereference-keep [] = refl
dereference-keep (none ∷ slots) = dereference-keep slots
dereference-keep (some s ∷ slots) = ground (arith, dereference-keep slots)

length-keep-le :
    (slots : List (Option RecordProviderStatus)) → length (keep is_some slots) ≤ length slots
length-keep-le [] = omega arith
length-keep-le (none ∷ slots) = omega (arith, length-keep-le slots)
length-keep-le (some s ∷ slots) = omega (arith, length-keep-le slots)

-- Where the count is the length, nothing is nil.
dereference_full :
    (slots : List (Option RecordProviderStatus))
    → length (keep is_some slots) ≡ length slots
    → dereference slots ≡ some (present slots)
unfolding dereference
dereference_full [] h = refl
dereference_full (none ∷ slots) h = absurd (omega (arith, length-keep-le slots))
dereference_full (some s ∷ slots) h = ground (arith, dereference_full slots)

dereference-compact :
    (slots : List (Option RecordProviderStatus)) (count : ℕ)
    → count ≡ length (keep is_some slots)
    → dereference (compact count slots) ≡ some (present slots)
unfolding compact
dereference-compact slots count h = elim (Bool-cases (nat_eq count (length slots))) [
  | inl same ↦ rw same (dereference_full slots (ground arith))
  | inr other ↦ rw other (dereference-keep slots)
]

module _ {W : Type 0} (cluster : RecordCluster W) (cache : Cache W) (r : Record) where
  -- The count that the loop keeps is the number of entries that it left.
  release_all-count :
      (ss : List RecordProviderStatus) (count : ℕ) (w : W)
      → length ss ≤ count
      → (release_all cluster cache r ss count w).0.1 + length ss
        ≡ count + length (keep is_some (release_all cluster cache r ss count w).0.0)
  unfolding release_all
  release_all-count [] count w h = omega arith
  release_all-count (s ∷ ss) count w h =
      let w1 = (release cluster cache r s w).1 in
      elim (Option-cases (release cluster cache r s w).0) [
        | inl gone ↦ rw gone (ground (arith, release_all-count ss (count - 1) w1))
        | inr (slot, left) ↦ rw left (ground (arith, release_all-count ss count w1))
      ]

  -- The loop over the statuses, the count and the removal of the nil entries together keep just the
  -- statuses that were not released, and no nil pointer is dereferenced; the run goes on with these,
  -- unless a provider panics in the loop, which ends the run where its call left the world.
  pub finish_lem :
      (ss : List RecordProviderStatus) (w : W)
      → finish cluster cache r ss w
        ≡ unless_panic cluster (release_panics cluster cache r ss w) (
            report cluster r
              (present (release_all cluster cache r ss (length ss) w).0.0)
              (release_all cluster cache r ss (length ss) w).1)
  unfolding finish
  finish_lem ss w =
      let ((slots, count), w') = release_all cluster cache r ss (length ss) w in
      let kept =
        dereference-compact slots count (omega (arith, release_all-count ss (length ss) w)) in
      elim (Option-cases (release_panics cluster cache r ss w)) [
        | inl calm ↦ ground (arith, calm, kept)
        | inr ((e, stopped), panicked) ↦ ground (arith, panicked)
      ]

  pub finish_calm :
      (ss : List RecordProviderStatus) (w : W)
      → release_panics cluster cache r ss w ≡ none
      → finish cluster cache r ss w
        ≡ report cluster r
            (present (release_all cluster cache r ss (length ss) w).0.0)
            (release_all cluster cache r ss (length ss) w).1
  finish_calm ss w calm = rw (finish_lem ss w, calm) refl
