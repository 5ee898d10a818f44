-- ===== src/Records/Released.antt =====
-- Why the status of a provider leaves a record.
use kube_dns_manager.Prelude.{
  ◌≡◌, ◌⊎◌, true, false, none, some, ◌==◌, arith, eq_iff, Bool-cases, Option-cases, inl, inr,
}
use kube_dns_manager.Effects.{Error, is_not_found, Result-cases, ok, err}
use kube_dns_manager.Api.Record.{Record, RecordProviderStatus}
use kube_dns_manager.Api.Provider.{Provider}
use kube_dns_manager.Dns.{Cache, DnsProvider, new_payload, ready_provider}
use kube_dns_manager.Records.Client.{RecordCluster}
use kube_dns_manager.Records.{get_provider, release_from, release}

module _ {W : Type 0} (cluster : RecordCluster W) (cache : Cache W) (r : Record) where
  -- The provider of the status does not exist.
  abbrev pub Vanished : RecordProviderStatus → W → Type 0
  Vanished s w =
      (e : Error) × ((get_provider cluster s.named w).0 ≡ err e) × (is_not_found e ≡ true)

  -- The provider exists and is ready, and it deleted the record.
  abbrev pub Deleted : RecordProviderStatus → W → Type 0
  Deleted s w =
      (p : Provider) × (dns : DnsProvider W) × ((get_provider cluster s.named w).0 ≡ ok p)
      × (ready_provider cache p ≡ some dns)
      × ((dns.delete (new_payload s r.spec) (get_provider cluster s.named w).1).0.failure ≡ none)

  release_from_drops :
      (p : Provider) (s : RecordProviderStatus) (w : W)
      → (release_from cluster cache r p s w).0 ≡ none
      → (dns : DnsProvider W) × (ready_provider cache p ≡ some dns)
        × ((dns.delete (new_payload s r.spec) w).0.failure ≡ none)
  unfolding release_from
  release_from_drops p s w h = elim (Option-cases (ready_provider cache p)) [
    | inl unready ↦ absurd (ground (arith, unready, h))
    | inr (dns, ready) ↦ elim (Option-cases (dns.delete (new_payload s r.spec) w).0.failure) [
      | inl fine ↦ (dns, ready, fine)
      | inr (e, failed) ↦ absurd (ground (arith, ready, failed, h))
    ]
  ]

  -- The status of a provider leaves the record only if the run did not serve that provider and either
  -- the status has no ID, or the provider does not exist, or the provider, ready, deleted the record
  -- without an error.
  pub release_drops :
      (s : RecordProviderStatus) (w : W)
      → (release cluster cache r s w).0 ≡ none
      → (s.checked ≡ false) × ((s.record_id ≡ "") ⊎ (Vanished s w ⊎ Deleted s w))
  unfolding release
  release_drops s w h = elim (Bool-cases s.checked) [
    | inl seen ↦ absurd (ground (arith, seen, h))
    | inr unseen ↦ (
      unseen,
      elim (Result-cases (get_provider cluster s.named w).0) [
        | inr (e, missing) ↦ elim (Bool-cases (is_not_found e)) [
          | inl gone ↦ inr (inl (e, missing, gone))
          | inr other ↦ absurd (ground (arith, unseen, missing, other, h))
        ]
        | inl (p, found) ↦ elim (Bool-cases (s.record_id == "")) [
          | inl empty ↦ inl ((eq_iff s.record_id "").0 empty)
          | inr held ↦
              let w1 = (get_provider cluster s.named w).1 in
              let dropped : (release_from cluster cache r p s w1).0 ≡ none =
                ground (arith, unseen, found, held, h) in
              let (dns, ready, fine) = release_from_drops p s w1 dropped in
              inr (inr (p, dns, found, ready, fine))
        ]
      ],
    )
  ]
