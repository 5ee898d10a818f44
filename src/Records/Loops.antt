-- ===== src/Records/Loops.antt =====
-- The rounds of the loop over the providers, and an induction rule for it.
use kube_dns_manager.Prelude.{
  ◌≡◌, true, false, ◌||◌, none, some, List, [], ◌∷◌, arith, inl, inr, ◌⊎◌, sym, subst,
}
use kube_dns_manager.Effects.{ok, continue-eq-ok}
use kube_dns_manager.Api.Meta.{is_deleted, key_of}
use kube_dns_manager.Api.Record.{Record, RecordProviderStatus}
use kube_dns_manager.Api.Provider.{Provider, selector_matches}
use kube_dns_manager.Dns.{Cache, DnsProvider, ready_provider}
use kube_dns_manager.Records.Client.{RecordCluster}
use kube_dns_manager.Records.Statuses.{not_ready, current, enlist, write}
use kube_dns_manager.Records.{sync, serve, visit, visit_all}

module _ {W : Type 0} (cluster : RecordCluster W) (cache : Cache W) (r : Record) where
  module _ (p : Provider) (ss : List RecordProviderStatus) (w : W) where
    abbrev pub looked_at : RecordProviderStatus
    looked_at = record (current (key_of p.meta) ss) { checked = true }

    pub serve-ready :
        {dns : DnsProvider W}
        → ready_provider cache p ≡ some dns
        → serve cluster cache r p ss w ≡ (
          write
              (key_of p.meta)
              (sync cluster dns r (is_deleted r.meta || is_deleted p.meta) looked_at w).0
              (enlist (key_of p.meta) ss),
          (sync cluster dns r (is_deleted r.meta || is_deleted p.meta) looked_at w).1,
        )
    unfolding serve
    serve-ready e = rw (e, serve)

    pub serve-unready :
        ready_provider cache p ≡ none
        → serve cluster cache r p ss w
          ≡ (write (key_of p.meta) (not_ready looked_at) (enlist (key_of p.meta) ss), w)
    unfolding serve
    serve-unready e = rw (e, serve)

    pub visit_cases :
        {ss' : List RecordProviderStatus} {w' : W}
        → visit cluster cache r p ss w ≡ (ok ss', w')
        → ((selector_matches p.spec.selector r ≡ ok false) × (ss' ≡ ss) × (w' ≡ w))
          ⊎ ((selector_matches p.spec.selector r ≡ ok true)
              × (ss' ≡ (serve cluster cache r p ss w).0)
              × (w' ≡ (serve cluster cache r p ss w).1))
    unfolding visit
    visit_cases e = ground arith

  -- What every served provider keeps, the whole loop keeps.
  module _ (P : List RecordProviderStatus → Type 0)
      (keeps : (p : Provider) (ss : List RecordProviderStatus) (w : W)
        → P ss
        → P (serve cluster cache r p ss w).0) where
    pub visit_all_induction :
        (ps : List Provider) (ss : List RecordProviderStatus) (w : W)
        {ss' : List RecordProviderStatus} {w' : W}
        → P ss
        → visit_all cluster cache r ps ss w ≡ (ok ss', w')
        → P ss'
    unfolding visit_all
    visit_all_induction [] ss w {ss'} h e = subst P (ground (arith, e)) h
    visit_all_induction (p ∷ ps) ss w h e =
        let (ss1, w1, visited, rest) =
          continue-eq-ok (visit cluster cache r p ss w) (visit_all cluster cache r ps) e in
        elim (visit_cases p ss w visited) [
          | inl (_, same, _) ↦ visit_all_induction ps ss1 w1 (subst P (sym same) h) rest
          | inr (_, served, _) ↦
              visit_all_induction ps ss1 w1 (subst P (sym served) (keeps p ss w h)) rest
        ]
