-- ===== src/Records/Farewell.antt =====
-- The whole run of a deleted record that lets go of it.
use kube_dns_manager.Prelude.{
  String, ◌≡◌, ◌⊎◌, sym, ap, ◌∙◌, true, false, none, List, [], ◌∷◌, arith, ◌==◌, eq_iff, any, All,
  length, Bool-cases, inl, inr, false≢true,
}
use kube_dns_manager.Effects.{ok}
use kube_dns_manager.Api.Meta.{NamespacedName, is_deleted}
use kube_dns_manager.Api.Record.{Record, RecordProviderStatus}
use kube_dns_manager.Api.Provider.{Provider}
use kube_dns_manager.Dns.{Cache}
use kube_dns_manager.Dns.Contract.{Table}
use kube_dns_manager.Records.Client.{RecordCluster, done, after, time_wait_provider}
use kube_dns_manager.Records.Settled.{CachePromises, LookupsSpeak}
use kube_dns_manager.Records.Deletion.{Echoes, held, left, after_loop, finish_waits}
use kube_dns_manager.Records.Emptied.{Around, has}
use kube_dns_manager.Records.Orphans.{visit_all-Kept}
use kube_dns_manager.Records.{visit_all, finish}
use kube_dns_manager.Records.Leftovers.{NoProvider, release_all-Kept}

has-held :
    (name : NamespacedName) (id : String) (ss : List RecordProviderStatus)
    → (id == "") ≡ false
    → any (has name id) ss ≡ true
    → held ss ≡ true
has-held name id [] named h = cc
has-held name id (s ∷ ss) named h =
    ground (arith, eq_iff s.record_id id, named, has-held name id ss named)

module _ {W : Type 0} (cluster : RecordCluster W) (cache : Cache W) (r : Record)
    (promises : CachePromises cache) (speak : LookupsSpeak cluster) (echoes : Echoes cluster)
    (deleted : is_deleted r.meta ≡ true) (ps : List Provider) (ss ss' : List RecordProviderStatus)
    (w w' : W) (unchecked : All (λ s. s.checked ≡ false) ss)
    (visited : visit_all cluster cache r ps ss w ≡ (ok ss', w')) where
  -- A run that does not ask to be repeated leaves no status with an ID.
  done-not-held :
      (finish cluster cache r ss' w').0 ≡ ok done → held (left cluster cache r ss' w') ≡ false
  done-not-held h = elim (Bool-cases (held (left cluster cache r ss' w'))) [
    | inr nothing ↦ nothing
    | inl something ↦
        let waits =
          ap (λ x. x.0)
            (finish_waits cluster cache r promises speak echoes deleted ps ss ss' w w' unchecked
              visited something) in
        let both : ok (after time_wait_provider) ≡ ok done = sym waits ∙ h in
        absurd (ground (arith, both))
  ]

-- A record that is being deleted leaves nothing at a provider: where its run ends without asking
-- for another, the place of the ID that a status had for the provider is empty in the table of the
-- provider's service when the loops are over, unless the run asked for the provider of a status
-- with that ID and the cluster answered that there is none. It is for a run that starts from
-- statuses not checked yet; over providers and a client that keep their promises, and a server
-- that returns the status that it was sent; with a provider whose Delete, where it succeeds,
-- empties the place and, where it fails, keeps the ID; and with nothing else that puts an entry
-- into the table meanwhile.
pub deletion_leaves_nothing :
    {W E : Type 0} (cluster : RecordCluster W) (cache : Cache W) (r : Record)
    (name : NamespacedName) (table : W → Table E) (id : String)
    → Around cluster cache name table
    → CachePromises cache
    → LookupsSpeak cluster
    → Echoes cluster
    → is_deleted r.meta ≡ true
    → (id == "") ≡ false
    → (ps : List Provider) (ss ss' : List RecordProviderStatus) (w w' : W)
    → All (λ s. s.checked ≡ false) ss
    → visit_all cluster cache r ps ss w ≡ (ok ss', w')
    → any (has name id) ss ≡ true
    → (finish cluster cache r ss' w').0 ≡ ok done
    → (table (after_loop cluster cache r ss' w') id ≡ none)
      ⊎ NoProvider cluster cache r name id ss' w'
deletion_leaves_nothing cluster cache r name table id around promises speak echoes deleted named ps
      ss ss' w w' unchecked visited there h =
    let looped =
      visit_all-Kept cluster cache r name table around id named deleted ps ss w (inr there)
        visited in
    let free =
      done-not-held cluster cache r promises speak echoes deleted ps ss ss' w w' unchecked visited
        h in
    elim (release_all-Kept cluster cache r name table around id named ss' (length ss') w' looped) [
      | inr missing ↦ inr missing
      | inl (inl gone) ↦ inl gone
      | inl (inr stays) ↦
          absurd
            (false≢true (sym free ∙ has-held name id (left cluster cache r ss' w') named stays))
    ]
