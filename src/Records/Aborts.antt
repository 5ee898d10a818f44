-- ===== src/Records/Aborts.antt =====
-- An invalid label selector and a panic end the run in the middle of the loop over the providers.
use kube_dns_manager.Prelude.{◌≡◌, ap, ◌∙◌, true, false, some, List, [], ◌∷◌, ◌++◌, arith}
use kube_dns_manager.Effects.{Error, ok, err, continue, continue-eq-ok}
use kube_dns_manager.Api.Record.{Record, RecordProviderStatus}
use kube_dns_manager.Api.Provider.{Provider, selector_matches}
use kube_dns_manager.Finalizers.{add_finalizer}
use kube_dns_manager.Dns.{Cache}
use kube_dns_manager.Records.Client.{RecordCluster}
use kube_dns_manager.Records.{serve_panic, visit, visit_all, reconcile_record}

module _ {W : Type 0} (cluster : RecordCluster W) (cache : Cache W) (r : Record) where
  -- A round that fails ends the loop.
  visit_all_aborts :
      (ps : List Provider) (p : Provider) (qs : List Provider) (ss : List RecordProviderStatus)
      {ss1 : List RecordProviderStatus} (w : W) {w1 w2 : W} {e : Error}
      → visit_all cluster cache r ps ss w ≡ (ok ss1, w1)
      → visit cluster cache r p ss1 w1 ≡ (err e, w2)
      → visit_all cluster cache r (ps ++ p ∷ qs) ss w ≡ (err e, w2)
  unfolding visit_all
  visit_all_aborts [] p qs ss {ss1} w {w1} {w2} {e} done h =
      let failed : visit cluster cache r p ss w ≡ (err e, w2) = ground (arith, h, done) in
      ap (λ m. continue m (visit_all cluster cache r qs)) failed
  visit_all_aborts (q ∷ ps) p qs ss w done h =
      let (ss2, w2, visited, rest) =
        continue-eq-ok (visit cluster cache r q ss w) (visit_all cluster cache r ps) done in
      ap (λ m. continue m (visit_all cluster cache r (ps ++ p ∷ qs))) visited
      ∙ visit_all_aborts ps p qs ss2 w2 rest h

  run_aborts :
      (namespaced cluster_wide before : List Provider) (p : Provider) (rest : List Provider)
      (ss1 : List RecordProviderStatus) (w w1 w2 w3 w4 : W) (e : Error)
      → (add_finalizer r.meta).1 ≡ false
      → cluster.list_providers r.meta.namespace w ≡ (ok namespaced, w1)
      → cluster.list_cluster_providers w1 ≡ (ok cluster_wide, w2)
      → namespaced ++ cluster_wide ≡ before ++ p ∷ rest
      → visit_all cluster cache r before r.status.providers w2 ≡ (ok ss1, w3)
      → visit cluster cache r p ss1 w3 ≡ (err e, w4)
      → reconcile_record cluster cache r w ≡ (err e, w4)
  unfolding reconcile_record
  run_aborts namespaced cluster_wide before p rest ss1 w w1 w2 w3 w4 e unchanged got1 got2 split
        done h =
      let stops = visit_all_aborts before p rest r.status.providers w2 done h in
      ground (
        arith,
        unchanged,
        got1,
        got2,
        ap (λ l. visit_all cluster cache r l r.status.providers w2) split,
        stops,
      )

  -- Where the record has its finalizer, the providers are listed and the label selector of one of
  -- them is invalid, the run ends with its error in the world that the providers before it left:
  -- what they created stays, and no status is written.
  pub reconcile_record_aborts :
      (namespaced cluster_wide before : List Provider) (p : Provider) (rest : List Provider)
      (ss1 : List RecordProviderStatus) (w w1 w2 w3 : W) (e : Error)
      → (add_finalizer r.meta).1 ≡ false
      → cluster.list_providers r.meta.namespace w ≡ (ok namespaced, w1)
      → cluster.list_cluster_providers w1 ≡ (ok cluster_wide, w2)
      → namespaced ++ cluster_wide ≡ before ++ p ∷ rest
      → visit_all cluster cache r before r.status.providers w2 ≡ (ok ss1, w3)
      → selector_matches p.spec.selector r ≡ err e
      → reconcile_record cluster cache r w ≡ (err e, w3)
  unfolding visit
  reconcile_record_aborts namespaced cluster_wide before p rest ss1 w w1 w2 w3 e unchanged got1 got2
        split done h =
      run_aborts namespaced cluster_wide before p rest ss1 w w1 w2 w3 w3 e unchanged got1 got2 split
        done (ground (arith, h))

  -- Where the record has its finalizer, the providers are listed and the call of one that matches
  -- panics, the panic ends the run in the world that the call left: what the providers before it
  -- created stays, the providers after it are not asked, and no status is written.
  pub reconcile_record_panics :
      (namespaced cluster_wide before : List Provider) (p : Provider) (rest : List Provider)
      (ss1 : List RecordProviderStatus) (w w1 w2 w3 w4 : W) (e : Error)
      → (add_finalizer r.meta).1 ≡ false
      → cluster.list_providers r.meta.namespace w ≡ (ok namespaced, w1)
      → cluster.list_cluster_providers w1 ≡ (ok cluster_wide, w2)
      → namespaced ++ cluster_wide ≡ before ++ p ∷ rest
      → visit_all cluster cache r before r.status.providers w2 ≡ (ok ss1, w3)
      → selector_matches p.spec.selector r ≡ ok true
      → serve_panic cluster cache r p ss1 w3 ≡ some (e, w4)
      → reconcile_record cluster cache r w ≡ (err e, w4)
  unfolding visit
  reconcile_record_panics namespaced cluster_wide before p rest ss1 w w1 w2 w3 w4 e unchanged got1
        got2 split done matched panicked =
      run_aborts namespaced cluster_wide before p rest ss1 w w1 w2 w3 w4 e unchanged got1 got2 split
        done (ground (arith, matched, panicked))
