-- ===== src/Records/Mirrored.antt =====
-- The table of a provider over the runs of the records of a cluster.
use kube_dns_manager.Prelude.{
  String, ◌≡◌, ◌≢◌, ◌⊎◌, refl, sym, ap, ◌∙◌, subst, Bool, true, false, none, some, arith, ◌==◌,
  eq_iff, eq_refl, Bool-cases, inl, inr, false≢true,
}
use kube_dns_manager.Api.Record.{Record, RecordSpec, RecordProviderStatus}
use kube_dns_manager.Dns.{DnsProvider, new_payload}
use kube_dns_manager.Dns.Contract.{Table, replace, Contract, NewIds}
use kube_dns_manager.Dns.Cloudflare.{CloudflareApi, provider}
use kube_dns_manager.Dns.Cloudflare.Zone.{Entry, entry as entry_of, ZoneLaws}
use kube_dns_manager.Dns.Cloudflare.Keeps.{cloudflare-Contract}
use kube_dns_manager.Dns.Cloudflare.NewIds.{UnusedIds, cloudflare-NewIds}
use kube_dns_manager.Records.Client.{RecordCluster}
use kube_dns_manager.Records.{conclude, sync}
use kube_dns_manager.Records.Refines.{QuietEvents, conclude_quietly, sync-Ran}
use kube_dns_manager.Records.Mirror.{Mirror, removed-Mirror, placed-Mirror}
use kube_dns_manager.Records.Zones.{System, set_at, ran, Reached, started, run, idle}

set_at_here : {A : Type 0} (name : String) (a : A) (f : String → A) → set_at name a f name ≡ a
set_at_here name a f = rw (eq_refl name) refl

pub set_at_there :
    {A : Type 0} (name n : String) (a : A) (f : String → A)
    → (n == name) ≡ false
    → set_at name a f n ≡ f n
set_at_there name n a f other = rw other refl

module _ {W E : Type 0} (cluster : RecordCluster W) (dns : DnsProvider W) (table : W → Table E)
    (entry : RecordSpec → E) (quiet : QuietEvents cluster table)
    (contract : Contract dns table entry) (new : NewIds dns table) where
  -- A run that is no deletion ends with the old ID, or with one that stood for nothing.
  sync-new :
      (r : Record) (s : RecordProviderStatus) (w : W)
      → (sync cluster dns r false s w).0.message ≡ ""
      → ((sync cluster dns r false s w).0.record_id ≡ s.record_id)
        ⊎ (table w (sync cluster dns r false s w).0.record_id ≡ none)
  unfolding sync
  sync-new r s w h =
      let payload = new_payload s r.spec in
      elim (Bool-cases (s.record_id == "")) [
        | inl empty ↦
            let (answer, w') = dns.create payload w in
            let same : sync cluster dns r false s w
                ≡ conclude cluster r.meta "Created" "created" "create" answer s w' =
              ground (arith, empty) in
            let (fine, kept, _) =
              conclude_quietly cluster table quiet r.meta "Created" "created" "create" answer s w'
                (contract.create_speaks payload w) (subst (λ x. x.0.message ≡ "") same h) in
            inr (rw (same, kept) (new.created payload w fine))
        | inr held ↦
            let (answer, w') = dns.update payload w in
            let same : sync cluster dns r false s w
                ≡ conclude cluster r.meta "Updated" "updated" "update" answer s w' =
              ground (arith, held) in
            let (fine, kept, _) =
              conclude_quietly cluster table quiet r.meta "Updated" "updated" "update" answer s w'
                (contract.update_speaks payload w) (subst (λ x. x.0.message ≡ "") same h) in
            rw (same, kept) (new.updated payload w fine)
      ]

  -- The IDs and the entries of the records.
  abbrev ids : System W → String → String
  ids sys n = (sys.statuses n).record_id

  abbrev entries : System W → String → E
  entries sys n = entry (sys.specs n)

  run-Mirror :
      (sys : System W) (base : Table E) (name : String) (r : Record) (deleted : Bool)
      → Mirror (ids sys) (entries sys) (table sys.world) base
      → (sync cluster dns r deleted (sys.statuses name) sys.world).0.message ≡ ""
      → Mirror
          (ids (ran cluster dns sys name r deleted))
          (entries (ran cluster dns sys name r deleted))
          (table (ran cluster dns sys name r deleted).world)
          base
  run-Mirror sys base name r true mirror h =
      let s = sys.statuses name in
      let after = ran cluster dns sys name r true in
      let s' = (sync cluster dns r true s sys.world).0 in
      let (gone, now) = sync-Ran cluster table quiet dns entry contract r s sys.world true h in
      removed-Mirror (ids sys) (ids after) (entries sys) (entries after) (table sys.world)
        (table after.world) base name mirror
        (λ n other. ap (λ x. x.record_id) (set_at_there name n s' sys.statuses other))
        (λ n other. ap entry (set_at_there name n r.spec sys.specs other))
        (ap (λ x. x.record_id == "") (set_at_here name s' sys.statuses) ∙ gone) now
  run-Mirror sys base name r false mirror h =
      let s = sys.statuses name in
      let after = ran cluster dns sys name r false in
      let s' = (sync cluster dns r false s sys.world).0 in
      let (named, now) = sync-Ran cluster table quiet dns entry contract r s sys.world false h in
      let id_here = ap (λ x. x.record_id) (set_at_here name s' sys.statuses) in
      let entry_here = ap entry (set_at_here name r.spec sys.specs) in
      placed-Mirror (ids sys) (ids after) (entries sys) (entries after) (table sys.world)
        (table after.world) base name mirror
        (λ n other. ap (λ x. x.record_id) (set_at_there name n s' sys.statuses other))
        (λ n other. ap entry (set_at_there name n r.spec sys.specs other))
        (ap (λ x. x == "") id_here ∙ named)
        (subst (λ x. (x ≡ s.record_id) ⊎ (table sys.world x ≡ none)) (sym id_here)
          (sync-new r s sys.world h))
        (λ k.
          now k
          ∙ sym (
              ap (λ x. replace s.record_id x (entries after name) (table sys.world) k) id_here
              ∙ ap (λ e. replace s.record_id s'.record_id e (table sys.world) k) entry_here))

  -- What the runs keep of the table and the records.
  pub reached-Mirror :
      (base : Table E) (sys : System W)
      → Reached cluster dns table base sys
      → Mirror (ids sys) (entries sys) (table sys.world) base
  reached-Mirror base _ (started sys none_yet same) = record {
    unnamed = sym (same "") ∙ contract.nothing_unnamed sys.world;
    holds = λ n held. absurd (unheld sys none_yet n held);
    free = λ n held. absurd (unheld sys none_yet n held);
    apart = λ n m held e. absurd (unheld sys none_yet n held);
    rest = λ k away. same k;
  }
    where
      unheld :
          (sys : System W)
          → ((n : String) → (sys.statuses n).record_id ≡ "")
          → (n : String) → (ids sys n == "") ≢ false
      unheld sys none_yet n held = false≢true (sym held ∙ (eq_iff (ids sys n) "").1 (none_yet n))
  reached-Mirror base _ (run sys name r deleted before h) =
      run-Mirror sys base name r deleted (reached-Mirror base sys before) h
  reached-Mirror base _ (idle sys w before same) =
      let mirror = reached-Mirror base sys before in
      record {
        unnamed = mirror.unnamed;
        holds = λ n held. same (ids sys n) ∙ mirror.holds n held;
        free = mirror.free;
        apart = mirror.apart;
        rest = λ k away. same k ∙ mirror.rest k away;
      }

-- A Cloudflare zone, as a table of names, types and values by ID, mirrors the records: after any
-- runs of any records that end without a message, in any order, with changed specifications and
-- with deletions, over a zone that keeps its documented laws, without the adoption of existing
-- records and with nothing else at work in the zone, a record with an ID has under it the name,
-- the type and the value that it was last specified with; no other record has that ID; and under
-- an ID that no record has the zone has what it had at first.
pub zone_mirrors :
    {W : Type 0} (cf : CloudflareApi W) (zone_id : String) (table : W → Table Entry)
    (cluster : RecordCluster W) (base : Table Entry) (sys : System W)
    → ZoneLaws cf zone_id table
    → UnusedIds cf zone_id table
    → QuietEvents cluster table
    → Reached cluster (provider cf zone_id false) table base sys
    → (n m k : String) → ((sys.statuses n).record_id == "") ≡ false
    → (sys.statuses m).record_id ≡ (sys.statuses n).record_id
    → ((l : String) → ((sys.statuses l).record_id == k) ≡ false)
    → (table sys.world (sys.statuses n).record_id ≡ some (entry_of (sys.specs n)))
      × (m ≡ n)
      × (table sys.world k ≡ base k)
zone_mirrors cf zone_id table cluster base sys laws unused quiet reached n m k held same away =
    let mirror =
      reached-Mirror cluster (provider cf zone_id false) table entry_of quiet
        (cloudflare-Contract cf zone_id false table laws)
        (cloudflare-NewIds cf zone_id table laws unused) base sys reached in
    (mirror.holds n held, mirror.apart n m held same, mirror.rest k away)
