-- ===== src/Records/Refines.antt =====
-- What a run does at one provider, seen as the abstract table that the contract of a provider is about.
use Prim.Native.String.{◌++◌ as append}
use kube_dns_manager.Prelude.{
  String, ◌≡◌, ◌≢◌, sym, ap, ◌∙◌, subst, Bool, true, false, none, some, ◌==◌, eq_iff, arith,
  Bool-cases, Option-cases, inl, inr, if◌then◌else◌, false≢true,
}
use kube_dns_manager.Effects.{Error, error_text}
use kube_dns_manager.Api.Meta.{ObjectMeta, to_string}
use kube_dns_manager.Api.Record.{Record, RecordSpec, RecordProviderStatus, success, error}
use kube_dns_manager.Dns.{DnsProvider, Answer, new_payload}
use kube_dns_manager.Dns.Contract.{Table, put, replace, put_nothing, Contract}
use kube_dns_manager.Dns.Cloudflare.{CloudflareApi, provider}
use kube_dns_manager.Dns.Cloudflare.Zone.{Entry, entry, ZoneLaws}
use kube_dns_manager.Dns.Cloudflare.Keeps.{cloudflare-Contract}
use kube_dns_manager.Records.Client.{RecordCluster}
use kube_dns_manager.Records.{conclude, sync}

-- The abstract run: the entry under the old ID goes away, and stands under the new one unless the
-- object is deleted.
abbrev pub specified : {E : Type 0} → Bool → String → String → E → Table E → Table E
specified deleted old id entry table =
    if deleted then put old none table else replace old id entry table

-- An event leaves the tables of the DNS services alone.
abbrev pub QuietEvents : {W E : Type 0} → RecordCluster W → (W → Table E) → Type 0
QuietEvents {W} cluster table =
    (meta : ObjectMeta) (kind reason text : String) (w : W) (k : String)
    → table (cluster.event meta kind reason text w) k ≡ table w k

-- The run left what the abstract run leaves, and an ID unless the object is deleted.
abbrev pub Refined : {W E : Type 0} → (W → Table E) → E → Bool → String → String → W → W → Type 0
Refined table e deleted old id w w' =
    ((id == "") ≡ deleted) × ((k : String) → table w' k ≡ specified deleted old id e (table w) k)

pub unequal : (t : String) → (t == "") ≡ false → t ≢ ""
unequal t other same = false≢true (sym other ∙ (eq_iff t "").1 same)

module _ {W E : Type 0} (cluster : RecordCluster W) (table : W → Table E)
    (quiet : QuietEvents cluster table) where
  -- A status without a message is that of a call that succeeded.
  pub conclude_quietly :
      (meta : ObjectMeta) (reason past verb : String) (answer : Answer) (s : RecordProviderStatus)
      (w : W)
      → ((e : Error) → answer.failure ≡ some e → error_text e ≢ "")
      → (conclude cluster meta reason past verb answer s w).0.message ≡ ""
      → (answer.failure ≡ none)
        × ((conclude cluster meta reason past verb answer s w).0.record_id ≡ answer.payload.id)
        × ((k : String) → table (conclude cluster meta reason past verb answer s w).1 k ≡ table w k)
  unfolding conclude success error
  conclude_quietly meta reason past verb answer s w speaks h = elim (Option-cases answer.failure) [
    | inr (e, failed) ↦ absurd (speaks e failed (ground (arith, failed)))
    | inl fine ↦ (
      fine,
      ground (arith, fine),
      λ k. rw fine (
          quiet meta "Normal" reason
            (append "Record is " (append past (append " by provider " (to_string s.named)))) w k),
    )
  ]

  conclude-Refined :
      (meta : ObjectMeta) (reason past verb : String) (answer : Answer) (s : RecordProviderStatus)
      (w w' : W) (e : E) (deleted : Bool)
      → ((f : Error) → answer.failure ≡ some f → error_text f ≢ "")
      → (answer.failure ≡ none → Refined table e deleted s.record_id answer.payload.id w w')
      → (conclude cluster meta reason past verb answer s w').0.message ≡ ""
      → Refined table e deleted s.record_id
          (conclude cluster meta reason past verb answer s w').0.record_id
          w
          (conclude cluster meta reason past verb answer s w').1
  conclude-Refined meta reason past verb answer s w w' e deleted speaks call h =
      let (fine, kept, calm) = conclude_quietly meta reason past verb answer s w' speaks h in
      let called = call fine in rw kept (called.0, λ k. calm k ∙ called.1 k)

  module _ (dns : DnsProvider W) (entry : RecordSpec → E) (contract : Contract dns table entry)
      (r : Record) (s : RecordProviderStatus) (w : W) where
    -- What is to be shown of the result of a run.
    abbrev pub Ran : Bool → RecordProviderStatus × W → Type 0
    Ran deleted x =
        x.0.message ≡ "" → Refined table (entry r.spec) deleted s.record_id x.0.record_id w x.1

    delete-Ran : Ran true (sync cluster dns r true s w)
    unfolding sync success
    delete-Ran =
        let payload = new_payload s r.spec in
        let (answer, w') = dns.delete payload w in
        elim (Bool-cases (s.record_id == "")) [
          | inl empty ↦
              let same : sync cluster dns r true s w ≡ (success s s.record_id s.data_, w) =
                ground (arith, empty) in
              subst (Ran true) (sym same) (λ _. (empty, λ k. gone k empty))
          | inr held ↦
              let same : sync cluster dns r true s w
                  ≡ conclude cluster r.meta "Deleted" "deleted" "delete" answer s w' =
                ground (arith, held) in
              subst (Ran true) (sym same) (
                conclude-Refined r.meta "Deleted" "deleted" "delete" answer s w w' (entry r.spec)
                  true (contract.delete_speaks payload w)
                  (λ fine.
                    let done = contract.deletes payload w (unequal s.record_id held) fine in
                    (ap (λ id. id == "") done.0, done.1)))
        ]
      where
        gone :
            (k : String) → (s.record_id == "") ≡ true → table w k ≡ put s.record_id none (table w) k
        gone k empty =
            rw ((eq_iff s.record_id "").0 empty)
              (sym (put_nothing (table w) k (contract.nothing_unnamed w)))

    keep-Ran : Ran false (sync cluster dns r false s w)
    unfolding sync
    keep-Ran =
        let payload = new_payload s r.spec in
        elim (Bool-cases (s.record_id == "")) [
          | inl empty ↦
              let (answer, w') = dns.create payload w in
              let same : sync cluster dns r false s w
                  ≡ conclude cluster r.meta "Created" "created" "create" answer s w' =
                ground (arith, empty) in
              let id_empty = (eq_iff s.record_id "").0 empty in
              subst (Ran false) (sym same) (
                conclude-Refined r.meta "Created" "created" "create" answer s w w' (entry r.spec)
                  false (contract.create_speaks payload w)
                  (λ fine.
                    subst (λ old. Refined table (entry r.spec) false old answer.payload.id w w')
                      (sym id_empty) (contract.creates payload w id_empty fine)))
          | inr held ↦
              let (answer, w') = dns.update payload w in
              let same : sync cluster dns r false s w
                  ≡ conclude cluster r.meta "Updated" "updated" "update" answer s w' =
                ground (arith, held) in
              subst (Ran false) (sym same) (
                conclude-Refined r.meta "Updated" "updated" "update" answer s w w' (entry r.spec)
                  false (contract.update_speaks payload w)
                  (contract.updates payload w (unequal s.record_id held)))
        ]

    pub sync-Ran : (deleted : Bool) → Ran deleted (sync cluster dns r deleted s w)
    sync-Ran true = delete-Ran
    sync-Ran false = keep-Ran

-- A run for a record at a Cloudflare zone, over the documented laws of the zone and with events that
-- leave it alone: where the status ends without a message, the zone as a table of names, types and
-- values by ID is what the abstract run leaves. The entry under the old ID is gone; it stands under
-- the status' ID, which is then not empty, with the values of the present specification, unless the
-- object is deleted, and then the ID is empty; every other ID has what it had. A record that was
-- created, adopted, updated or created again falls under it alike.
pub sync_refines_zone :
    {W : Type 0} (cf : CloudflareApi W) (zone_id : String) (match_exists_record : Bool)
    (table : W → Table Entry) (cluster : RecordCluster W)
    → ZoneLaws cf zone_id table
    → QuietEvents cluster table
    → (r : Record) (deleted : Bool) (s : RecordProviderStatus) (w : W)
    → (sync cluster (provider cf zone_id match_exists_record) r deleted s w).0.message ≡ ""
    → Refined table
        (entry r.spec)
        deleted
        s.record_id
        (sync cluster (provider cf zone_id match_exists_record) r deleted s w).0.record_id
        w
        (sync cluster (provider cf zone_id match_exists_record) r deleted s w).1
sync_refines_zone cf zone_id match_exists_record table cluster laws quiet r deleted s w =
    sync-Ran cluster table quiet (provider cf zone_id match_exists_record) entry
      (cloudflare-Contract cf zone_id match_exists_record table laws) r s w deleted
