-- ===== src/Dns/Adguard/Laws.antt =====
-- What the AdGuard provider sends for a record.
use kube_dns_manager.Prelude.{String, ◌≡◌, ◌≢◌, false, none, some, arith, eq_iff, eq_refl}
use kube_dns_manager.Effects.{Error, ok, err}
use kube_dns_manager.Dns.{Payload, ClearsId}
use kube_dns_manager.Dns.Adguard.{
  AdguardRecord, Json, Server, wanted, same_record, replace, create, update, delete, delete_record,
  provider,
}

-- What is encoded is decoded again, and no encoding is empty.
pub record IsCodec (json : Json) : Type 0 where
  pub decodes : (r : AdguardRecord) (s : String) → json.marshal r ≡ ok s → json.unmarshal s ≡ ok r
  pub nonempty : (r : AdguardRecord) (s : String) → json.marshal r ≡ ok s → s ≢ ""

module _ {W : Type 0} (json : Json) (server : Server W) where
  created_id :
      (payload : Payload) (w : W)
      → (create json server payload w).0.failure ≡ none
      → (json.marshal (wanted json server payload) ≡ ok (create json server payload w).0.payload.id)
        × ((create json server payload w).0.payload.spec ≡ payload.spec)
  unfolding create
  created_id payload w h = ground arith

  -- After a Create that succeeded, an Update with the same spec sends nothing and succeeds, if
  -- JSON decodes what it encoded.
  pub update_after_create :
      IsCodec json
      → (payload : Payload) (w w' : W) → (create json server payload w).0.failure ≡ none
      → update json server (create json server payload w).0.payload w'
        ≡ (record { failure = none; payload = (create json server payload w).0.payload }, w')
  unfolding update replace
  update_after_create codec payload w w' h =
      let made = (create json server payload w).0.payload in
      let (encoded, same) = created_id payload w h in
      let decoded = codec.decodes (wanted json server payload) made.id encoded in
      ground (
        arith,
        codec.nonempty (wanted json server payload) made.id encoded,
        eq_iff made.id "",
        decoded,
        same,
        eq_refl payload.spec.name,
        eq_refl payload.spec.value,
      )

  pub provider-ClearsId : ClearsId (provider json server)
  unfolding delete
  provider-ClearsId = record { cleared = λ payload w h. ground arith }

  -- Delete does not read the ID: payloads of one spec get one answer to the request, whatever record
  -- their IDs stand for.
  pub delete_ignores_id :
      (payload : Payload) (id : String) (w : W)
      → ((delete json server (record payload { id = id }) w).1 ≡ (delete json server payload w).1)
        × ((delete json server (record payload { id = id }) w).0.failure
            ≡ (delete json server payload w).0.failure)
  unfolding delete
  delete_ignores_id payload id w = ground arith

  -- Update sends the deletion of the record that stands in the ID.
  pub update_deletes_old :
      (payload : Payload) (old : AdguardRecord) (w : W) (e : Error)
      → payload.id ≢ ""
      → json.unmarshal payload.id ≡ ok old
      → same_record json server old payload ≡ false
      → (delete_record json server old w).0 ≡ err e
      → update json server payload w
        ≡ (record { failure = some e; payload = payload }, (delete_record json server old w).1)
  unfolding update replace
  update_deletes_old payload old w e held read differs failed =
      ground (arith, eq_iff payload.id "", read, differs, failed, held)
