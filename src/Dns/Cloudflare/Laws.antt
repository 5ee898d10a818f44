-- ===== src/Dns/Cloudflare/Laws.antt =====
-- What Create, Update and Delete of the Cloudflare provider leave behind.
use kube_dns_manager.Prelude.{
  String, ◌≡◌, ◌⊎◌, inl, inr, Bool-cases, Bool, true, false, none, some, List, arith,
}
use kube_dns_manager.Effects.{Error, Result-cases, ok, err}
use kube_dns_manager.Dns.{Payload, ClearsId}
use kube_dns_manager.Dns.Cloudflare.{
  CloudflareApi, is_record_not_found_error, is_record_duplicate_error, create_params, update_params,
  find, adopt, create, update, delete, provider,
}

module _ {W : Type 0} (cf : CloudflareApi W) (zone_id : String) (match_exists_record : Bool) where
  -- Cloudflare deleted the record, or does not know it.
  abbrev pub Gone : Payload → W → Type 0
  Gone payload w =
      ((cf.delete zone_id payload.id w).0 ≡ ok tt)
      ⊎ ((e : Error) × ((cf.delete zone_id payload.id w).0 ≡ err e)
          × (is_record_not_found_error e ≡ true))

  -- Cloudflare failed in another way.
  abbrev pub Failed : Payload → W → Error → Type 0
  Failed payload w e =
      ((cf.delete zone_id payload.id w).0 ≡ err e) × (is_record_not_found_error e ≡ false)

  -- Either the record is gone at Cloudflare, deleted now or unknown there, and Delete succeeds and
  -- clears the ID; or Delete fails with Cloudflare's error and leaves the payload as it was.
  pub delete_lem :
      (payload : Payload) (w : W)
      → (Gone payload w
          × ((delete cf zone_id match_exists_record payload w).0.failure ≡ none)
          × ((delete cf zone_id match_exists_record payload w).0.payload.id ≡ ""))
        ⊎ ((e : Error) × Failed payload w e
            × ((delete cf zone_id match_exists_record payload w).0.failure ≡ some e)
            × ((delete cf zone_id match_exists_record payload w).0.payload ≡ payload))
  unfolding delete
  delete_lem payload w = elim (Result-cases (cf.delete zone_id payload.id w).0) [
    | inl (tt, done) ↦ inl (inl done, ground (arith, done), ground (arith, done))
    | inr (e, failed) ↦ elim (Bool-cases (is_record_not_found_error e)) [
      | inl unknown ↦ inl (
        inr (e, failed, unknown),
        ground (arith, failed, unknown),
        ground (arith, failed, unknown),
      )
      | inr other ↦
          inr (e, (failed, other), ground (arith, failed, other), ground (arith, failed, other))
    ]
  ]

  pub provider-ClearsId : ClearsId (provider cf zone_id match_exists_record)
  unfolding delete
  provider-ClearsId = record { cleared = λ payload w h. ground arith }

  -- Where Cloudflare does not know the ID, Update does what Create does from there.
  pub update_recreates :
      (payload : Payload) (w w1 : W) (e : Error)
      → cf.update zone_id payload.id (update_params payload.spec) w ≡ (err e, w1)
      → is_record_not_found_error e ≡ true
      → update cf zone_id match_exists_record payload w
        ≡ create cf zone_id match_exists_record payload w1
  unfolding update
  update_recreates payload w w1 e failed unknown = ground (arith, failed, unknown)

-- Where an existing record is to be adopted and Cloudflare calls the record a duplicate, but lists
-- none of its name, type and content, Create succeeds with the empty ID.
pub create_loses_duplicate :
    {W : Type 0} (cf : CloudflareApi W) (zone_id : String) (payload : Payload) (w w1 w2 : W)
    (e : Error) (ids : List String)
    → cf.create zone_id (create_params payload.spec) w ≡ (err e, w1)
    → is_record_duplicate_error e ≡ true
    → cf.list zone_id payload.spec.name payload.spec.type payload.spec.value w1 ≡ (ok (ids, 0), w2)
    → create cf zone_id true payload w
      ≡ (record { failure = none; payload = record payload { id = "" } }, w2)
unfolding create adopt find
create_loses_duplicate cf zone_id payload w w1 w2 e ids failed dup empty =
    ground (arith, failed, dup, empty)
