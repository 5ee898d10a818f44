-- ===== src/Dns/Cloudflare/NewIds.antt =====
-- The IDs that the Cloudflare provider ends with where it adopts nothing.
use kube_dns_manager.Prelude.{
  String, ◌≡◌, ◌⊎◌, inl, inr, refl, sym, ◌∙◌, subst, false, none, ◌==◌, arith, eq_iff, Bool-cases,
}
use kube_dns_manager.Effects.{Result-cases, ok}
use kube_dns_manager.Dns.{Payload}
use kube_dns_manager.Dns.Contract.{Table, put, NewIds}
use kube_dns_manager.Dns.Cloudflare.{
  CloudflareApi, RecordParams, is_record_not_found_error, create_params, update_params, create,
  update, provider,
}
use kube_dns_manager.Dns.Cloudflare.Zone.{Entry, ZoneLaws}

-- A new record stands under an ID that stood for nothing.
abbrev pub UnusedIds : {W : Type 0} → CloudflareApi W → String → (W → Table Entry) → Type 0
UnusedIds {W} cf zone_id table =
    (p : RecordParams String) (w : W) (id : String)
    → (cf.create zone_id p w).0 ≡ ok id
    → table w id ≡ none

module _ {W : Type 0} (cf : CloudflareApi W) (zone_id : String) (table : W → Table Entry)
    (laws : ZoneLaws cf zone_id table) (unused : UnusedIds cf zone_id table) where
  create_new :
      (payload : Payload) (w : W)
      → (create cf zone_id false payload w).0.failure ≡ none
      → table w (create cf zone_id false payload w).0.payload.id ≡ none
  unfolding create
  create_new payload w h =
      let p = create_params payload.spec in
      elim (Result-cases (cf.create zone_id p w).0) [
        | inr (e, failed) ↦ absurd (ground (arith, failed))
        | inl (id, made) ↦
            let e : (create cf zone_id false payload w).0.payload.id ≡ id = ground (arith, made) in
            rw e (unused p w id made)
      ]

  update_new :
      (payload : Payload) (w : W)
      → (update cf zone_id false payload w).0.failure ≡ none
      → ((update cf zone_id false payload w).0.payload.id ≡ payload.id)
        ⊎ (table w (update cf zone_id false payload w).0.payload.id ≡ none)
  unfolding update
  update_new payload w h =
      let p = update_params payload.spec in
      let w1 = (cf.update zone_id payload.id p w).1 in
      elim (Result-cases (cf.update zone_id payload.id p w).0) [
        | inl (id, made) ↦
            let e : (update cf zone_id false payload w).0.payload.id ≡ id = ground (arith, made) in
            inl (e ∙ laws.updated_id payload.id id p w made)
        | inr (e, failed) ↦ elim (Bool-cases (is_record_not_found_error e)) [
          | inr other ↦ absurd (ground (arith, failed, other))
          | inl unknown ↦
              let same : update cf zone_id false payload w ≡ create cf zone_id false payload w1 =
                ground (arith, failed, unknown) in
              let id = (create cf zone_id false payload w1).0.payload.id in
              let nothing = create_new payload w1 (subst (λ x. x.0.failure ≡ none) same h) in
              elim (Bool-cases (id == payload.id)) [
                | inl kept ↦ inl (rw same ((eq_iff id payload.id).0 kept))
                | inr changed ↦
                    let elsewhere : put payload.id none (table w) id ≡ table w id =
                      rw changed refl in
                    inr (
                      rw same (
                        sym elsewhere
                        ∙ sym (laws.unknown payload.id id p w e failed unknown)
                        ∙ nothing))
              ]
        ]
      ]

  pub cloudflare-NewIds : NewIds (provider cf zone_id false) table
  cloudflare-NewIds = record { created = create_new; updated = update_new }
