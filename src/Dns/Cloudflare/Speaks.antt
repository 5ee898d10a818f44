-- ===== src/Dns/Cloudflare/Speaks.antt =====
-- The texts of the errors of the Cloudflare provider, over those of the API.
use kube_dns_manager.Prelude.{
  String, ◌≡◌, ◌≢◌, subst, Bool, ◌&&◌, some, [], ◌∷◌, arith, Bool-cases, inl, inr,
}
use kube_dns_manager.Effects.{Error, error_text, Result-cases}
use kube_dns_manager.Dns.{Payload}
use kube_dns_manager.Dns.Contract.{Table}
use kube_dns_manager.Dns.Cloudflare.{
  CloudflareApi, is_record_not_found_error, is_record_duplicate_error, create_params, update_params,
  find, adopt, create, update, delete,
}
use kube_dns_manager.Dns.Cloudflare.Zone.{Entry, ZoneLaws}

module _ {W : Type 0} (cf : CloudflareApi W) (zone_id : String) (match_exists_record : Bool)
    (table : W → Table Entry) (laws : ZoneLaws cf zone_id table) where
  adopt_speaks :
      (payload : Payload) (w : W) (e : Error)
      → (adopt cf zone_id match_exists_record payload w).0.failure ≡ some e
      → error_text e ≢ ""
  unfolding adopt find
  adopt_speaks payload w e h =
      let r = payload.spec in
      elim (Result-cases (cf.list zone_id r.name r.type r.value w).0) [
        | inr (f, failed) ↦
            let same : f ≡ e = ground (arith, failed) in
            subst (λ x. error_text x ≢ "") same (laws.list_speaks r.name r.type r.value w f failed)
        | inl ((id ∷ ids, total), listed) ↦ absurd (ground (arith, listed))
        | inl (([], total), listed) ↦
            absurd (ground (arith, listed, laws.counted r.name r.type r.value w total listed))
      ]

  pub create_speaks :
      (payload : Payload) (w : W) (e : Error)
      → (create cf zone_id match_exists_record payload w).0.failure ≡ some e
      → error_text e ≢ ""
  unfolding create
  create_speaks payload w e h =
      let p = create_params payload.spec in
      elim (Result-cases (cf.create zone_id p w).0) [
        | inl (id, made) ↦ absurd (ground (arith, made))
        | inr (f, failed) ↦ elim (Bool-cases (match_exists_record && is_record_duplicate_error f)) [
          | inl adopted ↦
              adopt_speaks payload (cf.create zone_id p w).1 e (ground (arith, failed, adopted))
          | inr other ↦
              let same : f ≡ e = ground (arith, failed, other) in
              subst (λ x. error_text x ≢ "") same (laws.create_speaks p w f failed)
        ]
      ]

  pub update_speaks :
      (payload : Payload) (w : W) (e : Error)
      → (update cf zone_id match_exists_record payload w).0.failure ≡ some e
      → error_text e ≢ ""
  unfolding update
  update_speaks payload w e h =
      let p = update_params payload.spec in
      elim (Result-cases (cf.update zone_id payload.id p w).0) [
        | inl (id, made) ↦ absurd (ground (arith, made))
        | inr (f, failed) ↦ elim (Bool-cases (is_record_not_found_error f)) [
          | inl unknown ↦
              create_speaks payload (cf.update zone_id payload.id p w).1 e
                (ground (arith, failed, unknown))
          | inr other ↦
              let same : f ≡ e = ground (arith, failed, other) in
              subst (λ x. error_text x ≢ "") same (laws.update_speaks payload.id p w f failed)
        ]
      ]

  pub delete_speaks :
      (payload : Payload) (w : W) (e : Error)
      → (delete cf zone_id match_exists_record payload w).0.failure ≡ some e
      → error_text e ≢ ""
  unfolding delete
  delete_speaks payload w e h = elim (Result-cases (cf.delete zone_id payload.id w).0) [
    | inl (tt, done) ↦ absurd (ground (arith, done))
    | inr (f, failed) ↦
        let same : f ≡ e = ground (arith, failed) in
        subst (λ x. error_text x ≢ "") same (laws.delete_speaks payload.id w f failed)
  ]
