-- ===== src/Dns/Cloudflare/Moves.antt =====
-- What Create, Update and Delete of the Cloudflare provider do to the zone where they succeed.
use kube_dns_manager.Prelude.{
  ℕ, String, ◌≡◌, ◌≢◌, refl, ◌∙◌, subst, Bool, true, false, ◌&&◌, none, some, List, [], ◌∷◌, ◌==◌,
  eq_iff, arith, nat_eq, Bool-cases, false≢true, inl, inr,
}
use kube_dns_manager.Effects.{Result-cases, ok}
use kube_dns_manager.Api.Record.{RecordSpec}
use kube_dns_manager.Dns.{Payload}
use kube_dns_manager.Dns.Contract.{
  Table, put, replace, put_cong, replace_new, replace_same, replace_there, replace_after,
}
use kube_dns_manager.Dns.Cloudflare.{
  CloudflareApi, is_record_not_found_error, is_record_duplicate_error, create_params, update_params,
  find, adopt, create, update, delete,
}
use kube_dns_manager.Dns.Cloudflare.Zone.{Entry, entry, ZoneLaws}

and_right : (a b : Bool) → (a && b) ≡ true → b ≡ true
and_right true b h = h
and_right false b h = absurd (false≢true h)

not_empty : (id : String) → id ≢ "" → (id == "") ≡ false
not_empty id h = ground (arith, eq_iff id "")

module _ {W : Type 0} (cf : CloudflareApi W) (zone_id : String) (match_exists_record : Bool)
    (table : W → Table Entry) (laws : ZoneLaws cf zone_id table) where
  -- The zone holds the entry under the ID, and nothing under the old one.
  abbrev Moved : String → String → RecordSpec → W → W → Type 0
  Moved old id spec w w' =
      ((id == "") ≡ false) × ((k : String) → table w' k ≡ replace old id (entry spec) (table w) k)

  -- An adopted record was in the zone as it was to be.
  adopt-Moved :
      (payload : Payload) (w : W)
      → ((ids : List String) (total : ℕ)
          → (cf.list zone_id payload.spec.name payload.spec.type payload.spec.value w).0
            ≡ ok (ids, total)
          → nat_eq total 0 ≡ false)
      → (adopt cf zone_id match_exists_record payload w).0.failure ≡ none
      → Moved ""
          (adopt cf zone_id match_exists_record payload w).0.payload.id
          payload.spec
          w
          (adopt cf zone_id match_exists_record payload w).1
  unfolding adopt find
  adopt-Moved payload w full h =
      let r = payload.spec in
      elim (Result-cases (cf.list zone_id r.name r.type r.value w).0) [
        | inr (e, failed) ↦ absurd (ground (arith, failed))
        | inl (([], total), listed) ↦ absurd (ground (arith, listed, full [] total listed))
        | inl ((id ∷ ids, total), listed) ↦
            let some_listed = full (id ∷ ids) total listed in
            let there = laws.listed r.name r.type r.value w id ids total listed in
            let named = not_empty id (laws.listed_id r.name r.type r.value w id ids total listed) in
            let e : adopt cf zone_id match_exists_record payload w ≡ (
              record { failure = none; payload = record payload { id = id } },
              (cf.list zone_id r.name r.type r.value w).1,
            ) =
              ground (arith, listed, some_listed) in
            rw e (
              named,
              λ k.
                  laws.list_reads r.name r.type r.value w k
                  ∙ replace_there (table w) id (entry r) k (laws.nothing_unnamed w) there,
            )
      ]

  pub create-Moved :
      (payload : Payload) (w : W)
      → (create cf zone_id match_exists_record payload w).0.failure ≡ none
      → Moved ""
          (create cf zone_id match_exists_record payload w).0.payload.id
          payload.spec
          w
          (create cf zone_id match_exists_record payload w).1
  unfolding create create_params
  create-Moved payload w h =
      let p = create_params payload.spec in
      elim (Result-cases (cf.create zone_id p w).0) [
        | inl (id, made) ↦
            let e : create cf zone_id match_exists_record payload w ≡ (
              record { failure = none; payload = record payload { id = id } },
              (cf.create zone_id p w).1,
            ) =
              ground (arith, made) in
            rw e (
              not_empty id (laws.created_id p w id made),
              λ k.
                  laws.created p w id k made
                  ∙ replace_new (table w) id (entry payload.spec) k (laws.nothing_unnamed w),
            )
        | inr (e, failed) ↦ elim (Bool-cases (match_exists_record && is_record_duplicate_error e)) [
          | inr other ↦ absurd (ground (arith, failed, other))
          | inl adopted ↦
              let dup = and_right match_exists_record (is_record_duplicate_error e) adopted in
              let w1 = (cf.create zone_id p w).1 in
              let same : create cf zone_id match_exists_record payload w
                  ≡ adopt cf zone_id match_exists_record payload w1 =
                ground (arith, failed, adopted) in
              let done = subst (λ x. x.0.failure ≡ none) same h in
              let moved =
                adopt-Moved payload w1
                  (λ ids total. laws.duplicate_listed p w e ids total failed dup) done in
              rw same (
                moved.0,
                λ k.
                    moved.1 k
                    ∙ put_cong (put "" none (table w1)) (put "" none (table w))
                        (adopt cf zone_id match_exists_record payload w1).0.payload.id
                        (some (entry payload.spec)) k
                        (put_cong (table w1) (table w) "" none k (laws.refused p w e k failed dup)),
              )
        ]
      ]

  pub update-Moved :
      (payload : Payload) (w : W)
      → (update cf zone_id match_exists_record payload w).0.failure ≡ none
      → payload.id ≢ ""
      → Moved payload.id
          (update cf zone_id match_exists_record payload w).0.payload.id
          payload.spec
          w
          (update cf zone_id match_exists_record payload w).1
  unfolding update update_params
  update-Moved payload w h held =
      let p = update_params payload.spec in
      let w1 = (cf.update zone_id payload.id p w).1 in
      elim (Result-cases (cf.update zone_id payload.id p w).0) [
        | inl (id, made) ↦
            let e : update cf zone_id match_exists_record payload w
                ≡ (record { failure = none; payload = record payload { id = id } }, w1) =
              ground (arith, made) in
            let kept = laws.updated_id payload.id id p w made in
            rw (e, kept)
              (
                not_empty payload.id held,
                λ k.
                    laws.updated payload.id id k p w made
                    ∙ replace_same (table w) payload.id (entry payload.spec) k,
              )
        | inr (e, failed) ↦ elim (Bool-cases (is_record_not_found_error e)) [
          | inr other ↦ absurd (ground (arith, failed, other))
          | inl unknown ↦
              let same : update cf zone_id match_exists_record payload w
                  ≡ create cf zone_id match_exists_record payload w1 =
                ground (arith, failed, unknown) in
              let moved = create-Moved payload w1 (subst (λ x. x.0.failure ≡ none) same h) in
              rw same (
                moved.0,
                λ k.
                    moved.1 k
                    ∙ replace_after (table w) (table w1) payload.id
                        (create cf zone_id match_exists_record payload w1).0.payload.id
                        (entry payload.spec) k (laws.nothing_unnamed w1)
                        (laws.unknown payload.id k p w e failed unknown),
              )
        ]
      ]

  pub delete_empties :
      (payload : Payload) (w : W)
      → (delete cf zone_id match_exists_record payload w).0.failure ≡ none
      → ((delete cf zone_id match_exists_record payload w).0.payload.id ≡ "")
        × ((k : String)
            → table (delete cf zone_id match_exists_record payload w).1 k
              ≡ put payload.id none (table w) k)
  unfolding delete
  delete_empties payload w h = elim (Result-cases (cf.delete zone_id payload.id w).0) [
    | inl (tt, done) ↦
        let e : delete cf zone_id match_exists_record payload w ≡ (
          record { failure = none; payload = record payload { id = "" } },
          (cf.delete zone_id payload.id w).1,
        ) =
          ground (arith, done) in
        rw e (refl, λ k. laws.deleted payload.id k w done)
    | inr (e, failed) ↦ elim (Bool-cases (is_record_not_found_error e)) [
      | inr other ↦ absurd (ground (arith, failed, other))
      | inl unknown ↦
          let e' : delete cf zone_id match_exists_record payload w ≡ (
            record { failure = none; payload = record payload { id = "" } },
            (cf.delete zone_id payload.id w).1,
          ) =
            ground (arith, failed, unknown) in
          rw e' (refl, λ k. laws.unknown_deleted payload.id k w e failed unknown)
    ]
  ]
