-- ===== src/Dns/Cloudflare/Zone.antt =====
-- What the Cloudflare provider relies on: a zone as a table of entries by their IDs.
use kube_dns_manager.Prelude.{
  ℕ, String, ◌≡◌, ◌≢◌, true, false, Option, none, some, List, [], ◌∷◌, nat_eq,
}
use kube_dns_manager.Effects.{Error, error_text, ok, err}
use kube_dns_manager.Api.Record.{RecordSpec}
use kube_dns_manager.Dns.Contract.{Table, put}
use kube_dns_manager.Dns.Cloudflare.{
  CloudflareApi, RecordParams, is_record_not_found_error, is_record_duplicate_error,
}

-- What makes two records the same to Cloudflare.
pub record Entry : Type 0 where
  pub name : String
  pub type : String
  pub content : String

-- The zone is asked for by the name, the type and the content.
abbrev pub entry_of : {C : Type 0} → RecordParams C → Entry
entry_of p = record { name = p.name; type = p.type; content = p.content }

abbrev pub entry : RecordSpec → Entry
entry r = record { name = r.name; type = r.type; content = r.value }

-- What the documentation of the API says of a zone, seen as a table of entries by their IDs.
pub record ZoneLaws {W : Type 0} (cf : CloudflareApi W) (zone_id : String) (table : W → Table Entry)
    : Type 0 where
  pub nothing_unnamed : (w : W) → table w "" ≡ none
  -- a new record stands under its ID, and nothing else changes
  pub created_id :
      (p : RecordParams String) (w : W) (id : String) → (cf.create zone_id p w).0 ≡ ok id → id ≢ ""
  pub created :
      (p : RecordParams String) (w : W) (id k : String)
      → (cf.create zone_id p w).0 ≡ ok id
      → table (cf.create zone_id p w).1 k ≡ put id (some (entry_of p)) (table w) k
  -- a duplicate changes nothing
  pub refused :
      (p : RecordParams String) (w : W) (e : Error) (k : String)
      → (cf.create zone_id p w).0 ≡ err e
      → is_record_duplicate_error e ≡ true
      → table (cf.create zone_id p w).1 k ≡ table w k
  -- the record keeps its ID
  pub updated_id :
      (id new : String) (p : RecordParams (Option String)) (w : W)
      → (cf.update zone_id id p w).0 ≡ ok new
      → new ≡ id
  pub updated :
      (id new k : String) (p : RecordParams (Option String)) (w : W)
      → (cf.update zone_id id p w).0 ≡ ok new
      → table (cf.update zone_id id p w).1 k ≡ put id (some (entry_of p)) (table w) k
  -- what is not found is not there
  pub unknown :
      (id k : String) (p : RecordParams (Option String)) (w : W) (e : Error)
      → (cf.update zone_id id p w).0 ≡ err e
      → is_record_not_found_error e ≡ true
      → table (cf.update zone_id id p w).1 k ≡ put id none (table w) k
  pub deleted :
      (id k : String) (w : W)
      → (cf.delete zone_id id w).0 ≡ ok tt
      → table (cf.delete zone_id id w).1 k ≡ put id none (table w) k
  pub unknown_deleted :
      (id k : String) (w : W) (e : Error)
      → (cf.delete zone_id id w).0 ≡ err e
      → is_record_not_found_error e ≡ true
      → table (cf.delete zone_id id w).1 k ≡ put id none (table w) k
  -- a listed record has the name, the type and the content that were asked for
  pub listed_id :
      (name type content : String) (w : W) (id : String) (ids : List String) (total : ℕ)
      → (cf.list zone_id name type content w).0 ≡ ok (id ∷ ids, total)
      → id ≢ ""
  pub listed :
      (name type content : String) (w : W) (id : String) (ids : List String) (total : ℕ)
      → (cf.list zone_id name type content w).0 ≡ ok (id ∷ ids, total)
      → table w id ≡ some (record { name = name; type = type; content = content })
  -- where nothing is listed, the total is zero
  pub counted :
      (name type content : String) (w : W) (total : ℕ)
      → (cf.list zone_id name type content w).0 ≡ ok ([], total)
      → nat_eq total 0 ≡ true
  pub list_reads :
      (name type content : String) (w : W) (k : String)
      → table (cf.list zone_id name type content w).1 k ≡ table w k
  -- the record that makes another a duplicate is listed
  pub duplicate_listed :
      (p : RecordParams String) (w : W) (e : Error) (ids : List String) (total : ℕ)
      → (cf.create zone_id p w).0 ≡ err e
      → is_record_duplicate_error e ≡ true
      → (cf.list zone_id p.name p.type p.content (cf.create zone_id p w).1).0 ≡ ok (ids, total)
      → nat_eq total 0 ≡ false
  -- errors have a text
  pub create_speaks :
      (p : RecordParams String) (w : W) (e : Error)
      → (cf.create zone_id p w).0 ≡ err e
      → error_text e ≢ ""
  pub update_speaks :
      (id : String) (p : RecordParams (Option String)) (w : W) (e : Error)
      → (cf.update zone_id id p w).0 ≡ err e
      → error_text e ≢ ""
  pub delete_speaks :
      (id : String) (w : W) (e : Error) → (cf.delete zone_id id w).0 ≡ err e → error_text e ≢ ""
  pub list_speaks :
      (name type content : String) (w : W) (e : Error)
      → (cf.list zone_id name type content w).0 ≡ err e
      → error_text e ≢ ""
