-- ===== src/Examples/Zone.antt =====
-- A zone that holds one record, and that it keeps the documented laws.
use kube_dns_manager.Prelude.{
  ℕ, String, ◌≡◌, ◌≢◌, refl, sym, ap, subst, ◌∙◌, Bool, true, false, ◌&&◌, Option, none, some, List,
  [], ◌∷◌, ◌==◌, arith, eq_iff, nat_eq, Bool-cases, inl, inr, if◌then◌else◌,
}
use kube_dns_manager.Effects.{Error, error_text, plain, cf_not_found, cf_request, ok, err, Exec}
use kube_dns_manager.Examples.Fixtures.{nonempty}
use kube_dns_manager.Dns.Contract.{Table, put}
use kube_dns_manager.Dns.Cloudflare.{CloudflareApi, RecordParams, is_record_duplicate_error}
use kube_dns_manager.Dns.Cloudflare.Zone.{Entry, entry_of, ZoneLaws}

abbrev same_entry : Entry → Entry → Bool
same_entry a b = (a.name == b.name) && (a.type == b.type) && (a.content == b.content)

abbrev pub zone_create : RecordParams String → Exec (Option Entry) String
zone_create p none = (ok "1", some (entry_of p))
zone_create p (some e) =
    if same_entry e (entry_of p)
    then (err (cf_request (81058 ∷ []) "An identical record already exists."), some e)
    else (err (plain "quota"), some e)

abbrev zone_update : String → RecordParams (Option String) → Exec (Option Entry) String
zone_update id p none = (err (cf_not_found "not found"), none)
zone_update id p (some e) =
    if id == "1" then (ok id, some (entry_of p)) else (err (cf_not_found "not found"), some e)

abbrev zone_delete : String → Exec (Option Entry) (Unit {0})
zone_delete id none = (err (cf_not_found "not found"), none)
zone_delete id (some e) =
    if id == "1" then (ok tt, none) else (err (cf_not_found "not found"), some e)

abbrev zone_list : Entry → Exec (Option Entry) (List String × ℕ)
zone_list wanted none = (ok ([], 0), none)
zone_list wanted (some e) =
    if same_entry e wanted then (ok ("1" ∷ [], 1), some e) else (ok ([], 0), some e)

abbrev pub one_record : CloudflareApi (Option Entry)
one_record = record {
  create = λ zone p. zone_create p;
  update = λ zone id p. zone_update id p;
  delete = λ zone id. zone_delete id;
  list =
      λ zone name type content. zone_list (record { name = name; type = type; content = content });
  zone_id_by_name = λ name w. (ok name, w);
}

abbrev pub table_of : Option Entry → Table Entry
table_of w id = if id == "1" then w else none

created_id :
    (p : RecordParams String) (w : Option Entry) (id : String)
    → (zone_create p w).0 ≡ ok id
    → id ≢ ""
created_id p none id h = let same : "1" ≡ id = cc h in subst (λ t. t ≢ "") same (nonempty "1" refl)
created_id p (some x) id h = absurd (ground arith)

created :
    (p : RecordParams String) (w : Option Entry) (id k : String)
    → (zone_create p w).0 ≡ ok id
    → table_of (zone_create p w).1 k ≡ put id (some (entry_of p)) (table_of w) k
created p none id k h = ground arith
created p (some x) id k h = ground arith

refused :
    (p : RecordParams String) (w : Option Entry) (e : Error) (k : String)
    → (zone_create p w).0 ≡ err e
    → table_of (zone_create p w).1 k ≡ table_of w k
refused p none e k h = ground arith
refused p (some x) e k h = ground arith

updated :
    (id new k : String) (p : RecordParams (Option String)) (w : Option Entry)
    → (zone_update id p w).0 ≡ ok new
    → table_of (zone_update id p w).1 k ≡ put id (some (entry_of p)) (table_of w) k
updated id new k p none h = ground arith
updated id new k p (some x) h = ground (arith, eq_iff id "1")

unknown :
    (id k : String) (p : RecordParams (Option String)) (w : Option Entry) (e : Error)
    → (zone_update id p w).0 ≡ err e
    → table_of (zone_update id p w).1 k ≡ put id none (table_of w) k
unknown id k p none e h = ground arith
unknown id k p (some x) e h = ground (arith, eq_iff id "1", eq_iff k "1", eq_iff k id)

deleted :
    (id k : String) (w : Option Entry)
    → (zone_delete id w).0 ≡ ok tt
    → table_of (zone_delete id w).1 k ≡ put id none (table_of w) k
deleted id k none h = ground arith
deleted id k (some x) h = ground (arith, eq_iff id "1", eq_iff k "1", eq_iff k id)

unknown_deleted :
    (id k : String) (w : Option Entry) (e : Error)
    → (zone_delete id w).0 ≡ err e
    → table_of (zone_delete id w).1 k ≡ put id none (table_of w) k
unknown_deleted id k none e h = ground arith
unknown_deleted id k (some x) e h = ground (arith, eq_iff id "1", eq_iff k "1", eq_iff k id)

updated_id :
    (id new : String) (p : RecordParams (Option String)) (w : Option Entry)
    → (zone_update id p w).0 ≡ ok new
    → new ≡ id
updated_id id new p none h = absurd (ground arith)
updated_id id new p (some x) h = ground arith

all_same : (a b c : Bool) → (a && b && c) ≡ true → (a ≡ true) × (b ≡ true) × (c ≡ true)
all_same true true true h = (refl, refl, refl)
all_same false b c h = absurd (ground (arith, h))
all_same true false c h = absurd (ground (arith, h))
all_same true true false h = absurd (ground (arith, h))

same_entry_lem : (a b : Entry) → same_entry a b ≡ true → a ≡ b
same_entry_lem a b h =
    let (n, t, c) = all_same (a.name == b.name) (a.type == b.type) (a.content == b.content) h in
    let name = (eq_iff a.name b.name).0 n in
    let type = (eq_iff a.type b.type).0 t in
    let content = (eq_iff a.content b.content).0 c in
    λ i. record { name = name i; type = type i; content = content i }

listed :
    (wanted : Entry) (w : Option Entry) (id : String) (ids : List String) (total : ℕ)
    → (zone_list wanted w).0 ≡ ok (id ∷ ids, total)
    → ("1" ≡ id) × (w ≡ some wanted)
listed wanted none id ids total h = absurd (ground arith)
listed wanted (some x) id ids total h = elim (Bool-cases (same_entry x wanted)) [
  | inr other ↦ absurd (ground (arith, other))
  | inl same ↦
      let got : (zone_list wanted (some x)).0 ≡ ok ("1" ∷ [], 1) = rw same refl in
      let shown : ok ("1" ∷ [], 1) ≡ ok (id ∷ ids, total) = sym got ∙ h in
      (cc shown, ap some (same_entry_lem x wanted same))
]

counted :
    (wanted : Entry) (w : Option Entry) (total : ℕ)
    → (zone_list wanted w).0 ≡ ok ([], total)
    → nat_eq total 0 ≡ true
counted wanted none total h = ground arith
counted wanted (some x) total h = ground arith

list_reads :
    (wanted : Entry) (w : Option Entry) (k : String)
    → table_of (zone_list wanted w).1 k ≡ table_of w k
list_reads wanted none k = refl
list_reads wanted (some x) k = ground arith

duplicate_listed :
    (p : RecordParams String) (w : Option Entry) (e : Error) (ids : List String) (total : ℕ)
    → (zone_create p w).0 ≡ err e
    → is_record_duplicate_error e ≡ true
    → (zone_list (entry_of p) (zone_create p w).1).0 ≡ ok (ids, total)
    → nat_eq total 0 ≡ false
unfolding is_record_duplicate_error
duplicate_listed p none e ids total failed dup h = absurd (ground arith)
duplicate_listed p (some x) e ids total failed dup h = ground arith

texts : (e f : Error) → error_text e ≢ "" → e ≡ f → error_text f ≢ ""
texts e f h same = subst (λ x. error_text x ≢ "") same h

create_speaks :
    (p : RecordParams String) (w : Option Entry) (e : Error)
    → (zone_create p w).0 ≡ err e
    → error_text e ≢ ""
unfolding error_text
create_speaks p none e h = absurd (ground arith)
create_speaks p (some x) e h = elim (Bool-cases (same_entry x (entry_of p))) [
  | inl same ↦
      texts (cf_request (81058 ∷ []) "An identical record already exists.") e
        (nonempty "An identical record already exists." refl) (ground (arith, same))
  | inr other ↦ texts (plain "quota") e (nonempty "quota" refl) (ground (arith, other))
]

update_speaks :
    (id : String) (p : RecordParams (Option String)) (w : Option Entry) (e : Error)
    → (zone_update id p w).0 ≡ err e
    → error_text e ≢ ""
unfolding error_text
update_speaks id p none e h =
    texts (cf_not_found "not found") e (nonempty "not found" refl) (ground arith)
update_speaks id p (some x) e h =
    texts (cf_not_found "not found") e (nonempty "not found" refl) (ground arith)

delete_speaks :
    (id : String) (w : Option Entry) (e : Error) → (zone_delete id w).0 ≡ err e → error_text e ≢ ""
unfolding error_text
delete_speaks id none e h =
    texts (cf_not_found "not found") e (nonempty "not found" refl) (ground arith)
delete_speaks id (some x) e h =
    texts (cf_not_found "not found") e (nonempty "not found" refl) (ground arith)

list_speaks :
    (name type content : String) (w : Option Entry) (e : Error)
    → (zone_list (record { name = name; type = type; content = content }) w).0 ≡ err e
    → error_text e ≢ ""
list_speaks name type content none e h = absurd (ground arith)
list_speaks name type content (some x) e h = absurd (ground arith)

pub one_record-laws : ZoneLaws one_record "zone" table_of
one_record-laws = record {
  nothing_unnamed = λ w. refl;
  created_id = created_id;
  created = created;
  refused = λ p w e k failed dup. refused p w e k failed;
  updated_id = updated_id;
  updated = updated;
  unknown = λ id k p w e failed missing. unknown id k p w e failed;
  deleted = deleted;
  unknown_deleted = λ id k w e failed missing. unknown_deleted id k w e failed;
  listed_id = λ name type content w id ids total h.
      subst (λ t. t ≢ "")
        (listed (record { name = name; type = type; content = content }) w id ids total h).0
        (nonempty "1" refl);
  listed = λ name type content w id ids total h.
      let (one, there) =
        listed (record { name = name; type = type; content = content }) w id ids total h in
      subst (λ t. table_of w t ≡ some (record { name = name; type = type; content = content })) one
        there;
  counted = λ name type content w total h.
      counted (record { name = name; type = type; content = content }) w total h;
  list_reads = λ name type content w k.
      list_reads (record { name = name; type = type; content = content }) w k;
  duplicate_listed = duplicate_listed;
  create_speaks = create_speaks;
  update_speaks = update_speaks;
  delete_speaks = delete_speaks;
  list_speaks = list_speaks;
}
