-- ===== src/Dns/Contract.antt =====
-- What a DNS provider promises, seen from outside: a table from IDs to entries, and what each call does
-- to that table. The abstract table has one operation, which writes or empties one place.
use kube_dns_manager.Prelude.{
  String, ◌≡◌, ◌≢◌, ◌⊎◌, true, false, Option, none, some, ◌==◌, if◌then◌else◌, sym, ap, ◌∙◌, eq_iff,
  Bool-cases, inl, inr,
}
use kube_dns_manager.Effects.{Error, error_text}
use kube_dns_manager.Api.Record.{RecordSpec}
use kube_dns_manager.Dns.{DnsProvider, Payload}

abbrev pub Table : Type 0 → Type 0
Table E = String → Option E

-- The table with one place written.
abbrev pub put : {E : Type 0} → String → Option E → Table E → Table E
put id entry table k = if k == id then entry else table k

-- The entry of a record moves from one ID to another, or into the table.
abbrev pub replace : {E : Type 0} → String → String → E → Table E → Table E
replace old id entry table = put id (some entry) (put old none table)

pub put_at :
    {E : Type 0} (t : Table E) (id : String) (e : Option E) (k : String)
    → (k == id) ≡ true
    → put id e t k ≡ e
put_at t id e k same = rw same

-- Emptying the place under the empty ID changes nothing where nothing is there.
pub put_nothing : {E : Type 0} (t : Table E) (k : String) → t "" ≡ none → put "" none t k ≡ t k
put_nothing t k h = elim (Bool-cases (k == "")) [
  | inl empty ↦ put_at t "" none k empty ∙ sym (ap t ((eq_iff k "").0 empty) ∙ h)
  | inr full ↦ rw full
]

pub put_cong :
    {E : Type 0} (t u : Table E) (id : String) (e : Option E) (k : String)
    → t k ≡ u k
    → put id e t k ≡ put id e u k
put_cong t u id e k h = elim (Bool-cases (k == id)) [ inl same ↦ rw same | inr other ↦ rw other h ]

pub replace_new :
    {E : Type 0} (t : Table E) (id : String) (e : E) (k : String)
    → t "" ≡ none
    → put id (some e) t k ≡ replace "" id e t k
replace_new t id e k h = put_cong t (put "" none t) id (some e) k (sym (put_nothing t k h))

pub replace_same :
    {E : Type 0} (t : Table E) (id : String) (e : E) (k : String)
    → put id (some e) t k ≡ replace id id e t k
replace_same t id e k = elim (Bool-cases (k == id)) [ inl same ↦ rw same | inr other ↦ rw other ]

pub replace_there :
    {E : Type 0} (t : Table E) (id : String) (e : E) (k : String)
    → t "" ≡ none
    → t id ≡ some e
    → t k ≡ replace "" id e t k
replace_there t id e k h there = elim (Bool-cases (k == id)) [
  | inl same ↦ ap t ((eq_iff k id).0 same) ∙ there ∙ sym (put_at (put "" none t) id (some e) k same)
  | inr other ↦ rw other (sym (put_nothing t k h))
]

-- A new record after the loss of an old one.
pub replace_after :
    {E : Type 0} (t u : Table E) (old id : String) (e : E) (k : String)
    → u "" ≡ none
    → u k ≡ put old none t k
    → replace "" id e u k ≡ replace old id e t k
replace_after t u old id e k h lost =
    put_cong (put "" none u) (put old none t) id (some e) k (put_nothing u k h ∙ lost)

-- What the methods of a DNS provider do to the table of its service where they succeed. Nothing stands
-- under the empty ID, and an error has a text.
pub record Contract {W E : Type 0} (dns : DnsProvider W) (table : W → Table E)
    (entry : RecordSpec → E) : Type 0 where
  pub nothing_unnamed : (w : W) → table w "" ≡ none
  pub creates :
      (payload : Payload) (w : W)
      → payload.id ≡ ""
      → (dns.create payload w).0.failure ≡ none
      → (((dns.create payload w).0.payload.id == "") ≡ false)
        × ((k : String)
            → table (dns.create payload w).1 k
              ≡ replace "" (dns.create payload w).0.payload.id (entry payload.spec) (table w) k)
  pub updates :
      (payload : Payload) (w : W)
      → payload.id ≢ ""
      → (dns.update payload w).0.failure ≡ none
      → (((dns.update payload w).0.payload.id == "") ≡ false)
        × ((k : String)
            → table (dns.update payload w).1 k
              ≡ replace payload.id
                  (dns.update payload w).0.payload.id
                  (entry payload.spec)
                  (table w)
                  k)
  pub deletes :
      (payload : Payload) (w : W)
      → payload.id ≢ ""
      → (dns.delete payload w).0.failure ≡ none
      → ((dns.delete payload w).0.payload.id ≡ "")
        × ((k : String) → table (dns.delete payload w).1 k ≡ put payload.id none (table w) k)
  pub create_speaks :
      (payload : Payload) (w : W) (e : Error)
      → (dns.create payload w).0.failure ≡ some e
      → error_text e ≢ ""
  pub update_speaks :
      (payload : Payload) (w : W) (e : Error)
      → (dns.update payload w).0.failure ≡ some e
      → error_text e ≢ ""
  pub delete_speaks :
      (payload : Payload) (w : W) (e : Error)
      → (dns.delete payload w).0.failure ≡ some e
      → error_text e ≢ ""

-- A provider that adopts nothing: the ID that a call ends with is the one that it was given, or one
-- that stood for nothing.
pub record NewIds {W E : Type 0} (dns : DnsProvider W) (table : W → Table E) : Type 0 where
  pub created :
      (payload : Payload) (w : W)
      → (dns.create payload w).0.failure ≡ none
      → table w (dns.create payload w).0.payload.id ≡ none
  pub updated :
      (payload : Payload) (w : W)
      → (dns.update payload w).0.failure ≡ none
      → ((dns.update payload w).0.payload.id ≡ payload.id)
        ⊎ (table w (dns.update payload w).0.payload.id ≡ none)
