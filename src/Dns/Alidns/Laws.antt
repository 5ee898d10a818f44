-- ===== src/Dns/Alidns/Laws.antt =====
-- What Create, Update and Delete of the Aliyun provider leave behind, and the host part of a name.
use Prim.Native.String.{◌++◌, count}
use text.Mathlib.TextLemmas.{length-append}
use kube_dns_manager.Prelude.{
  String, ◌≡◌, ◌≢◌, ap, false, inl, inr, none, some, arith, eq_iff, eq_refl, trim_suffix-append,
  trim_suffix-eq_self, has_suffix,
}
use kube_dns_manager.Effects.{Error, Result-cases, ok, err}
use kube_dns_manager.Dns.{Payload, ClearsId}
use kube_dns_manager.Dns.Alidns.{
  AlidnsApi, DomainRecord, get_rr, domain_record, find, adopt, create, update, delete, provider,
}

longer-ne-domain : (host domain_name : String) → host ++ ("." ++ domain_name) ≢ domain_name
longer-ne-domain host d e =
    omega (arith, ap count e, length-append host ("." ++ d), length-append "." d)

-- The host part of a name under the domain is what stands before the dot.
pub get_rr-append :
    (domain_name host : String) → get_rr domain_name (host ++ ("." ++ domain_name)) ≡ host
unfolding get_rr
get_rr-append d host = ground (
  arith,
  eq_iff (host ++ ("." ++ d)) d,
  longer-ne-domain host d,
  trim_suffix-append host ("." ++ d),
)

pub get_rr_self : (domain_name : String) → get_rr domain_name domain_name ≡ ""
unfolding get_rr
get_rr_self d = ground (arith, eq_refl d)

get_rr_outside :
    (domain_name name : String)
    → name ≢ domain_name
    → has_suffix name ("." ++ domain_name) ≡ false
    → get_rr domain_name name ≡ name
unfolding get_rr
get_rr_outside d name other absent =
    ground (arith, eq_iff name d, trim_suffix-eq_self name ("." ++ d))

-- The service gives every record that it adds or updates an ID.
pub record GivesIds {W : Type 0} (client : AlidnsApi W) : Type 0 where
  pub adds :
      (domain_name : String) (r : DomainRecord) (w : W) (id : String)
      → (client.add_domain_record domain_name r w).0 ≡ ok id
      → id ≢ ""
  pub updates :
      (id : String) (r : DomainRecord) (w : W) (new : String)
      → (client.update_domain_record id r w).0 ≡ ok new
      → new ≢ ""

module _ {W : Type 0} (client : AlidnsApi W) (domain_name : String) where
  adopt_id :
      (e : Error) (payload : Payload) (w : W)
      → (adopt client domain_name e payload w).0.failure ≡ none
      → (adopt client domain_name e payload w).0.payload.id ≢ ""
  unfolding adopt
  adopt_id e payload w h empty = elim (Result-cases (find client domain_name payload.spec w).0) [
    | inl (id, got) ↦ ground (arith, got, eq_iff id "")
    | inr (f, failed) ↦ ground (arith, failed)
  ]

  -- A Create that succeeds leaves an ID, if the service gives one to every record that it adds.
  pub create_id :
      GivesIds client
      → (payload : Payload) (w : W) → (create client domain_name payload w).0.failure ≡ none
      → (create client domain_name payload w).0.payload.id ≢ ""
  unfolding create
  create_id gives payload w h empty =
      let record_ = domain_record domain_name payload.spec in
      let w1 = (client.add_domain_record domain_name record_ w).1 in
      elim (Result-cases (client.add_domain_record domain_name record_ w).0) [
        | inl (id, got) ↦ ground (arith, got, gives.adds domain_name record_ w id got)
        | inr (e, failed) ↦ ground (arith, failed, adopt_id e payload w1)
      ]

  -- A successful Update of a record with an ID leaves an ID, if the service gives one to every
  -- record that it adds or updates.
  pub update_id :
      GivesIds client
      → (payload : Payload) (w : W) → payload.id ≢ ""
      → (update client domain_name payload w).0.failure ≡ none
      → (update client domain_name payload w).0.payload.id ≢ ""
  unfolding update
  update_id gives payload w held h empty =
      let record_ = domain_record domain_name payload.spec in
      let w1 = (client.update_domain_record payload.id record_ w).1 in
      elim (Result-cases (client.update_domain_record payload.id record_ w).0) [
        | inl (id, got) ↦ ground (arith, got, gives.updates payload.id record_ w id got)
        | inr (e, failed) ↦ ground (arith, failed, held, create_id gives payload w1)
      ]

  pub provider-ClearsId : ClearsId (provider client domain_name)
  unfolding delete
  provider-ClearsId = record { cleared = λ payload w h. ground arith }

  -- Delete passes every error on, also where the service does not know the ID, and keeps the ID.
  pub delete_fails :
      (payload : Payload) (w w1 : W) (e : Error)
      → client.delete_domain_record payload.id w ≡ (err e, w1)
      → delete client domain_name payload w ≡ (record { failure = some e; payload = payload }, w1)
  unfolding delete
  delete_fails payload w w1 e failed = ground (arith, failed)
