-- ===== src/Records/Emptied.antt =====
-- What a deletion is to leave of the table of a provider, and the status that stands for it.
use kube_dns_manager.Prelude.{
  String, ◌≡◌, ◌⊎◌, sym, ◌∙◌, subst, Bool, true, ◌&&◌, none, some, List, [], ◌∷◌, arith, ◌==◌, any,
  any-append, Bool-cases, inl, inr,
}
use kube_dns_manager.Effects.{Error, ok}
use kube_dns_manager.Api.Meta.{NamespacedName, ObjectMeta, equal, equal_refl, key_of}
use kube_dns_manager.Api.Record.{RecordProviderStatus, find_provider_status}
use kube_dns_manager.Api.Provider.{Provider}
use kube_dns_manager.Dns.{Cache, DnsProvider, Payload, ready_provider}
use kube_dns_manager.Dns.Contract.{Table}
use kube_dns_manager.Records.Client.{RecordCluster}
use kube_dns_manager.Records.Statuses.{fresh, current, enlist, write}
use kube_dns_manager.Records.Coverage.{find-append, named-current}
use kube_dns_manager.Records.{get_provider}

-- What is relied on of a provider whose table it is: Delete, where it succeeds, empties the place of its
-- ID, and where it fails, keeps the ID.
pub record Empties {W E : Type 0} (dns : DnsProvider W) (table : W → Table E) : Type 0 where
  pub emptied :
      (payload : Payload) (w : W)
      → (dns.delete payload w).0.failure ≡ none
      → table (dns.delete payload w).1 payload.id ≡ none
  pub kept :
      (payload : Payload) (w : W) (e : Error)
      → (dns.delete payload w).0.failure ≡ some e
      → (dns.delete payload w).0.payload.id ≡ payload.id

-- The calls of a run that put nothing into the table: the events, the lookups of providers, and the
-- deletions at all of them. The providers of the name that the table is of empty it.
pub record Around {W E : Type 0} (cluster : RecordCluster W) (cache : Cache W)
    (name : NamespacedName) (table : W → Table E) : Type 0 where
  pub events :
      (meta : ObjectMeta) (kind reason text : String) (w : W) (k : String)
      → table w k ≡ none
      → table (cluster.event meta kind reason text w) k ≡ none
  pub lookups :
      (key : NamespacedName) (w : W) (k : String)
      → table w k ≡ none
      → table (get_provider cluster key w).1 k ≡ none
  pub found :
      (key : NamespacedName) (w : W) (p : Provider)
      → (get_provider cluster key w).0 ≡ ok p
      → key_of p.meta ≡ key
  pub deletions :
      (p : Provider) (dns : DnsProvider W) (payload : Payload) (w : W) (k : String)
      → ready_provider cache p ≡ some dns
      → table w k ≡ none
      → table (dns.delete payload w).1 k ≡ none
  pub own :
      (p : Provider) (dns : DnsProvider W)
      → key_of p.meta ≡ name
      → ready_provider cache p ≡ some dns
      → Empties dns table

-- The status is of the provider that we look at, and has the ID.
abbrev pub has : NamespacedName → String → RecordProviderStatus → Bool
has name id s = equal s.named name && s.record_id == id

-- A write leaves what we look for, unless it was in the status that was written over.
pub any-write :
    (P : RecordProviderStatus → Bool) (n : NamespacedName) (new : RecordProviderStatus)
    (ss : List RecordProviderStatus)
    → any P ss ≡ true
    → (any P (write n new ss) ≡ true)
      ⊎ ((s : RecordProviderStatus) × (find_provider_status ss n ≡ some s) × (P s ≡ true))
unfolding write find_provider_status
any-write P n new [] h = cc
any-write P n new (s ∷ ss) h = elim (Bool-cases (equal s.named n)) [
  | inl same ↦ elim (Bool-cases (P s)) [
    | inl holds ↦ inr (s, ground (arith, same), holds)
    | inr not_here ↦ inl (ground (arith, same, not_here))
  ]
  | inr other ↦ elim (Bool-cases (P s)) [
    | inl holds ↦ inl (ground (arith, other, holds))
    | inr not_here ↦ elim (any-write P n new ss (ground (arith, not_here))) [
      | inl stays ↦ inl (ground (arith, other, stays))
      | inr (x, found, holds) ↦ inr (x, ground (arith, other, found), holds)
    ]
  ]
]

-- What is written stands in the list.
pub any-written :
    (P : RecordProviderStatus → Bool) (n : NamespacedName) (new s : RecordProviderStatus)
    (ss : List RecordProviderStatus)
    → find_provider_status ss n ≡ some s
    → P new ≡ true
    → any P (write n new ss) ≡ true
unfolding write find_provider_status
any-written P n new s [] h p = cc
any-written P n new s (x ∷ ss) h p = ground (arith, any-written P n new s ss)

pub find-enlist :
    (n : NamespacedName) (ss : List RecordProviderStatus)
    → find_provider_status (enlist n ss) n ≡ some (current n ss)
unfolding enlist current
find-enlist n ss = ground (arith, find-append ss (fresh n) n, equal_refl n)

pub any-enlist :
    (P : RecordProviderStatus → Bool) (n : NamespacedName) (ss : List RecordProviderStatus)
    → any P ss ≡ true
    → any P (enlist n ss) ≡ true
unfolding enlist
any-enlist P n ss h = ground (arith, any-append P ss (fresh n ∷ []), h)

-- A status that has the ID survives the write of a round, or is the one that the round looks at.
pub written_over :
    (name : NamespacedName) (id : String) (n : NamespacedName) (ss : List RecordProviderStatus)
    (new : RecordProviderStatus)
    → any (has name id) ss ≡ true
    → (any (has name id) (write n new (enlist n ss)) ≡ true)
      ⊎ ((equal n name ≡ true) × (has name id (current n ss) ≡ true))
written_over name id n ss new there =
    elim (any-write (has name id) n new (enlist n ss) (any-enlist (has name id) n ss there)) [
      | inl stays ↦ inl stays
      | inr (s, found, holds) ↦
          let both : some s ≡ some (current n ss) = sym found ∙ find-enlist n ss in
          let e : s ≡ current n ss = cc both in
          let holds' = subst (λ x. has name id x ≡ true) e holds in
          inr (ground (arith, holds', named-current n ss), holds')
    ]
