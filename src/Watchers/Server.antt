-- ===== src/Watchers/Server.antt =====
-- The API server, seen from the watcher reconciler: what records it has, and lists of records.
use kube_dns_manager.Prelude.{
  String, ◌≡◌, refl, sym, ap, ◌∙◌, Bool, true, false, not, ◌&&◌, ◌||◌, none, List, [], ◌∷◌, ◌==◌,
  any, is_some, arith, eq_iff, eq_refl, Bool-cases, inl, inr,
}
use kube_dns_manager.Effects.{ok}
use kube_dns_manager.Api.Record.{Record, get}
use kube_dns_manager.Api.Meta.{ObjectMeta}
use kube_dns_manager.Watchers.Client.{WatcherCluster}
use kube_dns_manager.Watchers.{write}
use kube_dns_manager.Watchers.Sync.{KeepsNames, checked_in}

abbrev pub stands_at : Record → String → String → Bool
stands_at r namespace name = r.meta.namespace == namespace && r.meta.name == name

-- The server has records under names, apart from those that are being deleted: a create adds one, a
-- delete takes one away, an update and an event change nothing of it.
pub record Serves {W : Type 0} (c : WatcherCluster W) (has : W → String → String → Bool)
    : Type 0 where
  pub names : KeepsNames c
  pub created :
      (r saved : Record) (w : W) (namespace name : String)
      → (c.create_record r w).0 ≡ ok saved
      → has (c.create_record r w).1 namespace name
        ≡ (stands_at r namespace name || has w namespace name)
  pub saved :
      (r saved : Record) (w : W) (namespace name : String)
      → (c.update_record r w).0 ≡ ok saved
      → has (c.update_record r w).1 namespace name ≡ has w namespace name
  pub deleted :
      (r : Record) (w : W) (namespace name : String)
      → (c.delete_record r w).0 ≡ ok tt
      → has (c.delete_record r w).1 namespace name
        ≡ (not (stands_at r namespace name) && has w namespace name)
  pub noted :
      (meta : ObjectMeta) (type reason message : String) (w : W) (namespace name : String)
      → has (c.event meta type reason message w) namespace name ≡ has w namespace name

-- The records of one namespace, no two of one name.
abbrev pub Listed : String → List Record → Type 0
Listed namespace [] = Unit {0}
Listed namespace (r ∷ rs) =
    (r.meta.namespace ≡ namespace) × (get rs namespace r.meta.name ≡ none) × Listed namespace rs

abbrev pub unmarked : String → List Record → Bool
unmarked n rs = any (λ r. not r.status.checked && r.meta.name == n) rs

pub get-write_keeps_none :
    (namespace name n : String) (new : Record) (rs : List Record)
    → new.meta.name ≡ name
    → get rs namespace n ≡ none
    → get (write namespace name new rs) namespace n ≡ none
unfolding get write
get-write_keeps_none namespace name n new [] e h = refl
get-write_keeps_none namespace name n new (r ∷ rs) e h = ground (
  arith,
  get-write_keeps_none namespace name n new rs e,
  eq_iff r.meta.namespace namespace,
  eq_iff new.meta.name n,
  eq_iff r.meta.name name,
  eq_iff r.meta.name n,
)

pub write-Listed :
    (namespace name : String) (new : Record) (rs : List Record)
    → new.meta.namespace ≡ namespace
    → new.meta.name ≡ name
    → Listed namespace rs
    → Listed namespace (write namespace name new rs)
unfolding write
write-Listed namespace name new [] e f h = tt
write-Listed namespace name new (r ∷ rs) e f (here, alone, rest) =
    elim (Bool-cases (r.meta.namespace == namespace && r.meta.name == name)) [
      | inl same ↦
          let its : name ≡ r.meta.name = ground (arith, same, eq_iff r.meta.name name) in
          let kept : get rs namespace new.meta.name ≡ none =
            ap (get rs namespace) (f ∙ its) ∙ alone in
          rw same (e, kept, rest)
      | inr other ↦ rw other (
        here,
        get-write_keeps_none namespace name r.meta.name new rs f alone,
        write-Listed namespace name new rs e f rest,
      )
    ]

pub unmarked-get :
    (namespace n : String) (rs : List Record)
    → Listed namespace rs
    → unmarked n rs ≡ (is_some (get rs namespace n) && not (checked_in rs namespace n))
unfolding get
unmarked-get namespace n [] h = refl
unmarked-get namespace n (r ∷ rs) (here, alone, rest) =
    let step = unmarked-get namespace n rs rest in
    elim (Bool-cases (r.meta.name == n)) [
      | inl same ↦
          let gone : get rs namespace n ≡ none =
            ap (get rs namespace) (sym ((eq_iff r.meta.name n).0 same)) ∙ alone in
          ground (arith, same, gone, step, here, eq_refl namespace)
      | inr other ↦ ground (arith, other, step)
    ]

pub absorbed : (a b : Bool) → (a ≡ true → b ≡ true) → b ≡ (a || b)
absorbed true b h = h refl
absorbed false b h = refl
