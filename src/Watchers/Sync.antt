-- ===== src/Watchers/Sync.antt =====
-- Which records of a watcher stay.
use kube_dns_manager.Prelude.{
  String, ◌≡◌, refl, sym, ap, ◌∙◌, subst, Bool, true, false, ◌&&◌, ◌||◌, none, some, List, [], ◌∷◌,
  ◌==◌, any, is_some, arith, eq_iff, eq_refl, Option-cases, Bool-cases, inl, inr,
}
use kube_dns_manager.Effects.{Result-cases, ok, continue-eq-ok}
use kube_dns_manager.Api.Record.{Record, get}
use kube_dns_manager.Api.Watcher.{ResourceWatcher}
use kube_dns_manager.Watchers.Client.{WatcherCluster}
use kube_dns_manager.Watchers.{write, owned, updated, seen, sync, sync_all}

-- An update returns an object of the same name and namespace, and an owner reference changes neither.
pub record KeepsNames {W : Type 0} (c : WatcherCluster W) : Type 0 where
  pub saved_name :
      (r saved : Record) (w : W)
      → (c.update_record r w).0 ≡ ok saved
      → saved.meta.name ≡ r.meta.name
  pub saved_namespace :
      (r saved : Record) (w : W)
      → (c.update_record r w).0 ≡ ok saved
      → saved.meta.namespace ≡ r.meta.namespace
  pub owned_name :
      (watcher : ResourceWatcher) (r : Record)
      → (c.set_controller_reference watcher r).meta.name ≡ r.meta.name
  pub owned_namespace :
      (watcher : ResourceWatcher) (r : Record)
      → (c.set_controller_reference watcher r).meta.namespace ≡ r.meta.namespace

-- The record of that name was updated in this run.
abbrev pub checked_in : List Record → String → String → Bool
checked_in rs namespace name = elim (get rs namespace name) [
  | none ↦ false
  | some r ↦ r.status.checked
]

pub get-write_self :
    (namespace name : String) (new : Record) (rs : List Record)
    → new.meta.namespace ≡ namespace
    → new.meta.name ≡ name
    → is_some (get rs namespace name) ≡ true
    → get (write namespace name new rs) namespace name ≡ some new
unfolding get write
get-write_self namespace name new [] e f h = cc
get-write_self namespace name new (r ∷ rs) e f h = ground (
  arith,
  get-write_self namespace name new rs e f,
  eq_iff new.meta.namespace namespace,
  eq_iff new.meta.name name,
)

pub get-write_ne :
    (namespace name n : String) (new : Record) (rs : List Record)
    → new.meta.name ≡ name
    → (name == n) ≡ false
    → get (write namespace name new rs) namespace n ≡ get rs namespace n
unfolding get write
get-write_ne namespace name n new [] f h = refl
get-write_ne namespace name n new (r ∷ rs) f h = ground (
  arith,
  get-write_ne namespace name n new rs f,
  eq_iff new.meta.name n,
  eq_iff r.meta.name name,
  eq_iff r.meta.name n,
  eq_iff name n,
)

pub get-named :
    (namespace name : String) (rs : List Record) (r : Record)
    → get rs namespace name ≡ some r
    → (r.meta.namespace ≡ namespace) × (r.meta.name ≡ name)
unfolding get
get-named namespace name [] r h = absurd (ground (arith, h))
get-named namespace name (x ∷ rs) r h = ground (
  arith,
  get-named namespace name rs r,
  eq_iff x.meta.namespace namespace,
  eq_iff x.meta.name name,
)

-- A step keeps which names are there, and marks the record of one name, if there is one.
abbrev pub Marks : String → String → String → List Record → List Record → Type 0
Marks namespace name n rs rs' =
    (is_some (get rs' namespace n) ≡ is_some (get rs namespace n))
    × (checked_in rs' namespace n
        ≡ ((name == n && is_some (get rs namespace n)) || checked_in rs namespace n))

write-Marks :
    (namespace name n : String) (new old : Record) (rs : List Record)
    → new.meta.namespace ≡ namespace
    → new.meta.name ≡ name
    → new.status.checked ≡ true
    → get rs namespace name ≡ some old
    → Marks namespace name n rs (write namespace name new rs)
write-Marks namespace name n new old rs e f marked found = elim (Bool-cases (name == n)) [
  | inl same ↦
      let there : is_some (get rs namespace name) ≡ true = rw found in
      let self = get-write_self namespace name new rs e f there in
      subst (λ m. Marks namespace name m rs (write namespace name new rs)) ((eq_iff name n).0 same)
        (ground (arith, self, found), ground (arith, self, found, marked, eq_refl name))
  | inr other ↦
      let ne = get-write_ne namespace name n new rs f other in
      (ap is_some ne, ground (arith, ne, other))
]

absent-Marks :
    (namespace name n : String) (rs : List Record)
    → get rs namespace name ≡ none
    → Marks namespace name n rs rs
absent-Marks namespace name n rs absent = elim (Bool-cases (name == n)) [
  | inl same ↦
      subst (λ m. Marks namespace name m rs rs) ((eq_iff name n).0 same)
        (refl, ground (arith, absent))
  | inr other ↦ (refl, ground (arith, other))
]

module _ {W : Type 0} (c : WatcherCluster W) where
  sync_placed :
      (watcher : ResourceWatcher) (r : Record) (rs rs' : List Record) (w w' : W) (n : String)
      → KeepsNames c
      → sync c watcher r rs w ≡ (ok rs', w')
      → Marks (owned c watcher r).meta.namespace (owned c watcher r).meta.name n rs rs'
  unfolding sync
  sync_placed watcher r rs rs' w w' n keeps h =
      let placed = owned c watcher r in
      elim (Option-cases (get rs placed.meta.namespace placed.meta.name)) [
        | inl absent ↦ elim (Result-cases (c.create_record placed w).0) [
          | inr (e, failed) ↦ absurd (ground (arith, absent, failed))
          | inl (saved, made) ↦
              let same : rs ≡ rs' = ground (arith, absent, made) in
              subst (Marks placed.meta.namespace placed.meta.name n rs) same
                (absent-Marks placed.meta.namespace placed.meta.name n rs absent)
        ]
        | inr (old, found) ↦ elim (Result-cases (c.update_record (updated c old placed) w).0) [
          | inr (e, failed) ↦ absurd (ground (arith, found, failed))
          | inl (saved, done) ↦
              let (its_namespace, its_name) =
                get-named placed.meta.namespace placed.meta.name rs old found in
              let same : write placed.meta.namespace placed.meta.name (seen c saved) rs ≡ rs' =
                ground (arith, found, done) in
              subst (Marks placed.meta.namespace placed.meta.name n rs) same (
                write-Marks placed.meta.namespace placed.meta.name n (seen c saved) old rs
                  (keeps.saved_namespace (updated c old placed) saved w done ∙ its_namespace)
                  (keeps.saved_name (updated c old placed) saved w done ∙ its_name) refl found)
        ]
      ]

  pub sync-Marks :
      (watcher : ResourceWatcher) (r : Record) (rs rs' : List Record) (w w' : W) (n : String)
      → KeepsNames c
      → sync c watcher r rs w ≡ (ok rs', w')
      → Marks watcher.meta.namespace r.meta.name n rs rs'
  sync-Marks watcher r rs rs' w w' n keeps h =
      let placed = owned c watcher r in
      let base = record r { meta = record r.meta { namespace = watcher.meta.namespace } } in
      subst (λ m. Marks watcher.meta.namespace m n rs rs') (keeps.owned_name watcher base)
        (subst (λ m. Marks m placed.meta.name n rs rs') (keeps.owned_namespace watcher base)
          (sync_placed watcher r rs rs' w w' n keeps h))

  pub sync_all-Marks :
      (watcher : ResourceWatcher) (parsed rs rs' : List Record) (w w' : W) (n : String)
      → KeepsNames c
      → sync_all c watcher parsed rs w ≡ (ok rs', w')
      → (is_some (get rs' watcher.meta.namespace n) ≡ is_some (get rs watcher.meta.namespace n))
        × (checked_in rs' watcher.meta.namespace n ≡ (
            (any (λ r. r.meta.name == n) parsed && is_some (get rs watcher.meta.namespace n))
            || checked_in rs watcher.meta.namespace n))
  unfolding sync_all
  sync_all-Marks watcher [] rs rs' w w' n keeps h =
      let same : rs ≡ rs' = ground (arith, h) in
      (
        ap (λ l. is_some (get l watcher.meta.namespace n)) (sym same),
        ap (λ l. checked_in l watcher.meta.namespace n) (sym same),
      )
  sync_all-Marks watcher (r ∷ parsed) rs rs' w w' n keeps h =
      let (mid, w1, first, rest) =
        continue-eq-ok (sync c watcher r rs w) (sync_all c watcher parsed) h in
      let step = sync-Marks watcher r rs mid w w1 n keeps first in
      let later = sync_all-Marks watcher parsed mid rs' w1 w' n keeps rest in
      (later.0 ∙ step.0, later.1 ∙ ground (arith, step.0, step.1))
