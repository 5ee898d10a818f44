-- ===== src/Watchers/Leaves.antt =====
-- What a run of the watcher reconciler leaves at the server: store of
-- internal/controller/dns/resourcewatcher_controller.go, both of its loops, over a server that does
-- what the Kubernetes API documents of create, update and delete.
use Prim.Native.String.{◌++◌ as append}
use kube_dns_manager.Prelude.{
  String, ◌≡◌, sym, ap, ◌∙◌, subst, Bool, true, false, not, ◌&&◌, ◌||◌, none, List, [], ◌∷◌, ◌==◌,
  any, is_some, arith, eq_iff, eq_refl, Option-cases, Bool-cases, inl, inr,
}
use kube_dns_manager.Effects.{Result-cases, ok, continue-eq-ok}
use kube_dns_manager.Api.Record.{Record, get}
use kube_dns_manager.Api.Watcher.{ResourceWatcher, ResourceWatcherStatus}
use kube_dns_manager.Watchers.Client.{WatcherCluster, TemplateData, Engine, Decoder}
use kube_dns_manager.Watchers.{write, modified, owned, updated, seen, sync, sync_all, sweep}
use kube_dns_manager.Watchers.Parse.{parse}
use kube_dns_manager.Watchers.Run.{store, apply, render}
use kube_dns_manager.Watchers.Sync.{checked_in, get-named, sync-Marks, sync_all-Marks}
use kube_dns_manager.Watchers.Server.{
  Serves, Listed, unmarked, write-Listed, unmarked-get, absorbed,
}

module _ {W : Type 0} (c : WatcherCluster W) (has : W → String → String → Bool) where
  has-modified :
      (watcher : ResourceWatcher) (old_version : String) (r : Record) (w : W) (namespace n : String)
      → Serves c has
      → has (modified c watcher old_version r w) namespace n ≡ has w namespace n
  has-modified watcher old_version r w namespace n serves =
      elim (Bool-cases (old_version == r.meta.resource_version)) [
        | inl same ↦ rw same
        | inr other ↦ rw other (
            serves.noted r.meta "Normal" "Modify"
              (append "Record modified by ResourceWatcher " watcher.meta.name) w namespace n)
      ]

  -- A round leaves a list of the namespace, and adds its record to the server.
  abbrev Synced : String → String → List Record → List Record → W → W → String → Type 0
  Synced namespace name rs rs' w w' n =
      Listed namespace rs
      → (is_some (get rs namespace n) ≡ true → has w namespace n ≡ true)
      → Listed namespace rs' × (has w' namespace n ≡ (name == n || has w namespace n))

  round_placed :
      (watcher : ResourceWatcher) (r : Record) (rs rs' : List Record) (w w' : W) (n : String)
      → Serves c has
      → sync c watcher r rs w ≡ (ok rs', w')
      → Synced (owned c watcher r).meta.namespace (owned c watcher r).meta.name rs rs' w w' n
  unfolding sync
  round_placed watcher r rs rs' w w' n serves h listed known =
      let placed = owned c watcher r in
      elim (Option-cases (get rs placed.meta.namespace placed.meta.name)) [
        | inl absent ↦ elim (Result-cases (c.create_record placed w).0) [
          | inr (e, failed) ↦ absurd (ground (arith, absent, failed))
          | inl (saved, made) ↦
              let same : rs ≡ rs' = ground (arith, absent, made, h) in
              let state : modified c watcher "" saved (c.create_record placed w).1 ≡ w' =
                ground (arith, absent, made, h) in
              (
                subst (Listed placed.meta.namespace) same listed,
                ap (λ v. has v placed.meta.namespace n) (sym state)
                    ∙ has-modified watcher "" saved (c.create_record placed w).1
                        placed.meta.namespace n serves
                    ∙ serves.created placed saved w placed.meta.namespace n made
                    ∙ ground (arith, eq_refl placed.meta.namespace),
              )
        ]
        | inr (old, found) ↦ elim (Result-cases (c.update_record (updated c old placed) w).0) [
          | inr (e, failed) ↦ absurd (ground (arith, found, failed))
          | inl (saved, made) ↦
              let after = (c.update_record (updated c old placed) w).1 in
              let (its_namespace, its_name) =
                get-named placed.meta.namespace placed.meta.name rs old found in
              let same : write placed.meta.namespace placed.meta.name (seen c saved) rs ≡ rs' =
                ground (arith, found, made) in
              let state : modified c watcher old.meta.resource_version saved after ≡ w' =
                ground (arith, found, made) in
              let names = serves.names in
              let here : (placed.meta.name == n) ≡ true → has w placed.meta.namespace n ≡ true =
                λ e. known (
                  ap (λ m. is_some (get rs placed.meta.namespace m))
                    (sym ((eq_iff placed.meta.name n).0 e))
                  ∙ ap is_some found) in
              (
                subst (Listed placed.meta.namespace) same (
                    write-Listed placed.meta.namespace placed.meta.name (seen c saved) rs
                      (names.saved_namespace (updated c old placed) saved w made ∙ its_namespace)
                      (names.saved_name (updated c old placed) saved w made ∙ its_name) listed),
                ap (λ v. has v placed.meta.namespace n) (sym state)
                    ∙ has-modified watcher old.meta.resource_version saved after
                        placed.meta.namespace n serves
                    ∙ serves.saved (updated c old placed) saved w placed.meta.namespace n made
                    ∙ absorbed (placed.meta.name == n) (has w placed.meta.namespace n) here,
              )
        ]
      ]

  sync-Synced :
      (watcher : ResourceWatcher) (r : Record) (rs rs' : List Record) (w w' : W) (n : String)
      → Serves c has
      → sync c watcher r rs w ≡ (ok rs', w')
      → Synced watcher.meta.namespace r.meta.name rs rs' w w' n
  sync-Synced watcher r rs rs' w w' n serves h =
      let placed = owned c watcher r in
      let base = record r { meta = record r.meta { namespace = watcher.meta.namespace } } in
      subst (λ m. Synced watcher.meta.namespace m rs rs' w w' n)
        (serves.names.owned_name watcher base)
        (subst (λ m. Synced m placed.meta.name rs rs' w w' n)
          (serves.names.owned_namespace watcher base)
          (round_placed watcher r rs rs' w w' n serves h))

  sync_all-has :
      (watcher : ResourceWatcher) (parsed rs rs' : List Record) (w w' : W) (n : String)
      → Serves c has
      → sync_all c watcher parsed rs w ≡ (ok rs', w')
      → Listed watcher.meta.namespace rs
      → (is_some (get rs watcher.meta.namespace n) ≡ true → has w watcher.meta.namespace n ≡ true)
      → Listed watcher.meta.namespace rs'
        × (has w' watcher.meta.namespace n
            ≡ (any (λ r. r.meta.name == n) parsed || has w watcher.meta.namespace n))
  unfolding sync_all
  sync_all-has watcher [] rs rs' w w' n serves h listed known =
      (subst (Listed watcher.meta.namespace) (ground (arith, h)) listed, ground (arith, h))
  sync_all-has watcher (r ∷ parsed) rs rs' w w' n serves h listed known =
      let (mid, w1, first, rest) =
        continue-eq-ok (sync c watcher r rs w) (sync_all c watcher parsed) h in
      let (same_names, marks) = sync-Marks c watcher r rs mid w w1 n serves.names first in
      let (listed', step) = sync-Synced watcher r rs mid w w1 n serves first listed known in
      let (listed'', later) =
        sync_all-has watcher parsed mid rs' w1 w' n serves rest listed'
          (λ there. ground (arith, step, known, same_names, there)) in
      (listed'', later ∙ ground (arith, step))

  sweep-has :
      (namespace : String) (rs : List Record) (w w' : W) (n : String)
      → Serves c has
      → Listed namespace rs
      → sweep c rs w ≡ (ok tt, w')
      → has w' namespace n ≡ (not (unmarked n rs) && has w namespace n)
  unfolding sweep
  sweep-has namespace [] w w' n serves listed h = ground (arith, h)
  sweep-has namespace (r ∷ rs) w w' n serves (here, alone, rest) h =
      elim (Bool-cases r.status.checked) [
        | inl marked ↦
            let step = sweep-has namespace rs w w' n serves rest (ground (arith, marked, h)) in
            ground (arith, marked, step)
        | inr unseen ↦ elim (Result-cases (c.delete_record r w).0) [
          | inr (e, failed) ↦ absurd (ground (arith, unseen, failed))
          | inl (u, gone) ↦
              let step =
                sweep-has namespace rs (c.delete_record r w).1 w' n serves rest
                  (ground (arith, unseen, gone)) in
              let taken = serves.deleted r w namespace n gone in
              ground (arith, unseen, step, taken, here, eq_refl namespace)
        ]
      ]

store_leaves :
    {T W : Type 0} (c : WatcherCluster W) (engine : Engine T W) (decoder : Decoder)
    (has : W → String → String → Bool) (watcher : ResourceWatcher) (parsed records : List Record)
    (status : ResourceWatcherStatus) (w : W) (n : String)
    → Serves c has
    → Listed watcher.meta.namespace records
    → checked_in records watcher.meta.namespace n ≡ false
    → has w watcher.meta.namespace n ≡ is_some (get records watcher.meta.namespace n)
    → (store c engine decoder watcher parsed records status w).0.failure ≡ none
    → has (store c engine decoder watcher parsed records status w).1 watcher.meta.namespace n
      ≡ any (λ r. r.meta.name == n) parsed
unfolding store
store_leaves c engine decoder has watcher parsed records status w n serves listed fresh known h =
    elim (Result-cases (sync_all c watcher parsed records w).0) [
      | inr (e, failed) ↦ absurd (ground (arith, failed))
      | inl (rs, synced) ↦
          let w1 = (sync_all c watcher parsed records w).1 in
          let run : sync_all c watcher parsed records w ≡ (ok rs, w1) = ground (arith, synced) in
          elim (Result-cases (sweep c rs w1).0) [
            | inr (e, failed) ↦ absurd (ground (arith, synced, failed))
            | inl (u, swept) ↦
                let w2 = (sweep c rs w1).1 in
                let (there, marks) =
                  sync_all-Marks c watcher parsed records rs w w1 n serves.names run in
                let (listed', added) =
                  sync_all-has c has watcher parsed records rs w w1 n serves run listed
                    (λ e. known ∙ e) in
                let left =
                  sweep-has c has watcher.meta.namespace rs w1 w2 n serves listed'
                    (ground (arith, swept)) in
                let stale = unmarked-get watcher.meta.namespace n rs listed' in
                ground (arith, synced, swept, there, marks, added, left, stale, fresh, known)
          ]
    ]

-- Where the run over the listed records, which are those that the server has in the watcher's
-- namespace, no two of one name and none marked, ends without a failure, the template was rendered
-- to some records, and the server has a record of a name exactly if one of those has the name. It is
-- for a server that creates, updates and deletes as it is told, and a template that does not change
-- what records the server has.
pub apply_leaves :
    {T W : Type 0} (c : WatcherCluster W) (engine : Engine T W) (decoder : Decoder)
    (has : W → String → String → Bool) (watcher : ResourceWatcher) (key : String)
    (data_ : TemplateData) (records : List Record) (status : ResourceWatcherStatus) (templates : T)
    (w : W)
    → Serves c has
    → Listed watcher.meta.namespace records
    → ((n : String) → checked_in records watcher.meta.namespace n ≡ false)
    → ((n : String)
        → has w watcher.meta.namespace n ≡ is_some (get records watcher.meta.namespace n))
    → ((n : String)
        → has (engine.execute key data_ templates status w).1 watcher.meta.namespace n
          ≡ has w watcher.meta.namespace n)
    → (apply c engine decoder watcher key data_ records status templates w).0.failure ≡ none
    → (parsed : List Record) × ((render c engine decoder key data_ templates status w).0.0
        ≡ ok parsed)
      × ((n : String)
          → has
              (apply c engine decoder watcher key data_ records status templates w).1
              watcher.meta.namespace
              n
            ≡ any (λ r. r.meta.name == n) parsed)
unfolding apply render
apply_leaves c engine decoder has watcher key data_ records status templates w serves listed fresh
      known reads h =
    let ran = engine.execute key data_ templates status w in
    elim (Result-cases ran.0.0) [
      | inr (e, failed) ↦ absurd (ground (arith, failed))
      | inl (text, executed) ↦ elim (Result-cases (parse decoder text)) [
        | inr (e, failed) ↦ absurd (ground (arith, executed, failed))
        | inl (parsed, read) ↦ (
          parsed,
          ground (arith, executed, read),
          λ n.
              let leaves =
                store_leaves c engine decoder has watcher parsed records ran.0.1 ran.1 n serves
                  listed (fresh n) (reads n ∙ known n) (ground (arith, executed, read)) in
              ground (arith, executed, read, leaves),
        )
      ]
    ]
