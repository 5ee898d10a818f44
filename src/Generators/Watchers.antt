-- ===== src/Generators/Watchers.antt =====
-- The watchers of a generator: which are marked, created and deleted.
use kube_dns_manager.Prelude.{
  ◌≡◌, ◌⊎◌, refl, sym, ap, ◌∙◌, true, false, not, Option, none, some, List, [], ◌∷◌, arith, eq_iff,
  any, keep, is_some, Bool-cases, Option-cases, inl, inr, if◌then◌else◌,
}
use kube_dns_manager.Effects.{Result, ok, err, Exec, Result-cases}
use kube_dns_manager.Api.Meta.{NamespacedName, equal, equal_iff, equal_refl}
use kube_dns_manager.Api.Generator.{Generator}
use kube_dns_manager.Api.Watcher.{ResourceWatcher, get}
use kube_dns_manager.Records.Client.{Reply, done}
use kube_dns_manager.Generators.Client.{GeneratorCluster}
use kube_dns_manager.Generators.{
  write, Next, stop, go_on, store, ensure, new_watcher, get_resource, round, rounds, sweep,
}

abbrev pub marked : ResourceWatcher → ResourceWatcher
marked x = record x { status = record x.status { checked = true } }

abbrev pub mark : Option ResourceWatcher → Option ResourceWatcher
mark none = none
mark (some x) = some (marked x)

stop≢go_on : {r : Result Reply} {ws : List ResourceWatcher} → stop r ≡ go_on ws → ⊥
stop≢go_on h = cc

pub go_on-inj : {xs ys : List ResourceWatcher} → go_on xs ≡ go_on ys → xs ≡ ys
go_on-inj h = cc

equal-sym : (a b : NamespacedName) → equal a b ≡ false → equal b a ≡ false
equal-sym a b h = ground (arith, equal_iff a b, equal_iff b a)

Next-cases :
    (n : Next)
    → ((r : Result Reply) × (n ≡ stop r)) ⊎ ((ws : List ResourceWatcher) × (n ≡ go_on ws))
Next-cases (stop r) = inl (r, refl)
Next-cases (go_on ws) = inr (ws, refl)

get-equal :
    (ws : List ResourceWatcher) (ref : NamespacedName) (x : ResourceWatcher)
    → get ws ref ≡ some x
    → x.resource ≡ ref
unfolding get
get-equal [] ref x h = cc
get-equal (w ∷ ws) ref x h = ground (
  arith,
  get-equal ws ref x,
  eq_iff w.resource.name ref.name,
  eq_iff w.resource.namespace ref.namespace,
)

get-write_self :
    (ref : NamespacedName) (new : ResourceWatcher) (ws : List ResourceWatcher)
    → new.resource ≡ ref
    → is_some (get ws ref) ≡ true
    → get (write ref new ws) ref ≡ some new
unfolding get write
get-write_self ref new [] e h = cc
get-write_self ref new (w ∷ ws) e h = ground (
  arith,
  get-write_self ref new ws e,
  eq_iff new.resource.name ref.name,
  eq_iff new.resource.namespace ref.namespace,
)

get-write_ne :
    (ref n : NamespacedName) (new : ResourceWatcher) (ws : List ResourceWatcher)
    → new.resource ≡ ref
    → equal ref n ≡ false
    → get (write ref new ws) n ≡ get ws n
unfolding get write equal
get-write_ne ref n new [] e h = refl
get-write_ne ref n new (w ∷ ws) e h = ground (
  arith,
  get-write_ne ref n new ws e,
  eq_iff w.resource.name ref.name,
  eq_iff w.resource.namespace ref.namespace,
  eq_iff w.resource.name n.name,
  eq_iff w.resource.namespace n.namespace,
  eq_iff ref.name n.name,
  eq_iff ref.namespace n.namespace,
  eq_iff new.resource.name n.name,
  eq_iff new.resource.namespace n.namespace,
)

module _ {W : Type 0} (c : GeneratorCluster W) where
  -- A watcher that exists for a resource is only marked: it is neither created nor updated, and
  -- nothing is called.
  pub ensure_found :
      (g : Generator) (resource : NamespacedName) (ws : List ResourceWatcher) (w : W)
      (x : ResourceWatcher)
      → get ws resource ≡ some x
      → ensure c g resource ws w ≡ (go_on (write resource (marked x) ws), w)
  unfolding ensure store
  ensure_found g resource ws w x found =
      ground (arith, found, equal_iff x.resource resource, get-equal ws resource x found)

  store_unlisted :
      (resource : NamespacedName) (x : ResourceWatcher) (ws : List ResourceWatcher) (w : W)
      {ws' : List ResourceWatcher}
      → (store c resource false x ws w).0 ≡ go_on ws'
      → ws' ≡ ws
  unfolding store
  store_unlisted resource x ws w h = ground arith

  pub ensure_missing :
      (g : Generator) (resource : NamespacedName) (ws : List ResourceWatcher) (w : W)
      {ws' : List ResourceWatcher}
      → get ws resource ≡ none
      → (ensure c g resource ws w).0 ≡ go_on ws'
      → ws' ≡ ws
  unfolding ensure
  ensure_missing g resource ws w missing h = elim (Result-cases (new_watcher c g resource)) [
    | inr (e, bad) ↦
        let stops : ensure c g resource ws w ≡ (stop (err e), w) = rw (ensure, missing, bad) in
        absurd (stop≢go_on (sym (ap (λ r. r.0) stops) ∙ h))
    | inl (x, good) ↦
        let stores : ensure c g resource ws w ≡ store c resource false x ws w =
          rw (ensure, missing, good) in
        store_unlisted resource x ws w (sym (ap (λ r. r.0) stores) ∙ h)
  ]

  pub round_lem :
      (g : Generator) (resource : NamespacedName) (ws : List ResourceWatcher) (w : W)
      {ws' : List ResourceWatcher}
      → (round c g resource ws w).0 ≡ go_on ws'
      → (ensure c g resource ws (get_resource c g.spec.resource_kind resource w).1).0 ≡ go_on ws'
  unfolding round
  round_lem g resource ws w h = ground arith

  pub rounds_step :
      (g : Generator) (resource : NamespacedName) (refs : List NamespacedName)
      (ws : List ResourceWatcher) (w : W) {ws' : List ResourceWatcher}
      → (rounds c g (resource ∷ refs) ws w).0 ≡ go_on ws'
      → (mid : List ResourceWatcher) × ((round c g resource ws w).0 ≡ go_on mid)
        × ((rounds c g refs mid (round c g resource ws w).1).0 ≡ go_on ws')
  unfolding rounds
  rounds_step g resource refs ws w h = elim (Next-cases (round c g resource ws w).0) [
    | inl (r, stops) ↦
        let whole : rounds c g (resource ∷ refs) ws w ≡ (stop r, (round c g resource ws w).1) =
          rw (rounds, stops) in
        absurd (stop≢go_on (sym (ap (λ r. r.0) whole) ∙ h))
    | inr (mid, goes) ↦
        let whole : rounds c g (resource ∷ refs) ws w
            ≡ rounds c g refs mid (round c g resource ws w).1 =
          rw (rounds, goes) in
        (mid, goes, sym (ap (λ r. r.0) whole) ∙ h)
  ]

  -- A round marks the watcher of its resource, if there is one, and leaves all others as they are.
  round-get :
      (g : Generator) (resource : NamespacedName) (ws : List ResourceWatcher) (w : W)
      (ws' : List ResourceWatcher) (n : NamespacedName)
      → (round c g resource ws w).0 ≡ go_on ws'
      → get ws' n ≡ (if equal n resource then mark (get ws n) else get ws n)
  round-get g resource ws w ws' n h =
      let w1 = (get_resource c g.spec.resource_kind resource w).1 in
      let ensured = round_lem g resource ws w h in
      elim (Option-cases (get ws resource)) [
        | inl missing ↦
            let same : ws' ≡ ws = ensure_missing g resource ws w1 missing ensured in
            elim (Bool-cases (equal n resource)) [
              | inl named ↦ rw (same, (equal_iff n resource).0 named, equal_refl resource, missing)
              | inr other ↦ rw (same, other)
            ]
        | inr (x, found) ↦
            let same : ws' ≡ write resource (marked x) ws =
              go_on-inj (sym ensured ∙ ap (λ r. r.0) (ensure_found g resource ws w1 x found)) in
            let there : is_some (get ws resource) ≡ true = rw found in
            let owned = get-equal ws resource x found in
            elim (Bool-cases (equal n resource)) [
              | inl named ↦
                  rw (same, (equal_iff n resource).0 named, equal_refl resource, found)
                    (get-write_self resource (marked x) ws owned there)
              | inr other ↦
                  rw (same, other)
                    (get-write_ne resource n (marked x) ws owned (equal-sym n resource other))
            ]
      ]

  -- A pass over the resources that does not return early marks the watchers of those resources, once
  -- or more often, and leaves all the other watchers as they are.
  pub rounds_lem :
      (g : Generator) (refs : List NamespacedName) (ws : List ResourceWatcher) (w : W)
      {ws' : List ResourceWatcher} (n : NamespacedName)
      → (rounds c g refs ws w).0 ≡ go_on ws'
      → get ws' n ≡ (if any (equal n) refs then mark (get ws n) else get ws n)
  unfolding rounds
  rounds_lem g [] ws w n h = ap (λ v. get v n) (go_on-inj (sym h))
  rounds_lem g (resource ∷ refs) ws w n h =
      let (mid, first, rest) = rounds_step g resource refs ws w h in
      ground (
        arith,
        rounds_lem g refs mid (round c g resource ws w).1 n rest,
        round-get g resource ws w mid n first,
      )

  -- The watchers that are deleted one after the other, until a deletion fails.
  abbrev pub delete_all : List ResourceWatcher → Exec W Reply
  delete_all [] w = (ok done, w)
  delete_all (x ∷ xs) w =
      let (got, w') = c.delete_watcher x w in
      elim got [ err e ↦ (err e, w') | ok _ ↦ delete_all xs w' ]

  -- The last loop deletes the unmarked watchers in their order, and no marked one.
  pub sweep_lem :
      (ws : List ResourceWatcher) (w : W)
      → sweep c ws w ≡ delete_all (keep (λ x. not x.status.checked) ws) w
  unfolding sweep
  sweep_lem [] w = refl
  sweep_lem (x ∷ ws) w = ground (arith, sweep_lem ws w, sweep_lem ws (c.delete_watcher x w).1)
