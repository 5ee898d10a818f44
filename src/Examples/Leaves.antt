-- ===== src/Examples/Leaves.antt =====
-- A run of the watcher reconciler over a server that has two records.
use kube_dns_manager.Prelude.{
  ℕ, suc, String, ◌≡◌, refl, sym, ap, Bool, true, false, ◌&&◌, not, any, keep, none, List, [], ◌∷◌,
  ◌==◌, arith, eq_iff, is_some, if◌then◌else◌, Bool-cases, inl, inr,
}
use kube_dns_manager.Effects.{api, ok, err}
use kube_dns_manager.Api.Record.{Record, get}
use kube_dns_manager.Watchers.Client.{WatcherCluster, TemplateData, Engine, Decoder}
use kube_dns_manager.Watchers.Sync.{checked_in}
use kube_dns_manager.Watchers.{write, sync, sync_all, sweep}
use kube_dns_manager.Watchers.Parse.{parse}
use kube_dns_manager.Watchers.Run.{apply, render, store}
use kube_dns_manager.Watchers.Server.{Serves, Listed, stands_at}
use kube_dns_manager.Watchers.Leaves.{apply_leaves}
use kube_dns_manager.Examples.Fixtures.{meta_of}
use kube_dns_manager.Examples.Watchers.{watcher, record_of, decoder, listed}

abbrev has : List Record → String → String → Bool
has w namespace name = any (λ r. stands_at r namespace name) w

abbrev without : Record → List Record → List Record
without r w = keep (λ x. not (stands_at x r.meta.namespace r.meta.name)) w

-- The state of the server is its records.
abbrev server : WatcherCluster (List Record)
server = record {
  get_watcher = λ key w. (ok watcher, w);
  get_generator = λ key w. (err (api true "not found"), w);
  get_cluster_generator = λ key w. (err (api true "not found"), w);
  get_object = λ kind key w. (ok (meta_of key.name), w);
  get_template = λ key w. (err (api true "not found"), w);
  get_cluster_template = λ key w. (err (api true "not found"), w);
  list_records = λ namespace uid w. (ok w, w);
  create_record = λ r w.
      if has w r.meta.namespace r.meta.name
      then (err (api false "already exists"), w)
      else (ok r, r ∷ w);
  update_record = λ r w. (ok r, w);
  delete_record = λ r w. (ok tt, without r w);
  list_watchers = λ key w. (ok (watcher ∷ []), w);
  update_status = λ x w. (ok x, w);
  event = λ meta type reason message w. w;
  set_controller_reference = λ x r. r;
}

has-without :
    (r : Record) (w : List Record) (namespace name : String)
    → has (without r w) namespace name ≡ (not (stands_at r namespace name) && has w namespace name)
has-without r [] namespace name = ground (arith)
has-without r (x ∷ w) namespace name =
    elim (Bool-cases (stands_at x r.meta.namespace r.meta.name)) [
      | inl same ↦ ground (
        arith,
        same,
        has-without r w namespace name,
        eq_iff x.meta.namespace r.meta.namespace,
        eq_iff x.meta.name r.meta.name,
      )
      | inr other ↦ ground (
        arith,
        other,
        has-without r w namespace name,
        eq_iff x.meta.namespace r.meta.namespace,
        eq_iff x.meta.name r.meta.name,
        eq_iff x.meta.namespace namespace,
        eq_iff x.meta.name name,
        eq_iff r.meta.namespace namespace,
        eq_iff r.meta.name name,
      )
    ]

serves : Serves server has
serves = record {
  names = record {
    saved_name = λ r saved w h. let same : r ≡ saved = cc h in ap (λ x. x.meta.name) (sym same);
    saved_namespace =
        λ r saved w h. let same : r ≡ saved = cc h in ap (λ x. x.meta.namespace) (sym same);
    owned_name = λ x r. refl;
    owned_namespace = λ x r. refl;
  };
  created = λ r saved w namespace name h. elim (Bool-cases (has w r.meta.namespace r.meta.name)) [
    | inl there ↦ absurd (ground (arith, there, h))
    | inr absent ↦ ground (arith, absent)
  ];
  saved = λ r saved w namespace name h. refl;
  deleted = λ r w namespace name h. has-without r w namespace name;
  noted = λ meta type reason message w namespace name. refl;
}

abbrev parsed : List Record
parsed = record_of "www" ∷ record_of "mail" ∷ []

abbrev reads : Decoder
reads = record decoder { json_records = λ s. ok parsed }

abbrev prints : Engine ℕ (List Record)
prints = record {
  parse = λ key text t. (none, suc t);
  execute = λ key values t status w. ((ok "[]", status), w);
}

abbrev values : TemplateData
values = record { kind = "Service"; object = meta_of "web" }

is_listed : Listed "home" listed
unfolding get
is_listed = (refl, refl, (refl, refl, tt))

unmarked : (n : String) → checked_in listed "home" n ≡ false
unfolding get
unmarked n = ground (arith)

known : (n : String) → has listed "home" n ≡ is_some (get listed "home" n)
unfolding get
known n = ground (arith)

succeeds :
    (apply server prints reads watcher "Template/home/web" values listed watcher.status 0
      listed).0.failure
    ≡ none
unfolding apply render parse store sync_all sync get write sweep
succeeds = refl

apply_leaves_example :
    (found : List Record) × ((render server prints reads "Template/home/web" values 0 watcher.status
        listed).0.0
      ≡ ok found)
    × ((n : String)
        → has
            (apply server prints reads watcher "Template/home/web" values listed watcher.status 0
              listed).1
            "home"
            n
          ≡ any (λ r. r.meta.name == n) found)
apply_leaves_example =
    apply_leaves server prints reads has watcher "Template/home/web" values listed watcher.status 0
      listed serves is_listed unmarked known (λ n. refl) succeeds
