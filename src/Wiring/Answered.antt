-- ===== src/Wiring/Answered.antt =====
-- The kinds of what a template looks up, and those that the watcher controller is registered for.
use kube_dns_manager.Prelude.{
  ℕ, String, ◌≡◌, refl, subst, Bool, true, false, ◌&&◌, List, [], ◌∷◌, ◌==◌, any, map, All,
  All-append, arith, Bool-cases, inl, inr,
}
use kube_dns_manager.Effects.{Result-cases}
use kube_dns_manager.Api.Meta.{ObjectMeta}
use kube_dns_manager.Api.Record.{Record}
use kube_dns_manager.Api.Watcher.{ResourceWatcherStatus, same_resource, add_resource}
use kube_dns_manager.Watchers.Lookups.{
  LookupClient, Ingress, Endpoints, Pod, noted, note_all, ingress, record_, get_namespace, service,
  endpoints, nodes, pods, node, backend, addresses, find_nodes, find_pods, kind_namespace,
  kind_ingress, kind_service, kind_endpoints, kind_node, kind_pod, kind_record,
}
use kube_dns_manager.Wiring.{watcher_resources, generator_resources, provider_events, Watch}
use kube_dns_manager.Wiring.Setup.{watcher_controller}

-- The watch answers events of that kind by waking the watchers that noted the object.
abbrev pub answers : String → Watch → Bool
answers kind x = x.kind == kind && elim x.response [
  | watcher_resources k ↦ k == kind
  | generator_resources _ _ ↦ false
  | provider_events ↦ false
]

-- The watcher controller answers events of that kind.
abbrev pub answered : String → Bool
answered kind = any (answers kind) watcher_controller.watches

abbrev pub NotesAnswered : ResourceWatcherStatus → Type 0
NotesAnswered s = All (λ r. answered r.kind ≡ true) s.resources

pub add_resource-answered :
    (s : ResourceWatcherStatus) (kind namespace name : String)
    → answered kind ≡ true
    → NotesAnswered s
    → NotesAnswered (add_resource s kind namespace name)
unfolding add_resource
add_resource-answered s kind namespace name h hs =
    elim (Bool-cases (any (same_resource kind namespace name) s.resources)) [
      | inl there ↦ rw there hs
      | inr absent ↦ rw absent (All-append _ s.resources _ hs (h, tt))
    ]

note_all-answered :
    (kind : String) (ms : List ObjectMeta) (s : ResourceWatcherStatus)
    → answered kind ≡ true
    → NotesAnswered s
    → NotesAnswered (note_all kind ms s)
unfolding note_all
note_all-answered kind [] s h hs = hs
note_all-answered kind (m ∷ ms) s h hs =
    note_all-answered kind ms (noted kind m s) h
      (add_resource-answered s kind m.namespace m.name h hs)

pub carry :
    (before after : ResourceWatcherStatus)
    → before ≡ after
    → NotesAnswered before
    → NotesAnswered after
carry before after e h = subst NotesAnswered e h

-- A call that a template makes.
pub data Call : Type 0 where
  of_namespace : String → Call
  of_ingress : Ingress → Call
  of_record : Record → Call
  of_service : Ingress → ℕ → ℕ → Call
  of_endpoints : ObjectMeta → Call
  of_nodes of_pods : Endpoints → Call
  of_node : Pod → Call

module _ {W : Type 0} (c : LookupClient W) where
  -- The status and the world after a call; what it gives to the template is left out.
  abbrev pub perform : Call → ResourceWatcherStatus → W → ResourceWatcherStatus × W
  perform (of_namespace name) s w = let (got, w') = get_namespace c name s w in (got.1, w')
  perform (of_ingress i) s w = ((ingress i s).1, w)
  perform (of_record r) s w = ((record_ r s).1, w)
  perform (of_service i rule path) s w = let (got, w') = service c i rule path s w in (got.1, w')
  perform (of_endpoints svc) s w = let (got, w') = endpoints c svc s w in (got.1, w')
  perform (of_nodes e) s w = let (got, w') = nodes c e s w in (got.1, w')
  perform (of_pods e) s w = let (got, w') = pods c e s w in (got.1, w')
  perform (of_node p) s w = let (got, w') = node c p s w in (got.1, w')

  abbrev pub perform_all : List Call → ResourceWatcherStatus → W → ResourceWatcherStatus × W
  perform_all [] s w = (s, w)
  perform_all (call ∷ calls) s w = let (s', w') = perform call s w in perform_all calls s' w'

  -- A call leaves the status as it was, or notes what it found.
  service-answered :
      (i : Ingress) (rule path : ℕ) (s : ResourceWatcherStatus) (w : W)
      → NotesAnswered s
      → NotesAnswered (service c i rule path s w).0.1
  unfolding service watcher_controller
  service-answered i rule path s w h = elim (Result-cases (backend i rule path)) [
    | inr (e, none_there) ↦ carry s (service c i rule path s w).0.1 (ground (arith, none_there)) h
    | inl (name, found) ↦
        elim (Result-cases
          (c.get_service (record { name = name; namespace = i.meta.namespace }) w).0) [
            | inr (e, failed) ↦
                carry s (service c i rule path s w).0.1 (ground (arith, found, failed)) h
            | inl (svc, got) ↦
                carry (add_resource s kind_service i.meta.namespace name)
                  (service c i rule path s w).0.1 (ground (arith, found, got))
                  (add_resource-answered s kind_service i.meta.namespace name refl h)
          ]
  ]

  perform-answered :
      (call : Call) (s : ResourceWatcherStatus) (w : W)
      → NotesAnswered s
      → NotesAnswered (perform call s w).0
  unfolding get_namespace service endpoints nodes pods node ingress record_ watcher_controller
  perform-answered (of_namespace name) s w h = elim (Result-cases (c.get_namespace name w).0) [
    | inr (e, failed) ↦ carry s (perform (of_namespace name) s w).0 (ground (arith, failed)) h
    | inl (ns, got) ↦
        carry (noted kind_namespace ns s) (perform (of_namespace name) s w).0 (ground (arith, got))
          (add_resource-answered s kind_namespace ns.namespace ns.name refl h)
  ]
  perform-answered (of_ingress i) s w h =
      add_resource-answered s kind_ingress i.meta.namespace i.meta.name refl h
  perform-answered (of_record r) s w h =
      add_resource-answered s kind_record r.meta.namespace r.meta.name refl h
  perform-answered (of_service i rule path) s w h = service-answered i rule path s w h
  perform-answered (of_endpoints svc) s w h =
      elim (Result-cases
        (c.get_endpoints (record { name = svc.name; namespace = svc.namespace }) w).0) [
          | inr (e, failed) ↦ carry s (perform (of_endpoints svc) s w).0 (ground (arith, failed)) h
          | inl (e, got) ↦
              carry (noted kind_endpoints e.meta s) (perform (of_endpoints svc) s w).0
                (ground (arith, got))
                (add_resource-answered s kind_endpoints e.meta.namespace e.meta.name refl h)
        ]
  perform-answered (of_nodes e) s w h =
      elim (Result-cases (find_nodes c (addresses e.subsets) [] w).0) [
        | inr (f, failed) ↦ carry s (perform (of_nodes e) s w).0 (ground (arith, failed)) h
        | inl (found, got) ↦
            carry (note_all kind_node (map (λ n. n.meta) (map (λ entry. entry.1) found)) s)
              (perform (of_nodes e) s w).0 (ground (arith, got))
              (note_all-answered kind_node (map (λ n. n.meta) (map (λ entry. entry.1) found)) s refl
                h)
      ]
  perform-answered (of_pods e) s w h =
      elim (Result-cases (find_pods c e.meta.namespace (addresses e.subsets) [] w).0) [
        | inr (f, failed) ↦ carry s (perform (of_pods e) s w).0 (ground (arith, failed)) h
        | inl (found, got) ↦
            carry (note_all kind_pod (map (λ p. p.meta) (map (λ entry. entry.1) found)) s)
              (perform (of_pods e) s w).0 (ground (arith, got))
              (note_all-answered kind_pod (map (λ p. p.meta) (map (λ entry. entry.1) found)) s refl
                h)
      ]
  perform-answered (of_node p) s w h = elim (Bool-cases (p.node_name == "")) [
    | inl unscheduled ↦ carry s (perform (of_node p) s w).0 (ground (arith, unscheduled)) h
    | inr placed ↦ elim (Result-cases (c.get_node p.node_name w).0) [
      | inr (e, failed) ↦ carry s (perform (of_node p) s w).0 (ground (arith, placed, failed)) h
      | inl (n, got) ↦
          carry (noted kind_node n.meta s) (perform (of_node p) s w).0 (ground (arith, placed, got))
            (add_resource-answered s kind_node n.meta.namespace n.meta.name refl h)
    ]
  ]

  pub perform_all-answered :
      (calls : List Call) (s : ResourceWatcherStatus) (w : W)
      → NotesAnswered s
      → NotesAnswered (perform_all calls s w).0
  perform_all-answered [] s w h = h
  perform_all-answered (call ∷ calls) s w h =
      perform_all-answered calls (perform call s w).0 (perform call s w).1
        (perform-answered call s w h)
