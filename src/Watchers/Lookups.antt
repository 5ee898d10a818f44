-- ===== src/Watchers/Lookups.antt =====
-- internal/controller/dns/template.go: what a template may look up. Each method notes in the status of
-- the watcher what it gives to the template. The order of a Go map is not specified; here it is that
-- of the insertions.
pub mod Laws
use kube_dns_manager.Prelude.{
  ℕ, String, Bool, true, false, ◌&&◌, ◌||◌, not, Option, none, some, List, [], ◌∷◌, ◌++◌, ◌==◌, any,
  get_elem?, lookup, insert, map, if◌then◌else◌,
}
use kube_dns_manager.Effects.{Error, nil_pointer, index_out_of_range, Result, ok, err, Exec}
use kube_dns_manager.Api.Meta.{NamespacedName, ObjectMeta}
use kube_dns_manager.Api.Record.{Record}
use kube_dns_manager.Api.Watcher.{ResourceWatcherStatus, add_resource}

abbrev pub kind_namespace : String
kind_namespace = "Namespace"

abbrev pub kind_ingress : String
kind_ingress = "Ingress"

abbrev pub kind_service : String
kind_service = "Service"

abbrev pub kind_endpoints : String
kind_endpoints = "Endpoints"

abbrev pub kind_node : String
kind_node = "Node"

abbrev pub kind_pod : String
kind_pod = "Pod"

abbrev pub kind_record : String
kind_record = "Record"

-- netv1.Ingress: of each rule the paths, none where HTTP is nil, and of each path the name of the
-- service behind it, none where that is nil.
pub record Ingress : Type 0 where
  pub meta : ObjectMeta
  pub rules : List (Option (List (Option String)))

-- corev1.ObjectReference
pub record Target : Type 0 where
  pub kind : String
  pub uid : String
  pub name : String

-- corev1.EndpointAddress
pub record Address : Type 0 where
  pub node_name : Option String
  pub target : Option Target

pub record Endpoints : Type 0 where
  pub meta : ObjectMeta
  pub subsets : List (List Address)

pub record NodeCondition : Type 0 where
  pub type : String
  pub status : String

pub record Node : Type 0 where
  pub meta : ObjectMeta
  pub conditions : List NodeCondition

pub record Pod : Type 0 where
  pub meta : ObjectMeta
  pub node_name : String

-- client.Get of the kinds that a template reaches.
pub record LookupClient (W : Type 0) : Type 0 where
  pub get_namespace : String → Exec W ObjectMeta
  pub get_service : NamespacedName → Exec W ObjectMeta
  pub get_endpoints : NamespacedName → Exec W Endpoints
  pub get_node : String → Exec W Node
  pub get_pod : NamespacedName → Exec W Pod

-- A method: it may fail, and it changes the status and the world.
abbrev pub Lookup : Type 0 → Type 0 → Type 0
Lookup W A = ResourceWatcherStatus → W → (Result A × ResourceWatcherStatus) × W

abbrev pub noted : String → ObjectMeta → ResourceWatcherStatus → ResourceWatcherStatus
noted kind m s = add_resource s kind m.namespace m.name

-- The loop that notes what was found.
unfoldable pub note_all : String → List ObjectMeta → ResourceWatcherStatus → ResourceWatcherStatus
note_all kind [] s = s
note_all kind (m ∷ ms) s = note_all kind ms (noted kind m s)

-- IngressTemplateData.Ingress
unfoldable pub ingress : Ingress → ResourceWatcherStatus → Ingress × ResourceWatcherStatus
ingress i s = (i, noted kind_ingress i.meta s)

-- RecordTemplateData.Record
unfoldable pub record_ : Record → ResourceWatcherStatus → Record × ResourceWatcherStatus
record_ r s = (r, noted kind_record r.meta s)

-- NodeData.Ready
unfoldable pub ready : Node → Bool
ready n = any (λ c. c.type == "Ready" && c.status == "True") n.conditions

-- The name of the service behind a path of a rule; the index expressions and the pointers may panic,
-- which the execution of the template turns into its error.
unfoldable pub backend : Ingress → ℕ → ℕ → Result String
backend i rule path = elim (get_elem? i.rules rule) [
  | none ↦ err index_out_of_range
  | some http ↦ elim http [
    | none ↦ err nil_pointer
    | some paths ↦ elim (get_elem? paths path) [
      | none ↦ err index_out_of_range
      | some service ↦ elim service [ none ↦ err nil_pointer | some name ↦ ok name ]
    ]
  ]
]

-- The addresses of all subsets, in the order of the nested loops.
abbrev pub addresses : List (List Address) → List Address
addresses [] = []
addresses (s ∷ ss) = s ++ addresses ss

module _ {W : Type 0} (c : LookupClient W) where
  -- TemplateData.GetNamespace, for the namespace of the watcher.
  unfoldable pub get_namespace : String → Lookup W ObjectMeta
  get_namespace name s w =
      let (got, w') = c.get_namespace name w in
      elim got [ err e ↦ ((err e, s), w') | ok ns ↦ ((ok ns, noted kind_namespace ns s), w') ]

  -- IngressData.Service
  unfoldable pub service : Ingress → ℕ → ℕ → Lookup W ObjectMeta
  service i rule path s w = elim (backend i rule path) [
    | err e ↦ ((err e, s), w)
    | ok name ↦
        let (got, w') = c.get_service (record { name = name; namespace = i.meta.namespace }) w in
        elim got [
          | err e ↦ ((err e, s), w')
          | ok svc ↦ ((ok svc, add_resource s kind_service i.meta.namespace name), w')
        ]
  ]

  -- ServiceData.Endpoints
  unfoldable pub endpoints : ObjectMeta → Lookup W Endpoints
  endpoints svc s w =
      let (got, w') = c.get_endpoints (record { name = svc.name; namespace = svc.namespace }) w in
      elim got [ err e ↦ ((err e, s), w') | ok e ↦ ((ok e, noted kind_endpoints e.meta s), w') ]

  -- The nodes of the addresses, each looked up once.
  unfoldable pub find_nodes : List Address → List (String × Node) → Exec W (List (String × Node))
  find_nodes [] found w = (ok found, w)
  find_nodes (a ∷ more) found w = elim a.node_name [
    | none ↦ find_nodes more found w
    | some name ↦ elim (lookup name found) [
      | some _ ↦ find_nodes more found w
      | none ↦
          let (got, w') = c.get_node name w in
          elim got [ err e ↦ (err e, w') | ok n ↦ find_nodes more (insert name n found) w' ]
    ]
  ]

  -- EndpointsData.Nodes
  unfoldable pub nodes : Endpoints → Lookup W (List Node)
  nodes e s w =
      let (got, w') = find_nodes (addresses e.subsets) [] w in
      elim got [
        | err f ↦ ((err f, s), w')
        | ok found ↦
            let ns = map (λ entry. entry.1) found in
            ((ok ns, note_all kind_node (map (λ n. n.meta) ns) s), w')
      ]

  -- The pods of the addresses, each looked up once.
  unfoldable pub find_pods :
      String → List Address → List (String × Pod) → Exec W (List (String × Pod))
  find_pods namespace [] found w = (ok found, w)
  find_pods namespace (a ∷ more) found w = elim a.target [
    | none ↦ find_pods namespace more found w
    | some t ↦
        let skipped = find_pods namespace more found w in
        if not (t.kind == "Pod") then skipped else elim (lookup t.uid found) [
          | some _ ↦ skipped
          | none ↦
              let (got, w') = c.get_pod (record { name = t.name; namespace = namespace }) w in
              elim got [
                | err e ↦ (err e, w')
                | ok p ↦ find_pods namespace more (insert t.uid p found) w'
              ]
        ]
  ]

  -- EndpointsData.Pods
  unfoldable pub pods : Endpoints → Lookup W (List Pod)
  pods e s w =
      let (got, w') = find_pods e.meta.namespace (addresses e.subsets) [] w in
      elim got [
        | err f ↦ ((err f, s), w')
        | ok found ↦
            let ps = map (λ entry. entry.1) found in
            ((ok ps, note_all kind_pod (map (λ p. p.meta) ps) s), w')
      ]

  -- PodData.Node: none where the pod has no node yet.
  unfoldable pub node : Pod → Lookup W (Option Node)
  node p s w =
      if p.node_name == ""
      then ((ok none, s), w)
      else (let (got, w') = c.get_node p.node_name w in
          elim got [
            | err e ↦ ((err e, s), w')
            | ok n ↦ ((ok (some n), noted kind_node n.meta s), w')
          ])
