-- ===== src/Dns/Adguard.antt =====
-- internal/controller/dns/provider/adguard/adguard.go. The HTTP client, the URL of the server and the
-- JSON codec of its records are parameters.
pub mod Laws
use Prim.Native.String.{◌++◌}
use kube_dns_manager.Prelude.{
  ℕ, String, Bool, true, false, not, ◌&&◌, Option, none, some, List, ◌==◌, nat_eq, if◌then◌else◌,
}
use kube_dns_manager.Effects.{Error, plain, nil_pointer, Result, ok, err, Exec, pure, raise, ◌>>=◌}
use kube_dns_manager.Api.Record.{RecordSpec}
use kube_dns_manager.Api.Provider.{Provider, AdguardProviderConfig}
use kube_dns_manager.Dns.{Payload, Answer, DnsProvider, Factory}

pub record AdguardRecord : Type 0 where
  pub domain : String
  pub answer : String

-- json.Marshal and json.Unmarshal of an AdguardRecord.
pub record Json : Type 0 where
  pub marshal : AdguardRecord → Result String
  pub unmarshal : String → Result AdguardRecord

-- url.Parse below the URL of the server, and http.Post with the reading of the body: the status and
-- the body of the reply.
pub record Server (W : Type 0) : Type 0 where
  pub parse : String → Result String
  pub post : String → String → Exec W (ℕ × String)

-- errors.Join(ErrRequestFailed, ...)
abbrev request_failed : String → Error
request_failed body = plain ("request failed\n" ++ body)

abbrev status_ok : ℕ
status_ok = 200

module _ {W : Type 0} (json : Json) (server : Server W) where
  -- AdguardProvider.List, with http.Get and the decoding of a list as parameters.
  unfoldable pub list :
      (String → Exec W (ℕ × String))
      → (String → Result (List AdguardRecord))
      → Exec W (List AdguardRecord)
  list get decode w = elim (server.parse "control/rewrite/list") [
    | err e ↦ (err e, w)
    | ok url ↦
        let (got, w') = get url w in
        elim got [
          | err e ↦ (err e, w')
          | ok (status, reply) ↦
              (if nat_eq status status_ok then decode reply else err (request_failed reply), w')
        ]
  ]

  -- The method create at the path control/rewrite/add, and the method delete at
  -- control/rewrite/delete.
  unfoldable pub send : String → AdguardRecord → Exec W (Unit {0})
  send path r w = elim (server.parse path) [
    | err e ↦ (err e, w)
    | ok url ↦ elim (json.marshal r) [
      | err e ↦ (err e, w)
      | ok body ↦
          let (got, w') = server.post url body w in
          elim got [
            | err e ↦ (err e, w')
            | ok (status, reply) ↦
                (if nat_eq status status_ok then ok tt else err (request_failed reply), w')
          ]
    ]
  ]

  abbrev pub add_record : AdguardRecord → Exec W (Unit {0})
  add_record = send "control/rewrite/add"

  abbrev pub delete_record : AdguardRecord → Exec W (Unit {0})
  delete_record = send "control/rewrite/delete"

  abbrev pub wanted : Payload → AdguardRecord
  wanted payload = record { domain = payload.spec.name; answer = payload.spec.value }

  unfoldable pub create : Payload → W → Answer × W
  create payload w = elim (json.marshal (wanted payload)) [
    | err e ↦ (record { failure = some e; payload = payload }, w)
    | ok id ↦
        let (got, w') = add_record (wanted payload) w in
        elim got [
          | err e ↦ (record { failure = some e; payload = payload }, w')
          | ok _ ↦ (record { failure = none; payload = record payload { id = id } }, w')
        ]
  ]

  abbrev pub same_record : AdguardRecord → Payload → Bool
  same_record old payload = old.domain == payload.spec.name && old.answer == payload.spec.value

  -- The old record is read from the ID.
  unfoldable pub replace : AdguardRecord → Payload → W → Answer × W
  replace old payload w =
      if same_record old payload
      then (record { failure = none; payload = payload }, w)
      else (let (got, w') = delete_record old w in
          elim got [
            | err e ↦ (record { failure = some e; payload = payload }, w')
            | ok _ ↦ create payload w'
          ])

  unfoldable pub update : Payload → W → Answer × W
  unfolding replace
  update payload w =
      if payload.id == "" then create payload w else elim (json.unmarshal payload.id) [
        | err e ↦ (record { failure = some e; payload = payload }, w)
        | ok old ↦ replace old payload w
      ]

  unfoldable pub delete : Payload → W → Answer × W
  delete payload w =
      let (got, w') = delete_record (wanted payload) w in
      elim got [
        | err e ↦ (record { failure = some e; payload = payload }, w')
        | ok _ ↦ (record { failure = none; payload = record payload { id = ""; data_ = "" } }, w')
      ]

  abbrev pub provider : DnsProvider W
  provider = record { create = create; update = update; delete = delete }

-- The factory that init registers: from the URL, the user and the password it parses the server. A
-- missing configuration is a nil pointer.
unfoldable pub factory :
    {W : Type 0} → Json → (String → Option (String × String) → Result (Server W)) → Factory W
factory json open_url p w = elim p.spec.adguard [
  | none ↦ (err nil_pointer, w)
  | some c ↦
      let user : Option (String × String) =
        if c.username == "" then none else some (c.username, c.password) in
      elim (open_url c.url user) [ err e ↦ (err e, w) | ok server ↦ (ok (provider json server), w) ]
]
