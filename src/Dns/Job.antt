-- ===== src/Dns/Job.antt =====
-- internal/controller/dns/provider/job/job.go. The Kubernetes client, the execution of the templates,
-- the YAML decoder and the namespace of the pod are parameters.
pub mod Laws
pub mod Life
pub mod Config
pub mod Context
use Prim.Native.String.{◌++◌}
use kube_dns_manager.Prelude.{
  String, Bool, true, false, not, ◌&&◌, ◌||◌, Option, none, some, List, [], ◌∷◌, ◌==◌, insert,
  lookup, split, if◌then◌else◌,
}
use kube_dns_manager.Effects.{
  Error, plain, is_not_found, nil_pointer, index_out_of_range, Result, ok, err, Exec,
}
use kube_dns_manager.Api.Meta.{NamespacedName, Labels, to_string}
use kube_dns_manager.Api.Provider.{Provider, JobProviderConfig}
use kube_dns_manager.Dns.{Payload, Answer, DnsProvider, Factory}

abbrev pub label_action : String
label_action = "dns.xzzpig.com/action"

abbrev pub on_create : String
on_create = "OnCreate"

abbrev pub on_complete : String
on_complete = "OnComplete"

abbrev pub on_complete_or_failed : String
on_complete_or_failed = "OnCompleteOrFailed"

abbrev pub error_job_running : Error
error_job_running = plain "job is running"

-- batchv1.JobCondition and batchv1.Job: what the provider reads or writes.
pub record Condition : Type 0 where
  pub type : String
  pub status : String
  pub reason : String
  pub message : String

pub record Job : Type 0 where
  pub namespace : String
  pub name : String
  pub labels : Labels
  pub conditions : List Condition

-- A parsed template: its execution over a payload and an action.
abbrev pub Template : Type 0
Template = Payload → String → Result String

pub record JobCluster (W : Type 0) : Type 0 where
  pub get_job : NamespacedName → Exec W Job
  -- the job as the server has it then
  pub create_job : Job → Exec W Job
  pub delete_job : Job → Exec W (Unit {0})
  pub unmarshal : String → Result Job
  pub pod_namespace : String

-- JobProvider; `data_template` is nil where the specification gives none.
pub record JobProvider : Type 0 where
  pub namespace : String
  pub create_template : Template
  pub update_template : Template
  pub delete_template : Template
  pub data_template : Option Template
  pub data_update_strategy : String

abbrev pub failed_with : Error → Payload → Answer
failed_with e payload = record { failure = some e; payload = payload }

abbrev pub succeeded : Payload → Answer
succeeded payload = record { failure = none; payload = payload }

-- p.dataTemplate.Execute; a nil template is a nil pointer.
unfoldable pub execute_data : JobProvider → Payload → String → Result String
execute_data p payload action = elim p.data_template [
  | none ↦ err nil_pointer
  | some tpl ↦ tpl payload action
]

abbrev pub is_complete : Condition → Bool
is_complete c = c.type == "Complete" && c.status == "True"

abbrev pub is_failed : Condition → Bool
is_failed c = c.type == "Failed" && c.status == "True"

module _ {W : Type 0} (cluster : JobCluster W) (p : JobProvider) where
  -- The job is deleted.
  unfoldable pub remove : Job → Payload → W → Answer × W
  remove job payload w =
      let (got, w') = cluster.delete_job job w in
      elim got [ err e ↦ (failed_with e payload, w') | ok _ ↦ (succeeded payload, w') ]

  -- The data of a complete job is written in a deferred function, whose `err` is that of cli.Get, nil
  -- here: it is written also where the deletion fails.
  unfoldable pub collect : Job → Payload → String → W → Answer × W
  unfolding execute_data
  collect job payload action w =
      if p.data_update_strategy == on_complete || p.data_update_strategy == on_complete_or_failed
      then elim (execute_data p payload action) [
        | err e ↦ (failed_with e payload, w)
        | ok text ↦ remove job (record payload { data_ = text }) w
      ]
      else remove job payload w

  unfoldable pub job_failed : Condition → Error
  job_failed c = plain ("job failed, " ++ (c.reason ++ (": " ++ c.message)))

  -- A job that failed is left alone; the ID of a failed creation is given up.
  unfoldable pub give_up : Job → Condition → Payload → Payload
  give_up job c payload = elim (lookup label_action job.labels) [
    | none ↦ payload
    | some action ↦ if action == "create" then record payload { id = "" } else payload
  ]

  unfoldable pub fail : Job → Condition → Payload → String → Answer
  unfolding execute_data job_failed give_up
  fail job c payload action =
      if p.data_update_strategy == on_complete_or_failed
      then elim (execute_data p payload action) [
        | err e ↦ failed_with e payload
        | ok text ↦ failed_with (job_failed c) (give_up job c (record payload { data_ = text }))
      ]
      else failed_with (job_failed c) (give_up job c payload)

  -- The state of the job that the ID names, by its first condition.
  unfoldable pub check : Job → Payload → String → W → Answer × W
  check job payload action w = elim job.conditions [
    | [] ↦ (failed_with error_job_running payload, w)
    | c ∷ _ ↦
        if is_complete c
        then collect job payload action w
        else if is_failed c
        then (fail job c payload action, w)
        else (failed_with error_job_running payload, w)
  ]

  abbrev pub placed : Job → String → Job
  placed job action = record job {
    namespace =
        if p.namespace == ""
        then (if job.namespace == "" then cluster.pod_namespace else job.namespace)
        else p.namespace;
    labels = insert label_action action job.labels;
  }

  -- The data that is written behind the creation of a job.
  unfoldable pub data_on_create : Payload → String → Result String
  unfolding execute_data
  data_on_create payload action =
      if p.data_update_strategy == on_create
      then execute_data p payload action
      else ok payload.data_

  unfoldable pub launch : Template → Payload → String → W → Answer × W
  unfolding data_on_create
  launch tpl payload action w = elim (tpl payload action) [
    | err e ↦ (failed_with e payload, w)
    | ok text ↦ elim (cluster.unmarshal text) [
      | err e ↦ (failed_with e payload, w)
      | ok job ↦ elim (data_on_create payload action) [
        | err e ↦ (failed_with e payload, w)
        | ok new_data ↦
            let (got, w') = cluster.create_job (placed job action) w in
            elim got [
              | err e ↦ (failed_with e payload, w')
              | ok saved ↦ (
                failed_with error_job_running (record payload {
                  id = to_string (record { name = saved.name; namespace = saved.namespace });
                  data_ = new_data;
                }),
                w',
              )
            ]
      ]
    ]
  ]

  -- The job that the ID names: its namespace and its name.
  unfoldable pub job_key : String → Option NamespacedName
  job_key id = elim (split id b'/') [
    | [] ↦ none
    | namespace ∷ rest ↦ elim rest [
      | [] ↦ none
      | name ∷ _ ↦ some (record { name = name; namespace = namespace })
    ]
  ]

  unfoldable pub execute_job : Template → Payload → String → W → Answer × W
  execute_job tpl payload action w =
      if payload.id == "" then launch tpl payload action w else elim (job_key payload.id) [
        | none ↦ (failed_with index_out_of_range payload, w)
        | some key ↦
            let (got, w') = cluster.get_job key w in
            elim got [
              | err e ↦
                  if is_not_found e
                  then launch tpl payload action w'
                  else (failed_with e payload, w')
              | ok job ↦ check job payload action w'
            ]
      ]

  unfoldable pub create : Payload → W → Answer × W
  create payload = execute_job p.create_template payload "create"

  unfoldable pub update : Payload → W → Answer × W
  update payload = execute_job p.update_template payload "update"

  unfoldable pub delete : Payload → W → Answer × W
  delete payload w =
      let (answer, w') = execute_job p.delete_template payload "delete" w in
      elim answer.failure [
        | some e ↦ (answer, w')
        | none ↦ (succeeded (record answer.payload { id = ""; data_ = "" }), w')
      ]

  abbrev pub provider : DnsProvider W
  provider = record { create = create; update = update; delete = delete }
