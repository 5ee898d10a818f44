-- ===== src/Dns/Job/Laws.antt =====
-- The life of a job, and the ID under which a record keeps it.
use kube_dns_manager.Prelude.{
  String, ◌≡◌, ◌≢◌, refl, true, false, ◌||◌, none, some, List, [], ◌∷◌, arith, ◌==◌, eq_iff,
  Bool-cases, Option-cases, inl, inr, has_char, split-slash-append,
}
use kube_dns_manager.Effects.{Result-cases, ok}
use kube_dns_manager.Api.Meta.{NamespacedName, to_string}
use kube_dns_manager.Dns.{Payload, ClearsId}
use kube_dns_manager.Dns.Job.{
  Condition, Job, Template, JobCluster, JobProvider, succeeded, is_complete, on_complete,
  on_complete_or_failed, remove, collect, fail, check, launch, job_key, execute_job, delete,
  provider,
}

-- An ID that names a job is read as the name of that job, if neither part has a slash in it.
pub job_key-to_string :
    {W : Type 0} (cluster : JobCluster W) (p : JobProvider) (n : NamespacedName)
    → has_char b'/' n.namespace ≡ false
    → has_char b'/' n.name ≡ false
    → job_key cluster p (to_string n) ≡ some n
unfolding job_key to_string
job_key-to_string cluster p n plain_namespace plain_name =
    ground (arith, split-slash-append n.namespace n.name plain_namespace plain_name)

module _ {W : Type 0} (cluster : JobCluster W) (p : JobProvider) where
  -- The job that the ID names is there, and its first condition says that it is complete.
  pub record IsDone (payload : Payload) (w : W) : Type 0 where
    pub key : NamespacedName
    pub job : Job
    pub condition : Condition
    pub rest : List Condition
    pub names : job_key cluster p payload.id ≡ some key
    pub there : (cluster.get_job key w).0 ≡ ok job
    pub conditions : job.conditions ≡ condition ∷ rest
    pub complete : is_complete condition ≡ true

  launch_fails :
      (tpl : Template) (payload : Payload) (action : String) (w : W)
      → (launch cluster p tpl payload action w).0.failure ≢ none
  unfolding launch
  launch_fails tpl payload action w h = ground arith

  fail_fails :
      (job : Job) (c : Condition) (payload : Payload) (action : String)
      → (fail cluster p job c payload action).failure ≢ none
  unfolding fail
  fail_fails job c payload action h = ground arith

  check_done :
      (job : Job) (payload : Payload) (action : String) (w : W) (conditions : List Condition)
      → job.conditions ≡ conditions
      → (check cluster p job payload action w).0.failure ≡ none
      → (c : Condition) × (rest : List Condition) × (job.conditions ≡ c ∷ rest)
        × (is_complete c ≡ true)
  unfolding check
  check_done job payload action w [] e h = absurd (ground (arith, e))
  check_done job payload action w (c ∷ rest) e h = elim (Bool-cases (is_complete c)) [
    | inl complete ↦ (c, rest, e, complete)
    | inr other ↦ absurd (ground (arith, e, other, fail_fails job c payload action))
  ]

  -- A run succeeds only over a job that is there and complete: the launch of a job is reported as
  -- an error until the job is done.
  pub execute_job-IsDone :
      (tpl : Template) (payload : Payload) (action : String) (w : W)
      → (execute_job cluster p tpl payload action w).0.failure ≡ none
      → IsDone payload w
  unfolding execute_job
  execute_job-IsDone tpl payload action w h = elim (Bool-cases (payload.id == "")) [
    | inl empty ↦ absurd (ground (arith, empty, launch_fails tpl payload action w))
    | inr held ↦ elim (Option-cases (job_key cluster p payload.id)) [
      | inl unreadable ↦ absurd (ground (arith, held, unreadable))
      | inr (key, names) ↦
          let w1 = (cluster.get_job key w).1 in
          elim (Result-cases (cluster.get_job key w).0) [
            | inl (job, there) ↦
                let (c, rest, conditions, complete) =
                  check_done job payload action w1 job.conditions refl
                    (ground (arith, held, names, there)) in
                record {
                  key = key;
                  job = job;
                  condition = c;
                  rest = rest;
                  names = names;
                  there = there;
                  conditions = conditions;
                  complete = complete;
                }
            | inr (e, failed) ↦
                absurd (ground (arith, held, names, failed, launch_fails tpl payload action w1))
          ]
    ]
  ]

  pub provider-ClearsId : ClearsId (provider cluster p)
  unfolding delete
  provider-ClearsId = record { cleared = λ payload w h. ground arith }

  -- Delete over an ID whose job is complete removes that job and succeeds, whatever the job was for
  -- and whatever the template of the deletion is: no job for the deletion is launched.
  pub delete_collects :
      (payload : Payload) (w w1 w2 : W) (key : NamespacedName) (job : Job) (c : Condition)
      (rest : List Condition)
      → payload.id ≢ ""
      → job_key cluster p payload.id ≡ some key
      → cluster.get_job key w ≡ (ok job, w1)
      → job.conditions ≡ c ∷ rest
      → is_complete c ≡ true
      → (p.data_update_strategy == on_complete || p.data_update_strategy == on_complete_or_failed)
        ≡ false
      → cluster.delete_job job w1 ≡ (ok tt, w2)
      → delete cluster p payload w ≡ (succeeded (record payload { id = ""; data_ = "" }), w2)
  unfolding delete execute_job check collect remove
  delete_collects payload w w1 w2 key job c rest held names there conditions complete strategy
        gone =
      ground (arith, eq_iff payload.id "", held, names, there, conditions, complete, strategy, gone)
