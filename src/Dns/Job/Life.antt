-- ===== src/Dns/Job/Life.antt =====
-- The life of a job over many runs: it is launched, looked at until it is complete, and removed.
use kube_dns_manager.Prelude.{
  String, ◌≡◌, refl, ap, ◌∙◌, subst, Bool, true, false, not, ◌&&◌, ◌||◌, none, some, List, [], ◌∷◌,
  arith, ◌==◌, eq_iff, All, Bool-cases, inl, inr, has_char, split_empty,
}
use kube_dns_manager.Effects.{ok}
use kube_dns_manager.Api.Meta.{NamespacedName, to_string}
use kube_dns_manager.Dns.{Payload}
use kube_dns_manager.Dns.Job.{
  Condition, Job, JobCluster, JobProvider, succeeded, failed_with, error_job_running,
  data_on_create, placed, is_complete, is_failed, on_complete, on_complete_or_failed, remove,
  collect, check, launch, job_key, execute_job, create, update,
}
use kube_dns_manager.Dns.Job.Laws.{job_key-to_string}

-- The first condition of the job, if it has one, is neither its completion nor its failure.
abbrev pub is_running : Job → Bool
is_running job = elim job.conditions [
  | [] ↦ true
  | c ∷ _ ↦ not (is_complete c) && not (is_failed c)
]

abbrev pub name_of : Job → NamespacedName
name_of job = record { name = job.name; namespace = job.namespace }

module _ {W : Type 0} (cluster : JobCluster W) (p : JobProvider) where
  -- The payload after a call of Update in each of the worlds.
  abbrev pub polled : List W → Payload → Payload
  polled [] payload = payload
  polled (w ∷ ws) payload = polled ws (update cluster p payload w).0.payload

  -- The job is there and is not over.
  abbrev pub Unfinished : NamespacedName → W → Type 0
  Unfinished key w = (job : Job) × ((cluster.get_job key w).0 ≡ ok job) × (is_running job ≡ true)

  job_key_empty : job_key cluster p "" ≡ none
  unfolding job_key
  job_key_empty = ground (arith, split_empty b'/')

  -- An ID that names a job is not empty.
  id_nonempty :
      (payload : Payload) (key : NamespacedName)
      → job_key cluster p payload.id ≡ some key
      → (payload.id == "") ≡ false
  id_nonempty payload key h = elim (Bool-cases (payload.id == "")) [
    | inr other ↦ other
    | inl empty ↦
        let named =
          subst (λ t. job_key cluster p t ≡ some key) ((eq_iff payload.id "").0 empty) h in
        absurd (ground (arith, job_key_empty, named))
  ]

  check_running :
      (job : Job) (payload : Payload) (action : String) (w : W)
      → is_running job ≡ true
      → check cluster p job payload action w ≡ (failed_with error_job_running payload, w)
  unfolding check
  check_running job payload action w h = ground arith

  update_waits :
      (payload : Payload) (key : NamespacedName) (w : W)
      → job_key cluster p payload.id ≡ some key
      → Unfinished key w
      → (update cluster p payload w).0 ≡ failed_with error_job_running payload
  unfolding update execute_job
  update_waits payload key w names (job, there, running) = ground (
    arith,
    id_nonempty payload key names,
    names,
    there,
    check_running job payload "update" (cluster.get_job key w).1 running,
  )

  polled_same :
      (payload : Payload) (key : NamespacedName) (ws : List W)
      → job_key cluster p payload.id ≡ some key
      → All (Unfinished key) ws
      → (polled ws payload ≡ payload)
        × All (λ w. (update cluster p payload w).0 ≡ failed_with error_job_running payload) ws
  polled_same payload key [] names h = (refl, tt)
  polled_same payload key (w ∷ ws) names h =
      let waits = update_waits payload key w names h.0 in
      let (rest, all) = polled_same payload key ws names h.1 in
      (ap (λ a. polled ws a.payload) waits ∙ rest, (waits, all))

  -- Where the job that the ID names is complete, Update removes it and succeeds.
  update_completes :
      (payload : Payload) (key : NamespacedName) (job : Job) (c : Condition) (rest : List Condition)
      (w w1 w2 : W)
      → job_key cluster p payload.id ≡ some key
      → cluster.get_job key w ≡ (ok job, w1)
      → job.conditions ≡ c ∷ rest
      → is_complete c ≡ true
      → (p.data_update_strategy == on_complete || p.data_update_strategy == on_complete_or_failed)
        ≡ false
      → cluster.delete_job job w1 ≡ (ok tt, w2)
      → update cluster p payload w ≡ (succeeded payload, w2)
  unfolding update execute_job check collect remove
  update_completes payload key job c rest w w1 w2 names there conditions complete strategy gone =
      ground
        (arith, id_nonempty payload key names, names, there, conditions, complete, strategy, gone)

  create_launches :
      (payload : Payload) (text new_data : String) (job saved : Job) (w w1 : W)
      → payload.id ≡ ""
      → p.create_template payload "create" ≡ ok text
      → cluster.unmarshal text ≡ ok job
      → data_on_create cluster p payload "create" ≡ ok new_data
      → cluster.create_job (placed cluster p job "create") w ≡ (ok saved, w1)
      → create cluster p payload w ≡ (
        failed_with error_job_running
            (record payload { id = to_string (name_of saved); data_ = new_data }),
        w1,
      )
  unfolding create execute_job launch
  create_launches payload text new_data job saved w w1 new tpl parsed computed made =
      ground (arith, eq_iff payload.id "", tpl, parsed, computed, made)

  -- A creation whose job comes to its end: Create launches the job and reports that it runs; in each of
  -- the later runs that find the job unfinished, however many they are, Update reports the same and
  -- changes nothing of the payload; the first run that finds the job complete removes it and succeeds,
  -- with the job's name as the ID and the data that was computed behind the creation. Conditions: the
  -- template, its document and the data are without errors and the job could be created; its name
  -- and its namespace hold no slash; the data is not to be written on completion; the complete job
  -- can be deleted.
  pub job_completes :
      (payload : Payload) (text new_data : String) (job saved : Job) (w w1 : W)
      → payload.id ≡ ""
      → p.create_template payload "create" ≡ ok text
      → cluster.unmarshal text ≡ ok job
      → data_on_create cluster p payload "create" ≡ ok new_data
      → cluster.create_job (placed cluster p job "create") w ≡ (ok saved, w1)
      → has_char b'/' saved.namespace ≡ false
      → has_char b'/' saved.name ≡ false
      → (ws : List W) (completed : Job) (c : Condition) (rest : List Condition) (v v1 v2 : W)
      → All (Unfinished (name_of saved)) ws
      → cluster.get_job (name_of saved) v ≡ (ok completed, v1)
      → completed.conditions ≡ c ∷ rest
      → is_complete c ≡ true
      → (p.data_update_strategy == on_complete || p.data_update_strategy == on_complete_or_failed)
        ≡ false
      → cluster.delete_job completed v1 ≡ (ok tt, v2)
      → let launched = record payload { id = to_string (name_of saved); data_ = new_data } in
        (create cluster p payload w ≡ (failed_with error_job_running launched, w1))
        × All (λ u. (update cluster p launched u).0 ≡ failed_with error_job_running launched) ws
        × (update cluster p (polled ws launched) v ≡ (succeeded launched, v2))
  job_completes payload text new_data job saved w w1 new tpl parsed computed made plain_namespace
        plain_name ws completed c rest v v1 v2 unfinished there conditions complete strategy gone =
      let launched = record payload { id = to_string (name_of saved); data_ = new_data } in
      let names = job_key-to_string cluster p (name_of saved) plain_namespace plain_name in
      let (same, waits) = polled_same launched (name_of saved) ws names unfinished in
      (
        create_launches payload text new_data job saved w w1 new tpl parsed computed made,
        waits,
        ap (λ x. update cluster p x v) same
            ∙ update_completes launched (name_of saved) completed c rest v v1 v2 names there
                conditions complete strategy gone,
      )
