-- ===== src/Examples/Job.antt =====
-- A creation whose job is complete at the fourth look.
use kube_dns_manager.Prelude.{ℕ, suc, ◌≡◌, refl, some, [], ◌∷◌, All, ltb, has_char, if◌then◌else◌}
use kube_dns_manager.Effects.{ok}
use kube_dns_manager.Api.Meta.{to_string}
use kube_dns_manager.Dns.{Payload}
use kube_dns_manager.Dns.Job.{
  Condition, Job, JobCluster, JobProvider, succeeded, failed_with, error_job_running,
  data_on_create, create, update, placed,
}
use kube_dns_manager.Dns.Job.Life.{name_of, polled, job_completes}
use kube_dns_manager.Examples.Fixtures.{web_spec}

abbrev asked_for : Payload
asked_for = record { id = ""; data_ = "old"; spec = web_spec }

abbrev pending : Job
pending = record { namespace = ""; name = "make"; labels = []; conditions = [] }

abbrev finished : Condition
finished = record { type = "Complete"; status = "True"; reason = ""; message = "" }

-- The world is a clock; the job is over at three.
abbrev clock : JobCluster ℕ
clock = record {
  get_job = λ key w.
      (ok (if ltb w 3 then pending else record pending { conditions = finished ∷ [] }), suc w);
  create_job = λ j w. (ok j, suc w);
  delete_job = λ j w. (ok tt, suc w);
  unmarshal = λ text. ok pending;
  pod_namespace = "dns";
}

abbrev maker : JobProvider
maker = record {
  namespace = "home";
  create_template = λ p action. ok "create";
  update_template = λ p action. ok "update";
  delete_template = λ p action. ok "delete";
  data_template = some (λ p action. ok "new");
  data_update_strategy = "OnCreate";
}

abbrev made : Job
made = placed clock maker pending "create"

abbrev launched : Payload
launched = record asked_for { id = to_string (name_of made); data_ = "new" }

job_completes_example :
    (create clock maker asked_for 0 ≡ (failed_with error_job_running launched, 1))
    × All
        (λ u. (update clock maker launched u).0 ≡ failed_with error_job_running launched)
        (1 ∷ 2 ∷ [])
    × (update clock maker (polled clock maker (1 ∷ 2 ∷ []) launched) 3 ≡ (succeeded launched, 5))
unfolding has_char data_on_create kube_dns_manager.Dns.Job.execute_data
job_completes_example =
    job_completes clock maker asked_for "create" "new" pending made 0 1 refl refl refl refl refl
      refl refl (1 ∷ 2 ∷ []) (record pending { conditions = finished ∷ [] }) finished [] 3 4 5
      ((pending, refl, refl), ((pending, refl, refl), tt)) refl refl refl refl refl
