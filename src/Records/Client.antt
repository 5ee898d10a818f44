-- ===== src/Records/Client.antt =====
-- What the reconcilers call outside the program, and what they return to controller-runtime.
use kube_dns_manager.Prelude.{ℕ, String, Bool, true, false, List}
use kube_dns_manager.Effects.{Exec}
use kube_dns_manager.Api.Meta.{NamespacedName, ObjectMeta}
use kube_dns_manager.Api.Record.{Record}
use kube_dns_manager.Api.Provider.{Provider}

-- The calls that the reconciler makes of the Kubernetes client and of the event recorder. An update
-- returns the object as the server has it then.
pub record RecordCluster (W : Type 0) : Type 0 where
  pub get_record : NamespacedName → Exec W Record
  pub update_record : Record → Exec W Record
  pub update_status : Record → Exec W Record
  pub list_providers : String → Exec W (List Provider)
  pub list_cluster_providers : Exec W (List Provider)
  pub get_provider : NamespacedName → Exec W Provider
  pub get_cluster_provider : NamespacedName → Exec W Provider
  -- the object, the type of the event, its reason and its message
  pub event : ObjectMeta → String → String → String → W → W

-- ctrl.Result: Requeue, and RequeueAfter in seconds.
pub record Reply : Type 0 where
  pub requeue : Bool
  pub requeue_after : ℕ

abbrev pub done : Reply
done = record { requeue = false; requeue_after = 0 }

abbrev pub again : Reply
again = record { requeue = true; requeue_after = 0 }

abbrev pub time_wait_provider : ℕ
time_wait_provider = 60

abbrev pub after : ℕ → Reply
after seconds = record { requeue = false; requeue_after = seconds }
