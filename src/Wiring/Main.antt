-- ===== src/Wiring/Main.antt =====
-- cmd/main.go: the flags, the options of the manager, and the set-up. Logging is left out; os.Exit is
-- the exit code.
use kube_dns_manager.Prelude.{ℕ, String, Bool, true, false, not, List, [], ◌∷◌, if◌then◌else◌}
use kube_dns_manager.Effects.{ok, err, Exec, ◌>>=◌, ◌>>◌}
use kube_dns_manager.Api.Generator.{namespaced, cluster}
use kube_dns_manager.Wiring.{Manager}
use kube_dns_manager.Wiring.Setup.{setup_generator, setup_watcher, setup_record, setup_provider}

-- The variables behind the flags.
pub record Flags : Type 0 where
  pub metrics_addr : String
  pub enable_leader_election : Bool
  pub probe_addr : String
  pub secure_metrics : Bool
  pub enable_http2 : Bool

-- Their defaults.
abbrev pub defaults : Flags
defaults = record {
  metrics_addr = "0";
  enable_leader_election = false;
  probe_addr = ":8081";
  secure_metrics = true;
  enable_http2 = false;
}

-- tls.Config, of which NextProtos is written.
pub record TlsConfig : Type 0 where
  pub next_protos : List String

abbrev pub disable_http2 : TlsConfig → TlsConfig
disable_http2 c = record { next_protos = "http/1.1" ∷ [] }

unfoldable pub tls_opts : Flags → List (TlsConfig → TlsConfig)
tls_opts flags = if not flags.enable_http2 then disable_http2 ∷ [] else []

-- metricsserver.Options: `authenticated` is the presence of the FilterProvider.
pub record MetricsOptions : Type 0 where
  pub bind_address : String
  pub secure_serving : Bool
  pub tls : List (TlsConfig → TlsConfig)
  pub authenticated : Bool

unfoldable pub metrics_options : Flags → MetricsOptions
unfolding tls_opts
metrics_options flags =
    let base : MetricsOptions = record {
      bind_address = flags.metrics_addr;
      secure_serving = flags.secure_metrics;
      tls = tls_opts flags;
      authenticated = false;
    } in
    if flags.secure_metrics then record base { authenticated = true } else base

-- ctrl.Options, with the options of the webhook server.
pub record ManagerOptions : Type 0 where
  pub metrics : MetricsOptions
  pub webhook_tls : List (TlsConfig → TlsConfig)
  pub health_probe_bind_address : String
  pub leader_election : Bool
  pub leader_election_id : String

unfoldable pub manager_options : Flags → ManagerOptions
unfolding metrics_options
manager_options flags = record {
  metrics = metrics_options flags;
  webhook_tls = tls_opts flags;
  health_probe_bind_address = flags.probe_addr;
  leader_election = flags.enable_leader_election;
  leader_election_id = "5d97c2d6.xzzpig.com";
}

module _ {W : Type 0} (new_manager : ManagerOptions → Exec W (Manager W)) where
  -- From the manager on, each step behind the success of the one before it.
  unfoldable pub set_up : Manager W → Exec W (Unit {0})
  set_up mgr =
      setup_generator mgr namespaced
      >> setup_generator mgr cluster
      >> setup_watcher mgr
      >> setup_record mgr
      >> setup_provider mgr namespaced
      >> setup_provider mgr cluster
      >> mgr.add_healthz_check "healthz"
      >> mgr.add_readyz_check "readyz"

  -- main, behind the reading of the flags: the exit code.
  unfoldable pub main : Flags → W → ℕ × W
  unfolding manager_options set_up
  main flags w =
      let (result, w') = (do mgr ← new_manager (manager_options flags); set_up mgr; mgr.start) w in
      elim result [ err e ↦ (1, w') | ok _ ↦ (0, w') ]
