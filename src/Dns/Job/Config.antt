-- ===== src/Dns/Job/Config.antt =====
-- internal/controller/dns/provider/job/job.go: the configuration of the Job provider.
use kube_dns_manager.Prelude.{String, Option, none, some, ◌==◌, if◌then◌else◌}
use kube_dns_manager.Effects.{nil_pointer, Result, ok, err}
use kube_dns_manager.Api.Provider.{JobProviderConfig}
use kube_dns_manager.Dns.{Factory}
use kube_dns_manager.Dns.Job.{Template, JobCluster, JobProvider, provider}

-- The factory that init registers, over the parser of templates. Where the update or the deletion has
-- no template of its own, it has that of the creation. A missing configuration is a nil pointer.
module _ {W : Type 0} (cluster : JobCluster W) (parse : String → String → Result Template) where
  abbrev own_or : String → String → Template → Result Template
  own_or name text other = if text == "" then ok other else parse name text

  abbrev data_of : String → Result (Option Template)
  data_of text =
      if text == ""
      then ok none
      else elim (parse "data" text) [ err e ↦ err e | ok tpl ↦ ok (some tpl) ]

  unfoldable pub configure : String → JobProviderConfig → Result JobProvider
  configure namespace c = elim (parse "create" c.create_job_template) [
    | err e ↦ err e
    | ok create_tpl ↦ elim (own_or "update" c.update_job_template create_tpl) [
      | err e ↦ err e
      | ok update_tpl ↦ elim (own_or "delete" c.delete_job_template create_tpl) [
        | err e ↦ err e
        | ok delete_tpl ↦ elim (data_of c.data_template) [
          | err e ↦ err e
          | ok data_tpl ↦ ok (record {
            namespace = namespace;
            create_template = create_tpl;
            update_template = update_tpl;
            delete_template = delete_tpl;
            data_template = data_tpl;
            data_update_strategy = c.data_update_strategy;
          })
        ]
      ]
    ]
  ]

  unfoldable pub factory : Factory W
  unfolding configure
  factory p w = elim p.spec.job [
    | none ↦ (err nil_pointer, w)
    | some c ↦ elim (configure p.meta.namespace c) [
      | err e ↦ (err e, w)
      | ok job_provider ↦ (ok (provider cluster job_provider), w)
    ]
  ]
