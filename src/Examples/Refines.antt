-- ===== src/Examples/Refines.antt =====
-- A run at the Cloudflare zone that holds one record.
use kube_dns_manager.Prelude.{refl, true, false, Option, some, []}
use kube_dns_manager.Effects.{plain, ok, err}
use kube_dns_manager.Examples.Fixtures.{meta_of, record_with, status_of, web_spec}
use kube_dns_manager.Api.Record.{success, error}
use kube_dns_manager.Dns.{new_payload}
use kube_dns_manager.Records.Client.{RecordCluster}
use kube_dns_manager.Records.{sync, conclude}
use kube_dns_manager.Records.Refines.{Refined, sync_refines_zone}
use kube_dns_manager.Dns.Cloudflare.{find, create, adopt, create_params, is_record_duplicate_error}
use kube_dns_manager.Dns.Cloudflare.Zone.{Entry, entry}
use kube_dns_manager.Examples.Zone.{one_record, table_of, one_record-laws}

-- Events go nowhere, and the zone is the only state.
abbrev pub silent : RecordCluster (Option Entry)
silent = record {
  get_record = λ key w. (ok (record_with (meta_of key.name) []), w);
  update_record = λ r w. (ok r, w);
  update_status = λ r w. (ok r, w);
  list_providers = λ namespace w. (ok [], w);
  list_cluster_providers = λ w. (ok [], w);
  get_provider = λ key w. (err (plain "no provider"), w);
  get_cluster_provider = λ key w. (err (plain "no provider"), w);
  event = λ meta type reason message w. w;
}

-- The record is at Cloudflare already, and is adopted.
sync_refines_zone_example :
    Refined table_of (entry web_spec) false "" "1" (some (entry web_spec)) (some (entry web_spec))
unfolding sync conclude create adopt find create_params is_record_duplicate_error new_payload
    success error
sync_refines_zone_example =
    sync_refines_zone one_record "zone" true table_of silent one_record-laws
      (λ meta kind reason text w k. refl) (record_with (meta_of "www") []) false
      (status_of "first" "") (some (entry web_spec)) refl
