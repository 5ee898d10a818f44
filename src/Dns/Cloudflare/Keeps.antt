-- ===== src/Dns/Cloudflare/Keeps.antt =====
-- The contract of a DNS provider, for the Cloudflare provider over its zone.
use kube_dns_manager.Prelude.{String, Bool}
use kube_dns_manager.Dns.Contract.{Table, Contract}
use kube_dns_manager.Dns.Cloudflare.{CloudflareApi, provider}
use kube_dns_manager.Dns.Cloudflare.Zone.{Entry, entry, ZoneLaws}
use kube_dns_manager.Dns.Cloudflare.Moves.{create-Moved, update-Moved, delete_empties}
use kube_dns_manager.Dns.Cloudflare.Speaks.{create_speaks, update_speaks, delete_speaks}

module _ {W : Type 0} (cf : CloudflareApi W) (zone_id : String) (match_exists_record : Bool)
    (table : W → Table Entry) (laws : ZoneLaws cf zone_id table) where
  -- The provider keeps the contract over the zone, whatever the configuration.
  pub cloudflare-Contract : Contract (provider cf zone_id match_exists_record) table entry
  cloudflare-Contract = record {
    nothing_unnamed = laws.nothing_unnamed;
    creates = λ payload w new h. create-Moved cf zone_id match_exists_record table laws payload w h;
    updates =
        λ payload w held h. update-Moved cf zone_id match_exists_record table laws payload w h held;
    deletes =
        λ payload w held h. delete_empties cf zone_id match_exists_record table laws payload w h;
    create_speaks = create_speaks cf zone_id match_exists_record table laws;
    update_speaks = update_speaks cf zone_id match_exists_record table laws;
    delete_speaks = delete_speaks cf zone_id match_exists_record table laws;
  }
