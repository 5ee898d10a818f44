-- ===== src/Records/Zones.antt =====
-- The records of a cluster at one provider, as runs that follow one another change them.
use kube_dns_manager.Prelude.{String, ◌≡◌, Bool, if◌then◌else◌, ◌==◌}
use kube_dns_manager.Api.Record.{Record, RecordSpec, RecordProviderStatus}
use kube_dns_manager.Dns.{DnsProvider}
use kube_dns_manager.Dns.Contract.{Table}
use kube_dns_manager.Records.Client.{RecordCluster}
use kube_dns_manager.Records.{sync}

-- The records by a name: the status for the provider that each has, and the specification that it was
-- last run with.
pub record System (W : Type 0) : Type 0 where
  pub statuses : String → RecordProviderStatus
  pub specs : String → RecordSpec
  pub world : W

-- The value at one name replaced.
abbrev pub set_at : {A : Type 0} → String → A → (String → A) → String → A
set_at name a f n = if n == name then a else f n

module _ {W : Type 0} (cluster : RecordCluster W) (dns : DnsProvider W) where
  -- A run for the record of a name, in its present form.
  abbrev pub ran : System W → String → Record → Bool → System W
  ran sys name r deleted =
      let (s, w) = sync cluster dns r deleted (sys.statuses name) sys.world in
      record {
        statuses = set_at name s sys.statuses;
        specs = set_at name r.spec sys.specs;
        world = w;
      }

  -- From a table, and records that have no ID yet: runs that end without a message, of any records, in
  -- any order, over any specification, for a deletion or not, and anything that leaves the table alone.
  pub data Reached {E : Type 0} (table : W → Table E) (base : Table E) : System W → Type 0 where
    started :
        (sys : System W)
        → ((n : String) → (sys.statuses n).record_id ≡ "")
        → ((k : String) → table sys.world k ≡ base k)
        → Reached table base sys
    run :
        (sys : System W) (name : String) (r : Record) (deleted : Bool)
        → Reached table base sys
        → (sync cluster dns r deleted (sys.statuses name) sys.world).0.message ≡ ""
        → Reached table base (ran sys name r deleted)
    idle :
        (sys : System W) (w : W)
        → Reached table base sys
        → ((k : String) → table w k ≡ table sys.world k)
        → Reached table base (record sys { world = w })
