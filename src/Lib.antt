-- ===== src/Lib.antt =====
-- kube-dns-manager: DNS records as Kubernetes objects.
--
-- Controllers watch objects of the group dns.xzzpig.com and act on DNS services:
--   * a Record is what one DNS name shall resolve to;
--   * a Provider (in a namespace) or a ClusterProvider is an account at a DNS service, with a selector of
--     the records that it takes;
--   * a Generator (in a namespace) or a ClusterGenerator selects objects of a kind, and owns one
--     ResourceWatcher for each; a watcher renders a template over its object into records.
-- The provider controller makes a DNS provider of each Provider and puts it into a cache; the
-- record controller takes the providers from that cache, calls Create, Update or Delete of those
-- that take the record, keeps a status for each, and holds the record's finalizer until all have
-- let go of it; the generator controller keeps the watchers; the watcher controller renders the
-- template of a watcher's generator into records, which the watcher then owns.
--
-- How the code is read.
-- A call of the Kubernetes API or of a DNS service is a function on a state `W` of the world, which
-- is a parameter, as are the functions themselves (`RecordCluster`, `ProviderCluster`,
-- `GeneratorCluster`, `WatcherCluster`, `Engine`, `Decoder`, `CloudflareApi`, `AlidnsApi`,
-- `Server`, `JobCluster`, `Manager`): they stand for code that is not in the repository. A Go error
-- is a `Result`, or an `Option` where the code keeps it beside a value. A panic stands in the place
-- of an error as `panic`, and whoever calls the code that panics stops there: a record's run in
-- `visit` and `finish`, by the panic that is computed beside each round (`serve_panic`,
-- `release_panics`), and a provider's behind its deferred function (`reported`, `returned`); it has
-- no text, so that a promise of errors with texts is one of calls that return. Pointers into a list
-- are written out as searches and writes by name, since the code holds one only between two changes
-- of the list. All loops run over lists and are structural recursion.
--
-- The files.
--   * Prelude: library names, tests on numbers, lists (Prelude/Lists), texts (Prelude/Strings).
--   * Effects: errors, results and calls of the outside world.
--   * Api: api/dns/v1. Api/Meta has custom_types.go and custom_funcs.go, and what the code reads of
--     Kubernetes' own types; Api/Record, Api/Provider, Api/Generator and Api/Watcher have the types and
--     methods of record_, provider_, generator_ and resourcewatcher_types.go and _funcs.go. A
--     Provider and a ClusterProvider are one record, as are the two kinds of generators.
--     Api/Provider/Selector and Api/Generator/Resources have the laws. RemoveResource cuts the slice
--     that its loop ranges over; `remove_loop` keeps the array behind the slice for that reason.
--   * Finalizers: internal/controller/dns/common.go.
--   * Dns: internal/controller/dns/provider/provider.go, with a child for each service
--     (provider/cloudflare, provider/alidns, provider/adguard, provider/job) and its laws below it.
--     Dns/Registered has the registry that the init functions fill. Dns/Contract has what a provider
--     promises, as operations on a table of entries by IDs; Dns/Cloudflare/Zone has the documented
--     laws of a zone, and Moves, Speaks and Keeps beside it what the Cloudflare provider makes of
--     them. Dns/Job/Life has the life of a job over many runs, Dns/Job/Context getClient.
--   * Providers: internal/controller/dns/provider_controller.go. `body` is what stands between the
--     defer statement and the return of Reconcile, `deferred` the deferred function.
--   * Records: internal/controller/dns/record_controller.go. `visit_all` is the loop over the
--     providers, `release_all` the one over the statuses, `finish` all that follows the first.
--     Records/Settled and Records/Deletion have what holds of a record that is being deleted,
--     Records/Refines what a run does to the table of a provider, Records/Names the names of the
--     statuses, and Records/Aborts what ends a run in the loop over the providers. Records/Zones has the
--     records of a cluster at one provider as a step relation, Records/Mirror and Records/Mirrored
--     the table of that provider over it. Records/Emptied, Orphans, Leftovers and Farewell follow
--     the entry of a deleted record through the loops of its last run.
--   * Generators: internal/controller/dns/generator_controller.go. `apply_spec` is the part for a
--     changed specification, `watch_matched` the rest of Reconcile; Generators/Events has
--     watchResources, and Generators/Traces sequences of changes over an abstract set of names.
--   * Watchers: internal/controller/dns/resourcewatcher_controller.go. Watchers/Templates has
--     getTemplate and its cache, Watchers/Choice the choice of the template, Watchers/Parse
--     the reading of a rendered text, Watchers/Run Reconcile and watchResources; `body` and
--     `deferred` are split as in Providers. Watchers/Lookups has the methods of
--     internal/controller/dns/template.go, Watchers/Functions those of its function map.
--     Watchers/Sync follows the marks of the records through the loops, Watchers/Leaves the records
--     of a server that creates, updates and deletes as it is told (Watchers/Server, `Serves`).
--   * Wiring: Wiring/Setup has the SetupWithManager functions, as data that the manager is given, and
--     Wiring/Main cmd/main.go. Wiring/Answered and Wiring/Wakes follow a lookup of a template to
--     the watch that answers a change of what it found; Wiring/Kinds is about the kinds of object
--     that generators select.
--   * Examples: runs over small objects.
--
-- What is assumed of the outside, each as a hypothesis of the theorems that need it: an update of a
-- status returns the status that was sent (`Echoes`), an update keeps names (`KeepsNames`); errors
-- have a text (`Promises`, `LookupsSpeak`); Aliyun gives every record an ID (`GivesIds`); JSON
-- decodes what it encoded (`IsCodec`); an empty label selector takes everything
-- (`EmptySelectsAll`); a zone does what Cloudflare's documentation says (`ZoneLaws`, `UnusedIds`),
-- and an event leaves it alone (`QuietEvents`); what a deletion empties stays empty for the rest of
-- the run (`Around`, `Empties`). Texts are sequences of characters, which for valid UTF-8 agrees
-- with Go's bytes. Go's int is ℤ: a TTL is only passed on.
--
-- Not modelled: the template language, which stands behind the `execute` of the parameter `Engine`
-- and decides which of the methods of Watchers/Lookups are called; controller-runtime, whose
-- predicates are names here and whose manager is a parameter; zz_generated.deepcopy.go; log output.
-- Runs of different controllers are taken one after the other: the map providerCache has no lock,
-- and what Go does on a race has no model here.
pub mod Prelude
pub mod Effects
pub mod Api
pub mod Finalizers
pub mod Dns
pub mod Records
pub mod Providers
pub mod Generators
pub mod Watchers
pub mod Examples
pub mod Wiring
