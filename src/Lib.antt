-- ===== src/Lib.antt =====
-- up-streamer-rust: a streamer that forwards uProtocol messages between transports.
--
-- A route goes from an ingress endpoint to an egress endpoint, each a transport with an authority. Adding
-- one (up-streamer/src/ustreamer.rs, add_route_ref) puts its key into the route table, attaches it to the
-- worker of its egress transport (EgressRoutePool::attach_route) and registers a listener on its ingress
-- transport (IngressRouteRegistry::register_route): one listener on a filter from the ingress to the
-- egress authority, and on a publish filter for each topic to which the egress authority has subscribed.
-- Routes share workers and listeners by reference counts. The subscriptions come from a uSubscription
-- service and are replaced as a whole by refresh_subscriptions.
--
-- The files, with the code that they model:
--   * UpRust: what is used of the up-rust crate. Its data are records; its functions on addresses are the
--     interface `UriOps`, with documented laws in `UriLaws`.
--   * Routing: up-streamer/src/routing. UriIdentityKey, AuthorityFilter, SubscriptionCache,
--     SubscriptionDirectory and PublishResolution are the files of the same names.
--   * DataPlane: up-streamer/src/data_plane and up-streamer/src/runtime/worker_runtime.rs. Transport has
--     the interface `TransportOps` of the trait UTransport, over a state `W` of all transports, with
--     documented laws in `DocumentedLaws`, and control_plane/transport_identity.rs. An unregistration may
--     fail at any time: `TransportLaws` adds a note of those that did, which Transport.Watching keeps for
--     any transport, and `holds` says of a listener that it is there and not one of them. Channel has the
--     interface of tokio's bounded broadcast channels. IngressRegistry, IngressListener, EgressPool and
--     EgressWorker are the files of the same names. Relay has the sequences of arrivals at the listeners and
--     of turns of the workers, in any order.
--   * ControlPlane: up-streamer/src/control_plane/route_table.rs and route_lifecycle.rs, and
--     up-streamer/src/endpoint.rs. `Planes` is the state that a `RouteLifecycle` borrows.
--   * Streamer: up-streamer/src/ustreamer.rs and subscription_sync_health.rs. Streamer.History has the
--     sequences of calls of a streamer; its methods take `&mut self`, so that no two calls overlap.
--   * StaticFile: utils/usubscription-static-file/src/lib.rs.
--   * ConfigurableStreamer: configurable-streamer/src/main.rs and config.rs. A configuration is read, its
--     endpoints are registered by name, and each forwarding rule becomes a route of a new streamer.
--   * SmokeSuite: utils/transport-smoke-suite/src. Claims and its children are claims.rs, Logs is logs.rs,
--     Shell and Process are process.rs, and Teardown is the end of a run in scenario.rs. Report and
--     Rendering are report.rs, Env is env.rs, and Matrix and its child Run are
--     bin/transport-smoke-matrix.rs: run_selected is the loop of `run`. Host, MatrixHost, Disk,
--     Surroundings, `Os` and `Bash` are the interfaces of the libraries, of the operating system, of git and
--     of the shell.
--   * Guardrail: utils/criterion-guardrail/src/lib.rs. Samples reads the samples of a benchmark, and
--     Evaluate finds them and gives the verdict. Formulas, Middle, Median, Discovery, Choice and Walk describe
--     what these should find. `Float` is the interface of `f64`.
--   * Base: maps, lists, equality tests, and the counters of a 64-bit target with their wrap-around.
--   * Tests: concrete transports, services and files, and runs on them.
-- A module below one of these proves what its name says: RefCount, Sync, Rollback, Listening and so on.
--
-- The conventions. Code that changes shared state takes the state and returns it. An error is a value.
-- A hash map is a list of entries with distinct keys, whose order is one of those in which the map may be
-- iterated. An `Arc` of a transport is the number of its allocation, a channel is a number too, and a new
-- listener or channel takes the next one. Versions and reference counts are 64-bit numbers that wrap
-- around as in a release build; the results on histories of calls ask for fewer calls than that. Loops
-- are recursion over the list that they run through, so nothing needs fuel.
--
-- What is not modelled: the log and its fields (up-streamer/src/observability), the spawning of tasks and
-- threads, a panic of `broadcast::channel` on a queue size of zero, two uses of one registry at the same
-- time, the texts of messages that are only logged, the phases of a smoke scenario before its teardown and
-- the writing of its report, the files that the guardrail writes, and the plugins, examples, benchmarks and
-- integration tests of the repository.
pub mod Base
pub mod UpRust
pub mod Routing
pub mod DataPlane
pub mod ControlPlane
pub mod Streamer
pub mod SmokeSuite
pub mod Guardrail
pub mod StaticFile
pub mod ConfigurableStreamer
pub mod Tests
