-- ===== src/Tests/Routes.antt =====
-- Runs of a streamer and of its planes.
use up_streamer_rust.Base.{true}
use up_streamer_rust.Base.{
  ℕ, ◌≡◌, refl, false, none, some, List, [], ◌∷◌, arith, ok, err, nat_equality, string_equality,
  option_equality, pair_equality,
}
use up_streamer_rust.Base.Map.{get, insert}
use up_streamer_rust.Base.Usize.{increment}
use up_streamer_rust.UpRust.{UUri}
use up_streamer_rust.Routing.SubscriptionDirectory.{SubscriptionDirectory, apply_snapshot}
use up_streamer_rust.Routing.SubscriptionDirectory
use up_streamer_rust.DataPlane.IngressListener.{IngressRouteListener}
use up_streamer_rust.DataPlane.Transport.{
  TransportIdentityKey, transport_identity_key_equality, ListenerFilter,
}
use up_streamer_rust.DataPlane.IngressRegistry.{
  IngressRouteRegistry, IngressRouteBinding, IngressRouteBindingKey,
  ingress_route_binding_key_equality, Registration, binding_key, register_route, unregister_route,
}
use up_streamer_rust.DataPlane.IngressRegistry
use up_streamer_rust.DataPlane.EgressPool.{attach_route}
use up_streamer_rust.ControlPlane.RouteTable.{
  Endpoint, RouteTable, RouteKey, route_key_equality, from_endpoints, insert_route,
}
use up_streamer_rust.ControlPlane.RouteTable
use up_streamer_rust.ControlPlane.RouteLifecycle.{Planes, settle, attach_and_register}
use up_streamer_rust.ControlPlane.RouteLifecycle.Accounting.{IsAccounted}
use up_streamer_rust.Base.Map.{or_insert}
use up_streamer_rust.Routing.SubscriptionCache.{fetch_cache_entry_with_wildcard}
use up_streamer_rust.UpRust.{UCode, fail_with_code}
use up_streamer_rust.Routing.UriIdentityKey.{UriIdentityKey, from_borrowed}
use up_streamer_rust.Routing.PublishResolution.{
  derive_source_filters, derive_loop, derive_source_filter_for_topic, topic_projection_key,
  topic_matches_ingress_authority,
}
use up_streamer_rust.DataPlane.IngressRegistry.{
  register_new_route, register_publish_route, conclude_registration, commit_route,
  register_publish_filters, rollback_registered_filters, derive_publish_filters_cached,
}
use up_streamer_rust.DataPlane.IngressRegistry.FilterCache.{fresh_filters}
use up_streamer_rust.ControlPlane.RouteLifecycle.{
  failed_to_register_ingress_route, add_route, remove_route,
}
use up_streamer_rust.DataPlane.IngressRegistry.{failed_to_register_publish_route_listener}
use up_streamer_rust.ControlPlane.RouteLifecycle.Listening.{IsListening}
use up_streamer_rust.ControlPlane.RouteLifecycle.RoundTrip.{IsUndone, remove_route-add_route}
use up_streamer_rust.ControlPlane.RouteLifecycle.Rollback.{IsRolledBack, add_route-IsRolledBack}
use up_streamer_rust.ControlPlane.RouteLifecycle.Connected.{
  IsConnected, add_route-IsConnected, add_route-shared,
}
use up_streamer_rust.Streamer.{UStreamer}
use up_streamer_rust.Streamer
use up_streamer_rust.Streamer.History.{Call, adds, deletes, refreshes, step, run, run-IsAccounted}
use up_streamer_rust.Streamer.Caching.{run-fresh_filters}
use up_streamer_rust.Streamer.Listening.{run-IsListening, run-idle}
use up_streamer_rust.Streamer.Answers.{add_route-again, delete_route-add_route}
use up_streamer_rust.Streamer.Refreshing.{Outcome, refresh_subscriptions-Outcome}
use up_streamer_rust.Tests.{registered-simple, holds-simple}
use up_streamer_rust.Tests.{
  plain_uris, simple_transports, simple_transports-TransportLaws, one_runtime, plain_format,
  tired_service, World, silence, response, topic, subscriber, vehicle, cloud,
}

abbrev busy : List Call
busy = adds (vehicle 1) (cloud 2) ∷ refreshes 7 ∷ adds (vehicle 1) (cloud 3) ∷ []

abbrev over : List Call
over = adds (vehicle 1) (cloud 2) ∷ deletes (vehicle 1) (cloud 2) ∷ []

-- The streamer that makes these calls after it was created.
abbrev streamer_after : List Call → UStreamer World × ℕ
streamer_after calls = run (Streamer.new "streamer" 16 silence 0 2) calls

run-IsAccounted_example : IsAccounted (streamer_after busy).0.planes
run-IsAccounted_example = run-IsAccounted "streamer" 16 silence 0 2 busy (omega arith)

silent :
    (a : ℕ) (g : ListenerFilter) (l : IngressRouteListener)
    → simple_transports-TransportLaws.documented.registered silence a g l ≡ false
silent a g l = registered-simple silence a g l

run-IsListening_example : IsListening simple_transports-TransportLaws (streamer_after busy).0.planes
run-IsListening_example =
    run-IsListening simple_transports-TransportLaws "streamer" 16 silence 0 2 busy silent

run-fresh_filters_example :
    (derive_publish_filters_cached
      (streamer_after busy).0.planes.ingress_route_registry
      "vehicle"
      "cloud"
      (streamer_after busy).0.subscription_directory).0
    ≡ fresh_filters (streamer_after busy).0.subscription_directory "vehicle" "cloud"
run-fresh_filters_example =
    run-fresh_filters "streamer" 16 silence 0 2 busy "vehicle" "cloud" (omega arith)

abbrev start : Planes World
start = record {
  route_table = [];
  egress_route_pool = record { message_queue_size = 16; workers = []; next_channel = 0 };
  ingress_route_registry = record { bindings = []; publish_filter_cache = []; next_address = 0 };
  world = silence;
}

start-IsAccounted : IsAccounted start
unfolding get
start-IsAccounted = record { distinct = tt; egress = λ j. refl; ingress = λ j. refl }

start-IsListening : IsListening simple_transports-TransportLaws start
start-IsListening = record { held = λ a g l. holds-simple silence a g l; fresh = tt }

abbrev topic_key : UriIdentityKey
topic_key = record {
  authority_name = "vehicle";
  ue_id = 5;
  ue_version_major = 1;
  resource_id = 32769;
}

abbrev subscriber_key : UriIdentityKey
subscriber_key = record {
  authority_name = "cloud";
  ue_id = 7;
  ue_version_major = 1;
  resource_id = 0;
}

-- The directory that knows the one subscription.
abbrev directory : SubscriptionDirectory
directory = record {
  snapshot = record {
    version = 1;
    cache = record {
      subscription_cache_map = [];
      wildcard_merged_cache_map =
          (
            "cloud",
            (
              record { topic = topic_key; subscriber = some subscriber_key },
              record { topic = topic; subscriber = record { uri = some subscriber } },
            )
                ∷ [],
          )
          ∷ [];
    };
  };
  next_version = 2;
}

abbrev publish_uri : UUri
publish_uri = record {
  authority_name = "vehicle";
  ue_id = 5;
  ue_version_major = 1;
  resource_id = 32769;
}

failing :
    (add_route directory start (vehicle 9) (cloud 2) "label").0
    ≡ err (failed_to_register_ingress_route (failed_to_register_publish_route_listener publish_uri))
unfolding add_route insert_route attach_and_register settle register_route get attach_route
    register_new_route register_publish_route conclude_registration register_publish_filters
    derive_publish_filters_cached derive_source_filters derive_loop derive_source_filter_for_topic
    topic_projection_key topic_matches_ingress_authority or_insert insert
    fetch_cache_entry_with_wildcard SubscriptionDirectory.lookup_route_subscribers_with_version
    SubscriptionDirectory.lookup_route_subscribers_from_snapshot from_borrowed from_endpoints
failing = refl

add_route-IsRolledBack_example :
    IsRolledBack simple_transports-TransportLaws start
      (add_route directory start (vehicle 9) (cloud 2) "label").1
add_route-IsRolledBack_example =
    add_route-IsRolledBack simple_transports-TransportLaws directory start (vehicle 9) (cloud 2)
      "label"
      (failed_to_register_ingress_route (failed_to_register_publish_route_listener publish_uri))
      start-IsAccounted start-IsListening (omega arith) failing

added : (add_route directory start (vehicle 1) (cloud 2) "label").0 ≡ ok tt
unfolding add_route insert_route attach_and_register settle register_route get attach_route
    register_new_route register_publish_route conclude_registration register_publish_filters
    derive_publish_filters_cached derive_source_filters derive_loop derive_source_filter_for_topic
    topic_projection_key topic_matches_ingress_authority or_insert insert
    fetch_cache_entry_with_wildcard SubscriptionDirectory.lookup_route_subscribers_with_version
    SubscriptionDirectory.lookup_route_subscribers_from_snapshot from_borrowed from_endpoints
    commit_route
added = refl

remove_route-add_route_example :
    IsUndone simple_transports-TransportLaws start
      (remove_route
        (add_route directory start (vehicle 1) (cloud 2) "label").1
        (vehicle 1)
        (cloud 2)).1
remove_route-add_route_example =
    remove_route-add_route simple_transports-TransportLaws directory start (vehicle 1) (cloud 2)
      "label" start-IsAccounted start-IsListening (omega arith) added

add_route-IsConnected_example :
    IsConnected (add_route directory start (vehicle 1) (cloud 2) "label").1 (vehicle 1) (cloud 2)
add_route-IsConnected_example =
    add_route-IsConnected directory start (vehicle 1) (cloud 2) "label" (unfold get in refl) added

abbrev binding : IngressRouteBinding
binding = record {
  ref_count = 1;
  listener = record { address = 0; route_id = "label"; sender = 0 };
  registered_filters = [];
}

-- A binding that serves the route from transport 1 to transport 2.
abbrev serving : Planes World
serving = record start {
  route_table = from_endpoints (vehicle 1) (cloud 2) ∷ [];
  ingress_route_registry = record {
    bindings = (binding_key 1 "vehicle" "cloud", binding) ∷ [];
    publish_filter_cache = [];
    next_address = 1;
  };
}

add_route-shared_example :
    let (answer, s') = add_route directory serving (vehicle 1) (cloud 3) "label" in
    (answer ≡ ok tt)
    × (s'.world ≡ silence)
    × (get (binding_key 1 "vehicle" "cloud") s'.ingress_route_registry.bindings
        ≡ some (record binding { ref_count = increment 1 }))
add_route-shared_example =
    add_route-shared directory serving (vehicle 1) (cloud 3) "label" binding (λ e. cc e)
      (unfold from_endpoints in refl) (unfold get in refl)

abbrev pub streamer : UStreamer World
streamer = record {
  name = "streamer";
  planes = start;
  subscription_directory = directory;
  subscription_sync_health = Streamer.default_health;
}

pub streamer_added : (Streamer.add_route streamer (vehicle 1) (cloud 2)).0 ≡ ok tt
unfolding Streamer.add_route Streamer.add_status add_route insert_route attach_and_register settle
    register_route get attach_route register_new_route register_publish_route conclude_registration
    register_publish_filters derive_publish_filters_cached derive_source_filters derive_loop
    derive_source_filter_for_topic topic_projection_key topic_matches_ingress_authority or_insert
    insert fetch_cache_entry_with_wildcard
    SubscriptionDirectory.lookup_route_subscribers_with_version
    SubscriptionDirectory.lookup_route_subscribers_from_snapshot from_borrowed from_endpoints
    commit_route
streamer_added = refl

add_route-again_example :
    Streamer.add_route (Streamer.add_route streamer (vehicle 1) (cloud 2)).1 (vehicle 1) (cloud 2)
    ≡ (
      err (fail_with_code UCode.already_exists "already exists"),
      (Streamer.add_route streamer (vehicle 1) (cloud 2)).1,
    )
add_route-again_example = add_route-again streamer (vehicle 1) (cloud 2) streamer_added

delete_route-add_route_example :
    let (deleted, s') =
      Streamer.delete_route
        (Streamer.add_route streamer (vehicle 1) (cloud 2)).1
        (vehicle 1)
        (cloud 2) in
    (deleted ≡ ok tt)
    × (s'.planes.route_table ≡ [])
    × ((Streamer.delete_route s' (vehicle 1) (cloud 2)).0
        ≡ err (fail_with_code UCode.not_found "not found"))
delete_route-add_route_example =
    delete_route-add_route streamer (vehicle 1) (cloud 2) streamer_added

refresh_subscriptions-Outcome_example :
    let (answer, rest) = Streamer.refresh_subscriptions {S = ℕ} 7 streamer 1 in
    Outcome 7 (ok response) streamer (answer, rest.0)
refresh_subscriptions-Outcome_example = refresh_subscriptions-Outcome 7 streamer 1

-- A route that is added and deleted, with no subscriptions.
over_table : (run {S = ℕ} (Streamer.new "streamer" 16 silence 0 0) over).0.planes.route_table ≡ []
unfolding run step Streamer.new Streamer.add_route Streamer.delete_route add_route remove_route
    insert_route RouteTable.remove_route from_endpoints Streamer.refresh_subscriptions
    Streamer.apply_fetched Streamer.finish_refresh attach_and_register settle register_route get
    IngressRegistry.new register_new_route register_publish_route conclude_registration
    register_publish_filters commit_route derive_publish_filters_cached derive_source_filters
    derive_loop fetch_cache_entry_with_wildcard SubscriptionDirectory.empty
    SubscriptionDirectory.from_cache SubscriptionDirectory.lookup_route_subscribers_with_version
    SubscriptionDirectory.lookup_route_subscribers_from_snapshot
over_table = refl

run-idle_example :
    let planes = (run {S = ℕ} (Streamer.new "streamer" 16 silence 0 0) over).0.planes in
    ((a : ℕ) (g : ListenerFilter) (l : IngressRouteListener)
      → simple_transports-TransportLaws.documented.registered planes.world a g l ≡ true
      → simple_transports-TransportLaws.refused planes.world a g l ≡ true)
    × ((j : TransportIdentityKey) → get j planes.egress_route_pool.workers ≡ none)
run-idle_example =
    run-idle simple_transports-TransportLaws "streamer" 16 silence 0 0 over silent (omega arith)
      over_table
