-- ===== src/Streamer.antt =====
-- up-streamer/src/ustreamer.rs and up-streamer/src/subscription_sync_health.rs. `S` is the state of the
-- uSubscription service; the time of each attempt is an argument.
pub mod History
pub mod Caching
pub mod Listening
pub mod Refreshing
pub mod Answers
use up_streamer_rust.Base.{
  ℕ, String, Bool, true, false, Option, none, some, [], if◌then◌else◌, Result, ok, err,
  nat_equality, string_equality, option_equality, pair_equality,
}
use Prim.Native.String.{◌++◌}
use up_streamer_rust.UpRust.{UriOps, UCode, UStatus, fail_with_code, FetchSubscriptionsResponse}
use up_streamer_rust.Routing.SubscriptionDirectory.{SubscriptionDirectory, apply_snapshot}
use up_streamer_rust.Routing.SubscriptionDirectory
use up_streamer_rust.DataPlane.Transport.{TransportOps}
use up_streamer_rust.DataPlane.IngressRegistry.{
  IngressRouteRegistrationError, failed_to_register_request_route_listener,
  failed_to_register_publish_route_listener,
}
use up_streamer_rust.DataPlane.IngressRegistry
use up_streamer_rust.DataPlane.EgressPool.{RuntimeOps}
use up_streamer_rust.DataPlane.EgressPool
use up_streamer_rust.ControlPlane.RouteTable.{Endpoint}
use up_streamer_rust.ControlPlane.RouteLifecycle.{
  AddRouteError, RemoveRouteError, already_exists, not_found, failed_to_register_ingress_route,
  Planes,
}
use up_streamer_rust.ControlPlane.RouteLifecycle

pub record SubscriptionSyncHealth : Type 0 where
  pub last_attempt_at : Option ℕ
  pub last_success_at : Option ℕ
  pub last_attempt_succeeded : Option Bool
  pub previous_attempt_succeeded : Option Bool

abbrev pub default_health : SubscriptionSyncHealth
default_health = record {
  last_attempt_at = none;
  last_success_at = none;
  last_attempt_succeeded = none;
  previous_attempt_succeeded = none;
}

pub record UStreamer (W : Type 0) : Type 0 where
  pub name : String
  pub planes : Planes W
  pub subscription_directory : SubscriptionDirectory
  pub subscription_sync_health : SubscriptionSyncHealth

-- `fetch_subscriptions` of the service with the default request, as a function of its state.
pub record SubscriptionOps (S : Type 0) : Type 0 where
  pub fetch_subscriptions : S → Result UStatus FetchSubscriptionsResponse × S

-- `format!("{:?}", …)` of a text.
pub record FormatOps : Type 0 where
  pub debug : String → String

unfoldable pub record_attempt : ℕ → Bool → SubscriptionSyncHealth → SubscriptionSyncHealth
record_attempt now succeeded h = record {
  last_attempt_at = some now;
  last_success_at = if succeeded then some now else h.last_success_at;
  last_attempt_succeeded = some succeeded;
  previous_attempt_succeeded = h.last_attempt_succeeded;
}

module _ {W : Type 0} where
  unfoldable pub update_subscription_sync_health :
      ℕ → Bool → UStreamer W → SubscriptionSyncHealth × UStreamer W
  unfolding record_attempt
  update_subscription_sync_health now succeeded s =
      let health = record_attempt now succeeded s.subscription_sync_health in
      (health, record s { subscription_sync_health = health })

  -- The directory after an attempt to apply the response, and the mark of the attempt.
  unfoldable pub finish_refresh :
      ℕ
      → Result UStatus (Unit {0})
      → UStreamer W
      → Result UStatus SubscriptionSyncHealth × UStreamer W
  unfolding update_subscription_sync_health
  finish_refresh now (err e) s = (err e, (update_subscription_sync_health now false s).1)
  finish_refresh now (ok _) s =
      let (health, s') = update_subscription_sync_health now true s in (ok health, s')

module _ ⦃o : UriOps⦄ {W : Type 0} where
  unfoldable pub apply_subscription_snapshot :
      FetchSubscriptionsResponse → UStreamer W → Result UStatus (Unit {0}) × UStreamer W
  apply_subscription_snapshot response s =
      let (answer, directory) = apply_snapshot s.subscription_directory response in
      (answer, record s { subscription_directory = directory })

  -- `refresh_subscriptions` on what the service answered.
  unfoldable pub apply_fetched :
      ℕ
      → Result UStatus FetchSubscriptionsResponse
      → UStreamer W
      → Result UStatus SubscriptionSyncHealth × UStreamer W
  apply_fetched now (err e) s = finish_refresh now (err e) s
  apply_fetched now (ok response) s =
      let (applied, s') = apply_subscription_snapshot response s in finish_refresh now applied s'

module _ ⦃o : UriOps⦄ {W S : Type 0} ⦃u : SubscriptionOps S⦄ where
  unfoldable pub refresh_subscriptions :
      ℕ → UStreamer W → S → Result UStatus SubscriptionSyncHealth × (UStreamer W × S)
  refresh_subscriptions now s service =
      let (fetched, service') = u.fetch_subscriptions service in
      let (answer, s') = apply_fetched now fetched s in (answer, (s', service'))

  -- `UStreamer::new`: a failed first refresh is logged and passed over.
  unfoldable pub new : String → ℕ → W → ℕ → S → UStreamer W × S
  new name message_queue_size world now service =
      (refresh_subscriptions now
        (record {
          name = name;
          planes = record {
            route_table = [];
            egress_route_pool = EgressPool.new message_queue_size;
            ingress_route_registry = IngressRegistry.new;
            world = world;
          };
          subscription_directory = SubscriptionDirectory.empty;
          subscription_sync_health = default_health;
        })
        service).1

-- `Display` of the registration errors.
unfoldable pub display_error : ⦃o : UriOps⦄ → IngressRouteRegistrationError → String
display_error failed_to_register_request_route_listener =
    "Failed to register notification request/response listener"
display_error ⦃o⦄ (failed_to_register_publish_route_listener uri) =
    "Failed to register publish route listener for URI: " ++ o.display uri

unfoldable pub route_label : ⦃f : FormatOps⦄ → Endpoint → Endpoint → String
route_label ⦃f⦄ in_ep out_ep =
    "[in.name: "
    ++ in_ep.name
    ++ ", in.authority: "
    ++ f.debug in_ep.authority
    ++ " ; out.name: "
    ++ out_ep.name
    ++ ", out.authority: "
    ++ f.debug out_ep.authority
    ++ "]"

module _ ⦃f : FormatOps⦄ where
  unfoldable pub fail_due_to_same_authority : Endpoint → Endpoint → String → UStatus
  fail_due_to_same_authority in_ep out_ep action =
      fail_with_code UCode.invalid_argument
        (route_label in_ep out_ep ++ " are the same. Unable to " ++ action ++ ".")

module _ ⦃o : UriOps⦄ ⦃f : FormatOps⦄ where
  unfoldable pub add_status :
      Endpoint → Endpoint → Result AddRouteError (Unit {0}) → Result UStatus (Unit {0})
  unfolding display_error
  add_status in_ep out_ep (ok _) = ok tt
  add_status in_ep out_ep (err AddRouteError.same_authority) =
      err (fail_due_to_same_authority in_ep out_ep "add")
  add_status in_ep out_ep (err already_exists) =
      err (fail_with_code UCode.already_exists "already exists")
  add_status in_ep out_ep (err (failed_to_register_ingress_route e)) =
      err (fail_with_code UCode.invalid_argument (display_error e))

module _ ⦃f : FormatOps⦄ where
  unfoldable pub delete_status :
      Endpoint → Endpoint → Result RemoveRouteError (Unit {0}) → Result UStatus (Unit {0})
  delete_status in_ep out_ep (ok _) = ok tt
  delete_status in_ep out_ep (err RemoveRouteError.same_authority) =
      err (fail_due_to_same_authority in_ep out_ep "delete")
  delete_status in_ep out_ep (err not_found) = err (fail_with_code UCode.not_found "not found")

module _ ⦃o : UriOps⦄ ⦃f : FormatOps⦄ ⦃e : RuntimeOps⦄ {W : Type 0} ⦃t : TransportOps W⦄ where
  -- `add_route_ref`, and `add_route`, which calls it.
  unfoldable pub add_route :
      UStreamer W → Endpoint → Endpoint → Result UStatus (Unit {0}) × UStreamer W
  unfolding add_status
  add_route s in_ep out_ep =
      let (answer, planes) =
        RouteLifecycle.add_route s.subscription_directory s.planes in_ep out_ep
          (route_label in_ep out_ep) in
      (add_status in_ep out_ep answer, record s { planes = planes })

module _ ⦃f : FormatOps⦄ {W : Type 0} ⦃t : TransportOps W⦄ where
  -- `delete_route_ref`, and `delete_route`, which calls it.
  unfoldable pub delete_route :
      UStreamer W → Endpoint → Endpoint → Result UStatus (Unit {0}) × UStreamer W
  unfolding delete_status
  delete_route s in_ep out_ep =
      let (answer, planes) = RouteLifecycle.remove_route s.planes in_ep out_ep in
      (delete_status in_ep out_ep answer, record s { planes = planes })
