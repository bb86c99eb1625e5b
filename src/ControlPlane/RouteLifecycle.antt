-- ===== src/ControlPlane/RouteLifecycle.antt =====
-- up-streamer/src/control_plane/route_lifecycle.rs. `Planes` holds what a `RouteLifecycle` borrows and the
-- pool that its methods take, with the state of the transports.
pub mod Accounting
pub mod Listening
pub mod Rollback
pub mod RoundTrip
pub mod Connected
use up_streamer_rust.Base.{
  String, if◌then◌else◌, Result, ok, err, ◌==◌, nat_equality, string_equality, option_equality,
  pair_equality,
}
use up_streamer_rust.UpRust.{UriOps}
use up_streamer_rust.Routing.SubscriptionDirectory.{SubscriptionDirectory}
use up_streamer_rust.DataPlane.Transport.{TransportOps}
use up_streamer_rust.DataPlane.IngressRegistry.{
  IngressRouteRegistry, IngressRouteRegistrationError, Registration, register_route,
  unregister_route,
}
use up_streamer_rust.DataPlane.EgressPool.{EgressRoutePool, RuntimeOps, attach_route, detach_route}
use up_streamer_rust.ControlPlane.RouteTable.{Endpoint, RouteTable, from_endpoints, insert_route}
use up_streamer_rust.ControlPlane.RouteTable

pub data AddRouteError : Type 0 where
  same_authority already_exists : AddRouteError
  failed_to_register_ingress_route : IngressRouteRegistrationError → AddRouteError

pub data RemoveRouteError : Type 0 where
  same_authority not_found : RemoveRouteError

pub record Planes (W : Type 0) : Type 0 where
  pub route_table : RouteTable
  pub egress_route_pool : EgressRoutePool
  pub ingress_route_registry : IngressRouteRegistry
  pub world : W

-- What follows `register_route` in `add_route`: the clean-up after a failure.
unfoldable pub settle :
    {W : Type 0}
    → RouteTable
    → EgressRoutePool
    → Endpoint
    → Endpoint
    → Registration × (IngressRouteRegistry × W)
    → Result AddRouteError (Unit {0}) × Planes W
settle routes pool in_ep out_ep (ok made, (registry, w)) = (
  ok tt,
  record {
    route_table = routes;
    egress_route_pool = pool;
    ingress_route_registry = registry;
    world = w;
  },
)
settle routes pool in_ep out_ep (err e, (registry, w)) = (
  err (failed_to_register_ingress_route e),
  record {
    route_table = (RouteTable.remove_route routes (from_endpoints in_ep out_ep)).1;
    egress_route_pool = detach_route pool out_ep.transport;
    ingress_route_registry = registry;
    world = w;
  },
)

module _ ⦃o : UriOps⦄ ⦃e : RuntimeOps⦄ {W : Type 0} ⦃t : TransportOps W⦄ where
  -- `add_route` once the key is in the table.
  unfoldable pub attach_and_register :
      SubscriptionDirectory
      → Planes W
      → Endpoint
      → Endpoint
      → String
      → Result AddRouteError (Unit {0}) × Planes W
  attach_and_register directory s in_ep out_ep route_label =
      let (out_sender, pool) = attach_route s.egress_route_pool out_ep.transport in
      settle s.route_table pool in_ep out_ep (
        register_route s.ingress_route_registry in_ep.transport in_ep.authority out_ep.authority
          route_label out_sender directory s.world)

  unfoldable pub add_route :
      SubscriptionDirectory
      → Planes W
      → Endpoint
      → Endpoint
      → String
      → Result AddRouteError (Unit {0}) × Planes W
  add_route directory s in_ep out_ep route_label =
      if in_ep.authority == out_ep.authority
      then (err AddRouteError.same_authority, s)
      else (let (inserted, routes) = insert_route s.route_table (from_endpoints in_ep out_ep) in
          if inserted
          then attach_and_register directory (record s { route_table = routes }) in_ep out_ep
              route_label
          else (err already_exists, record s { route_table = routes }))

module _ {W : Type 0} ⦃t : TransportOps W⦄ where
  unfoldable pub remove_route :
      Planes W → Endpoint → Endpoint → Result RemoveRouteError (Unit {0}) × Planes W
  unfolding from_endpoints
  remove_route s in_ep out_ep =
      if in_ep.authority == out_ep.authority
      then (err RemoveRouteError.same_authority, s)
      else (let (removed, routes) =
            RouteTable.remove_route s.route_table (from_endpoints in_ep out_ep) in
          if removed
          then (let (registry, w) =
                unregister_route s.ingress_route_registry in_ep.transport in_ep.authority
                  out_ep.authority s.world in
              (
                ok tt,
                record {
                  route_table = routes;
                  egress_route_pool = detach_route s.egress_route_pool out_ep.transport;
                  ingress_route_registry = registry;
                  world = w;
                },
              ))
          else (err not_found, record s { route_table = routes }))
