-- ===== src/ControlPlane/RouteLifecycle/Listening.antt =====
-- The listeners of the transports through the operations of a route lifecycle.
use up_streamer_rust.Base.{
  String, inl, inr, ok, err, Bool-cases, ◌==◌, nat_equality, string_equality, option_equality,
  pair_equality,
}
use up_streamer_rust.Base.Lists.{contains}
use up_streamer_rust.UpRust.{UriOps}
use up_streamer_rust.Routing.SubscriptionDirectory.{SubscriptionDirectory}
use up_streamer_rust.DataPlane.Transport.{
  transport_identity_key_equality, TransportOps, TransportLaws,
}
use up_streamer_rust.DataPlane.IngressRegistry.{
  IngressRouteRegistry, ingress_route_binding_key_equality, Registration,
}
use up_streamer_rust.DataPlane.IngressRegistry.Sync.{
  IsSynced, register_route-IsSynced, unregister_route-IsSynced,
}
use up_streamer_rust.DataPlane.EgressPool.{EgressRoutePool, RuntimeOps}
use up_streamer_rust.ControlPlane.RouteTable.{
  Endpoint, RouteTable, RouteKey, route_key_equality, from_endpoints, insert_route,
}
use up_streamer_rust.ControlPlane.RouteTable
use up_streamer_rust.ControlPlane.RouteLifecycle.{
  Planes, settle, attach_and_register, add_route, remove_route,
}

module _ {W : Type 0} ⦃t : TransportOps W⦄ (laws : TransportLaws t) where
  -- The listeners that are there and were not refused to be unregistered are those of the bindings.
  abbrev pub IsListening : Planes W → Type 0
  IsListening s = IsSynced laws s.ingress_route_registry s.world

  settle-IsListening :
      (routes : RouteTable) (pool : EgressRoutePool) (in_ep out_ep : Endpoint)
      (x : Registration × (IngressRouteRegistry × W))
      → IsSynced laws x.1.0 x.1.1
      → IsListening (settle routes pool in_ep out_ep x).1
  unfolding settle
  settle-IsListening routes pool in_ep out_ep (ok made, (registry, w)) v = v
  settle-IsListening routes pool in_ep out_ep (err e, (registry, w)) v = v

  -- Adding a route, on every branch of it, leaves the listeners that are there and were not refused exactly
  -- those of the bindings.
  pub add_route-IsListening :
      ⦃o : UriOps⦄ ⦃e : RuntimeOps⦄ (d : SubscriptionDirectory) (s : Planes W)
      (in_ep out_ep : Endpoint) (label : String)
      → IsListening s
      → IsListening (add_route d s in_ep out_ep label).1
  unfolding add_route insert_route attach_and_register
  add_route-IsListening d s in_ep out_ep label v =
      elim (Bool-cases (in_ep.authority == out_ep.authority)) [
        | inl same ↦ rw (same, add_route) v
        | inr differ ↦ elim (Bool-cases (contains (from_endpoints in_ep out_ep) s.route_table)) [
          | inl old ↦ rw (differ, old, add_route) v
          | inr new ↦
              rw (differ, new, add_route)
                (settle-IsListening _ _ in_ep out_ep _ (
                  register_route-IsSynced laws s.ingress_route_registry in_ep.transport
                    in_ep.authority out_ep.authority label _ d s.world v))
        ]
      ]

  -- So does deleting a route.
  pub remove_route-IsListening :
      (s : Planes W) (in_ep out_ep : Endpoint)
      → IsListening s
      → IsListening (remove_route s in_ep out_ep).1
  unfolding remove_route RouteTable.remove_route
  remove_route-IsListening s in_ep out_ep v =
      elim (Bool-cases (in_ep.authority == out_ep.authority)) [
        | inl same ↦ rw (same, remove_route) v
        | inr differ ↦ elim (Bool-cases (contains (from_endpoints in_ep out_ep) s.route_table)) [
          | inl old ↦
              rw (differ, old, remove_route)
                (unregister_route-IsSynced laws s.ingress_route_registry in_ep.transport
                  in_ep.authority out_ep.authority s.world v)
          | inr new ↦ rw (differ, new, remove_route) v
        ]
      ]
