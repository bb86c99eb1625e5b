-- ===== src/ControlPlane/RouteLifecycle/Connected.antt =====
-- Where the messages of a route go: the channel of its ingress listener and the worker of its egress
-- transport.
use up_streamer_rust.Base.{
  ℕ, String, ◌≡◌, refl, sym, ap, ◌∙◌, ◌≢◌, inl, inr, false, none, some, ok, err, Bool-cases,
  Option-cases, ◌==◌, nat_equality, string_equality, option_equality, pair_equality, beq_false,
}
use up_streamer_rust.Base.Lists.{contains}
use up_streamer_rust.Base.Map.{get, get-insert_self}
use up_streamer_rust.Base.Usize.{increment}
use up_streamer_rust.UpRust.{UriOps}
use up_streamer_rust.Routing.SubscriptionDirectory.{SubscriptionDirectory}
use up_streamer_rust.DataPlane.IngressListener.{IngressRouteListener}
use up_streamer_rust.DataPlane.Transport.{transport_identity_key_equality, TransportOps}
use up_streamer_rust.DataPlane.IngressRegistry.{
  IngressRouteRegistry, IngressRouteBinding, ingress_route_binding_key_equality, Registration,
  binding_key,
}
use up_streamer_rust.DataPlane.EgressPool.{
  EgressRoutePool, EgressRouteBinding, RuntimeOps, attach_route,
}
use up_streamer_rust.DataPlane.EgressPool.RefCount.{egress_key}
use up_streamer_rust.ControlPlane.RouteTable.{
  Endpoint, RouteTable, route_key_equality, from_endpoints, insert_route,
}
use up_streamer_rust.ControlPlane.RouteLifecycle.{Planes, settle, attach_and_register}
use up_streamer_rust.ControlPlane.RouteLifecycle.{add_route}
use up_streamer_rust.DataPlane.IngressListener
use up_streamer_rust.DataPlane.IngressRegistry.Connected.{
  Connects, register_route-Connects, register_route-shared,
}

module _ ⦃e : RuntimeOps⦄ (p : EgressRoutePool) (out_transport : ℕ) where
  attach_route-sender :
      (slot : EgressRouteBinding) × (get
          (egress_key out_transport)
          (attach_route p out_transport).1.workers
        ≡ some slot)
      × (slot.sender ≡ (attach_route p out_transport).0)
  unfolding attach_route
  attach_route-sender = elim (Option-cases (get (egress_key out_transport) p.workers)) [
    | inl e ↦ rw (e, attach_route) (_, get-insert_self (egress_key out_transport) _ p.workers, refl)
    | inr (slot, e) ↦
        rw (e, attach_route) (_, get-insert_self (egress_key out_transport) _ p.workers, refl)
  ]

module _ {W : Type 0} where
  -- The listener of the binding sends to the channel of the worker.
  abbrev pub IsConnected : Planes W → Endpoint → Endpoint → Type 0
  IsConnected s in_ep out_ep =
      (slot : EgressRouteBinding) × (b : IngressRouteBinding) × (get (egress_key out_ep.transport)
          s.egress_route_pool.workers
        ≡ some slot)
      × (get (binding_key in_ep.transport in_ep.authority out_ep.authority)
            s.ingress_route_registry.bindings
          ≡ some b)
      × (b.listener.sender ≡ slot.sender)

  settle-IsConnected :
      (routes : RouteTable) (pool : EgressRoutePool) (in_ep out_ep : Endpoint)
      (x : Registration × (IngressRouteRegistry × W)) (l : IngressRouteListener)
      (slot : EgressRouteBinding)
      → get (egress_key out_ep.transport) pool.workers ≡ some slot
      → l.sender ≡ slot.sender
      → Connects (binding_key in_ep.transport in_ep.authority out_ep.authority) l x
      → (settle routes pool in_ep out_ep x).0 ≡ ok tt
      → IsConnected (settle routes pool in_ep out_ep x).1 in_ep out_ep
  unfolding settle
  settle-IsConnected routes pool in_ep out_ep (ok made, (registry, w)) l slot there same c worked =
      (slot, c.0, there, c.1, ap (λ k. k.sender) c.2 ∙ same)
  settle-IsConnected routes pool in_ep out_ep (err e, (registry, w)) l slot there same c worked = cc

module _ ⦃o : UriOps⦄ ⦃r : RuntimeOps⦄ {W : Type 0} ⦃t : TransportOps W⦄ where
  -- When a route is added with success and no binding was there for its ingress transport and its
  -- two authorities, the listener registered for it sends to the channel of the worker of its
  -- egress transport.
  pub add_route-IsConnected :
      (d : SubscriptionDirectory) (s : Planes W) (in_ep out_ep : Endpoint) (label : String)
      → get
          (binding_key in_ep.transport in_ep.authority out_ep.authority)
          s.ingress_route_registry.bindings
        ≡ none
      → (add_route d s in_ep out_ep label).0 ≡ ok tt
      → IsConnected (add_route d s in_ep out_ep label).1 in_ep out_ep
  unfolding add_route insert_route attach_and_register IngressListener.new
  add_route-IsConnected d s in_ep out_ep label absent worked =
      elim (Bool-cases (in_ep.authority == out_ep.authority)) [
        | inl same ↦ let refused = rw (same, add_route) at worked in cc
        | inr differ ↦ elim (Bool-cases (contains (from_endpoints in_ep out_ep) s.route_table)) [
          | inl old ↦ let refused = rw (differ, old, add_route) at worked in cc
          | inr new ↦
              let (slot, there, same) = attach_route-sender s.egress_route_pool out_ep.transport in
              rw (differ, new, add_route)
                (settle-IsConnected _ _ in_ep out_ep _ _ slot there (sym same)
                  (register_route-Connects s.ingress_route_registry in_ep.transport in_ep.authority
                    out_ep.authority label _ d s.world absent)
                  (rw (differ, new, add_route) at worked))
        ]
      ]

  -- A route that is not in the table, with two different authorities, and whose ingress transport
  -- and authorities are those of a binding that is there, whatever its egress transport, is
  -- answered with success; the transports are as before, and the binding is only counted up, so
  -- that it keeps the listener that it has, and with it the channel to which it sends.
  pub add_route-shared :
      (d : SubscriptionDirectory) (s : Planes W) (in_ep out_ep : Endpoint) (label : String)
      (b : IngressRouteBinding)
      → in_ep.authority ≢ out_ep.authority
      → contains (from_endpoints in_ep out_ep) s.route_table ≡ false
      → get
          (binding_key in_ep.transport in_ep.authority out_ep.authority)
          s.ingress_route_registry.bindings
        ≡ some b
      → let (answer, s') = add_route d s in_ep out_ep label in
        (answer ≡ ok tt)
        × (s'.world ≡ s.world)
        × (get
              (binding_key in_ep.transport in_ep.authority out_ep.authority)
              s'.ingress_route_registry.bindings
            ≡ some (record b { ref_count = increment b.ref_count }))
  unfolding add_route insert_route attach_and_register settle
  add_route-shared d s in_ep out_ep label b differ new there =
      rw (beq_false in_ep.authority out_ep.authority differ, new, add_route)
        (rw
          (
            register_route-shared s.ingress_route_registry in_ep.transport in_ep.authority
                out_ep.authority label (attach_route s.egress_route_pool out_ep.transport).0 d
                s.world b there,
            attach_and_register,
          )
          (refl, refl, get-insert_self _ _ _))
