-- ===== src/ControlPlane/RouteLifecycle/RoundTrip.antt =====
-- Adding a route and removing it again.
use up_streamer_rust.Base.{
  ℕ, ◌+◌, ◌<◌, String, ◌≡◌, refl, inl, inr, true, false, Option, ◌∷◌, arith, ok, err, Bool-cases,
  ◌==◌, nat_equality, string_equality, option_equality, pair_equality, beq_self,
}
use up_streamer_rust.Base.Lists.{length, contains, erase_head}
use up_streamer_rust.Base.Map.{get}
use up_streamer_rust.Base.Usize.{word}
use up_streamer_rust.UpRust.{UriOps}
use up_streamer_rust.Routing.SubscriptionDirectory.{SubscriptionDirectory}
use up_streamer_rust.DataPlane.IngressListener.{IngressRouteListener}
use up_streamer_rust.DataPlane.Transport.{holds}
use up_streamer_rust.DataPlane.Transport.{
  TransportIdentityKey, transport_identity_key_equality, ListenerFilter, TransportOps,
  TransportLaws,
}
use up_streamer_rust.DataPlane.IngressRegistry.{
  IngressRouteRegistry, ingress_route_binding_key_equality, Registration, binding_key,
  unregister_route,
}
use up_streamer_rust.DataPlane.EgressPool.{EgressRoutePool, RuntimeOps, detach_route}
use up_streamer_rust.DataPlane.EgressPool.RefCount.{egress_key, detach-attach}
use up_streamer_rust.ControlPlane.RouteTable.{
  Endpoint, RouteTable, RouteKey, route_key_equality, from_endpoints, insert_route,
}
use up_streamer_rust.ControlPlane.RouteTable
use up_streamer_rust.ControlPlane.RouteLifecycle.{Planes, settle, attach_and_register}
use up_streamer_rust.ControlPlane.RouteLifecycle.Accounting.{IsAccounted, egress_small}
use up_streamer_rust.ControlPlane.RouteLifecycle.{add_route, remove_route}
use up_streamer_rust.ControlPlane.RouteLifecycle.Accounting.{ingress_small}
use up_streamer_rust.ControlPlane.RouteLifecycle.Listening.{IsListening}
use up_streamer_rust.DataPlane.IngressRegistry.RoundTrip.{unregister_route-register_route}

module _ {W : Type 0} ⦃t : TransportOps W⦄ (laws : TransportLaws t) where
  -- The second state has the routes and the workers of the first, and its listeners up to those whose
  -- removal was refused.
  pub record IsUndone (s s' : Planes W) : Type 0 where
    pub routes : s'.route_table ≡ s.route_table
    pub workers :
        (j : TransportIdentityKey)
        → get j s'.egress_route_pool.workers ≡ get j s.egress_route_pool.workers
    pub listeners :
        (c : ℕ) (g : ListenerFilter) (l : IngressRouteListener)
        → holds laws s'.world c g l ≡ holds laws s.world c g l

  contains_head : (k : RouteKey) (rt : RouteTable) → contains k (k ∷ rt) ≡ true
  contains_head k rt = ground (arith, beq_self k)

  settle-IsUndone :
      (s : Planes W) (pool : EgressRoutePool) (in_ep out_ep : Endpoint)
      (x : Registration × (IngressRouteRegistry × W))
      → in_ep.authority == out_ep.authority ≡ false
      → (settle (from_endpoints in_ep out_ep ∷ s.route_table) pool in_ep out_ep x).0 ≡ ok tt
      → ((j : TransportIdentityKey)
          → get j (detach_route pool out_ep.transport).workers ≡ get j s.egress_route_pool.workers)
      → ((made : Option IngressRouteListener)
          → x.0 ≡ ok made
          → (c : ℕ) (g : ListenerFilter) (l : IngressRouteListener)
          → holds laws
              (unregister_route x.1.0 in_ep.transport in_ep.authority out_ep.authority x.1.1).1
              c
              g
              l
            ≡ holds laws s.world c g l)
      → IsUndone s
          (remove_route
            (settle (from_endpoints in_ep out_ep ∷ s.route_table) pool in_ep out_ep x).1
            in_ep
            out_ep).1
  unfolding settle remove_route RouteTable.remove_route
  settle-IsUndone s pool in_ep out_ep (ok made, (r, w)) differ worked detached silent =
      rw (differ, contains_head (from_endpoints in_ep out_ep) s.route_table, remove_route)
        (record {
          routes = erase_head (from_endpoints in_ep out_ep) s.route_table;
          workers = detached;
          listeners = silent made refl;
        })
  settle-IsUndone s pool in_ep out_ep (err e, (r, w)) differ worked detached silent = cc

  -- Where every reference count is the number of routes that use it, the listeners of the
  -- transports are those of the bindings, and there are fewer than 2 ^ 64 - 1 routes: removing a
  -- route right after it was added with success leaves the route table, every worker and the
  -- listeners as they were before it was added, up to the listeners that a transport refused to unregister.
  pub remove_route-add_route :
      ⦃o : UriOps⦄ ⦃e : RuntimeOps⦄ (d : SubscriptionDirectory) (s : Planes W)
      (in_ep out_ep : Endpoint) (label : String)
      → IsAccounted s
      → IsListening laws s
      → length s.route_table + 1 < word
      → (add_route d s in_ep out_ep label).0 ≡ ok tt
      → IsUndone s (remove_route (add_route d s in_ep out_ep label).1 in_ep out_ep).1
  unfolding add_route insert_route attach_and_register
  remove_route-add_route d s in_ep out_ep label v listening small worked =
      elim (Bool-cases (in_ep.authority == out_ep.authority)) [
        | inl same ↦ let refused = rw (same, add_route) at worked in cc
        | inr differ ↦ elim (Bool-cases (contains (from_endpoints in_ep out_ep) s.route_table)) [
          | inl old ↦ let refused = rw (differ, old, add_route) at worked in cc
          | inr new ↦
              rw (differ, new, add_route)
                (settle-IsUndone s _ in_ep out_ep _ differ (rw (differ, new, add_route) at worked)
                  (λ j.
                    detach-attach s.egress_route_pool out_ep.transport j _
                      (egress_small s v small (egress_key out_ep.transport))
                      (v.egress (egress_key out_ep.transport)))
                  (λ made e.
                    unregister_route-register_route laws s.ingress_route_registry in_ep.transport
                      in_ep.authority out_ep.authority label _ d s.world made _ listening
                      (v.ingress (binding_key in_ep.transport in_ep.authority out_ep.authority))
                      (omega (
                        arith,
                        ingress_small s v small
                            (binding_key in_ep.transport in_ep.authority out_ep.authority),
                      ))
                      e))
        ]
      ]
