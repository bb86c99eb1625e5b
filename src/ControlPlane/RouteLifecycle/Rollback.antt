-- ===== src/ControlPlane/RouteLifecycle/Rollback.antt =====
-- A route that fails to be added leaves nothing behind.
use up_streamer_rust.Base.{
  ℕ, ◌+◌, ◌<◌, String, ◌≡◌, refl, sym, ap, ◌∙◌, inl, inr, ◌∷◌, ok, err, Bool-cases, ◌==◌,
  nat_equality, string_equality, option_equality, pair_equality,
}
use up_streamer_rust.Base.Lists.{length, contains, erase_head}
use up_streamer_rust.Base.Map.{get}
use up_streamer_rust.Base.Usize.{word}
use up_streamer_rust.UpRust.{UriOps}
use up_streamer_rust.Routing.SubscriptionDirectory.{SubscriptionDirectory}
use up_streamer_rust.DataPlane.IngressListener.{IngressRouteListener}
use up_streamer_rust.DataPlane.Transport.{holds}
use up_streamer_rust.DataPlane.Transport.{
  TransportIdentityKey, transport_identity_key_equality, ListenerFilter, TransportOps,
  TransportLaws,
}
use up_streamer_rust.DataPlane.IngressRegistry.{
  IngressRouteRegistry, ingress_route_binding_key_equality, Registration,
}
use up_streamer_rust.DataPlane.IngressRegistry.RefCount.{Counted, register_route-Counted}
use up_streamer_rust.DataPlane.IngressRegistry.Listeners.{owns}
use up_streamer_rust.DataPlane.EgressPool.{EgressRoutePool, RuntimeOps, detach_route}
use up_streamer_rust.DataPlane.EgressPool.RefCount.{egress_key, detach-attach}
use up_streamer_rust.ControlPlane.RouteTable.{
  Endpoint, RouteTable, RouteKey, route_key_equality, from_endpoints, insert_route,
}
use up_streamer_rust.ControlPlane.RouteTable
use up_streamer_rust.ControlPlane.RouteLifecycle.{
  AddRouteError, Planes, settle, attach_and_register,
}
use up_streamer_rust.ControlPlane.RouteLifecycle.Accounting.{IsAccounted, egress_small, ingress_key}
use up_streamer_rust.ControlPlane.RouteLifecycle.{add_route}
use up_streamer_rust.ControlPlane.RouteLifecycle.Listening.{IsListening, add_route-IsListening}

module _ {W : Type 0} ⦃t : TransportOps W⦄ (laws : TransportLaws t) where
  -- The second state has the routes, the workers and the bindings of the first, and the listeners of the
  -- first up to those whose removal was refused.
  pub record IsRolledBack (s s' : Planes W) : Type 0 where
    pub routes : s'.route_table ≡ s.route_table
    pub workers :
        (j : TransportIdentityKey)
        → get j s'.egress_route_pool.workers ≡ get j s.egress_route_pool.workers
    pub bindings : s'.ingress_route_registry.bindings ≡ s.ingress_route_registry.bindings
    pub listeners :
        (a : ℕ) (g : ListenerFilter) (l : IngressRouteListener)
        → holds laws s'.world a g l ≡ holds laws s.world a g l

-- The routes, the workers and the bindings are as before.
record IsRestored {W : Type 0} (s s' : Planes W) : Type 0 where
  routes : s'.route_table ≡ s.route_table
  workers :
      (j : TransportIdentityKey)
      → get j s'.egress_route_pool.workers ≡ get j s.egress_route_pool.workers
  bindings : s'.ingress_route_registry.bindings ≡ s.ingress_route_registry.bindings

module _ {W : Type 0} (s : Planes W) where
  settle-IsRestored :
      (pool : EgressRoutePool) (in_ep out_ep : Endpoint)
      (x : Registration × (IngressRouteRegistry × W)) (e : AddRouteError)
      → ((j : TransportIdentityKey)
          → get j (detach_route pool out_ep.transport).workers ≡ get j s.egress_route_pool.workers)
      → Counted s.ingress_route_registry.bindings
          (ingress_key (from_endpoints in_ep out_ep))
          x.0
          x.1.0.bindings
      → (settle (from_endpoints in_ep out_ep ∷ s.route_table) pool in_ep out_ep x).0 ≡ err e
      → IsRestored s (settle (from_endpoints in_ep out_ep ∷ s.route_table) pool in_ep out_ep x).1
  unfolding settle RouteTable.remove_route
  settle-IsRestored pool in_ep out_ep (ok made, (registry, w)) e detached counted failed = cc
  settle-IsRestored pool in_ep out_ep (err x, (registry, w)) e detached counted failed = record {
    routes = erase_head (from_endpoints in_ep out_ep) s.route_table;
    workers = detached;
    bindings = counted;
  }

module _ ⦃o : UriOps⦄ ⦃r : RuntimeOps⦄ {W : Type 0} ⦃t : TransportOps W⦄ where
  add_route-IsRestored :
      (d : SubscriptionDirectory) (s : Planes W) (in_ep out_ep : Endpoint) (label : String)
      (e : AddRouteError)
      → IsAccounted s
      → length s.route_table + 1 < word
      → (add_route d s in_ep out_ep label).0 ≡ err e
      → IsRestored s (add_route d s in_ep out_ep label).1
  unfolding add_route insert_route attach_and_register from_endpoints
  add_route-IsRestored d s in_ep out_ep label e v small failed =
      elim (Bool-cases (in_ep.authority == out_ep.authority)) [
        | inl same ↦
            rw (same, add_route) (record { routes = refl; workers = λ j. refl; bindings = refl })
        | inr differ ↦ elim (Bool-cases (contains (from_endpoints in_ep out_ep) s.route_table)) [
          | inl old ↦
              rw (differ, old, add_route)
                (record { routes = refl; workers = λ j. refl; bindings = refl })
          | inr new ↦
              rw (differ, new, add_route)
                (settle-IsRestored s _ in_ep out_ep _ e
                  (λ j.
                    detach-attach s.egress_route_pool out_ep.transport j _
                      (egress_small s v small (egress_key out_ep.transport))
                      (v.egress (egress_key out_ep.transport)))
                  (register_route-Counted s.ingress_route_registry in_ep.transport in_ep.authority
                    out_ep.authority label _ d s.world)
                  (rw (differ, new, add_route) at failed))
        ]
      ]

  -- Where every reference count is the number of routes that use it, the listeners of the
  -- transports are those of the bindings, and there are fewer than 2 ^ 64 - 1 routes: a route
  -- whose addition is refused or fails, at whatever step, leaves the route table, every worker of
  -- the pool, every ingress binding and the listeners that are there and were not refused to be unregistered as they
  -- were: whatever the transports answer, a listener of a binding is not lost, and one that is left over was
  -- refused.
  pub add_route-IsRolledBack :
      (laws : TransportLaws t) (d : SubscriptionDirectory) (s : Planes W) (in_ep out_ep : Endpoint)
      (label : String) (e : AddRouteError)
      → IsAccounted s
      → IsListening laws s
      → length s.route_table + 1 < word
      → (add_route d s in_ep out_ep label).0 ≡ err e
      → IsRolledBack laws s (add_route d s in_ep out_ep label).1
  add_route-IsRolledBack laws d s in_ep out_ep label e v listening small failed =
      let restored = add_route-IsRestored d s in_ep out_ep label e v small failed in
      let after = add_route-IsListening laws d s in_ep out_ep label listening in
      record {
        routes = restored.routes;
        workers = restored.workers;
        bindings = restored.bindings;
        listeners = λ a g l.
            after.held a g l
            ∙ ap (λ m. owns m a g l) restored.bindings
            ∙ sym (listening.held a g l);
      }
