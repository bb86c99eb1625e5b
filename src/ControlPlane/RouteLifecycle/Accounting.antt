-- ===== src/ControlPlane/RouteLifecycle/Accounting.antt =====
-- The reference counts of both planes against the route table.
use up_streamer_rust.Base.{
  ℕ, suc, ◌+◌, ◌<◌, String, ◌≡◌, sym, inl, inr, Bool, true, false, ◌∷◌, arith, if◌then◌else◌, ok,
  err, Bool-cases, ◌==◌, nat_equality, string_equality, option_equality, pair_equality,
}
use mathlib.Core.Path.{subst}
use up_streamer_rust.Base.Lists.{
  length, count, count-le-length, contains, erase, Distinct, erase-Distinct, erase_head,
  erase-eq_self, count-erase, length-erase,
}
use up_streamer_rust.Base.Map.{get}
use up_streamer_rust.Base.Usize.{word}
use up_streamer_rust.UpRust.{UriOps}
use up_streamer_rust.Routing.SubscriptionDirectory.{SubscriptionDirectory}
use up_streamer_rust.DataPlane.Transport.{
  TransportIdentityKey, transport_identity_key_equality, TransportOps,
}
use up_streamer_rust.DataPlane.IngressRegistry.{
  IngressRouteRegistry, IngressRouteBindingKey, ingress_route_binding_key_equality, Registration,
  unregister_route,
}
use up_streamer_rust.DataPlane.IngressRegistry.RefCount.{
  CountsBinding, Counted, register_route-Counted, unregister_route-CountsBinding,
}
use up_streamer_rust.DataPlane.EgressPool.{EgressRoutePool, RuntimeOps, detach_route}
use up_streamer_rust.DataPlane.EgressPool.RefCount.{
  CountsSlot, attach_route-CountsSlot, detach_route-CountsSlot,
}
use up_streamer_rust.ControlPlane.RouteTable.{
  Endpoint, RouteTable, RouteKey, route_key_equality, from_endpoints, insert_route,
}
use up_streamer_rust.ControlPlane.RouteTable
use up_streamer_rust.ControlPlane.RouteLifecycle.{
  Planes, settle, attach_and_register, add_route, remove_route,
}

-- The ingress binding that a route shares with others.
abbrev pub ingress_key : RouteKey → IngressRouteBindingKey
ingress_key r = record {
  transport = r.ingress_transport;
  ingress_authority = r.ingress_authority;
  egress_authority = r.egress_authority;
}

abbrev pub egress_users : TransportIdentityKey → RouteTable → ℕ
egress_users j = count (λ r. r.egress_transport == j)

abbrev pub ingress_users : IngressRouteBindingKey → RouteTable → ℕ
ingress_users j = count (λ r. ingress_key r == j)

-- No route stands twice in the table; a worker or a binding is there exactly while a route in the
-- table uses it, and its reference count is the number of those routes.
pub record IsAccounted {W : Type 0} (s : Planes W) : Type 0 where
  pub distinct : Distinct s.route_table
  pub egress :
      (j : TransportIdentityKey)
      → CountsSlot (get j s.egress_route_pool.workers) (egress_users j s.route_table)
  pub ingress :
      (j : IngressRouteBindingKey)
      → CountsBinding (get j s.ingress_route_registry.bindings) (ingress_users j s.route_table)

count_cons : (b : Bool) (n : ℕ) → (if b then 1 else 0) + n ≡ (if b then suc n else n)
count_cons b n = ground arith

module _ (j : TransportIdentityKey) (k : RouteKey) (routes : RouteTable) where
  egress_users_cons :
      (if k.egress_transport == j then 1 else 0) + egress_users j routes
      ≡ egress_users j (k ∷ routes)
  egress_users_cons = count_cons (k.egress_transport == j) (egress_users j routes)

module _ (j : IngressRouteBindingKey) (k : RouteKey) (routes : RouteTable) where
  ingress_users_cons :
      (if ingress_key k == j then 1 else 0) + ingress_users j routes ≡ ingress_users j (k ∷ routes)
  ingress_users_cons = count_cons (ingress_key k == j) (ingress_users j routes)

module _ {W : Type 0} (s : Planes W) (v : IsAccounted s)
    (small : length s.route_table + 1 < word) where
  pub egress_small : (j : TransportIdentityKey) → egress_users j s.route_table + 1 < word
  egress_small j = omega (arith, count-le-length (λ r. r.egress_transport == j) s.route_table)

  pub ingress_small : (j : IngressRouteBindingKey) → ingress_users j s.route_table + 1 < word
  ingress_small j = omega (arith, count-le-length (λ r. ingress_key r == j) s.route_table)

  settle-IsAccounted :
      (pool : EgressRoutePool) (in_ep out_ep : Endpoint)
      (x : Registration × (IngressRouteRegistry × W))
      → contains (from_endpoints in_ep out_ep) s.route_table ≡ false
      → ((j : TransportIdentityKey)
          → CountsSlot (get j pool.workers) (
              (if (from_endpoints in_ep out_ep).egress_transport == j then 1 else 0)
              + egress_users j s.route_table))
      → Counted s.ingress_route_registry.bindings
          (ingress_key (from_endpoints in_ep out_ep))
          x.0
          x.1.0.bindings
      → IsAccounted (settle (from_endpoints in_ep out_ep ∷ s.route_table) pool in_ep out_ep x).1
  unfolding settle from_endpoints
  settle-IsAccounted pool in_ep out_ep (ok made, (registry, w)) new slots counted = record {
    distinct = (new, v.distinct);
    egress = λ j.
        subst (CountsSlot (get j pool.workers))
          (egress_users_cons j (from_endpoints in_ep out_ep) s.route_table) (slots j);
    ingress = λ j.
        subst (CountsBinding (get j registry.bindings))
          (ingress_users_cons j (from_endpoints in_ep out_ep) s.route_table)
          (counted j _ (ingress_small j) (v.ingress j));
  }
  settle-IsAccounted pool in_ep out_ep (err e, (registry, w)) new slots counted = record {
    distinct = subst (λ rt. Distinct rt) back v.distinct;
    egress = λ j.
        subst
          (λ rt.
            CountsSlot (get j (detach_route pool out_ep.transport).workers) (egress_users j rt))
          back (detach_route-CountsSlot pool out_ep.transport j _ (egress_small j) (slots j));
    ingress = λ j.
        subst (λ rt. CountsBinding (get j registry.bindings) (ingress_users j rt)) back
          (subst (λ m. CountsBinding (get j m) (ingress_users j s.route_table)) (sym counted)
            (v.ingress j));
  }
    where
      back :
          s.route_table
          ≡ (RouteTable.remove_route
              (from_endpoints in_ep out_ep ∷ s.route_table)
              (from_endpoints in_ep out_ep)).1
      back =
          unfold RouteTable.remove_route in
          sym (erase_head (from_endpoints in_ep out_ep) s.route_table)

module _ ⦃o : UriOps⦄ ⦃e : RuntimeOps⦄ {W : Type 0} ⦃t : TransportOps W⦄ where
  -- With fewer than 2 ^ 64 - 1 routes, adding a route, whether it succeeds or is refused or fails
  -- and is rolled back, keeps this: no route stands twice in the table, and every worker and
  -- every binding is there exactly while routes use it and counts them.
  pub add_route-IsAccounted :
      (d : SubscriptionDirectory) (s : Planes W) (in_ep out_ep : Endpoint) (label : String)
      → IsAccounted s
      → length s.route_table + 1 < word
      → IsAccounted (add_route d s in_ep out_ep label).1
  unfolding add_route insert_route attach_and_register from_endpoints
  add_route-IsAccounted d s in_ep out_ep label v small =
      elim (Bool-cases (in_ep.authority == out_ep.authority)) [
        | inl same ↦ rw (same, add_route) v
        | inr differ ↦ elim (Bool-cases (contains (from_endpoints in_ep out_ep) s.route_table)) [
          | inl old ↦ rw (differ, old, add_route) v
          | inr new ↦
              rw (differ, new, add_route)
                (settle-IsAccounted s v small _ in_ep out_ep _ new
                  (λ j.
                    attach_route-CountsSlot s.egress_route_pool out_ep.transport j _
                      (egress_small s v small j) (v.egress j))
                  (register_route-Counted s.ingress_route_registry in_ep.transport in_ep.authority
                    out_ep.authority label _ d s.world))
        ]
      ]

module _ {W : Type 0} ⦃t : TransportOps W⦄ where
  removed-IsAccounted :
      (s : Planes W) (in_ep out_ep : Endpoint)
      → IsAccounted s
      → length s.route_table + 1 < word
      → contains (from_endpoints in_ep out_ep) s.route_table ≡ true
      → let (registry, w) =
          unregister_route s.ingress_route_registry in_ep.transport in_ep.authority out_ep.authority
            s.world in
        IsAccounted (
          let s' : Planes W = record {
            route_table = erase (from_endpoints in_ep out_ep) s.route_table;
            egress_route_pool = detach_route s.egress_route_pool out_ep.transport;
            ingress_route_registry = registry;
            world = w;
          } in
          s')
  unfolding from_endpoints
  removed-IsAccounted s in_ep out_ep v small there = record {
    distinct = erase-Distinct (from_endpoints in_ep out_ep) s.route_table v.distinct;
    egress = λ j.
        detach_route-CountsSlot s.egress_route_pool out_ep.transport j _
          (omega (
            arith,
            count-le-length (λ r. r.egress_transport == j)
                (erase (from_endpoints in_ep out_ep) s.route_table),
            length-erase (from_endpoints in_ep out_ep) s.route_table there,
          ))
          (subst (CountsSlot (get j s.egress_route_pool.workers))
            (count-erase (λ r. r.egress_transport == j) (from_endpoints in_ep out_ep) s.route_table
              there)
            (v.egress j));
    ingress = λ j.
        unregister_route-CountsBinding s.ingress_route_registry in_ep.transport in_ep.authority
          out_ep.authority s.world j _
          (omega (
            arith,
            count-le-length (λ r. ingress_key r == j)
                (erase (from_endpoints in_ep out_ep) s.route_table),
            length-erase (from_endpoints in_ep out_ep) s.route_table there,
          ))
          (subst (CountsBinding (get j s.ingress_route_registry.bindings))
            (count-erase (λ r. ingress_key r == j) (from_endpoints in_ep out_ep) s.route_table
              there)
            (v.ingress j));
  }

  -- With fewer than 2 ^ 64 - 1 routes, deleting a route, whether it is there or not, keeps this:
  -- no route stands twice in the table, and every worker and every binding is there exactly while
  -- routes use it and counts them.
  pub remove_route-IsAccounted :
      (s : Planes W) (in_ep out_ep : Endpoint)
      → IsAccounted s
      → length s.route_table + 1 < word
      → IsAccounted (remove_route s in_ep out_ep).1
  unfolding remove_route RouteTable.remove_route
  remove_route-IsAccounted s in_ep out_ep v small =
      elim (Bool-cases (in_ep.authority == out_ep.authority)) [
        | inl same ↦ rw (same, remove_route) v
        | inr differ ↦ elim (Bool-cases (contains (from_endpoints in_ep out_ep) s.route_table)) [
          | inl old ↦
              rw (differ, old, remove_route) (removed-IsAccounted s in_ep out_ep v small old)
          | inr new ↦
              rw
                (
                  differ,
                  new,
                  erase-eq_self (from_endpoints in_ep out_ep) s.route_table new,
                  remove_route,
                )
                v
        ]
      ]
