-- ===== src/Streamer/History.antt =====
-- Histories of calls of the public methods of a streamer, one after the other: each takes the streamer by
-- `&mut self`, so no two of them overlap.
use up_streamer_rust.Base.{
  ℕ, suc, ◌+◌, ◌≤◌, ◌<◌, String, ◌≡◌, refl, sym, inl, inr, List, [], ◌∷◌, arith, Result, ok, err,
  Bool-cases, ◌==◌, nat_equality, string_equality, option_equality, pair_equality,
}
use mathlib.Core.Path.{subst}
use up_streamer_rust.Base.Lists.{length, contains, erase, length-erase, erase-eq_self, erase_head}
use up_streamer_rust.Base.Map.{get}
use up_streamer_rust.Base.Usize.{word}
use up_streamer_rust.UpRust.{UriOps, UStatus, FetchSubscriptionsResponse}
use up_streamer_rust.Routing.SubscriptionDirectory.{SubscriptionDirectory}
use up_streamer_rust.DataPlane.Transport.{TransportOps, transport_identity_key_equality}
use up_streamer_rust.DataPlane.IngressRegistry.{
  IngressRouteRegistry, Registration, ingress_route_binding_key_equality,
}
use up_streamer_rust.DataPlane.IngressRegistry
use up_streamer_rust.DataPlane.EgressPool.{EgressRoutePool, RuntimeOps}
use up_streamer_rust.DataPlane.EgressPool
use up_streamer_rust.ControlPlane.RouteTable.{
  Endpoint, RouteTable, route_key_equality, from_endpoints, insert_route,
}
use up_streamer_rust.ControlPlane.RouteTable
use up_streamer_rust.ControlPlane.RouteLifecycle.{Planes, settle, attach_and_register}
use up_streamer_rust.ControlPlane.RouteLifecycle
use up_streamer_rust.ControlPlane.RouteLifecycle.Accounting.{
  IsAccounted, add_route-IsAccounted, remove_route-IsAccounted,
}
use up_streamer_rust.Streamer.{
  UStreamer, SubscriptionOps, FormatOps, refresh_subscriptions, finish_refresh, apply_fetched,
  apply_subscription_snapshot, add_route, delete_route, new, route_label,
}

pub data Call : Type 0 where
  adds deletes : Endpoint → Endpoint → Call
  refreshes : ℕ → Call

module _ ⦃o : UriOps⦄ ⦃f : FormatOps⦄ ⦃e : RuntimeOps⦄ {W S : Type 0} ⦃t : TransportOps W⦄
    ⦃u : SubscriptionOps S⦄ where
  unfoldable pub step : UStreamer W × S → Call → UStreamer W × S
  step (s, service) (adds in_ep out_ep) = ((add_route s in_ep out_ep).1, service)
  step (s, service) (deletes in_ep out_ep) = ((delete_route s in_ep out_ep).1, service)
  step (s, service) (refreshes now) = (refresh_subscriptions now s service).1

  unfoldable pub run : UStreamer W × S → List Call → UStreamer W × S
  run x [] = x
  run x (c ∷ cs) = run (step x c) cs

length-settle :
    {W : Type 0} (routes : RouteTable) (pool : EgressRoutePool) (in_ep out_ep : Endpoint)
    (x : Registration × (IngressRouteRegistry × W))
    → length (settle (from_endpoints in_ep out_ep ∷ routes) pool in_ep out_ep x).1.route_table
      ≤ suc (length routes)
unfolding settle RouteTable.remove_route
length-settle routes pool in_ep out_ep (ok made, (registry, w)) = omega arith
length-settle routes pool in_ep out_ep (err e, (registry, w)) =
    rw (erase_head (from_endpoints in_ep out_ep) routes) (omega arith)

module _ ⦃o : UriOps⦄ ⦃e : RuntimeOps⦄ {W : Type 0} ⦃t : TransportOps W⦄ where
  length-add_route-le :
      (d : SubscriptionDirectory) (s : Planes W) (in_ep out_ep : Endpoint) (label : String)
      → length (RouteLifecycle.add_route d s in_ep out_ep label).1.route_table
        ≤ suc (length s.route_table)
  unfolding RouteLifecycle.add_route attach_and_register insert_route
  length-add_route-le d s in_ep out_ep label =
      elim (Bool-cases (in_ep.authority == out_ep.authority)) [
        | inl same ↦ rw (same, RouteLifecycle.add_route) (omega arith)
        | inr differ ↦ elim (Bool-cases (contains (from_endpoints in_ep out_ep) s.route_table)) [
          | inl old ↦ rw (differ, old, RouteLifecycle.add_route) (omega arith)
          | inr new ↦
              rw (differ, new, RouteLifecycle.add_route)
                (length-settle s.route_table _ in_ep out_ep _)
        ]
      ]

length-erase-le : (k : _) (rt : RouteTable) → length (erase k rt) ≤ length rt
length-erase-le k rt = elim (Bool-cases (contains k rt)) [
  | inl old ↦ omega (arith, length-erase k rt old)
  | inr new ↦ rw (erase-eq_self k rt new) (omega arith)
]

module _ {W : Type 0} ⦃t : TransportOps W⦄ where
  length-remove_route-le :
      (s : Planes W) (in_ep out_ep : Endpoint)
      → length (RouteLifecycle.remove_route s in_ep out_ep).1.route_table ≤ length s.route_table
  unfolding RouteLifecycle.remove_route RouteTable.remove_route
  length-remove_route-le s in_ep out_ep =
      ground (arith, length-erase-le (from_endpoints in_ep out_ep) s.route_table)

module _ ⦃o : UriOps⦄ {W : Type 0} where
  planes-finish_refresh :
      (now : ℕ) (r : Result UStatus (Unit {0})) (s : UStreamer W)
      → (finish_refresh now r s).1.planes ≡ s.planes
  unfolding finish_refresh
  planes-finish_refresh now (ok _) s = refl
  planes-finish_refresh now (err e) s = refl

  pub planes-apply_fetched :
      (now : ℕ) (r : Result UStatus FetchSubscriptionsResponse) (s : UStreamer W)
      → (apply_fetched now r s).1.planes ≡ s.planes
  unfolding apply_fetched apply_subscription_snapshot
  planes-apply_fetched now (ok response) s = planes-finish_refresh now _ _
  planes-apply_fetched now (err e) s = planes-finish_refresh now _ _

-- What a history keeps: the accounts, and at most one route for each call made.
record Kept {W : Type 0} (n : ℕ) (s : UStreamer W) : Type 0 where
  accounted : IsAccounted s.planes
  short : length s.planes.route_table ≤ n

module _ ⦃o : UriOps⦄ ⦃f : FormatOps⦄ ⦃e : RuntimeOps⦄ {W S : Type 0} ⦃t : TransportOps W⦄
    ⦃u : SubscriptionOps S⦄ where
  step-Kept :
      (n : ℕ) (x : UStreamer W × S) (c : Call)
      → n + 1 < word
      → Kept n x.0
      → Kept (suc n) (step x c).0
  unfolding step add_route delete_route refresh_subscriptions
  step-Kept n (s, service) (adds in_ep out_ep) small k = record {
    accounted =
        add_route-IsAccounted s.subscription_directory s.planes in_ep out_ep
          (route_label in_ep out_ep) k.accounted (omega arith);
    short = omega (
      arith,
      length-add_route-le s.subscription_directory s.planes in_ep out_ep (route_label in_ep out_ep),
      k.short,
    );
  }
  step-Kept n (s, service) (deletes in_ep out_ep) small k = record {
    accounted = remove_route-IsAccounted s.planes in_ep out_ep k.accounted (omega arith);
    short = omega (arith, length-remove_route-le s.planes in_ep out_ep, k.short);
  }
  step-Kept n (s, service) (refreshes now) small k = record {
    accounted =
        subst IsAccounted (sym (planes-apply_fetched now (u.fetch_subscriptions service).0 s))
          k.accounted;
    short =
        rw (planes-apply_fetched now (u.fetch_subscriptions service).0 s) (omega (arith, k.short));
  }

  run-Kept :
      (n : ℕ) (x : UStreamer W × S) (cs : List Call)
      → n + length cs < word
      → Kept n x.0
      → IsAccounted (run x cs).0.planes
  unfolding run
  run-Kept n x [] small k = k.accounted
  run-Kept n x (c ∷ cs) small k =
      run-Kept (suc n) (step x c) cs (omega arith) (step-Kept n x c (omega arith) k)

  new-Kept :
      (name : String) (queue : ℕ) (world : W) (now : ℕ) (service : S)
      → Kept 0 (new name queue world now service).0
  unfolding new refresh_subscriptions EgressPool.new IngressRegistry.new get
  new-Kept name queue world now service = record {
    accounted = subst IsAccounted (sym (planes-apply_fetched now _ _)) start;
    short = rw (planes-apply_fetched now _ _) (omega arith);
  }
    where
      start : IsAccounted (record {
        route_table = [];
        egress_route_pool = EgressPool.new queue;
        ingress_route_registry = IngressRegistry.new;
        world = world;
      })
      start = record { distinct = tt; egress = λ j. refl; ingress = λ j. refl }

  -- A streamer that is created and then called fewer than 2 ^ 64 times, to add and delete routes and to
  -- refresh, whatever the transports and the service answer, has a worker for each egress transport of
  -- its routes and a binding for each ingress side of them, no others, each with the number of the routes
  -- that use it as its reference count.
  pub run-IsAccounted :
      (name : String) (queue : ℕ) (world : W) (now : ℕ) (service : S) (calls : List Call)
      → length calls < word
      → IsAccounted (run (new name queue world now service) calls).0.planes
  run-IsAccounted name queue world now service calls small =
      run-Kept 0 (new name queue world now service) calls (omega arith)
        (new-Kept name queue world now service)
