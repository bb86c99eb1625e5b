-- ===== src/Streamer/Caching.antt =====
-- The cache of publish filters over the histories of a streamer.
use up_streamer_rust.Base.{
  ℕ, suc, ◌+◌, ◌≤◌, ◌<◌, String, ◌≡◌, refl, sym, inl, inr, List, [], ◌∷◌, arith, Result, ok, err,
  Bool-cases, Result-cases, ◌==◌, nat_equality, string_equality, option_equality, pair_equality,
}
use mathlib.Core.Path.{subst}
use up_streamer_rust.Base.Lists.{length, contains}
use up_streamer_rust.Base.Map.{get}
use up_streamer_rust.Base.Usize.{word, increment-eq_of_lt}
use up_streamer_rust.UpRust.{UriOps, UStatus, FetchSubscriptionsResponse}
use up_streamer_rust.Routing.SubscriptionCache
use up_streamer_rust.Routing.SubscriptionDirectory.{
  SubscriptionDirectory, apply_snapshot, from_cache,
}
use up_streamer_rust.Routing.SubscriptionDirectory
use up_streamer_rust.DataPlane.Transport.{TransportOps}
use up_streamer_rust.DataPlane.IngressRegistry.{
  IngressRouteRegistry, Registration, derive_publish_filters_cached,
}
use up_streamer_rust.DataPlane.IngressRegistry
use up_streamer_rust.DataPlane.IngressRegistry.FilterCache.{
  IsCoherent, fresh_filters, derive_publish_filters_cached-eq-fresh_filters,
  register_route-IsCoherent, cache-unregister_route, apply_snapshot-IsCoherent,
}
use up_streamer_rust.DataPlane.EgressPool.{EgressRoutePool, RuntimeOps}
use up_streamer_rust.ControlPlane.RouteTable.{
  Endpoint, RouteTable, route_key_equality, from_endpoints, insert_route,
}
use up_streamer_rust.ControlPlane.RouteTable
use up_streamer_rust.ControlPlane.RouteLifecycle.{Planes, settle, attach_and_register}
use up_streamer_rust.ControlPlane.RouteLifecycle
use up_streamer_rust.Streamer.{
  UStreamer, SubscriptionOps, FormatOps, refresh_subscriptions, finish_refresh, apply_fetched,
  apply_subscription_snapshot, update_subscription_sync_health, add_route, delete_route, new,
  route_label,
}
use up_streamer_rust.Streamer.History.{Call, adds, deletes, refreshes, step, run}

registry-settle :
    {W : Type 0} (routes : RouteTable) (pool : EgressRoutePool) (in_ep out_ep : Endpoint)
    (x : Registration × (IngressRouteRegistry × W))
    → (settle routes pool in_ep out_ep x).1.ingress_route_registry ≡ x.1.0
unfolding settle
registry-settle routes pool in_ep out_ep (ok made, (registry, w)) = refl
registry-settle routes pool in_ep out_ep (err e, (registry, w)) = refl

module _ ⦃o : UriOps⦄ where
  abbrev PlanesCoherent : {W : Type 0} → Planes W → SubscriptionDirectory → Type 0
  PlanesCoherent s d = IsCoherent s.ingress_route_registry.publish_filter_cache d

  module _ ⦃e : RuntimeOps⦄ {W : Type 0} ⦃t : TransportOps W⦄ where
    add_route-PlanesCoherent :
        (d : SubscriptionDirectory) (s : Planes W) (in_ep out_ep : Endpoint) (label : String)
        → PlanesCoherent s d
        → PlanesCoherent (RouteLifecycle.add_route d s in_ep out_ep label).1 d
    unfolding RouteLifecycle.add_route attach_and_register insert_route
    add_route-PlanesCoherent d s in_ep out_ep label v =
        elim (Bool-cases (in_ep.authority == out_ep.authority)) [
          | inl same ↦ rw (same, RouteLifecycle.add_route) v
          | inr differ ↦ elim (Bool-cases (contains (from_endpoints in_ep out_ep) s.route_table)) [
            | inl old ↦ rw (differ, old, RouteLifecycle.add_route) v
            | inr new ↦
                rw (differ, new, RouteLifecycle.add_route)
                  (subst (λ (r : IngressRouteRegistry). IsCoherent r.publish_filter_cache d)
                    (sym (registry-settle _ _ in_ep out_ep _))
                    (register_route-IsCoherent d s.ingress_route_registry in_ep.transport
                      in_ep.authority out_ep.authority label _ s.world v))
          ]
        ]

  module _ {W : Type 0} ⦃t : TransportOps W⦄ where
    remove_route-PlanesCoherent :
        (d : SubscriptionDirectory) (s : Planes W) (in_ep out_ep : Endpoint)
        → PlanesCoherent s d
        → PlanesCoherent (RouteLifecycle.remove_route s in_ep out_ep).1 d
    unfolding RouteLifecycle.remove_route RouteTable.remove_route
    remove_route-PlanesCoherent d s in_ep out_ep v =
        elim (Bool-cases (in_ep.authority == out_ep.authority)) [
          | inl same ↦ rw (same, RouteLifecycle.remove_route) v
          | inr differ ↦ elim (Bool-cases (contains (from_endpoints in_ep out_ep) s.route_table)) [
            | inl old ↦
                rw (differ, old, RouteLifecycle.remove_route)
                  (subst (λ c. IsCoherent c d)
                    (sym (
                      cache-unregister_route s.ingress_route_registry in_ep.transport
                        in_ep.authority out_ep.authority s.world))
                    v)
            | inr new ↦ rw (differ, new, RouteLifecycle.remove_route) v
          ]
        ]

-- The cache is coherent, and at most one version was used up by each call.
record Kept ⦃o : UriOps⦄ {W : Type 0} (n : ℕ) (s : UStreamer W) : Type 0 where
  coherent : PlanesCoherent s.planes s.subscription_directory
  few : s.subscription_directory.next_version ≤ n + 1

module _ ⦃o : UriOps⦄ where
  next_version-apply_snapshot :
      (d : SubscriptionDirectory) (response : FetchSubscriptionsResponse)
      → d.next_version + 1 < word
      → (apply_snapshot d response).1.next_version ≤ d.next_version + 1
  unfolding apply_snapshot
  next_version-apply_snapshot d response small =
      elim (Result-cases (SubscriptionCache.new response)) [
        | inr (e, q) ↦ rw (q, apply_snapshot) (omega arith)
        | inl (cache, q) ↦ rw (q, apply_snapshot) (omega (arith, increment-eq_of_lt d.next_version))
      ]

module _ ⦃o : UriOps⦄ {W : Type 0} where
  finish_refresh-Kept :
      (n now : ℕ) (r : Result UStatus (Unit {0})) (s : UStreamer W)
      → Kept n s
      → Kept n (finish_refresh now r s).1
  unfolding finish_refresh update_subscription_sync_health
  finish_refresh-Kept n now (ok _) s k = record { coherent = k.coherent; few = k.few }
  finish_refresh-Kept n now (err e) s k = record { coherent = k.coherent; few = k.few }

  apply_fetched-Kept :
      (n now : ℕ) (r : Result UStatus FetchSubscriptionsResponse) (s : UStreamer W)
      → n + 2 < word
      → Kept n s
      → Kept (suc n) (apply_fetched now r s).1
  unfolding apply_fetched apply_subscription_snapshot
  apply_fetched-Kept n now (err e) s small k =
      finish_refresh-Kept (suc n) now (err e) s
        (record { coherent = k.coherent; few = omega (arith, k.few) })
  apply_fetched-Kept n now (ok response) s small k = finish_refresh-Kept (suc n) now _ _ (record {
    coherent =
        apply_snapshot-IsCoherent s.planes.ingress_route_registry.publish_filter_cache
          s.subscription_directory response (omega (arith, k.few)) k.coherent;
    few = omega (
      arith,
      next_version-apply_snapshot s.subscription_directory response (omega (arith, k.few)),
      k.few,
    );
  })

module _ ⦃o : UriOps⦄ ⦃f : FormatOps⦄ ⦃e : RuntimeOps⦄ {W S : Type 0} ⦃t : TransportOps W⦄
    ⦃u : SubscriptionOps S⦄ where
  step-Kept :
      (n : ℕ) (x : UStreamer W × S) (c : Call)
      → n + 2 < word
      → Kept n x.0
      → Kept (suc n) (step x c).0
  unfolding step add_route delete_route refresh_subscriptions
  step-Kept n (s, service) (adds in_ep out_ep) small k = record {
    coherent =
        add_route-PlanesCoherent s.subscription_directory s.planes in_ep out_ep
          (route_label in_ep out_ep) k.coherent;
    few = omega (arith, k.few);
  }
  step-Kept n (s, service) (deletes in_ep out_ep) small k = record {
    coherent =
        remove_route-PlanesCoherent s.subscription_directory s.planes in_ep out_ep k.coherent;
    few = omega (arith, k.few);
  }
  step-Kept n (s, service) (refreshes now) small k =
      apply_fetched-Kept n now (u.fetch_subscriptions service).0 s small k

  run-Kept :
      (n : ℕ) (x : UStreamer W × S) (cs : List Call)
      → n + length cs + 1 < word
      → Kept n x.0
      → PlanesCoherent (run x cs).0.planes (run x cs).0.subscription_directory
  unfolding run
  run-Kept n x [] small k = k.coherent
  run-Kept n x (c ∷ cs) small k =
      run-Kept (suc n) (step x c) cs (omega arith) (step-Kept n x c (omega arith) k)

  new-Kept :
      (name : String) (queue : ℕ) (world : W) (now : ℕ) (service : S)
      → Kept 1 (new name queue world now service).0
  unfolding new refresh_subscriptions IngressRegistry.new SubscriptionDirectory.empty from_cache get
  new-Kept name queue world now service = apply_fetched-Kept 0 now _ _ (omega arith) (record {
    coherent = record { current = λ a b f h. cc h; unborn = λ a b v lt. refl; ahead = omega arith };
    few = omega arith;
  })

  -- After any history of fewer than 2 ^ 64 - 2 calls, the filters that a new route would be given, from the
  -- cache or not, are those derived from the subscriptions of the last snapshot that was applied.
  pub run-fresh_filters :
      (name : String) (queue : ℕ) (world : W) (now : ℕ) (service : S) (calls : List Call)
      (a b : String)
      → length calls + 2 < word
      → let s = (run (new name queue world now service) calls).0 in
        (derive_publish_filters_cached s.planes.ingress_route_registry a b
          s.subscription_directory).0
        ≡ fresh_filters s.subscription_directory a b
  run-fresh_filters name queue world now service calls a b small =
      derive_publish_filters_cached-eq-fresh_filters _ a b _ (
        run-Kept 1 (new name queue world now service) calls (omega arith)
          (new-Kept name queue world now service))
