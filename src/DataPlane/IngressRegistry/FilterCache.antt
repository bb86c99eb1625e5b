-- ===== src/DataPlane/IngressRegistry/FilterCache.antt =====
-- The cache of publish filters against their derivation from the current snapshot.
use up_streamer_rust.Base.{
  ℕ, ◌+◌, ◌<◌, String, ◌≡◌, refl, sym, ap, ◌∙◌, inl, inr, Bool, none, some, List, arith,
  if◌then◌else◌, Result, ok, err, Bool-cases, Option-cases, Result-cases, ◌==◌, nat_equality,
  string_equality, option_equality, pair_equality, eq_of_beq, beq_false,
}
use mathlib.Core.Path.{subst}
use up_streamer_rust.Base.Map.{Map, get, or_insert, get-or_insert_absent}
use up_streamer_rust.Base.Usize.{word, increment-eq_of_lt}
use up_streamer_rust.UpRust.{UriOps, UStatus, FetchSubscriptionsResponse}
use up_streamer_rust.Routing.SubscriptionCache
use up_streamer_rust.Routing.SubscriptionDirectory.{
  SubscriptionDirectory, lookup_route_subscribers_with_version,
  lookup_route_subscribers_from_snapshot, apply_snapshot,
}
use up_streamer_rust.Routing.PublishResolution.{
  SourceFilterLookup, PublishSourceFilterCacheKey, publish_source_filter_cache_key_equality,
  derive_source_filters,
}
use up_streamer_rust.DataPlane.IngressListener.{IngressRouteListener}
use up_streamer_rust.DataPlane.Transport.{ListenerFilter, TransportOps}
use up_streamer_rust.DataPlane.IngressRegistry.{
  IngressRouteRegistry, IngressRouteRegistrationError, ingress_route_binding_key_equality,
  IngressRouteBindingKey, binding_key, derive_publish_filters_cached, conclude_registration,
  commit_route, register_publish_route, register_new_route, register_route, unregister_route,
}

abbrev pub cache_key : String → String → ℕ → PublishSourceFilterCacheKey
cache_key a b v = record { ingress_authority = a; egress_authority = b; snapshot_version = v }

abbrev pub FilterCache : Type 0
FilterCache = Map PublishSourceFilterCacheKey SourceFilterLookup

module _ ⦃o : UriOps⦄ where
  -- The filters of a route under the current snapshot, with no cache.
  abbrev pub fresh_filters : SubscriptionDirectory → String → String → SourceFilterLookup
  fresh_filters d a b =
      derive_source_filters a (lookup_route_subscribers_from_snapshot d.snapshot b)

  -- What is cached under the current version is what would be derived now, and nothing is cached
  -- under a version to come.
  pub record IsCoherent (c : FilterCache) (d : SubscriptionDirectory) : Type 0 where
    pub current :
        (a b : String) (f : SourceFilterLookup)
        → get (cache_key a b d.snapshot.version) c ≡ some f
        → f ≡ fresh_filters d a b
    pub unborn : (a b : String) (v : ℕ) → d.snapshot.version < v → get (cache_key a b v) c ≡ none
    pub ahead : d.snapshot.version < d.next_version

  module _ (r : IngressRouteRegistry) (a b : String) (d : SubscriptionDirectory) where
    -- A cached answer is the derived one.
    pub derive_publish_filters_cached-eq-fresh_filters :
        IsCoherent r.publish_filter_cache d
        → (derive_publish_filters_cached r a b d).0 ≡ fresh_filters d a b
    unfolding derive_publish_filters_cached lookup_route_subscribers_with_version
    derive_publish_filters_cached-eq-fresh_filters c =
        elim (Option-cases (get (cache_key a b d.snapshot.version) r.publish_filter_cache)) [
          | inl e ↦ rw (e, derive_publish_filters_cached) refl
          | inr (f, e) ↦ rw (e, derive_publish_filters_cached) (c.current a b f e)
        ]

    derived-current :
        IsCoherent r.publish_filter_cache d
        → (a' b' : String) (f : SourceFilterLookup)
        → get (cache_key a b d.snapshot.version) r.publish_filter_cache ≡ none
        → get (cache_key a' b' d.snapshot.version) (
            or_insert
              (cache_key a b d.snapshot.version)
              (fresh_filters d a b)
              r.publish_filter_cache)
          ≡ some f
        → f ≡ fresh_filters d a' b'
    derived-current c a' b' f e h =
        elim (Bool-cases (cache_key a b d.snapshot.version == cache_key a' b' d.snapshot.version)) [
          | inl same ↦
              let k = eq_of_beq _ _ same in
              subst
                (λ (x : PublishSourceFilterCacheKey).
                  f ≡ fresh_filters d x.ingress_authority x.egress_authority)
                k (cc (h, written same))
          | inr other ↦ c.current a' b' f (cc (h, written other))
        ]
      where
        written :
            {x : Bool}
            → (cache_key a b d.snapshot.version == cache_key a' b' d.snapshot.version) ≡ x
            → get (cache_key a' b' d.snapshot.version) (
                or_insert
                  (cache_key a b d.snapshot.version)
                  (fresh_filters d a b)
                  r.publish_filter_cache)
              ≡ (if x
                  then some (fresh_filters d a b)
                  else get (cache_key a' b' d.snapshot.version) r.publish_filter_cache)
        written q =
            rw
              (
                get-or_insert_absent (cache_key a b d.snapshot.version)
                    (cache_key a' b' d.snapshot.version) (fresh_filters d a b)
                    r.publish_filter_cache e,
                q,
              )
              refl

    pub derive_publish_filters_cached-IsCoherent :
        IsCoherent r.publish_filter_cache d
        → IsCoherent (derive_publish_filters_cached r a b d).1.publish_filter_cache d
    unfolding derive_publish_filters_cached lookup_route_subscribers_with_version
    derive_publish_filters_cached-IsCoherent c =
        elim (Option-cases (get (cache_key a b d.snapshot.version) r.publish_filter_cache)) [
          | inl e ↦
              rw (e, derive_publish_filters_cached)
                (record {
                  current = λ a' b' f h. derived-current c a' b' f e h;
                  unborn = λ a' b' v lt.
                      get-or_insert_absent (cache_key a b d.snapshot.version) (cache_key a' b' v)
                        (fresh_filters d a b) r.publish_filter_cache e
                      ∙ rw
                          (beq_false (cache_key a b d.snapshot.version) (cache_key a' b' v) (λ k.
                            absurd (
                              omega (
                                arith,
                                ap (λ (x : PublishSourceFilterCacheKey). x.snapshot_version) k,
                              ))))
                          (c.unborn a' b' v lt);
                  ahead = c.ahead;
                })
          | inr (f, e) ↦ rw (e, derive_publish_filters_cached) c
        ]

  -- A snapshot that is applied has a version under which nothing is cached yet; one that is refused
  -- changes nothing.
  pub apply_snapshot-IsCoherent :
      (c : FilterCache) (d : SubscriptionDirectory) (response : FetchSubscriptionsResponse)
      → d.next_version + 1 < word
      → IsCoherent c d
      → IsCoherent c (apply_snapshot d response).1
  unfolding apply_snapshot
  apply_snapshot-IsCoherent c d response small v =
      elim (Result-cases (SubscriptionCache.new response)) [
        | inr (e, q) ↦ rw (q, apply_snapshot) v
        | inl (cache, q) ↦
            rw (q, apply_snapshot)
              (record {
                current = λ a b f h. absurd (cc (h, v.unborn a b d.next_version v.ahead));
                unborn = λ a b x lt. v.unborn a b x (omega (arith, v.ahead));
                ahead = omega (arith, increment-eq_of_lt d.next_version);
              })
      ]

  module _ {W : Type 0} ⦃t : TransportOps W⦄ (d : SubscriptionDirectory) where
    conclude_registration-cache :
        (r : IngressRouteRegistry) (k : IngressRouteBindingKey) (in_t : ℕ)
        (l : IngressRouteListener)
        (x : Result IngressRouteRegistrationError (List ListenerFilter) × W)
        → (conclude_registration r k in_t l x).1.0.publish_filter_cache ≡ r.publish_filter_cache
    unfolding conclude_registration commit_route
    conclude_registration-cache r k in_t l (err e, w) = refl
    conclude_registration-cache r k in_t l (ok fs, w) = ground arith

    register_publish_route-IsCoherent :
        (r : IngressRouteRegistry) (in_t : ℕ) (a b : String) (l : IngressRouteListener)
        (x : Result UStatus (Unit {0}) × W)
        → IsCoherent r.publish_filter_cache d
        → IsCoherent (register_publish_route r in_t a b l d x).1.0.publish_filter_cache d
    unfolding register_publish_route
    register_publish_route-IsCoherent r in_t a b l (err e, w) v = v
    register_publish_route-IsCoherent r in_t a b l (ok _, w) v =
        subst (λ c. IsCoherent c d)
          (sym (conclude_registration-cache (derive_publish_filters_cached r a b d).1 _ in_t l _))
          (derive_publish_filters_cached-IsCoherent r a b d v)

    pub register_route-IsCoherent :
        (r : IngressRouteRegistry) (in_t : ℕ) (a b label : String) (sender : ℕ) (w : W)
        → IsCoherent r.publish_filter_cache d
        → IsCoherent (register_route r in_t a b label sender d w).1.0.publish_filter_cache d
    unfolding register_route register_new_route
    register_route-IsCoherent r in_t a b label sender w v =
        elim (Option-cases (get (binding_key in_t a b) r.bindings)) [
          | inl e ↦ rw (e, register_route) (register_publish_route-IsCoherent _ in_t a b _ _ v)
          | inr (s, e) ↦ rw (e, register_route) v
        ]

module _ {W : Type 0} ⦃t : TransportOps W⦄ where
  pub cache-unregister_route :
      (r : IngressRouteRegistry) (in_t : ℕ) (a b : String) (w : W)
      → (unregister_route r in_t a b w).0.publish_filter_cache ≡ r.publish_filter_cache
  unfolding unregister_route
  cache-unregister_route r in_t a b w = ground arith
