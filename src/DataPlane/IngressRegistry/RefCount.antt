-- ===== src/DataPlane/IngressRegistry/RefCount.antt =====
-- What `register_route` and `unregister_route` of the ingress registry do to the reference counts.
use up_streamer_rust.Base.{
  ℕ, ◌+◌, ◌<◌, String, ◌≡◌, refl, inl, inr, Option, none, some, List, [], ◌∷◌, arith, if◌then◌else◌,
  Result, ok, err, Option-cases, ◌==◌, nat_equality, string_equality, option_equality,
  pair_equality,
}
use mathlib.Core.Path.{subst}
use up_streamer_rust.Base.Map.{Map, get, insert, values, get-insert, get-remove}
use up_streamer_rust.Base.Usize.{
  word, increment, decrement, increment-eq_of_lt, decrement-eq_of_pos,
}
use up_streamer_rust.UpRust.{UriOps, UStatus}
use up_streamer_rust.Routing.PublishResolution.{publish_source_filter_cache_key_equality}
use up_streamer_rust.Routing.SubscriptionDirectory.{SubscriptionDirectory}
use up_streamer_rust.DataPlane.IngressListener.{IngressRouteListener}
use up_streamer_rust.DataPlane.Transport.{ListenerFilter, TransportOps}
use up_streamer_rust.DataPlane.IngressRegistry.{
  IngressRouteRegistry, IngressRouteBinding, IngressRouteBindingKey,
  ingress_route_binding_key_equality, binding_key, request_filter, Registration,
  derive_publish_filters_cached, IngressRouteRegistrationError, conclude_registration,
  register_publish_filters, commit_route, register_publish_route, register_new_route,
  register_route, unregister_route,
}

-- A binding is there exactly while some route uses it, and counts those routes.
abbrev pub CountsBinding : Option IngressRouteBinding → ℕ → Type 0
CountsBinding none n = n ≡ 0
CountsBinding (some b) n = (b.ref_count ≡ n) × (0 < n)

abbrev pub uses : IngressRouteBindingKey → IngressRouteBindingKey → ℕ
uses k j = if k == j then 1 else 0

abbrev pub Bindings : Type 0
Bindings = Map IngressRouteBindingKey IngressRouteBinding

-- One more route under `k`, or none after a failure.
abbrev pub Counted : Bindings → IngressRouteBindingKey → Registration → Bindings → Type 0
Counted m k (err e) m' = m' ≡ m
Counted m k (ok made) m' =
    (j : IngressRouteBindingKey) (n : ℕ)
    → n + 1 < word
    → CountsBinding (get j m) n
    → CountsBinding (get j m') (uses k j + n)

insert_fresh-CountsBinding :
    (m : Bindings) (k : IngressRouteBindingKey) (b : IngressRouteBinding)
    → get k m ≡ none
    → b.ref_count ≡ 1
    → (j : IngressRouteBindingKey) (n : ℕ) → n + 1 < word
    → CountsBinding (get j m) n
    → CountsBinding (get j (insert k b m)) (uses k j + n)
insert_fresh-CountsBinding m k b e one j n small h =
    rw get-insert (ground (arith, ingress_route_binding_key_equality.beq_iff k j))

share-CountsBinding :
    (m : Bindings) (k : IngressRouteBindingKey) (b : IngressRouteBinding)
    → get k m ≡ some b
    → (j : IngressRouteBindingKey) (n : ℕ) → n + 1 < word
    → CountsBinding (get j m) n
    → CountsBinding
        (get j (insert k (record b { ref_count = increment b.ref_count }) m))
        (uses k j + n)
share-CountsBinding m k b e j n small h =
    rw get-insert (
      ground
        (arith, ingress_route_binding_key_equality.beq_iff k j, increment-eq_of_lt b.ref_count))

module _ ⦃o : UriOps⦄ (r : IngressRouteRegistry) (a b : String) (d : SubscriptionDirectory) where
  pub bindings-derive_publish_filters_cached :
      (derive_publish_filters_cached r a b d).1.bindings ≡ r.bindings
  unfolding derive_publish_filters_cached
  bindings-derive_publish_filters_cached = ground arith

  pub next_address-derive_publish_filters_cached :
      (derive_publish_filters_cached r a b d).1.next_address ≡ r.next_address
  unfolding derive_publish_filters_cached
  next_address-derive_publish_filters_cached = ground arith

module _ {W : Type 0} ⦃t : TransportOps W⦄ where
  conclude_registration-Counted :
      (r : IngressRouteRegistry) (k : IngressRouteBindingKey) (a : ℕ) (l : IngressRouteListener)
      (x : Result IngressRouteRegistrationError (List ListenerFilter) × W)
      → let (answer, rest) = conclude_registration r k a l x in
        Counted r.bindings k answer rest.0.bindings
  unfolding conclude_registration commit_route
  conclude_registration-Counted r k a l (err e, w) = refl
  conclude_registration-Counted r k a l (ok fs, w) = elim (Option-cases (get k r.bindings)) [
    | inl e ↦ rw (e, commit_route) (insert_fresh-CountsBinding r.bindings k _ e refl)
    | inr (b, e) ↦ rw (e, commit_route) (share-CountsBinding r.bindings k b e)
  ]

module _ ⦃o : UriOps⦄ {W : Type 0} ⦃t : TransportOps W⦄ where
  register_publish_route-Counted :
      (r : IngressRouteRegistry) (in_t : ℕ) (a b : String) (l : IngressRouteListener)
      (d : SubscriptionDirectory) (x : Result UStatus (Unit {0}) × W)
      → let (answer, rest) = register_publish_route r in_t a b l d x in
        Counted r.bindings (binding_key in_t a b) answer rest.0.bindings
  unfolding register_publish_route
  register_publish_route-Counted r in_t a b l d (err e, w) = refl
  register_publish_route-Counted r in_t a b l d (ok _, w) =
      subst
        (λ m.
          let (answer, rest) =
            conclude_registration (derive_publish_filters_cached r a b d).1 (binding_key in_t a b)
              in_t l
              (register_publish_filters in_t l (values (derive_publish_filters_cached r a b d).0)
                (request_filter a b ∷ []) w) in
          Counted m (binding_key in_t a b) answer rest.0.bindings)
        (bindings-derive_publish_filters_cached r a b d)
        (conclude_registration-Counted (derive_publish_filters_cached r a b d).1 _ in_t l _)

  -- A success adds one to the count of the route's binding, and a failure leaves the bindings alone.
  pub register_route-Counted :
      (r : IngressRouteRegistry) (in_t : ℕ) (a b label : String) (sender : ℕ)
      (d : SubscriptionDirectory) (w : W)
      → let (answer, rest) = register_route r in_t a b label sender d w in
        Counted r.bindings (binding_key in_t a b) answer rest.0.bindings
  unfolding register_route register_new_route
  register_route-Counted r in_t a b label sender d w =
      elim (Option-cases (get (binding_key in_t a b) r.bindings)) [
        | inl e ↦ rw (e, register_route) (register_publish_route-Counted _ in_t a b _ d _)
        | inr (s, e) ↦ rw (e, register_route) (share-CountsBinding r.bindings _ s e)
      ]

module _ {W : Type 0} ⦃t : TransportOps W⦄ where
  pub unregister_route-CountsBinding :
      (r : IngressRouteRegistry) (in_t : ℕ) (a b : String) (w : W) (j : IngressRouteBindingKey)
      (n : ℕ)
      → n + 1 < word
      → CountsBinding (get j r.bindings) (uses (binding_key in_t a b) j + n)
      → CountsBinding (get j (unregister_route r in_t a b w).0.bindings) n
  unfolding unregister_route
  unregister_route-CountsBinding r in_t a b w j n small h =
      elim (Option-cases (get (binding_key in_t a b) r.bindings)) [
        | inl e ↦
            rw (e, unregister_route)
              (ground (arith, ingress_route_binding_key_equality.beq_iff (binding_key in_t a b) j))
        | inr (s, e) ↦
            rw (e, unregister_route)
              (ground (
                arith,
                get-remove (binding_key in_t a b) j r.bindings,
                get-insert (binding_key in_t a b) j (record s { ref_count = decrement s.ref_count })
                    r.bindings,
                decrement-eq_of_pos s.ref_count,
                ingress_route_binding_key_equality.beq_iff (binding_key in_t a b) j,
              ))
      ]
