-- ===== src/DataPlane/IngressRegistry/Connected.antt =====
-- To which channel the listener of a new binding sends.
use up_streamer_rust.Base.{
  ℕ, String, ◌≡◌, refl, sym, none, some, List, Result, ok, err, nat_equality, string_equality,
  option_equality, pair_equality,
}
use up_streamer_rust.Base.Map.{get, insert, get-insert_self}
use up_streamer_rust.Base.Usize.{increment}
use up_streamer_rust.UpRust.{UriOps, UStatus}
use up_streamer_rust.Routing.SubscriptionDirectory.{SubscriptionDirectory}
use up_streamer_rust.DataPlane.IngressListener.{IngressRouteListener}
use up_streamer_rust.DataPlane.IngressListener
use up_streamer_rust.DataPlane.Transport.{ListenerFilter, TransportOps}
use up_streamer_rust.DataPlane.IngressRegistry.{
  IngressRouteRegistry, IngressRouteBinding, IngressRouteBindingKey,
  ingress_route_binding_key_equality, IngressRouteRegistrationError, Registration, binding_key,
  conclude_registration, commit_route, register_publish_route, register_new_route, register_route,
}
use up_streamer_rust.DataPlane.IngressRegistry.RefCount.{bindings-derive_publish_filters_cached}
use mathlib.Core.Path.{subst}

-- The binding under `key` has this listener, where the registration succeeded.
abbrev pub Connects :
    {W : Type 0}
    → IngressRouteBindingKey
    → IngressRouteListener
    → Registration × (IngressRouteRegistry × W)
    → Type 0
Connects key l (err e, rest) = Unit
Connects key l (ok made, rest) =
    (b : IngressRouteBinding) × (get key rest.0.bindings ≡ some b) × (b.listener ≡ l)

module _ {W : Type 0} ⦃t : TransportOps W⦄ (in_t : ℕ) (l : IngressRouteListener) where
  conclude_registration-Connects :
      (r : IngressRouteRegistry) (key : IngressRouteBindingKey)
      (x : Result IngressRouteRegistrationError (List ListenerFilter) × W)
      → get key r.bindings ≡ none
      → Connects key l (conclude_registration r key in_t l x)
  unfolding conclude_registration commit_route
  conclude_registration-Connects r key (err e, w) absent = tt
  conclude_registration-Connects r key (ok fs, w) absent =
      rw (absent, commit_route) (_, get-insert_self key _ r.bindings, refl)

  module _ ⦃o : UriOps⦄ (a b : String) (d : SubscriptionDirectory) (r : IngressRouteRegistry) where
    register_publish_route-Connects :
        (x : Result UStatus (Unit {0}) × W)
        → get (binding_key in_t a b) r.bindings ≡ none
        → Connects (binding_key in_t a b) l (register_publish_route r in_t a b l d x)
    unfolding register_publish_route
    register_publish_route-Connects (err e, w) absent = tt
    register_publish_route-Connects (ok u, w) absent =
        conclude_registration-Connects _ (binding_key in_t a b) _ (
          subst (λ m. get (binding_key in_t a b) m ≡ none)
            (sym (bindings-derive_publish_filters_cached r a b d)) absent)

module _ ⦃o : UriOps⦄ {W : Type 0} ⦃t : TransportOps W⦄ where
  pub register_route-Connects :
      (r : IngressRouteRegistry) (in_t : ℕ) (a b label : String) (sender : ℕ)
      (d : SubscriptionDirectory) (w : W)
      → get (binding_key in_t a b) r.bindings ≡ none
      → Connects
          (binding_key in_t a b)
          (IngressListener.new r.next_address label sender)
          (register_route r in_t a b label sender d w)
  unfolding register_route register_new_route
  register_route-Connects r in_t a b label sender d w absent =
      rw (absent, register_route) (register_publish_route-Connects in_t _ a b d _ _ absent)

  pub register_route-shared :
      (r : IngressRouteRegistry) (in_t : ℕ) (a b label : String) (sender : ℕ)
      (d : SubscriptionDirectory) (w : W) (bound : IngressRouteBinding)
      → get (binding_key in_t a b) r.bindings ≡ some bound
      → register_route r in_t a b label sender d w ≡ (
        ok none,
        (
          record r {
            bindings =
                insert
                  (binding_key in_t a b)
                  (record bound { ref_count = increment bound.ref_count })
                  r.bindings;
          },
          w,
        ),
      )
  unfolding register_route
  register_route-shared r in_t a b label sender d w bound there = rw (there, register_route) refl
