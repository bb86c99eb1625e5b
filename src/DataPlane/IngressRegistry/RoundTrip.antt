-- ===== src/DataPlane/IngressRegistry/RoundTrip.antt =====
-- Registering a route and unregistering it again.
use up_streamer_rust.Base.{
  ℕ, ◌<◌, String, ◌≡◌, refl, sym, ap, ◌∙◌, inl, inr, true, false, Option, none, some, List, [], ◌∷◌,
  arith, ltb, Result, ok, err, Bool-cases, Option-cases, ◌==◌, nat_equality, string_equality,
  option_equality, pair_equality, beq_self,
}
use mathlib.Core.Path.{subst}
use up_streamer_rust.Base.Map.{get, insert, remove, get-insert_self}
use up_streamer_rust.Base.Usize.{word, increment, decrement, decrement-increment}
use up_streamer_rust.UpRust.{UriOps, UStatus}
use up_streamer_rust.Routing.SubscriptionDirectory.{SubscriptionDirectory}
use up_streamer_rust.DataPlane.IngressListener.{IngressRouteListener}
use up_streamer_rust.DataPlane.Transport.{holds}
use up_streamer_rust.DataPlane.Transport.{ListenerFilter, TransportOps, TransportLaws}
use up_streamer_rust.DataPlane.IngressRegistry.{
  IngressRouteRegistry, IngressRouteBinding, IngressRouteBindingKey,
  ingress_route_binding_key_equality, IngressRouteRegistrationError, Registration, binding_key,
  derive_publish_filters_cached, conclude_registration, commit_route, register_publish_route,
  register_new_route, register_route, unregister_route,
}
use up_streamer_rust.DataPlane.IngressRegistry.RefCount.{
  Bindings, CountsBinding, bindings-derive_publish_filters_cached,
}
use up_streamer_rust.DataPlane.IngressRegistry.Connected.{register_route-shared}
use up_streamer_rust.DataPlane.IngressRegistry.Listeners.{owns}
use up_streamer_rust.DataPlane.IngressRegistry.Sync.{
  IsSynced, register_route-IsSynced, unregister_route-IsSynced,
}

remove-insert :
    (k : IngressRouteBindingKey) (b : IngressRouteBinding) (m : Bindings)
    → get k m ≡ none
    → remove k (insert k b m) ≡ m
unfolding get insert remove
remove-insert k b [] absent = rw (beq_self k) refl
remove-insert k b ((j, c) ∷ m) absent = elim (Bool-cases (j == k)) [
  | inl same ↦ let taken = rw same at absent in cc
  | inr other ↦
      rw other (rw other (ap (λ x. (j, c) ∷ x) (remove-insert k b m (rw other at absent))))
]

none_left : ltb 0 (decrement 1) ≡ false
unfolding decrement
none_left = refl

-- The new binding stands beside the old ones, where the registration succeeded.
abbrev Inserts :
    {W : Type 0}
    → Bindings
    → IngressRouteBindingKey
    → Registration × (IngressRouteRegistry × W)
    → Type 0
Inserts m key (err e, rest) = Unit
Inserts m key (ok made, rest) =
    (b : IngressRouteBinding) × (rest.0.bindings ≡ insert key b m) × (b.ref_count ≡ 1)

module _ {W : Type 0} ⦃t : TransportOps W⦄ (in_t : ℕ) (l : IngressRouteListener) where
  conclude_registration-Inserts :
      (r : IngressRouteRegistry) (key : IngressRouteBindingKey)
      (x : Result IngressRouteRegistrationError (List ListenerFilter) × W)
      → get key r.bindings ≡ none
      → Inserts r.bindings key (conclude_registration r key in_t l x)
  unfolding conclude_registration commit_route
  conclude_registration-Inserts r key (err e, w) absent = tt
  conclude_registration-Inserts r key (ok fs, w) absent = rw (absent, commit_route) (_, refl, refl)

  module _ ⦃o : UriOps⦄ (a b : String) (d : SubscriptionDirectory) (r : IngressRouteRegistry) where
    register_publish_route-Inserts :
        (x : Result UStatus (Unit {0}) × W)
        → get (binding_key in_t a b) r.bindings ≡ none
        → Inserts r.bindings (binding_key in_t a b) (register_publish_route r in_t a b l d x)
    unfolding register_publish_route
    register_publish_route-Inserts (err e, w) absent = tt
    register_publish_route-Inserts (ok u, w) absent =
        let same = bindings-derive_publish_filters_cached r a b d in
        subst
          (λ m. Inserts m (binding_key in_t a b) (register_publish_route r in_t a b l d (ok u, w)))
          same
          (conclude_registration-Inserts (derive_publish_filters_cached r a b d).1
            (binding_key in_t a b) _
            (subst (λ m. get (binding_key in_t a b) m ≡ none) (sym same) absent))

module _ ⦃o : UriOps⦄ {W : Type 0} ⦃t : TransportOps W⦄ where
  register_route-Inserts :
      (r : IngressRouteRegistry) (in_t : ℕ) (a b label : String) (sender : ℕ)
      (d : SubscriptionDirectory) (w : W)
      → get (binding_key in_t a b) r.bindings ≡ none
      → Inserts r.bindings (binding_key in_t a b) (register_route r in_t a b label sender d w)
  unfolding register_route register_new_route
  register_route-Inserts r in_t a b label sender d w absent =
      rw (absent, register_route) (register_publish_route-Inserts in_t _ a b d _ _ absent)

module _ {W : Type 0} ⦃t : TransportOps W⦄ (r : IngressRouteRegistry) (in_t : ℕ) (a b : String)
    (w : W) where
  unregister_last :
      (bound : IngressRouteBinding) (m : Bindings)
      → get (binding_key in_t a b) m ≡ none
      → r.bindings ≡ insert (binding_key in_t a b) bound m
      → bound.ref_count ≡ 1
      → (unregister_route r in_t a b w).0.bindings ≡ m
  unfolding unregister_route
  unregister_last bound m absent inserted one =
      rw
        (
          ap (get (binding_key in_t a b)) inserted ∙ get-insert_self (binding_key in_t a b) bound m,
          unregister_route,
        )
        (rw (ap (λ n. ltb 0 (decrement n)) one ∙ none_left) (
          ap (remove (binding_key in_t a b)) inserted
          ∙ remove-insert (binding_key in_t a b) bound m absent))

  unregister_shared :
      (bound : IngressRouteBinding)
      → get (binding_key in_t a b) r.bindings ≡ some bound
      → ltb 0 (decrement bound.ref_count) ≡ true
      → (unregister_route r in_t a b w).1 ≡ w
  unfolding unregister_route
  unregister_shared bound there more = rw (there, unregister_route) (rw more refl)

module _ {W : Type 0} ⦃t : TransportOps W⦄ (in_t : ℕ) (a b : String) where
  bindings-unregister_inserted :
      (m : Bindings) (x : Registration × (IngressRouteRegistry × W))
      (made : Option IngressRouteListener)
      → get (binding_key in_t a b) m ≡ none
      → Inserts m (binding_key in_t a b) x
      → x.0 ≡ ok made
      → (unregister_route x.1.0 in_t a b x.1.1).0.bindings ≡ m
  bindings-unregister_inserted m (ok new, (r, w)) made absent i worked =
      unregister_last r in_t a b w i.0 m absent i.1 i.2
  bindings-unregister_inserted m (err e, (r, w)) made absent i worked = cc

more_left : (n : ℕ) → 0 < n → n < word → ltb 0 (decrement (increment n)) ≡ true
more_left n positive small = rw (decrement-increment n small) (ground arith)

module _ ⦃o : UriOps⦄ {W : Type 0} ⦃t : TransportOps W⦄ (laws : TransportLaws t) where
  -- The listeners are the same in both states, up to those whose removal was refused.
  abbrev pub HasListenersOf : W → W → Type 0
  HasListenersOf before after =
      (c : ℕ) (g : ListenerFilter) (l : IngressRouteListener)
      → holds laws after c g l ≡ holds laws before c g l

  shared_back :
      (r : IngressRouteRegistry) (in_t : ℕ) (a b label : String) (sender : ℕ)
      (d : SubscriptionDirectory) (w : W) (bound : IngressRouteBinding)
      → get (binding_key in_t a b) r.bindings ≡ some bound
      → 0 < bound.ref_count
      → bound.ref_count < word
      → let (answer, rest) = register_route r in_t a b label sender d w in
        (unregister_route rest.0 in_t a b rest.1).1 ≡ w
  shared_back r in_t a b label sender d w bound there positive small =
      rw (register_route-shared r in_t a b label sender d w bound there) (
        unregister_shared _ in_t a b w (record bound { ref_count = increment bound.ref_count })
          (get-insert_self (binding_key in_t a b)
            (record bound { ref_count = increment bound.ref_count }) r.bindings)
          (more_left bound.ref_count positive small))

  -- Where the listeners of the transports are those of the bindings and the binding of the route,
  -- if any, counts fewer than 2 ^ 64 routes: unregistering a route right after it was registered
  -- with success leaves the listeners as before, up to those whose removal was refused, whether the route
  -- had a binding of its own or shared one.
  pub unregister_route-register_route :
      (r : IngressRouteRegistry) (in_t : ℕ) (a b label : String) (sender : ℕ)
      (d : SubscriptionDirectory) (w : W) (made : Option IngressRouteListener) (n : ℕ)
      → IsSynced laws r w
      → CountsBinding (get (binding_key in_t a b) r.bindings) n
      → n < word
      → (register_route r in_t a b label sender d w).0 ≡ ok made
      → let (answer, rest) = register_route r in_t a b label sender d w in
        HasListenersOf w (unregister_route rest.0 in_t a b rest.1).1
  unregister_route-register_route r in_t a b label sender d w made n v counts small worked c g l =
      elim (Option-cases (get (binding_key in_t a b) r.bindings)) [
        | inl absent ↦
            let x = register_route r in_t a b label sender d w in
            let after =
              unregister_route-IsSynced laws x.1.0 in_t a b x.1.1
                (register_route-IsSynced laws r in_t a b label sender d w v) in
            after.held c g l
            ∙ ap (λ m. owns m c g l)
                (bindings-unregister_inserted in_t a b r.bindings x made absent
                  (register_route-Inserts r in_t a b label sender d w absent) worked)
            ∙ sym (v.held c g l)
        | inr (bound, there) ↦
            let counted : CountsBinding (some bound) n = rw there at counts in
            ap (λ w'. holds laws w' c g l)
              (shared_back r in_t a b label sender d w bound there (omega arith) (omega arith))
      ]
