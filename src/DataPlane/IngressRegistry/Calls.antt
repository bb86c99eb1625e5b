-- ===== src/DataPlane/IngressRegistry/Calls.antt =====
-- What the loops over filters do to the listeners that the transports hold.
use up_streamer_rust.Base.{
  ℕ, ◌≡◌, refl, ap, ◌∙◌, inl, inr, Bool, true, false, ◌&&◌, ◌||◌, none, List, [], ◌∷◌, ◌++◌, arith,
  if◌then◌else◌, Result, ok, err, Result-cases, ◌==◌, nat_equality, string_equality,
  option_equality, pair_equality, eq_of_beq,
}
use mathlib.Core.Path.{subst}
use up_streamer_rust.Base.Lists.{contains}
use up_streamer_rust.UpRust.{UUri, uuri_equality}
use up_streamer_rust.DataPlane.IngressListener.{IngressRouteListener, listener_equality}
use up_streamer_rust.DataPlane.Transport.{
  holds, holds-register_ok, holds-register_err, holds-unregister_listener,
}
use up_streamer_rust.DataPlane.Transport.{ListenerFilter, TransportOps, TransportLaws}
use up_streamer_rust.DataPlane.IngressRegistry.{
  IngressRouteRegistrationError, rollback_registered_filters, unregister_filters,
  register_publish_filters,
}

contains-append :
    (g : ListenerFilter) (fs hs : List ListenerFilter)
    → contains g (fs ++ hs) ≡ (contains g fs || contains g hs)
contains-append g [] hs = refl
contains-append g (f ∷ fs) hs = ground (arith, contains-append g fs hs)

-- One more filter taken away.
taken_twice :
    (x p c z r : Bool)
    → (if x && c && z then false else (if x && p && z then false else r))
      ≡ (if x && (p || c) && z then false else r)
taken_twice x p c z r = ground arith

-- What was added and taken away is as it was, if it was not there before.
taken_back :
    (x c z r : Bool)
    → (x ≡ true → z ≡ true → r ≡ false)
    → (if x && c && z then false else (if x && c && z then true else r)) ≡ r
taken_back x c z r h = ground arith

taken_absent :
    (x c z r : Bool) → (x ≡ true → z ≡ true → r ≡ false) → (if x && c && z then false else r) ≡ r
taken_absent x c z r h = ground arith

pub nothing_added : (x z r : Bool) → r ≡ (if x && false && z then true else r)
nothing_added x z r = ground arith

module _ {W : Type 0} ⦃t : TransportOps W⦄ (laws : TransportLaws t) (a : ℕ)
    (l : IngressRouteListener) where
  -- The listener is on these filters of transport `a`, and all else is as in `base`.
  abbrev pub HoldsOn : W → List ListenerFilter → W → Type 0
  HoldsOn base fs w =
      (b : ℕ) (g : ListenerFilter) (k : IngressRouteListener)
      → holds laws w b g k
        ≡ (if a == b && contains g fs && l == k then true else holds laws base b g k)

  -- The listener is on no filter of transport `a`.
  abbrev pub IsUnused : W → Type 0
  IsUnused w = (g : ListenerFilter) → holds laws w a g l ≡ false

  pub rollback-registered :
      (fs : List ListenerFilter) (w : W) (b : ℕ) (g : ListenerFilter) (k : IngressRouteListener)
      → holds laws (rollback_registered_filters a fs l w) b g k
        ≡ (if a == b && contains g fs && l == k then false else holds laws w b g k)
  unfolding rollback_registered_filters
  rollback-registered [] w b g k = ground arith
  rollback-registered (f ∷ fs) w b g k =
      rollback-registered fs (t.unregister_listener a f l w).1 b g k
      ∙ ap (λ r. if a == b && contains g fs && l == k then false else r)
          (holds-unregister_listener laws a f l w b g k)
      ∙ taken_twice (a == b) (f == g) (contains g fs) (l == k) (holds laws w b g k)

  pub unregister_filters-eq-rollback :
      (fs : List ListenerFilter) (w : W)
      → unregister_filters a fs l w ≡ rollback_registered_filters a fs l w
  unfolding unregister_filters rollback_registered_filters
  unregister_filters-eq-rollback [] w = refl
  unregister_filters-eq-rollback (f ∷ fs) w =
      unregister_filters-eq-rollback fs (t.unregister_listener a f l w).1

  -- Rolling back what was registered restores the state before.
  pub rollback-HoldsOn :
      (base : W) (fs : List ListenerFilter) (w : W)
      → IsUnused base
      → HoldsOn base fs w
      → HoldsOn base [] (rollback_registered_filters a fs l w)
  rollback-HoldsOn base fs w unused h b g k =
      rollback-registered fs w b g k
      ∙ ap (λ r. if a == b && contains g fs && l == k then false else r) (h b g k)
      ∙ taken_back (a == b) (contains g fs) (l == k) (holds laws base b g k) (λ p q.
        subst (λ c. holds laws base c g k ≡ false) (eq_of_beq a b p)
          (subst (λ m. holds laws base a g m ≡ false) (eq_of_beq l k q) (unused g)))
      ∙ nothing_added (a == b) (l == k) (holds laws base b g k)

  -- Rolling back filters that the listener was never on changes nothing.
  pub rollback-nothing :
      (base : W) (fs : List ListenerFilter) (w : W)
      → IsUnused base
      → ((b : ℕ) (g : ListenerFilter) (k : IngressRouteListener)
          → holds laws w b g k ≡ holds laws base b g k)
      → (b : ℕ) (g : ListenerFilter) (k : IngressRouteListener)
      → holds laws (rollback_registered_filters a fs l w) b g k ≡ holds laws base b g k
  rollback-nothing base fs w unused h b g k =
      rollback-registered fs w b g k
      ∙ ap (λ r. if a == b && contains g fs && l == k then false else r) (h b g k)
      ∙ taken_absent (a == b) (contains g fs) (l == k) (holds laws base b g k) (λ p q.
        subst (λ c. holds laws base c g k ≡ false) (eq_of_beq a b p)
          (subst (λ m. holds laws base a g m ≡ false) (eq_of_beq l k q) (unused g)))

  -- The result of the loop over the publish filters: all of them, or none at all.
  abbrev pub Registered :
      W → Result IngressRouteRegistrationError (List ListenerFilter) × W → Type 0
  Registered base (ok fs, w) = HoldsOn base fs w
  Registered base (err e, w) = HoldsOn base [] w

  pub HoldsOn-register :
      (base : W) (fs : List ListenerFilter) (f : ListenerFilter) (w : W)
      → HoldsOn base fs w
      → (t.register_listener a f l w).0 ≡ ok tt
      → HoldsOn base (fs ++ (f ∷ [])) (t.register_listener a f l w).1
  HoldsOn-register base fs f w h e b g k =
      ground (arith, holds-register_ok laws a f l w b g k e, h b g k, contains-append g fs (f ∷ []))

  pub register_publish_filters-Registered :
      (base : W) (sources : List UUri) (fs : List ListenerFilter) (w : W)
      → IsUnused base
      → HoldsOn base fs w
      → Registered base (register_publish_filters a l sources fs w)
  unfolding register_publish_filters
  register_publish_filters-Registered base [] fs w unused h = h
  register_publish_filters-Registered base (u ∷ rest) fs w unused h =
      elim (Result-cases (t.register_listener a (u, none) l w).0) [
        | inl (_, e) ↦
            rw (e, register_publish_filters)
              (register_publish_filters-Registered base rest _ _ unused
                (HoldsOn-register base fs (u, none) w h e))
        | inr (x, e) ↦
            rw (e, register_publish_filters)
              (rollback-HoldsOn base fs _ unused
                (λ b g k. holds-register_err laws a (u, none) l w b g k x e ∙ h b g k))
      ]
