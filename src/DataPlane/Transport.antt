-- ===== src/DataPlane/Transport.antt =====
-- The `UTransport` trait of up-rust as an interface. A transport is named by the address behind its
-- `Arc`, which is also all that up-streamer/src/control_plane/transport_identity.rs compares. `W` is the
-- state of all transports.
pub mod Watching
use up_streamer_rust.Base.{
  ℕ, ◌≡◌, refl, sym, ap, ◌∙◌, ◌↔◌, inl, inr, Bool, true, false, not, ◌&&◌, Option, arith,
  if◌then◌else◌, Result, ok, err, Result-cases, Equality, ◌==◌, nat_equality, string_equality,
  option_equality, pair_equality,
}
use up_streamer_rust.UpRust.{UUri, UStatus, uuri_equality}
use up_streamer_rust.DataPlane.IngressListener.{IngressRouteListener, listener_equality}

pub record TransportIdentityKey : Type 0 where
  pub transport : ℕ

abbrev pub transport_identity_key_beq : TransportIdentityKey → TransportIdentityKey → Bool
transport_identity_key_beq a b = a.transport == b.transport

pub transport_identity_key_beq_iff :
    (a b : TransportIdentityKey) → (transport_identity_key_beq a b ≡ true) ↔ (a ≡ b)
transport_identity_key_beq_iff a b = ground (arith, nat_equality.beq_iff a.transport b.transport)

instance abbrev pub transport_identity_key_equality : Equality TransportIdentityKey
transport_identity_key_equality = record {
  beq = transport_identity_key_beq;
  beq_iff = transport_identity_key_beq_iff;
}

abbrev pub ListenerFilter : Type 0
ListenerFilter = UUri × Option UUri

pub record TransportOps (W : Type 0) : Type 0 where
  pub register_listener :
      ℕ → ListenerFilter → IngressRouteListener → W → Result UStatus (Unit {0}) × W
  pub unregister_listener :
      ℕ → ListenerFilter → IngressRouteListener → W → Result UStatus (Unit {0}) × W

abbrev pub Registrations : Type 0
Registrations = ℕ → ListenerFilter → IngressRouteListener → Bool

-- One entry is set.
abbrev pub marked : Bool → ℕ → ListenerFilter → IngressRouteListener → Registrations → Registrations
marked value a f l before b g k = if a == b && f == g && l == k then value else before b g k

-- What the trait documents: a registration or unregistration that succeeds adds the listener to the
-- filter or takes it from there, and one that fails changes nothing. An unregistration may fail at any
-- time.
pub record DocumentedLaws {W : Type 0} (t : TransportOps W) : Type 0 where
  pub registered : W → Registrations
  pub register_ok :
      (a : ℕ) (f : ListenerFilter) (l : IngressRouteListener) (w : W)
      → (t.register_listener a f l w).0 ≡ ok tt
      → (b : ℕ) (g : ListenerFilter) (k : IngressRouteListener)
      → registered (t.register_listener a f l w).1 b g k ≡ marked true a f l (registered w) b g k
  pub register_err :
      (a : ℕ) (f : ListenerFilter) (l : IngressRouteListener) (w : W) (e : UStatus)
      → (t.register_listener a f l w).0 ≡ err e
      → (b : ℕ) (g : ListenerFilter) (k : IngressRouteListener)
      → registered (t.register_listener a f l w).1 b g k ≡ registered w b g k
  pub unregister_ok :
      (a : ℕ) (f : ListenerFilter) (l : IngressRouteListener) (w : W)
      → (t.unregister_listener a f l w).0 ≡ ok tt
      → (b : ℕ) (g : ListenerFilter) (k : IngressRouteListener)
      → registered (t.unregister_listener a f l w).1 b g k ≡ marked false a f l (registered w) b g k
  pub unregister_err :
      (a : ℕ) (f : ListenerFilter) (l : IngressRouteListener) (w : W) (e : UStatus)
      → (t.unregister_listener a f l w).0 ≡ err e
      → (b : ℕ) (g : ListenerFilter) (k : IngressRouteListener)
      → registered (t.unregister_listener a f l w).1 b g k ≡ registered w b g k

-- Beside that, a note of the answers: `refused` are the unregistrations that failed and that no success
-- has followed since, of a registration or an unregistration of the same listener on the same filter.
pub record TransportLaws {W : Type 0} (t : TransportOps W) : Type 0 where
  pub documented : DocumentedLaws t
  pub refused : W → Registrations
  pub register_ok_noted :
      (a : ℕ) (f : ListenerFilter) (l : IngressRouteListener) (w : W)
      → (t.register_listener a f l w).0 ≡ ok tt
      → (b : ℕ) (g : ListenerFilter) (k : IngressRouteListener)
      → refused (t.register_listener a f l w).1 b g k ≡ marked false a f l (refused w) b g k
  pub register_err_noted :
      (a : ℕ) (f : ListenerFilter) (l : IngressRouteListener) (w : W) (e : UStatus)
      → (t.register_listener a f l w).0 ≡ err e
      → (b : ℕ) (g : ListenerFilter) (k : IngressRouteListener)
      → refused (t.register_listener a f l w).1 b g k ≡ refused w b g k
  pub unregister_ok_noted :
      (a : ℕ) (f : ListenerFilter) (l : IngressRouteListener) (w : W)
      → (t.unregister_listener a f l w).0 ≡ ok tt
      → (b : ℕ) (g : ListenerFilter) (k : IngressRouteListener)
      → refused (t.unregister_listener a f l w).1 b g k ≡ marked false a f l (refused w) b g k
  pub unregister_err_noted :
      (a : ℕ) (f : ListenerFilter) (l : IngressRouteListener) (w : W) (e : UStatus)
      → (t.unregister_listener a f l w).0 ≡ err e
      → (b : ℕ) (g : ListenerFilter) (k : IngressRouteListener)
      → refused (t.unregister_listener a f l w).1 b g k ≡ marked true a f l (refused w) b g k

module _ {W : Type 0} ⦃t : TransportOps W⦄ (laws : TransportLaws t) where
  -- The listener is on the filter, and the transport has not refused to take it from there.
  abbrev pub holds : W → Registrations
  holds w a f l = laws.documented.registered w a f l && not (laws.refused w a f l)

  -- Where no listener is held, each that is there was refused.
  pub not_held-refused :
      (w : W) (a : ℕ) (f : ListenerFilter) (l : IngressRouteListener)
      → holds w a f l ≡ false
      → laws.documented.registered w a f l ≡ true
      → laws.refused w a f l ≡ true
  not_held-refused w a f l h there = ground (arith, h, there)

  pub silent-holds :
      (w : W) (a : ℕ) (f : ListenerFilter) (l : IngressRouteListener)
      → laws.documented.registered w a f l ≡ false
      → holds w a f l ≡ false
  silent-holds w a f l h = rw h refl

  module _ (a : ℕ) (f : ListenerFilter) (l : IngressRouteListener) (w : W) (b : ℕ)
      (g : ListenerFilter) (k : IngressRouteListener) where
    pub holds-register_ok :
        (t.register_listener a f l w).0 ≡ ok tt
        → holds (t.register_listener a f l w).1 b g k
          ≡ (if a == b && f == g && l == k then true else holds w b g k)
    holds-register_ok h =
        ground (
          arith,
          laws.documented.register_ok a f l w h b g k,
          laws.register_ok_noted a f l w h b g k,
        )

    pub holds-register_err :
        (e : UStatus)
        → (t.register_listener a f l w).0 ≡ err e
        → holds (t.register_listener a f l w).1 b g k ≡ holds w b g k
    holds-register_err e h =
        rw
          (
            laws.documented.register_err a f l w e h b g k,
            laws.register_err_noted a f l w e h b g k,
          )
          refl

    -- After `unregister_listener`, whatever it answers, the listener is not held, since it is gone or
    -- was refused.
    pub holds-unregister_listener :
        holds (t.unregister_listener a f l w).1 b g k
        ≡ (if a == b && f == g && l == k then false else holds w b g k)
    holds-unregister_listener = elim (Result-cases (t.unregister_listener a f l w).0) [
      | inl (_, e) ↦ ground (
        arith,
        laws.documented.unregister_ok a f l w e b g k,
        laws.unregister_ok_noted a f l w e b g k,
      )
      | inr (x, e) ↦ ground (
        arith,
        laws.documented.unregister_err a f l w x e b g k,
        laws.unregister_err_noted a f l w x e b g k,
      )
    ]
