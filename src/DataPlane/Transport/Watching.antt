-- ===== src/DataPlane/Transport/Watching.antt =====
-- Transports of the `UTransport` trait, watched from outside: a note of the unregistrations that failed.
use up_streamer_rust.Base.{
  ℕ, ◌≡◌, refl, sym, ap, ◌∙◌, true, false, Result, ok, err, nat_equality, string_equality,
  option_equality, pair_equality,
}
use up_streamer_rust.UpRust.{UStatus}
use up_streamer_rust.DataPlane.IngressListener.{IngressRouteListener}
use up_streamer_rust.DataPlane.Transport.{
  ListenerFilter, TransportOps, Registrations, marked, DocumentedLaws, TransportLaws,
}

-- The state of the transports with a note of the unregistrations that were refused, and of which no
-- success followed. The note has no influence on the answers.
pub record Watched (W : Type 0) : Type 0 where
  pub world : W
  pub refused : Registrations

module _ {W : Type 0} where
  abbrev pub note_registered :
      ℕ
      → ListenerFilter
      → IngressRouteListener
      → Registrations
      → Result UStatus (Unit {0}) × W
      → Result UStatus (Unit {0}) × Watched W
  note_registered a f l refused (ok u, w) =
      (ok u, record { world = w; refused = marked false a f l refused })
  note_registered a f l refused (err e, w) = (err e, record { world = w; refused = refused })

  abbrev pub note_unregistered :
      ℕ
      → ListenerFilter
      → IngressRouteListener
      → Registrations
      → Result UStatus (Unit {0}) × W
      → Result UStatus (Unit {0}) × Watched W
  note_unregistered a f l refused (ok u, w) =
      (ok u, record { world = w; refused = marked false a f l refused })
  note_unregistered a f l refused (err e, w) =
      (err e, record { world = w; refused = marked true a f l refused })

-- The same transports, watched.
abbrev pub watched_transports : {W : Type 0} → TransportOps W → TransportOps (Watched W)
watched_transports t = record {
  register_listener =
      λ a f l w. note_registered a f l w.refused (t.register_listener a f l w.world);
  unregister_listener =
      λ a f l w. note_unregistered a f l w.refused (t.unregister_listener a f l w.world);
}

module _ {W : Type 0} (a : ℕ) (f : ListenerFilter) (l : IngressRouteListener)
    (r : Registrations) where
  pub registered_answer :
      (x : Result UStatus (Unit {0}) × W)
      → ((note_registered a f l r x).0 ≡ x.0) × ((note_registered a f l r x).1.world ≡ x.1)
  registered_answer (ok u, w) = (refl, refl)
  registered_answer (err e, w) = (refl, refl)

  pub unregistered_answer :
      (x : Result UStatus (Unit {0}) × W)
      → ((note_unregistered a f l r x).0 ≡ x.0) × ((note_unregistered a f l r x).1.world ≡ x.1)
  unregistered_answer (ok u, w) = (refl, refl)
  unregistered_answer (err e, w) = (refl, refl)

  pub registered_note :
      (x : Result UStatus (Unit {0}) × W)
      → (x.0 ≡ ok tt → (note_registered a f l r x).1.refused ≡ marked false a f l r)
        × ((e : UStatus) → x.0 ≡ err e → (note_registered a f l r x).1.refused ≡ r)
  registered_note (ok u, w) = (λ h. refl, λ e h. cc h)
  registered_note (err e, w) = (λ h. cc h, λ x h. refl)

  pub unregistered_note :
      (x : Result UStatus (Unit {0}) × W)
      → (x.0 ≡ ok tt → (note_unregistered a f l r x).1.refused ≡ marked false a f l r)
        × ((e : UStatus)
            → x.0 ≡ err e
            → (note_unregistered a f l r x).1.refused ≡ marked true a f l r)
  unregistered_note (ok u, w) = (λ h. refl, λ e h. cc h)
  unregistered_note (err e, w) = (λ h. cc h, λ x h. refl)

module _ {W : Type 0} (t : TransportOps W) (laws : DocumentedLaws t) where
  -- Every transport that does as documented can be watched.
  unfoldable pub watched-TransportLaws : TransportLaws (watched_transports t)
  watched-TransportLaws = record {
    documented = record {
      registered = λ w. laws.registered w.world;
      register_ok = λ a f l w h b g k.
          let (same, world) =
            registered_answer a f l w.refused (t.register_listener a f l w.world) in
          ap (λ x. laws.registered x b g k) world
          ∙ laws.register_ok a f l w.world (sym same ∙ h) b g k;
      register_err = λ a f l w e h b g k.
          let (same, world) =
            registered_answer a f l w.refused (t.register_listener a f l w.world) in
          ap (λ x. laws.registered x b g k) world
          ∙ laws.register_err a f l w.world e (sym same ∙ h) b g k;
      unregister_ok = λ a f l w h b g k.
          let (same, world) =
            unregistered_answer a f l w.refused (t.unregister_listener a f l w.world) in
          ap (λ x. laws.registered x b g k) world
          ∙ laws.unregister_ok a f l w.world (sym same ∙ h) b g k;
      unregister_err = λ a f l w e h b g k.
          let (same, world) =
            unregistered_answer a f l w.refused (t.unregister_listener a f l w.world) in
          ap (λ x. laws.registered x b g k) world
          ∙ laws.unregister_err a f l w.world e (sym same ∙ h) b g k;
    };
    refused = λ w. w.refused;
    register_ok_noted = λ a f l w h b g k.
        let x = t.register_listener a f l w.world in
        ap (λ n. n b g k)
          ((registered_note a f l w.refused x).0 (sym (registered_answer a f l w.refused x).0 ∙ h));
    register_err_noted = λ a f l w e h b g k.
        let x = t.register_listener a f l w.world in
        ap (λ n. n b g k)
          ((registered_note a f l w.refused x).1 e
            (sym (registered_answer a f l w.refused x).0 ∙ h));
    unregister_ok_noted = λ a f l w h b g k.
        let x = t.unregister_listener a f l w.world in
        ap (λ n. n b g k)
          ((unregistered_note a f l w.refused x).0
            (sym (unregistered_answer a f l w.refused x).0 ∙ h));
    unregister_err_noted = λ a f l w e h b g k.
        let x = t.unregister_listener a f l w.world in
        ap (λ n. n b g k)
          ((unregistered_note a f l w.refused x).1 e
            (sym (unregistered_answer a f l w.refused x).0 ∙ h));
  }
