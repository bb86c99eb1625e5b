-- ===== src/DataPlane/Relay/Delivery.antt =====
-- Every message is sent in the end.
use up_streamer_rust.Base.{
  ℕ, zero, suc, ◌≤◌, ◌<◌, ◌≡◌, refl, sym, ap, ◌∙◌, true, Option, List, [], ◌∷◌, ◌++◌, arith, Result,
  nat_equality, string_equality, option_equality, pair_equality,
}
use up_streamer_rust.Base.Lists.{length, append_nil}
use up_streamer_rust.UpRust.{UStatus}
use up_streamer_rust.DataPlane.Channel.{ChannelOps, ChannelLaws}
use up_streamer_rust.DataPlane.IngressListener.{UPayloadFormat}
use up_streamer_rust.DataPlane.EgressWorker.Dispatch.{send_each}
use up_streamer_rust.DataPlane.Relay.{
  Relay, Event, serves, serve, step, run, arrival, listed, arrived,
}
use up_streamer_rust.DataPlane.Relay.Drops.{Drops-none, Drops-moved}
use up_streamer_rust.DataPlane.Relay.Account.{warned, took, waited, Received-turn, turn, weight}
use up_streamer_rust.DataPlane.Relay.Order.{at, at-dispatch, overflows, run-Sent}

-- `n` turns of the worker of channel `k` in a row.
abbrev pub turns : {Msg : Type 0} → ℕ → ℕ → List (Event Msg)
turns zero k = []
turns (suc n) k = serves k ∷ turns n k

module _ {C Msg W : Type 0} ⦃ch : ChannelOps C Msg⦄ (laws : ChannelLaws ch)
    (payload_format : Msg → Option UPayloadFormat)
    (send : ℕ → Msg → W → Result UStatus (Unit {0}) × W) (k : ℕ) where
  nothing_left : (xs : List Msg) → length xs ≤ 0 → xs ≡ []
  nothing_left [] h = refl
  nothing_left (x ∷ xs) h = ground (arith, h)

  run-append :
      (xs ys : List (Event Msg)) (s : Relay C W)
      → run payload_format send s (xs ++ ys)
        ≡ run payload_format send (run payload_format send s xs) ys
  unfolding run
  run-append [] ys s = refl
  run-append (e ∷ rest) ys s = run-append rest ys (step payload_format send s e)

  arrived-turns :
      (n : ℕ) (xs : List (Event Msg))
      → arrived payload_format k (xs ++ turns n k) ≡ arrived payload_format k xs
  arrived-turns zero [] = refl
  arrived-turns (suc n) [] = arrived-turns n []
  arrived-turns n (e ∷ rest) =
      ap (λ t. listed payload_format k (arrival payload_format k e) ++ t) (arrived-turns n rest)

  overflows-turns :
      (n : ℕ) (xs : List (Event Msg)) (s : Relay C W)
      → overflows laws payload_format send k s (xs ++ turns n k)
        ≡ overflows laws payload_format send k s xs
  overflows-turns zero [] s = refl
  overflows-turns (suc n) [] s =
      omega (arith, overflows-turns n [] (step payload_format send s (serves k)))
  overflows-turns n (e ∷ rest) s =
      omega (arith, overflows-turns n rest (step payload_format send s e))

  at-serve :
      (s : Relay C W)
      → at k (serve send k s) ≡ turn (send k) (ch.recv (s.channels k)) (s.channels k) (s.worlds k)
  unfolding serve
  at-serve s = at-dispatch send k (ch.recv (s.channels k)) s

  -- A turn empties the channel by one, or finds it empty.
  lighter :
      (s : Relay C W) (n : ℕ)
      → weight laws (s.channels k) ≤ suc n
      → weight laws ((serve send k s).channels k) ≤ n
  lighter s n h =
      rw (ap (λ x. x.0) (at-serve s))
        (elim (Received-turn laws (send k) (s.worlds k) (s.channels k) (s.worlds k)) [
          | warned m same_world same_pending less ↦ omega (arith, less, h)
          | took m rest before sends after less ↦ omega (arith, less, h)
          | waited nothing same ↦ rw (ap (λ x. x.0) same, nothing) (omega arith)
        ])

  emptied :
      (n : ℕ) (s : Relay C W)
      → weight laws (s.channels k) ≤ n
      → laws.pending ((run payload_format send s (turns n k)).channels k) ≡ []
  unfolding run step
  emptied zero s h = nothing_left (laws.pending (s.channels k)) (omega (arith, h))
  emptied (suc n) s h = emptied n (serve send k s) (lighter s n h)

  weight-le : (c : C) → weight laws c ≤ suc (length (laws.pending c))
  weight-le c = grind arith

  -- Where a worker has a receiver for its channel and no message for it ever arrives at the full
  -- channel, then after any sequence of arrivals and turns, in any order, followed by more turns
  -- of that worker than there are messages left on its channel, its transport has been given exactly what the
  -- channel held at first and the messages that were forwarded to it, those not in shared memory,
  -- each once and in their order, and the channel is empty.
  pub run-turns :
      (s : Relay C W) (events : List (Event Msg)) (n : ℕ)
      → laws.has_receiver (s.channels k) ≡ true
      → overflows laws payload_format send k s events ≡ 0
      → length (laws.pending ((run payload_format send s events).channels k)) < n
      → let s' = run payload_format send s (events ++ turns n k) in
        (laws.pending (s'.channels k) ≡ [])
        × (s'.worlds k
            ≡ send_each
                (send k)
                (laws.pending (s.channels k) ++ arrived payload_format k events)
                (s.worlds k))
  run-turns s events n live none_lost enough =
      let a = run-Sent laws payload_format send k s (events ++ turns n k) live in
      let empty =
        ap (λ x. laws.pending (x.channels k)) (run-append events (turns n k) s)
        ∙ emptied n (run payload_format send s events)
            (omega (arith, enough, weight-le ((run payload_format send s events).channels k))) in
      let all_sent =
        Drops-none (
          Drops-moved {m = 0} (sym (overflows-turns n events s ∙ none_lost))
            (sym (ap (λ xs. a.sent ++ xs) empty ∙ append_nil a.sent)) a.kept)
        ∙ ap (λ xs. laws.pending (s.channels k) ++ xs) (arrived-turns n events) in
      (empty, a.world ∙ ap (λ xs. send_each (send k) xs (s.worlds k)) all_sent)
