-- ===== src/Tests/Relaying.antt =====
-- A bounded channel, and runs of listeners and workers on it.
use up_streamer_rust.Base.{
  ℕ, zero, suc, ◌<◌, ◌≡◌, refl, ap, Bool, true, false, Option, none, some, List, [], ◌∷◌, ◌++◌,
  arith, ltb, if◌then◌else◌, Result, ok, err, ◌==◌, nat_equality, string_equality, option_equality,
  pair_equality,
}
use up_streamer_rust.Base.Lists.{length}
use up_streamer_rust.UpRust.{UStatus}
use up_streamer_rust.DataPlane.Channel.{ChannelOps, ChannelLaws, RecvResult, received, lagged, tail}
use up_streamer_rust.DataPlane.IngressListener.{
  IngressRouteListener, UPayloadFormat, shm, receive_all, on_receive,
}
use up_streamer_rust.DataPlane.IngressListener.Forwarding.{pending-receive_all}
use up_streamer_rust.DataPlane.Relay.{Relay, Event, arrives, serves, dispatch, serve, step, run}
use up_streamer_rust.DataPlane.Relay.Account.{Account}
use up_streamer_rust.DataPlane.Relay.Order.{overflows, run-Sent}
use up_streamer_rust.DataPlane.Relay.Delivery.{turns, run-turns}

record Queue : Type 0 where
  size : ℕ
  waiting : List ℕ
  skipped : ℕ
  listening : Bool

abbrev queued : Bool → Bool → ℕ → Queue → Result ℕ ℕ × Queue
queued false room m c = (err m, c)
queued true true m c = (ok 1, record c { waiting = c.waiting ++ (m ∷ []) })
queued true false m c =
    (ok 1, record c { waiting = tail (c.waiting ++ (m ∷ [])); skipped = suc c.skipped })

abbrev next : ℕ → List ℕ → Queue → Option (RecvResult ℕ) × Queue
next (suc n) xs c = (some (lagged (suc n)), record c { skipped = 0 })
next zero [] c = (none, c)
next zero (m ∷ rest) c = (some (received m), record c { waiting = rest; skipped = 0 })

instance abbrev bounded_queue : ChannelOps Queue ℕ
bounded_queue = record {
  send = λ m c. queued c.listening (ltb (length c.waiting) c.size) m c;
  recv = λ c. next c.skipped c.waiting c;
}

size-queued :
    (b r : Bool) (m : ℕ) (c : Queue)
    → ((queued b r m c).1.size ≡ c.size) × ((queued b r m c).1.listening ≡ c.listening)
size-queued false r m c = (refl, refl)
size-queued true true m c = (refl, refl)
size-queued true false m c = (refl, refl)

size-next :
    (n : ℕ) (xs : List ℕ) (c : Queue)
    → ((next n xs c).1.size ≡ c.size) × ((next n xs c).1.listening ≡ c.listening)
size-next (suc n) xs c = (refl, refl)
size-next zero [] c = (refl, refl)
size-next zero (m ∷ rest) c = (refl, refl)

module _ (m : ℕ) (c : Queue) where
  queued_room :
      (b r : Bool)
      → b ≡ true
      → r ≡ true
      → ((queued b r m c).1.waiting ≡ c.waiting ++ (m ∷ []))
        × ((queued b r m c).1.skipped ≡ c.skipped)
  queued_room true true live room = (refl, refl)
  queued_room true false live room = cc
  queued_room false r live room = cc

  queued_full :
      (b r : Bool)
      → b ≡ true
      → r ≡ false
      → ((queued b r m c).1.waiting ≡ tail (c.waiting ++ (m ∷ [])))
        × ((queued b r m c).1.skipped ≡ suc c.skipped)
  queued_full true false live full = (refl, refl)
  queued_full true true live full = cc
  queued_full false r live full = cc

  queued_shut : (b r : Bool) → b ≡ false → (queued b r m c).1 ≡ c
  queued_shut false r shut = refl
  queued_shut true r shut = cc

module _ (c : Queue) where
  next_lagged :
      (i n : ℕ) (xs : List ℕ)
      → i ≡ suc n
      → ((next i xs c).0 ≡ some (lagged (suc n)))
        × ((next i xs c).1.waiting ≡ c.waiting)
        × ((next i xs c).1.skipped ≡ 0)
  next_lagged (suc i) n xs h = (ap (λ x. some (lagged x)) h, refl, refl)
  next_lagged zero n xs h = ground (arith, h)

  next_received :
      (i m : ℕ) (xs rest : List ℕ)
      → i ≡ 0
      → xs ≡ m ∷ rest
      → ((next i xs c).0 ≡ some (received m))
        × ((next i xs c).1.waiting ≡ rest)
        × ((next i xs c).1.skipped ≡ 0)
  next_received zero m (x ∷ xs) rest h p =
      let first : x ≡ m = cc in
      let others : xs ≡ rest = cc in (ap (λ y. some (received y)) first, others, refl)
  next_received zero m [] rest h p = cc
  next_received (suc i) m xs rest h p = ground (arith, h)

  next-none : (i : ℕ) (xs : List ℕ) → i ≡ 0 → xs ≡ [] → next i xs c ≡ (none, c)
  next-none zero [] h p = refl
  next-none zero (x ∷ xs) h p = cc
  next-none (suc i) xs h p = ground (arith, h)

abbrev bounded_queue-ChannelLaws : ChannelLaws bounded_queue
bounded_queue-ChannelLaws = record {
  capacity = λ c. c.size;
  pending = λ c. c.waiting;
  missed = λ c. c.skipped;
  has_receiver = λ c. c.listening;
  capacity-send = λ m c. (size-queued c.listening (ltb (length c.waiting) c.size) m c).0;
  capacity-recv = λ c. (size-next c.skipped c.waiting c).0;
  has_receiver-send = λ m c. (size-queued c.listening (ltb (length c.waiting) c.size) m c).1;
  has_receiver-recv = λ c. (size-next c.skipped c.waiting c).1;
  send_room = λ m c live room. queued_room m c c.listening _ live (ground (arith, room));
  send_full = λ m c live full. queued_full m c c.listening _ live (ground (arith, full));
  send_shut = λ m c shut. queued_shut m c c.listening _ shut;
  recv_lagged = λ c n h. next_lagged c c.skipped n c.waiting h;
  recv_next = λ c m rest h p. next_received c c.skipped m c.waiting rest h p;
  recv_wait = λ c h p. next-none c c.skipped c.waiting h p;
}

-- The messages below 10 have no format, those above are in shared memory.
abbrev format_of : ℕ → Option UPayloadFormat
format_of n = if ltb n 10 then none else some shm

abbrev listener : IngressRouteListener
listener = record { address = 0; route_id = "label"; sender = 3 }

abbrev channels : ℕ → Queue
channels k = record { size = 4; waiting = 7 ∷ []; skipped = 0; listening = k == 3 }

pending-receive_all_example :
    (receive_all format_of listener (1 ∷ 11 ∷ 2 ∷ []) channels 3).waiting ≡ 7 ∷ 1 ∷ 2 ∷ []
pending-receive_all_example =
    pending-receive_all bounded_queue-ChannelLaws format_of listener (1 ∷ 11 ∷ 2 ∷ []) channels 3
      (omega arith)

-- The state of a transport is what it was given, the newest first.
abbrev record_sent : ℕ → ℕ → List ℕ → Result UStatus (Unit {0}) × List ℕ
record_sent k m w = (ok tt, m ∷ w)

abbrev relay : Relay Queue (List ℕ)
relay = record { channels = channels; worlds = λ k. [] }

abbrev busy : List (Event ℕ)
busy = arrives listener 1 ∷ serves 3 ∷ arrives listener 12 ∷ arrives listener 2 ∷ []

run-Sent_example :
    let s = run format_of record_sent relay busy in
    Account bounded_queue-ChannelLaws
      (record_sent 3)
      []
      (overflows bounded_queue-ChannelLaws format_of record_sent 3 relay busy)
      (7 ∷ 1 ∷ 2 ∷ [])
      (s.channels 3)
      (s.worlds 3)
run-Sent_example = run-Sent bounded_queue-ChannelLaws format_of record_sent 3 relay busy refl

no_overflows : overflows bounded_queue-ChannelLaws format_of record_sent 3 relay busy ≡ 0
unfolding run step serve dispatch on_receive
no_overflows = refl

few_left : length ((run format_of record_sent relay busy).channels 3).waiting < 3
unfolding run step serve dispatch on_receive
few_left = omega arith

run-turns_example :
    let s = run format_of record_sent relay (busy ++ turns 3 3) in
    ((s.channels 3).waiting ≡ []) × (s.worlds 3 ≡ 2 ∷ 1 ∷ 7 ∷ [])
run-turns_example =
    run-turns bounded_queue-ChannelLaws format_of record_sent 3 relay busy 3 refl no_overflows
      few_left
