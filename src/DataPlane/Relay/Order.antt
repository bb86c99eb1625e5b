-- ===== src/DataPlane/Relay/Order.antt =====
-- What a worker has sent after any sequence of events.
use up_streamer_rust.Base.{
  ℕ, ◌+◌, ◌≡◌, refl, sym, ap, inl, inr, true, false, Option, none, some, List, [], ◌∷◌, ◌++◌, arith,
  Result, Bool-cases, ◌==◌, nat_equality, string_equality, option_equality, pair_equality, beq_self,
  eq_of_beq,
}
use mathlib.Core.Path.{subst}
use up_streamer_rust.Base.Lists.{append_nil, append_assoc}
use up_streamer_rust.UpRust.{UStatus}
use up_streamer_rust.DataPlane.Channel.{ChannelOps, ChannelLaws, RecvResult}
use up_streamer_rust.DataPlane.IngressListener.{IngressRouteListener, UPayloadFormat, on_receive}
use up_streamer_rust.DataPlane.Relay.{
  Relay, Event, arrives, serves, dispatch, serve, step, run, arrival, arrived, listed,
}
use up_streamer_rust.DataPlane.Relay.Drops.{Drops-self}
use up_streamer_rust.DataPlane.Relay.Account.{Account, Account-send, Account-turn, turn, overflow}

-- What there is of channel `k`.
abbrev pub at : {C W : Type 0} → ℕ → Relay C W → C × W
at k s = (s.channels k, s.worlds k)

module _ {C Msg W : Type 0} ⦃ch : ChannelOps C Msg⦄
    (send : ℕ → Msg → W → Result UStatus (Unit {0}) × W) (k : ℕ) where
  pub at-dispatch :
      (x : Option (RecvResult Msg) × C) (s : Relay C W)
      → at k (dispatch send k x s) ≡ turn (send k) x (s.channels k) (s.worlds k)
  unfolding dispatch
  at-dispatch (none, c) s = refl
  at-dispatch (some event, c) s = rw (beq_self k) refl

  pub dispatch_elsewhere :
      (j : ℕ) (x : Option (RecvResult Msg) × C) (s : Relay C W)
      → (k == j) ≡ false
      → at k (dispatch send j x s) ≡ at k s
  unfolding dispatch
  dispatch_elsewhere j (none, c) s h = refl
  dispatch_elsewhere j (some event, c) s h = rw h refl

module _ {C Msg W : Type 0} ⦃ch : ChannelOps C Msg⦄ (laws : ChannelLaws ch)
    (payload_format : Msg → Option UPayloadFormat)
    (send : ℕ → Msg → W → Result UStatus (Unit {0}) × W) (k : ℕ) where
  -- How many messages for channel `k` an event makes the channel lose.
  abbrev pub lost : Relay C W → Event Msg → ℕ
  lost s e = elim (arrival payload_format k e) [
    | none ↦ 0
    | some msg ↦ overflow laws (s.channels k)
  ]

  abbrev pub overflows : Relay C W → List (Event Msg) → ℕ
  overflows s [] = 0
  overflows s (e ∷ rest) = lost s e + overflows (step payload_format send s e) rest

  abbrev AccountOf : W → ℕ → List Msg → C × W → Type 0
  AccountOf start n history (c, w) = Account laws (send k) start n history c w

  Account_moved :
      {n m : ℕ} (start : W) (history history' : List Msg) (x x' : C × W)
      → m ≡ n
      → history' ≡ history
      → x' ≡ x
      → AccountOf start n history x
      → AccountOf start m history' x'
  Account_moved {n = n} {m = m} start history history' x x' e f g a =
      subst (λ y. AccountOf start m history' y) (sym g)
        (subst (λ h. AccountOf start m h x) (sym f)
          (subst (λ i. AccountOf start i history x) (sym e) a))

  serve-Account :
      {n : ℕ} (start : W) (history : List Msg) (j : ℕ) (s : Relay C W)
      → AccountOf start n history (at k s)
      → AccountOf start n history (at k (serve send j s))
  unfolding serve
  serve-Account {n = n} start history j s a = elim (Bool-cases (k == j)) [
    | inl here ↦
        let same : k ≡ j = eq_of_beq k j here in
        Account_moved start history history
          (turn (send k) (ch.recv (s.channels k)) (s.channels k) (s.worlds k)) _ refl refl
          (subst
            (λ i.
              at k (dispatch send i (ch.recv (s.channels i)) s)
              ≡ turn (send k) (ch.recv (s.channels k)) (s.channels k) (s.worlds k))
            same (at-dispatch send k (ch.recv (s.channels k)) s))
          (Account-turn laws (send k) start history (s.channels k) (s.worlds k) a)
    | inr elsewhere ↦
        Account_moved start history history (at k s) _ refl refl
          (dispatch_elsewhere send k j (ch.recv (s.channels j)) s elsewhere) a
  ]

  -- A message for the channel is sent to it, and another leaves it alone.
  channel-on_receive :
      (l : IngressRouteListener) (msg : Msg) (channels : ℕ → C)
      → on_receive payload_format l msg channels k
        ≡ elim (arrival payload_format k (arrives l msg)) [
          | none ↦ channels k
          | some m ↦ (ch.send m (channels k)).1
        ]
  unfolding on_receive
  channel-on_receive l msg channels =
      ground (arith, nat_equality.beq_iff k l.sender, nat_equality.beq_iff l.sender k)

  arrive-Account :
      {n : ℕ} (start : W) (history : List Msg) (c : C) (w : W) (m : Option Msg)
      → AccountOf start n history (c, w)
      → AccountOf start
          (n + elim m [ none ↦ 0 | some msg ↦ overflow laws c ])
          (history ++ listed payload_format k m)
          (elim m [ none ↦ c | some msg ↦ (ch.send msg c).1 ], w)
  arrive-Account start history c w none a =
      Account_moved start history (history ++ []) (c, w) (c, w) (omega arith) (append_nil history)
        refl a
  arrive-Account start history c w (some msg) a = Account-send laws (send k) start history c w msg a

  step-Account :
      {n : ℕ} (start : W) (history : List Msg) (s : Relay C W) (e : Event Msg)
      → AccountOf start n history (at k s)
      → AccountOf start
          (n + lost s e)
          (history ++ listed payload_format k (arrival payload_format k e))
          (at k (step payload_format send s e))
  unfolding step
  step-Account start history s (serves j) a =
      Account_moved start history (history ++ []) _ _ (omega arith) (append_nil history) refl
        (serve-Account start history j s a)
  step-Account start history s (arrives l msg) a =
      Account_moved start _ _ _ _ refl refl
        (ap (λ c. (c, s.worlds k)) (channel-on_receive l msg s.channels))
        (arrive-Account start history (s.channels k) (s.worlds k)
          (arrival payload_format k (arrives l msg)) a)

  run-Account :
      (start : W) (events : List (Event Msg)) {n : ℕ} (history : List Msg) (s : Relay C W)
      → AccountOf start n history (at k s)
      → AccountOf start
          (n + overflows s events)
          (history ++ arrived payload_format k events)
          (at k (run payload_format send s events))
  unfolding run
  run-Account start [] history s a =
      Account_moved start history (history ++ []) _ _ (omega arith) (append_nil history) refl a
  run-Account start (e ∷ rest) history s a =
      Account_moved start _ _ _ _ (omega arith)
        (sym (
          append_assoc history (listed payload_format k (arrival payload_format k e))
            (arrived payload_format k rest)))
        refl
        (run-Account start rest (history ++ listed payload_format k (arrival payload_format k e))
          (step payload_format send s e) (step-Account start history s e a))

  -- After any sequence of arrivals at the listeners and of turns of the workers, in any order, where a
  -- worker has a receiver for its channel, what its transport has been given, each message once,
  -- followed by what its channel still holds, is what the channel held at first followed by
  -- the messages that were forwarded to it, those not in shared memory, in their order, with as many
  -- left out as there were arrivals at the full channel.
  pub run-Sent :
      (s : Relay C W) (events : List (Event Msg))
      → laws.has_receiver (s.channels k) ≡ true
      → let s' = run payload_format send s events in
        Account laws
          (send k)
          (s.worlds k)
          (overflows s events)
          (laws.pending (s.channels k) ++ arrived payload_format k events)
          (s'.channels k)
          (s'.worlds k)
  run-Sent s events live = Account_moved (s.worlds k) _ _ _ _ (omega arith) refl refl (
      run-Account (s.worlds k) events (laws.pending (s.channels k)) s (record {
        sent = [];
        world = refl;
        kept = Drops-self (laws.pending (s.channels k));
        live = live;
      }))
