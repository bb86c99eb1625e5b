-- ===== src/DataPlane/Relay/Account.antt =====
-- What a worker has sent of the messages of its channel, and the steps that keep that account.
use up_streamer_rust.Base.{
  ℕ, zero, suc, ◌+◌, ◌<◌, ◌≡◌, refl, sym, ap, ◌∙◌, inl, inr, true, Option, none, some, List, [],
  ◌∷◌, ◌++◌, arith, ltb, if◌then◌else◌, Result, Bool-cases, ◌==◌, nat_equality, string_equality,
  option_equality, pair_equality,
}
use mathlib.Core.Path.{subst}
use up_streamer_rust.Base.Lists.{length, append_assoc}
use up_streamer_rust.UpRust.{UStatus}
use up_streamer_rust.DataPlane.Channel.{ChannelOps, ChannelLaws, RecvResult, received, lagged, tail}
use up_streamer_rust.DataPlane.EgressWorker.{route_dispatch_loop}
use up_streamer_rust.DataPlane.EgressWorker.Dispatch.{send_each}
use up_streamer_rust.DataPlane.Relay.Drops.{Drops, Drops-append, Drops-oldest, Drops-moved}

module _ {Msg W : Type 0} (send : Msg → W → Result UStatus (Unit {0}) × W) where
  send_each-append :
      (xs ys : List Msg) (w : W)
      → send_each send (xs ++ ys) w ≡ send_each send ys (send_each send xs w)
  send_each-append [] ys w = refl
  send_each-append (x ∷ xs) ys w = send_each-append xs ys (send x w).1

module _ {C Msg W : Type 0} (send : Msg → W → Result UStatus (Unit {0}) × W) where
  -- One turn on what `recv` returned.
  abbrev pub turn : Option (RecvResult Msg) × C → C → W → C × W
  turn (none, c') c w = (c, w)
  turn (some event, c') c w = (c', (route_dispatch_loop send (event ∷ []) w).1)

  turned :
      (event : RecvResult Msg) (x : Option (RecvResult Msg) × C) (c : C) (w : W)
      → x.0 ≡ some event
      → turn x c w ≡ (x.1, (route_dispatch_loop send (event ∷ []) w).1)
  turned event (none, c') c w h = cc
  turned event (some e, c') c w h =
      let same : e ≡ event = cc h in ap (λ x. (c', (route_dispatch_loop send (x ∷ []) w).1)) same

module _ {C Msg : Type 0} ⦃ch : ChannelOps C Msg⦄ (laws : ChannelLaws ch) where
  -- The turns that it takes to empty the channel.
  abbrev pub weight : C → ℕ
  weight c = length (laws.pending c) + (if laws.missed c == 0 then 0 else 1)

  -- How many messages are lost when one is sent to the channel.
  abbrev pub overflow : C → ℕ
  overflow c = if ltb (length (laws.pending c)) (laws.capacity c) then 0 else 1

module _ {C Msg W : Type 0} ⦃ch : ChannelOps C Msg⦄ (laws : ChannelLaws ch)
    (send : Msg → W → Result UStatus (Unit {0}) × W) (start : W) where
  -- From the messages `history` a worker has sent some, in order, and still has some to send; `n` were
  -- dropped.
  pub record Account (n : ℕ) (history : List Msg) (c : C) (w : W) : Type 0 where
    pub sent : List Msg
    pub world : w ≡ send_each send sent start
    pub kept : Drops n (sent ++ laws.pending c) history
    pub live : laws.has_receiver c ≡ true

  tail_oldest :
      {n : ℕ} (sent pending : List Msg) (msg : Msg) (history : List Msg)
      → Drops n (sent ++ (pending ++ (msg ∷ []))) history
      → Drops (suc n) (sent ++ tail (pending ++ (msg ∷ []))) history
  tail_oldest sent [] msg history d = Drops-oldest sent msg [] history d
  tail_oldest sent (p ∷ pending) msg history d =
      Drops-oldest sent p (pending ++ (msg ∷ [])) history d

  pub Account-send :
      {n : ℕ} (history : List Msg) (c : C) (w : W) (msg : Msg)
      → Account n history c w
      → Account (n + overflow laws c) (history ++ (msg ∷ [])) (ch.send msg c).1 w
  Account-send {n = n} history c w msg a =
      let longer = Drops-append (msg ∷ []) a.kept in
      let after : Drops n (a.sent ++ (laws.pending c ++ (msg ∷ []))) (history ++ (msg ∷ [])) =
        subst (λ xs. Drops n xs (history ++ (msg ∷ [])))
          (append_assoc a.sent (laws.pending c) (msg ∷ [])) longer in
      record {
        sent = a.sent;
        world = a.world;
        kept = elim (Bool-cases (ltb (length (laws.pending c)) (laws.capacity c))) [
          | inl room ↦
              Drops-moved (ground (arith, room))
                (ap (λ xs. a.sent ++ xs) (laws.send_room msg c a.live (ground (arith, room))).0)
                after
          | inr full ↦
              Drops-moved (ground (arith, full))
                (ap (λ xs. a.sent ++ xs) (laws.send_full msg c a.live (ground (arith, full))).0)
                (tail_oldest a.sent (laws.pending c) msg (history ++ (msg ∷ [])) after)
        ];
        live = laws.has_receiver-send msg c ∙ a.live;
      }

  pub data Received (c : C) (w : W) : Type 0 where
    warned :
        (n : ℕ)
        → (turn send (ch.recv c) c w).1 ≡ w
        → laws.pending (turn send (ch.recv c) c w).0 ≡ laws.pending c
        → weight laws (turn send (ch.recv c) c w).0 < weight laws c
        → Received c w
    took :
        (m : Msg) (rest : List Msg)
        → laws.pending c ≡ m ∷ rest
        → (turn send (ch.recv c) c w).1 ≡ (send m w).1
        → laws.pending (turn send (ch.recv c) c w).0 ≡ rest
        → weight laws (turn send (ch.recv c) c w).0 < weight laws c
        → Received c w
    waited : weight laws c ≡ 0 → turn send (ch.recv c) c w ≡ (c, w) → Received c w

  Received-by :
      (n : ℕ) (xs : List Msg) (c : C) (w : W)
      → laws.missed c ≡ n
      → laws.pending c ≡ xs
      → Received c w
  unfolding route_dispatch_loop
  Received-by (suc n) xs c w m p =
      let (answer, same, none_missed) = laws.recv_lagged c n m in
      let after = turned send (lagged (suc n)) (ch.recv c) c w answer in
      warned (suc n) (ap (λ x. x.1) after) (ap (λ x. laws.pending x.0) after ∙ same)
        (rw (ap (λ x. x.0) after, same, none_missed, m) (grind arith))
  Received-by zero (msg ∷ rest) c w m p =
      let (answer, less, none_missed) = laws.recv_next c msg rest m p in
      let after = turned send (received msg) (ch.recv c) c w answer in
      took msg rest p (ap (λ x. x.1) after) (ap (λ x. laws.pending x.0) after ∙ less)
        (rw (ap (λ x. x.0) after, less, none_missed, p) (omega arith))
  Received-by zero [] c w m p =
      waited (rw (p, m) (omega arith)) (ap (λ x. turn send x c w) (laws.recv_wait c m p))

  pub Received-turn : (c : C) (w : W) → Received c w
  Received-turn c w = Received-by (laws.missed c) (laws.pending c) c w refl refl

  live-turn :
      (c : C) (w : W) (x : Option (RecvResult Msg) × C)
      → laws.has_receiver x.1 ≡ laws.has_receiver c
      → laws.has_receiver (turn send x c w).0 ≡ laws.has_receiver c
  live-turn c w (none, c') h = refl
  live-turn c w (some e, c') h = h

  pub Account-turn :
      {n : ℕ} (history : List Msg) (c : C) (w : W)
      → Account n history c w
      → let (c', w') = turn send (ch.recv c) c w in Account n history c' w'
  Account-turn {n = n} history c w a =
      let live = live-turn c w (ch.recv c) (laws.has_receiver-recv c) ∙ a.live in
      elim (Received-turn c w) [
        | warned n same_world same_pending lighter ↦ record {
          sent = a.sent;
          world = same_world ∙ a.world;
          kept = Drops-moved refl (ap (λ xs. a.sent ++ xs) same_pending) a.kept;
          live = live;
        }
        | took m rest before sends after lighter ↦ record {
          sent = a.sent ++ (m ∷ []);
          world =
              sends
              ∙ ap (λ v. (send m v).1) a.world
              ∙ sym (send_each-append send a.sent (m ∷ []) start);
          kept =
              Drops-moved refl
                (append_assoc a.sent (m ∷ []) _
                  ∙ ap (λ xs. a.sent ++ (m ∷ xs)) after
                  ∙ ap (λ xs. a.sent ++ xs) (sym before))
                a.kept;
          live = live;
        }
        | waited nothing same ↦ record {
          sent = a.sent;
          world = ap (λ x. x.1) same ∙ a.world;
          kept = Drops-moved refl (ap (λ x. a.sent ++ laws.pending x.0) same) a.kept;
          live = live;
        }
      ]
