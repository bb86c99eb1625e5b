-- ===== src/DataPlane/Channel.antt =====
-- The broadcast channels of tokio between the listeners and the workers: an interface. The workers have
-- one receiver for each channel.
use up_streamer_rust.Base.{
  ℕ, suc, ◌≤◌, ◌<◌, ◌≡◌, Bool, true, false, Option, none, some, List, [], ◌∷◌, ◌++◌, Result,
}
use up_streamer_rust.Base.Lists.{length}

-- What `recv` returns on the worker's channel.
pub data RecvResult (Msg : Type 0) : Type 0 where
  received : Msg → RecvResult Msg
  lagged : ℕ → RecvResult Msg
  closed : RecvResult Msg

-- `send` answers with the number of the receivers, or gives the message back; `recv` returns nothing for as
-- long as it waits.
pub record ChannelOps (C Msg : Type 0) : Type 0 where
  pub send : Msg → C → Result Msg ℕ × C
  pub recv : C → Option (RecvResult Msg) × C

abbrev pub tail : {A : Type 0} → List A → List A
tail [] = []
tail (x ∷ xs) = xs

-- The documented behaviour of a channel that still has a sender: a message that is sent to a full channel
-- takes the place of the oldest one, and a receiver that has missed messages is told how many before it
-- gets the next one.
pub record ChannelLaws {C Msg : Type 0} (ops : ChannelOps C Msg) : Type 0 where
  pub capacity : C → ℕ
  pub pending : C → List Msg
  pub missed : C → ℕ
  pub has_receiver : C → Bool
  pub capacity-send : (m : Msg) (c : C) → capacity (ops.send m c).1 ≡ capacity c
  pub capacity-recv : (c : C) → capacity (ops.recv c).1 ≡ capacity c
  pub has_receiver-send : (m : Msg) (c : C) → has_receiver (ops.send m c).1 ≡ has_receiver c
  pub has_receiver-recv : (c : C) → has_receiver (ops.recv c).1 ≡ has_receiver c
  pub send_room :
      (m : Msg) (c : C)
      → has_receiver c ≡ true
      → length (pending c) < capacity c
      → (pending (ops.send m c).1 ≡ pending c ++ (m ∷ [])) × (missed (ops.send m c).1 ≡ missed c)
  pub send_full :
      (m : Msg) (c : C)
      → has_receiver c ≡ true
      → capacity c ≤ length (pending c)
      → (pending (ops.send m c).1 ≡ tail (pending c ++ (m ∷ [])))
        × (missed (ops.send m c).1 ≡ suc (missed c))
  pub send_shut : (m : Msg) (c : C) → has_receiver c ≡ false → (ops.send m c).1 ≡ c
  pub recv_lagged :
      (c : C) (n : ℕ)
      → missed c ≡ suc n
      → ((ops.recv c).0 ≡ some (lagged (suc n)))
        × (pending (ops.recv c).1 ≡ pending c)
        × (missed (ops.recv c).1 ≡ 0)
  pub recv_next :
      (c : C) (m : Msg) (rest : List Msg)
      → missed c ≡ 0
      → pending c ≡ m ∷ rest
      → ((ops.recv c).0 ≡ some (received m))
        × (pending (ops.recv c).1 ≡ rest)
        × (missed (ops.recv c).1 ≡ 0)
  pub recv_wait : (c : C) → missed c ≡ 0 → pending c ≡ [] → ops.recv c ≡ (none, c)
