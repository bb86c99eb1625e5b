-- ===== src/DataPlane/Relay.antt =====
-- up-streamer/src/data_plane/ingress_listener.rs and egress_worker.rs at work: transports call the
-- listeners, and each worker takes its turns of the dispatch loop on its own channel, in any order.
pub mod Drops
pub mod Account
pub mod Order
pub mod Delivery
use up_streamer_rust.Base.{
  ℕ, zero, suc, ◌+◌, ◌-◌, ◌%◌, ◌^◌, ◌≤◌, ◌<◌, String, ◌≡◌, refl, sym, ap, ◌∙◌, ◌≢◌, ◌↔◌, ◌⊎◌, inl,
  inr, Bool, true, false, not, ◌&&◌, ◌||◌, Option, none, some, List, [], ◌∷◌, ◌++◌, map, arith, ltb,
  leb, if◌then◌else◌, Result, ok, err, Bool-cases, Option-cases, Result-cases, or_else,
  or_else-none, or_else_self, Equality, ◌==◌, nat_equality, string_equality, option_beq,
  option_beq_iff, option_equality, pair_equality, beq_self, eq_of_beq, beq_false, ne_of_beq,
  beq_comm,
}
use up_streamer_rust.UpRust.{UStatus}
use up_streamer_rust.DataPlane.Channel.{ChannelOps, RecvResult}
use up_streamer_rust.DataPlane.IngressListener.{
  IngressRouteListener, UPayloadFormat, set, on_receive, is_shm, format_or_default,
}
use up_streamer_rust.DataPlane.EgressWorker.{route_dispatch_loop}

-- The channels, and the state of the egress transport behind the worker of each channel.
pub record Relay (C W : Type 0) : Type 0 where
  pub channels : ℕ → C
  pub worlds : ℕ → W

pub data Event (Msg : Type 0) : Type 0 where
  arrives : IngressRouteListener → Msg → Event Msg
  serves : ℕ → Event Msg

module _ {C Msg W : Type 0} ⦃ch : ChannelOps C Msg⦄
    (send : ℕ → Msg → W → Result UStatus (Unit {0}) × W) where
  -- One turn of the dispatch loop of channel `k` on what `recv` returned, or none while it waits.
  unfoldable pub dispatch : ℕ → Option (RecvResult Msg) × C → Relay C W → Relay C W
  dispatch k (none, c) s = s
  dispatch k (some event, c) s = record {
    channels = set k c s.channels;
    worlds = set k (route_dispatch_loop (send k) (event ∷ []) (s.worlds k)).1 s.worlds;
  }

  unfoldable pub serve : ℕ → Relay C W → Relay C W
  serve k s = dispatch k (ch.recv (s.channels k)) s

module _ {C Msg W : Type 0} ⦃ch : ChannelOps C Msg⦄ (payload_format : Msg → Option UPayloadFormat)
    (send : ℕ → Msg → W → Result UStatus (Unit {0}) × W) where
  unfoldable pub step : Relay C W → Event Msg → Relay C W
  step s (arrives l msg) = record s { channels = on_receive payload_format l msg s.channels }
  step s (serves k) = serve send k s

  unfoldable pub run : Relay C W → List (Event Msg) → Relay C W
  run s [] = s
  run s (e ∷ rest) = run (step s e) rest

module _ {Msg : Type 0} (payload_format : Msg → Option UPayloadFormat) (k : ℕ) where
  -- What an event brings for channel `k`: the message that its listener forwards there, if any.
  abbrev pub arrival : Event Msg → Option Msg
  arrival (arrives l msg) =
      if l.sender == k && not (is_shm (format_or_default (payload_format msg)))
      then some msg
      else none
  arrival (serves j) = none

  abbrev pub listed : {A : Type 0} → Option A → List A
  listed none = []
  listed (some a) = a ∷ []

  -- The messages that are forwarded to channel `k`, in their order.
  abbrev pub arrived : List (Event Msg) → List Msg
  arrived [] = []
  arrived (e ∷ rest) = listed (arrival e) ++ arrived rest
