-- ===== src/DataPlane/IngressListener.antt =====
-- up-streamer/src/data_plane/ingress_listener.rs. A channel is named by a number, and so is the
-- allocation of a listener behind its `Arc`; the messages and their getter are parameters.
pub mod Forwarding
use up_streamer_rust.Base.{
  ℕ, String, ◌≡◌, ◌↔◌, Bool, true, false, ◌&&◌, Option, none, some, List, [], ◌∷◌, ◌++◌, arith,
  if◌then◌else◌, Equality, ◌==◌, nat_equality, string_equality, option_equality, pair_equality,
}
use up_streamer_rust.DataPlane.Channel.{ChannelOps}

pub record IngressRouteListener : Type 0 where
  pub address : ℕ
  pub route_id : String
  pub sender : ℕ

abbrev pub listener_beq : IngressRouteListener → IngressRouteListener → Bool
listener_beq a b = a.address == b.address && a.route_id == b.route_id && a.sender == b.sender

pub listener_beq_iff : (a b : IngressRouteListener) → (listener_beq a b ≡ true) ↔ (a ≡ b)
listener_beq_iff a b = ground (
  arith,
  nat_equality.beq_iff a.address b.address,
  string_equality.beq_iff a.route_id b.route_id,
  nat_equality.beq_iff a.sender b.sender,
)

instance abbrev pub listener_equality : Equality IngressRouteListener
listener_equality = record { beq = listener_beq; beq_iff = listener_beq_iff }

-- `IngressRouteListener::new` at a fresh address.
unfoldable pub new : ℕ → String → ℕ → IngressRouteListener
new address route_id sender = record { address = address; route_id = route_id; sender = sender }

-- The family with `a` at `k`.
abbrev pub set : {A : Type 0} → ℕ → A → (ℕ → A) → ℕ → A
set k a f j = if j == k then a else f j

-- The payload formats that the listener tells apart.
pub data UPayloadFormat : Type 0 where
  unspecified shm : UPayloadFormat
  other : ℕ → UPayloadFormat

abbrev pub is_shm : UPayloadFormat → Bool
is_shm UPayloadFormat.shm = true
is_shm _ = false

-- `unwrap_or_default` on the format.
abbrev pub format_or_default : Option UPayloadFormat → UPayloadFormat
format_or_default none = UPayloadFormat.unspecified
format_or_default (some f) = f

module _ {C Msg : Type 0} ⦃ch : ChannelOps C Msg⦄
    (payload_format : Msg → Option UPayloadFormat) where
  -- A failed `send` is only logged.
  unfoldable pub on_receive : IngressRouteListener → Msg → (ℕ → C) → ℕ → C
  on_receive self msg channels =
      if is_shm (format_or_default (payload_format msg))
      then channels
      else set self.sender (ch.send msg (channels self.sender)).1 channels

  -- A listener called with a list of messages, one after the other.
  unfoldable pub receive_all : IngressRouteListener → List Msg → (ℕ → C) → ℕ → C
  unfolding on_receive
  receive_all self [] channels = channels
  receive_all self (msg ∷ rest) channels = receive_all self rest (on_receive self msg channels)

module _ {Msg : Type 0} (payload_format : Msg → Option UPayloadFormat) where
  -- The messages that are not in shared memory, in their order.
  abbrev pub supported : List Msg → List Msg
  supported [] = []
  supported (msg ∷ rest) =
      if is_shm (format_or_default (payload_format msg))
      then supported rest
      else msg ∷ supported rest
