-- ===== src/DataPlane/IngressListener/Forwarding.antt =====
-- What an ingress listener forwards.
use up_streamer_rust.Base.{
  ℕ, ◌+◌, ◌≤◌, ◌≡◌, ap, ◌∙◌, Bool, ◌&&◌, Option, List, [], ◌∷◌, ◌++◌, arith, if◌then◌else◌, ◌==◌,
  nat_equality, string_equality, option_equality, pair_equality,
}
use up_streamer_rust.Base.Lists.{length, append_nil, append_assoc}
use up_streamer_rust.DataPlane.Channel.{ChannelOps, ChannelLaws}
use up_streamer_rust.DataPlane.IngressListener.{
  IngressRouteListener, UPayloadFormat, on_receive, receive_all, supported,
}

length-append : {A : Type 0} (xs ys : List A) → length (xs ++ ys) ≡ length xs + length ys
length-append [] ys = omega arith
length-append (x ∷ xs) ys = omega (arith, length-append xs ys)

module _ {C Msg : Type 0} ⦃ch : ChannelOps C Msg⦄ (laws : ChannelLaws ch)
    (payload_format : Msg → Option UPayloadFormat) (l : IngressRouteListener) where
  -- What messages add to the queue of channel `k`.
  abbrev added : Bool → ℕ → List Msg → List Msg
  added live k msgs = if live && k == l.sender then supported payload_format msgs else []

  -- The channel of the listener has room for messages.
  abbrev HasRoom : List Msg → (ℕ → C) → Type 0
  HasRoom msgs channels =
      length (laws.pending (channels l.sender)) + length (supported payload_format msgs)
      ≤ laws.capacity (channels l.sender)

  receiver-on_receive :
      (msg : Msg) (channels : ℕ → C) (k : ℕ)
      → laws.has_receiver (on_receive payload_format l msg channels k)
        ≡ laws.has_receiver (channels k)
  unfolding on_receive
  receiver-on_receive msg channels k =
      ground (arith, laws.has_receiver-send msg (channels l.sender))

  capacity-on_receive :
      (msg : Msg) (channels : ℕ → C) (k : ℕ)
      → laws.capacity (on_receive payload_format l msg channels k) ≡ laws.capacity (channels k)
  unfolding on_receive
  capacity-on_receive msg channels k = ground (arith, laws.capacity-send msg (channels l.sender))

  pending-on_receive :
      (msg : Msg) (channels : ℕ → C) (k : ℕ)
      → HasRoom (msg ∷ []) channels
      → laws.pending (on_receive payload_format l msg channels k)
        ≡ laws.pending (channels k) ++ added (laws.has_receiver (channels l.sender)) k (msg ∷ [])
  unfolding on_receive
  pending-on_receive msg channels k room = ground (
    arith,
    room,
    append_nil (laws.pending (channels k)),
    laws.send_room msg (channels l.sender),
    laws.send_shut msg (channels l.sender),
  )

  added_cons :
      (live : Bool) (k : ℕ) (msg : Msg) (rest : List Msg)
      → (added live k (msg ∷ []) ++ added live k rest) ≡ added live k (msg ∷ rest)
  added_cons live k msg rest = ground arith

  room_one :
      (msg : Msg) (rest : List Msg) (channels : ℕ → C)
      → HasRoom (msg ∷ rest) channels
      → HasRoom (msg ∷ []) channels
  room_one msg rest channels room = ground (arith, room)

  room-on_receive :
      (msg : Msg) (rest : List Msg) (channels : ℕ → C)
      → HasRoom (msg ∷ rest) channels
      → HasRoom rest (on_receive payload_format l msg channels)
  room-on_receive msg rest channels room =
      rw
        (
          capacity-on_receive msg channels l.sender,
          pending-on_receive msg channels l.sender (room_one msg rest channels room),
          length-append,
        )
        (ground (arith, room))

  -- A listener that receives messages appends those that are not in shared memory to the queue of its own
  -- channel, all of them and in their order, where that channel has a receiver, and touches no other queue,
  -- provided that the queue has room for them.
  pub pending-receive_all :
      (msgs : List Msg) (channels : ℕ → C) (k : ℕ)
      → HasRoom msgs channels
      → laws.pending (receive_all payload_format l msgs channels k)
        ≡ laws.pending (channels k)
          ++ (if laws.has_receiver (channels l.sender) && k == l.sender
              then supported payload_format msgs
              else [])
  unfolding receive_all
  pending-receive_all [] channels k room = ground (arith, append_nil (laws.pending (channels k)))
  pending-receive_all (msg ∷ rest) channels k room =
      let live = laws.has_receiver (channels l.sender) in
      pending-receive_all rest (on_receive payload_format l msg channels) k
        (room-on_receive msg rest channels room)
      ∙ rw
          (
            pending-on_receive msg channels k (room_one msg rest channels room),
            receiver-on_receive msg channels l.sender,
          )
          (append_assoc (laws.pending (channels k)) (added live k (msg ∷ [])) (added live k rest)
            ∙ ap (λ t. laws.pending (channels k) ++ t) (added_cons live k msg rest))
