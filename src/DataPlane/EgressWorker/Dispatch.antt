-- ===== src/DataPlane/EgressWorker/Dispatch.antt =====
-- What the dispatch loop sends.
use up_streamer_rust.Base.{
  ◌≡◌, refl, Bool, true, false, List, [], ◌∷◌, Result, nat_equality, string_equality,
  option_equality, pair_equality,
}
use up_streamer_rust.UpRust.{UStatus}
use up_streamer_rust.DataPlane.Channel.{RecvResult, received, lagged, closed}
use up_streamer_rust.DataPlane.EgressWorker.{route_dispatch_loop}

module _ {Msg : Type 0} where
  -- The messages received before the channel was closed, in their order.
  abbrev pub messages : List (RecvResult Msg) → List Msg
  messages [] = []
  messages (received msg ∷ rest) = msg ∷ messages rest
  messages (lagged skipped ∷ rest) = messages rest
  messages (closed ∷ rest) = []

  abbrev pub is_closed : List (RecvResult Msg) → Bool
  is_closed [] = false
  is_closed (received msg ∷ rest) = is_closed rest
  is_closed (lagged skipped ∷ rest) = is_closed rest
  is_closed (closed ∷ rest) = true

module _ {Msg W : Type 0} where
  -- Each message sent once, in their order, with no regard to the answers.
  abbrev pub send_each : (Msg → W → Result UStatus (Unit {0}) × W) → List Msg → W → W
  send_each send [] w = w
  send_each send (msg ∷ rest) w = send_each send rest (send msg w).1

  -- The dispatch loop sends exactly the messages that it received before its channel was closed, each once
  -- and in their order, whatever `send` answers and however often it lags behind, and it stops exactly when
  -- the channel is closed.
  pub route_dispatch_loop_lem :
      (send : Msg → W → Result UStatus (Unit {0}) × W) (events : List (RecvResult Msg)) (w : W)
      → route_dispatch_loop send events w ≡ (is_closed events, send_each send (messages events) w)
  unfolding route_dispatch_loop
  route_dispatch_loop_lem send [] w = refl
  route_dispatch_loop_lem send (received msg ∷ rest) w =
      route_dispatch_loop_lem send rest (send msg w).1
  route_dispatch_loop_lem send (lagged skipped ∷ rest) w = route_dispatch_loop_lem send rest w
  route_dispatch_loop_lem send (closed ∷ rest) w = refl
