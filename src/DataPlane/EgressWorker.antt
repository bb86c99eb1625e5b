-- ===== src/DataPlane/EgressWorker.antt =====
-- up-streamer/src/data_plane/egress_worker.rs and up-streamer/src/runtime/worker_runtime.rs.
pub mod Dispatch
pub mod ThreadName
use up_streamer_rust.Base.{
  ℕ, zero, suc, ◌-◌, String, Bool, true, false, ◌&&◌, ◌||◌, List, [], ◌∷◌, ◌++◌, ltb, leb,
  if◌then◌else◌, Result, ◌==◌, nat_equality, string_equality, option_equality, pair_equality,
}
use up_streamer_rust.Base.Lists.{length}
use up_streamer_rust.UpRust.{UStatus}
use up_streamer_rust.Base.Bytes.{Text, codes}
use up_streamer_rust.DataPlane.Channel.{RecvResult, received, lagged, closed}

abbrev pub take {ℓ} : {A : Type ℓ} → ℕ → List A → List A
take zero xs = []
take (suc n) [] = []
take (suc n) (x ∷ xs) = x ∷ take n xs

abbrev pub linux_thread_name_max_len : ℕ
linux_thread_name_max_len = 15

abbrev pub egress_route_runtime_thread_name_max_len : ℕ
egress_route_runtime_thread_name_max_len = 15

abbrev pub egress_route_runtime_thread_name_prefix : Text
egress_route_runtime_thread_name_prefix = codes "up-egress-"

abbrev pub default_egress_route_runtime_thread_name : Text
default_egress_route_runtime_thread_name = codes "up-egress-route"

-- `char::is_ascii_hexdigit`
abbrev pub is_ascii_hexdigit : ℕ → Bool
is_ascii_hexdigit c =
    (leb b'0' c && leb c b'9') || ((leb b'a' c && leb c b'f') || (leb b'A' c && leb c b'F'))

abbrev pub hexdigits : Text → Text
hexdigits [] = []
hexdigits (c ∷ rest) = if is_ascii_hexdigit c then c ∷ hexdigits rest else hexdigits rest

unfoldable pub build_runtime_thread_name : Text → Text
build_runtime_thread_name route_id =
    let suffix_len =
      egress_route_runtime_thread_name_max_len - length egress_route_runtime_thread_name_prefix in
    let suffix = take suffix_len (hexdigits route_id) in
    if length suffix == suffix_len
    then egress_route_runtime_thread_name_prefix ++ suffix
    else default_egress_route_runtime_thread_name

unfoldable pub sanitize_runtime_thread_name : Text → Text
sanitize_runtime_thread_name thread_name =
    if length thread_name == 0 || ltb linux_thread_name_max_len (length thread_name)
    then default_egress_route_runtime_thread_name
    else thread_name

-- The runtime that the loop was spawned on. The spawning itself is left to tokio and `std::thread`.
pub data RouteDispatchLoopHandle : Type 0 where
  shared_task dedicated_thread : Text → RouteDispatchLoopHandle

unfoldable pub worker_thread : RouteDispatchLoopHandle → Text
worker_thread (shared_task name) = name
worker_thread (dedicated_thread name) = name

-- `Handle::try_current` says whether there is a runtime already; failures to spawn abort the program.
unfoldable pub spawn_route_dispatch_loop : Bool → Text → RouteDispatchLoopHandle
unfolding sanitize_runtime_thread_name
spawn_route_dispatch_loop has_runtime thread_name =
    let name = sanitize_runtime_thread_name thread_name in
    if has_runtime then shared_task name else dedicated_thread name

pub record EgressRouteWorker : Type 0 where
  pub worker_id : Text
  pub dispatch_handle : RouteDispatchLoopHandle

-- `EgressRouteWorker::new` under the identifier that `UUID::build` returned.
unfoldable pub new : Bool → Text → EgressRouteWorker
unfolding spawn_route_dispatch_loop build_runtime_thread_name
new has_runtime worker_id = record {
  worker_id = worker_id;
  dispatch_handle = spawn_route_dispatch_loop has_runtime (build_runtime_thread_name worker_id);
}

unfoldable pub runtime_thread : EgressRouteWorker → Text
unfolding worker_thread
runtime_thread w = worker_thread w.dispatch_handle

module _ {Msg W : Type 0} (send : Msg → W → Result UStatus (Unit {0}) × W) where
  -- The loop over what `recv` returns; the flag says whether it has stopped. The answer of `send` is
  -- only logged.
  unfoldable pub route_dispatch_loop : List (RecvResult Msg) → W → Bool × W
  route_dispatch_loop [] w = (false, w)
  route_dispatch_loop (received msg ∷ rest) w = route_dispatch_loop rest (send msg w).1
  route_dispatch_loop (lagged skipped ∷ rest) w = route_dispatch_loop rest w
  route_dispatch_loop (closed ∷ rest) w = (true, w)
