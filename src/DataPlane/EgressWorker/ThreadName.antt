-- ===== src/DataPlane/EgressWorker/ThreadName.antt =====
-- The names of the worker threads.
use up_streamer_rust.Base.{
  ◌≡◌, refl, Bool, true, false, ◌++◌, arith, if◌then◌else◌, ◌==◌, nat_equality, string_equality,
  option_equality, pair_equality, eq_of_beq,
}
use up_streamer_rust.Base.Lists.{length}
use up_streamer_rust.Base.Bytes.{Text}
use up_streamer_rust.DataPlane.EgressWorker.{
  take, hexdigits, build_runtime_thread_name, sanitize_runtime_thread_name,
  spawn_route_dispatch_loop, worker_thread, runtime_thread, shared_task, dedicated_thread,
}
use up_streamer_rust.DataPlane.EgressWorker

length_suffixed :
    (b : Bool) (xs : Text)
    → (b ≡ true → length xs ≡ 5)
    → length (
        if b
        then EgressWorker.egress_route_runtime_thread_name_prefix ++ xs
        else EgressWorker.default_egress_route_runtime_thread_name)
      ≡ 15
length_suffixed true xs h = omega (arith, h refl)
length_suffixed false xs h = refl

-- A name made for a worker has exactly the 15 characters that Linux allows, whatever the identifier.
pub length-build_runtime_thread_name : (id : Text) → length (build_runtime_thread_name id) ≡ 15
unfolding build_runtime_thread_name
length-build_runtime_thread_name id =
    length_suffixed (length (take 5 (hexdigits id)) == 5) (take 5 (hexdigits id))
      (eq_of_beq (length (take 5 (hexdigits id))) 5)
