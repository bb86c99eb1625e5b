-- ===== src/SmokeSuite/Process.antt =====
-- utils/transport-smoke-suite/src/process.rs: a child process and its end. The operating system is a
-- parameter with a state `W`; a time or a duration is a number.
pub mod Ending
use up_streamer_rust.Base.{
  ℕ, zero, suc, ◌+◌, ◌-◌, ◌%◌, ◌^◌, ◌≤◌, ◌<◌, String, ◌≡◌, refl, sym, ap, ◌∙◌, ◌≢◌, ◌↔◌, ◌⊎◌, inl,
  inr, Bool, true, false, not, ◌&&◌, ◌||◌, Option, none, some, List, [], ◌∷◌, map, arith, ltb, leb,
  if◌then◌else◌, Result, ok, err, Bool-cases, Option-cases, Result-cases, or_else, or_else_assoc,
  and_then, and_then_ok, of_ok, or_else-none, or_else_self, Equality, ◌==◌, nat_equality,
  string_equality, option_beq, option_beq_iff, option_equality, pair_equality, beq_self, eq_of_beq,
  beq_false, ne_of_beq, beq_comm,
}
use Prim.Native.String.{◌++◌}
use up_streamer_rust.Base.Loops.{then_with}
use up_streamer_rust.SmokeSuite.Host.{Failure, with_context, bail}

pub data Signal : Type 0 where
  sigint sigterm : Signal

-- `ESRCH`, or the text of another error.
pub data KillError : Type 0 where
  no_such_process : KillError
  other : String → KillError

-- The status that a child has left, with its code unless a signal ended it; `wait` returns nothing when
-- the time is over first.
pub record Os (W : Type 0) : Type 0 where
  pub try_wait : ℕ → W → Result String (Option (Option ℕ)) × W
  pub wait : ℕ → ℕ → W → Option (Result String (Option ℕ)) × W
  pub kill : ℕ → Signal → W → Result KillError (Unit {0}) × W
  pub now : W → ℕ
  pub to_string : ℕ → String

pub record ManagedProcess : Type 0 where
  pub name : String
  pub pid : ℕ
  pub process_group_id : ℕ
  pub command_line : String
  pub workdir : String
  pub log_path : String
  pub started_at : ℕ
  pub ended_at : Option ℕ
  pub exit_status_code : Option ℕ

abbrev pub is_some : {A : Type 0} → Option A → Bool
is_some none = false
is_some (some a) = true

unfoldable pub has_exited : ManagedProcess → Bool
has_exited p = is_some p.ended_at

module _ {W : Type 0} (os : Os W) where
  abbrev pub signal_number : Signal → String
  signal_number sigint = "2"
  signal_number sigterm = "15"

  -- The status is noted with the time.
  unfoldable pub note_exit : Option ℕ → ManagedProcess → W → ManagedProcess
  note_exit code p w = record p { exit_status_code = code; ended_at = some (os.now w) }

  unfoldable pub after_try_wait :
      Result String (Option (Option ℕ)) × W
      → ManagedProcess
      → Result Failure (Unit {0}) × (ManagedProcess × W)
  unfolding note_exit
  after_try_wait (err e, w) p = (
    with_context
        ("unable to query process status for '" ++ p.name ++ "'(pid=" ++ os.to_string p.pid ++ ")")
        (err e),
    (p, w),
  )
  after_try_wait (ok none, w) p = (ok tt, (p, w))
  after_try_wait (ok (some code), w) p = (ok tt, (note_exit code p w, w))

  unfoldable pub refresh_exit_status :
      ManagedProcess × W → Result Failure (Unit {0}) × (ManagedProcess × W)
  unfolding after_try_wait
  refresh_exit_status (p, w) =
      if is_some p.exit_status_code then (ok tt, (p, w)) else after_try_wait (os.try_wait p.pid w) p

  unfoldable pub after_wait :
      Option (Result String (Option ℕ)) × W
      → ManagedProcess
      → Result Failure Bool × (ManagedProcess × W)
  unfolding note_exit
  after_wait (none, w) p = (ok false, (p, w))
  after_wait (some (ok code), w) p = (ok true, (note_exit code p w, w))
  after_wait (some (err e), w) p = (
    with_context ("unable to wait on process '" ++ p.name ++ "'(pid=" ++ os.to_string p.pid ++ ")")
        (err e),
    (p, w),
  )

  unfoldable pub wait_with_timeout :
      ℕ → ManagedProcess × W → Result Failure Bool × (ManagedProcess × W)
  unfolding refresh_exit_status after_wait
  wait_with_timeout timeout s = then_with (refresh_exit_status s) (λ refreshed (p, w).
      if is_some p.exit_status_code
      then (ok true, (p, w))
      else after_wait (os.wait p.pid timeout w) p)

  unfoldable pub after_kill :
      Result KillError (Unit {0}) × W
      → Signal
      → ManagedProcess
      → Result Failure (Unit {0}) × (ManagedProcess × W)
  after_kill (ok u, w) signal p = (ok tt, (p, w))
  after_kill (err no_such_process, w) signal p = (ok tt, (p, w))
  after_kill (err (other text), w) signal p = (
    bail (
        "unable to send signal "
        ++ signal_number signal
        ++ " to process group "
        ++ os.to_string p.process_group_id
        ++ ": "
        ++ text),
    (p, w),
  )

  unfoldable pub signal_process_group :
      Signal → ManagedProcess × W → Result Failure (Unit {0}) × (ManagedProcess × W)
  unfolding after_kill
  signal_process_group signal (p, w) = after_kill (os.kill p.process_group_id signal w) signal p

  abbrev pub still_running : ManagedProcess → Failure
  still_running p =
      ("process '"
        ++ p.name
        ++ "' (pid="
        ++ os.to_string p.pid
        ++ ", pgid="
        ++ os.to_string p.process_group_id
        ++ ") did not terminate after SIGINT/SIGTERM grace windows")
      ∷ []

  -- The end of `terminate_gracefully`, when both signals were waited for in vain.
  unfoldable pub give_up : ManagedProcess × W → Result Failure (Unit {0}) × (ManagedProcess × W)
  unfolding refresh_exit_status
  give_up s = then_with (refresh_exit_status s) (λ refreshed (p, w).
      if is_some p.exit_status_code then (ok tt, (p, w)) else (err (still_running p), (p, w)))

  -- A signal, a wait, and what comes next when the wait is over.
  unfoldable pub signal_and_wait :
      Signal
      → ℕ
      → (ManagedProcess × W → Result Failure (Unit {0}) × (ManagedProcess × W))
      → ManagedProcess × W
      → Result Failure (Unit {0}) × (ManagedProcess × W)
  unfolding signal_process_group wait_with_timeout
  signal_and_wait signal grace next s = then_with (signal_process_group signal s) (λ sent s1.
      then_with (wait_with_timeout grace s1)
        (λ (exited : Bool) s2. if exited then (ok tt, s2) else next s2))

  unfoldable pub terminate_gracefully :
      ℕ → ℕ → ManagedProcess × W → Result Failure (Unit {0}) × (ManagedProcess × W)
  unfolding refresh_exit_status signal_and_wait give_up
  terminate_gracefully sigint_grace sigterm_grace s =
      then_with (refresh_exit_status s) (λ refreshed (p, w).
        if is_some p.exit_status_code
        then (ok tt, (p, w))
        else signal_and_wait sigint sigint_grace (signal_and_wait sigterm sigterm_grace give_up)
            (p, w))
