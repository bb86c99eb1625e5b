-- ===== src/SmokeSuite/Process/Ending.antt =====
-- What the end of a child process leaves behind.
use up_streamer_rust.Base.{
  ℕ, String, ◌≡◌, refl, sym, inl, inr, Bool, true, false, Option, none, some, if◌then◌else◌, Result,
  ok, err, Bool-cases, of_ok, nat_equality, string_equality, option_equality, pair_equality,
}
use mathlib.Core.Path.{subst}
use up_streamer_rust.Base.Loops.{then_with}
use up_streamer_rust.SmokeSuite.Host.{Failure}
use up_streamer_rust.SmokeSuite.Process.{
  still_running, Signal, sigint, sigterm, KillError, no_such_process, other, Os, ManagedProcess,
  is_some, has_exited, note_exit, after_try_wait, refresh_exit_status, after_wait,
  wait_with_timeout, after_kill, signal_process_group, give_up, signal_and_wait,
  terminate_gracefully,
}

-- A process with a code has ended.
pub record IsConsistent (p : ManagedProcess) : Type 0 where
  pub ended : is_some p.exit_status_code ≡ true → has_exited p ≡ true

module _ {W : Type 0} (os : Os W) where
  note_exit-has_exited :
      (code : Option ℕ) (p : ManagedProcess) (w : W) → has_exited (note_exit os code p w) ≡ true
  unfolding note_exit has_exited
  note_exit-has_exited code p w = refl

  noted : (code : Option ℕ) (p : ManagedProcess) (w : W) → IsConsistent (note_exit os code p w)
  noted code p w = record { ended = λ h. note_exit-has_exited code p w }

  after_try_wait-IsConsistent :
      (x : Result String (Option (Option ℕ)) × W) (p : ManagedProcess)
      → IsConsistent p
      → IsConsistent (after_try_wait os x p).1.0
  unfolding after_try_wait
  after_try_wait-IsConsistent (err e, w) p c = c
  after_try_wait-IsConsistent (ok none, w) p c = c
  after_try_wait-IsConsistent (ok (some code), w) p c = noted code p w

  refresh-IsConsistent :
      (s : ManagedProcess × W) → IsConsistent s.0 → IsConsistent (refresh_exit_status os s).1.0
  unfolding refresh_exit_status
  refresh-IsConsistent (p, w) c = elim (Bool-cases (is_some p.exit_status_code)) [
    | inl known ↦ rw (known, refresh_exit_status) c
    | inr unknown ↦
        rw (unknown, refresh_exit_status) (after_try_wait-IsConsistent (os.try_wait p.pid w) p c)
  ]

  after_wait-exited :
      (x : Option (Result String (Option ℕ)) × W) (p : ManagedProcess)
      → (after_wait os x p).0 ≡ ok true
      → has_exited (after_wait os x p).1.0 ≡ true
  unfolding after_wait
  after_wait-exited (none, w) p h = let no_time = of_ok false true h in cc
  after_wait-exited (some (ok code), w) p h = note_exit-has_exited code p w
  after_wait-exited (some (err e), w) p h = cc

  after_wait-IsConsistent :
      (x : Option (Result String (Option ℕ)) × W) (p : ManagedProcess)
      → IsConsistent p
      → IsConsistent (after_wait os x p).1.0
  unfolding after_wait
  after_wait-IsConsistent (none, w) p c = c
  after_wait-IsConsistent (some (ok code), w) p c = noted code p w
  after_wait-IsConsistent (some (err e), w) p c = c

  -- What a wait leaves: a consistent process, which has ended if the answer says so.
  record IsWaited (x : Result Failure Bool × (ManagedProcess × W)) : Type 0 where
    consistent : IsConsistent x.1.0
    exited : x.0 ≡ ok true → has_exited x.1.0 ≡ true

  IsWaited-after :
      (x : Result Failure (Unit {0}) × (ManagedProcess × W)) (timeout : ℕ)
      → IsConsistent x.1.0
      → IsWaited (
          then_with x (λ refreshed (p, w).
            if is_some p.exit_status_code
            then (ok true, (p, w))
            else after_wait os (os.wait p.pid timeout w) p))
  IsWaited-after (err e, (p, w)) timeout c = record { consistent = c; exited = λ h. cc }
  IsWaited-after (ok u, (p, w)) timeout c = elim (Bool-cases (is_some p.exit_status_code)) [
    | inl known ↦ rw known (record { consistent = c; exited = λ h. c.ended known })
    | inr unknown ↦ rw unknown (record {
      consistent = after_wait-IsConsistent (os.wait p.pid timeout w) p c;
      exited = after_wait-exited (os.wait p.pid timeout w) p;
    })
  ]

  wait-IsWaited :
      (timeout : ℕ) (s : ManagedProcess × W)
      → IsConsistent s.0
      → IsWaited (wait_with_timeout os timeout s)
  unfolding wait_with_timeout
  wait-IsWaited timeout s c =
      IsWaited-after (refresh_exit_status os s) timeout (refresh-IsConsistent s c)

  after_kill_same :
      (x : Result KillError (Unit {0}) × W) (signal : Signal) (p : ManagedProcess)
      → (after_kill os x signal p).1.0 ≡ p
  unfolding after_kill
  after_kill_same (ok u, w) signal p = refl
  after_kill_same (err no_such_process, w) signal p = refl
  after_kill_same (err (other text), w) signal p = refl

  -- What the steps of a termination promise of their answer.
  pub record IsEnded (x : Result Failure (Unit {0}) × (ManagedProcess × W)) : Type 0 where
    pub consistent : IsConsistent x.1.0
    pub exited : x.0 ≡ ok tt → has_exited x.1.0 ≡ true

  IsEnded-after :
      (x : Result Failure Bool × (ManagedProcess × W))
      (next : ManagedProcess × W → Result Failure (Unit {0}) × (ManagedProcess × W))
      → ((s : ManagedProcess × W) → IsConsistent s.0 → IsEnded (next s))
      → IsWaited x
      → IsEnded (then_with x (λ (exited : Bool) s. if exited then (ok tt, s) else next s))
  IsEnded-after (ok true, s) next h v = record {
    consistent = v.consistent;
    exited = λ e. v.exited refl;
  }
  IsEnded-after (ok false, s) next h v = h s v.consistent
  IsEnded-after (err e, s) next h v = record { consistent = v.consistent; exited = λ e. cc }

  signalled :
      (x : Result Failure (Unit {0}) × (ManagedProcess × W)) (grace : ℕ)
      (next : ManagedProcess × W → Result Failure (Unit {0}) × (ManagedProcess × W))
      → ((s : ManagedProcess × W) → IsConsistent s.0 → IsEnded (next s))
      → IsConsistent x.1.0
      → IsEnded (
          then_with x (λ sent s1.
            then_with
              (wait_with_timeout os grace s1)
              (λ (exited : Bool) s2. if exited then (ok tt, s2) else next s2)))
  signalled (ok u, s) grace next h c =
      IsEnded-after (wait_with_timeout os grace s) next h (wait-IsWaited grace s c)
  signalled (err e, s) grace next h c = record { consistent = c; exited = λ e. cc }

  signal_and_wait-IsEnded :
      (signal : Signal) (grace : ℕ)
      (next : ManagedProcess × W → Result Failure (Unit {0}) × (ManagedProcess × W))
      → ((s : ManagedProcess × W) → IsConsistent s.0 → IsEnded (next s))
      → (s : ManagedProcess × W) → IsConsistent s.0
      → IsEnded (signal_and_wait os signal grace next s)
  unfolding signal_and_wait signal_process_group
  signal_and_wait-IsEnded signal grace next h (p, w) c =
      signalled (after_kill os (os.kill p.process_group_id signal w) signal p) grace next h (
        subst IsConsistent (sym (after_kill_same (os.kill p.process_group_id signal w) signal p)) c)

  -- A refresh, and then success if the code is known.
  known_or :
      (x : Result Failure (Unit {0}) × (ManagedProcess × W))
      (next : ManagedProcess × W → Result Failure (Unit {0}) × (ManagedProcess × W))
      → ((s : ManagedProcess × W) → IsConsistent s.0 → IsEnded (next s))
      → IsConsistent x.1.0
      → IsEnded (
          then_with x (λ refreshed (p, w).
            if is_some p.exit_status_code then (ok tt, (p, w)) else next (p, w)))
  known_or (err e, s) next h c = record { consistent = c; exited = λ e. cc }
  known_or (ok u, (p, w)) next h c = elim (Bool-cases (is_some p.exit_status_code)) [
    | inl known ↦ rw known (record { consistent = c; exited = λ e. c.ended known })
    | inr unknown ↦ rw unknown (h (p, w) c)
  ]

  refused : (e : Failure) (s : ManagedProcess × W) → IsConsistent s.0 → IsEnded (err e, s)
  refused e s c = record { consistent = c; exited = λ h. cc }

  give_up-IsEnded : (s : ManagedProcess × W) → IsConsistent s.0 → IsEnded (give_up os s)
  unfolding give_up
  give_up-IsEnded s c =
      known_or (refresh_exit_status os s) (λ x. (err (still_running os x.0), x))
        (λ x d. refused (still_running os x.0) x d) (refresh-IsConsistent s c)

  -- The end of a process keeps it consistent: whenever it has an exit code, it has an end. If it succeeds,
  -- the process has exited, so that the check after the teardown finds it so.
  pub terminate_gracefully-IsEnded :
      (sigint_grace sigterm_grace : ℕ) (s : ManagedProcess × W)
      → IsConsistent s.0
      → IsEnded (terminate_gracefully os sigint_grace sigterm_grace s)
  unfolding terminate_gracefully
  terminate_gracefully-IsEnded sigint_grace sigterm_grace s c =
      known_or (refresh_exit_status os s)
        (signal_and_wait os sigint sigint_grace
          (signal_and_wait os sigterm sigterm_grace (give_up os)))
        (signal_and_wait-IsEnded sigint sigint_grace _
          (signal_and_wait-IsEnded sigterm sigterm_grace (give_up os) give_up-IsEnded))
        (refresh-IsConsistent s c)
