-- ===== src/SmokeSuite/Teardown.antt =====
-- utils/transport-smoke-suite/src/scenario.rs: the end of a scenario. The paths below the root of the
-- repository are written out in `Layout`; bash is a parameter.
pub mod Order
use up_streamer_rust.Base.{
  ℕ, zero, suc, ◌+◌, ◌-◌, ◌%◌, ◌^◌, ◌≤◌, ◌<◌, String, ◌≡◌, refl, sym, ap, ◌∙◌, ◌≢◌, ◌↔◌, ◌⊎◌, inl,
  inr, Bool, true, false, not, ◌&&◌, ◌||◌, Option, none, some, List, [], ◌∷◌, map, arith, ltb, leb,
  if◌then◌else◌, Result, ok, err, Bool-cases, Option-cases, Result-cases, or_else, or_else_assoc,
  and_then, and_then_ok, of_ok, or_else-none, or_else_self, Equality, ◌==◌, nat_equality,
  string_equality, option_beq, option_beq_iff, option_equality, pair_equality, beq_self, eq_of_beq,
  beq_false, ne_of_beq, beq_comm,
}
use Prim.Native.String.{◌++◌}
use up_streamer_rust.Base.Bytes.{Text, codes}
use mathlib.Core.List.{◌++◌ as append}
use up_streamer_rust.Base.Loops.{then_with}
use up_streamer_rust.SmokeSuite.Host.{Failure, with_context, bail}
use up_streamer_rust.SmokeSuite.Shell.{shell_escape, with_optional_bootstrap}
use up_streamer_rust.SmokeSuite.Process.{Os, ManagedProcess, has_exited, terminate_gracefully}

pub record CommandOutcome : Type 0 where
  pub command : Text
  pub status_code : Option ℕ
  pub stdout : Text
  pub stderr : Text

-- `bash -lc` in a directory, with the status code and the two outputs; texts from bytes, and `{:?}`.
pub record Bash (W : Type 0) : Type 0 where
  pub output : Text → Text → W → Result String (Option ℕ × (Text × Text)) × W
  pub text : Text → String
  pub debug : Option ℕ → String

pub record Layout : Type 0 where
  pub repo_root : Text
  pub bootstrap_script : Text
  pub compose_path : Text

-- The processes of a run, each once it was spawned.
pub record Stage (W : Type 0) : Type 0 where
  pub active_process : Option ManagedProcess
  pub passive_process : Option ManagedProcess
  pub streamer_process : Option ManagedProcess
  pub mqtt_broker_started : Bool
  pub world : W

pub data Role : Type 0 where
  active passive streamer : Role

abbrev pub sigint_grace_secs : ℕ
sigint_grace_secs = 5

abbrev pub sigterm_grace_secs : ℕ
sigterm_grace_secs = 5

abbrev pub role_name : Role → String
role_name active = "active"
role_name passive = "passive"
role_name streamer = "streamer"

module _ {W : Type 0} where
  abbrev pub process : Role → Stage W → Option ManagedProcess
  process active s = s.active_process
  process passive s = s.passive_process
  process streamer s = s.streamer_process

  abbrev pub with_process : Role → ManagedProcess × W → Stage W → Stage W
  with_process active (p, w) s = record s { active_process = some p; world = w }
  with_process passive (p, w) s = record s { passive_process = some p; world = w }
  with_process streamer (p, w) s = record s { streamer_process = some p; world = w }

module _ {W : Type 0} (bash : Bash W) where
  abbrev pub with_outcome :
      Text → Result String (Option ℕ × (Text × Text)) × W → Result Failure CommandOutcome × W
  with_outcome command (ok (code, (stdout, stderr)), w) =
      (ok (record { command = command; status_code = code; stdout = stdout; stderr = stderr }), w)
  with_outcome command (err e, w) =
      (with_context ("failed to execute shell command: " ++ bash.text command) (err e), w)

  unfoldable pub run_shell_command :
      Layout → Text → Text → Bool → W → Result Failure CommandOutcome × W
  run_shell_command layout workdir command no_bootstrap w =
      let full_command = with_optional_bootstrap layout.bootstrap_script command no_bootstrap in
      with_outcome full_command (bash.output workdir full_command w)

  unfoldable pub assert_command_success : CommandOutcome → String → Result Failure (Unit {0})
  assert_command_success outcome label =
      if outcome.status_code == some 0
      then ok tt
      else bail (
          label
          ++ " failed (status="
          ++ bash.debug outcome.status_code
          ++ ")\ncommand: "
          ++ bash.text outcome.command
          ++ "\nstdout:\n"
          ++ bash.text outcome.stdout
          ++ "\nstderr:\n"
          ++ bash.text outcome.stderr)

  unfoldable pub down_command : Layout → Text
  down_command layout =
      append (codes "docker compose -f ")
        (append (shell_escape layout.compose_path) (codes " down --remove-orphans"))

  unfoldable pub stop_mqtt_broker : Layout → Bool → W → Result Failure (Unit {0}) × W
  unfolding run_shell_command assert_command_success down_command
  stop_mqtt_broker layout no_bootstrap w =
      then_with (run_shell_command layout layout.repo_root (down_command layout) no_bootstrap w)
        (λ outcome w'. (assert_command_success outcome "docker compose down", w'))

unfoldable pub ensure_process_exited : Option ManagedProcess → Role → Result Failure (Unit {0})
ensure_process_exited none role = ok tt
ensure_process_exited (some p) role =
    if has_exited p
    then ok tt
    else bail (role_name role ++ " process '" ++ p.name ++ "' remained alive after teardown")

module _ {W : Type 0} where
  unfoldable pub ensure_all_exited : Stage W → Result Failure (Unit {0})
  unfolding ensure_process_exited
  ensure_all_exited s = and_then (ensure_process_exited s.active_process active) (λ active_exited.
      and_then (ensure_process_exited s.passive_process passive)
        (λ passive_exited. ensure_process_exited s.streamer_process streamer))

  abbrev pub with_world :
      Result Failure (Unit {0}) × W → Stage W → Result Failure (Unit {0}) × Stage W
  with_world (answer, w) s = (answer, record s { world = w })

module _ {W : Type 0} (os : Os W) where
  abbrev pub ended :
      Role
      → Result Failure (Unit {0}) × (ManagedProcess × W)
      → Stage W
      → Result Failure (Unit {0}) × Stage W
  ended role (answer, (p, w)) s = (answer, with_process role (p, w) s)

  -- The end of one process, if it was spawned.
  unfoldable pub terminate : Role → Stage W → Result Failure (Unit {0}) × Stage W
  terminate role s = elim (process role s) [
    | none ↦ (ok tt, s)
    | some p ↦
        ended role (terminate_gracefully os sigint_grace_secs sigterm_grace_secs (p, s.world)) s
  ]

module _ {W : Type 0} (os : Os W) (bash : Bash W) (layout : Layout)
    (requires_docker no_bootstrap : Bool) where
  unfoldable pub stop_broker : Stage W → Result Failure (Unit {0}) × Stage W
  unfolding stop_mqtt_broker
  stop_broker s =
      if requires_docker && s.mqtt_broker_started
      then with_world (stop_mqtt_broker bash layout no_bootstrap s.world) s
      else (ok tt, s)

  -- The processes in the order in which they are ended, and then the broker.
  unfoldable pub end_all : Stage W → Result Failure (Unit {0}) × Stage W
  unfolding terminate stop_broker
  end_all s = then_with (terminate os active s) (λ active_ended s1.
      then_with (terminate os passive s1) (λ passive_ended s2.
        then_with (terminate os streamer s2) (λ streamer_ended s3. stop_broker s3)))

  -- The phase `Teardown`.
  unfoldable pub teardown : Stage W → Result Failure (Unit {0}) × Stage W
  unfolding end_all ensure_all_exited
  teardown s = then_with (end_all s) (λ all_ended s'. (ensure_all_exited s', s'))
