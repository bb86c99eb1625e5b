-- ===== src/Tests/Processes.antt =====
-- Processes on a small operating system: a signal ends every process but those of group 9, which may not be
-- signalled.
use up_streamer_rust.Base.{
  ℕ, suc, ◌≡◌, refl, true, false, none, some, [], ◌∷◌, if◌then◌else◌, ok, err, ◌==◌, nat_equality,
  string_equality, option_equality, pair_equality,
}
use up_streamer_rust.Base.Bytes.{codes}
use up_streamer_rust.SmokeSuite.Host.{Failure}
use up_streamer_rust.SmokeSuite.Shell.{render_exec_command}
use up_streamer_rust.SmokeSuite.Shell.Words.{between, words, words-render_exec_command}
use up_streamer_rust.SmokeSuite.Process.{
  Os, ManagedProcess, other, refresh_exit_status, after_try_wait, signal_and_wait,
  signal_process_group, after_kill, terminate_gracefully,
}
use up_streamer_rust.SmokeSuite.Process.Ending.{IsConsistent, IsEnded, terminate_gracefully-IsEnded}
use up_streamer_rust.SmokeSuite.Teardown.{Bash, Layout, Stage, active, terminate, teardown, end_all}
use up_streamer_rust.SmokeSuite.Teardown.Order.{teardown-end_all, teardown_failed}

abbrev small_os : Os ℕ
small_os = record {
  try_wait = λ pid w. (ok none, w);
  wait = λ pid timeout w. (some (ok (some 0)), w);
  kill = λ group signal w. if group == 9 then (err (other "denied"), w) else (ok tt, suc w);
  now = λ w. w;
  to_string = λ n. "n";
}

abbrev small_bash : Bash ℕ
small_bash = record {
  output = λ workdir command w. (ok (some 0, ([], [])), w);
  text = λ bytes. "bytes";
  debug = λ status. "status";
}

abbrev layout : Layout
layout = record {
  repo_root = codes "/repo";
  bootstrap_script = codes "/repo/build/envsetup.sh";
  compose_path = codes "/repo/utils/mosquitto/docker-compose.yaml";
}

abbrev running : ℕ → ManagedProcess
running pid = record {
  name = "p";
  pid = pid;
  process_group_id = pid;
  command_line = "exec p";
  workdir = "/repo";
  log_path = "p.log";
  started_at = 0;
  ended_at = none;
  exit_status_code = none;
}

consistent : (pid : ℕ) → IsConsistent (running pid)
consistent pid = record { ended = λ h. cc }

abbrev stage : ℕ → Stage ℕ
stage pid = record {
  active_process = some (running pid);
  passive_process = some (running 2);
  streamer_process = some (running 3);
  mqtt_broker_started = true;
  world = 0;
}

words-render_exec_command_example :
    words between
      (render_exec_command (λ p. p) (codes "/bin/it's") (codes "a $b;" ∷ codes "\"" ∷ []))
    ≡ some (codes "exec" ∷ codes "/bin/it's" ∷ codes "a $b;" ∷ codes "\"" ∷ [])
words-render_exec_command_example =
    words-render_exec_command (λ p. p) (codes "/bin/it's") (codes "a $b;" ∷ codes "\"" ∷ [])
      (refl, (refl, (refl, tt)))

-- A command line with a sign outside of quotes is not read.
unquoted : words between (codes "exec a;b") ≡ none
unquoted = refl

terminate_gracefully-IsEnded_example :
    IsEnded small_os (terminate_gracefully small_os 5 5 (running 1, 0))
terminate_gracefully-IsEnded_example =
    terminate_gracefully-IsEnded small_os 5 5 (running 1, 0) (consistent 1)

teardown-end_all_example :
    teardown small_os small_bash layout true false (stage 1)
    ≡ end_all small_os small_bash layout true false (stage 1)
teardown-end_all_example =
    teardown-end_all small_os small_bash layout true false (stage 1)
      (record { active = consistent 1; passive = consistent 2; streamer = consistent 3 })

abbrev denied : Failure
denied = "unable to send signal 2 to process group n: denied" ∷ []

active_denied : (terminate small_os active (stage 9)).0 ≡ err denied
unfolding terminate terminate_gracefully refresh_exit_status after_try_wait signal_and_wait
    signal_process_group after_kill
active_denied = refl

teardown_failed_example :
    let (answer, s') = teardown small_os small_bash layout true false (stage 9) in
    (answer ≡ err denied)
    × (s'.passive_process ≡ some (running 2))
    × (s'.streamer_process ≡ some (running 3))
    × (s'.world ≡ (terminate small_os active (stage 9)).1.world)
teardown_failed_example =
    teardown_failed small_os small_bash layout true false (stage 9) denied active_denied
