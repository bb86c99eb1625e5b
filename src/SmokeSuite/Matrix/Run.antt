-- ===== src/SmokeSuite/Matrix/Run.antt =====
-- utils/transport-smoke-suite/src/bin/transport-smoke-matrix.rs: run, from the checks before the scenarios
-- to the files of the summary, and report.rs: write_matrix_summary. The root of the repository is given.
pub mod Answers
use up_streamer_rust.Base.{
  ℕ, String, Bool, true, false, ◌&&◌, Option, none, some, List, ltb, if◌then◌else◌, Result, ok, err,
  and_then, ◌==◌, nat_equality, string_equality, option_equality, pair_equality,
}
use Prim.Native.String.{◌++◌}
use up_streamer_rust.Base.Lists.{length}
use up_streamer_rust.Base.Bytes.{codes}
use up_streamer_rust.Base.Loops.{then_with}
use up_streamer_rust.SmokeSuite.Host.{Host, Failure, with_context, bail}
use up_streamer_rust.SmokeSuite.Env.{
  Surroundings, resolve_artifacts_root, resolve_expected_branch, enforce_expected_branch,
}
use up_streamer_rust.SmokeSuite.Claims.{ClaimsFile, ClaimsPathKind, file, directory}
use up_streamer_rust.SmokeSuite.Claims.Files.{claims_override_kind}
use up_streamer_rust.SmokeSuite.Teardown.{Bash, Layout, CommandOutcome, run_shell_command}
use up_streamer_rust.SmokeSuite.Report.{MatrixScenarioSummary}
use up_streamer_rust.SmokeSuite.Rendering.{MatrixSummary, render_matrix_summary_text}
use up_streamer_rust.SmokeSuite.Matrix.{
  MatrixHost, Cli, resolve_selected_scenarios, run_selected, pass_count, fail_count,
  failed_scenarios, exit_code,
}

-- What is written, and the clock.
pub record Disk (W : Type 0) : Type 0 where
  pub create_dir_all : String → W → Result String (Unit {0}) × W
  pub write : String → String → W → Result String (Unit {0}) × W
  pub to_string_pretty : MatrixSummary → Result String String
  pub scenario_timestamp : W → String
  pub timestamp : W → String
  pub signed_to_string : ℕ → String

abbrev pub io : {W A : Type 0} → Result String A × W → Result Failure A × W
io (ok a, w) = (ok a, w)
io (err e, w) = (bail e, w)

abbrev pub io_context : {W A : Type 0} → String → Result String A × W → Result Failure A × W
io_context context (x, w) = (with_context context x, w)

abbrev pub is_file : ClaimsPathKind → Bool
is_file file = true
is_file directory = false

module _ {W R : Type 0} (host : MatrixHost W) (disk : Disk W) (bash : Bash W) (layout : Layout)
    (surroundings : Surroundings) (files : Host R ClaimsFile) where
  unfoldable pub write_matrix_summary :
      MatrixSummary → String → W → Result Failure (String × String) × W
  write_matrix_summary summary artifacts_dir w =
      let json = host.join artifacts_dir "matrix-summary.json" in
      let txt = host.join artifacts_dir "matrix-summary.txt" in
      then_with
        (io_context ("unable to create artifact dir " ++ artifacts_dir)
          (disk.create_dir_all artifacts_dir w))
        (λ created w1.
          then_with (with_context "serialize matrix summary" (disk.to_string_pretty summary), w1)
            (λ payload w2.
              then_with
                (io_context ("unable to write matrix summary JSON " ++ json)
                  (disk.write json payload w2))
                (λ json_written w3.
                  then_with
                    (io_context ("unable to write matrix summary text " ++ txt) (
                      disk.write txt
                        (render_matrix_summary_text host.to_string disk.signed_to_string summary)
                        w3))
                    (λ text_written w4. (ok (json, txt), w4)))))

  -- A claims file is for one scenario only.
  unfoldable pub claims_fit : Cli → List String → Result Failure (Unit {0})
  claims_fit cli ids = elim cli.claims_path [
    | none ↦ ok tt
    | some claims_path ↦ and_then (claims_override_kind files cli.repo_root claims_path) (λ kind.
        if is_file kind && ltb 1 (length ids)
        then bail (
            "--claims-path points to a file but "
            ++ host.to_string (length ids)
            ++ " scenarios are selected. Use a directory override for multi-scenario matrix runs or select a single scenario with --only")
        else ok tt)
  ]

  unfoldable pub check_build : CommandOutcome → Result Failure (Unit {0})
  check_build outcome =
      if outcome.status_code == some 0
      then ok tt
      else bail (
          "failed to build transport-smoke-suite binaries\ncommand: "
          ++ bash.text outcome.command
          ++ "\nstdout:\n"
          ++ bash.text outcome.stdout
          ++ "\nstderr:\n"
          ++ bash.text outcome.stderr)

  unfoldable pub build : Cli → W → Result Failure (Unit {0}) × W
  unfolding run_shell_command check_build
  build cli w =
      let built =
        then_with
          (run_shell_command bash layout layout.repo_root
            (codes "cargo build -p transport-smoke-suite --bins") cli.no_bootstrap w)
          (λ outcome w'. (check_build outcome, w')) in
      if cli.skip_build then (ok tt, w) else built

  unfoldable pub matrix_summary : List String → W → List MatrixScenarioSummary → W → MatrixSummary
  matrix_summary ids start summaries w = record {
    schema_version = "1.0";
    selected_scenarios = ids;
    pass_count = pass_count summaries;
    fail_count = fail_count summaries;
    total_duration_ms = host.elapsed_ms start w;
    scenarios = summaries;
    failed_scenarios = failed_scenarios summaries;
    aggregate_exit_rationale =
        if fail_count summaries == 0
        then "all selected scenarios passed"
        else host.to_string (fail_count summaries)
          ++ " of "
          ++ host.to_string (length summaries)
          ++ " scenarios failed; matrix exits non-zero";
    start_ts = disk.timestamp start;
    end_ts = disk.timestamp w;
  }

  -- After the loop over the scenarios.
  unfoldable pub conclude :
      String → List String → W → List MatrixScenarioSummary × W → Result Failure ℕ × W
  unfolding write_matrix_summary matrix_summary
  conclude matrix_artifact_dir ids start (summaries, w) =
      then_with (write_matrix_summary (matrix_summary ids start summaries w) matrix_artifact_dir w)
        (λ written w'. (ok (exit_code summaries), w'))

  abbrev pub matrix_dir : Cli → W → String
  matrix_dir cli w = host.join (host.join cli.artifacts_root "matrix") (disk.scenario_timestamp w)

  -- The part of the run after its checks.
  unfoldable pub run_matrix : Cli → List String → W → Result Failure ℕ × W
  unfolding build conclude
  run_matrix cli ids w = then_with (io (disk.create_dir_all (matrix_dir cli w) w)) (λ created w1.
      then_with (build cli w1)
        (λ built w2. conclude (matrix_dir cli w) ids w2 (run_selected host cli ids w2)))

  -- The options with the root of the artifacts and the branch resolved.
  abbrev pub resolve : Option String → Cli → Cli
  resolve artifacts_root cli = record cli {
    artifacts_root = resolve_artifacts_root surroundings cli.repo_root artifacts_root;
    expected_branch = resolve_expected_branch surroundings cli.expected_branch;
  }

  unfoldable pub run : List String → Option String → Cli → W → Result Failure ℕ × W
  unfolding claims_fit run_matrix
  run only artifacts_root cli w =
      then_with
        (
          enforce_expected_branch surroundings cli.repo_root
              (resolve_expected_branch surroundings cli.expected_branch),
          w,
        )
        (λ on_branch w1.
          then_with (resolve_selected_scenarios only, w1)
            (λ ids w2.
              then_with (claims_fit cli ids, w2)
                (λ fits w3. run_matrix (resolve artifacts_root cli) ids w3)))
