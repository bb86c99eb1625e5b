-- ===== src/SmokeSuite/Rendering.antt =====
-- utils/transport-smoke-suite/src/report.rs: the texts of the reports. The decimal digits of a number are a
-- parameter, for an `i32` and for an unsigned number.
use up_streamer_rust.Base.{
  ℕ, String, Bool, true, false, Option, none, some, List, [], ◌∷◌, map, nat_equality,
  string_equality, option_equality, pair_equality,
}
use Prim.Native.String.{◌++◌}
use mathlib.Core.List.{◌++◌ as append}
use up_streamer_rust.SmokeSuite.Claims.{ClaimOutcome}
use up_streamer_rust.SmokeSuite.Report.{
  PhaseTiming, ScenarioReport, MatrixScenarioSummary, FailedScenarioSummary,
}
use up_streamer_rust.SmokeSuite.Matrix.{join_texts}

pub record MatrixSummary : Type 0 where
  pub schema_version : String
  pub selected_scenarios : List String
  pub pass_count : ℕ
  pub fail_count : ℕ
  pub total_duration_ms : ℕ
  pub scenarios : List MatrixScenarioSummary
  pub failed_scenarios : List FailedScenarioSummary
  pub aggregate_exit_rationale : String
  pub start_ts : String
  pub end_ts : String

abbrev pub status : Bool → String
status true = "PASS"
status false = "FAIL"

abbrev pub or_not_available : Option String → String
or_not_available none = "<not available>"
or_not_available (some text) = text

abbrev pub reason_lines : Option String → List String
reason_lines none = []
reason_lines (some reason) = ("failure_reason: " ++ reason) ∷ []

abbrev pub failed_line : FailedScenarioSummary → String
failed_line failed = "failed: " ++ failed.scenario_id ++ " -> " ++ failed.failure_reason

module _ (to_string signed_to_string : ℕ → String) where
  abbrev pub phase_line : PhaseTiming → String
  phase_line phase = "  - " ++ phase.phase ++ " (duration_ms=" ++ to_string phase.duration_ms ++ ")"

  abbrev pub outcome_line : ClaimOutcome → String
  outcome_line outcome =
      "  - "
      ++ outcome.claim_id
      ++ ": "
      ++ status outcome.pass
      ++ " (observed="
      ++ to_string outcome.observed_count
      ++ ", min="
      ++ to_string outcome.min_count
      ++ ", pattern='"
      ++ outcome.pattern
      ++ "')"

  unfoldable pub render_scenario_summary_text : ScenarioReport → String
  render_scenario_summary_text report = join_texts "\n" (
      append
        (("scenario_id: " ++ report.scenario_id)
          ∷ ("transport_family: " ++ report.transport_family)
          ∷ ("status: " ++ status report.pass)
          ∷ ("exit_code: " ++ signed_to_string report.exit_code)
          ∷ ("artifact_dir: " ++ report.artifact_dir)
          ∷ ("claims_source_path: " ++ or_not_available report.claims_source_path)
          ∷ ("duration_ms: " ++ to_string report.duration_ms)
          ∷ ("repro_command: " ++ report.repro_command)
          ∷ reason_lines report.failure_reason)
        ("phase_timings:"
          ∷ append (map phase_line report.phase_timings) (
              "claim_outcomes:"
              ∷ map outcome_line (append report.claim_outcomes report.forbidden_claim_outcomes))))

  abbrev pub scenario_line : MatrixScenarioSummary → String
  scenario_line s =
      "  - "
      ++ s.scenario_id
      ++ ": "
      ++ status s.pass
      ++ " (exit_code="
      ++ signed_to_string s.exit_code
      ++ ", duration_ms="
      ++ to_string s.duration_ms
      ++ ", artifact_dir="
      ++ or_not_available s.artifact_dir
      ++ ")"

  unfoldable pub render_matrix_summary_text : MatrixSummary → String
  render_matrix_summary_text summary = join_texts "\n" (
      ("selected_scenarios: " ++ join_texts ", " summary.selected_scenarios)
      ∷ ("pass_count: " ++ to_string summary.pass_count)
      ∷ ("fail_count: " ++ to_string summary.fail_count)
      ∷ ("total_duration_ms: " ++ to_string summary.total_duration_ms)
      ∷ ("aggregate_exit_rationale: " ++ summary.aggregate_exit_rationale)
      ∷ "scenarios:"
      ∷ append (map scenario_line summary.scenarios) (map failed_line summary.failed_scenarios))
