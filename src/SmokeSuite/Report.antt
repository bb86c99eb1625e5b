-- ===== src/SmokeSuite/Report.antt =====
-- utils/transport-smoke-suite/src/report.rs: the data of the reports. Times are texts, and an `i32` is the number
-- of its 32 bits.
use up_streamer_rust.Base.{
  ℕ, String, Bool, Option, List, nat_equality, string_equality, option_equality, pair_equality,
}
use up_streamer_rust.SmokeSuite.Claims.{ClaimOutcome}

pub record PhaseTiming : Type 0 where
  pub phase : String
  pub start_ts : String
  pub end_ts : String
  pub duration_ms : ℕ

pub record ProcessMetadata : Type 0 where
  pub name : String
  pub pid : ℕ
  pub process_group_id : ℕ
  pub command : String
  pub workdir : String
  pub log_file : String
  pub exit_status : Option ℕ

pub record ScenarioReport : Type 0 where
  pub schema_version : String
  pub scenario_id : String
  pub transport_family : String
  pub pass : Bool
  pub exit_code : ℕ
  pub phase_timings : List PhaseTiming
  pub processes : List ProcessMetadata
  pub claim_outcomes : List ClaimOutcome
  pub forbidden_claim_outcomes : List ClaimOutcome
  pub failure_reason : Option String
  pub repro_command : String
  pub artifact_dir : String
  pub claims_source_path : Option String
  pub start_ts : String
  pub end_ts : String
  pub duration_ms : ℕ

pub record MatrixScenarioSummary : Type 0 where
  pub scenario_id : String
  pub pass : Bool
  pub exit_code : ℕ
  pub artifact_dir : Option String
  pub failure_reason : Option String
  pub duration_ms : ℕ

pub record FailedScenarioSummary : Type 0 where
  pub scenario_id : String
  pub failure_reason : String
