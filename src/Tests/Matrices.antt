-- ===== src/Tests/Matrices.antt =====
-- A matrix whose binaries succeed and name the report of a pass.
use up_streamer_rust.Base.{
  ℕ, ◌+◌, ◌-◌, String, ◌≢◌, true, false, none, some, [], ◌∷◌, ok, err, nat_equality,
  string_equality, option_equality, pair_equality,
}
use Prim.Native.String.{◌++◌}
use up_streamer_rust.SmokeSuite.Report.{ScenarioReport}
use up_streamer_rust.SmokeSuite.Matrix.{
  MatrixHost, Cli, exit_code, select_only, resolve_selected_scenarios,
}
use up_streamer_rust.SmokeSuite.Matrix.Run.{Disk}
use up_streamer_rust.SmokeSuite.Host.{Host}
use up_streamer_rust.SmokeSuite.Env.{Surroundings}
use up_streamer_rust.SmokeSuite.Claims.{ClaimsFile}
use up_streamer_rust.SmokeSuite.Teardown.{Bash, Layout}

abbrev report : ScenarioReport
report = record {
  schema_version = "1.1";
  scenario_id = "demo";
  transport_family = "mqtt";
  pass = true;
  exit_code = 0;
  phase_timings = [];
  processes = [];
  claim_outcomes = [];
  forbidden_claim_outcomes = [];
  failure_reason = none;
  repro_command = "demo";
  artifact_dir = "artifacts/demo";
  claims_source_path = none;
  start_ts = "0";
  end_ts = "1";
  duration_ms = 1;
}

-- The state is the number of the binaries that ran.
abbrev host : MatrixHost ℕ
host = record {
  exists = λ w path. true;
  is_dir = λ w path. true;
  read_dir = λ w path. none;
  file_name = λ path. some path;
  read_to_string = λ w path. ok "{}";
  parse_report = λ payload. ok report;
  output = λ binary args w.
      (ok (record { success = true; stdout = "SCENARIO_REPORT_JSON=r.json"; stderr = "" }), w + 1);
  elapsed_ms = λ w w'. w' - w;
  join = λ a b. a ++ "/" ++ b;
  lines = λ text. text ∷ [];
  trim = λ text. text;
  text = λ codes. "";
  to_string = λ n. "1";
}

abbrev cli : Cli
cli = record {
  repo_root = "repo";
  artifacts_root = "artifacts";
  expected_branch = none;
  skip_build = false;
  claims_path = some "claims";
  send_count = 1;
  send_interval_ms = 1;
  scenario_timeout_secs = none;
  no_bootstrap = true;
  endpoint_claim_min_count = 1;
  egress_send_attempt_min_count = 1;
  egress_send_ok_min_count = 1;
  egress_worker_min_count = 1;
}

abbrev disk : Disk ℕ
disk = record {
  create_dir_all = λ path w. (ok tt, w);
  write = λ path text w. (ok tt, w);
  to_string_pretty = λ summary. ok "{}";
  scenario_timestamp = λ w. "now";
  timestamp = λ w. "now";
  signed_to_string = λ n. "1";
}

abbrev bash : Bash ℕ
bash = record {
  output = λ workdir command w. (ok (some 0, ([], [])), w);
  text = λ codes. "";
  debug = λ code. "";
}

abbrev layout : Layout
layout = record { repo_root = []; bootstrap_script = []; compose_path = [] }

abbrev surroundings : Surroundings
surroundings = record {
  current_branch = λ root. ok (true, ("0", "main"));
  smoke_expected_branch = some "main";
  exists = λ path. true;
  join = λ a b. a ++ "/" ++ b;
  trim = λ text. text;
}

abbrev files : Host String ClaimsFile
files = record {
  metadata = λ p. ok (record { is_dir = true; is_file = false });
  read_to_string = λ p. err "none";
  parse = λ s. err "none";
  regex_new = λ p. ok p;
  find_iter = λ r s. [];
  is_absolute = λ p. true;
  join = λ p q. q;
  trim = λ s. s;
  to_string = λ n. "n";
}

one_unknown : resolve_selected_scenarios ("smoke" ∷ []) ≢ ok ("smoke" ∷ [])
unfolding resolve_selected_scenarios select_only
one_unknown h = cc h
