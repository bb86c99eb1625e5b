-- ===== src/SmokeSuite/Matrix.antt =====
-- utils/transport-smoke-suite/src/bin/transport-smoke-matrix.rs: the runs of the selected scenarios, one after
-- the other. The file system, the scenario binaries and serde_json are parameters, with a state `W`.
pub mod Exit
pub mod Run
use up_streamer_rust.Base.{
  ℕ, zero, suc, ◌+◌, ◌-◌, ◌%◌, ◌^◌, ◌≤◌, ◌<◌, String, ◌≡◌, refl, sym, ap, ◌∙◌, ◌≢◌, ◌↔◌, ◌⊎◌, inl,
  inr, Bool, true, false, not, ◌&&◌, ◌||◌, Option, none, some, List, [], ◌∷◌, map, arith, ltb, leb,
  if◌then◌else◌, Result, ok, err, Bool-cases, Option-cases, Result-cases, or_else, or_else_assoc,
  and_then, and_then_ok, of_ok, or_else-none, or_else_self, Equality, ◌==◌, nat_equality,
  string_equality, option_beq, option_beq_iff, option_equality, pair_equality, beq_self, eq_of_beq,
  beq_false, ne_of_beq, beq_comm,
}
use Prim.Native.String.{◌++◌}
use Prim.Native.String
use Prim.Native.Char.{code}
use Prim.Native.Nat.{Ordering}
use mathlib.Core.List.{◌++◌ as append}
use up_streamer_rust.Base.Lists.{length, contains, push}
use up_streamer_rust.SmokeSuite.Host.{Failure, with_context, bail}
use up_streamer_rust.Base.Bytes.{Text, codes}
use up_streamer_rust.SmokeSuite.Shell.{shell_escape}
use up_streamer_rust.SmokeSuite.Report.{
  ScenarioReport, MatrixScenarioSummary, FailedScenarioSummary,
}

-- What a scenario binary leaves: whether it was successful, and its outputs.
pub record Output : Type 0 where
  pub success : Bool
  pub stdout : String
  pub stderr : String

pub record MatrixHost (W : Type 0) : Type 0 where
  pub exists : W → String → Bool
  pub is_dir : W → String → Bool
  pub read_dir : W → String → Option (List (Result String String))
  pub file_name : String → Option String
  pub read_to_string : W → String → Result String String
  pub parse_report : String → Result String ScenarioReport
  pub output : String → List String → W → Result String Output × W
  pub elapsed_ms : W → W → ℕ
  pub join : String → String → String
  pub lines : String → List String
  pub trim : String → String
  pub text : Text → String
  pub to_string : ℕ → String

-- The options that a scenario gets; the paths and the branch are resolved.
pub record Cli : Type 0 where
  pub repo_root : String
  pub artifacts_root : String
  pub expected_branch : Option String
  pub skip_build : Bool
  pub claims_path : Option String
  pub send_count : ℕ
  pub send_interval_ms : ℕ
  pub scenario_timeout_secs : Option ℕ
  pub no_bootstrap : Bool
  pub endpoint_claim_min_count : ℕ
  pub egress_send_attempt_min_count : ℕ
  pub egress_send_ok_min_count : ℕ
  pub egress_worker_min_count : ℕ

abbrev pub scenario_ids : List String
scenario_ids =
    "smoke-zenoh-mqtt-rr-zenoh-client-mqtt-service"
    ∷ "smoke-zenoh-mqtt-rr-mqtt-client-zenoh-service"
    ∷ "smoke-zenoh-mqtt-ps-zenoh-publisher-mqtt-subscriber"
    ∷ "smoke-zenoh-mqtt-ps-mqtt-publisher-zenoh-subscriber"
    ∷ "smoke-zenoh-someip-rr-zenoh-client-someip-service"
    ∷ "smoke-zenoh-someip-rr-someip-client-zenoh-service"
    ∷ "smoke-zenoh-someip-ps-zenoh-publisher-someip-subscriber"
    ∷ "smoke-zenoh-someip-ps-someip-publisher-zenoh-subscriber" ∷ []

abbrev pub join_texts : String → List String → String
join_texts separator [] = ""
join_texts separator (x ∷ []) = x
join_texts separator (x ∷ (y ∷ rest)) = x ++ separator ++ join_texts separator (y ∷ rest)

-- The loop over the ids that were asked for; there is a template for exactly the ids of the list.
unfoldable pub select_only : List String → Result Failure (List String)
select_only [] = ok []
select_only (id ∷ rest) =
    let later = select_only rest in
    if contains id scenario_ids
    then and_then later (λ ids. ok (id ∷ ids))
    else bail ("unknown scenario id '" ++ id ++ "'; valid ids: " ++ join_texts ", " scenario_ids)

unfoldable pub resolve_selected_scenarios : List String → Result Failure (List String)
unfolding select_only
resolve_selected_scenarios [] = ok scenario_ids
resolve_selected_scenarios (id ∷ rest) = select_only (id ∷ rest)

-- `str::strip_prefix`
abbrev pub strip_prefix : String → String → Option String
strip_prefix String.[] s = some s
strip_prefix (String.◌∷◌ c p) String.[] = none
strip_prefix (String.◌∷◌ c p) (String.◌∷◌ d s) =
    let rest = strip_prefix p s in if code c == code d then rest else none

abbrev pub find_prefixed : String → List String → Option String
find_prefixed prefix [] = none
find_prefixed prefix (line ∷ rest) = or_else (strip_prefix prefix line) (find_prefixed prefix rest)

abbrev pub flag : Bool → String → List String
flag true name = name ∷ []
flag false name = []

abbrev pub option : String → Option String → List String
option name none = []
option name (some value) = name ∷ value ∷ []

unfoldable pub build_summary_from_report : ScenarioReport → ℕ → MatrixScenarioSummary
build_summary_from_report report duration_ms = record {
  scenario_id = report.scenario_id;
  pass = report.pass;
  exit_code = report.exit_code;
  artifact_dir = some report.artifact_dir;
  failure_reason = report.failure_reason;
  duration_ms = duration_ms;
}

-- A report that was marked as passed is only taken from a successful run.
unfoldable pub accept : String → Output → ScenarioReport → Result Failure ScenarioReport
accept scenario_id out report =
    if not out.success && report.pass
    then bail (
        "scenario '" ++ scenario_id ++ "' exited non-zero but report marked PASS\nstdout:\n"
        ++ out.stdout ++ "\nstderr:\n" ++ out.stderr)
    else ok report

abbrev pub outermost : Failure → String
outermost [] = ""
outermost (text ∷ causes) = text

unfoldable pub summary_of : String → ℕ → Result Failure ScenarioReport → MatrixScenarioSummary
unfolding build_summary_from_report
summary_of scenario_id duration_ms (ok report) = build_summary_from_report report duration_ms
summary_of scenario_id duration_ms (err e) = record {
  scenario_id = scenario_id;
  pass = false;
  exit_code = 1;
  artifact_dir = none;
  failure_reason = some (outermost e);
  duration_ms = duration_ms;
}

module _ {W : Type 0} (host : MatrixHost W) where
  unfoldable pub parse_scenario_report_path : String → Option String
  parse_scenario_report_path output =
      elim (find_prefixed "SCENARIO_REPORT_JSON=" (host.lines output)) [
        | none ↦ none
        | some value ↦ some (host.trim value)
      ]

  -- The report of a directory, if there is one, under the name of the directory.
  unfoldable pub candidate : W → Result String String → Option (String × String)
  candidate w (err e) = none
  candidate w (ok path) =
      let report_path = host.join path "scenario-report.json" in
      if host.is_dir w path && host.exists w report_path
      then elim (host.file_name path) [ none ↦ none | some name ↦ some (name, report_path) ]
      else none

  -- The last entry after the stable sort by name.
  abbrev pub later_of :
      Option (String × String) → Option (String × String) → Option (String × String)
  later_of none b = b
  later_of (some a) none = some a
  later_of (some (name_a, a)) (some (name_b, b)) = elim (String.compare name_a name_b) [
    | Ordering.gt ↦ some (name_a, a)
    | _ ↦ some (name_b, b)
  ]

  unfoldable pub latest :
      W → Option (String × String) → List (Result String String) → Option (String × String)
  unfolding candidate
  latest w best [] = best
  latest w best (entry ∷ rest) = latest w (later_of best (candidate w entry)) rest

  unfoldable pub find_latest_scenario_report : W → String → String → Option String
  unfolding latest
  find_latest_scenario_report w artifacts_root scenario_id =
      let scenario_root = host.join artifacts_root scenario_id in
      if host.exists w scenario_root
      then elim (host.read_dir w scenario_root) [
        | none ↦ none
        | some entries ↦ elim (latest w none entries) [ none ↦ none | some found ↦ some found.1 ]
      ]
      else none

  unfoldable pub load_scenario_report : W → String → Result Failure ScenarioReport
  load_scenario_report w report_path =
      and_then
        (with_context ("unable to read scenario report " ++ report_path)
          (host.read_to_string w report_path))
        (λ payload.
          with_context ("unable to parse scenario report " ++ report_path)
            (host.parse_report payload))

  unfoldable pub binary_path : Cli → String → String
  binary_path cli scenario_id =
      host.join (host.join (host.join cli.repo_root "target") "debug") scenario_id

  abbrev pub number : String → ℕ → List String
  number name n = name ∷ host.to_string n ∷ []

  unfoldable pub scenario_args : Cli → List String
  scenario_args cli = append ("--artifacts-root" ∷ cli.artifacts_root ∷ []) (
      append (number "--send-count" cli.send_count) (
        append (number "--send-interval-ms" cli.send_interval_ms) (
          append (option "--claims-path" cli.claims_path) (
            append (number "--endpoint-claim-min-count" cli.endpoint_claim_min_count) (
              append (number "--egress-send-attempt-min-count" cli.egress_send_attempt_min_count) (
                append (number "--egress-send-ok-min-count" cli.egress_send_ok_min_count) (
                  append (number "--egress-worker-min-count" cli.egress_worker_min_count) (
                    append (flag cli.skip_build "--skip-build") (
                      append (flag cli.no_bootstrap "--no-bootstrap") (
                        append
                          (elim cli.scenario_timeout_secs [
                            | none ↦ []
                            | some secs ↦ number "--scenario-timeout-secs" secs
                          ])
                          (option "--expected-branch" cli.expected_branch)))))))))))

  -- `run_single_scenario` once the binary has run.
  unfoldable pub judge : Cli → String → W → Output → Result Failure ScenarioReport
  unfolding parse_scenario_report_path find_latest_scenario_report load_scenario_report accept
  judge cli scenario_id w out =
      elim (or_else (parse_scenario_report_path out.stdout) (
        or_else (parse_scenario_report_path out.stderr)
          (find_latest_scenario_report w cli.artifacts_root scenario_id))) [
            | none ↦ bail (
                "scenario '"
                ++ scenario_id
                ++ "' did not emit SCENARIO_REPORT_JSON and no report was found under "
                ++ host.text (shell_escape (codes cli.artifacts_root))
                ++ "\nstdout:\n"
                ++ out.stdout
                ++ "\nstderr:\n"
                ++ out.stderr)
            | some report_json_path ↦
                and_then (load_scenario_report w report_json_path) (accept scenario_id out)
          ]

  abbrev pub executed : Cli → String → Result String Output × W → Result Failure ScenarioReport × W
  executed cli scenario_id (err e, w) =
      (bail ("unable to execute scenario '" ++ scenario_id ++ "': " ++ e), w)
  executed cli scenario_id (ok out, w) = (judge cli scenario_id w out, w)

  unfoldable pub run_single_scenario : Cli → String → W → Result Failure ScenarioReport × W
  unfolding binary_path scenario_args judge
  run_single_scenario cli scenario_id w =
      if host.exists w (binary_path cli scenario_id)
      then executed cli scenario_id
          (host.output (binary_path cli scenario_id) (scenario_args cli) w)
      else (
        bail (
            "scenario binary not found: "
            ++ binary_path cli scenario_id
            ++ ". Build with `cargo build -p transport-smoke-suite --bins`"),
        w,
      )

  -- The loop over the selected scenarios.
  unfoldable pub run_selected : Cli → List String → W → List MatrixScenarioSummary × W
  unfolding run_single_scenario summary_of
  run_selected cli [] w = ([], w)
  run_selected cli (id ∷ rest) w =
      let (answer, w') = run_single_scenario cli id w in
      let (later, last) = run_selected cli rest w' in
      (summary_of id (host.elapsed_ms w w') answer ∷ later, last)

abbrev pub pass_count : List MatrixScenarioSummary → ℕ
pass_count [] = 0
pass_count (s ∷ rest) = let later = pass_count rest in if s.pass then suc later else later

unfoldable pub fail_count : List MatrixScenarioSummary → ℕ
fail_count summaries = length summaries - pass_count summaries

unfoldable pub failed_scenarios : List MatrixScenarioSummary → List FailedScenarioSummary
failed_scenarios [] = []
failed_scenarios (s ∷ rest) =
    let later = failed_scenarios rest in
    if s.pass
    then later
    else record {
      scenario_id = s.scenario_id;
      failure_reason = elim s.failure_reason [ none ↦ "unknown failure" | some reason ↦ reason ];
    }
      ∷ later

-- What `run` answers after the loop.
unfoldable pub exit_code : List MatrixScenarioSummary → ℕ
unfolding fail_count
exit_code summaries = if fail_count summaries == 0 then 0 else 1
