-- ===== src/SmokeSuite/Matrix/Exit.antt =====
-- What the exit code of a matrix means.
use up_streamer_rust.Base.{
  ℕ, ◌≤◌, String, ◌≡◌, refl, sym, ap, ◌∙◌, inl, inr, Bool, true, false, not, ◌&&◌, List, [], ◌∷◌,
  arith, if◌then◌else◌, Result, ok, err, Bool-cases, Option-cases, Result-cases, or_else,
  and_then_ok, of_ok, nat_equality, string_equality, option_equality, pair_equality,
}
use up_streamer_rust.Base.Lists.{length}
use up_streamer_rust.SmokeSuite.Host.{Failure}
use up_streamer_rust.SmokeSuite.Report.{ScenarioReport, MatrixScenarioSummary}
use up_streamer_rust.SmokeSuite.Matrix.{
  Output, MatrixHost, Cli, build_summary_from_report, parse_scenario_report_path,
  find_latest_scenario_report, load_scenario_report, binary_path, scenario_args, accept, judge,
  executed, run_single_scenario, summary_of, run_selected, pass_count, fail_count, exit_code,
}

abbrev AllPass : List MatrixScenarioSummary → Type 0
AllPass [] = Unit
AllPass (s ∷ rest) = (s.pass ≡ true) × AllPass rest

verdict :
    (b p : Bool) (r report : ScenarioReport) (e : Failure)
    → (if not b && p then err e else ok r) ≡ ok report
    → r.pass ≡ p
    → report.pass ≡ true
    → b ≡ true
verdict true p r report e h q passed = refl
verdict false true r report e h q passed = cc
verdict false false r report e h q passed =
    let same = of_ok r report h in let none_passed = sym q ∙ ap (λ x. x.pass) same ∙ passed in cc

accepted :
    (id : String) (out : Output) (r report : ScenarioReport)
    → accept id out r ≡ ok report
    → report.pass ≡ true
    → out.success ≡ true
unfolding accept
accepted id out r report h passed = verdict out.success r.pass r report _ h refl passed

module _ {W : Type 0} (host : MatrixHost W) (cli : Cli) where
  -- The binary of the scenario was there, it ran with success, and the report that it led to is a pass.
  pub record Succeeded (id : String) (w : W) : Type 0 where
    out : Output
    report : ScenarioReport
    there : host.exists w (binary_path host cli id) ≡ true
    ran : (host.output (binary_path host cli id) (scenario_args host cli) w).0 ≡ ok out
    success : out.success ≡ true
    reported : (run_single_scenario host cli id w).0 ≡ ok report
    passed : report.pass ≡ true

  -- Each of the scenarios, run after those before it.
  abbrev pub AllSucceeded : List String → W → Type 0
  AllSucceeded [] w = Unit
  AllSucceeded (id ∷ rest) w =
      Succeeded id w × AllSucceeded rest (run_single_scenario host cli id w).1

  judged :
      (id : String) (w : W) (out : Output) (report : ScenarioReport)
      → judge host cli id w out ≡ ok report
      → report.pass ≡ true
      → out.success ≡ true
  unfolding judge
  judged id w out report h p =
      elim (Option-cases (
        or_else (parse_scenario_report_path host out.stdout) (
          or_else (parse_scenario_report_path host out.stderr)
            (find_latest_scenario_report host w cli.artifacts_root id)))) [
              | inl nowhere ↦ let refused = rw (nowhere, judge) at h in cc
              | inr (path, found) ↦
                  let (r, loaded, last) =
                    and_then_ok (load_scenario_report host w path) (accept id out) report
                      (rw (found, judge) at h) in
                  accepted id out r report last p
            ]

  executed-success :
      (id : String) (x : Result String Output × W) (report : ScenarioReport)
      → (executed host cli id x).0 ≡ ok report
      → report.pass ≡ true
      → (out : Output) × (x.0 ≡ ok out) × (out.success ≡ true)
  executed-success id (err e, w) report h p = cc
  executed-success id (ok out, w) report h p = (out, refl, judged id w out report h p)

  run-Succeeded :
      (id : String) (w : W) (report : ScenarioReport)
      → (run_single_scenario host cli id w).0 ≡ ok report
      → report.pass ≡ true
      → Succeeded id w
  unfolding run_single_scenario
  run-Succeeded id w report h p = elim (Bool-cases (host.exists w (binary_path host cli id))) [
    | inr missing ↦ let refused = rw (missing, run_single_scenario) at h in cc
    | inl there ↦
        let (out, ran, success) =
          executed-success id (host.output (binary_path host cli id) (scenario_args host cli) w)
            report (rw (there, run_single_scenario) at h) p in
        record {
          out = out;
          report = report;
          there = there;
          ran = ran;
          success = success;
          reported = h;
          passed = p;
        }
  ]

  summary-Succeeded :
      (id : String) (w : W) (ms : ℕ)
      → (summary_of id ms (run_single_scenario host cli id w).0).pass ≡ true
      → Succeeded id w
  unfolding summary_of build_summary_from_report
  summary-Succeeded id w ms h = elim (Result-cases (run_single_scenario host cli id w).0) [
    | inl (report, good) ↦
        run-Succeeded id w report good (sym (ap (λ r. (summary_of id ms r).pass) good) ∙ h)
    | inr (e, bad) ↦ let no = sym (ap (λ r. (summary_of id ms r).pass) bad) ∙ h in cc
  ]

  passes-AllSucceeded :
      (ids : List String) (w : W) → AllPass (run_selected host cli ids w).0 → AllSucceeded ids w
  unfolding run_selected
  passes-AllSucceeded [] w h = tt
  passes-AllSucceeded (id ∷ rest) w h = (
    summary-Succeeded id w _ h.0,
    passes-AllSucceeded rest (run_single_scenario host cli id w).1 h.1,
  )

pass_count-le : (ss : List MatrixScenarioSummary) → pass_count ss ≤ length ss
pass_count-le [] = omega arith
pass_count-le (s ∷ rest) = ground (arith, pass_count-le rest)

none_failed : (ss : List MatrixScenarioSummary) → length ss ≤ pass_count ss → AllPass ss
none_failed [] h = tt
none_failed (s ∷ rest) h = elim (Bool-cases s.pass) [
  | inl passed ↦ (passed, none_failed rest (ground (arith, h, passed)))
  | inr failed ↦
      (ground (arith, h, failed, pass_count-le rest), none_failed rest (ground (arith, h, failed)))
]

module _ {W : Type 0} (host : MatrixHost W) (cli : Cli) where
  -- If the exit code of the summaries is zero, then the binary of every selected scenario was there, ran and ended with
  -- success, and the report that it led to is a pass.
  pub exit_code-AllSucceeded :
      (ids : List String) (w : W)
      → exit_code (run_selected host cli ids w).0 ≡ 0
      → AllSucceeded host cli ids w
  unfolding exit_code fail_count
  exit_code-AllSucceeded ids w h =
      passes-AllSucceeded host cli ids w
        (none_failed (run_selected host cli ids w).0 (ground (arith, h)))
