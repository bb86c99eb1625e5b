-- ===== src/Guardrail/Report.antt =====
-- What a report of the guardrail says.
use up_streamer_rust.Base.{
  String, ◌≡◌, refl, sym, ap, ◌∙◌, ◌↔◌, inl, inr, true, some, List, [], ◌∷◌, ok, Bool-cases,
  and_then_ok, of_ok, nat_equality, string_equality, option_equality, pair_equality,
}
use mathlib.Core.Path.{subst}
use up_streamer_rust.Base.Map.{Map, get}
use up_streamer_rust.Guardrail.{
  Float, ThresholdConfig, MetricKind, latency, required_benchmark_ids, benchmark_threshold,
}
use up_streamer_rust.Guardrail.Formulas.{
  limit, benchmark_threshold-limit, kind_or, required_kinds, kinds_of, kinds_of-required, IsChange,
  delta_pct-IsChange,
}
use up_streamer_rust.Guardrail.Choice.{AllChosen}
use up_streamer_rust.Guardrail.Walk.{Sampled, discover-AllChosen}
use up_streamer_rust.Guardrail.Middle.{ok_or_ok}
use up_streamer_rust.Guardrail.Median.{IsMedian, parse_median_ns_per_iter-IsMedian}
use up_streamer_rust.Guardrail.Evaluate.{
  Files, GuardrailInput, BenchmarkResult, GuardrailReport, discover_named_raw_csvs, missing_ids,
  benchmark_result, failures_of, benchmark_results, no_failures, evaluate_found, evaluate_guardrail,
}

module _ {F : Type 0} where
  abbrev pub ids : List (BenchmarkResult F) → List String
  ids [] = []
  ids (r ∷ rest) = r.benchmark_id ∷ ids rest

  abbrev pub kinds : List (BenchmarkResult F) → List MetricKind
  kinds [] = []
  kinds (r ∷ rest) = r.metric_kind ∷ kinds rest

  abbrev pub AllPass : List (BenchmarkResult F) → Type 0
  AllPass [] = Unit
  AllPass (r ∷ rest) = (r.pass ≡ true) × AllPass rest

module _ {F : Type 0} (f : Float F) (files : Files) where
  -- A result compares the medians of the samples that were found, by the formula and the threshold of its
  -- kind.
  pub record IsCompared (thresholds : ThresholdConfig F)
      (baseline_map candidate_map : Map String String) (r : BenchmarkResult F) : Type 0 where
    baseline_path : String
    candidate_path : String
    baseline_found : get r.benchmark_id baseline_map ≡ some baseline_path
    candidate_found : get r.benchmark_id candidate_map ≡ some candidate_path
    baseline : IsMedian f files.from_path baseline_path r.baseline_ns_per_iter
    candidate : IsMedian f files.from_path candidate_path r.candidate_ns_per_iter
    threshold : r.threshold_pct ≡ limit thresholds r.metric_kind
    delta : IsChange f r.metric_kind r.baseline_ns_per_iter r.candidate_ns_per_iter r.delta_pct
    verdict : r.pass ≡ f.le r.delta_pct r.threshold_pct

  abbrev pub AllCompared :
      ThresholdConfig F → Map String String → Map String String → List (BenchmarkResult F) → Type 0
  AllCompared thresholds baseline_map candidate_map [] = Unit
  AllCompared thresholds baseline_map candidate_map (r ∷ rest) =
      IsCompared thresholds baseline_map candidate_map r
      × AllCompared thresholds baseline_map candidate_map rest

  result-IsCompared :
      (thresholds : ThresholdConfig F) (baseline_map candidate_map : Map String String)
      (id : String) (r : BenchmarkResult F)
      → benchmark_result f files thresholds baseline_map candidate_map id ≡ ok r
      → (r.benchmark_id ≡ id)
        × (r.metric_kind ≡ kind_or latency (benchmark_threshold id thresholds))
        × IsCompared thresholds baseline_map candidate_map r
  unfolding benchmark_result
  result-IsCompared thresholds baseline_map candidate_map id r h =
      let (baseline_path, found_b, h1) = and_then_ok _ _ r h in
      let (candidate_path, found_c, h2) = and_then_ok _ _ r h1 in
      let (baseline, median_b, h3) = and_then_ok _ _ r h2 in
      let (candidate, median_c, h4) = and_then_ok _ _ r h3 in
      let (metric, threshold, h5) = and_then_ok _ _ r h4 in
      let (delta, compared, last) = and_then_ok _ _ r h5 in
      subst
        (λ x.
          (x.benchmark_id ≡ id)
          × (x.metric_kind ≡ kind_or latency (benchmark_threshold id thresholds))
          × IsCompared thresholds baseline_map candidate_map x)
        (of_ok _ r last)
        (
          refl,
          sym (ap (kind_or latency) threshold),
          record {
            baseline_path = baseline_path;
            candidate_path = candidate_path;
            baseline_found = ok_or_ok _ _ baseline_path found_b;
            candidate_found = ok_or_ok _ _ candidate_path found_c;
            baseline =
                parse_median_ns_per_iter-IsMedian f files.from_path baseline_path baseline median_b;
            candidate =
                parse_median_ns_per_iter-IsMedian f files.from_path candidate_path candidate
                  median_c;
            threshold = benchmark_threshold-limit id thresholds metric threshold;
            delta = delta_pct-IsChange f metric.0 baseline candidate delta compared;
            verdict = refl;
          },
        )

  results-AllCompared :
      (thresholds : ThresholdConfig F) (baseline_map candidate_map : Map String String)
      (required : List String) (rs : List (BenchmarkResult F))
      → benchmark_results f files thresholds baseline_map candidate_map required ≡ ok rs
      → (ids rs ≡ required)
        × (kinds rs ≡ kinds_of thresholds required)
        × AllCompared thresholds baseline_map candidate_map rs
  unfolding benchmark_results
  results-AllCompared thresholds baseline_map candidate_map [] [] h = (refl, refl, tt)
  results-AllCompared thresholds baseline_map candidate_map [] (r ∷ rs) h = cc
  results-AllCompared thresholds baseline_map candidate_map (id ∷ rest) rs h =
      let (r, made, h1) = and_then_ok _ _ rs h in
      let (others, later, last) = and_then_ok _ _ rs h1 in
      let (same, kind, compared) =
        result-IsCompared thresholds baseline_map candidate_map id r made in
      let (same_rest, kind_rest, all) =
        results-AllCompared thresholds baseline_map candidate_map rest others later in
      subst
        (λ xs.
          (ids xs ≡ (id ∷ rest))
          × (kinds xs ≡ kinds_of thresholds (id ∷ rest))
          × AllCompared thresholds baseline_map candidate_map xs)
        (of_ok (r ∷ others) rs last)
        (
          ap (λ x. x ∷ ids others) same ∙ ap (λ xs. id ∷ xs) same_rest,
          ap (λ k. k ∷ kinds others) kind
              ∙ ap (λ ks. kind_or latency (benchmark_threshold id thresholds) ∷ ks) kind_rest,
          (compared, all),
        )

  no_failures-AllPass :
      (rs : List (BenchmarkResult F)) → (no_failures (failures_of f files rs) ≡ true) ↔ AllPass rs
  unfolding failures_of
  no_failures-AllPass [] = ((λ h. tt), λ h. refl)
  no_failures-AllPass (r ∷ rest) =
      let (to, from) = no_failures-AllPass rest in
      (
        λ h. elim (Bool-cases r.pass) [
          | inl passed ↦ (passed, to (rw passed at h))
          | inr failed ↦ let refused = rw failed at h in cc
        ],
        λ all. rw all.0 (from all.1),
      )

  -- What a report says of an input.
  pub record IsReport (input : GuardrailInput F) (report : GuardrailReport F) : Type 0 where
    baseline_map : Map String String
    candidate_map : Map String String
    baselines :
        AllChosen files
          (Sampled files input.criterion_root input.baseline (files.walk input.criterion_root))
          baseline_map
    candidates :
        AllChosen files
          (Sampled files input.criterion_root input.candidate (files.walk input.criterion_root))
          candidate_map
    complete : ids report.results ≡ required_benchmark_ids
    metrics : kinds report.results ≡ required_kinds
    compared : AllCompared report.thresholds baseline_map candidate_map report.results
    latency : report.thresholds.latency_threshold_pct ≡ input.latency_threshold_pct
    throughput : report.thresholds.throughput_threshold_pct ≡ input.throughput_threshold_pct
    alloc_proxy : report.thresholds.alloc_proxy_threshold_pct ≡ input.alloc_proxy_threshold_pct
    verdict : (report.pass ≡ true) ↔ AllPass report.results

  found-IsReport :
      (input : GuardrailInput F) (baseline_map candidate_map : Map String String)
      (report : GuardrailReport F)
      → discover_named_raw_csvs files input.criterion_root input.baseline ≡ ok baseline_map
      → discover_named_raw_csvs files input.criterion_root input.candidate ≡ ok candidate_map
      → evaluate_found f files input baseline_map candidate_map ≡ ok report
      → IsReport input report
  unfolding evaluate_found
  found-IsReport input baseline_map candidate_map report found_b found_c h =
      elim (Bool-cases
        (no_failures (missing_ids baseline_map candidate_map required_benchmark_ids))) [
          | inr absent ↦ let refused = rw (absent, evaluate_found) at h in cc
          | inl present ↦
              let (results, made, last) =
                and_then_ok _ _ report (rw (present, evaluate_found) at h) in
              let (complete, metrics, compared) =
                results-AllCompared _ baseline_map candidate_map required_benchmark_ids results
                  made in
              subst (IsReport input) (of_ok _ report last) (record {
                baseline_map = baseline_map;
                candidate_map = candidate_map;
                baselines =
                    discover-AllChosen files input.criterion_root input.baseline baseline_map
                      found_b;
                candidates =
                    discover-AllChosen files input.criterion_root input.candidate candidate_map
                      found_c;
                metrics = metrics ∙ kinds_of-required _;
                complete = complete;
                compared = compared;
                latency = refl;
                throughput = refl;
                alloc_proxy = refl;
                verdict = no_failures-AllPass results;
              })
        ]

  -- A report of the guardrail has one result for each required benchmark, in their order, with the kind of
  -- metric of each written out. Each result compares the median of a file of the baseline with that of a file
  -- of the candidate, where a median is the middle of the sorted quotients of the measured values and the
  -- iterations of all rows. The file is a raw.csv of the walk that lies in a directory with the name of the
  -- comparison or in `new` below one, with the benchmark as the path to that directory; one whose path has
  -- "/new/raw.csv" in it is only taken if it lies directly in such a directory or no other does. The change
  -- is the fall of the throughput or the rise of the latency in percent of the baseline, the threshold is
  -- that of its kind, and the result passes exactly when the change is at most the threshold. The report
  -- passes exactly when all results do.
  pub evaluate_guardrail-IsReport :
      (input : GuardrailInput F) (report : GuardrailReport F)
      → evaluate_guardrail f files input ≡ ok report
      → IsReport input report
  unfolding evaluate_guardrail
  evaluate_guardrail-IsReport input report h =
      let (baseline_map, found_b, h1) = and_then_ok _ _ report h in
      let (candidate_map, found_c, h2) = and_then_ok _ _ report h1 in
      found-IsReport input baseline_map candidate_map report found_b found_c h2
