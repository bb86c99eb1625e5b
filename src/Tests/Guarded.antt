-- ===== src/Tests/Guarded.antt =====
-- The guardrail on one set of samples, compared with itself; the numbers are natural.
use up_streamer_rust.Base.{
  ℕ, ◌+◌, ◌-◌, String, ◌≡◌, refl, true, false, some, List, [], ◌∷◌, leb, if◌then◌else◌, Result, ok,
  err, ◌==◌, nat_equality, string_equality, option_equality, pair_equality,
}
use up_streamer_rust.Base.Map.{get, insert}
use up_streamer_rust.Guardrail.{
  Float, MetricKind, throughput, latency, alloc_proxy, required_benchmark_ids, first_segment,
  benchmark_threshold, latency_delta_pct, throughput_delta_pct, delta_pct,
}
use up_streamer_rust.Guardrail.Samples.{
  require_columns, parse_column, sample, samples, median, median_of_samples, parse_opened,
  parse_median_ns_per_iter,
}
use up_streamer_rust.Guardrail.Evaluate.{
  Entry, Files, GuardrailInput, BenchmarkResult, GuardrailReport, benchmark_dir, benchmark_id_of,
  classify_named_raw_csv_path, note, discover_entries, discover_named_raw_csvs, missing_ids,
  benchmark_result, failures_of, benchmark_results, evaluate_found, evaluate_guardrail,
}
use up_streamer_rust.Guardrail.Report.{IsReport, evaluate_guardrail-IsReport}

abbrev naturals : Float ℕ
naturals = record {
  le = leb;
  add = λ a b. a + b;
  sub = λ a b. a - b;
  mul = λ a b. a;
  div = λ a b. a;
  zero_point = 0;
  two = 2;
  hundred = 100;
  billion = 1000;
  parse = λ s. if s == "10" then ok 10 else err "not a number";
  sort = λ xs. xs;
  fixed_3 = λ n. "n";
}

abbrev entries : List String → List (Result String Entry)
entries [] = []
entries (id ∷ rest) =
    ok (record { is_file = true; file_name = "raw.csv"; path = id }) ∷ entries rest

-- A path is its own directory and the name of the comparison, and its last part is the benchmark.
abbrev flat : Files
flat = record {
  is_dir = λ p. true;
  walk = λ p. entries required_benchmark_ids;
  parent = λ p. some p;
  file_name = λ p. some "base";
  strip_prefix = λ p root. ok p;
  components = λ p. p ∷ [];
  contains_text = λ p s. false;
  from_path = λ p. ok (record {
    headers = ok ("sample_measured_value" ∷ "iteration_count" ∷ []);
    records = ok ("10" ∷ "10" ∷ []) ∷ [];
  });
  now = "now";
}

abbrev input : GuardrailInput ℕ
input = record {
  criterion_root = "criterion";
  baseline = "base";
  candidate = "base";
  throughput_threshold_pct = 5;
  latency_threshold_pct = 6;
  alloc_proxy_threshold_pct = 7;
}

abbrev result : String → MetricKind → ℕ → BenchmarkResult ℕ
result id kind threshold = record {
  benchmark_id = id;
  metric_kind = kind;
  baseline_ns_per_iter = 10;
  candidate_ns_per_iter = 10;
  delta_pct = 0;
  threshold_pct = threshold;
  pass = true;
}

abbrev report : GuardrailReport ℕ
report = record {
  timestamp_utc = "now";
  criterion_root = "criterion";
  baseline = "base";
  candidate = "base";
  thresholds = record {
    throughput_threshold_pct = 5;
    latency_threshold_pct = 6;
    alloc_proxy_threshold_pct = 7;
  };
  pass = true;
  failures = [];
  results =
      result "routing_lookup/exact_authority" latency 6
      ∷ result "routing_lookup/wildcard_authority" alloc_proxy 7
      ∷ result "publish_resolution/source_filter_derivation" alloc_proxy 7
      ∷ result "ingress_registry/register_route" throughput 5
      ∷ result "ingress_registry/unregister_route" throughput 5
      ∷ result "egress_forwarding/single_route_dispatch" throughput 5
      ∷ [];
}

reported : evaluate_guardrail naturals flat input ≡ ok report
unfolding evaluate_guardrail evaluate_found discover_named_raw_csvs discover_entries
    classify_named_raw_csv_path benchmark_dir benchmark_id_of note missing_ids benchmark_results
    benchmark_result failures_of parse_median_ns_per_iter parse_opened require_columns samples
    sample parse_column median_of_samples median benchmark_threshold first_segment delta_pct
    throughput_delta_pct latency_delta_pct get insert
reported = refl

evaluate_guardrail-IsReport_example : IsReport naturals flat input report
evaluate_guardrail-IsReport_example =
    evaluate_guardrail-IsReport naturals flat input report reported
