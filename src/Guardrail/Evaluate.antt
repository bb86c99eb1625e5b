-- ===== src/Guardrail/Evaluate.antt =====
-- utils/criterion-guardrail/src/lib.rs: the raw samples below a directory, and the verdict. The directory
-- walk and the paths are parameters.
use up_streamer_rust.Base.{
  String, Bool, true, false, not, ◌&&◌, ◌||◌, Option, none, some, List, [], ◌∷◌, if◌then◌else◌,
  Result, ok, err, and_then, ◌==◌, nat_equality, string_equality, option_equality, pair_equality,
}
use Prim.Native.String.{◌++◌}
use up_streamer_rust.Base.Map.{Map, get, insert}
use up_streamer_rust.Guardrail.{
  Float, ThresholdConfig, MetricKind, required_benchmark_ids, benchmark_threshold, delta_pct,
}
use up_streamer_rust.Guardrail.Samples.{Csv, ok_or, or_text, parse_median_ns_per_iter}

pub record Entry : Type 0 where
  pub is_file : Bool
  pub file_name : String
  pub path : String

-- A path is its text; `components` are those of `Path::iter`.
pub record Files : Type 0 where
  pub is_dir : String → Bool
  pub walk : String → List (Result String Entry)
  pub parent : String → Option String
  pub file_name : String → Option String
  pub strip_prefix : String → String → Result String String
  pub components : String → List String
  pub contains_text : String → String → Bool
  pub from_path : String → Result String Csv
  pub now : String

abbrev pub join : String → List String → String
join separator [] = ""
join separator (x ∷ []) = x
join separator (x ∷ (y ∷ rest)) = x ++ separator ++ join separator (y ∷ rest)

pub record GuardrailInput (F : Type 0) : Type 0 where
  pub criterion_root : String
  pub baseline : String
  pub candidate : String
  pub throughput_threshold_pct : F
  pub latency_threshold_pct : F
  pub alloc_proxy_threshold_pct : F

pub record BenchmarkResult (F : Type 0) : Type 0 where
  pub benchmark_id : String
  pub metric_kind : MetricKind
  pub baseline_ns_per_iter : F
  pub candidate_ns_per_iter : F
  pub delta_pct : F
  pub threshold_pct : F
  pub pass : Bool

pub record GuardrailReport (F : Type 0) : Type 0 where
  pub timestamp_utc : String
  pub criterion_root : String
  pub baseline : String
  pub candidate : String
  pub thresholds : ThresholdConfig F
  pub pass : Bool
  pub failures : List String
  pub results : List (BenchmarkResult F)

module _ (files : Files) where
  abbrev pub is_named : Option String → String → Bool
  is_named path name = elim path [
    | none ↦ false
    | some p ↦ elim (files.file_name p) [ none ↦ false | some component ↦ component == name ]
  ]

  abbrev pub parent_of : Option String → Option String
  parent_of none = none
  parent_of (some p) = files.parent p

  -- The directory of the benchmark, and whether the layout is the direct one.
  unfoldable pub benchmark_dir : String → String → Option String × Bool
  benchmark_dir parent comparison_name =
      if is_named (some parent) comparison_name
      then (files.parent parent, true)
      else if is_named (some parent) "new" && is_named (files.parent parent) comparison_name
      then (parent_of (files.parent parent), false)
      else (none, false)

  unfoldable pub benchmark_id_of :
      String → String → Option String × Bool → Result String (Option (String × (String × Bool)))
  benchmark_id_of criterion_root csv_path (none, direct) = ok none
  benchmark_id_of criterion_root csv_path (some dir, direct) =
      and_then
        (or_text
          ("failed to derive benchmark id from `" ++ dir ++ "` under criterion root `"
            ++ criterion_root ++ "`: ")
          (files.strip_prefix dir criterion_root))
        (λ relative.
          let benchmark_id = join "/" (files.components relative) in
          if benchmark_id == "" then ok none else ok (some (benchmark_id, (csv_path, direct))))

  unfoldable pub classify_named_raw_csv_path :
      String → String → String → Result String (Option (String × (String × Bool)))
  unfolding benchmark_dir benchmark_id_of
  classify_named_raw_csv_path criterion_root csv_path comparison_name =
      elim (files.parent csv_path) [
        | none ↦ ok none
        | some parent ↦
            benchmark_id_of criterion_root csv_path (benchmark_dir parent comparison_name)
      ]

  -- What is found is noted: a direct layout takes the place of one below `new`.
  unfoldable pub note : Option (String × (String × Bool)) → Map String String → Map String String
  note none discovered = discovered
  note (some (benchmark_id, (csv_path, direct))) discovered =
      let noted = insert benchmark_id csv_path discovered in
      elim (get benchmark_id discovered) [
        | none ↦ noted
        | some existing_path ↦
            if direct && files.contains_text existing_path "/new/raw.csv" then noted else discovered
      ]

  unfoldable pub discover_entries :
      String
      → String
      → List (Result String Entry)
      → Map String String
      → Result String (Map String String)
  unfolding classify_named_raw_csv_path note
  discover_entries criterion_root comparison_name [] discovered = ok discovered
  discover_entries criterion_root comparison_name (entry ∷ rest) discovered =
      and_then (or_text ("failed to walk criterion directory `" ++ criterion_root ++ "`: ") entry)
        (λ (e : Entry).
          let skipped = discover_entries criterion_root comparison_name rest discovered in
          if not e.is_file || not (e.file_name == "raw.csv")
          then skipped
          else and_then (classify_named_raw_csv_path criterion_root e.path comparison_name)
              (λ found.
                discover_entries criterion_root comparison_name rest (note found discovered)))

  unfoldable pub discover_named_raw_csvs : String → String → Result String (Map String String)
  unfolding discover_entries
  discover_named_raw_csvs criterion_root comparison_name =
      if files.is_dir criterion_root
      then discover_entries criterion_root comparison_name (files.walk criterion_root) []
      else err ("criterion root `" ++ criterion_root ++ "` does not exist or is not a directory")

abbrev pub missing : String → Option String → List String → List String
missing text none rest = text ∷ rest
missing text (some path) rest = rest

unfoldable pub missing_ids : Map String String → Map String String → List String → List String
missing_ids baseline_map candidate_map [] = []
missing_ids baseline_map candidate_map (id ∷ rest) =
    missing (id ++ " (missing baseline CSV)") (get id baseline_map) (
      missing (id ++ " (missing candidate CSV)") (get id candidate_map)
        (missing_ids baseline_map candidate_map rest))

abbrev pub no_failures : List String → Bool
no_failures [] = true
no_failures (x ∷ rest) = false

module _ {F : Type 0} (f : Float F) (files : Files) where
  unfoldable pub benchmark_result :
      ThresholdConfig F
      → Map String String
      → Map String String
      → String
      → Result String (BenchmarkResult F)
  benchmark_result thresholds baseline_map candidate_map id =
      and_then (ok_or ("internal error: baseline missing for `" ++ id ++ "`") (get id baseline_map))
        (λ baseline_path.
          and_then
            (ok_or ("internal error: candidate missing for `" ++ id ++ "`") (get id candidate_map))
            (λ candidate_path.
              and_then (parse_median_ns_per_iter f files.from_path baseline_path) (λ baseline.
                and_then (parse_median_ns_per_iter f files.from_path candidate_path) (λ candidate.
                  and_then (benchmark_threshold id thresholds) (λ (metric : MetricKind × F).
                    and_then (delta_pct f metric.0 baseline candidate) (λ delta. ok (record {
                      benchmark_id = id;
                      metric_kind = metric.0;
                      baseline_ns_per_iter = baseline;
                      candidate_ns_per_iter = candidate;
                      delta_pct = delta;
                      threshold_pct = metric.1;
                      pass = f.le delta metric.1;
                    })))))))

  unfoldable pub failure : BenchmarkResult F → String
  failure r =
      r.benchmark_id
      ++ ": regression "
      ++ f.fixed_3 r.delta_pct
      ++ "% exceeds threshold "
      ++ f.fixed_3 r.threshold_pct
      ++ "%"

  -- The failures of the results, in their order.
  unfoldable pub failures_of : List (BenchmarkResult F) → List String
  unfolding failure
  failures_of [] = []
  failures_of (r ∷ rest) =
      let later = failures_of rest in if r.pass then later else failure r ∷ later

  unfoldable pub benchmark_results :
      ThresholdConfig F
      → Map String String
      → Map String String
      → List String
      → Result String (List (BenchmarkResult F))
  unfolding benchmark_result
  benchmark_results thresholds baseline_map candidate_map [] = ok []
  benchmark_results thresholds baseline_map candidate_map (id ∷ rest) =
      and_then (benchmark_result thresholds baseline_map candidate_map id) (λ r.
        and_then (benchmark_results thresholds baseline_map candidate_map rest) (λ rs. ok (r ∷ rs)))

  unfoldable pub evaluate_found :
      GuardrailInput F → Map String String → Map String String → Result String (GuardrailReport F)
  unfolding missing_ids benchmark_results failures_of
  evaluate_found input baseline_map candidate_map =
      let missing = missing_ids baseline_map candidate_map required_benchmark_ids in
      let thresholds : ThresholdConfig F = record {
        throughput_threshold_pct = input.throughput_threshold_pct;
        latency_threshold_pct = input.latency_threshold_pct;
        alloc_proxy_threshold_pct = input.alloc_proxy_threshold_pct;
      } in
      if no_failures missing
      then and_then (benchmark_results thresholds baseline_map candidate_map required_benchmark_ids)
          (λ results. ok (record {
            timestamp_utc = files.now;
            criterion_root = input.criterion_root;
            baseline = input.baseline;
            candidate = input.candidate;
            thresholds = thresholds;
            pass = no_failures (failures_of results);
            failures = failures_of results;
            results = results;
          }))
      else err (
          "missing required benchmark IDs in criterion data: "
          ++ join ", " missing
          ++ ". Ensure `"
          ++ input.baseline
          ++ "` and `"
          ++ input.candidate
          ++ "` exist under `"
          ++ input.criterion_root
          ++ "` using Criterion baseline naming and the required benchmark IDs.")

  unfoldable pub evaluate_guardrail : GuardrailInput F → Result String (GuardrailReport F)
  unfolding evaluate_found
  evaluate_guardrail input =
      and_then (discover_named_raw_csvs files input.criterion_root input.baseline) (λ baseline_map.
        and_then (discover_named_raw_csvs files input.criterion_root input.candidate)
          (evaluate_found input baseline_map))
