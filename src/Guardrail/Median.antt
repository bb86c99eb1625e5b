-- ===== src/Guardrail/Median.antt =====
-- The median that is read in a file of raw samples.
use up_streamer_rust.Base.{
  ℕ, String, ◌≡◌, some, List, [], ◌∷◌, Result, ok, and_then, and_then_ok, nat_equality,
  string_equality, option_equality, pair_equality,
}
use Prim.Native.String.{◌++◌}
use up_streamer_rust.Guardrail.{Float}
use up_streamer_rust.Guardrail.Samples.{
  Csv, or_text, ok_or, position, nth, measured_column, iteration_column, required_header_columns,
  require_columns, samples, median, median_of_samples, parse_opened, parse_median_ns_per_iter,
}
use up_streamer_rust.Guardrail.Middle.{
  or_text_ok, ok_or_ok, nth-position, AreRows, samples-AreRows, IsMiddle, median-IsMiddle,
}

module _ {F : Type 0} (f : Float F) (from_path : String → Result String Csv) where
  -- A file of raw samples: it has a column of measured values and one of iterations, every row is a sample,
  -- and the value is in the middle of the samples, once they are sorted.
  pub record IsMedian (path : String) (d : F) : Type 0 where
    csv : Csv
    headers : List String
    measured_index : ℕ
    iteration_index : ℕ
    values : List F
    opened : from_path path ≡ ok csv
    has_headers : csv.headers ≡ ok headers
    measured_header : nth measured_index headers ≡ some "sample_measured_value"
    iteration_header : nth iteration_index headers ≡ some "iteration_count"
    rows : AreRows f measured_index iteration_index csv.records values
    middle : IsMiddle f (f.sort values) d

  median_of_samples-IsMiddle :
      (path : String) (xs : List F) (d : F)
      → median_of_samples f path xs ≡ ok d
      → IsMiddle f (f.sort xs) d
  unfolding median_of_samples
  median_of_samples-IsMiddle path [] d h = cc
  median_of_samples-IsMiddle path (x ∷ xs) d h =
      median-IsMiddle f (f.sort (x ∷ xs)) d
        (ok_or_ok "index out of bounds" (median f (f.sort (x ∷ xs))) d h)

  abbrev read_column_at : String → Csv → List String → ℕ → Result String F
  read_column_at path csv headers measured_index =
      and_then
        (ok_or ("internal header index error for `iteration_count` in `" ++ path ++ "`")
          (position iteration_column headers))
        (λ iteration_index.
          and_then (samples f path measured_index iteration_index csv.records)
            (median_of_samples f path))

  abbrev read_columns : String → Csv → List String → Result String F
  read_columns path csv headers =
      and_then
        (ok_or ("internal header index error for `sample_measured_value` in `" ++ path ++ "`")
          (position measured_column headers))
        (read_column_at path csv headers)

  read_columns-IsMedian :
      (path : String) (csv : Csv) (headers : List String) (d : F)
      → from_path path ≡ ok csv
      → csv.headers ≡ ok headers
      → read_columns path csv headers ≡ ok d
      → IsMedian path d
  read_columns-IsMedian path csv headers d opened has_headers h =
      let (i, at_i, h1) =
        and_then_ok
          (ok_or ("internal header index error for `sample_measured_value` in `" ++ path ++ "`")
            (position measured_column headers))
          (read_column_at path csv headers) d h in
      let (j, at_j, h2) =
        and_then_ok
          (ok_or ("internal header index error for `iteration_count` in `" ++ path ++ "`")
            (position iteration_column headers))
          (λ j. and_then (samples f path i j csv.records) (median_of_samples f path)) d h1 in
      let (values, sampled, last) =
        and_then_ok (samples f path i j csv.records) (median_of_samples f path) d h2 in
      record {
        csv = csv;
        headers = headers;
        measured_index = i;
        iteration_index = j;
        values = values;
        opened = opened;
        has_headers = has_headers;
        measured_header = nth-position measured_column headers i (ok_or_ok _ _ i at_i);
        iteration_header = nth-position iteration_column headers j (ok_or_ok _ _ j at_j);
        rows = samples-AreRows f path i j csv.records values sampled;
        middle = median_of_samples-IsMiddle path values d last;
      }

  pub parse_median_ns_per_iter-IsMedian :
      (path : String) (d : F) → parse_median_ns_per_iter f from_path path ≡ ok d → IsMedian path d
  unfolding parse_median_ns_per_iter parse_opened
  parse_median_ns_per_iter-IsMedian path d h =
      let (csv, opened, h1) = and_then_ok _ (parse_opened f path) d h in
      let (headers, has_headers, h2) =
        and_then_ok (or_text ("failed to read CSV headers from `" ++ path ++ "`: ") csv.headers)
          (λ headers.
            and_then (require_columns path required_header_columns headers)
              (λ present. read_columns path csv headers))
          d h1 in
      let (present, required, last) =
        and_then_ok (require_columns path required_header_columns headers)
          (λ present. read_columns path csv headers) d h2 in
      read_columns-IsMedian path csv headers d (or_text_ok _ (from_path path) csv opened)
        (or_text_ok _ csv.headers headers has_headers) last
