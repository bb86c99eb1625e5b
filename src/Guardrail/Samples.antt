-- ===== src/Guardrail/Samples.antt =====
-- utils/criterion-guardrail/src/lib.rs: the samples of a benchmark. The CSV reader is a parameter.
use up_streamer_rust.Base.{
  ℕ, zero, suc, ◌-◌, ◌%◌, String, Option, none, some, List, [], ◌∷◌, if◌then◌else◌, Result, ok, err,
  and_then, ◌==◌, nat_equality, string_equality, option_equality, pair_equality,
}
use Prim.Native.String.{◌++◌}
use Prim.Native.Nat.{◌/◌}
use up_streamer_rust.Base.Lists.{contains, length}
use up_streamer_rust.Guardrail.{Float}

-- An opened file: its headers, and its rows.
pub record Csv : Type 0 where
  pub headers : Result String (List String)
  pub records : List (Result String (List String))

abbrev pub measured_column : String
measured_column = "sample_measured_value"

abbrev pub iteration_column : String
iteration_column = "iteration_count"

abbrev pub required_header_columns : List String
required_header_columns = measured_column ∷ iteration_column ∷ []

-- `map_err` with a text in front, and `?`.
abbrev pub or_text : {A : Type 0} → String → Result String A → Result String A
or_text what (ok a) = ok a
or_text what (err e) = err (what ++ e)

abbrev pub ok_or : {A : Type 0} → String → Option A → Result String A
ok_or text none = err text
ok_or text (some a) = ok a

-- `iter().position`
abbrev pub position : String → List String → Option ℕ
position name [] = none
position name (x ∷ rest) =
    let later = position name rest in
    if x == name then some 0 else elim later [ none ↦ none | some i ↦ some (suc i) ]

abbrev pub nth : {A : Type 0} → ℕ → List A → Option A
nth i [] = none
nth zero (x ∷ rest) = some x
nth (suc i) (x ∷ rest) = nth i rest

unfoldable pub require_columns : String → List String → List String → Result String (Unit {0})
require_columns csv_path [] headers = ok tt
require_columns csv_path (required_column ∷ rest) headers =
    let others = require_columns csv_path rest headers in
    if contains required_column headers
    then others
    else err (
        "unsupported Criterion raw.csv header layout in `" ++ csv_path
        ++ "`; missing required column `" ++ required_column
        ++ "`. Expected headers to include `sample_measured_value` and `iteration_count` for the pinned Criterion output.")

module _ {F : Type 0} (f : Float F) where
  unfoldable pub parse_column : String → String → ℕ → List String → Result String F
  parse_column csv_path name index row =
      and_then
        (ok_or ("CSV row in `" ++ csv_path ++ "` is missing `" ++ name ++ "` at expected index")
          (nth index row))
        (λ text.
          or_text ("failed to parse `" ++ name ++ "` in `" ++ csv_path ++ "`: ") (f.parse text))

  -- The sample of one row.
  unfoldable pub sample : String → ℕ → ℕ → Result String (List String) → Result String F
  unfolding parse_column
  sample csv_path measured_index iteration_index row =
      and_then (or_text ("failed to parse CSV row from `" ++ csv_path ++ "`: ") row) (λ columns.
        and_then (parse_column csv_path measured_column measured_index columns) (λ measured_value.
          and_then (parse_column csv_path iteration_column iteration_index columns)
            (λ iteration_count.
              if f.le iteration_count f.zero_point
              then err ("invalid `iteration_count` <= 0 in `" ++ csv_path ++ "`")
              else ok (f.div measured_value iteration_count))))

  unfoldable pub samples :
      String → ℕ → ℕ → List (Result String (List String)) → Result String (List F)
  unfolding sample
  samples csv_path measured_index iteration_index [] = ok []
  samples csv_path measured_index iteration_index (row ∷ rest) =
      and_then (sample csv_path measured_index iteration_index row)
        (λ x. and_then (samples csv_path measured_index iteration_index rest) (λ xs. ok (x ∷ xs)))

  -- `median` on a list that is not empty: out of range, the source would panic.
  unfoldable pub median : List F → Option F
  median sorted_values =
      let len = length sorted_values in
      let half = len / 2 in
      if len % 2 == 1 then nth half sorted_values else elim (nth (half - 1) sorted_values) [
        | none ↦ none
        | some a ↦ elim (nth half sorted_values) [
          | none ↦ none
          | some b ↦ some (f.div (f.add a b) f.two)
        ]
      ]

  -- The end of `parse_median_ns_per_iter`. A panic of `median` would be the last error.
  unfoldable pub median_of_samples : String → List F → Result String F
  unfolding median
  median_of_samples csv_path [] = err ("no benchmark samples found in `" ++ csv_path ++ "`")
  median_of_samples csv_path (x ∷ xs) = ok_or "index out of bounds" (median (f.sort (x ∷ xs)))

  unfoldable pub parse_opened : String → Csv → Result String F
  unfolding require_columns samples median_of_samples
  parse_opened csv_path csv =
      and_then (or_text ("failed to read CSV headers from `" ++ csv_path ++ "`: ") csv.headers)
        (λ headers. and_then (require_columns csv_path required_header_columns headers) (λ present.
          and_then
            (ok_or
              ("internal header index error for `sample_measured_value` in `" ++ csv_path ++ "`")
              (position measured_column headers))
            (λ measured_index.
              and_then
                (ok_or ("internal header index error for `iteration_count` in `" ++ csv_path ++ "`")
                  (position iteration_column headers))
                (λ iteration_index.
                  and_then (samples csv_path measured_index iteration_index csv.records)
                    (median_of_samples csv_path)))))

  -- `from_path` opens the file at a path.
  unfoldable pub parse_median_ns_per_iter : (String → Result String Csv) → String → Result String F
  unfolding parse_opened
  parse_median_ns_per_iter from_path csv_path =
      and_then (or_text ("failed to open `" ++ csv_path ++ "`: ") (from_path csv_path))
        (parse_opened csv_path)
