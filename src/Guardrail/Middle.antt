-- ===== src/Guardrail/Middle.antt =====
-- What is read in a file of raw samples, against its rows.
use up_streamer_rust.Base.{
  ℕ, suc, ◌-◌, ◌%◌, String, ◌≡◌, sym, ap, ◌⊎◌, inl, inr, false, Option, none, some, List, [], ◌∷◌,
  if◌then◌else◌, Result, ok, err, Bool-cases, Option-cases, and_then, and_then_ok, of_ok, ◌==◌,
  nat_equality, string_equality, option_equality, pair_equality, eq_of_beq,
}
use mathlib.Core.Path.{subst}
use Prim.Native.String.{◌++◌}
use Prim.Native.Nat.{◌/◌}
use up_streamer_rust.Base.Lists.{length}
use up_streamer_rust.Guardrail.{Float}
use up_streamer_rust.Guardrail.Samples.{
  or_text, ok_or, position, nth, measured_column, iteration_column, parse_column, sample, samples,
  median,
}

pub or_text_ok :
    {A : Type 0} (what : String) (x : Result String A) (a : A) → or_text what x ≡ ok a → x ≡ ok a
or_text_ok what (ok b) a h = h
or_text_ok what (err e) a h = cc

pub ok_or_ok :
    {A : Type 0} (text : String) (x : Option A) (a : A) → ok_or text x ≡ ok a → x ≡ some a
ok_or_ok text none a h = cc
ok_or_ok text (some b) a h = ap some (of_ok b a h)

same_index : (i j : ℕ) → some i ≡ some j → i ≡ j
same_index i j h = cc h

pub nth-position :
    (name : String) (xs : List String) (i : ℕ) → position name xs ≡ some i → nth i xs ≡ some name
nth-position name [] i h = cc
nth-position name (x ∷ rest) i h = elim (Bool-cases (x == name)) [
  | inl same ↦
      let first : some 0 ≡ some i = rw same at h in
      subst (λ j. nth j (x ∷ rest) ≡ some name) (same_index 0 i first)
        (ap some (eq_of_beq x name same))
  | inr other ↦ elim (Option-cases (position name rest)) [
    | inl missing ↦ let clash = rw (other, missing) at h in cc
    | inr (j, there) ↦
        let later : some (suc j) ≡ some i = rw (other, there) at h in
        subst (λ k. nth k (x ∷ rest) ≡ some name) (same_index (suc j) i later)
          (nth-position name rest j there)
  ]
]

module _ {F : Type 0} (f : Float F) where
  -- A row has a number in each of the two columns, the second one above zero; the sample is the quotient.
  pub record IsRow (i j : ℕ) (row : Result String (List String)) (x : F) : Type 0 where
    columns : List String
    measured : String
    iterations : String
    measured_value : F
    iteration_count : F
    readable : row ≡ ok columns
    measured_there : nth i columns ≡ some measured
    iterations_there : nth j columns ≡ some iterations
    measured_parsed : f.parse measured ≡ ok measured_value
    iterations_parsed : f.parse iterations ≡ ok iteration_count
    positive : f.le iteration_count f.zero_point ≡ false
    quotient : x ≡ f.div measured_value iteration_count

  abbrev pub AreRows : ℕ → ℕ → List (Result String (List String)) → List F → Type 0
  AreRows i j [] [] = Unit
  AreRows i j [] (x ∷ xs) = ⊥
  AreRows i j (row ∷ rows) [] = ⊥
  AreRows i j (row ∷ rows) (x ∷ xs) = IsRow i j row x × AreRows i j rows xs

  -- The middle one of a list of odd length, and the mean of the two in the middle of one of even length.
  abbrev pub IsMiddle : List F → F → Type 0
  IsMiddle xs d =
      ((length xs % 2 ≡ 1) × (nth (length xs / 2) xs ≡ some d))
      ⊎ ((a : F) × (b : F) × (nth (length xs / 2 - 1) xs ≡ some a)
          × (nth (length xs / 2) xs ≡ some b)
          × ((length xs % 2 == 1) ≡ false)
          × (d ≡ f.div (f.add a b) f.two))

  parse_column_ok :
      (path name : String) (i : ℕ) (row : List String) (x : F)
      → parse_column f path name i row ≡ ok x
      → (text : String) × (nth i row ≡ some text) × (f.parse text ≡ ok x)
  unfolding parse_column
  parse_column_ok path name i row x h =
      let (text, there, parsed) =
        and_then_ok
          (ok_or ("CSV row in `" ++ path ++ "` is missing `" ++ name ++ "` at expected index")
            (nth i row))
          (λ text.
            or_text ("failed to parse `" ++ name ++ "` in `" ++ path ++ "`: ") (f.parse text))
          x h in
      (text, ok_or_ok _ (nth i row) text there, or_text_ok _ (f.parse text) x parsed)

  abbrev quotient_of : String → F → F → Result String F
  quotient_of path measured_value iteration_count =
      if f.le iteration_count f.zero_point
      then err ("invalid `iteration_count` <= 0 in `" ++ path ++ "`")
      else ok (f.div measured_value iteration_count)

  quotient_of_ok :
      (path : String) (m n x : F)
      → quotient_of path m n ≡ ok x
      → (f.le n f.zero_point ≡ false) × (x ≡ f.div m n)
  quotient_of_ok path m n x h = elim (Bool-cases (f.le n f.zero_point)) [
    | inl bad ↦ let refused = rw (bad, quotient_of) at h in cc
    | inr positive ↦ (positive, sym (of_ok (f.div m n) x (rw (positive, quotient_of) at h)))
  ]

  abbrev row_sample : String → ℕ → ℕ → List String → Result String F
  row_sample path i j columns =
      and_then (parse_column f path measured_column i columns) (λ measured_value.
        and_then (parse_column f path iteration_column j columns) (quotient_of path measured_value))

  sample-IsRow :
      (path : String) (i j : ℕ) (row : Result String (List String)) (x : F)
      → sample f path i j row ≡ ok x
      → IsRow i j row x
  unfolding sample
  sample-IsRow path i j row x h =
      let (columns, readable, h1) =
        and_then_ok (or_text ("failed to parse CSV row from `" ++ path ++ "`: ") row)
          (row_sample path i j) x h in
      let (m, measured, h2) =
        and_then_ok (parse_column f path measured_column i columns)
          (λ m. and_then (parse_column f path iteration_column j columns) (quotient_of path m)) x
          h1 in
      let (n, iterations, last) =
        and_then_ok (parse_column f path iteration_column j columns) (quotient_of path m) x h2 in
      let (a, a_there, a_parsed) = parse_column_ok path measured_column i columns m measured in
      let (b, b_there, b_parsed) = parse_column_ok path iteration_column j columns n iterations in
      let (positive, quotient) = quotient_of_ok path m n x last in
      record {
        columns = columns;
        measured = a;
        iterations = b;
        measured_value = m;
        iteration_count = n;
        readable = or_text_ok _ row columns readable;
        measured_there = a_there;
        iterations_there = b_there;
        measured_parsed = a_parsed;
        iterations_parsed = b_parsed;
        positive = positive;
        quotient = quotient;
      }

  pub samples-AreRows :
      (path : String) (i j : ℕ) (rows : List (Result String (List String))) (xs : List F)
      → samples f path i j rows ≡ ok xs
      → AreRows i j rows xs
  unfolding samples
  samples-AreRows path i j [] [] h = tt
  samples-AreRows path i j [] (x ∷ xs) h = cc
  samples-AreRows path i j (row ∷ rows) xs h =
      let (x, first, h1) =
        and_then_ok (sample f path i j row)
          (λ x. and_then (samples f path i j rows) (λ xs. ok (x ∷ xs))) xs h in
      let (later, rest, last) = and_then_ok (samples f path i j rows) (λ xs. ok (x ∷ xs)) xs h1 in
      subst (AreRows i j (row ∷ rows)) (of_ok (x ∷ later) xs last)
        (sample-IsRow path i j row x first, samples-AreRows path i j rows later rest)

  pub median-IsMiddle : (xs : List F) (d : F) → median f xs ≡ some d → IsMiddle xs d
  unfolding median
  median-IsMiddle xs d h = elim (Bool-cases (length xs % 2 == 1)) [
    | inl odd ↦ inl (eq_of_beq (length xs % 2) 1 odd, rw (odd, median) at h)
    | inr even ↦ elim (Option-cases (nth (length xs / 2 - 1) xs)) [
      | inl missing ↦ let no_value = rw (even, missing, median) at h in cc
      | inr (a, lower) ↦ elim (Option-cases (nth (length xs / 2) xs)) [
        | inl missing ↦ let no_value = rw (even, lower, missing, median) at h in cc
        | inr (b, upper) ↦
            let last : some (f.div (f.add a b) f.two) ≡ some d =
              rw (even, lower, upper, median) at h in
            inr (a, b, lower, upper, even, cc last)
      ]
    ]
  ]
