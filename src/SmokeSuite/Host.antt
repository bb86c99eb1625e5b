-- ===== src/SmokeSuite/Host.antt =====
-- What the smoke suite uses of the standard library, serde_json and regex: a parameter. A path is its text;
-- the files do not change while they are looked at.
use up_streamer_rust.Base.{
  ℕ, String, ◌≡◌, refl, Bool, true, false, List, [], ◌∷◌, Result, ok, err, nat_equality,
  string_equality, option_equality, pair_equality,
}

pub record Metadata : Type 0 where
  pub is_dir : Bool
  pub is_file : Bool

-- `R` is a compiled regular expression and `F` a parsed claims file; an error is its text.
pub record Host (R F : Type 0) : Type 0 where
  pub metadata : String → Result String Metadata
  pub read_to_string : String → Result String String
  pub parse : String → Result String F
  pub regex_new : String → Result String R
  pub find_iter : R → String → List String
  pub is_absolute : String → Bool
  pub join : String → String → String
  pub trim : String → String
  pub to_string : ℕ → String

-- An error of anyhow: what was done, from the outside in.
abbrev pub Failure : Type 0
Failure = List String

abbrev pub with_context : {A : Type 0} → String → Result String A → Result Failure A
with_context context (ok a) = ok a
with_context context (err cause) = err (context ∷ cause ∷ [])

-- `anyhow!` and `return Err`
abbrev pub bail : {A : Type 0} → String → Result Failure A
bail text = err (text ∷ [])

-- A guard that leaves with an error.
abbrev pub ensure : {A : Type 0} → Bool → String → Result Failure A → Result Failure A
ensure true text rest = rest
ensure false text rest = bail text

pub ensure_ok :
    {A : Type 0} (b : Bool) (text : String) (rest : Result Failure A) (a : A)
    → ensure b text rest ≡ ok a
    → (b ≡ true) × (rest ≡ ok a)
ensure_ok true text rest a h = (refl, h)
ensure_ok false text rest a h = cc

pub with_context_ok :
    {A : Type 0} (context : String) (x : Result String A) (a : A)
    → with_context context x ≡ ok a
    → x ≡ ok a
with_context_ok context (ok b) a h = cc
with_context_ok context (err cause) a h = cc
