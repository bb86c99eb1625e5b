-- ===== src/SmokeSuite/Claims/Outcomes.antt =====
-- utils/transport-smoke-suite/src/claims.rs: the evaluation of claims on the logs of a run.
use up_streamer_rust.Base.{
  ℕ, ◌+◌, String, Bool, true, false, Option, none, some, List, [], ◌∷◌, leb, if◌then◌else◌, ok, err,
  or_else, ◌==◌, nat_equality, string_equality, option_equality, pair_equality,
}
use Prim.Native.String.{◌++◌}
use up_streamer_rust.Base.Lists.{length, push}
use up_streamer_rust.SmokeSuite.Host.{Host}
use up_streamer_rust.SmokeSuite.Claims.{
  ClaimKind, must_match, must_not_match, ClaimSpec, ClaimOutcome, ClaimsFile,
}

-- The outcome of a claim that could not be evaluated.
abbrev pub broken : ClaimSpec → String → ClaimOutcome
broken c text = record {
  claim_id = c.claim_id;
  category = c.category;
  kind = c.kind;
  file = c.file;
  pattern = c.pattern;
  min_count = c.min_count;
  observed_count = 0;
  pass = false;
  first_match = none;
  error = some text;
}

abbrev pub next : List String → Option String
next [] = none
next (m ∷ rest) = some m

-- The first match that was taken from the iterator, and then those that are left.
abbrev pub observed : List String → ℕ
observed [] = 0
observed (m ∷ rest) = 1 + length rest

abbrev pub passes : ClaimKind → ℕ → ℕ → Bool
passes must_match observed_count min_count = leb min_count observed_count
passes must_not_match observed_count min_count = observed_count == 0

unfoldable pub matched : ClaimSpec → List String → ClaimOutcome
matched c matches = record {
  claim_id = c.claim_id;
  category = c.category;
  kind = c.kind;
  file = c.file;
  pattern = c.pattern;
  min_count = c.min_count;
  observed_count = observed matches;
  pass = passes c.kind (observed matches) c.min_count;
  first_match = next matches;
  error = none;
}

module _ {R : Type 0} (host : Host R ClaimsFile) (artifacts_dir : String) where
  unfoldable pub evaluate_claim : ClaimSpec → ClaimOutcome
  unfolding matched
  evaluate_claim c =
      let file_path = host.join artifacts_dir c.file in
      elim (host.read_to_string file_path) [
        | err error ↦ broken c ("unable to read " ++ file_path ++ ": " ++ error)
        | ok file_content ↦ elim (host.regex_new c.pattern) [
          | err error ↦ broken c ("invalid regex '" ++ c.pattern ++ "': " ++ error)
          | ok regex ↦ matched c (host.find_iter regex file_content)
        ]
      ]

  unfoldable pub evaluate_claims : List ClaimSpec → List ClaimOutcome
  unfolding evaluate_claim
  evaluate_claims [] = []
  evaluate_claims (c ∷ rest) = evaluate_claim c ∷ evaluate_claims rest

abbrev pub is_forbidden : ClaimOutcome → Bool
is_forbidden o = elim o.kind [ must_not_match ↦ true | must_match ↦ false ]

module _ {R : Type 0} (host : Host R ClaimsFile) where
  unfoldable pub failure_reason : ClaimOutcome → String
  failure_reason o =
      "claim '"
      ++ o.claim_id
      ++ "' failed (file='"
      ++ o.file
      ++ "', observed="
      ++ host.to_string o.observed_count
      ++ ", min="
      ++ host.to_string o.min_count
      ++ ", pattern='"
      ++ o.pattern
      ++ "')"

  -- The outcomes of either kind so far, in their order, and the first failure.
  abbrev pub Split : Type 0
  Split = List ClaimOutcome × (List ClaimOutcome × Option String)

  -- One turn of the loop.
  unfoldable pub split_outcome : ClaimOutcome → Split → Split
  unfolding failure_reason
  split_outcome o (must_outcomes, (forbidden_outcomes, first_failure)) =
      let first_failure' =
        or_else first_failure (if o.pass then none else some (failure_reason o)) in
      if is_forbidden o
      then (must_outcomes, (push forbidden_outcomes o, first_failure'))
      else (push must_outcomes o, (forbidden_outcomes, first_failure'))

  unfoldable pub split_loop : List ClaimOutcome → Split → Split
  unfolding split_outcome
  split_loop [] s = s
  split_loop (o ∷ rest) s = split_loop rest (split_outcome o s)

  unfoldable pub split_claim_outcomes : List ClaimOutcome → Split
  unfolding split_loop
  split_claim_outcomes outcomes = split_loop outcomes ([], ([], none))
