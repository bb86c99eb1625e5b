-- ===== src/SmokeSuite/Claims/Evaluation.antt =====
-- What the outcomes of claims say.
use up_streamer_rust.Base.{
  ℕ, ◌≤◌, String, ◌≡◌, refl, sym, ap, ◌∙◌, ◌↔◌, inl, inr, Bool, true, false, not, Option, none,
  some, List, [], ◌∷◌, ◌++◌, arith, if◌then◌else◌, ok, err, Bool-cases, Result-cases, or_else,
  or_else_assoc, or_else-none, nat_equality, string_equality, option_equality, pair_equality,
}
use up_streamer_rust.Base.Lists.{length, push, append_nil, append_assoc}
use up_streamer_rust.SmokeSuite.Host.{Host}
use up_streamer_rust.SmokeSuite.Claims.{
  ClaimKind, must_match, must_not_match, ClaimSpec, ClaimOutcome, ClaimsFile,
}
use up_streamer_rust.SmokeSuite.Claims.Outcomes.{
  observed, passes, matched, evaluate_claim, evaluate_claims, is_forbidden, failure_reason,
  split_outcome, split_loop, split_claim_outcomes,
}

module _ {R : Type 0} (host : Host R ClaimsFile) (artifacts_dir : String) where
  -- What a claim says of the number of matches of its pattern.
  abbrev Says : ClaimKind → ℕ → ℕ → Type 0
  Says must_match min_count found = min_count ≤ found
  Says must_not_match min_count found = found ≡ 0

  -- The file of the claim can be read, its pattern is a regular expression, and the matches are as many as
  -- the claim says.
  pub record Holds (c : ClaimSpec) : Type 0 where
    content : String
    regex : R
    readable : host.read_to_string (host.join artifacts_dir c.file) ≡ ok content
    compiles : host.regex_new c.pattern ≡ ok regex
    says : Says c.kind c.min_count (length (host.find_iter regex content))

  observed-length : (xs : List String) → observed xs ≡ length xs
  observed-length [] = refl
  observed-length (x ∷ xs) = omega arith

  passes-Says :
      (k : ClaimKind) (found min_count : ℕ)
      → (passes k found min_count ≡ true) ↔ Says k min_count found
  passes-Says must_match found min_count = ground arith
  passes-Says must_not_match found min_count = ground arith

  evaluated :
      (c : ClaimSpec) (content : String) (regex : R)
      → host.read_to_string (host.join artifacts_dir c.file) ≡ ok content
      → host.regex_new c.pattern ≡ ok regex
      → (evaluate_claim host artifacts_dir c).pass
        ≡ passes c.kind (length (host.find_iter regex content)) c.min_count
  unfolding evaluate_claim matched
  evaluated c content regex readable compiles =
      rw (readable, compiles, evaluate_claim)
        (ap (λ n. passes c.kind n c.min_count) (observed-length (host.find_iter regex content)))

  unreadable :
      (c : ClaimSpec) (error : String)
      → host.read_to_string (host.join artifacts_dir c.file) ≡ err error
      → (evaluate_claim host artifacts_dir c).pass ≡ false
  unfolding evaluate_claim
  unreadable c error failed = rw (failed, evaluate_claim) refl

  uncompiled :
      (c : ClaimSpec) (content error : String)
      → host.read_to_string (host.join artifacts_dir c.file) ≡ ok content
      → host.regex_new c.pattern ≡ err error
      → (evaluate_claim host artifacts_dir c).pass ≡ false
  unfolding evaluate_claim
  uncompiled c content error readable failed = rw (readable, failed, evaluate_claim) refl

  passed-Holds : (c : ClaimSpec) → (evaluate_claim host artifacts_dir c).pass ≡ true → Holds c
  passed-Holds c passed =
      elim (Result-cases (host.read_to_string (host.join artifacts_dir c.file))) [
        | inr (error, failed) ↦ let no = unreadable c error failed in cc
        | inl (content, readable) ↦ elim (Result-cases (host.regex_new c.pattern)) [
          | inr (error, failed) ↦ let no = uncompiled c content error readable failed in cc
          | inl (regex, compiles) ↦ record {
            content = content;
            regex = regex;
            readable = readable;
            compiles = compiles;
            says =
                (passes-Says c.kind (length (host.find_iter regex content)) c.min_count).0
                  (sym (evaluated c content regex readable compiles) ∙ passed);
          }
        ]
      ]

  Holds-passed : (c : ClaimSpec) → Holds c → (evaluate_claim host artifacts_dir c).pass ≡ true
  Holds-passed c h =
      evaluated c h.content h.regex h.readable h.compiles
      ∙ (passes-Says c.kind (length (host.find_iter h.regex h.content)) c.min_count).1 h.says

  -- Every claim holds.
  abbrev pub AllHold : List ClaimSpec → Type 0
  AllHold [] = Unit
  AllHold (c ∷ rest) = Holds c × AllHold rest

module _ {R : Type 0} (host : Host R ClaimsFile) where
  abbrev pub filter : (ClaimOutcome → Bool) → List ClaimOutcome → List ClaimOutcome
  filter p [] = []
  filter p (o ∷ rest) = if p o then o ∷ filter p rest else filter p rest

  -- The reason of the first outcome that did not pass.
  abbrev pub first_failure : List ClaimOutcome → Option String
  first_failure [] = none
  first_failure (o ∷ rest) = if o.pass then first_failure rest else some (failure_reason host o)

  first_failure_cons :
      (o : ClaimOutcome) (rest : List ClaimOutcome)
      → first_failure (o ∷ rest)
        ≡ or_else (if o.pass then none else some (failure_reason host o)) (first_failure rest)
  first_failure_cons o rest = ground arith

  split_loop_lem :
      (os must forbidden : List ClaimOutcome) (first : Option String)
      → split_loop host os (must, (forbidden, first)) ≡ (
        must ++ filter (λ o. not (is_forbidden o)) os,
        (forbidden ++ filter is_forbidden os, or_else first (first_failure os)),
      )
  unfolding split_loop split_outcome
  split_loop_lem [] must forbidden first =
      rw (append_nil must, append_nil forbidden, or_else-none first) refl
  split_loop_lem (o ∷ rest) must forbidden first = elim (Bool-cases (is_forbidden o)) [
    | inl is ↦
        rw (is, split_outcome)
          (split_loop_lem rest must (push forbidden o) _
            ∙ rw (append_assoc, or_else_assoc, first_failure_cons o rest) refl)
    | inr must_not ↦
        rw (must_not, split_outcome)
          (split_loop_lem rest (push must o) forbidden _
            ∙ rw (append_assoc, or_else_assoc, first_failure_cons o rest) refl)
  ]

  -- The outcomes are split into those of claims that must match and those of claims that must not, each
  -- in their order, and the failure that is reported is that of the first outcome that did not
  -- pass, if there is one.
  pub split_claim_outcomes_lem :
      (os : List ClaimOutcome)
      → split_claim_outcomes host os
        ≡ (filter (λ o. not (is_forbidden o)) os, (filter is_forbidden os, first_failure os))
  unfolding split_claim_outcomes
  split_claim_outcomes_lem os = split_loop_lem os [] [] none

module _ {R : Type 0} (host : Host R ClaimsFile) (artifacts_dir : String) where
  no_failure-AllHold :
      (cs : List ClaimSpec)
      → (first_failure host (evaluate_claims host artifacts_dir cs) ≡ none)
        ↔ AllHold host artifacts_dir cs
  unfolding evaluate_claims
  no_failure-AllHold [] = ((λ e. tt), λ h. refl)
  no_failure-AllHold (c ∷ rest) =
      let (fails, holds) = no_failure-AllHold rest in
      (
        λ none_failed. elim (Bool-cases (evaluate_claim host artifacts_dir c).pass) [
          | inl passed ↦
              (passed-Holds host artifacts_dir c passed, fails (rw passed at none_failed))
          | inr failed ↦ let refused = rw failed at none_failed in cc
        ],
        λ all. rw (Holds-passed host artifacts_dir c all.0) (holds all.1),
      )

  -- No failure is reported for the claims of a run exactly when every claim holds: its file can be
  -- read, its pattern is a regular expression, and the matches in the file are at least as many as it
  -- asks for, or none where it must not match.
  pub evaluate_claims-AllHold :
      (cs : List ClaimSpec)
      → ((split_claim_outcomes host (evaluate_claims host artifacts_dir cs)).1.1 ≡ none)
        ↔ AllHold host artifacts_dir cs
  evaluate_claims-AllHold cs =
      rw (split_claim_outcomes_lem host (evaluate_claims host artifacts_dir cs))
        (no_failure-AllHold cs)
