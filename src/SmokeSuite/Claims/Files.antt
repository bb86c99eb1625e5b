-- ===== src/SmokeSuite/Claims/Files.antt =====
-- utils/transport-smoke-suite/src/claims.rs: the claims file of a scenario.
use up_streamer_rust.Base.{
  ℕ, String, Bool, true, false, not, Option, none, some, List, [], ◌∷◌, if◌then◌else◌, Result, ok,
  and_then, ◌==◌, nat_equality, string_equality, option_equality, pair_equality,
}
use Prim.Native.String.{◌++◌}
use up_streamer_rust.Base.Lists.{contains}
use up_streamer_rust.SmokeSuite.Host.{Host, Metadata, Failure, with_context, bail, ensure}
use up_streamer_rust.SmokeSuite.Claims.{
  default_claims_directory, ClaimsPathKind, file, directory, must_match, must_not_match, Thresholds,
  ClaimSpec, LoadedClaims, selector, fixed, ClaimsFileEntry, ClaimsFile, resolve_selector_key,
}

abbrev pub is_empty : String → Bool
is_empty s = s == ""

-- The text of the error on a claim id that stands twice.
abbrev pub duplicate : String → String → String
duplicate source_path claim_id =
    "claims file " ++ source_path ++ " contains duplicate claim_id '" ++ claim_id ++ "'"

module _ {R : Type 0} (host : Host R ClaimsFile) where
  unfoldable pub default_claims_file_path : String → String → String
  default_claims_file_path repo_root scenario_id =
      host.join (host.join repo_root default_claims_directory) (scenario_id ++ ".json")

  unfoldable pub resolve_override_path : String → String → String
  resolve_override_path repo_root claims_path =
      if host.is_absolute claims_path then claims_path else host.join repo_root claims_path

  unfoldable pub claims_override_kind : String → String → Result Failure ClaimsPathKind
  claims_override_kind repo_root claims_path =
      let candidate = resolve_override_path repo_root claims_path in
      and_then
        (with_context ("claims path does not exist or is not accessible: " ++ candidate)
          (host.metadata candidate))
        (λ (m : Metadata).
          if m.is_dir
          then ok directory
          else if m.is_file
          then ok file
          else bail ("claims path must be a file or directory: " ++ candidate))

  unfoldable pub resolve_candidate : String → String → Option String → Result Failure String
  resolve_candidate repo_root scenario_id none = ok (default_claims_file_path repo_root scenario_id)
  resolve_candidate repo_root scenario_id (some claims_path) =
      let path = resolve_override_path repo_root claims_path in
      and_then
        (with_context ("claims path does not exist or is not accessible: " ++ path)
          (host.metadata path))
        (λ (m : Metadata).
          if m.is_dir
          then ok (host.join path (scenario_id ++ ".json"))
          else if m.is_file
          then ok path
          else bail ("claims path must be a file or directory: " ++ path))

  unfoldable pub resolve_claims_file_path : String → String → Option String → Result Failure String
  resolve_claims_file_path repo_root scenario_id claims_path_override =
      and_then (resolve_candidate repo_root scenario_id claims_path_override) (λ candidate.
        and_then
          (with_context ("resolved claims file does not exist or is not accessible: " ++ candidate)
            (host.metadata candidate))
          (λ (m : Metadata).
            ensure m.is_file ("resolved claims path is not a file: " ++ candidate) (ok candidate)))

  unfoldable pub validate_claim_entry : ClaimsFileEntry → String → Result Failure (Unit {0})
  validate_claim_entry c source_path =
      ensure (not (is_empty (host.trim c.claim_id)))
        ("claims file " ++ source_path ++ " has a claim with empty claim_id")
        (ensure (not (is_empty (host.trim c.file)))
          ("claim '" ++ c.claim_id ++ "' in " ++ source_path ++ " has empty file")
          (ensure (not (is_empty (host.trim c.pattern)))
            ("claim '" ++ c.claim_id ++ "' in " ++ source_path ++ " has empty pattern")
            (and_then
              (with_context
                ("claim '" ++ c.claim_id ++ "' in " ++ source_path ++ " has invalid regex '"
                  ++ c.pattern ++ "'")
                (host.regex_new c.pattern))
              (λ compiled. ok tt))))

unfoldable pub resolve_file_claim_threshold :
    ClaimsFileEntry → Thresholds → String → Result Failure ℕ
resolve_file_claim_threshold c thresholds source_path = elim c.kind [
  | must_match ↦ elim c.threshold [
    | some t ↦ elim t [
      | selector key ↦ ok (resolve_selector_key key thresholds)
      | fixed value ↦ ok value
    ]
    | none ↦ bail (
        "claim '" ++ c.claim_id ++ "' in " ++ source_path
        ++ " is must_match and requires a threshold")
  ]
  | must_not_match ↦ elim c.threshold [
    | some t ↦ bail (
        "claim '" ++ c.claim_id ++ "' in " ++ source_path
        ++ " is must_not_match and must not define a threshold")
    | none ↦ ok 0
  ]
]

unfoldable pub claim_spec : ClaimsFileEntry → ℕ → ClaimSpec
claim_spec c min_count = record {
  claim_id = c.claim_id;
  category = c.category;
  kind = c.kind;
  file = c.file;
  pattern = c.pattern;
  min_count = min_count;
}

module _ {R : Type 0} (host : Host R ClaimsFile) (thresholds : Thresholds)
    (source_path : String) where
  -- The loop: the claim ids met so far, and the entries that are left.
  unfoldable pub materialize_entries :
      List String → List ClaimsFileEntry → Result Failure (List ClaimSpec)
  unfolding claim_spec
  materialize_entries claim_ids [] = ok []
  materialize_entries claim_ids (c ∷ rest) =
      and_then (validate_claim_entry host c source_path) (λ valid.
        ensure (not (contains c.claim_id claim_ids)) (duplicate source_path c.claim_id) (
          and_then (resolve_file_claim_threshold c thresholds source_path) (λ min_count.
            and_then (materialize_entries (c.claim_id ∷ claim_ids) rest)
              (λ specs. ok (claim_spec c min_count ∷ specs)))))

  unfoldable pub materialize_claim_specs_from_file : ClaimsFile → Result Failure (List ClaimSpec)
  materialize_claim_specs_from_file claims_file = materialize_entries [] claims_file.claims

abbrev pub no_claims : List ClaimsFileEntry → Bool
no_claims [] = true
no_claims (c ∷ rest) = false

module _ {R : Type 0} (host : Host R ClaimsFile) where
  unfoldable pub load_claims_for_scenario :
      String → String → Option String → Thresholds → Result Failure LoadedClaims
  unfolding materialize_claim_specs_from_file
  load_claims_for_scenario repo_root scenario_id claims_path_override thresholds =
      and_then (resolve_claims_file_path host repo_root scenario_id claims_path_override)
        (λ source_path.
          and_then
            (with_context ("unable to read claims file " ++ source_path)
              (host.read_to_string source_path))
            (λ payload.
              and_then
                (with_context ("unable to parse claims file " ++ source_path) (host.parse payload))
                (λ (claims_file : ClaimsFile).
                  ensure (not (is_empty (host.trim claims_file.schema_version)))
                    ("claims file " ++ source_path ++ " has an empty schema_version")
                    (ensure (claims_file.scenario_id == scenario_id)
                      ("claims file " ++ source_path ++ " targets scenario '"
                        ++ claims_file.scenario_id ++ "' but requested scenario is '" ++ scenario_id
                        ++ "'")
                      (ensure (not (no_claims claims_file.claims))
                        ("claims file " ++ source_path ++ " contains no claims")
                        (and_then
                          (materialize_claim_specs_from_file host thresholds source_path
                            claims_file)
                          (λ claims. ok (record {
                            source_path = source_path;
                            schema_version = claims_file.schema_version;
                            claims = claims;
                          }))))))))
