-- ===== src/SmokeSuite/Claims/Loading.antt =====
-- What a claims file that was loaded is like.
use up_streamer_rust.Base.{
  ℕ, String, ◌≡◌, refl, Bool, true, false, not, Option, none, some, List, [], ◌∷◌, arith, ok,
  and_then_ok, of_ok, ◌==◌, nat_equality, string_equality, option_equality, pair_equality, beq_self,
  eq_of_beq,
}
use mathlib.Core.Path.{subst}
use up_streamer_rust.Base.Lists.{contains, Distinct}
use up_streamer_rust.SmokeSuite.Host.{Host, ensure_ok, with_context_ok}
use up_streamer_rust.SmokeSuite.Claims.{
  ClaimKind, must_match, must_not_match, Thresholds, ClaimSpec, LoadedClaims, ThresholdValue,
  selector, fixed, ClaimsFileEntry, ClaimsFile, resolve_selector_key,
}
use up_streamer_rust.SmokeSuite.Claims.Files.{
  is_empty, resolve_claims_file_path, validate_claim_entry, resolve_file_claim_threshold,
  claim_spec, materialize_entries, materialize_claim_specs_from_file, no_claims,
  load_claims_for_scenario,
}

-- The count that a claim asks for, if its threshold fits its kind.
abbrev pub expected : Thresholds → ClaimKind → Option ThresholdValue → Option ℕ
expected thresholds must_match none = none
expected thresholds must_match (some (selector key)) = some (resolve_selector_key key thresholds)
expected thresholds must_match (some (fixed value)) = some value
expected thresholds must_not_match none = some 0
expected thresholds must_not_match (some t) = none

abbrev pub claim_ids : List ClaimsFileEntry → List String
claim_ids [] = []
claim_ids (c ∷ rest) = c.claim_id ∷ claim_ids rest

module _ {R : Type 0} (host : Host R ClaimsFile) where
  pub record IsValid (c : ClaimsFileEntry) : Type 0 where
    claim_id : is_empty (host.trim c.claim_id) ≡ false
    file : is_empty (host.trim c.file) ≡ false
    pattern : is_empty (host.trim c.pattern) ≡ false
    regex : R
    compiles : host.regex_new c.pattern ≡ ok regex

  -- A claim and the entry that it was read from.
  pub record IsRead (thresholds : Thresholds) (c : ClaimsFileEntry) (s : ClaimSpec) : Type 0 where
    valid : IsValid c
    spec : s ≡ claim_spec c s.min_count
    min_count : expected thresholds c.kind c.threshold ≡ some s.min_count

  abbrev pub AllRead : Thresholds → List ClaimsFileEntry → List ClaimSpec → Type 0
  AllRead thresholds [] [] = Unit
  AllRead thresholds (c ∷ cs) (s ∷ ss) = IsRead thresholds c s × AllRead thresholds cs ss
  AllRead thresholds _ _ = false ≡ true

  not-true : (b : Bool) → not b ≡ true → b ≡ false
  not-true false h = refl
  not-true true h = cc

  validate-IsValid :
      (c : ClaimsFileEntry) (source_path : String) (u : Unit {0})
      → validate_claim_entry host c source_path ≡ ok u
      → IsValid c
  unfolding validate_claim_entry
  validate-IsValid c source_path u h =
      let (a, h1) = ensure_ok (not (is_empty (host.trim c.claim_id))) _ _ u h in
      let (b, h2) = ensure_ok (not (is_empty (host.trim c.file))) _ _ u h1 in
      let (d, h3) = ensure_ok (not (is_empty (host.trim c.pattern))) _ _ u h2 in
      let (regex, compiled, last) = and_then_ok _ _ u h3 in
      record {
        claim_id = not-true _ a;
        file = not-true _ b;
        pattern = not-true _ d;
        regex = regex;
        compiles = with_context_ok _ _ regex compiled;
      }

  threshold-expected :
      (thresholds : Thresholds) (c : ClaimsFileEntry) (source_path : String) (n : ℕ)
      → resolve_file_claim_threshold c thresholds source_path ≡ ok n
      → expected thresholds c.kind c.threshold ≡ some n
  unfolding resolve_file_claim_threshold
  threshold-expected thresholds c source_path n h = ground (arith, h)

  -- No id stands twice, nor among those met before.
  record IsNew (ids : List String) (cs : List ClaimsFileEntry) : Type 0 where
    distinct : Distinct (claim_ids cs)
    new : (id : String) → contains id ids ≡ true → contains id (claim_ids cs) ≡ false

  IsNew-cons :
      (ids : List String) (c : ClaimsFileEntry) (rest : List ClaimsFileEntry)
      → contains c.claim_id ids ≡ false
      → IsNew (c.claim_id ∷ ids) rest
      → IsNew ids (c ∷ rest)
  IsNew-cons ids c rest absent r = record {
    distinct = (r.new c.claim_id (ground (arith, beq_self c.claim_id)), r.distinct);
    new = λ id h. ground (arith, absent, r.new id, string_equality.beq_iff c.claim_id id);
  }

  materialize_entries-AllRead :
      (thresholds : Thresholds) (source_path : String) (ids : List String)
      (cs : List ClaimsFileEntry) (specs : List ClaimSpec)
      → materialize_entries host thresholds source_path ids cs ≡ ok specs
      → AllRead thresholds cs specs × IsNew ids cs
  unfolding materialize_entries claim_spec
  materialize_entries-AllRead thresholds source_path ids [] [] h =
      (tt, record { distinct = tt; new = λ id e. refl })
  materialize_entries-AllRead thresholds source_path ids [] (s ∷ ss) h = cc
  materialize_entries-AllRead thresholds source_path ids (c ∷ rest) specs h =
      let (u, valid, h1) = and_then_ok _ _ specs h in
      let (fresh, h2) = ensure_ok (not (contains c.claim_id ids)) _ _ specs h1 in
      let (n, count, h3) = and_then_ok _ _ specs h2 in
      let (others, later, last) = and_then_ok _ _ specs h3 in
      let (read, new) =
        materialize_entries-AllRead thresholds source_path (c.claim_id ∷ ids) rest others later in
      let same : (claim_spec c n ∷ others) ≡ specs = of_ok _ specs last in
      (
        subst (AllRead thresholds (c ∷ rest)) same (
          record {
            valid = validate-IsValid c source_path u valid;
            spec = refl;
            min_count = threshold-expected thresholds c source_path n count;
          },
          read,
        ),
        IsNew-cons ids c rest (not-true _ fresh) new,
      )

  -- The claims of a scenario that were loaded from a claims file.
  pub record IsLoaded (repo_root scenario_id : String) (override : Option String)
      (thresholds : Thresholds) (loaded : LoadedClaims) : Type 0 where
    payload : String
    claims_file : ClaimsFile
    path : resolve_claims_file_path host repo_root scenario_id override ≡ ok loaded.source_path
    readable : host.read_to_string loaded.source_path ≡ ok payload
    parsed : host.parse payload ≡ ok claims_file
    version : is_empty (host.trim claims_file.schema_version) ≡ false
    same_version : claims_file.schema_version ≡ loaded.schema_version
    scenario : claims_file.scenario_id ≡ scenario_id
    some_claims : no_claims claims_file.claims ≡ false
    distinct : Distinct (claim_ids claims_file.claims)
    read : AllRead thresholds claims_file.claims loaded.claims

  -- When the claims of a scenario are loaded, they are those of the resolved claims file, which was
  -- read and parsed, has a schema version, is for this scenario and holds at least one claim;
  -- no two claims have the same id, each has an id, a file and a pattern that is a regular expression, and each
  -- asks for the count that its threshold stands for, zero if it must not match, with a threshold
  -- exactly if it must match.
  pub load_claims_for_scenario-IsLoaded :
      (repo_root scenario_id : String) (override : Option String) (thresholds : Thresholds)
      (loaded : LoadedClaims)
      → load_claims_for_scenario host repo_root scenario_id override thresholds ≡ ok loaded
      → IsLoaded repo_root scenario_id override thresholds loaded
  unfolding load_claims_for_scenario materialize_claim_specs_from_file
  load_claims_for_scenario-IsLoaded repo_root scenario_id override thresholds loaded h =
      let (source_path, path, h1) = and_then_ok _ _ loaded h in
      let (payload, readable, h2) = and_then_ok _ _ loaded h1 in
      let (claims_file, parsed, h3) = and_then_ok _ _ loaded h2 in
      let (version, h4) =
        ensure_ok (not (is_empty (host.trim claims_file.schema_version))) _ _ loaded h3 in
      let (scenario, h5) = ensure_ok (claims_file.scenario_id == scenario_id) _ _ loaded h4 in
      let (nonempty, h6) = ensure_ok (not (no_claims claims_file.claims)) _ _ loaded h5 in
      let (claims, made, last) = and_then_ok _ _ loaded h6 in
      let (read, new) =
        materialize_entries-AllRead thresholds source_path [] claims_file.claims claims made in
      subst (IsLoaded repo_root scenario_id override thresholds) (of_ok _ loaded last) (record {
        payload = payload;
        claims_file = claims_file;
        path = path;
        readable = with_context_ok _ _ payload readable;
        parsed = with_context_ok _ _ claims_file parsed;
        version = not-true _ version;
        same_version = refl;
        scenario = eq_of_beq claims_file.scenario_id scenario_id scenario;
        some_claims = not-true _ nonempty;
        distinct = new.distinct;
        read = read;
      })
