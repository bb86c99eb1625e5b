-- ===== src/Tests/Smoke.antt =====
-- A smoke suite with one log, one claims file and plain patterns.
use up_streamer_rust.Base.{
  String, ◌≡◌, refl, ◌↔◌, true, false, none, some, List, [], ◌∷◌, if◌then◌else◌, ok, ◌==◌,
  nat_equality, string_equality, option_equality, pair_equality,
}
use up_streamer_rust.SmokeSuite.Logs.{LogOps, Look}
use up_streamer_rust.SmokeSuite.Logs.Waiting.{IsAnswered, wait_for_exact_marker-IsAnswered}
use up_streamer_rust.SmokeSuite.Host.{Host}
use up_streamer_rust.SmokeSuite.Claims.{
  must_match, must_not_match, readiness, forbidden_signature, default_thresholds, ClaimSpec,
  LoadedClaims, selector, egress_send_ok, ClaimsFile,
}
use up_streamer_rust.SmokeSuite.Claims.Files.{
  resolve_claims_file_path, resolve_candidate, default_claims_file_path, validate_claim_entry,
  resolve_file_claim_threshold, claim_spec, materialize_entries, materialize_claim_specs_from_file,
  load_claims_for_scenario,
}
use up_streamer_rust.SmokeSuite.Claims.Outcomes.{evaluate_claims, split_claim_outcomes}
use up_streamer_rust.SmokeSuite.Claims.Loading.{IsLoaded, load_claims_for_scenario-IsLoaded}
use up_streamer_rust.SmokeSuite.Claims.Evaluation.{AllHold, evaluate_claims-AllHold}

abbrev claims_file : ClaimsFile
claims_file = record {
  schema_version = "1";
  scenario_id = "demo";
  claims =
      record {
        claim_id = "ready";
        category = readiness;
        kind = must_match;
        file = "streamer.log";
        pattern = "READY";
        threshold = some (selector egress_send_ok);
      }
      ∷ record {
        claim_id = "calm";
        category = forbidden_signature;
        kind = must_not_match;
        file = "streamer.log";
        pattern = "panic";
        threshold = none;
      }
      ∷ [];
}

-- An expression matches exactly itself, and the log has two lines.
abbrev plain_host : Host String ClaimsFile
plain_host = record {
  metadata = λ p. ok (record { is_dir = false; is_file = true });
  read_to_string = λ p. ok "READY READY";
  parse = λ s. ok claims_file;
  regex_new = λ p. ok p;
  find_iter = λ r s. if r == "READY" then r ∷ r ∷ [] else [];
  is_absolute = λ p. true;
  join = λ p q. q;
  trim = λ s. s;
  to_string = λ n. "n";
}

abbrev specs : List ClaimSpec
specs =
    record {
      claim_id = "ready";
      category = readiness;
      kind = must_match;
      file = "streamer.log";
      pattern = "READY";
      min_count = 2;
    }
    ∷ record {
      claim_id = "calm";
      category = forbidden_signature;
      kind = must_not_match;
      file = "streamer.log";
      pattern = "panic";
      min_count = 0;
    }
    ∷ []

abbrev loaded : LoadedClaims
loaded = record { source_path = "demo.json"; schema_version = "1"; claims = specs }

loads : load_claims_for_scenario plain_host "/" "demo" none default_thresholds ≡ ok loaded
unfolding load_claims_for_scenario resolve_claims_file_path resolve_candidate
    default_claims_file_path materialize_claim_specs_from_file materialize_entries
    validate_claim_entry resolve_file_claim_threshold claim_spec
loads = refl

load_claims_for_scenario-IsLoaded_example :
    IsLoaded plain_host "/" "demo" none default_thresholds loaded
load_claims_for_scenario-IsLoaded_example =
    load_claims_for_scenario-IsLoaded plain_host "/" "demo" none default_thresholds loaded loads

evaluate_claims-AllHold_example :
    ((split_claim_outcomes plain_host (evaluate_claims plain_host "logs" specs)).1.1 ≡ none)
    ↔ AllHold plain_host "logs" specs
evaluate_claims-AllHold_example = evaluate_claims-AllHold plain_host "logs" specs

abbrev whole_lines : LogOps
whole_lines = record { lines = λ s. s ∷ []; trim_end = λ s. s }

-- There is no log at first, and the marker is there when the time is over.
abbrev looks : List Look
looks =
    record { searched = none; late = false; at_the_end = none }
    ∷ record { searched = some (ok "READY"); late = true; at_the_end = some (ok "READY") }
    ∷ []

wait_for_exact_marker-IsAnswered_example : IsAnswered whole_lines "streamer.log" "READY" looks
wait_for_exact_marker-IsAnswered_example =
    wait_for_exact_marker-IsAnswered whole_lines "streamer.log" "READY" looks refl
