-- ===== src/SmokeSuite/Claims.antt =====
-- utils/transport-smoke-suite/src/claims.rs and the thresholds of env.rs.
pub mod Files
pub mod Outcomes
pub mod Loading
pub mod Evaluation
use up_streamer_rust.Base.{
  ℕ, zero, suc, ◌+◌, ◌-◌, ◌%◌, ◌^◌, ◌≤◌, ◌<◌, String, ◌≡◌, refl, sym, ap, ◌∙◌, ◌≢◌, ◌↔◌, ◌⊎◌, inl,
  inr, Bool, true, false, not, ◌&&◌, ◌||◌, Option, none, some, List, [], ◌∷◌, map, arith, ltb, leb,
  if◌then◌else◌, Result, ok, err, Bool-cases, Option-cases, Result-cases, or_else, and_then,
  and_then_ok, or_else-none, or_else_self, Equality, ◌==◌, nat_equality, string_equality,
  option_beq, option_beq_iff, option_equality, pair_equality, beq_self, eq_of_beq, beq_false,
  ne_of_beq, beq_comm,
}
use Prim.Native.String.{◌++◌}
use up_streamer_rust.Base.Lists.{length, contains}
use up_streamer_rust.SmokeSuite.Host.{Host, Metadata, Failure, with_context, bail, ensure}

abbrev pub default_claims_directory : String
default_claims_directory = "utils/transport-smoke-suite/claims"

pub data ClaimsPathKind : Type 0 where
  file directory : ClaimsPathKind

pub data ClaimKind : Type 0 where
  must_match must_not_match : ClaimKind

pub data ClaimCategory : Type 0 where
  endpoint_communication streamer_egress forbidden_signature readiness : ClaimCategory

pub data ThresholdSelector : Type 0 where
  endpoint_communication egress_send_attempt egress_send_ok egress_worker_create_or_reuse :
      ThresholdSelector
  fixed : ℕ → ThresholdSelector

pub record ClaimTemplate : Type 0 where
  pub claim_id : String
  pub category : ClaimCategory
  pub kind : ClaimKind
  pub file : String
  pub pattern : String
  pub threshold : ThresholdSelector

pub record Thresholds : Type 0 where
  pub endpoint_communication_min_count : ℕ
  pub egress_send_attempt_min_count : ℕ
  pub egress_send_ok_min_count : ℕ
  pub egress_worker_create_or_reuse_min_count : ℕ

abbrev pub default_thresholds : Thresholds
default_thresholds = record {
  endpoint_communication_min_count = 4;
  egress_send_attempt_min_count = 2;
  egress_send_ok_min_count = 2;
  egress_worker_create_or_reuse_min_count = 1;
}

pub record ClaimSpec : Type 0 where
  pub claim_id : String
  pub category : ClaimCategory
  pub kind : ClaimKind
  pub file : String
  pub pattern : String
  pub min_count : ℕ

pub record ClaimOutcome : Type 0 where
  pub claim_id : String
  pub category : ClaimCategory
  pub kind : ClaimKind
  pub file : String
  pub pattern : String
  pub min_count : ℕ
  pub observed_count : ℕ
  pub pass : Bool
  pub first_match : Option String
  pub error : Option String

pub record LoadedClaims : Type 0 where
  pub source_path : String
  pub schema_version : String
  pub claims : List ClaimSpec

pub data ThresholdSelectorKey : Type 0 where
  endpoint_communication egress_send_attempt egress_send_ok egress_worker_create_or_reuse :
      ThresholdSelectorKey

pub data ThresholdValue : Type 0 where
  selector : ThresholdSelectorKey → ThresholdValue
  fixed : ℕ → ThresholdValue

pub record ClaimsFileEntry : Type 0 where
  pub claim_id : String
  pub category : ClaimCategory
  pub kind : ClaimKind
  pub file : String
  pub pattern : String
  pub threshold : Option ThresholdValue

pub record ClaimsFile : Type 0 where
  pub schema_version : String
  pub scenario_id : String
  pub claims : List ClaimsFileEntry

abbrev pub resolve_threshold : ThresholdSelector → Thresholds → ℕ
resolve_threshold ThresholdSelector.endpoint_communication t = t.endpoint_communication_min_count
resolve_threshold ThresholdSelector.egress_send_attempt t = t.egress_send_attempt_min_count
resolve_threshold ThresholdSelector.egress_send_ok t = t.egress_send_ok_min_count
resolve_threshold ThresholdSelector.egress_worker_create_or_reuse t =
    t.egress_worker_create_or_reuse_min_count
resolve_threshold (ThresholdSelector.fixed value) t = value

unfoldable pub materialize_claims : List ClaimTemplate → Thresholds → List ClaimSpec
materialize_claims [] thresholds = []
materialize_claims (t ∷ rest) thresholds =
    record {
      claim_id = t.claim_id;
      category = t.category;
      kind = t.kind;
      file = t.file;
      pattern = t.pattern;
      min_count = resolve_threshold t.threshold thresholds;
    }
    ∷ materialize_claims rest thresholds

abbrev pub resolve_selector_key : ThresholdSelectorKey → Thresholds → ℕ
resolve_selector_key ThresholdSelectorKey.endpoint_communication t =
    t.endpoint_communication_min_count
resolve_selector_key ThresholdSelectorKey.egress_send_attempt t = t.egress_send_attempt_min_count
resolve_selector_key ThresholdSelectorKey.egress_send_ok t = t.egress_send_ok_min_count
resolve_selector_key ThresholdSelectorKey.egress_worker_create_or_reuse t =
    t.egress_worker_create_or_reuse_min_count
