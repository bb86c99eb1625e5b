-- ===== src/Guardrail.antt =====
-- utils/criterion-guardrail/src/lib.rs: which benchmarks are compared, and how. A floating-point number
-- is a parameter with its operations.
pub mod Samples
pub mod Middle
pub mod Median
pub mod Evaluate
pub mod Formulas
pub mod Discovery
pub mod Choice
pub mod Walk
pub mod Report
use up_streamer_rust.Base.{
  ℕ, zero, suc, ◌+◌, ◌-◌, ◌%◌, ◌^◌, ◌≤◌, ◌<◌, String, ◌≡◌, refl, sym, ap, ◌∙◌, ◌≢◌, ◌↔◌, ◌⊎◌, inl,
  inr, Bool, true, false, not, ◌&&◌, ◌||◌, Option, none, some, List, [], ◌∷◌, map, arith, ltb, leb,
  if◌then◌else◌, Result, ok, err, Bool-cases, Option-cases, Result-cases, or_else, or_else_assoc,
  and_then, and_then_ok, of_ok, or_else-none, or_else_self, Equality, ◌==◌, nat_equality,
  string_equality, option_beq, option_beq_iff, option_equality, pair_equality, beq_self, eq_of_beq,
  beq_false, ne_of_beq, beq_comm,
}
use Prim.Native.String.{◌++◌}
use Prim.Native.Char.{code}
use up_streamer_rust.Base.Lists.{contains, length}

-- The operations of `f64`, some of its constants, and `sort_by` with `total_cmp`.
pub record Float (F : Type 0) : Type 0 where
  pub le : F → F → Bool
  pub add : F → F → F
  pub sub : F → F → F
  pub mul : F → F → F
  pub div : F → F → F
  pub zero_point : F
  pub two : F
  pub hundred : F
  pub billion : F
  pub parse : String → Result String F
  pub sort : List F → List F
  pub fixed_3 : F → String

abbrev pub required_benchmark_ids : List String
required_benchmark_ids =
    "routing_lookup/exact_authority" ∷ "routing_lookup/wildcard_authority"
    ∷ "publish_resolution/source_filter_derivation" ∷ "ingress_registry/register_route"
    ∷ "ingress_registry/unregister_route" ∷ "egress_forwarding/single_route_dispatch" ∷ []

abbrev pub throughput_groups : List String
throughput_groups = "egress_forwarding" ∷ "ingress_registry" ∷ []

abbrev pub latency_groups : List String
latency_groups = "routing_lookup" ∷ "publish_resolution" ∷ []

abbrev pub alloc_proxy_benchmark_ids : List String
alloc_proxy_benchmark_ids =
    "routing_lookup/wildcard_authority" ∷ "publish_resolution/source_filter_derivation" ∷ []

pub record ThresholdConfig (F : Type 0) : Type 0 where
  pub throughput_threshold_pct : F
  pub latency_threshold_pct : F
  pub alloc_proxy_threshold_pct : F

pub data MetricKind : Type 0 where
  throughput latency alloc_proxy : MetricKind

-- `split('/').next()`
unfoldable pub first_segment : String → String
first_segment String.[] = ""
first_segment (String.◌∷◌ c s) =
    let rest = first_segment s in if code c == 47 then "" else String.◌∷◌ c rest

module _ {F : Type 0} where
  unfoldable pub benchmark_threshold : String → ThresholdConfig F → Result String (MetricKind × F)
  unfolding first_segment
  benchmark_threshold benchmark_id thresholds =
      let group = first_segment benchmark_id in
      if contains benchmark_id alloc_proxy_benchmark_ids
      then ok (alloc_proxy, thresholds.alloc_proxy_threshold_pct)
      else if contains group throughput_groups
      then ok (throughput, thresholds.throughput_threshold_pct)
      else if contains group latency_groups
      then ok (latency, thresholds.latency_threshold_pct)
      else err (
          "benchmark group `" ++ group ++ "` is not mapped to a threshold for `" ++ benchmark_id
          ++ "`")

module _ {F : Type 0} (f : Float F) where
  unfoldable pub latency_delta_pct : F → F → Result String F
  latency_delta_pct baseline_ns_per_iter candidate_ns_per_iter =
      if f.le baseline_ns_per_iter f.zero_point
      then err "baseline ns/iter must be > 0 for latency delta"
      else ok (
          f.mul (f.div (f.sub candidate_ns_per_iter baseline_ns_per_iter) baseline_ns_per_iter)
            f.hundred)

  unfoldable pub throughput_delta_pct : F → F → Result String F
  throughput_delta_pct baseline_ns_per_iter candidate_ns_per_iter =
      let baseline_ops = f.div f.billion baseline_ns_per_iter in
      let candidate_ops = f.div f.billion candidate_ns_per_iter in
      if f.le baseline_ns_per_iter f.zero_point || f.le candidate_ns_per_iter f.zero_point
      then err "baseline and candidate ns/iter must be > 0 for throughput delta"
      else ok (f.mul (f.div (f.sub baseline_ops candidate_ops) baseline_ops) f.hundred)

  -- The `match` on the kind of the metric.
  unfoldable pub delta_pct : MetricKind → F → F → Result String F
  unfolding latency_delta_pct throughput_delta_pct
  delta_pct throughput baseline candidate = throughput_delta_pct baseline candidate
  delta_pct latency baseline candidate = latency_delta_pct baseline candidate
  delta_pct alloc_proxy baseline candidate = latency_delta_pct baseline candidate
