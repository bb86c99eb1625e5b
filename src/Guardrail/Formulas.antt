-- ===== src/Guardrail/Formulas.antt =====
-- The kind, the threshold and the change of a benchmark, against the formulas written out.
use up_streamer_rust.Base.{
  String, ◌≡◌, refl, sym, inl, inr, false, List, [], ◌∷◌, Result, ok, err, Bool-cases, of_ok,
  nat_equality, string_equality, option_equality, pair_equality,
}
use mathlib.Core.Path.{subst}
use up_streamer_rust.Base.Lists.{contains}
use up_streamer_rust.Guardrail.{
  Float, ThresholdConfig, MetricKind, throughput, latency, alloc_proxy, required_benchmark_ids,
  throughput_groups, latency_groups, alloc_proxy_benchmark_ids, first_segment, benchmark_threshold,
  latency_delta_pct, throughput_delta_pct, delta_pct,
}

-- The kinds of the required benchmarks, in their order.
abbrev pub required_kinds : List MetricKind
required_kinds = latency ∷ alloc_proxy ∷ alloc_proxy ∷ throughput ∷ throughput ∷ throughput ∷ []

module _ {F : Type 0} where
  abbrev pub limit : ThresholdConfig F → MetricKind → F
  limit thresholds throughput = thresholds.throughput_threshold_pct
  limit thresholds latency = thresholds.latency_threshold_pct
  limit thresholds alloc_proxy = thresholds.alloc_proxy_threshold_pct

  limit_of :
      (thresholds : ThresholdConfig F) (x y : MetricKind × F)
      → x.1 ≡ limit thresholds x.0
      → ◌≡◌ {A = Result String (MetricKind × F)} (ok x) (ok y)
      → y.1 ≡ limit thresholds y.0
  limit_of thresholds x y h same =
      subst (λ (z : MetricKind × F). z.1 ≡ limit thresholds z.0) (of_ok x y same) h

  pub benchmark_threshold-limit :
      (id : String) (thresholds : ThresholdConfig F) (y : MetricKind × F)
      → benchmark_threshold id thresholds ≡ ok y
      → y.1 ≡ limit thresholds y.0
  unfolding benchmark_threshold
  benchmark_threshold-limit id thresholds y h =
      elim (Bool-cases (contains id alloc_proxy_benchmark_ids)) [
        | inl a ↦
            limit_of thresholds (alloc_proxy, thresholds.alloc_proxy_threshold_pct) y refl
              (rw (a, benchmark_threshold) at h)
        | inr b ↦ elim (Bool-cases (contains (first_segment id) throughput_groups)) [
          | inl a ↦
              limit_of thresholds (throughput, thresholds.throughput_threshold_pct) y refl
                (rw (b, a, benchmark_threshold) at h)
          | inr c ↦ elim (Bool-cases (contains (first_segment id) latency_groups)) [
            | inl a ↦
                limit_of thresholds (latency, thresholds.latency_threshold_pct) y refl
                  (rw (b, c, a, benchmark_threshold) at h)
            | inr d ↦ let refused = rw (b, c, d, benchmark_threshold) at h in cc
          ]
        ]
      ]

  abbrev pub kind_or : MetricKind → Result String (MetricKind × F) → MetricKind
  kind_or k (err e) = k
  kind_or k (ok x) = x.0

  abbrev pub kinds_of : ThresholdConfig F → List String → List MetricKind
  kinds_of thresholds [] = []
  kinds_of thresholds (id ∷ rest) =
      kind_or latency (benchmark_threshold id thresholds) ∷ kinds_of thresholds rest

  pub kinds_of-required :
      (thresholds : ThresholdConfig F) → kinds_of thresholds required_benchmark_ids ≡ required_kinds
  unfolding benchmark_threshold first_segment
  kinds_of-required thresholds = refl

module _ {F : Type 0} (f : Float F) where
  -- The change in percent: for a throughput, by how much the operations per second fell; for a latency, by
  -- how much the time rose; both with respect to the baseline.
  abbrev pub IsChange : MetricKind → F → F → F → Type 0
  IsChange throughput b c d =
      (f.le b f.zero_point ≡ false)
      × (f.le c f.zero_point ≡ false)
      × (d
          ≡ f.mul (f.div (f.sub (f.div f.billion b) (f.div f.billion c)) (f.div f.billion b))
              f.hundred)
  IsChange latency b c d =
      (f.le b f.zero_point ≡ false) × (d ≡ f.mul (f.div (f.sub c b) b) f.hundred)
  IsChange alloc_proxy b c d =
      (f.le b f.zero_point ≡ false) × (d ≡ f.mul (f.div (f.sub c b) b) f.hundred)

  latency-IsChange :
      (b c d : F)
      → latency_delta_pct f b c ≡ ok d
      → (f.le b f.zero_point ≡ false) × (d ≡ f.mul (f.div (f.sub c b) b) f.hundred)
  unfolding latency_delta_pct
  latency-IsChange b c d h = elim (Bool-cases (f.le b f.zero_point)) [
    | inl bad ↦ let refused = rw (bad, latency_delta_pct) at h in cc
    | inr good ↦ (good, sym (of_ok _ d (rw (good, latency_delta_pct) at h)))
  ]

  pub delta_pct-IsChange :
      (k : MetricKind) (b c d : F) → delta_pct f k b c ≡ ok d → IsChange k b c d
  unfolding delta_pct throughput_delta_pct
  delta_pct-IsChange latency b c d h = latency-IsChange b c d h
  delta_pct-IsChange alloc_proxy b c d h = latency-IsChange b c d h
  delta_pct-IsChange throughput b c d h = elim (Bool-cases (f.le b f.zero_point)) [
    | inl bad ↦ let refused = rw (bad, throughput_delta_pct) at h in cc
    | inr good ↦ elim (Bool-cases (f.le c f.zero_point)) [
      | inl bad ↦ let refused = rw (good, bad, throughput_delta_pct) at h in cc
      | inr fine ↦ (good, fine, sym (of_ok _ d (rw (good, fine, throughput_delta_pct) at h)))
    ]
  ]
