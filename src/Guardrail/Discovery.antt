-- ===== src/Guardrail/Discovery.antt =====
-- The raw samples that the discovery finds, against the layouts of the directories written out.
use up_streamer_rust.Base.{
  String, ◌≡◌, refl, sym, ap, ◌∙◌, inl, inr, Bool, true, false, Option, none, some, if◌then◌else◌,
  ok, Bool-cases, Option-cases, and_then_ok, ◌==◌, nat_equality, string_equality, option_equality,
  pair_equality, beq_self, eq_of_beq,
}
use mathlib.Core.Path.{subst}
use Prim.Native.String.{◌++◌}
use up_streamer_rust.Guardrail.Middle.{or_text_ok}
use up_streamer_rust.Guardrail.Samples.{or_text}
use up_streamer_rust.Guardrail.Evaluate.{
  Files, join, is_named, benchmark_dir, benchmark_id_of, classify_named_raw_csv_path,
}

-- A benchmark, the path of its samples, and whether they lie beside the name of the comparison.
abbrev pub Found : Type 0
Found = String × (String × Bool)

module _ (files : Files) (criterion_root comparison_name : String) where
  -- The file lies in the directory of the comparison (`direct`), or in a directory `new` below that one, and
  -- `dir` is the directory above.
  abbrev pub LaysOut : String → String → Bool → Type 0
  LaysOut path dir true =
      (parent : String) × (files.parent path ≡ some parent)
      × (files.file_name parent ≡ some comparison_name)
      × (files.parent parent ≡ some dir)
  LaysOut path dir false =
      (new_dir : String) × (above : String) × (files.parent path ≡ some new_dir)
      × (files.file_name new_dir ≡ some "new")
      × (("new" == comparison_name) ≡ false)
      × (files.parent new_dir ≡ some above)
      × (files.file_name above ≡ some comparison_name)
      × (files.parent above ≡ some dir)

  -- The samples of this benchmark are those of the file at this path.
  pub record IsLaid (s : Found) : Type 0 where
    dir : String
    relative : String
    layout : LaysOut s.1.0 dir s.1.1
    stripped : files.strip_prefix dir criterion_root ≡ ok relative
    named : s.0 ≡ join "/" (files.components relative)
    filled : (s.0 == "") ≡ false

  is_named-file_name :
      (p name : String) → is_named files (some p) name ≡ true → files.file_name p ≡ some name
  is_named-file_name p name h = elim (Option-cases (files.file_name p)) [
    | inl e ↦ let no = rw (e, is_named) at h in cc
    | inr (c, e) ↦ e ∙ ap some (eq_of_beq c name (rw (e, is_named) at h))
  ]

  pair_of :
      (a b : Option String) (x y : Bool)
      → ◌≡◌ {A = Option String × Bool} (a, x) (b, y)
      → (a ≡ b) × (x ≡ y)
  pair_of a b x y h = (ap (λ z. z.0) h, ap (λ z. z.1) h)

  benchmark_dir-LaysOut :
      (path p dir : String) (direct : Bool)
      → files.parent path ≡ some p
      → benchmark_dir files p comparison_name ≡ (some dir, direct)
      → LaysOut path dir direct
  unfolding benchmark_dir
  benchmark_dir-LaysOut path p dir direct at_path h =
      elim (Bool-cases (is_named files (some p) comparison_name)) [
        | inl own ↦
            let (above, is) = pair_of _ _ _ _ (rw (own, benchmark_dir) at h) in
            subst (LaysOut path dir) is
              (p, at_path, is_named-file_name p comparison_name own, above)
        | inr not_own ↦ elim (Bool-cases (is_named files (some p) "new")) [
          | inr other ↦ let no = rw (not_own, other, benchmark_dir) at h in cc
          | inl new ↦ elim (Option-cases (files.parent p)) [
            | inl no_parent ↦ let no = rw (not_own, new, no_parent, benchmark_dir) at h in cc
            | inr (above, at_p) ↦ elim (Bool-cases (is_named files (some above) comparison_name)) [
              | inr other ↦ let no = rw (not_own, new, at_p, other, benchmark_dir) at h in cc
              | inl named ↦
                  let (last, is) =
                    pair_of _ _ _ _ (rw (not_own, new, at_p, named, benchmark_dir) at h) in
                  subst (LaysOut path dir) is (
                    p,
                    above,
                    at_path,
                    is_named-file_name p "new" new,
                    rw (is_named-file_name p "new" new, is_named) at not_own,
                    at_p,
                    is_named-file_name above comparison_name named,
                    last,
                  )
            ]
          ]
        ]
      ]

  is_named_self :
      (p name : String) → files.file_name p ≡ some name → is_named files (some p) name ≡ true
  is_named_self p name h = rw (h, is_named) (beq_self name)

  LaysOut-benchmark_dir :
      (path dir : String) (direct : Bool)
      → LaysOut path dir direct
      → (p : String) × (files.parent path ≡ some p)
        × (benchmark_dir files p comparison_name ≡ (some dir, direct))
  unfolding benchmark_dir
  LaysOut-benchmark_dir path dir true (p, at_path, own, above) =
      (p, at_path, rw (is_named_self p comparison_name own, benchmark_dir, above) refl)
  LaysOut-benchmark_dir path dir false (p, q, at_path, new, not_own, above, named, last) = (
    p,
    at_path,
    rw (new, is_named, benchmark_dir)
        (rw (not_own, above) (rw (is_named_self q comparison_name named, last) refl)),
  )

  benchmark_id_of-IsLaid :
      (path : String) (x : Option String × Bool) (s : Found)
      → ((dir : String) → x.0 ≡ some dir → LaysOut path dir x.1)
      → benchmark_id_of files criterion_root path x ≡ ok (some s)
      → (s.1.0 ≡ path) × IsLaid s
  unfolding benchmark_id_of
  benchmark_id_of-IsLaid path (none, direct) s laid h = cc
  benchmark_id_of-IsLaid path (some dir, direct) s laid h =
      let (relative, stripped, last) =
        and_then_ok
          (or_text
            ("failed to derive benchmark id from `" ++ dir ++ "` under criterion root `"
              ++ criterion_root ++ "`: ")
            (files.strip_prefix dir criterion_root))
          (λ (relative : String).
            let benchmark_id = join "/" (files.components relative) in
            if benchmark_id == "" then ok none else ok (some (benchmark_id, (path, direct))))
          (some s) h in
      elim (Bool-cases (join "/" (files.components relative) == "")) [
        | inl empty ↦ let no = rw empty at last in cc
        | inr filled ↦
            let same : ◌≡◌ {A = Found} (join "/" (files.components relative), (path, direct)) s =
              cc (rw filled at last) in
            subst (λ (z : Found). (z.1.0 ≡ path) × IsLaid z) same
              (
                refl,
                record {
                  dir = dir;
                  relative = relative;
                  layout = laid dir refl;
                  stripped = or_text_ok _ _ relative stripped;
                  named = refl;
                  filled = filled;
                },
              )
      ]

  -- What the classification of a path finds is laid out so.
  pub classified-IsLaid :
      (path : String) (s : Found)
      → classify_named_raw_csv_path files criterion_root path comparison_name ≡ ok (some s)
      → (s.1.0 ≡ path) × IsLaid s
  unfolding classify_named_raw_csv_path
  classified-IsLaid path s h = elim (Option-cases (files.parent path)) [
    | inl none_there ↦ let no = rw (none_there, classify_named_raw_csv_path) at h in cc
    | inr (p, at_path) ↦
        benchmark_id_of-IsLaid path (benchmark_dir files p comparison_name) s
          (λ dir found.
            benchmark_dir-LaysOut path p dir (benchmark_dir files p comparison_name).1 at_path
              (ap (λ d. (d, (benchmark_dir files p comparison_name).1)) found))
          (rw (at_path, classify_named_raw_csv_path) at h)
  ]

  pub IsLaid-classified :
      (s : Found)
      → IsLaid s
      → classify_named_raw_csv_path files criterion_root s.1.0 comparison_name ≡ ok (some s)
  unfolding classify_named_raw_csv_path benchmark_id_of
  IsLaid-classified (id, (path, direct)) l =
      let (p, at_path, made) = LaysOut-benchmark_dir path l.dir direct l.layout in
      rw (at_path, classify_named_raw_csv_path)
        (rw (made, benchmark_id_of) (rw l.stripped (rw (sym l.named) (rw l.filled refl))))
