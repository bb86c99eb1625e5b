-- ===== src/Guardrail/Walk.antt =====
-- What the discovery answers, against the entries of the walk.
use up_streamer_rust.Base.{
  String, ◌≡◌, refl, sym, ap, ◌∙◌, ◌⊎◌, inl, inr, true, not, ◌||◌, Option, none, some, List, [],
  ◌∷◌, arith, Result, ok, err, Bool-cases, and_then_ok, of_ok, ◌==◌, nat_equality, string_equality,
  option_equality, pair_equality,
}
use mathlib.Core.Path.{subst}
use up_streamer_rust.Base.Map.{Map, get}
use up_streamer_rust.Guardrail.Evaluate.{
  Entry, Files, classify_named_raw_csv_path, note, discover_entries, discover_named_raw_csvs,
}
use up_streamer_rust.Guardrail.Discovery.{Found, IsLaid, classified-IsLaid, IsLaid-classified}
use up_streamer_rust.Guardrail.Choice.{some_eq, IsChosen, AllChosen, IsChosen-map, note-AllChosen}

module _ (files : Files) (criterion_root comparison_name : String) where
  -- The entry of the walk is a file raw.csv with these samples.
  pub record IsSample (x : Result String Entry) (s : Found) : Type 0 where
    entry : Entry
    opened : x ≡ ok entry
    is_file : entry.is_file ≡ true
    is_raw : (entry.file_name == "raw.csv") ≡ true
    path : s.1.0 ≡ entry.path
    laid : IsLaid files criterion_root comparison_name s

  -- One of the entries has these samples.
  abbrev pub Sampled : List (Result String Entry) → Found → Type 0
  Sampled [] s = ⊥
  Sampled (x ∷ rest) s = IsSample x s ⊎ Sampled rest s

  same_entry : (e e' : Entry) → ◌≡◌ {A = Result String Entry} (ok e) (ok e') → e ≡ e'
  same_entry e e' h = of_ok e e' h

  IsSample-classified :
      (e : Entry) (s : Found)
      → IsSample (ok e) s
      → classify_named_raw_csv_path files criterion_root e.path comparison_name ≡ ok (some s)
  IsSample-classified e s i =
      subst (λ p. classify_named_raw_csv_path files criterion_root p comparison_name ≡ ok (some s))
        (i.path ∙ ap (λ (x : Entry). x.path) (sym (of_ok e i.entry i.opened)))
        (IsLaid-classified files criterion_root comparison_name s i.laid)

  classified-IsSample :
      (e : Entry) (s : Found)
      → e.is_file ≡ true
      → (e.file_name == "raw.csv") ≡ true
      → classify_named_raw_csv_path files criterion_root e.path comparison_name ≡ ok (some s)
      → IsSample (ok e) s
  classified-IsSample e s is_file is_raw h =
      let (path, laid) = classified-IsLaid files criterion_root comparison_name e.path s h in
      record {
        entry = e;
        opened = refl;
        is_file = is_file;
        is_raw = is_raw;
        path = path;
        laid = laid;
      }

  noted-AllChosen :
      (S : Found → Type 0) (e : Entry) (found : Option Found) (m : Map String String)
      → e.is_file ≡ true
      → (e.file_name == "raw.csv") ≡ true
      → classify_named_raw_csv_path files criterion_root e.path comparison_name ≡ ok found
      → AllChosen files S m
      → AllChosen files (λ s. IsSample (ok e) s ⊎ S s) (note files found m)
  unfolding note
  noted-AllChosen S e none m is_file is_raw c h id =
      IsChosen-map files S (λ s. IsSample (ok e) s ⊎ S s) (λ s old. inr old)
        (λ s t. elim t [
          | inl i ↦ absurd (clash s (sym c ∙ IsSample-classified e s i))
          | inr old ↦ old
        ])
        id (get id m) (h id)
    where
      clash : (s : Found) → ◌≡◌ {A = Result String (Option Found)} (ok none) (ok (some s)) → ⊥
      clash s h = cc h
  noted-AllChosen S e (some s0) m is_file is_raw c h id =
      IsChosen-map files (λ s. (s0 ≡ s) ⊎ S s) (λ s. IsSample (ok e) s ⊎ S s)
        (λ s t. elim t [
          | inl same ↦ inl (classified-IsSample e s is_file is_raw (c ∙ ap (λ x. ok (some x)) same))
          | inr old ↦ inr old
        ])
        (λ s t. elim t [
          | inl i ↦
              inl (some_eq s0 s (of_ok (some s0) (some s) (sym c ∙ IsSample-classified e s i)))
          | inr old ↦ inr old
        ])
        id (get id (note files (some s0) m)) (note-AllChosen files S s0 m h id)

  skipped-AllChosen :
      (S : Found → Type 0) (e : Entry) (m : Map String String)
      → (not e.is_file || not (e.file_name == "raw.csv")) ≡ true
      → AllChosen files S m
      → AllChosen files (λ s. IsSample (ok e) s ⊎ S s) m
  skipped-AllChosen S e m skip h id =
      IsChosen-map files S (λ s. IsSample (ok e) s ⊎ S s) (λ s old. inr old)
        (λ s t. elim t [ inl i ↦ absurd (not_skipped s i) | inr old ↦ old ]) id (get id m) (h id)
    where
      not_skipped : (s : Found) → IsSample (ok e) s → ⊥
      not_skipped s i =
          let same = of_ok e i.entry i.opened in
          let file = ap (λ (x : Entry). x.is_file) same ∙ i.is_file in
          let raw = ap (λ (x : Entry). x.file_name == "raw.csv") same ∙ i.is_raw in
          ground (arith, skip, file, raw)

  moved :
      (x : Result String Entry) (rest : List (Result String Entry)) (S : Found → Type 0)
      (m : Map String String)
      → AllChosen files (λ s. Sampled rest s ⊎ (IsSample x s ⊎ S s)) m
      → AllChosen files (λ s. Sampled (x ∷ rest) s ⊎ S s) m
  moved x rest S m h id =
      IsChosen-map files (λ s. Sampled rest s ⊎ (IsSample x s ⊎ S s))
        (λ s. Sampled (x ∷ rest) s ⊎ S s)
        (λ s t. elim t [
          | inl later ↦ inl (inr later)
          | inr (inl now) ↦ inl (inl now)
          | inr (inr old) ↦ inr old
        ])
        (λ s t. elim t [
          | inl (inl now) ↦ inr (inl now)
          | inl (inr later) ↦ inl later
          | inr old ↦ inr (inr old)
        ])
        id (get id m) (h id)

  entries-AllChosen :
      (entries : List (Result String Entry)) (S : Found → Type 0) (m m' : Map String String)
      → AllChosen files S m
      → discover_entries files criterion_root comparison_name entries m ≡ ok m'
      → AllChosen files (λ s. Sampled entries s ⊎ S s) m'
  unfolding discover_entries
  entries-AllChosen [] S m m' h done = λ id.
      IsChosen-map files S (λ s. ⊥ ⊎ S s) (λ s old. inr old)
        (λ s t. elim t [ inl none_there ↦ absurd none_there | inr old ↦ old ]) id (get id m')
        (subst (λ x. IsChosen files S id (get id x)) (of_ok m m' done) (h id))
  entries-AllChosen (err x ∷ rest) S m m' h done = cc
  entries-AllChosen (ok e ∷ rest) S m m' h done =
      elim (Bool-cases (not e.is_file || not (e.file_name == "raw.csv"))) [
        | inl skip ↦ moved (ok e) rest S m' (
            entries-AllChosen rest (λ s. IsSample (ok e) s ⊎ S s) m m'
              (skipped-AllChosen S e m skip h) (rw skip at done))
        | inr taken ↦
            let (found, classified, last) =
              and_then_ok (classify_named_raw_csv_path files criterion_root e.path comparison_name)
                (λ found.
                  discover_entries files criterion_root comparison_name rest (note files found m))
                m' (rw taken at done) in
            moved (ok e) rest S m' (
              entries-AllChosen rest (λ s. IsSample (ok e) s ⊎ S s) (note files found m) m'
                (noted-AllChosen S e found m (ground (arith, taken)) (ground (arith, taken))
                  classified h)
                last)
      ]

  -- What the discovery answers: for each benchmark, one of the samples of the walk.
  pub discover-AllChosen :
      (m : Map String String)
      → discover_named_raw_csvs files criterion_root comparison_name ≡ ok m
      → AllChosen files (Sampled (files.walk criterion_root)) m
  unfolding discover_named_raw_csvs get
  discover-AllChosen m h = elim (Bool-cases (files.is_dir criterion_root)) [
    | inr missing ↦ let no_root = rw (missing, discover_named_raw_csvs) at h in cc
    | inl there ↦ λ id.
        IsChosen-map files (λ s. Sampled (files.walk criterion_root) s ⊎ ⊥)
          (Sampled (files.walk criterion_root))
          (λ s t. elim t [ inl sampled ↦ sampled | inr none_there ↦ absurd none_there ])
          (λ s t. inl t) id (get id m)
          (entries-AllChosen (files.walk criterion_root) (λ s. ⊥) [] m
            (λ j p d none_there. none_there) (rw (there, discover_named_raw_csvs) at h) id)
  ]
