-- ===== src/SmokeSuite/Logs/Waiting.antt =====
-- The wait for a marker ends.
use up_streamer_rust.Base.{
  String, ◌≡◌, refl, ap, ◌∙◌, ◌⊎◌, inl, inr, true, false, none, some, List, [], ◌∷◌, arith, ltb,
  Result, ok, err, Bool-cases, Result-cases, of_ok, ◌==◌, nat_equality, string_equality,
  option_equality, pair_equality, eq_of_beq,
}
use up_streamer_rust.Base.Lists.{any, count}
use up_streamer_rust.SmokeSuite.Host.{Failure}
use up_streamer_rust.SmokeSuite.Logs.{
  LogOps, Log, count_exact_marker, has_exact_marker, Look, look, timed_out, wait_for_exact_marker,
}

module _ (o : LogOps) (log_path marker : String) where
  -- One of the lines is the marker, up to what is trimmed at its end.
  abbrev pub HasMarker : List String → Type 0
  HasMarker [] = ⊥
  HasMarker (line ∷ rest) = (o.trim_end line ≡ marker) ⊎ HasMarker rest

  -- The log could be read at a look, and the marker stood in it.
  pub record Stands (l : Look) : Type 0 where
    text : String
    readable : l.searched ≡ some (ok text)
    there : HasMarker (o.lines text)

  -- The marker stood in the log at one of the looks.
  abbrev pub Stood : List Look → Type 0
  Stood [] = ⊥
  Stood (l ∷ rest) = Stands l ⊎ Stood rest

  -- An answer, which is a success only if the marker stood in the log.
  pub record IsAnswered (looks : List Look) : Type 0 where
    answer : Result Failure (Unit {0})
    answered : wait_for_exact_marker o log_path marker looks ≡ some answer
    seen : answer ≡ ok tt → Stood looks

  counted-HasMarker :
      (xs : List String)
      → ltb 0 (count (λ line. o.trim_end line == marker) xs) ≡ true
      → HasMarker xs
  counted-HasMarker [] h = ground (arith, h)
  counted-HasMarker (x ∷ xs) h = elim (Bool-cases (o.trim_end x == marker)) [
    | inl same ↦ inl (eq_of_beq (o.trim_end x) marker same)
    | inr other ↦ inr (counted-HasMarker xs (rw other at h))
  ]

  read-HasMarker :
      (log : Log)
      → has_exact_marker o log_path log marker ≡ ok true
      → (text : String) × ((log ≡ some (ok text)) × HasMarker (o.lines text))
  unfolding has_exact_marker count_exact_marker
  read-HasMarker none h = let same = of_ok _ true h in ground (arith, same)
  read-HasMarker (some (err e)) h = cc
  read-HasMarker (some (ok text)) h =
      (text, (refl, counted-HasMarker (o.lines text) (of_ok _ true h)))

  found-Stands : (l : Look) → has_exact_marker o log_path l.searched marker ≡ ok true → Stands l
  found-Stands l h =
      let (text, (readable, there)) = read-HasMarker l.searched h in
      record { text = text; readable = readable; there = there }

  data Looked (l : Look) : Type 0 where
    failed : (e : Failure) → look o log_path marker l ≡ some (err e) → Looked l
    found : look o log_path marker l ≡ some (ok tt) → Stands l → Looked l
    again : look o log_path marker l ≡ none → l.late ≡ false → Looked l

  looked : (l : Look) → Looked l
  unfolding look
  looked l = elim (Result-cases (has_exact_marker o log_path l.searched marker)) [
    | inr (e, bad) ↦ failed e (rw (bad, look) refl)
    | inl (b, good) ↦ elim (Bool-cases b) [
      | inl there ↦ found (rw (good, look) (rw there refl)) (found-Stands l (good ∙ ap ok there))
      | inr absent ↦ elim (Bool-cases l.late) [
        | inl late ↦
            failed (timed_out o log_path marker l) (rw (good, look) (rw (absent, late) refl))
        | inr early ↦ again (rw (good, look) (rw (absent, early) refl)) early
      ]
    ]
  ]

  -- The wait for a marker returns at the latest at the first look after the deadline, and it only succeeds if the
  -- marker stood in the log at one of the looks.
  pub wait_for_exact_marker-IsAnswered :
      (looks : List Look) → any (λ l. l.late) looks ≡ true → IsAnswered looks
  unfolding wait_for_exact_marker
  wait_for_exact_marker-IsAnswered [] h = cc
  wait_for_exact_marker-IsAnswered (l ∷ rest) h = elim (looked l) [
    | failed e same ↦ record { answer = err e; answered = rw same refl; seen = λ good. cc }
    | found same there ↦ record {
      answer = ok tt;
      answered = rw same refl;
      seen = λ good. inl there;
    }
    | again same early ↦
        let r = wait_for_exact_marker-IsAnswered rest (rw early at h) in
        record {
          answer = r.answer;
          answered = rw same r.answered;
          seen = λ good. inr (r.seen good);
        }
  ]
