-- ===== src/Guardrail/Choice.antt =====
-- Of several raw samples of a benchmark, which one the discovery takes.
use up_streamer_rust.Base.{
  String, ◌≡◌, refl, sym, ap, ◌∙◌, ◌⊎◌, inl, inr, Bool, true, false, ◌&&◌, Option, none, some,
  if◌then◌else◌, Bool-cases, Option-cases, ◌==◌, nat_equality, string_equality, option_equality,
  pair_equality, eq_of_beq, ne_of_beq,
}
use mathlib.Core.Path.{subst}
use up_streamer_rust.Base.Map.{Map, get, get-insert}
use up_streamer_rust.Guardrail.Evaluate.{Files, note}
use up_streamer_rust.Guardrail.Discovery.{Found}

pub some_eq : (s s' : Found) → some s ≡ some s' → s ≡ s'
some_eq s s' h = cc h

module _ (files : Files) where
  -- Among the samples `S`: nothing is noted for a benchmark without any; else one of its samples is noted,
  -- and if the text of its path has "/new/raw.csv" in it, then it lies beside the name of the comparison or
  -- no sample of the benchmark does.
  abbrev pub IsChosen : (Found → Type 0) → String → Option String → Type 0
  IsChosen S id none = (path : String) (direct : Bool) → S (id, (path, direct)) → ⊥
  IsChosen S id (some path) =
      (direct : Bool) × S (id, (path, direct))
      × (files.contains_text path "/new/raw.csv" ≡ true
          → (direct ≡ true) ⊎ ((other : String) → S (id, (other, true)) → ⊥))

  abbrev pub AllChosen : (Found → Type 0) → Map String String → Type 0
  AllChosen S m = (id : String) → IsChosen S id (get id m)

  pub IsChosen-map :
      (S T : Found → Type 0)
      → ((s : Found) → S s → T s)
      → ((s : Found) → T s → S s)
      → (id : String) (o : Option String) → IsChosen S id o
      → IsChosen T id o
  IsChosen-map S T to from id none h = λ p d t. h p d (from _ t)
  IsChosen-map S T to from id (some p) (direct, there, h) = (
    direct,
    to _ there,
    λ c. elim (h c) [
      | inl holds_here ↦ inl holds_here
      | inr none_else ↦ inr (λ q t. none_else q (from _ t))
    ],
  )

  abbrev Added : Found → (Found → Type 0) → Found → Type 0
  Added s0 S s = (s0 ≡ s) ⊎ S s

  kept :
      (S : Found → Type 0) (s0 : Found) (id : String) (o : Option String)
      → (s0.0 == id) ≡ false
      → IsChosen S id o
      → IsChosen (Added s0 S) id o
  kept S s0 id none ne h = λ p d t. elim t [
    | inl e ↦ absurd (ne_of_beq s0.0 id ne (ap (λ x. x.0) e))
    | inr old ↦ h p d old
  ]
  kept S s0 id (some p) ne (direct, there, h) = (
    direct,
    inr there,
    λ c. elim (h c) [
      | inl holds_here ↦ inl holds_here
      | inr none_else ↦ inr (λ q t. elim t [
        | inl e ↦ absurd (ne_of_beq s0.0 id ne (ap (λ x. x.0) e))
        | inr old ↦ none_else q old
      ])
    ],
  )

  abbrev pick : Bool → String → Option String → Option String
  pick direct path none = some path
  pick direct path (some existing) =
      if direct && files.contains_text existing "/new/raw.csv" then some path else some existing

  not_direct : (id p q : String) → ◌≡◌ {A = Found} (id, (p, false)) (id, (q, true)) → ⊥
  not_direct id p q e = let clash : false ≡ true = ap (λ x. x.1.1) e in cc

  picked :
      (S : Found → Type 0) (id path : String) (direct : Bool) (o : Option String)
      → IsChosen S id o
      → IsChosen (Added (id, (path, direct)) S) id (pick direct path o)
  picked S id path true none h = (true, inl refl, λ c. inl refl)
  picked S id path false none h = (
    false,
    inl refl,
    λ c. inr (λ q t. elim t [ inl e ↦ not_direct id path q e | inr old ↦ h q true old ]),
  )
  picked S id path false (some existing) (direct, there, h) = (
    direct,
    inr there,
    λ c. elim (h c) [
      | inl holds_here ↦ inl holds_here
      | inr none_else ↦
          inr (λ q t. elim t [ inl e ↦ not_direct id path q e | inr old ↦ none_else q old ])
    ],
  )
  picked S id path true (some existing) (direct, there, h) =
      elim (Bool-cases (files.contains_text existing "/new/raw.csv")) [
        | inl holds_here ↦ rw holds_here (true, inl refl, λ c. inl refl)
        | inr none_else ↦ rw none_else (direct, inr there, λ c. absurd (clash (sym none_else ∙ c)))
      ]
    where
      clash : false ≡ true → ⊥
      clash e = cc e

  get-note :
      (id path : String) (direct : Bool) (m : Map String String) (j : String)
      → get j (note files (some (id, (path, direct))) m)
        ≡ (if id == j then pick direct path (get id m) else get j m)
  unfolding note
  get-note id path direct m j = elim (Option-cases (get id m)) [
    | inl absent ↦ rw (absent, note) (get-insert id j path m)
    | inr (existing, there) ↦
        elim (Bool-cases (direct && files.contains_text existing "/new/raw.csv")) [
          | inl holds_here ↦ rw (there, note) (rw holds_here (get-insert id j path m))
          | inr none_else ↦
              rw (there, note)
                (rw none_else (elim (Bool-cases (id == j)) [
                  | inl same ↦ rw same (ap (λ x. get x m) (sym (eq_of_beq id j same)) ∙ there)
                  | inr other ↦ rw other refl
                ]))
        ]
  ]

  pub note-AllChosen :
      (S : Found → Type 0) (s0 : Found) (m : Map String String)
      → AllChosen S m
      → AllChosen (Added s0 S) (note files (some s0) m)
  note-AllChosen S (id, (path, direct)) m h j =
      subst (IsChosen (Added (id, (path, direct)) S) j) (sym (get-note id path direct m j))
        (elim (Bool-cases (id == j)) [
          | inr other ↦ rw other (kept S (id, (path, direct)) j (get j m) other (h j))
          | inl same ↦ rw same (
              subst (λ k. IsChosen (Added (id, (path, direct)) S) k (pick direct path (get id m)))
                (eq_of_beq id j same) (picked S id path direct (get id m) (h id)))
        ])
