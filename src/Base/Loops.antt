-- ===== src/Base/Loops.antt =====
-- Loops over a list whose body changes a state and may stop the loop with an error.
use mathlib.Core.Path.{◌≡◌, refl, sym, ◌∙◌}
use mathlib.Core.List.{List, [], ◌∷◌, ◌++◌}
use up_streamer_rust.Base.Tests.{Result, ok, err}

module _ {ℓ} {E S : Type ℓ} where
  -- `?` on the answer of a step that also changes the state.
  abbrev pub and_then_with :
      Result E (Unit {ℓ}) × S → (S → Result E (Unit {ℓ}) × S) → Result E (Unit {ℓ}) × S
  and_then_with (ok u, s) next = next s
  and_then_with (err e, s) next = (err e, s)

  -- `?` on an answer with a value.
  abbrev pub then_with : {A B : Type ℓ} → Result E A × S → (A → S → Result E B × S) → Result E B × S
  then_with (ok a, s) next = next a s
  then_with (err e, s) next = (err e, s)

  unfoldable pub for_each :
      {A : Type ℓ} → (A → S → Result E (Unit {ℓ}) × S) → List A → S → Result E (Unit {ℓ}) × S
  for_each body [] s = (ok tt, s)
  for_each body (x ∷ xs) s = and_then_with (body x s) (for_each body xs)

module _ {ℓ κ} {E S A : Type ℓ} (P : S → Type κ) (body : A → S → Result E (Unit {ℓ}) × S)
    (keeps : (x : A) (s : S) → P s → P (body x s).1) where
  then_keeps :
      (x : Result E (Unit {ℓ}) × S) (next : S → Result E (Unit {ℓ}) × S)
      → P x.1
      → ((s : S) → P s → P (next s).1)
      → P (and_then_with x next).1
  then_keeps (ok u, s) next p h = h s p
  then_keeps (err e, s) next p h = p

  -- What every step keeps, the loop keeps, whether it ends or is left.
  pub for_each_inv : (xs : List A) (s : S) → P s → P (for_each body xs s).1
  unfolding for_each
  for_each_inv [] s p = p
  for_each_inv (x ∷ xs) s p =
      then_keeps (body x s) (for_each body xs) (keeps x s p) (for_each_inv xs)

module _ {ℓ} {E S : Type ℓ} where
  and_then_with_assoc :
      (x : Result E (Unit {ℓ}) × S) (first second : S → Result E (Unit {ℓ}) × S)
      → and_then_with (and_then_with x first) second
        ≡ and_then_with x (λ s. and_then_with (first s) second)
  and_then_with_assoc (ok u, s) first second = refl
  and_then_with_assoc (err e, s) first second = refl

  pub and_then_with_cong :
      (x : Result E (Unit {ℓ}) × S) (f g : S → Result E (Unit {ℓ}) × S)
      → ((s : S) → f s ≡ g s)
      → and_then_with x f ≡ and_then_with x g
  and_then_with_cong (ok u, s) f g same = same s
  and_then_with_cong (err e, s) f g same = refl

module _ {ℓ} {E S A : Type ℓ} (body : A → S → Result E (Unit {ℓ}) × S) where
  -- A loop over two lists in a row is two loops.
  pub for_each-append :
      (xs ys : List A) (s : S)
      → for_each body (xs ++ ys) s ≡ and_then_with (for_each body xs s) (for_each body ys)
  unfolding for_each
  for_each-append [] ys s = refl
  for_each-append (x ∷ xs) ys s =
      and_then_with_cong (body x s) (for_each body (xs ++ ys))
        (λ t. and_then_with (for_each body xs t) (for_each body ys)) (for_each-append xs ys)
      ∙ sym (and_then_with_assoc (body x s) (for_each body xs) (for_each body ys))

module _ {ℓ} {E S A B : Type ℓ} where
  -- Where a chain succeeds, so did its first step.
  pub then_with_ok :
      (x : Result E A × S) (next : A → S → Result E B × S) (b : B)
      → (then_with x next).0 ≡ ok b
      → (a : A) × (x.0 ≡ ok a) × (then_with x next ≡ next a x.1)
  then_with_ok (ok a, s) next b h = (a, refl, refl)
  then_with_ok (err e, s) next b h = cc
