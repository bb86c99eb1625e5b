-- ===== src/Base/Lists.antt =====
-- Lists over the native numbers, counting, and lists without repetition that stand for hash sets.
use Prim.Native.Nat.{ℕ, suc, ◌+◌, ◌≤◌}
use mathlib.Core.Path.{◌≡◌, refl, ap}
use mathlib.Core.Bool.{Bool, true, false, ◌||◌}
use mathlib.Core.List.{List, [], ◌∷◌, ◌++◌}
use native.Mathlib.Omega.{arith}
use up_streamer_rust.Base.Tests.{if◌then◌else◌}
use up_streamer_rust.Base.Eq.{Equality, ◌==◌, beq_self}

module _ {ℓ} {A : Type ℓ} where
  abbrev pub length : List A → ℕ
  length [] = 0
  length (x ∷ xs) = suc (length xs)

  abbrev pub any : (A → Bool) → List A → Bool
  any p [] = false
  any p (x ∷ xs) = p x || any p xs

  -- How many entries pass the test.
  abbrev pub count : (A → Bool) → List A → ℕ
  count p [] = 0
  count p (x ∷ xs) = if p x then suc (count p xs) else count p xs

  -- `Vec::push`
  abbrev pub push : List A → A → List A
  push xs x = xs ++ (x ∷ [])

  pub append_nil : (xs : List A) → (xs ++ []) ≡ xs
  append_nil [] = refl
  append_nil (x ∷ xs) = ap (λ t. x ∷ t) (append_nil xs)

  pub append_assoc : (xs ys zs : List A) → ((xs ++ ys) ++ zs) ≡ (xs ++ (ys ++ zs))
  append_assoc [] ys zs = refl
  append_assoc (x ∷ xs) ys zs = ap (λ t. x ∷ t) (append_assoc xs ys zs)

  pub count-le-length : (p : A → Bool) (xs : List A) → count p xs ≤ length xs
  count-le-length p [] = omega arith
  count-le-length p (x ∷ xs) = ground (arith, count-le-length p xs)

  pub any-append : (p : A → Bool) (xs ys : List A) → any p (xs ++ ys) ≡ (any p xs || any p ys)
  any-append p [] ys = refl
  any-append p (x ∷ xs) ys = ground (arith, any-append p xs ys)

module _ {ℓ} {A : Type ℓ} ⦃e : Equality A⦄ where
  abbrev pub contains : A → List A → Bool
  contains a [] = false
  contains a (x ∷ xs) = x == a || contains a xs

  -- The first entry equal to `a` is dropped.
  abbrev pub erase : A → List A → List A
  erase a [] = []
  erase a (x ∷ xs) = if x == a then xs else x ∷ erase a xs

  -- No entry stands twice.
  abbrev pub Distinct : List A → Type 0
  Distinct [] = Unit
  Distinct (x ∷ xs) = (contains x xs ≡ false) × Distinct xs

  pub contains-erase_ne :
      (a b : A) (xs : List A) → (b == a) ≡ false → contains a (erase b xs) ≡ contains a xs
  contains-erase_ne a b [] h = refl
  contains-erase_ne a b (x ∷ xs) h =
      ground (arith, contains-erase_ne a b xs h, e.beq_iff x a, e.beq_iff x b, e.beq_iff b a)

  pub contains-erase_self : (a : A) (xs : List A) → Distinct xs → contains a (erase a xs) ≡ false
  contains-erase_self a [] d = refl
  contains-erase_self a (x ∷ xs) d = ground (arith, contains-erase_self a xs d.1, e.beq_iff x a)

  contains-erase-false :
      (a b : A) (xs : List A) → contains a xs ≡ false → contains a (erase b xs) ≡ false
  contains-erase-false a b [] h = refl
  contains-erase-false a b (x ∷ xs) h = ground (arith, contains-erase-false a b xs)

  pub erase-Distinct : (a : A) (xs : List A) → Distinct xs → Distinct (erase a xs)
  erase-Distinct a [] d = tt
  erase-Distinct a (x ∷ xs) d =
      ground (arith, erase-Distinct a xs d.1, contains-erase-false x a xs d.0)

  pub erase_head : (a : A) (xs : List A) → erase a (a ∷ xs) ≡ xs
  erase_head a xs = ground (arith, beq_self a)

  pub count-erase :
      (p : A → Bool) (a : A) (xs : List A)
      → contains a xs ≡ true
      → count p xs ≡ (if p a then 1 else 0) + count p (erase a xs)
  count-erase p a [] h = ground arith
  count-erase p a (x ∷ xs) h = ground (arith, count-erase p a xs, e.beq_iff x a)

  pub length-erase :
      (a : A) (xs : List A) → contains a xs ≡ true → length xs ≡ suc (length (erase a xs))
  length-erase a [] h = ground arith
  length-erase a (x ∷ xs) h = ground (arith, length-erase a xs)

  pub erase-eq_self : (a : A) (xs : List A) → contains a xs ≡ false → erase a xs ≡ xs
  erase-eq_self a [] h = refl
  erase-eq_self a (x ∷ xs) h = ground (arith, erase-eq_self a xs)
