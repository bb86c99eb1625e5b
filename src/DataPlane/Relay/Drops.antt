-- ===== src/DataPlane/Relay/Drops.antt =====
-- Lists with entries left out.
use up_streamer_rust.Base.{
  ℕ, suc, ◌≡◌, refl, sym, ap, List, [], ◌∷◌, ◌++◌, arith, nat_equality, string_equality,
  option_equality, pair_equality,
}
use mathlib.Core.Path.{subst}

-- `xs` is `ys` with `n` entries left out.
pub data Drops {A : Type 0} : ℕ → List A → List A → Type 0 where
  done : Drops 0 [] []
  keeps : {n : ℕ} (x : A) {xs ys : List A} → Drops n xs ys → Drops n (x ∷ xs) (x ∷ ys)
  skips : {n : ℕ} (y : A) {xs ys : List A} → Drops n xs ys → Drops (suc n) xs (y ∷ ys)

module _ {A : Type 0} where
  pub Drops-self : (xs : List A) → Drops 0 xs xs
  Drops-self [] = done
  Drops-self (x ∷ xs) = keeps x (Drops-self xs)

  pub Drops-append :
      {n : ℕ} {xs ys : List A} (zs : List A) → Drops n xs ys → Drops n (xs ++ zs) (ys ++ zs)
  Drops-append zs done = Drops-self zs
  Drops-append zs (keeps x d) = keeps x (Drops-append zs d)
  Drops-append zs (skips y d) = skips y (Drops-append zs d)

  Drops-first :
      {n : ℕ} {ys : List A} (x : A) (xs : List A) → Drops n (x ∷ xs) ys → Drops (suc n) xs ys
  Drops-first x xs (keeps _ d) = skips x d
  Drops-first x xs (skips y d) = skips y (Drops-first x xs d)

  -- One more entry is left out, after those of `sent`.
  pub Drops-oldest :
      {n : ℕ} (sent : List A) (x : A) (xs ys : List A)
      → Drops n (sent ++ (x ∷ xs)) ys
      → Drops (suc n) (sent ++ xs) ys
  Drops-oldest [] x xs ys d = Drops-first x xs d
  Drops-oldest (s ∷ sent) x xs [] d = elim d [ ]
  Drops-oldest (s ∷ sent) x xs (y ∷ ys) (keeps _ d) = keeps s (Drops-oldest sent x xs ys d)
  Drops-oldest (s ∷ sent) x xs (y ∷ ys) (skips _ d) = skips y (Drops-oldest (s ∷ sent) x xs ys d)

  -- Nothing is left out.
  pub Drops-none : {xs ys : List A} → Drops 0 xs ys → xs ≡ ys
  Drops-none d = all d refl
    where
      all : {n : ℕ} {xs ys : List A} → Drops n xs ys → n ≡ 0 → xs ≡ ys
      all done e = refl
      all (keeps x d) e = ap (λ t. x ∷ t) (all d e)
      all (skips y d) e = ground (arith, e)

  pub Drops-moved :
      {n m : ℕ} {xs xs' ys : List A} → m ≡ n → xs' ≡ xs → Drops n xs ys → Drops m xs' ys
  Drops-moved {m = m} {xs = xs} {ys = ys} e f d =
      subst (λ zs. Drops m zs ys) (sym f) (subst (λ i. Drops i xs ys) (sym e) d)
