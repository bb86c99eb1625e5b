-- ===== src/Base/Map.antt =====
-- A hash map as an association list with distinct keys. `insert` writes in place or appends, so
-- the order of the entries is one of those in which the hash map may be iterated.
use mathlib.Core.Path.{◌≡◌, refl}
use mathlib.Core.Option.{Option, none, some}
use mathlib.Core.Logic.{inl, inr}
use mathlib.Core.List.{List, [], ◌∷◌}
use native.Mathlib.Omega.{arith}
use up_streamer_rust.Base.Tests.{if◌then◌else◌, Option-cases}
use up_streamer_rust.Base.Eq.{Equality, ◌==◌}

abbrev pub Map {ℓ} : Type ℓ → Type ℓ → Type ℓ
Map K V = List (K × V)

module _ {ℓ} {K V : Type ℓ} where
  abbrev pub keys : Map K V → List K
  keys [] = []
  keys ((k, v) ∷ m) = k ∷ keys m

  abbrev pub values : Map K V → List V
  values [] = []
  values ((k, v) ∷ m) = v ∷ values m

module _ {ℓ} {K V : Type ℓ} ⦃e : Equality K⦄ where
  unfoldable pub get : K → Map K V → Option V
  get k [] = none
  get k ((j, v) ∷ m) = if j == k then some v else get k m

  unfoldable pub insert : K → V → Map K V → Map K V
  insert k v [] = (k, v) ∷ []
  insert k v ((j, w) ∷ m) = if j == k then (j, v) ∷ m else (j, w) ∷ insert k v m

  unfoldable pub remove : K → Map K V → Map K V
  remove k [] = []
  remove k ((j, w) ∷ m) = if j == k then remove k m else (j, w) ∷ remove k m

  -- `entry(k).or_insert(v)`: an entry that is there stays.
  unfoldable pub or_insert : K → V → Map K V → Map K V
  unfolding get insert
  or_insert k v m = elim (get k m) [ none ↦ insert k v m | some w ↦ m ]

  pub get-insert :
      (k j : K) (v : V) (m : Map K V) → get j (insert k v m) ≡ (if k == j then some v else get j m)
  unfolding get insert
  get-insert k j v [] = refl
  get-insert k j v ((i, w) ∷ m) =
      ground (arith, e.beq_iff k j, e.beq_iff i k, e.beq_iff i j, get-insert k j v m)

  pub get-remove : (k j : K) (m : Map K V) → get j (remove k m) ≡ (if k == j then none else get j m)
  unfolding get remove
  get-remove k j [] = ground arith
  get-remove k j ((i, w) ∷ m) =
      ground (arith, e.beq_iff k j, e.beq_iff i k, e.beq_iff i j, get-remove k j m)

  pub get-or_insert :
      (k j : K) (v : V) (m : Map K V)
      → get j (or_insert k v m)
        ≡ (if k == j then elim (get k m) [ none ↦ some v | some w ↦ some w ] else get j m)
  unfolding or_insert
  get-or_insert k j v m = ground (arith, get-insert k j v m, e.beq_iff k j)

  pub or_insert_present : (k : K) (v w : V) (m : Map K V) → get k m ≡ some w → or_insert k v m ≡ m
  unfolding or_insert
  or_insert_present k v w m e = rw (e, or_insert) refl

  -- What stood in the map stays, and there is something under the key then.
  pub or_insert_keeps :
      (k j : K) (v w : V) (m : Map K V) → get j m ≡ some w → get j (or_insert k v m) ≡ some w
  or_insert_keeps k j v w m h = ground (arith, get-or_insert k j v m, e.beq_iff k j)

  pub get-or_insert_self :
      (k : K) (v : V) (m : Map K V) → (w : V) × (get k (or_insert k v m) ≡ some w)
  get-or_insert_self k v m = elim (Option-cases (get k m)) [
    | inl none_there ↦ (v, ground (arith, get-or_insert k k v m, e.beq_iff k k))
    | inr (w, there) ↦ (w, or_insert_keeps k k v w m there)
  ]

  -- `or_insert` where the key is absent.
  pub get-or_insert_absent :
      (k j : K) (v : V) (m : Map K V)
      → get k m ≡ none
      → get j (or_insert k v m) ≡ (if k == j then some v else get j m)
  get-or_insert_absent k j v m h = rw (get-or_insert, h) refl

  pub remove_absent : (k : K) (m : Map K V) → get k m ≡ none → remove k m ≡ m
  unfolding get remove
  remove_absent k [] h = refl
  remove_absent k ((j, w) ∷ m) h = ground (arith, remove_absent k m)

  pub get-insert_self : (k : K) (v : V) (m : Map K V) → get k (insert k v m) ≡ some v
  get-insert_self k v m = rw get-insert (ground (arith, e.beq_iff k k))
