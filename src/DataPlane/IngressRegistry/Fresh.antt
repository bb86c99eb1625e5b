-- ===== src/DataPlane/IngressRegistry/Fresh.antt =====
-- The keys and addresses of the bindings stay apart.
use up_streamer_rust.Base.{
  ℕ, ◌+◌, ◌≡◌, refl, false, ◌||◌, none, some, [], ◌∷◌, arith, ◌==◌, nat_equality, string_equality,
  option_equality, pair_equality, beq_comm,
}
use up_streamer_rust.Base.Map.{get, insert, remove, get-insert, get-remove}
use up_streamer_rust.DataPlane.IngressRegistry.{
  IngressRouteBinding, IngressRouteBindingKey, ingress_route_binding_key_equality,
}
use up_streamer_rust.DataPlane.IngressRegistry.RefCount.{Bindings}
use up_streamer_rust.DataPlane.IngressRegistry.Listeners.{has_address, IsFresh}

module _ (k : IngressRouteBindingKey) (b : IngressRouteBinding) where
  has_address-insert_absent :
      (m : Bindings) (x : ℕ)
      → get k m ≡ none
      → has_address x (insert k b m) ≡ (b.listener.address == x || has_address x m)
  unfolding get insert
  has_address-insert_absent [] x h = refl
  has_address-insert_absent ((j, c) ∷ m) x h = ground (arith, has_address-insert_absent m x)

  has_address-insert_recounted :
      (m : Bindings) (n x : ℕ)
      → get k m ≡ some b
      → has_address x (insert k (record b { ref_count = n }) m) ≡ has_address x m
  unfolding get insert
  has_address-insert_recounted [] n x h = ground arith
  has_address-insert_recounted ((j, c) ∷ m) n x h =
      ground (arith, has_address-insert_recounted m n x)

  pub IsFresh-insert_absent :
      (n : ℕ) (m : Bindings)
      → get k m ≡ none
      → b.listener.address ≡ n
      → IsFresh n m
      → IsFresh (n + 1) (insert k b m)
  unfolding get insert
  IsFresh-insert_absent n [] h e f = (omega arith, refl, refl, tt)
  IsFresh-insert_absent n ((j, c) ∷ m) h e f = ground (
    arith,
    IsFresh-insert_absent n m,
    has_address-insert_absent m c.listener.address,
    get-insert k j b m,
    nat_equality.beq_iff b.listener.address c.listener.address,
    beq_comm k j,
  )

  pub IsFresh-insert_recounted :
      (n r : ℕ) (m : Bindings)
      → get k m ≡ some b
      → IsFresh n m
      → IsFresh n (insert k (record b { ref_count = r }) m)
  unfolding get insert
  IsFresh-insert_recounted n r [] h f = ground arith
  IsFresh-insert_recounted n r ((j, c) ∷ m) h f = ground (
    arith,
    IsFresh-insert_recounted n r m,
    has_address-insert_recounted m r c.listener.address,
    get-insert k j (record b { ref_count = r }) m,
    beq_comm k j,
  )

module _ (k : IngressRouteBindingKey) where
  has_address-remove :
      (m : Bindings) (x : ℕ) → has_address x m ≡ false → has_address x (remove k m) ≡ false
  unfolding remove
  has_address-remove [] x h = refl
  has_address-remove ((j, c) ∷ m) x h = ground (arith, has_address-remove m x)

  pub IsFresh-remove : (n : ℕ) (m : Bindings) → IsFresh n m → IsFresh n (remove k m)
  unfolding remove
  IsFresh-remove n [] f = tt
  IsFresh-remove n ((j, c) ∷ m) f = ground (
    arith,
    IsFresh-remove n m f.3,
    has_address-remove m c.listener.address f.1,
    get-remove k j m,
    f.2,
  )
