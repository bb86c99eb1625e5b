-- ===== src/DataPlane/IngressRegistry/Listeners.antt =====
-- The listeners that the transports hold against those that the bindings own.
use up_streamer_rust.Base.{
  ℕ, ◌+◌, ◌<◌, ◌≡◌, refl, sym, ap, ◌∙◌, ◌≢◌, inl, inr, Bool, true, false, ◌&&◌, ◌||◌, none, some,
  [], ◌∷◌, arith, if◌then◌else◌, Bool-cases, ◌==◌, nat_equality, string_equality, option_equality,
  pair_equality, eq_of_beq,
}
use mathlib.Core.Path.{subst}
use up_streamer_rust.Base.Lists.{contains}
use up_streamer_rust.Base.Map.{get, insert, remove, remove_absent}
use up_streamer_rust.UpRust.{uuri_equality}
use up_streamer_rust.DataPlane.IngressListener.{IngressRouteListener, listener_equality}
use up_streamer_rust.DataPlane.Transport.{ListenerFilter}
use up_streamer_rust.DataPlane.IngressRegistry.{
  IngressRouteBinding, IngressRouteBindingKey, ingress_route_binding_key_equality,
}
use up_streamer_rust.DataPlane.IngressRegistry.RefCount.{Bindings}

-- The binding holds this listener on this filter of this transport.
abbrev pub owned :
    IngressRouteBindingKey → IngressRouteBinding → ℕ → ListenerFilter → IngressRouteListener → Bool
owned key b a g l =
    key.transport.transport == a && contains g b.registered_filters && b.listener == l

abbrev pub owns : Bindings → ℕ → ListenerFilter → IngressRouteListener → Bool
owns [] a g l = false
owns ((key, b) ∷ m) a g l = owned key b a g l || owns m a g l

abbrev pub has_address : ℕ → Bindings → Bool
has_address n [] = false
has_address n ((key, b) ∷ m) = b.listener.address == n || has_address n m

-- The keys are different, and the listeners of the bindings have different addresses, all below the next one.
abbrev pub IsFresh : ℕ → Bindings → Type 0
IsFresh n [] = Unit
IsFresh n ((key, b) ∷ m) =
    (b.listener.address < n)
    × (has_address b.listener.address m ≡ false)
    × (get key m ≡ none)
    × IsFresh n m

pub IsFresh-mono : (n : ℕ) (m : Bindings) → IsFresh n m → IsFresh (n + 1) m
IsFresh-mono n [] f = tt
IsFresh-mono n ((key, b) ∷ m) f = (omega (arith, f.0), f.1, f.2, IsFresh-mono n m f.3)

pub has_address_fresh : (n : ℕ) (m : Bindings) → IsFresh n m → has_address n m ≡ false
has_address_fresh n [] f = refl
has_address_fresh n ((key, b) ∷ m) f =
    ground (arith, has_address_fresh n m f.3, nat_equality.beq_iff b.listener.address n)

not_owns :
    (m : Bindings) (a : ℕ) (g : ListenerFilter) (l : IngressRouteListener)
    → has_address l.address m ≡ false
    → owns m a g l ≡ false
not_owns [] a g l h = refl
not_owns ((key, b) ∷ m) a g l h = ground (
  arith,
  not_owns m a g l,
  listener_equality.beq_iff b.listener l,
  nat_equality.beq_iff b.listener.address l.address,
)

pub owns_fresh :
    (n : ℕ) (m : Bindings) (a : ℕ) (g : ListenerFilter) (l : IngressRouteListener)
    → IsFresh n m
    → l.address ≡ n
    → owns m a g l ≡ false
owns_fresh n m a g l f e = not_owns m a g l (rw e (has_address_fresh n m f))

module _ (k : IngressRouteBindingKey) (b : IngressRouteBinding) (a : ℕ) (g : ListenerFilter)
    (l : IngressRouteListener) where
  pub owns-insert_absent :
      (m : Bindings)
      → get k m ≡ none
      → owns (insert k b m) a g l ≡ (owned k b a g l || owns m a g l)
  unfolding get insert
  owns-insert_absent [] h = refl
  owns-insert_absent ((j, c) ∷ m) h = ground (arith, owns-insert_absent m)

  pub owns-insert_recounted :
      (m : Bindings) (n : ℕ)
      → get k m ≡ some b
      → owns (insert k (record b { ref_count = n }) m) a g l ≡ owns m a g l
  unfolding get insert
  owns-insert_recounted [] n h = ground arith
  owns-insert_recounted ((j, c) ∷ m) n h = ground (arith, owns-insert_recounted m n)

  owned_elsewhere :
      (m : Bindings)
      → has_address b.listener.address m ≡ false
      → owned k b a g l ≡ true
      → owns m a g l ≡ false
  owned_elsewhere m h e = not_owns m a g l (
      subst (λ (x : IngressRouteListener). has_address x.address m ≡ false)
        (eq_of_beq b.listener l (ground arith)) h)

  owned_apart :
      (j : IngressRouteBindingKey) (c : IngressRouteBinding)
      → b.listener.address ≢ c.listener.address
      → owned k b a g l ≡ true
      → owned j c a g l ≡ false
  owned_apart j c ne e = elim (Bool-cases (owned j c a g l)) [
    | inl both ↦ absurd (
        ne (
          ap (λ (x : IngressRouteListener). x.address)
            (eq_of_beq b.listener l (ground arith) ∙ sym (eq_of_beq c.listener l (ground arith)))))
    | inr apart ↦ apart
  ]

  has_address-get : (m : Bindings) → get k m ≡ some b → has_address b.listener.address m ≡ true
  unfolding get
  has_address-get [] h = ground arith
  has_address-get ((j, c) ∷ m) h =
      ground (arith, has_address-get m, nat_equality.beq_iff c.listener.address b.listener.address)

  owns-remove_head :
      (m : Bindings)
      → get k m ≡ none
      → has_address b.listener.address m ≡ false
      → owns (remove k m) a g l
        ≡ (if owned k b a g l then false else owned k b a g l || owns m a g l)
  owns-remove_head m h f = rw (remove_absent k m h) (elim (Bool-cases (owned k b a g l)) [
    | inl mine ↦ rw mine (owned_elsewhere m f mine)
    | inr not_mine ↦ rw not_mine refl
  ])

  head_eq :
      (j : IngressRouteBindingKey) (c : IngressRouteBinding)
      → j ≡ k
      → c ≡ b
      → ◌≡◌ {A = IngressRouteBindingKey × IngressRouteBinding} (k, b) (j, c)
  head_eq j c e f = cc

  pub owns-remove :
      (n : ℕ) (m : Bindings)
      → IsFresh n m
      → get k m ≡ some b
      → owns (remove k m) a g l ≡ (if owned k b a g l then false else owns m a g l)
  unfolding get remove
  owns-remove n [] f h = ground arith
  owns-remove n ((j, c) ∷ m) f h = elim (Bool-cases (j == k)) [
    | inl same ↦
        let ec : c ≡ b = cc (rw same at h) in
        rw same (
          subst
            (λ (x : IngressRouteBindingKey × IngressRouteBinding).
              owns (remove k m) a g l
              ≡ (if owned k b a g l then false else owned x.0 x.1 a g l || owns m a g l))
            (head_eq j c (eq_of_beq j k same) ec)
            (owns-remove_head m (subst (λ x. get x m ≡ none) (eq_of_beq j k same) f.2) (
              subst (λ (x : IngressRouteBinding). has_address x.listener.address m ≡ false) ec
                f.1)))
    | inr other ↦
        let there : get k m ≡ some b = rw other at h in
        elim (Bool-cases (owned k b a g l)) [
          | inl mine ↦
              rw (other, mine)
                (ground (
                  arith,
                  rw mine at (owns-remove n m f.3 there),
                  owned_apart j c
                      (λ e. cc (ap (λ x. has_address x m) e, has_address-get m there, f.1)) mine,
                ))
          | inr not_mine ↦
              rw (other, not_mine) (ground (arith, rw not_mine at (owns-remove n m f.3 there)))
        ]
  ]
