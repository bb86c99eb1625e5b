-- ===== src/DataPlane/EgressPool/RefCount.antt =====
-- What `attach_route` and `detach_route` of the egress pool do to the reference counts.
use up_streamer_rust.Base.{
  ℕ, ◌+◌, ◌<◌, ◌≡◌, refl, ap, ◌∙◌, inl, inr, Option, none, some, List, arith, if◌then◌else◌,
  Option-cases, ◌==◌, nat_equality, string_equality, option_equality, pair_equality, beq_false,
}
use up_streamer_rust.Base.Map.{Map, get, insert, remove, get-insert, get-insert_self, get-remove}
use up_streamer_rust.Base.Usize.{
  word, increment, decrement, increment-eq_of_lt, decrement-eq_of_pos, decrement-increment,
}
use up_streamer_rust.DataPlane.Transport.{TransportIdentityKey, transport_identity_key_equality}
use up_streamer_rust.DataPlane.EgressWorker
use up_streamer_rust.DataPlane.EgressPool.{
  EgressRoutePool, EgressRouteBinding, RuntimeOps, attach_route, detach_route,
}

-- A slot is there exactly while some route uses it, and counts those routes.
abbrev pub CountsSlot : Option EgressRouteBinding → ℕ → Type 0
CountsSlot none n = n ≡ 0
CountsSlot (some slot) n = (slot.ref_count ≡ n) × (0 < n)

abbrev pub egress_key : ℕ → TransportIdentityKey
egress_key out_transport = record { transport = out_transport }

abbrev pub uses : TransportIdentityKey → TransportIdentityKey → ℕ
uses k j = if k == j then 1 else 0

module _ ⦃e : RuntimeOps⦄ (p : EgressRoutePool) (out_transport : ℕ) where
  pub attach_route-CountsSlot :
      (j : TransportIdentityKey) (n : ℕ)
      → n + 1 < word
      → CountsSlot (get j p.workers) n
      → CountsSlot
          (get j (attach_route p out_transport).1.workers)
          (uses (egress_key out_transport) j + n)
  unfolding attach_route
  attach_route-CountsSlot j n small h =
      elim (Option-cases (get (egress_key out_transport) p.workers)) [
        | inl e ↦
            rw (e, attach_route)
              (rw get-insert (
                ground
                  (arith, transport_identity_key_equality.beq_iff (egress_key out_transport) j)))
        | inr (slot, e) ↦
            rw (e, attach_route)
              (rw get-insert (
                ground (
                  arith,
                  increment-eq_of_lt slot.ref_count,
                  transport_identity_key_equality.beq_iff (egress_key out_transport) j,
                )))
      ]

module _ (p : EgressRoutePool) (out_transport : ℕ) where
  pub detach_route-CountsSlot :
      (j : TransportIdentityKey) (n : ℕ)
      → n + 1 < word
      → CountsSlot (get j p.workers) (uses (egress_key out_transport) j + n)
      → CountsSlot (get j (detach_route p out_transport).workers) n
  unfolding detach_route
  detach_route-CountsSlot j n small h =
      elim (Option-cases (get (egress_key out_transport) p.workers)) [
        | inl e ↦
            rw (e, detach_route)
              (ground (arith, transport_identity_key_equality.beq_iff (egress_key out_transport) j))
        | inr (slot, e) ↦
            rw (e, detach_route)
              (ground (
                arith,
                get-remove (egress_key out_transport) j p.workers,
                get-insert (egress_key out_transport) j
                    (record slot { ref_count = decrement slot.ref_count }) p.workers,
                decrement-eq_of_pos slot.ref_count,
                transport_identity_key_equality.beq_iff (egress_key out_transport) j,
              ))
      ]

decrement_one : decrement 1 ≡ 0
unfolding decrement
decrement_one = refl

module _ (j k : TransportIdentityKey) (m : List (TransportIdentityKey × EgressRouteBinding)) where
  remove_inserted :
      (b : EgressRouteBinding) → get k m ≡ none → get j (remove k (insert k b m)) ≡ get j m
  remove_inserted b h =
      rw (get-remove, get-insert) (ground (arith, transport_identity_key_equality.beq_iff k j))

  insert_twice :
      (b c : EgressRouteBinding) → get k m ≡ some c → get j (insert k c (insert k b m)) ≡ get j m
  insert_twice b c h =
      rw (get-insert k j c (insert k b m))
        (rw (get-insert k j b m) (ground (arith, transport_identity_key_equality.beq_iff k j)))

detach_present :
    (q : EgressRoutePool) (out_transport : ℕ) (slot : EgressRouteBinding)
    → get (egress_key out_transport) q.workers ≡ some slot
    → (detach_route q out_transport).workers ≡ (
        if decrement slot.ref_count == 0
        then remove (egress_key out_transport) q.workers
        else insert
            (egress_key out_transport)
            (record slot { ref_count = decrement slot.ref_count })
            q.workers)
unfolding detach_route
detach_present q out_transport slot e = rw (e, detach_route) refl

module _ (q : EgressRoutePool) (out_transport : ℕ) (slot : EgressRouteBinding)
    (m : Map TransportIdentityKey EgressRouteBinding) where
  detach_last :
      q.workers ≡ insert (egress_key out_transport) slot m
      → slot.ref_count ≡ 1
      → (detach_route q out_transport).workers
        ≡ remove (egress_key out_transport) (insert (egress_key out_transport) slot m)
  detach_last same one =
      detach_present q out_transport slot (
        ap (get (egress_key out_transport)) same
        ∙ get-insert_self (egress_key out_transport) slot m)
      ∙ rw (ap decrement one ∙ decrement_one, same) refl

  detach_shared :
      (n : ℕ)
      → q.workers ≡ insert (egress_key out_transport) slot m
      → decrement slot.ref_count ≡ n
      → 0 < n
      → (detach_route q out_transport).workers
        ≡ insert
            (egress_key out_transport)
            (record slot { ref_count = n })
            (insert (egress_key out_transport) slot m)
  detach_shared n same less positive =
      detach_present q out_transport slot (
        ap (get (egress_key out_transport)) same
        ∙ get-insert_self (egress_key out_transport) slot m)
      ∙ rw (less, beq_false n 0 (omega arith), same) refl

module _ ⦃e : RuntimeOps⦄ (p : EgressRoutePool) (out_transport : ℕ) where
  abbrev fresh_slot : EgressRouteBinding
  fresh_slot = record {
    ref_count = 1;
    worker = EgressWorker.new e.has_runtime (e.build_uuid p.next_channel);
    sender = p.next_channel;
  }

  attach_absent :
      get (egress_key out_transport) p.workers ≡ none
      → (attach_route p out_transport).1.workers
        ≡ insert (egress_key out_transport) fresh_slot p.workers
  unfolding attach_route
  attach_absent absent = rw (absent, attach_route) refl

  attach_present :
      (slot : EgressRouteBinding)
      → get (egress_key out_transport) p.workers ≡ some slot
      → (attach_route p out_transport).1.workers
        ≡ insert
            (egress_key out_transport)
            (record slot { ref_count = increment slot.ref_count })
            p.workers
  unfolding attach_route
  attach_present slot there = rw (there, attach_route) refl

  -- Where the egress transport has no worker, or one that counts its routes, fewer than 2 ^ 64 -
  -- 1: detaching a route from it right after attaching one leaves every worker of the pool as it
  -- was.
  pub detach-attach :
      (j : TransportIdentityKey) (n : ℕ)
      → n + 1 < word
      → CountsSlot (get (egress_key out_transport) p.workers) n
      → get j (detach_route (attach_route p out_transport).1 out_transport).workers
        ≡ get j p.workers
  detach-attach j n small h = elim (Option-cases (get (egress_key out_transport) p.workers)) [
    | inl absent ↦
        ap (get j) (
          detach_last (attach_route p out_transport).1 out_transport fresh_slot p.workers
            (attach_absent absent) refl)
        ∙ remove_inserted j (egress_key out_transport) p.workers fresh_slot absent
    | inr (slot, there) ↦
        let counts : CountsSlot (some slot) n = rw there at h in
        ap (get j) (
          detach_shared (attach_route p out_transport).1 out_transport
            (record slot { ref_count = increment slot.ref_count }) p.workers slot.ref_count
            (attach_present slot there) (decrement-increment slot.ref_count (omega arith))
            (omega arith))
        ∙ insert_twice j (egress_key out_transport) p.workers
            (record slot { ref_count = increment slot.ref_count }) slot there
  ]
