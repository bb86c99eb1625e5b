-- ===== src/DataPlane/IngressRegistry/Sync.antt =====
-- The registry and the transports agree: the listeners that the transports hold are those of the bindings.
use up_streamer_rust.Base.{
  ℕ, ◌+◌, String, ◌≡◌, refl, sym, ap, ◌∙◌, inl, inr, Bool, true, false, ◌||◌, none, some, List, [],
  ◌∷◌, arith, ltb, if◌then◌else◌, Result, ok, err, Bool-cases, Option-cases, Result-cases, ◌==◌,
  nat_equality, string_equality, option_equality, pair_equality,
}
use mathlib.Core.Path.{subst}
use up_streamer_rust.Base.Map.{get, insert, remove}
use up_streamer_rust.Base.Usize.{decrement}
use up_streamer_rust.UpRust.{UriOps, uuri_equality}
use up_streamer_rust.Routing.SubscriptionDirectory.{SubscriptionDirectory}
use up_streamer_rust.DataPlane.IngressListener.{IngressRouteListener, listener_equality}
use up_streamer_rust.DataPlane.IngressListener
use up_streamer_rust.DataPlane.Transport.{holds, holds-register_err}
use up_streamer_rust.DataPlane.Transport.{ListenerFilter, TransportOps, TransportLaws}
use up_streamer_rust.DataPlane.IngressRegistry.{
  IngressRouteRegistry, IngressRouteBinding, IngressRouteBindingKey,
  ingress_route_binding_key_equality, IngressRouteRegistrationError, binding_key, request_filter,
  derive_publish_filters_cached, unregister_filters, conclude_registration, commit_route,
  register_publish_route, register_new_route, register_route, unregister_route,
}
use up_streamer_rust.DataPlane.IngressRegistry.RefCount.{
  Bindings, bindings-derive_publish_filters_cached, next_address-derive_publish_filters_cached,
}
use up_streamer_rust.DataPlane.IngressRegistry.Listeners.{
  owned, owns, IsFresh, IsFresh-mono, owns_fresh, owns-insert_absent, owns-insert_recounted,
  owns-remove,
}
use up_streamer_rust.DataPlane.IngressRegistry.Fresh.{
  IsFresh-insert_absent, IsFresh-insert_recounted, IsFresh-remove,
}
use up_streamer_rust.DataPlane.IngressRegistry.Calls.{
  HoldsOn, IsUnused, Registered, rollback-registered, unregister_filters-eq-rollback,
  rollback-nothing, register_publish_filters-Registered, HoldsOn-register, nothing_added,
}

if_or : (x y : Bool) → (if x then true else y) ≡ (x || y)
if_or x y = ground arith

module _ {W : Type 0} ⦃t : TransportOps W⦄ (laws : TransportLaws t) where
  -- A transport holds a listener on a filter exactly if a binding owns it.
  pub record IsSynced (r : IngressRouteRegistry) (w : W) : Type 0 where
    pub held :
        (a : ℕ) (g : ListenerFilter) (l : IngressRouteListener)
        → holds laws w a g l ≡ owns r.bindings a g l
    pub fresh : IsFresh r.next_address r.bindings

  -- A registration under way: `base` is the state at its start, and `l` its new listener.
  record Pending (n : ℕ) (m : Bindings) (l : IngressRouteListener) (base : W) : Type 0 where
    held :
        (a : ℕ) (g : ListenerFilter) (k : IngressRouteListener)
        → holds laws base a g k ≡ owns m a g k
    fresh : IsFresh n m
    new : l.address ≡ n

  Pending-IsUnused :
      (n : ℕ) (m : Bindings) (l : IngressRouteListener) (base : W) (a : ℕ)
      → Pending n m l base
      → IsUnused laws a l base
  Pending-IsUnused n m l base a p g = p.held a g l ∙ owns_fresh n m a g l p.fresh p.new

  untouched :
      (a : ℕ) (l : IngressRouteListener) (base w : W)
      → HoldsOn laws a l base [] w
      → (b : ℕ) (g : ListenerFilter) (k : IngressRouteListener)
      → holds laws w b g k ≡ holds laws base b g k
  untouched a l base w h b g k =
      h b g k ∙ sym (nothing_added (a == b) (l == k) (holds laws base b g k))

  module _ (n : ℕ) (l : IngressRouteListener) (base : W) (key : IngressRouteBindingKey) where
    conclude_registration-IsSynced :
        (r : IngressRouteRegistry)
        (x : Result IngressRouteRegistrationError (List ListenerFilter) × W)
        → Pending n r.bindings l base
        → r.next_address ≡ n + 1
        → get key r.bindings ≡ none
        → Registered laws key.transport.transport l base x
        → let (answer, rest) = conclude_registration r key key.transport.transport l x in
          IsSynced rest.0 rest.1
    unfolding conclude_registration commit_route
    conclude_registration-IsSynced r (err e, w) p next absent h = record {
      held = λ a g k. untouched key.transport.transport l base w h a g k ∙ p.held a g k;
      fresh = subst (λ x. IsFresh x r.bindings) (sym next) (IsFresh-mono n r.bindings p.fresh);
    }
    conclude_registration-IsSynced r (ok fs, w) p next absent h =
        rw (absent, commit_route)
          (record {
            held = λ a g k.
                h a g k
                ∙ if_or (owned key made a g k) (holds laws base a g k)
                ∙ ap (λ y. owned key made a g k || y) (p.held a g k)
                ∙ sym (owns-insert_absent key made a g k r.bindings absent);
            fresh =
                subst (λ x. IsFresh x (insert key made r.bindings)) (sym next)
                  (IsFresh-insert_absent key made n r.bindings absent p.new p.fresh);
          })
      where
        made : IngressRouteBinding
        made = record { ref_count = 1; listener = l; registered_filters = fs }

  HoldsOn-start : (a : ℕ) (l : IngressRouteListener) (base : W) → HoldsOn laws a l base [] base
  HoldsOn-start a l base b g k = nothing_added (a == b) (l == k) (holds laws base b g k)

  module _ ⦃o : UriOps⦄ (d : SubscriptionDirectory) (in_t : ℕ) (a b : String)
      (l : IngressRouteListener) where
    register_new_route-IsSynced :
        (n : ℕ) (r : IngressRouteRegistry) (base : W)
        → Pending n r.bindings l base
        → r.next_address ≡ n + 1
        → get (binding_key in_t a b) r.bindings ≡ none
        → let (answer, rest) = register_new_route r in_t a b l d base in IsSynced rest.0 rest.1
    unfolding register_new_route register_publish_route
    register_new_route-IsSynced n r base p next absent =
        elim (Result-cases (t.register_listener in_t (request_filter a b) l base).0) [
          | inr (x, e) ↦
              rw (e, register_publish_route)
                (record {
                  held = λ c g k.
                      rollback-nothing laws in_t l base (request_filter a b ∷ []) _ unused
                        (λ c g k.
                          holds-register_err laws in_t (request_filter a b) l base c g k x e)
                        c g k
                      ∙ p.held c g k;
                  fresh =
                      subst (λ x. IsFresh x r.bindings) (sym next)
                        (IsFresh-mono n r.bindings p.fresh);
                })
          | inl (_, e) ↦
              rw (e, register_publish_route)
                (conclude_registration-IsSynced n l base (binding_key in_t a b)
                  (derive_publish_filters_cached r a b d).1 _
                  (subst (λ m. Pending n m l base) (sym same) p)
                  (next_address-derive_publish_filters_cached r a b d ∙ next)
                  (subst (λ m. get (binding_key in_t a b) m ≡ none) (sym same) absent)
                  (register_publish_filters-Registered laws in_t l base _ (request_filter a b ∷ [])
                    _ unused
                    (HoldsOn-register laws in_t l base [] (request_filter a b) base
                      (HoldsOn-start in_t l base) e)))
        ]
      where
        same : (derive_publish_filters_cached r a b d).1.bindings ≡ r.bindings
        same = bindings-derive_publish_filters_cached r a b d

        unused : IsUnused laws in_t l base
        unused = Pending-IsUnused n r.bindings l base in_t p

  recounted-IsSynced :
      (r : IngressRouteRegistry) (key : IngressRouteBindingKey) (b : IngressRouteBinding) (n : ℕ)
      (w : W)
      → get key r.bindings ≡ some b
      → IsSynced r w
      → IsSynced (record r { bindings = insert key (record b { ref_count = n }) r.bindings }) w
  recounted-IsSynced r key b n w there v = record {
    held = λ a g l. v.held a g l ∙ sym (owns-insert_recounted key b a g l r.bindings n there);
    fresh = IsFresh-insert_recounted key b r.next_address n r.bindings there v.fresh;
  }

  -- Where the listeners that are there and were not refused to be unregistered are exactly those of the
  -- bindings, they are so after registering a route, whether it shares a binding, makes one or fails half-way,
  -- and whatever the transports answer to the roll-back.
  pub register_route-IsSynced :
      ⦃o : UriOps⦄ (r : IngressRouteRegistry) (in_t : ℕ) (a b label : String) (sender : ℕ)
      (d : SubscriptionDirectory) (w : W)
      → IsSynced r w
      → let (answer, rest) = register_route r in_t a b label sender d w in IsSynced rest.0 rest.1
  unfolding register_route IngressListener.new
  register_route-IsSynced r in_t a b label sender d w v =
      elim (Option-cases (get (binding_key in_t a b) r.bindings)) [
        | inl e ↦
            rw (e, register_route)
              (register_new_route-IsSynced d in_t a b _ r.next_address _ w
                (record { held = v.held; fresh = v.fresh; new = refl }) refl e)
        | inr (s, e) ↦ rw (e, register_route) (recounted-IsSynced r _ s _ w e v)
      ]

  removed-IsSynced :
      (r : IngressRouteRegistry) (key : IngressRouteBindingKey) (b : IngressRouteBinding) (w : W)
      → get key r.bindings ≡ some b
      → IsSynced r w
      → IsSynced
          (record r { bindings = remove key r.bindings })
          (unregister_filters key.transport.transport b.registered_filters b.listener w)
  removed-IsSynced r key b w there v =
      rw
        (unregister_filters-eq-rollback laws key.transport.transport b.listener b.registered_filters
          w)
        (record {
          held = λ a g l.
              rollback-registered laws key.transport.transport b.listener b.registered_filters w a g
                l
              ∙ ap (λ y. if owned key b a g l then false else y) (v.held a g l)
              ∙ sym (owns-remove key b a g l r.next_address r.bindings v.fresh there);
          fresh = IsFresh-remove key r.next_address r.bindings v.fresh;
        })

  -- Where the listeners that are there and were not refused to be unregistered are exactly those of the
  -- bindings, they are so after unregistering a route, whether its binding is missing, goes on or ends, and
  -- whatever the transports answer.
  pub unregister_route-IsSynced :
      (r : IngressRouteRegistry) (in_t : ℕ) (a b : String) (w : W)
      → IsSynced r w
      → let (r', w') = unregister_route r in_t a b w in IsSynced r' w'
  unfolding unregister_route
  unregister_route-IsSynced r in_t a b w v =
      elim (Option-cases (get (binding_key in_t a b) r.bindings)) [
        | inl e ↦ rw (e, unregister_route) v
        | inr (s, e) ↦ elim (Bool-cases (ltb 0 (decrement s.ref_count))) [
          | inl more ↦ rw (e, unregister_route) (rw more (recounted-IsSynced r _ s _ w e v))
          | inr last ↦ rw (e, unregister_route) (rw last (removed-IsSynced r _ s w e v))
        ]
      ]
