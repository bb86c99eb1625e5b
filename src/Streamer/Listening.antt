-- ===== src/Streamer/Listening.antt =====
-- The listeners and the workers over the life of a streamer.
use up_streamer_rust.Base.{
  ℕ, ◌<◌, String, ◌≡◌, refl, sym, ◌∙◌, true, false, Option, none, some, List, [], ◌∷◌, arith,
  nat_equality, string_equality, option_equality, pair_equality, beq_self,
}
use mathlib.Core.Path.{subst}
use up_streamer_rust.Base.Lists.{length}
use up_streamer_rust.Base.Map.{get}
use up_streamer_rust.Base.Usize.{word}
use up_streamer_rust.UpRust.{UriOps}
use up_streamer_rust.DataPlane.IngressListener.{IngressRouteListener}
use up_streamer_rust.DataPlane.Transport.{silent-holds, not_held-refused}
use up_streamer_rust.DataPlane.Transport.{
  TransportIdentityKey, transport_identity_key_equality, ListenerFilter, TransportOps,
  TransportLaws,
}
use up_streamer_rust.DataPlane.IngressRegistry.{
  IngressRouteRegistry, IngressRouteBinding, IngressRouteBindingKey,
  ingress_route_binding_key_equality, Registration, binding_key, register_route, unregister_route,
}
use up_streamer_rust.DataPlane.IngressRegistry
use up_streamer_rust.DataPlane.IngressRegistry.RefCount.{CountsBinding, Bindings}
use up_streamer_rust.DataPlane.IngressRegistry.Listeners.{owns}
use up_streamer_rust.DataPlane.EgressPool.{EgressRouteBinding, RuntimeOps}
use up_streamer_rust.DataPlane.EgressPool.RefCount.{CountsSlot}
use up_streamer_rust.ControlPlane.RouteTable.{route_key_equality}
use up_streamer_rust.ControlPlane.RouteLifecycle.Accounting.{egress_users, ingress_users}
use up_streamer_rust.ControlPlane.RouteLifecycle.Listening.{
  IsListening, add_route-IsListening, remove_route-IsListening,
}
use up_streamer_rust.Streamer.{
  UStreamer, SubscriptionOps, FormatOps, refresh_subscriptions, add_route, delete_route, new,
  route_label,
}
use up_streamer_rust.Streamer.History.{
  Call, adds, deletes, refreshes, step, run, run-IsAccounted, planes-apply_fetched,
}

module _ ⦃o : UriOps⦄ ⦃f : FormatOps⦄ ⦃e : RuntimeOps⦄ {W S : Type 0} ⦃t : TransportOps W⦄
    ⦃u : SubscriptionOps S⦄ (laws : TransportLaws t) where
  step-IsListening :
      (x : UStreamer W × S) (c : Call)
      → IsListening laws x.0.planes
      → IsListening laws (step x c).0.planes
  unfolding step add_route delete_route refresh_subscriptions
  step-IsListening (s, service) (adds in_ep out_ep) v =
      add_route-IsListening laws s.subscription_directory s.planes in_ep out_ep
        (route_label in_ep out_ep) v
  step-IsListening (s, service) (deletes in_ep out_ep) v =
      remove_route-IsListening laws s.planes in_ep out_ep v
  step-IsListening (s, service) (refreshes now) v =
      subst (IsListening laws) (sym (planes-apply_fetched now (u.fetch_subscriptions service).0 s))
        v

  steps-IsListening :
      (x : UStreamer W × S) (cs : List Call)
      → IsListening laws x.0.planes
      → IsListening laws (run x cs).0.planes
  unfolding run
  steps-IsListening x [] v = v
  steps-IsListening x (c ∷ cs) v = steps-IsListening (step x c) cs (step-IsListening x c v)

  new-IsListening :
      (name : String) (queue_size : ℕ) (w : W) (now : ℕ) (service : S)
      → ((a : ℕ) (g : ListenerFilter) (l : IngressRouteListener)
          → laws.documented.registered w a g l ≡ false)
      → IsListening laws (new name queue_size w now service).0.planes
  unfolding new refresh_subscriptions IngressRegistry.new
  new-IsListening name queue_size w now service silent =
      subst (IsListening laws) (sym (planes-apply_fetched now (u.fetch_subscriptions service).0 _))
        (record { held = λ a g l. silent-holds laws w a g l (silent a g l); fresh = tt })

  -- From a new streamer on transports without listeners, after any calls of its methods, whatever the
  -- transports and the uSubscription service answered, an ingress binding of the streamer owns a listener on
  -- a filter exactly if the listener is there and the transport has not refused to unregister it.
  pub run-IsListening :
      (name : String) (queue_size : ℕ) (w : W) (now : ℕ) (service : S) (cs : List Call)
      → ((a : ℕ) (g : ListenerFilter) (l : IngressRouteListener)
          → laws.documented.registered w a g l ≡ false)
      → IsListening laws (run (new name queue_size w now service) cs).0.planes
  run-IsListening name queue_size w now service cs silent =
      steps-IsListening (new name queue_size w now service) cs
        (new-IsListening name queue_size w now service silent)

counted_none :
    (k : IngressRouteBindingKey) (b : IngressRouteBinding) (m : Bindings)
    → CountsBinding (get k ((k, b) ∷ m)) 0
    → ⊥
unfolding get
counted_none k b m h = ground (arith, beq_self k)

no_worker : (x : Option EgressRouteBinding) → CountsSlot x 0 → x ≡ none
no_worker none h = refl
no_worker (some slot) h = ground arith

-- Bindings of which none is there for any key own nothing.
no_binding-owns :
    (m : Bindings)
    → ((j : IngressRouteBindingKey) → CountsBinding (get j m) 0)
    → (a : ℕ) (g : ListenerFilter) (l : IngressRouteListener) → owns m a g l ≡ false
no_binding-owns [] none_there a g l = refl
no_binding-owns ((k, b) ∷ m) none_there a g l = absurd (counted_none k b m (none_there k))

module _ ⦃o : UriOps⦄ ⦃f : FormatOps⦄ ⦃e : RuntimeOps⦄ {W S : Type 0} ⦃t : TransportOps W⦄
    ⦃u : SubscriptionOps S⦄ (laws : TransportLaws t) where
  -- From a new streamer on transports without listeners, after fewer than 2 ^ 64 calls of its methods,
  -- whatever the transports and the uSubscription service answered: if no route is left in the table, then
  -- every listener that is left on a transport is one that the transport refused to unregister, and no egress
  -- worker is left.
  pub run-idle :
      (name : String) (queue_size : ℕ) (w : W) (now : ℕ) (service : S) (cs : List Call)
      → ((a : ℕ) (g : ListenerFilter) (l : IngressRouteListener)
          → laws.documented.registered w a g l ≡ false)
      → length cs < word
      → (run (new name queue_size w now service) cs).0.planes.route_table ≡ []
      → let planes = (run (new name queue_size w now service) cs).0.planes in
        ((a : ℕ) (g : ListenerFilter) (l : IngressRouteListener)
          → laws.documented.registered planes.world a g l ≡ true
          → laws.refused planes.world a g l ≡ true)
        × ((j : TransportIdentityKey) → get j planes.egress_route_pool.workers ≡ none)
  run-idle name queue_size w now service cs silent small empty =
      let planes = (run (new name queue_size w now service) cs).0.planes in
      let listening = run-IsListening laws name queue_size w now service cs silent in
      let accounted = run-IsAccounted name queue_size w now service cs small in
      (
        λ a g l. not_held-refused laws planes.world a g l (
            listening.held a g l
            ∙ no_binding-owns planes.ingress_route_registry.bindings
                (λ j.
                  subst
                    (λ rt.
                      CountsBinding (get j planes.ingress_route_registry.bindings)
                        (ingress_users j rt))
                    empty (accounted.ingress j))
                a g l),
        λ j. no_worker (get j planes.egress_route_pool.workers) (
            subst (λ rt. CountsSlot (get j planes.egress_route_pool.workers) (egress_users j rt))
              empty (accounted.egress j)),
      )
