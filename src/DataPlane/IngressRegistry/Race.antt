-- ===== src/DataPlane/IngressRegistry/Race.antt =====
-- The end of `register_route` when another task has made the binding meanwhile.
use up_streamer_rust.Base.{
  ℕ, ◌≡◌, refl, sym, ◌∙◌, Option, none, some, List, ◌==◌, nat_equality, string_equality,
  option_equality, pair_equality,
}
use up_streamer_rust.Base.Map.{get, get-insert_self}
use up_streamer_rust.Base.Usize.{increment}
use up_streamer_rust.DataPlane.IngressListener.{IngressRouteListener, listener_equality}
use up_streamer_rust.DataPlane.Transport.{holds}
use up_streamer_rust.DataPlane.Transport.{ListenerFilter, TransportOps, TransportLaws}
use up_streamer_rust.DataPlane.IngressRegistry.{
  IngressRouteRegistry, IngressRouteBinding, IngressRouteBindingKey,
  ingress_route_binding_key_equality, commit_route,
}
use up_streamer_rust.DataPlane.IngressRegistry.Calls.{
  HoldsOn, IsUnused, rollback-HoldsOn, nothing_added,
}

module _ {W : Type 0} ⦃t : TransportOps W⦄ (laws : TransportLaws t) (a : ℕ)
    (l : IngressRouteListener) where
  -- No listener was made, the binding `b` is shared, and the transports are as in `base`, up to
  -- the listeners whose removal was refused.
  pub record TakesBack (base : W) (key : IngressRouteBindingKey) (b : IngressRouteBinding)
      (made : Option IngressRouteListener) (r : IngressRouteRegistry) (w : W) : Type 0 where
    pub shared : made ≡ none
    pub counted : get key r.bindings ≡ some (record b { ref_count = increment b.ref_count })
    pub restored :
        (c : ℕ) (g : ListenerFilter) (k : IngressRouteListener)
        → holds laws w c g k ≡ holds laws base c g k

  -- A registration that has put its listener, which was on no filter of the transport, on some
  -- filters, where the transports were else as in `base`, and then finds a binding that another
  -- task has made, shares that binding and tries to take its own listener back from every filter, so
  -- that the transports are as in `base` again, up to the listeners that a transport refused to unregister.
  pub commit_route-TakesBack :
      (r : IngressRouteRegistry) (key : IngressRouteBindingKey) (b : IngressRouteBinding)
      (fs : List ListenerFilter) (base w : W)
      → get key r.bindings ≡ some b
      → IsUnused laws a l base
      → HoldsOn laws a l base fs w
      → let (made, rest) = commit_route r key a l fs w in TakesBack base key b made rest.0 rest.1
  unfolding commit_route
  commit_route-TakesBack r key b fs base w there unused on_filters =
      rw (there, commit_route)
        (record {
          shared = refl;
          counted = get-insert_self key (record b { ref_count = increment b.ref_count }) r.bindings;
          restored = λ c g k.
              rollback-HoldsOn laws a l base fs w unused on_filters c g k
              ∙ sym (nothing_added (a == c) (l == k) (holds laws base c g k));
        })
