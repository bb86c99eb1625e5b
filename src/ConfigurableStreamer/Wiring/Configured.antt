-- ===== src/ConfigurableStreamer/Wiring/Configured.antt =====
-- A streamer that was configured with success.
use up_streamer_rust.Base.{
  ℕ, ◌≡◌, refl, ap, ◌∙◌, inl, inr, some, List, [], ◌∷◌, ◌++◌, Result, ok, err, Option-cases,
  nat_equality, string_equality, option_equality, pair_equality,
}
use up_streamer_rust.UpRust.{UriOps, UStatus}
use up_streamer_rust.DataPlane.Transport.{TransportOps}
use up_streamer_rust.DataPlane.EgressPool.{RuntimeOps}
use up_streamer_rust.ControlPlane.RouteTable.{RouteTable, route_key_equality, from_endpoints}
use up_streamer_rust.Streamer.{UStreamer, FormatOps}
use up_streamer_rust.ConfigurableStreamer.{
  Endpoints, Config, register_transport_endpoints, wire_forwarding_rules, then_value, wire,
}
use up_streamer_rust.ConfigurableStreamer.Wiring.{Rule, rules}
use up_streamer_rust.ConfigurableStreamer.Wiring.Registered.{
  IsRegistered, register_transport_endpoints-IsRegistered,
}
use up_streamer_rust.ConfigurableStreamer.Wiring.Routes.{
  route_of, with_routes, wire_forwarding_rules-with_routes,
}

then_value_ok :
    {A B : Type 0} (x : Result UStatus (Unit {0}) × A) (next : A → Result UStatus B) (b : B)
    → then_value x next ≡ ok b
    → (x.0 ≡ ok tt) × (next x.1 ≡ ok b)
then_value_ok (ok u, a) next b h = (refl, h)
then_value_ok (err e, a) next b h = cc

with_routes-append :
    (endpoints : Endpoints) (xs ys : List Rule) (table half : RouteTable)
    → with_routes endpoints xs table ≡ some half
    → with_routes endpoints (xs ++ ys) table ≡ with_routes endpoints ys half
with_routes-append endpoints [] ys table half h = ap (with_routes endpoints ys) (cc)
with_routes-append endpoints (x ∷ xs) ys table half h = elim (Option-cases (route_of endpoints x)) [
  | inl missing ↦ let refused = rw (missing, with_routes) at h in cc
  | inr ((left, right), there) ↦
      rw (there, with_routes)
        (with_routes-append endpoints xs ys (from_endpoints left right ∷ table) half
          (rw (there, with_routes) at h))
]

-- The endpoints of both transports are registered, and the routes are one for each forwarding rule.
pub record IsConfigured (c : Config) (zenoh mqtt5 : ℕ) (before after : RouteTable) : Type 0 where
  first : Endpoints
  endpoints : Endpoints
  zenoh_endpoints : IsRegistered zenoh c.zenoh.endpoints [] first
  mqtt5_endpoints : IsRegistered mqtt5 c.mqtt.endpoints first endpoints
  routed :
      with_routes endpoints (rules c.zenoh.endpoints ++ rules c.mqtt.endpoints) before ≡ some after

module _ ⦃o : UriOps⦄ ⦃f : FormatOps⦄ ⦃e : RuntimeOps⦄ {W : Type 0} ⦃t : TransportOps W⦄ where
  -- When the endpoints and the forwarding rules of a configuration are wired with success, each name
  -- is configured once and stands for its endpoint, on the transport of its section, both names of every
  -- rule are known, and the routes of the streamer are those that it had and one for each rule, no
  -- others, the newest first.
  pub wire-IsConfigured :
      (c : Config) (s s' : UStreamer W) (zenoh mqtt5 : ℕ)
      → wire c s zenoh mqtt5 ≡ ok s'
      → IsConfigured c zenoh mqtt5 s.planes.route_table s'.planes.route_table
  unfolding wire
  wire-IsConfigured c s s' zenoh mqtt5 worked =
      let a = register_transport_endpoints [] c.zenoh.endpoints zenoh in
      let (za, next_a) = then_value_ok a _ s' worked in
      let b = register_transport_endpoints a.1 c.mqtt.endpoints mqtt5 in
      let (mb, next_b) = then_value_ok b _ s' next_a in
      let x = wire_forwarding_rules s b.1 c.zenoh.endpoints in
      let (zx, next_x) = then_value_ok x _ s' next_b in
      let y = wire_forwarding_rules x.1 b.1 c.mqtt.endpoints in
      let (my, last) = then_value_ok y _ s' next_x in
      let ends : y.1 ≡ s' = cc in
      record {
        first = a.1;
        endpoints = b.1;
        zenoh_endpoints =
            (register_transport_endpoints-IsRegistered zenoh c.zenoh.endpoints []).0 za;
        mqtt5_endpoints =
            (register_transport_endpoints-IsRegistered mqtt5 c.mqtt.endpoints a.1).0 mb;
        routed =
            with_routes-append b.1 _ _ s.planes.route_table _
              (wire_forwarding_rules-with_routes b.1 s c.zenoh.endpoints zx)
            ∙ wire_forwarding_rules-with_routes b.1 x.1 c.mqtt.endpoints my
            ∙ ap (λ u. some u.planes.route_table) ends;
      }
