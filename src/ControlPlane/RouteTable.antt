-- ===== src/ControlPlane/RouteTable.antt =====
-- up-streamer/src/endpoint.rs and up-streamer/src/control_plane/route_table.rs. The hash set is a list in
-- which no key stands twice.
use up_streamer_rust.Base.{
  ℕ, String, ◌≡◌, ◌↔◌, Bool, true, false, ◌&&◌, List, ◌∷◌, arith, if◌then◌else◌, Equality, ◌==◌,
  nat_equality, string_equality, option_equality, pair_equality,
}
use up_streamer_rust.Base.Lists.{contains, erase}
use up_streamer_rust.DataPlane.Transport.{TransportIdentityKey, transport_identity_key_equality}

pub record Endpoint : Type 0 where
  pub name : String
  pub authority : String
  pub transport : ℕ

pub record RouteKey : Type 0 where
  pub ingress_authority : String
  pub egress_authority : String
  pub ingress_transport : TransportIdentityKey
  pub egress_transport : TransportIdentityKey

abbrev pub route_key_beq : RouteKey → RouteKey → Bool
route_key_beq a b =
    a.ingress_authority == b.ingress_authority
    && a.egress_authority == b.egress_authority
    && a.ingress_transport == b.ingress_transport
    && a.egress_transport == b.egress_transport

pub route_key_beq_iff : (a b : RouteKey) → (route_key_beq a b ≡ true) ↔ (a ≡ b)
route_key_beq_iff a b = ground (
  arith,
  string_equality.beq_iff a.ingress_authority b.ingress_authority,
  string_equality.beq_iff a.egress_authority b.egress_authority,
  transport_identity_key_equality.beq_iff a.ingress_transport b.ingress_transport,
  transport_identity_key_equality.beq_iff a.egress_transport b.egress_transport,
)

instance abbrev pub route_key_equality : Equality RouteKey
route_key_equality = record { beq = route_key_beq; beq_iff = route_key_beq_iff }

unfoldable pub from_endpoints : Endpoint → Endpoint → RouteKey
from_endpoints in_ep out_ep = record {
  ingress_authority = in_ep.authority;
  egress_authority = out_ep.authority;
  ingress_transport = record { transport = in_ep.transport };
  egress_transport = record { transport = out_ep.transport };
}

abbrev pub RouteTable : Type 0
RouteTable = List RouteKey

-- `HashSet::insert`: `true` only when first inserted.
unfoldable pub insert_route : RouteTable → RouteKey → Bool × RouteTable
insert_route routes key = if contains key routes then (false, routes) else (true, key ∷ routes)

-- `HashSet::remove`: `true` only when the key was there.
unfoldable pub remove_route : RouteTable → RouteKey → Bool × RouteTable
remove_route routes key = (contains key routes, erase key routes)
