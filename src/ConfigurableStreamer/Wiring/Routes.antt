-- ===== src/ConfigurableStreamer/Wiring/Routes.antt =====
-- The routes that a configuration leads to.
use up_streamer_rust.Base.{
  ◌≡◌, refl, sym, ap, ◌∙◌, inl, inr, Option, none, some, List, [], ◌∷◌, Result, ok, err,
  Option-cases, nat_equality, string_equality, option_equality, pair_equality,
}
use mathlib.Core.Path.{subst}
use up_streamer_rust.Base.Loops.{for_each, and_then_with}
use up_streamer_rust.Base.Map.{get}
use up_streamer_rust.UpRust.{UriOps, UStatus}
use up_streamer_rust.DataPlane.Transport.{TransportOps}
use up_streamer_rust.DataPlane.EgressPool.{RuntimeOps}
use up_streamer_rust.ControlPlane.RouteTable.{
  Endpoint, RouteTable, route_key_equality, from_endpoints,
}
use up_streamer_rust.Streamer.{UStreamer, FormatOps, add_route}
use up_streamer_rust.Streamer.Answers.{IsAdded, added}
use up_streamer_rust.ConfigurableStreamer.{
  EndpointConfig, Endpoints, wire_target, wire_forwarding_rules, unknown_endpoint, unknown_target,
}
use up_streamer_rust.ConfigurableStreamer.Wiring.{
  Rule, rules, wire_rule, wire_forwarding_rules-rules,
}

-- The route of a rule, where both of its names are known.
abbrev pub route_of : Endpoints → Rule → Option (Endpoint × Endpoint)
route_of endpoints (name, target) = elim (get name endpoints) [
  | none ↦ none
  | some left ↦ elim (get target endpoints) [ none ↦ none | some right ↦ some (left, right) ]
]

-- The route table with the routes of the rules, the newest first.
abbrev pub with_routes : Endpoints → List Rule → RouteTable → Option RouteTable
with_routes endpoints [] table = some table
with_routes endpoints (r ∷ rest) table = elim (route_of endpoints r) [
  | none ↦ none
  | some (left, right) ↦ with_routes endpoints rest (from_endpoints left right ∷ table)
]

module _ ⦃o : UriOps⦄ ⦃f : FormatOps⦄ ⦃e : RuntimeOps⦄ {W : Type 0} ⦃t : TransportOps W⦄
    (endpoints : Endpoints) where
  -- A rule either fails and changes nothing, or is a call of `add_route`.
  data Turn (r : Rule) (s : UStreamer W) : Type 0 where
    unknown :
        (status : UStatus)
        → route_of endpoints r ≡ none
        → wire_rule endpoints r s ≡ (err status, s)
        → Turn r s
    known :
        (left right : Endpoint)
        → route_of endpoints r ≡ some (left, right)
        → wire_rule endpoints r s ≡ add_route s left right
        → Turn r s

  turn : (r : Rule) (s : UStreamer W) → Turn r s
  unfolding wire_target
  turn (name, target) s = elim (Option-cases (get name endpoints)) [
    | inl missing ↦
        unknown (unknown_endpoint name) (rw (missing, route_of) refl)
          (rw (missing, wire_target) refl)
    | inr (left, there) ↦ elim (Option-cases (get target endpoints)) [
      | inl missing ↦
          unknown (unknown_target target) (rw (there, missing, route_of) refl)
            (rw (there, missing, wire_target) refl)
      | inr (right, here) ↦
          known left right (rw (there, here, route_of) refl) (rw (there, here, wire_target) refl)
    ]
  ]

  abbrev wire_rules : List Rule → UStreamer W → Result UStatus (Unit {0}) × UStreamer W
  wire_rules = for_each (wire_rule endpoints)

  after_turn :
      (r : Rule) (rest : List Rule) (s : UStreamer W) (x : Result UStatus (Unit {0}) × UStreamer W)
      → wire_rule endpoints r s ≡ x
      → wire_rules (r ∷ rest) s ≡ and_then_with x (wire_rules rest)
  unfolding for_each
  after_turn r rest s x same = ap (λ y. and_then_with y (wire_rules rest)) same

  -- What is left to show after a call of `add_route` that answered `x`.
  wired_after :
      (left right : Endpoint) (rest : List Rule) (table : RouteTable)
      (x : Result UStatus (Unit {0}) × UStreamer W)
      → (x.0 ≡ ok tt → IsAdded (from_endpoints left right) table x.1.planes.route_table)
      → ((s : UStreamer W)
          → (wire_rules rest s).0 ≡ ok tt
          → with_routes endpoints rest s.planes.route_table
            ≡ some (wire_rules rest s).1.planes.route_table)
      → (and_then_with x (wire_rules rest)).0 ≡ ok tt
      → with_routes endpoints rest (from_endpoints left right ∷ table)
        ≡ some (and_then_with x (wire_rules rest)).1.planes.route_table
  wired_after left right rest table (ok u, s) stored again worked =
      ap (λ routes. with_routes endpoints rest routes) (sym (stored refl).stored) ∙ again s worked
  wired_after left right rest table (err status, s) stored again worked = cc

  wired :
      (rs : List Rule) (s : UStreamer W)
      → (wire_rules rs s).0 ≡ ok tt
      → with_routes endpoints rs s.planes.route_table ≡ some (wire_rules rs s).1.planes.route_table
  unfolding for_each
  wired [] s worked = refl
  wired (r ∷ rest) s worked = elim (turn r s) [
    | unknown status absent same ↦
        let refused = sym (ap (λ x. x.0) (after_turn r rest s _ same)) ∙ worked in cc
    | known left right there same ↦
        rw (there, with_routes)
          (let step = after_turn r rest s _ same in
            wired_after left right rest s.planes.route_table (add_route s left right)
              (λ ok. (added s left right ok).1) (wired rest) (subst (λ x. x.0 ≡ ok tt) step worked)
            ∙ ap (λ x. some x.1.planes.route_table) (sym step))
  ]

module _ ⦃o : UriOps⦄ ⦃f : FormatOps⦄ ⦃e : RuntimeOps⦄ {W : Type 0} ⦃t : TransportOps W⦄
    (endpoints : Endpoints) where
  -- When the wiring of the forwarding rules succeeds, both names of every rule are known, and the routes of
  -- the streamer are those that it had and one for each rule, no others, the newest first.
  pub wire_forwarding_rules-with_routes :
      (s : UStreamer W) (cs : List EndpointConfig)
      → (wire_forwarding_rules s endpoints cs).0 ≡ ok tt
      → with_routes endpoints (rules cs) s.planes.route_table
        ≡ some (wire_forwarding_rules s endpoints cs).1.planes.route_table
  wire_forwarding_rules-with_routes s cs worked =
      let same = wire_forwarding_rules-rules endpoints s cs in
      wired endpoints (rules cs) s (subst (λ x. x.0 ≡ ok tt) same worked)
      ∙ ap (λ x. some x.1.planes.route_table) (sym same)
