-- ===== src/ConfigurableStreamer/Wiring.antt =====
-- What the configuration of a streamer comes to.
pub mod Registered
pub mod Routes
pub mod Configured
use up_streamer_rust.Base.{
  ℕ, String, ◌≡◌, refl, sym, ◌∙◌, Option, none, some, List, [], ◌∷◌, ◌++◌, Result, ok, err,
}
use up_streamer_rust.Base.Loops.{for_each, and_then_with, for_each-append, and_then_with_cong}
use up_streamer_rust.UpRust.{UriOps, UStatus}
use up_streamer_rust.DataPlane.Transport.{TransportOps}
use up_streamer_rust.DataPlane.EgressPool.{RuntimeOps}
use up_streamer_rust.Streamer.{UStreamer, FormatOps}
use up_streamer_rust.ConfigurableStreamer.{
  EndpointConfig, Endpoints, wire_target, wire_endpoint, wire_forwarding_rules,
}

-- A forwarding rule: the name of an endpoint and that of a target.
abbrev pub Rule : Type 0
Rule = String × String

abbrev pub rules_of : String → List String → List Rule
rules_of name [] = []
rules_of name (target ∷ rest) = (name, target) ∷ rules_of name rest

-- The rules of a configuration in the order in which the loops meet them.
abbrev pub rules : List EndpointConfig → List Rule
rules [] = []
rules (c ∷ rest) = rules_of c.endpoint c.forwarding ++ rules rest

module _ ⦃o : UriOps⦄ ⦃f : FormatOps⦄ ⦃e : RuntimeOps⦄ {W : Type 0} ⦃t : TransportOps W⦄
    (endpoints : Endpoints) where
  abbrev pub wire_rule : Rule → UStreamer W → Result UStatus (Unit {0}) × UStreamer W
  wire_rule (name, target) s = wire_target endpoints name target s

  for_each-rules_of :
      (name : String) (targets : List String) (s : UStreamer W)
      → for_each (wire_target endpoints name) targets s
        ≡ for_each wire_rule (rules_of name targets) s
  unfolding for_each
  for_each-rules_of name [] s = refl
  for_each-rules_of name (target ∷ rest) s =
      and_then_with_cong (wire_target endpoints name target s) _ _ (for_each-rules_of name rest)

  -- The two loops are one loop over the rules.
  pub wire_forwarding_rules-rules :
      (s : UStreamer W) (cs : List EndpointConfig)
      → wire_forwarding_rules s endpoints cs ≡ for_each wire_rule (rules cs) s
  unfolding for_each wire_forwarding_rules wire_endpoint
  wire_forwarding_rules-rules s [] = refl
  wire_forwarding_rules-rules s (c ∷ rest) = rw (for_each-rules_of c.endpoint c.forwarding s) (
      and_then_with_cong (for_each wire_rule (rules_of c.endpoint c.forwarding) s) _ _
        (λ s'. wire_forwarding_rules-rules s' rest)
      ∙ sym (for_each-append wire_rule (rules_of c.endpoint c.forwarding) (rules rest) s))
