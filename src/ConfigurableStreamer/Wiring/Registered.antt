-- ===== src/ConfigurableStreamer/Wiring/Registered.antt =====
-- The endpoints that a configuration registers.
use up_streamer_rust.Base.{
  ℕ, String, ◌≡◌, refl, sym, ap, ◌∙◌, ◌↔◌, inl, inr, true, false, Option, none, some, List, [], ◌∷◌,
  arith, if◌then◌else◌, ok, err, Bool-cases, Option-cases, or_else, ◌==◌, nat_equality,
  string_equality, option_equality, pair_equality, beq_self,
}
use mathlib.Core.Path.{subst}
use up_streamer_rust.Base.Lists.{contains, Distinct}
use up_streamer_rust.Base.Loops.{for_each}
use up_streamer_rust.Base.Map.{get, insert, get-insert, get-insert_self}
use up_streamer_rust.ControlPlane.RouteTable.{Endpoint}
use up_streamer_rust.ConfigurableStreamer.{
  EndpointConfig, Endpoints, endpoint_of, register_endpoint, register_transport_endpoints,
  duplicate_endpoint,
}

abbrev names : List EndpointConfig → List String
names [] = []
names (c ∷ rest) = c.endpoint ∷ names rest

-- The endpoint that is configured under a name.
abbrev configured : ℕ → List EndpointConfig → String → Option Endpoint
configured transport [] name = none
configured transport (c ∷ rest) name =
    if c.endpoint == name then some (endpoint_of transport c) else configured transport rest name

-- Each name stands once and is new, and the endpoints are those configured and those before.
pub record IsRegistered (transport : ℕ) (cs : List EndpointConfig) (before after : Endpoints)
    : Type 0 where
  distinct : Distinct (names cs)
  new : (name : String) → contains name (names cs) ≡ true → get name before ≡ none
  found :
      (name : String) → get name after ≡ or_else (configured transport cs name) (get name before)

configured_absent :
    (transport : ℕ) (cs : List EndpointConfig) (name : String)
    → contains name (names cs) ≡ false
    → configured transport cs name ≡ none
configured_absent transport [] name absent = refl
configured_absent transport (c ∷ rest) name absent =
    ground (arith, configured_absent transport rest name)

module _ (transport : ℕ) (c : EndpointConfig) (rest : List EndpointConfig)
    (before after : Endpoints) where
  IsRegistered-cons :
      get c.endpoint before ≡ none
      → IsRegistered transport rest (insert c.endpoint (endpoint_of transport c) before) after
      → IsRegistered transport (c ∷ rest) before after
  IsRegistered-cons absent r = record {
    distinct = (
      ground (arith, r.new c.endpoint, get-insert_self c.endpoint (endpoint_of transport c) before),
      r.distinct,
    );
    new = λ name h. ground (
      arith,
      absent,
      r.new name,
      string_equality.beq_iff c.endpoint name,
      get-insert c.endpoint name (endpoint_of transport c) before,
    );
    found = λ name. ground (
      arith,
      absent,
      r.found name,
      r.new name,
      string_equality.beq_iff c.endpoint name,
      get-insert c.endpoint name (endpoint_of transport c) before,
      configured_absent transport rest name,
      Bool-cases (contains name (names rest)),
    );
  }

  IsRegistered-tail :
      IsRegistered transport (c ∷ rest) before after
      → (get c.endpoint before ≡ none)
        × IsRegistered transport rest (insert c.endpoint (endpoint_of transport c) before) after
  IsRegistered-tail r = (
    r.new c.endpoint (rw (beq_self c.endpoint) refl),
    record {
      distinct = r.distinct.1;
      new = λ name h. ground (
        arith,
        r.new name,
        r.distinct.0,
        string_equality.beq_iff c.endpoint name,
        get-insert c.endpoint name (endpoint_of transport c) before,
      );
      found = λ name. ground (
        arith,
        r.found name,
        r.distinct.0,
        configured_absent transport rest c.endpoint,
        string_equality.beq_iff c.endpoint name,
        get-insert c.endpoint name (endpoint_of transport c) before,
      );
    },
  )

module _ (transport : ℕ) (c : EndpointConfig) (rest : List EndpointConfig)
    (before : Endpoints) where
  registers_new :
      get c.endpoint before ≡ none
      → register_transport_endpoints before (c ∷ rest) transport
        ≡ register_transport_endpoints
            (insert c.endpoint (endpoint_of transport c) before)
            rest
            transport
  unfolding register_transport_endpoints for_each register_endpoint
  registers_new absent = rw (absent, register_endpoint) refl

  refuses_old :
      (old : Endpoint)
      → get c.endpoint before ≡ some old
      → (register_transport_endpoints before (c ∷ rest) transport).0
        ≡ err (duplicate_endpoint c.endpoint)
  unfolding register_transport_endpoints for_each register_endpoint
  refuses_old old there = rw (there, register_endpoint) refl

module _ (transport : ℕ) where
  registered :
      (cs : List EndpointConfig) (before : Endpoints)
      → (register_transport_endpoints before cs transport).0 ≡ ok tt
      → IsRegistered transport cs before (register_transport_endpoints before cs transport).1
  unfolding register_transport_endpoints for_each
  registered [] before worked = record { distinct = tt; new = λ name h. cc; found = λ name. refl }
  registered (c ∷ rest) before worked = elim (Option-cases (get c.endpoint before)) [
    | inl absent ↦
        let same = registers_new transport c rest before absent in
        subst (λ x. IsRegistered transport (c ∷ rest) before x.1) (sym same)
          (IsRegistered-cons transport c rest before _ absent (
            registered rest (insert c.endpoint (endpoint_of transport c) before)
              (subst (λ x. x.0 ≡ ok tt) same worked)))
    | inr (old, there) ↦ let refused = refuses_old transport c rest before old there in cc
  ]

  registers :
      (cs : List EndpointConfig) (before after : Endpoints)
      → IsRegistered transport cs before after
      → (register_transport_endpoints before cs transport).0 ≡ ok tt
  unfolding register_transport_endpoints for_each
  registers [] before after r = refl
  registers (c ∷ rest) before after r =
      let (absent, r') = IsRegistered-tail transport c rest before after r in
      ap (λ x. x.0) (registers_new transport c rest before absent) ∙ registers rest _ after r'

  -- The endpoints of a transport are registered with success exactly when their names are distinct and none
  -- of them is taken; then each name stands for the endpoint that was configured under it, and the endpoints
  -- registered before stay.
  pub register_transport_endpoints-IsRegistered :
      (cs : List EndpointConfig) (before : Endpoints)
      → ((register_transport_endpoints before cs transport).0 ≡ ok tt)
        ↔ IsRegistered transport cs before (register_transport_endpoints before cs transport).1
  register_transport_endpoints-IsRegistered cs before =
      (registered cs before, registers cs before _)
