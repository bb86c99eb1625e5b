-- ===== src/ConfigurableStreamer.antt =====
-- configurable-streamer/src/main.rs and config.rs: the endpoints and the routes of a configuration. The
-- files, the JSON5 parser and the constructors of the transports are parameters.
pub mod Wiring
use up_streamer_rust.Base.{
  and_then, ℕ, zero, suc, ◌+◌, ◌-◌, ◌%◌, ◌^◌, ◌≤◌, ◌<◌, String, ◌≡◌, refl, sym, ap, ◌∙◌, ◌≢◌, ◌↔◌,
  ◌⊎◌, inl, inr, Bool, true, false, not, ◌&&◌, ◌||◌, Option, none, some, List, [], ◌∷◌, map, arith,
  ltb, leb, if◌then◌else◌, Result, ok, err, Bool-cases, Option-cases, Result-cases, or_else,
  or_else-none, or_else_self, Equality, ◌==◌, nat_equality, string_equality, option_beq,
  option_beq_iff, option_equality, pair_equality, beq_self, eq_of_beq, beq_false, ne_of_beq,
  beq_comm,
}
use Prim.Native.String.{◌++◌}
use up_streamer_rust.Base.Loops.{for_each}
use up_streamer_rust.Base.Map.{Map, get, insert}
use up_streamer_rust.UpRust.{UriOps, UCode, UStatus, fail_with_code}
use up_streamer_rust.DataPlane.Transport.{TransportOps}
use up_streamer_rust.DataPlane.EgressPool.{RuntimeOps}
use up_streamer_rust.ControlPlane.RouteTable.{Endpoint}
use up_streamer_rust.Streamer.{UStreamer, SubscriptionOps, FormatOps, add_route}
use up_streamer_rust.Streamer
use up_streamer_rust.StaticFile.{USubscriptionStaticFile, ValueOps, Files, fetch_subscriptions}
use up_streamer_rust.StaticFile

pub record EndpointConfig : Type 0 where
  pub authority : String
  pub endpoint : String
  pub forwarding : List String

pub data SubscriptionProviderMode : Type 0 where
  static_file live_usubscription : SubscriptionProviderMode

pub record USubscriptionConfig : Type 0 where
  pub mode : SubscriptionProviderMode
  pub file_path : String

pub record ZenohTransport : Type 0 where
  pub config_file : String
  pub endpoints : List EndpointConfig

pub record MqttConfigDetails : Type 0 where
  pub hostname : String
  pub port : ℕ

pub record MqttTransport : Type 0 where
  pub config_file : String
  pub endpoints : List EndpointConfig
  pub mqtt_details : Option MqttConfigDetails

pub record Config : Type 0 where
  pub message_queue_size : ℕ
  pub authority : String
  pub usubscription_config : USubscriptionConfig
  pub zenoh : ZenohTransport
  pub mqtt : MqttTransport

abbrev pub Endpoints : Type 0
Endpoints = Map String Endpoint

-- `Endpoint::new` on a configured endpoint.
abbrev pub endpoint_of : ℕ → EndpointConfig → Endpoint
endpoint_of transport c = record {
  name = c.endpoint;
  authority = c.authority;
  transport = transport;
}

abbrev pub duplicate_endpoint : String → UStatus
duplicate_endpoint name =
    fail_with_code UCode.invalid_argument ("Duplicate endpoint name found: " ++ name)

-- One turn of the loop; `insert` has written the endpoint by the time that it returns the old one.
unfoldable pub register_endpoint :
    ℕ → EndpointConfig → Endpoints → Result UStatus (Unit {0}) × Endpoints
register_endpoint transport c endpoints =
    let endpoints' = insert c.endpoint (endpoint_of transport c) endpoints in
    elim (get c.endpoint endpoints) [
      | some old ↦ (err (duplicate_endpoint c.endpoint), endpoints')
      | none ↦ (ok tt, endpoints')
    ]

unfoldable pub register_transport_endpoints :
    Endpoints → List EndpointConfig → ℕ → Result UStatus (Unit {0}) × Endpoints
register_transport_endpoints endpoints endpoint_configs transport =
    for_each (register_endpoint transport) endpoint_configs endpoints

abbrev pub unknown_endpoint : String → UStatus
unknown_endpoint name =
    fail_with_code UCode.invalid_argument ("Unknown endpoint in forwarding rules: " ++ name)

abbrev pub unknown_target : String → UStatus
unknown_target name =
    fail_with_code UCode.invalid_argument ("Unknown forwarding target endpoint: " ++ name)

module _ ⦃o : UriOps⦄ ⦃f : FormatOps⦄ ⦃e : RuntimeOps⦄ {W : Type 0} ⦃t : TransportOps W⦄ where
  -- The body of the inner loop.
  unfoldable pub wire_target :
      Endpoints → String → String → UStreamer W → Result UStatus (Unit {0}) × UStreamer W
  wire_target endpoints name target s = elim (get name endpoints) [
    | none ↦ (err (unknown_endpoint name), s)
    | some left ↦ elim (get target endpoints) [
      | none ↦ (err (unknown_target target), s)
      | some right ↦ add_route s left right
    ]
  ]

  -- The inner loop; `?` leaves both loops at the first error.
  unfoldable pub wire_endpoint :
      Endpoints → EndpointConfig → UStreamer W → Result UStatus (Unit {0}) × UStreamer W
  wire_endpoint endpoints c s = for_each (wire_target endpoints c.endpoint) c.forwarding s

  unfoldable pub wire_forwarding_rules :
      UStreamer W → Endpoints → List EndpointConfig → Result UStatus (Unit {0}) × UStreamer W
  wire_forwarding_rules s endpoints endpoint_configs =
      for_each (wire_endpoint endpoints) endpoint_configs s

-- What `main` does outside of this repository. An error is its debug text; a transport is connected when
-- it is returned.
pub record AppOps (V : Type 0) : Type 0 where
  pub open_file : String → Result String ℕ
  pub read_to_string : ℕ → Result String String
  pub parse_config : String → Result String Config
  pub load_mqtt_details : String → Result String MqttConfigDetails
  pub zenoh_transport : String → String → Result UStatus ℕ
  pub mqtt5_transport : String → String → Result UStatus ℕ
  pub to_string : ℕ → String
  pub files : Files V

-- `map_err` and `?`
abbrev pub or_fail : {A : Type 0} → UCode → String → Result String A → Result UStatus A
or_fail code what (ok a) = ok a
or_fail code what (err debug) = err (fail_with_code code (what ++ debug))

abbrev pub details_or_fail : Option MqttConfigDetails → Result UStatus MqttConfigDetails
details_or_fail (some details) = ok details
details_or_fail none = err (
    fail_with_code UCode.invalid_argument
      "MQTT transport details are missing after load_mqtt_details")

abbrev pub static_file_or_fail : USubscriptionConfig → Result UStatus USubscriptionStaticFile
static_file_or_fail c = elim c.mode [
  | static_file ↦ ok (StaticFile.new c.file_path)
  | live_usubscription ↦ err (
      fail_with_code UCode.unimplemented
        "live_usubscription mode is reserved in this phase; live runtime integration is deferred (see reports/usubscription-decoupled-pubsub-migration/05-live-integration-deferred.md)")
]

abbrev pub then_value :
    {A B : Type 0} → Result UStatus (Unit {0}) × A → (A → Result UStatus B) → Result UStatus B
then_value (ok u, a) next = next a
then_value (err e, a) next = err e

module _ {V : Type 0} (app : AppOps V) where
  unfoldable pub load_config : String → Result UStatus Config
  load_config path =
      and_then (or_fail UCode.not_found "File not found: " (app.open_file path)) (λ file.
        and_then (or_fail UCode.internal "Unable to read config file: " (app.read_to_string file))
          (λ contents.
            and_then
              (or_fail UCode.internal "Unable to parse config file: " (app.parse_config contents))
              (λ (c : Config).
                and_then
                  (or_fail UCode.invalid_argument "Unable to load MQTT transport details: "
                    (app.load_mqtt_details c.mqtt.config_file))
                  (λ details.
                    ok (record c { mqtt = record c.mqtt { mqtt_details = some details } })))))

module _ ⦃o : UriOps⦄ ⦃f : FormatOps⦄ ⦃e : RuntimeOps⦄ {W : Type 0} ⦃t : TransportOps W⦄ where
  -- The endpoints and the routes of the configuration.
  unfoldable pub wire : Config → UStreamer W → ℕ → ℕ → Result UStatus (UStreamer W)
  wire c s zenoh mqtt5 =
      then_value (register_transport_endpoints [] c.zenoh.endpoints zenoh) (λ first.
        then_value (register_transport_endpoints first c.mqtt.endpoints mqtt5) (λ endpoints.
          then_value (wire_forwarding_rules s endpoints c.zenoh.endpoints) (λ half.
            then_value (wire_forwarding_rules half endpoints c.mqtt.endpoints) (λ all. ok all))))

module _ ⦃o : UriOps⦄ ⦃f : FormatOps⦄ ⦃e : RuntimeOps⦄ {W : Type 0} ⦃t : TransportOps W⦄
    {V : Type 0} ⦃v : ValueOps V⦄ (app : AppOps V) where
  -- `main` up to the wait for the signal to stop.
  unfoldable pub start : String → W → ℕ → Result UStatus (UStreamer W)
  start path world now = and_then (load_config app path) (λ c.
      and_then (static_file_or_fail c.usubscription_config) (λ backend.
        let service : SubscriptionOps USubscriptionStaticFile = record {
          fetch_subscriptions = fetch_subscriptions app.files;
        } in
        let (s, backend') =
          Streamer.new ⦃u = service⦄ "up-streamer" c.message_queue_size world now backend in
        and_then (app.zenoh_transport c.authority c.zenoh.config_file) (λ zenoh.
          and_then (details_or_fail c.mqtt.mqtt_details) (λ details.
            and_then
              (app.mqtt5_transport (details.hostname ++ ":" ++ app.to_string details.port)
                c.authority)
              (λ mqtt5. wire c s zenoh mqtt5)))))
