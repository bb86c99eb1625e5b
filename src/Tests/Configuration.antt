-- ===== src/Tests/Configuration.antt =====
-- Runs of the configurable streamer.
use up_streamer_rust.Base.{
  ◌≡◌, refl, ◌↔◌, none, List, [], ◌∷◌, Result, ok, err, nat_equality, string_equality,
  option_equality, pair_equality,
}
use up_streamer_rust.Base.Loops.{for_each}
use up_streamer_rust.Base.Map.{get, insert}
use up_streamer_rust.UpRust.{UStatus}
use up_streamer_rust.Streamer.{UStreamer, FormatOps, SubscriptionOps}
use up_streamer_rust.Streamer
use up_streamer_rust.ConfigurableStreamer.{
  EndpointConfig, Endpoints, Config, static_file, register_transport_endpoints,
  wire_forwarding_rules, wire, register_endpoint, wire_endpoint, wire_target,
}
use up_streamer_rust.ConfigurableStreamer.Wiring.Registered.{
  IsRegistered, register_transport_endpoints-IsRegistered,
}
use up_streamer_rust.ConfigurableStreamer.Wiring.Configured.{IsConfigured, wire-IsConfigured}
use up_streamer_rust.Tests.{
  plain_uris, simple_transports, one_runtime, plain_format, tired_service, World, vehicle, cloud,
}
use up_streamer_rust.Tests.Routes.{streamer, streamer_added}

abbrev vehicle_side : List EndpointConfig
vehicle_side =
    record {
      authority = (vehicle 1).authority;
      endpoint = (vehicle 1).name;
      forwarding = (cloud 2).name ∷ [];
    }
    ∷ []

abbrev cloud_side : List EndpointConfig
cloud_side =
    record { authority = (cloud 2).authority; endpoint = (cloud 2).name; forwarding = [] } ∷ []

abbrev config : Config
config = record {
  message_queue_size = 16;
  authority = "streamer";
  usubscription_config = record { mode = static_file; file_path = "subscriptions.json" };
  zenoh = record { config_file = "zenoh.json5"; endpoints = vehicle_side };
  mqtt = record { config_file = "mqtt.json5"; endpoints = cloud_side; mqtt_details = none };
}

register_transport_endpoints-IsRegistered_example :
    ((register_transport_endpoints [] vehicle_side 1).0 ≡ ok tt)
    ↔ IsRegistered 1 vehicle_side [] (register_transport_endpoints [] vehicle_side 1).1
register_transport_endpoints-IsRegistered_example =
    register_transport_endpoints-IsRegistered 1 vehicle_side []

abbrev both : Endpoints
both = ((vehicle 1).name, vehicle 1) ∷ ((cloud 2).name, cloud 2) ∷ []

after_wiring : (x : Result UStatus (Unit {0}) × UStreamer World) → x.0 ≡ ok tt → x ≡ (ok tt, x.1)
after_wiring (ok u, s) h = refl
after_wiring (err e, s) h = cc

wired : wire config streamer 1 2 ≡ ok (Streamer.add_route streamer (vehicle 1) (cloud 2)).1
unfolding wire register_transport_endpoints register_endpoint for_each get insert
    wire_forwarding_rules wire_endpoint wire_target
wired = rw (after_wiring (Streamer.add_route streamer (vehicle 1) (cloud 2)) streamer_added) refl

wire-IsConfigured_example :
    IsConfigured config 1 2 []
      (Streamer.add_route streamer (vehicle 1) (cloud 2)).1.planes.route_table
wire-IsConfigured_example = wire-IsConfigured config streamer _ 1 2 wired
