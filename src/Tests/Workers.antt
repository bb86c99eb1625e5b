-- ===== src/Tests/Workers.antt =====
-- Workers, listeners and the ingress registry on concrete messages.
use up_streamer_rust.Base.{arith}
use up_streamer_rust.Base.{
  ℕ, ◌≡◌, refl, true, false, ◌&&◌, List, [], ◌∷◌, arith, if◌then◌else◌, Result, ok, err, ◌==◌,
  nat_equality, string_equality, option_equality, pair_equality,
}
use up_streamer_rust.Base.Lists.{length, contains}
use up_streamer_rust.UpRust.{uuri_equality}
use up_streamer_rust.DataPlane.IngressListener.{listener_equality}
use up_streamer_rust.DataPlane.Transport.{ListenerFilter}
use up_streamer_rust.DataPlane.IngressRegistry.{
  IngressRouteBinding, IngressRouteBindingKey, binding_key, request_filter, commit_route,
}
use up_streamer_rust.DataPlane.IngressRegistry.Race.{TakesBack, commit_route-TakesBack}
use up_streamer_rust.Base.Map.{get}
use up_streamer_rust.UpRust.{UStatus}
use up_streamer_rust.Routing.SubscriptionDirectory.{empty}
use up_streamer_rust.DataPlane.Transport.{transport_identity_key_equality}
use up_streamer_rust.Base.Bytes.{codes}
use up_streamer_rust.DataPlane.EgressWorker.{route_dispatch_loop, build_runtime_thread_name}
use up_streamer_rust.DataPlane.IngressListener.{IngressRouteListener}
use up_streamer_rust.DataPlane.Channel.{RecvResult, received, lagged, closed}
use up_streamer_rust.DataPlane.EgressWorker.Dispatch.{route_dispatch_loop_lem}
use up_streamer_rust.DataPlane.EgressWorker.ThreadName.{length-build_runtime_thread_name}
use up_streamer_rust.DataPlane.EgressPool.{EgressRoutePool, attach_route, detach_route}
use up_streamer_rust.DataPlane.EgressPool.RefCount.{egress_key, detach-attach}
use up_streamer_rust.DataPlane.IngressRegistry.{
  IngressRouteRegistry, register_route, unregister_route,
}
use up_streamer_rust.DataPlane.IngressRegistry.Sync.{
  IsSynced, register_route-IsSynced, unregister_route-IsSynced,
}
use up_streamer_rust.DataPlane.Transport.{holds}
use up_streamer_rust.Tests.{holds-simple}
use up_streamer_rust.Tests.{
  World, plain_uris, simple_transports, simple_transports-TransportLaws, one_runtime, silence,
  refusal,
}

-- A transport that refuses the message 2, and records what it was asked to send.
abbrev send_recorded : ℕ → List ℕ → Result UStatus (Unit {0}) × List ℕ
send_recorded msg w = (if msg == 2 then err refusal else ok tt, msg ∷ w)

abbrev events : List (RecvResult ℕ)
events = received 1 ∷ lagged 4 ∷ received 2 ∷ received 3 ∷ closed ∷ received 9 ∷ []

route_dispatch_loop_lem_example :
    route_dispatch_loop send_recorded events [] ≡ (true, 3 ∷ 2 ∷ 1 ∷ [])
route_dispatch_loop_lem_example = route_dispatch_loop_lem send_recorded events []

length-build_runtime_thread_name_example :
    length (build_runtime_thread_name (codes "0198-c2d4")) ≡ 15
length-build_runtime_thread_name_example = length-build_runtime_thread_name (codes "0198-c2d4")

abbrev listener : IngressRouteListener
listener = record { address = 0; route_id = "label"; sender = 3 }

abbrev pool : EgressRoutePool
pool = record { message_queue_size = 16; workers = []; next_channel = 0 }

detach-attach_example :
    get (egress_key 2) (detach_route (attach_route pool 2).1 2).workers
    ≡ get (egress_key 2) pool.workers
detach-attach_example = detach-attach pool 2 (egress_key 2) 0 (omega arith) (unfold get in refl)

abbrev registry : IngressRouteRegistry
registry = record { bindings = []; publish_filter_cache = []; next_address = 0 }

registry-IsSynced : IsSynced simple_transports-TransportLaws registry silence
registry-IsSynced = record { held = λ a g l. holds-simple silence a g l; fresh = tt }

register_route-IsSynced_example :
    let (answer, rest) = register_route registry 1 "vehicle" "cloud" "label" 3 empty silence in
    IsSynced simple_transports-TransportLaws rest.0 rest.1
register_route-IsSynced_example =
    register_route-IsSynced simple_transports-TransportLaws registry 1 "vehicle" "cloud" "label" 3
      empty silence registry-IsSynced

unregister_route-IsSynced_example :
    let (registry', w') =
      unregister_route
        (register_route registry 1 "vehicle" "cloud" "label" 3 empty silence).1.0
        1
        "vehicle"
        "cloud"
        (register_route registry 1 "vehicle" "cloud" "label" 3 empty silence).1.1 in
    IsSynced simple_transports-TransportLaws registry' w'
unregister_route-IsSynced_example =
    unregister_route-IsSynced simple_transports-TransportLaws
      (register_route registry 1 "vehicle" "cloud" "label" 3 empty silence).1.0 1 "vehicle" "cloud"
      (register_route registry 1 "vehicle" "cloud" "label" 3 empty silence).1.1
      register_route-IsSynced_example

abbrev filters : List ListenerFilter
filters = request_filter "vehicle" "cloud" ∷ []

abbrev key : IngressRouteBindingKey
key = binding_key 1 "vehicle" "cloud"

abbrev winner : IngressRouteBinding
winner = record {
  ref_count = 1;
  listener = record { address = 9; route_id = "winner"; sender = 4 };
  registered_filters = filters;
}

abbrev raced : IngressRouteRegistry
raced = record { bindings = (key, winner) ∷ []; publish_filter_cache = []; next_address = 10 }

-- The listener of the loser is on the request filter.
abbrev crowded : World
crowded = record {
  world = λ c g k. if 1 == c && contains g filters && listener == k then true else false;
  refused = λ c g k. false;
}

crowded_registered :
    (c : ℕ) (g : ListenerFilter) (k : IngressRouteListener)
    → holds simple_transports-TransportLaws crowded c g k ≡ (crowded.world c g k && true)
crowded_registered c g k = holds-simple crowded c g k

silent :
    (c : ℕ) (g : ListenerFilter) (k : IngressRouteListener)
    → holds simple_transports-TransportLaws silence c g k ≡ false
silent c g k = holds-simple silence c g k

commit_route-TakesBack_example :
    let (made, rest) = commit_route raced key 1 listener filters crowded in
    TakesBack simple_transports-TransportLaws 1 listener silence key winner made rest.0 rest.1
commit_route-TakesBack_example =
    commit_route-TakesBack simple_transports-TransportLaws 1 listener raced key winner filters
      silence crowded (unfold get in refl) (λ g. silent 1 g listener)
      (λ c g k. ground (arith, silent c g k, crowded_registered c g k))
