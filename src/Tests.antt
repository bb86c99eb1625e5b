-- ===== src/Tests.antt =====
-- Concrete transports, services and messages, on which the witnesses run.
pub mod Smoke
pub mod Matrices
pub mod Guarded
pub mod Processes
pub mod Configuration
pub mod Relaying
pub mod Routes
pub mod Subscriptions
pub mod Workers
use up_streamer_rust.Base.{
  ℕ, zero, suc, ◌+◌, ◌-◌, ◌%◌, ◌^◌, ◌≤◌, ◌<◌, String, ◌≡◌, refl, sym, ap, ◌∙◌, ◌≢◌, ◌↔◌, ◌⊎◌, inl,
  inr, Bool, true, false, not, ◌&&◌, ◌||◌, Option, none, some, List, [], ◌∷◌, ◌++◌, map, arith, ltb,
  leb, if◌then◌else◌, Result, ok, err, Bool-cases, Option-cases, Result-cases, or_else,
  or_else-none, or_else_self, Equality, ◌==◌, nat_equality, string_equality, option_beq,
  option_beq_iff, option_equality, pair_equality, beq_self, eq_of_beq, beq_false, ne_of_beq,
  beq_comm,
}
use up_streamer_rust.UpRust.{
  UUri, uuri_equality, UriOps, UriLaws, UCode, UStatus, fail_with_code, SubscriberInfo,
  Subscription, FetchSubscriptionsResponse,
}
use up_streamer_rust.DataPlane.IngressListener.{IngressRouteListener, listener_equality}
use up_streamer_rust.DataPlane.Transport.{holds}
use up_streamer_rust.DataPlane.Transport.{Registrations, marked, DocumentedLaws}
use up_streamer_rust.DataPlane.Transport.Watching.{
  Watched, watched_transports, watched-TransportLaws,
}
use up_streamer_rust.DataPlane.Transport.{ListenerFilter, TransportOps, TransportLaws}
use up_streamer_rust.Base.Bytes.{codes}
use up_streamer_rust.DataPlane.EgressPool.{RuntimeOps}
use up_streamer_rust.ControlPlane.RouteTable.{Endpoint}
use up_streamer_rust.Streamer.{SubscriptionOps, FormatOps}

instance abbrev pub plain_uris : UriOps
plain_uris = record {
  get_authority_name = λ u. u.authority_name;
  uentity_major_version = λ u. u.ue_version_major;
  get_resource_id = λ u. u.resource_id;
  has_wildcard_authority = λ u. u.authority_name == "*";
  try_from_parts = λ a e v r.
      some (record { authority_name = a; ue_id = e; ue_version_major = v; resource_id = r });
  display = λ u. u.authority_name;
}

some_of : {A : Type 0} (x y : A) → some x ≡ some y → x ≡ y
some_of x y h = cc h

pub plain_uris-UriLaws : UriLaws plain_uris
plain_uris-UriLaws = record {
  get_authority_name_lem = λ u. refl;
  try_from_parts-authority = λ a e v r u h. sym (ap (λ x. x.authority_name) (some_of _ u h));
  try_from_parts-ue_id = λ a e v r u h. sym (ap (λ x. x.ue_id) (some_of _ u h));
  try_from_parts-major = λ a e v r u h. sym (ap (λ x. x.ue_version_major) (some_of _ u h));
  try_from_parts-resource = λ a e v r u h. sym (ap (λ x. x.resource_id) (some_of _ u h));
}

-- Transport 9 takes no listener without a sink filter, and it gives none back.
abbrev pub refuses : ℕ → ListenerFilter → Bool
refuses a (source, none) = a == 9
refuses a (source, some sink) = false

abbrev pub refusal : UStatus
refusal = fail_with_code UCode.unavailable "refused"

abbrev pub answer : Bool → Registrations → Registrations → Result UStatus (Unit {0}) × Registrations
answer true before after = (err refusal, before)
answer false before after = (ok tt, after)

abbrev pub plain_transports : TransportOps Registrations
plain_transports = record {
  register_listener = λ a f l w. answer (refuses a f) w (marked true a f l w);
  unregister_listener = λ a f l w. answer (a == 9) w (marked false a f l w);
}

accepted : (b : Bool) (w w' : Registrations) → (answer b w w').0 ≡ ok tt → (answer b w w').1 ≡ w'
accepted true w w' h = cc
accepted false w w' h = refl

refused :
    (b : Bool) (w w' : Registrations) (e : UStatus)
    → (answer b w w').0 ≡ err e
    → (answer b w w').1 ≡ w
refused true w w' e h = refl
refused false w w' e h = cc

plain_transports-DocumentedLaws : DocumentedLaws plain_transports
plain_transports-DocumentedLaws = record {
  registered = λ w. w;
  register_ok = λ a f l w h b g k. ap (λ x. x b g k) (accepted (refuses a f) w _ h);
  register_err = λ a f l w e h b g k. ap (λ x. x b g k) (refused (refuses a f) w _ e h);
  unregister_ok = λ a f l w h b g k. ap (λ x. x b g k) (accepted (a == 9) w _ h);
  unregister_err = λ a f l w e h b g k. ap (λ x. x b g k) (refused (a == 9) w _ e h);
}

-- The listeners of all transports, watched.
abbrev pub World : Type 0
World = Watched Registrations

abbrev pub silence : World
silence = record { world = λ a g l. false; refused = λ a g l. false }

instance abbrev pub simple_transports : TransportOps World
simple_transports = watched_transports plain_transports

pub simple_transports-TransportLaws : TransportLaws simple_transports
simple_transports-TransportLaws =
    watched-TransportLaws plain_transports plain_transports-DocumentedLaws

pub registered-simple :
    (w : World) (a : ℕ) (g : ListenerFilter) (l : IngressRouteListener)
    → simple_transports-TransportLaws.documented.registered w a g l ≡ w.world a g l
unfolding simple_transports-TransportLaws watched-TransportLaws plain_transports-DocumentedLaws
registered-simple w a g l = refl

pub holds-simple :
    (w : World) (a : ℕ) (g : ListenerFilter) (l : IngressRouteListener)
    → holds simple_transports-TransportLaws w a g l ≡ (w.world a g l && not (w.refused a g l))
unfolding simple_transports-TransportLaws watched-TransportLaws plain_transports-DocumentedLaws
holds-simple w a g l = refl

instance abbrev pub one_runtime : RuntimeOps
one_runtime = record { has_runtime = true; build_uuid = λ n. codes "0198c2d4-77aa" }

instance abbrev pub plain_format : FormatOps
plain_format = record { debug = λ text. text }

abbrev pub topic : UUri
topic = record { authority_name = "vehicle"; ue_id = 5; ue_version_major = 1; resource_id = 32769 }

abbrev pub subscriber : UUri
subscriber = record { authority_name = "cloud"; ue_id = 7; ue_version_major = 1; resource_id = 0 }

abbrev pub subscription : Subscription
subscription = record { topic = some topic; subscriber = some (record { uri = some subscriber }) }

abbrev pub response : FetchSubscriptionsResponse
response = record { subscriptions = subscription ∷ subscription ∷ [] }

-- A service whose state is the number of answers that it still gives.
instance abbrev pub tired_service : SubscriptionOps ℕ
tired_service = record {
  fetch_subscriptions = λ n. if n == 0 then (err refusal, n) else (ok response, n - 1);
}

abbrev pub vehicle : ℕ → Endpoint
vehicle transport = record { name = "in"; authority = "vehicle"; transport = transport }

abbrev pub cloud : ℕ → Endpoint
cloud transport = record { name = "out"; authority = "cloud"; transport = transport }
