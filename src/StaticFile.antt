-- ===== src/StaticFile.antt =====
-- utils/usubscription-static-file/src/lib.rs: the uSubscription service that reads a JSON file. The lock
-- around the cache is a field that says whether it is poisoned.
pub mod Projection
pub mod Complete
pub mod Cached
use up_streamer_rust.Base.{
  and_then, ℕ, zero, suc, ◌+◌, ◌-◌, ◌%◌, ◌^◌, ◌≤◌, ◌<◌, String, ◌≡◌, refl, sym, ap, ◌∙◌, ◌≢◌, ◌↔◌,
  ◌⊎◌, inl, inr, Bool, true, false, not, ◌&&◌, ◌||◌, Option, none, some, List, [], ◌∷◌, map, arith,
  ltb, leb, if◌then◌else◌, Result, ok, err, Bool-cases, Option-cases, Result-cases, or_else,
  or_else-none, or_else_self, Equality, ◌==◌, nat_equality, string_equality, option_beq,
  option_beq_iff, option_equality, pair_equality, beq_self, eq_of_beq, beq_false, ne_of_beq,
  beq_comm,
}
use Prim.Native.String.{◌++◌}
use up_streamer_rust.Base.Map.{Map, or_insert, values}
use up_streamer_rust.UpRust.{
  UUri, UriOps, UCode, UStatus, fail_with_code, SubscriberInfo, Subscription,
  FetchSubscriptionsResponse,
}
use up_streamer_rust.StaticFile.Projection.{
  UriProjectionKey, SubscriptionIdentityKey, uri_projection_key_equality,
  subscription_identity_key_equality, from_owned, from_borrowed,
}

pub data StaticFileReloadStrategy : Type 0 where
  always_reload cache_on_first_read : StaticFileReloadStrategy

pub record USubscriptionStaticFile : Type 0 where
  pub static_file : String
  pub reload_strategy : StaticFileReloadStrategy
  pub cached_subscriptions : Option (List Subscription)
  pub is_poisoned : Bool

-- The accessors of `serde_json::Value`, and `UUri::from_str`.
pub record ValueOps (V : Type 0) : Type 0 where
  pub as_object : V → Option (List (String × V))
  pub as_array : V → Option (List V)
  pub as_str : V → Option String
  pub uri_from_str : String → Option UUri

-- The file system and the JSON parser, at the time of one call; an error is its debug text.
pub record Files (V : Type 0) : Type 0 where
  pub canonicalize : String → Result String String
  pub read_to_string : String → Result String String
  pub from_str : String → Result String V

abbrev pub static_resource_id : ℕ
static_resource_id = 32769

unfoldable pub with_reload_strategy : String → StaticFileReloadStrategy → USubscriptionStaticFile
with_reload_strategy static_file reload_strategy = record {
  static_file = static_file;
  reload_strategy = reload_strategy;
  cached_subscriptions = none;
  is_poisoned = false;
}

unfoldable pub new : String → USubscriptionStaticFile
unfolding with_reload_strategy
new static_file = with_reload_strategy static_file always_reload

unfoldable pub clear_cached_subscriptions :
    USubscriptionStaticFile → Result UStatus (Unit {0}) × USubscriptionStaticFile
clear_cached_subscriptions self =
    if self.is_poisoned
    then (
      err (fail_with_code UCode.internal "Static subscription cache write lock is poisoned"),
      self,
    )
    else (ok tt, record self { cached_subscriptions = none })

unfoldable pub unsupported_operation_status : String → UStatus
unsupported_operation_status operation =
    fail_with_code UCode.unimplemented
      (operation ++ " is not supported by USubscriptionStaticFile (read-only backend)")

-- `map_err` and `?`
abbrev invalid_argument : {A : Type 0} → String → Result String A → Result UStatus A
invalid_argument what (ok a) = ok a
invalid_argument what (err debug) = err (fail_with_code UCode.invalid_argument (what ++ debug))

module _ {V : Type 0} ⦃v : ValueOps V⦄ (files : Files V) (self : USubscriptionStaticFile) where
  unfoldable pub canonicalized_static_file_path : Result UStatus String
  canonicalized_static_file_path =
      invalid_argument "Static subscription file not found: " (files.canonicalize self.static_file)

  unfoldable pub read_static_config_json : Result UStatus V
  unfolding canonicalized_static_file_path
  read_static_config_json = and_then canonicalized_static_file_path (λ subscription_json_file.
      and_then
        (invalid_argument "Unable to read file: " (files.read_to_string subscription_json_file))
        (λ text. invalid_argument "Unable to parse JSON: " (files.from_str text)))

abbrev pub with_static_resource : UUri → UUri
with_static_resource topic = record topic { resource_id = static_resource_id }

abbrev pub Subscriptions : Type 0
Subscriptions = Map SubscriptionIdentityKey Subscription

module _ ⦃o : UriOps⦄ {V : Type 0} ⦃v : ValueOps V⦄ where
  -- One turn of the inner loop.
  unfoldable pub add_subscriber : UUri → V → Subscriptions → Subscriptions
  add_subscriber topic subscriber_value m = elim (v.as_str subscriber_value) [
    | none ↦ m
    | some subscriber_str ↦ elim (v.uri_from_str subscriber_str) [
      | none ↦ m
      | some subscriber_uri ↦
          or_insert
            (record { topic = from_borrowed topic; subscriber = from_borrowed subscriber_uri })
            (record {
              topic = some topic;
              subscriber = some (record { uri = some subscriber_uri });
            })
            m
    ]
  ]

  unfoldable pub add_subscribers : UUri → List V → Subscriptions → Subscriptions
  add_subscribers topic [] m = m
  add_subscribers topic (value ∷ rest) m = add_subscribers topic rest (add_subscriber topic value m)

  -- One turn of the outer loop.
  unfoldable pub add_topic : String × V → Subscriptions → Subscriptions
  add_topic (topic_key, subscriber_values) m = elim (v.uri_from_str topic_key) [
    | none ↦ m
    | some uri ↦
        let topic =
          if uri.resource_id == static_resource_id then uri else with_static_resource uri in
        elim (v.as_array subscriber_values) [
          | none ↦ m
          | some subscribers ↦ add_subscribers topic subscribers m
        ]
  ]

  unfoldable pub add_topics : List (String × V) → Subscriptions → Subscriptions
  add_topics [] m = m
  add_topics (entry ∷ rest) m = add_topics rest (add_topic entry m)

  unfoldable pub parse_entries : V → Result UStatus (List Subscription)
  parse_entries value = elim (v.as_object value) [
    | none ↦ err (
        fail_with_code UCode.invalid_argument
          "Static subscription file must be a JSON object mapping topic URI keys to arrays of subscriber URI strings")
    | some entries ↦ ok (values (add_topics entries []))
  ]

  unfoldable pub parse_static_subscriptions :
      Files V → USubscriptionStaticFile → Result UStatus (List Subscription)
  parse_static_subscriptions files self =
      and_then (read_static_config_json files self) parse_entries

-- The end of `load_subscriptions`, under the write lock: the first of two concurrent readers wins.
unfoldable pub store_subscriptions :
    USubscriptionStaticFile
    → Result UStatus (List Subscription)
    → Result UStatus (List Subscription) × USubscriptionStaticFile
store_subscriptions self (err e) = (err e, self)
store_subscriptions self (ok parsed) =
    if self.is_poisoned
    then (
      err (fail_with_code UCode.internal "Static subscription cache write lock is poisoned"),
      self,
    )
    else elim self.cached_subscriptions [
      | some cached ↦ (ok cached, self)
      | none ↦ (ok parsed, record self { cached_subscriptions = some parsed })
    ]

module _ ⦃o : UriOps⦄ {V : Type 0} ⦃v : ValueOps V⦄ where
  -- `load_subscriptions` under `CacheOnFirstRead`.
  unfoldable pub load_cached :
      Files V
      → USubscriptionStaticFile
      → Result UStatus (List Subscription) × USubscriptionStaticFile
  load_cached files self =
      if self.is_poisoned
      then (
        err (fail_with_code UCode.internal "Static subscription cache read lock is poisoned"),
        self,
      )
      else elim self.cached_subscriptions [
        | some cached ↦ (ok cached, self)
        | none ↦ store_subscriptions self (parse_static_subscriptions files self)
      ]

  unfoldable pub load_subscriptions :
      Files V
      → USubscriptionStaticFile
      → Result UStatus (List Subscription) × USubscriptionStaticFile
  load_subscriptions files self = elim self.reload_strategy [
    | always_reload ↦ (parse_static_subscriptions files self, self)
    | cache_on_first_read ↦ load_cached files self
  ]

abbrev pub response_of :
    Result UStatus (List Subscription) → Result UStatus FetchSubscriptionsResponse
response_of (ok subscriptions) = ok (record { subscriptions = subscriptions })
response_of (err e) = err e

module _ ⦃o : UriOps⦄ {V : Type 0} ⦃v : ValueOps V⦄ where
  unfoldable pub fetch_subscriptions :
      Files V
      → USubscriptionStaticFile
      → Result UStatus FetchSubscriptionsResponse × USubscriptionStaticFile
  fetch_subscriptions files self =
      let (loaded, self') = load_subscriptions files self in (response_of loaded, self')

module _ ⦃o : UriOps⦄ where
  -- One turn of the loop of `fetch_subscribers`.
  unfoldable pub collect_subscriber :
      UriProjectionKey
      → Subscription
      → Map UriProjectionKey SubscriberInfo
      → Map UriProjectionKey SubscriberInfo
  collect_subscriber requested subscription m = elim subscription.topic [
    | none ↦ m
    | some topic ↦
        if from_owned topic == requested
        then elim subscription.subscriber [
          | none ↦ m
          | some subscriber ↦ elim subscriber.uri [
            | none ↦ m
            | some uri ↦ or_insert (from_borrowed uri) subscriber m
          ]
        ]
        else m
  ]

  unfoldable pub collect_subscribers :
      UriProjectionKey
      → List Subscription
      → Map UriProjectionKey SubscriberInfo
      → Map UriProjectionKey SubscriberInfo
  collect_subscribers requested [] m = m
  collect_subscribers requested (subscription ∷ rest) m =
      collect_subscribers requested rest (collect_subscriber requested subscription m)

  abbrev subscribers_of :
      UriProjectionKey → Result UStatus (List Subscription) → Result UStatus (List SubscriberInfo)
  subscribers_of requested (err e) = err e
  subscribers_of requested (ok subscriptions) =
      ok (values (collect_subscribers requested subscriptions []))

module _ ⦃o : UriOps⦄ {V : Type 0} ⦃v : ValueOps V⦄ where
  unfoldable pub fetch_subscribers :
      Files V
      → USubscriptionStaticFile
      → Option UUri
      → Result UStatus (List SubscriberInfo) × USubscriptionStaticFile
  fetch_subscribers files self none =
      (err (fail_with_code UCode.invalid_argument "fetch_subscribers requires a topic"), self)
  fetch_subscribers files self (some requested_topic) =
      let (loaded, self') = load_subscriptions files self in
      (subscribers_of (from_owned (with_static_resource requested_topic)) loaded, self')

-- The operations that change subscriptions, which the file does not allow, and those that do nothing.
unfoldable pub subscribe : USubscriptionStaticFile → Result UStatus (Unit {0})
unfolding unsupported_operation_status
subscribe self = err (unsupported_operation_status "subscribe")

unfoldable pub unsubscribe : USubscriptionStaticFile → Result UStatus (Unit {0})
unfolding unsupported_operation_status
unsubscribe self = err (unsupported_operation_status "unsubscribe")

unfoldable pub register_for_notifications : USubscriptionStaticFile → Result UStatus (Unit {0})
register_for_notifications self = ok tt

unfoldable pub unregister_for_notifications : USubscriptionStaticFile → Result UStatus (Unit {0})
unregister_for_notifications self = ok tt

unfoldable pub reset : USubscriptionStaticFile → Result UStatus (Unit {0})
reset self = ok tt
