-- ===== src/Routing/SubscriptionCache.antt =====
-- up-streamer/src/routing/subscription_cache.rs: the subscriptions of a snapshot by the authority
-- of their subscriber, and the same tables with the rows of the wildcard authority merged in.
pub mod Lookup
pub mod Refusal
use up_streamer_rust.Base.Map.{Map, get, insert, or_insert}
use up_streamer_rust.Base.{
  String, ◌≡◌, ◌↔◌, Bool, true, ◌&&◌, Option, none, some, List, [], ◌∷◌, or_else, arith,
  if◌then◌else◌, Result, ok, err, Equality, ◌==◌, nat_equality, string_equality, option_beq,
  option_beq_iff, option_equality, pair_equality,
}
use up_streamer_rust.UpRust.{
  UUri, UriOps, UCode, UStatus, fail_with_code, SubscriberInfo, Subscription,
  FetchSubscriptionsResponse,
}
use up_streamer_rust.Routing.UriIdentityKey.{
  UriIdentityKey, uri_identity_key_equality, from_borrowed,
}

pub record SubscriptionIdentityKey : Type 0 where
  pub topic : UriIdentityKey
  pub subscriber : Option UriIdentityKey

abbrev pub subscription_identity_key_beq : SubscriptionIdentityKey → SubscriptionIdentityKey → Bool
subscription_identity_key_beq a b = a.topic == b.topic && option_beq a.subscriber b.subscriber

pub subscription_identity_key_beq_iff :
    (a b : SubscriptionIdentityKey) → (subscription_identity_key_beq a b ≡ true) ↔ (a ≡ b)
subscription_identity_key_beq_iff a b = ground (
  arith,
  uri_identity_key_equality.beq_iff a.topic b.topic,
  option_beq_iff a.subscriber b.subscriber,
)

instance abbrev pub subscription_identity_key_equality : Equality SubscriptionIdentityKey
subscription_identity_key_equality = record {
  beq = subscription_identity_key_beq;
  beq_iff = subscription_identity_key_beq_iff;
}

pub record SubscriptionInformation : Type 0 where
  pub topic : UUri
  pub subscriber : SubscriberInfo

abbrev pub SubscriptionLookup : Type 0
SubscriptionLookup = Map SubscriptionIdentityKey SubscriptionInformation

pub record SubscriptionCache : Type 0 where
  pub subscription_cache_map : Map String SubscriptionLookup
  pub wildcard_merged_cache_map : Map String SubscriptionLookup

-- `SubscriptionCache::default()`
abbrev pub default_cache : SubscriptionCache
default_cache = record { subscription_cache_map = []; wildcard_merged_cache_map = [] }

-- `HashMap::extend`: the added rows overwrite. A hash map has an arbitrary order; they are inserted
-- from the last to the first.
unfoldable pub extend : SubscriptionLookup → SubscriptionLookup → SubscriptionLookup
extend rows [] = rows
extend rows ((k, v) ∷ more) = insert k v (extend rows more)

unfoldable pub merge_rows :
    String → SubscriptionLookup → Option SubscriptionLookup → SubscriptionLookup
merge_rows authority exact_rows none = exact_rows
merge_rows authority exact_rows (some wildcard_rows) =
    if authority == "*" then exact_rows else extend exact_rows wildcard_rows

-- The loop of `build_wildcard_merged_cache` over the entries of the map.
unfoldable pub merge_entries :
    Option SubscriptionLookup → Map String SubscriptionLookup → Map String SubscriptionLookup
merge_entries wildcard_rows [] = []
merge_entries wildcard_rows ((authority, exact_rows) ∷ m) =
    (authority, merge_rows authority exact_rows wildcard_rows) ∷ merge_entries wildcard_rows m

unfoldable pub build_wildcard_merged_cache :
    Map String SubscriptionLookup → Map String SubscriptionLookup
build_wildcard_merged_cache m = merge_entries (get "*" m) m

abbrev pub missing_topic : UStatus
missing_topic = fail_with_code UCode.invalid_argument "Unable to retrieve topic"

abbrev pub missing_authority : UStatus
missing_authority = fail_with_code UCode.invalid_argument "Unable to retrieve authority name"

abbrev pub rows_or_empty : Option SubscriptionLookup → SubscriptionLookup
rows_or_empty none = []
rows_or_empty (some rows) = rows

module _ ⦃o : UriOps⦄ where
  unfoldable pub identity_of : SubscriptionInformation → SubscriptionIdentityKey
  identity_of information = record {
    topic = from_borrowed information.topic;
    subscriber = elim information.subscriber.uri [
      | none ↦ none
      | some uri ↦ some (from_borrowed uri)
    ];
  }

  -- The two `entry(…).or_insert(…)` calls at the end of a round of the loop.
  unfoldable pub add_row :
      String
      → SubscriptionInformation
      → Map String SubscriptionLookup
      → Map String SubscriptionLookup
  add_row authority information m =
      insert authority
        (or_insert (identity_of information) information (rows_or_empty (get authority m))) m

  -- One round of the loop over the response: the row, or the first thing that it lacks.
  unfoldable pub read_row : Subscription → Result UStatus (String × SubscriptionInformation)
  read_row subscription = elim subscription.topic [
    | none ↦ err missing_topic
    | some topic ↦ elim subscription.subscriber [
      | none ↦ err missing_topic
      | some subscriber ↦ elim subscriber.uri [
        | none ↦ err missing_authority
        | some uri ↦
            ok (o.get_authority_name uri, record { topic = topic; subscriber = subscriber })
      ]
    ]
  ]

  unfoldable pub load_rows :
      List Subscription
      → Map String SubscriptionLookup
      → Result UStatus (Map String SubscriptionLookup)
  load_rows [] m = ok m
  load_rows (subscription ∷ rest) m = elim (read_row subscription) [
    | err e ↦ err e
    | ok (authority, information) ↦ load_rows rest (add_row authority information m)
  ]

  -- `SubscriptionCache::new`
  unfoldable pub new : FetchSubscriptionsResponse → Result UStatus SubscriptionCache
  new response = elim (load_rows response.subscriptions []) [
    | err e ↦ err e
    | ok m ↦ ok (record {
      subscription_cache_map = m;
      wildcard_merged_cache_map = build_wildcard_merged_cache m;
    })
  ]

abbrev pub non_empty : Option SubscriptionLookup → Option SubscriptionLookup
non_empty (some []) = none
non_empty r = r

unfoldable pub fetch_cache_entry_with_wildcard :
    SubscriptionCache → String → Option SubscriptionLookup
fetch_cache_entry_with_wildcard cache entry = non_empty (
    if entry == "*"
    then get "*" cache.wildcard_merged_cache_map
    else or_else (get entry cache.wildcard_merged_cache_map) (get "*" cache.subscription_cache_map))
