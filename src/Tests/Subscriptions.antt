-- ===== src/Tests/Subscriptions.antt =====
-- Lookups, filters and the file backend on concrete subscriptions.
use up_streamer_rust.Base.{
  String, ◌≡◌, refl, ◌↔◌, false, Option, none, some, List, [], ◌∷◌, if◌then◌else◌, ok, err, or_else,
  ◌==◌, nat_equality, string_equality, option_equality, pair_equality,
}
use up_streamer_rust.Base.Map.{get}
use up_streamer_rust.UpRust.{uuri_equality, FetchSubscriptionsResponse}
use up_streamer_rust.Routing.UriIdentityKey.{UriIdentityKey, from_borrowed}
use up_streamer_rust.Routing.SubscriptionCache.{
  SubscriptionCache, SubscriptionIdentityKey, SubscriptionLookup,
  subscription_identity_key_equality, rows_or_empty, fetch_cache_entry_with_wildcard, read_row,
  load_rows,
}
use up_streamer_rust.Routing.SubscriptionCache
use up_streamer_rust.Routing.SubscriptionCache.Refusal.{FirstLacks, new-FirstLacks}
use up_streamer_rust.Routing.SubscriptionCache.Lookup.{first_row, fetch-new}
use up_streamer_rust.Routing.PublishResolution.{
  derive_source_filters, derive_loop, derive_source_filter_for_topic, topic_projection_key,
  topic_matches_ingress_authority,
}
use up_streamer_rust.Routing.UriIdentityKey.{uri_identity_key_equality}
use up_streamer_rust.Base.Map.{values, insert, or_insert}
use up_streamer_rust.Routing.PublishResolution.Dedupe.{
  first_filter, derive_source_filters-first_filter, derive_source_filters-authority,
}
use up_streamer_rust.StaticFile.{
  USubscriptionStaticFile, ValueOps, Files, cache_on_first_read, fetch_subscriptions,
  load_subscriptions, load_cached, store_subscriptions, parse_static_subscriptions,
  read_static_config_json, canonicalized_static_file_path, parse_entries,
}
use up_streamer_rust.StaticFile.Complete.{
  IsAccepted, CachesComplete, fetch_subscriptions-IsAccepted,
}
use up_streamer_rust.StaticFile.Cached.{fetch_subscriptions-again}
use up_streamer_rust.Tests.{
  plain_uris, plain_uris-UriLaws, response, topic, subscriber, subscription,
}

abbrev topic_key : UriIdentityKey
topic_key = record {
  authority_name = "vehicle";
  ue_id = 5;
  ue_version_major = 1;
  resource_id = 32769;
}

abbrev subscriber_key : UriIdentityKey
subscriber_key = record {
  authority_name = "cloud";
  ue_id = 7;
  ue_version_major = 1;
  resource_id = 0;
}

abbrev identity : SubscriptionIdentityKey
identity = record { topic = topic_key; subscriber = some subscriber_key }

cached_example : (cache : SubscriptionCache) × (SubscriptionCache.new response ≡ ok cache)
unfolding SubscriptionCache.new load_rows read_row
cached_example = (_, refl)

fetch-new_example :
    get identity (rows_or_empty (fetch_cache_entry_with_wildcard cached_example.0 "cloud"))
    ≡ or_else
        (first_row "*" identity response.subscriptions)
        (first_row "cloud" identity response.subscriptions)
fetch-new_example = fetch-new response cached_example.0 "cloud" identity cached_example.1

abbrev headless : FetchSubscriptionsResponse
headless = record { subscriptions = subscription ∷ record { topic = none; subscriber = none } ∷ [] }

new-FirstLacks_example :
    (SubscriptionCache.new headless ≡ err SubscriptionCache.missing_topic)
    ↔ FirstLacks headless.subscriptions SubscriptionCache.missing_topic
new-FirstLacks_example = new-FirstLacks headless SubscriptionCache.missing_topic

abbrev rows : SubscriptionLookup
rows = (identity, record { topic = topic; subscriber = record { uri = some subscriber } }) ∷ []

derive_source_filters-first_filter_example :
    get topic_key (derive_source_filters "vehicle" rows)
    ≡ first_filter "vehicle" topic_key (values rows)
derive_source_filters-first_filter_example =
    derive_source_filters-first_filter "vehicle" rows topic_key

derived : get topic_key (derive_source_filters "vehicle" rows) ≡ some topic
unfolding get derive_source_filters derive_loop derive_source_filter_for_topic topic_projection_key
    topic_matches_ingress_authority or_insert insert from_borrowed
derived = refl

derive_source_filters-authority_example :
    (topic.authority_name ≡ "vehicle") × (from_borrowed topic ≡ topic_key)
derive_source_filters-authority_example =
    derive_source_filters-authority "vehicle" plain_uris-UriLaws rows topic_key topic derived

-- A JSON text in which nothing but the kind of each value is kept.
data Json : Type 0 where
  object : List (String × String) → Json
  array text : String → Json

abbrev json_object : Json → Option (List (String × Json))
json_object (Json.object ((key, value) ∷ [])) = some ((key, array value) ∷ [])
json_object (Json.object entries) = some []
json_object value = none

abbrev json_array : Json → Option (List Json)
json_array (array value) = some (text value ∷ text "" ∷ [])
json_array value = none

abbrev json_str : Json → Option String
json_str (text value) = some value
json_str value = none

instance abbrev json_values : ValueOps Json
json_values = record {
  as_object = json_object;
  as_array = json_array;
  as_str = json_str;
  uri_from_str = λ s.
      if s == ""
      then none
      else some (record { authority_name = s; ue_id = 1; ue_version_major = 1; resource_id = 0 });
}

abbrev good_files : Files Json
good_files = record {
  canonicalize = λ p. ok p;
  read_to_string = λ p. ok "{vehicle: [cloud, ?]}";
  from_str = λ s. ok (Json.object (("vehicle", "cloud") ∷ []));
}

abbrev no_files : Files Json
no_files = record {
  canonicalize = λ p. err "gone";
  read_to_string = λ p. err "gone";
  from_str = λ s. err "gone";
}

abbrev backend : USubscriptionStaticFile
backend = record {
  static_file = "subscriptions.json";
  reload_strategy = cache_on_first_read;
  cached_subscriptions = none;
  is_poisoned = false;
}

fetch_subscriptions-IsAccepted_example :
    let (answer, self') = fetch_subscriptions good_files backend in
    IsAccepted answer × CachesComplete self'.cached_subscriptions
fetch_subscriptions-IsAccepted_example = fetch_subscriptions-IsAccepted good_files backend tt

fetched : (r : FetchSubscriptionsResponse) × ((fetch_subscriptions good_files backend).0 ≡ ok r)
unfolding fetch_subscriptions load_subscriptions load_cached store_subscriptions
    parse_static_subscriptions read_static_config_json canonicalized_static_file_path parse_entries
fetched = (_, refl)

fetch_subscriptions-again_example :
    fetch_subscriptions no_files (fetch_subscriptions good_files backend).1
    ≡ (ok fetched.0, (fetch_subscriptions good_files backend).1)
fetch_subscriptions-again_example =
    fetch_subscriptions-again good_files no_files backend fetched.0 refl fetched.1
