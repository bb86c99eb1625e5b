-- ===== src/StaticFile/Complete.antt =====
-- The file backend against what the streamer asks of a response.
use up_streamer_rust.Base.{
  String, ◌≡◌, refl, inl, inr, Option, none, some, List, [], ◌∷◌, if◌then◌else◌, Result, ok, err,
  Bool-cases, Option-cases, Result-cases, ◌==◌, nat_equality, string_equality, option_equality,
  pair_equality, eq_of_beq,
}
use up_streamer_rust.Base.Map.{get, insert, or_insert, values}
use up_streamer_rust.UpRust.{UUri, UriOps, UStatus, Subscription, FetchSubscriptionsResponse}
use up_streamer_rust.Routing.SubscriptionCache.{SubscriptionCache, read_row}
use up_streamer_rust.Routing.SubscriptionCache
use up_streamer_rust.Routing.SubscriptionCache.Lookup.{first_error, new-first_error}
use up_streamer_rust.StaticFile.{
  USubscriptionStaticFile, ValueOps, Files, StaticFileReloadStrategy, always_reload,
  cache_on_first_read, Subscriptions, static_resource_id, with_static_resource, add_subscriber,
  add_subscribers, add_topic, add_topics, parse_entries, parse_static_subscriptions,
  read_static_config_json, store_subscriptions, load_cached, load_subscriptions,
  fetch_subscriptions, response_of,
}
use up_streamer_rust.StaticFile.Projection.{
  SubscriptionIdentityKey, subscription_identity_key_equality,
}

-- The subscription has the resource that the service fixes, and an addressed subscriber.
abbrev pub IsComplete : Subscription → Type 0
IsComplete s =
    (topic : UUri) × (uri : UUri) × (s.topic ≡ some topic)
    × (topic.resource_id ≡ static_resource_id)
    × (s.subscriber ≡ some (record { uri = some uri }))

abbrev pub AreComplete : List Subscription → Type 0
AreComplete [] = Unit
AreComplete (s ∷ rest) = IsComplete s × AreComplete rest

insert-AreComplete :
    (k : SubscriptionIdentityKey) (s : Subscription) (m : Subscriptions)
    → IsComplete s
    → AreComplete (values m)
    → AreComplete (values (insert k s m))
unfolding insert
insert-AreComplete k s [] c all = (c, tt)
insert-AreComplete k s ((j, x) ∷ m) c all = elim (Bool-cases (j == k)) [
  | inl e ↦ rw e (c, all.1)
  | inr e ↦ rw e (all.0, insert-AreComplete k s m c all.1)
]

or_insert-AreComplete :
    (k : SubscriptionIdentityKey) (s : Subscription) (m : Subscriptions)
    → IsComplete s
    → AreComplete (values m)
    → AreComplete (values (or_insert k s m))
unfolding or_insert
or_insert-AreComplete k s m c all = elim (Option-cases (get k m)) [
  | inl e ↦ rw (e, or_insert) (insert-AreComplete k s m c all)
  | inr (x, e) ↦ rw (e, or_insert) all
]

fixed_resource :
    (uri : UUri)
    → (if uri.resource_id == static_resource_id then uri else with_static_resource uri).resource_id
      ≡ static_resource_id
fixed_resource uri = elim (Bool-cases (uri.resource_id == static_resource_id)) [
  | inl e ↦ rw e (eq_of_beq uri.resource_id static_resource_id e)
  | inr e ↦ rw e refl
]

-- What was loaded, if it was, is complete.
abbrev pub LoadsComplete : Result UStatus (List Subscription) → Type 0
LoadsComplete (ok subscriptions) = AreComplete subscriptions
LoadsComplete (err e) = Unit

module _ ⦃o : UriOps⦄ {V : Type 0} ⦃v : ValueOps V⦄ where
  add_subscriber-AreComplete :
      (topic : UUri) (value : V) (m : Subscriptions)
      → topic.resource_id ≡ static_resource_id
      → AreComplete (values m)
      → AreComplete (values (add_subscriber topic value m))
  unfolding add_subscriber
  add_subscriber-AreComplete topic value m fixed all = elim (Option-cases (v.as_str value)) [
    | inl e ↦ rw (e, add_subscriber) all
    | inr (text, e) ↦ elim (Option-cases (v.uri_from_str text)) [
      | inl e' ↦ rw (e, e', add_subscriber) all
      | inr (uri, e') ↦
          rw (e, e', add_subscriber)
            (or_insert-AreComplete _ _ m (topic, uri, refl, fixed, refl) all)
    ]
  ]

  add_subscribers-AreComplete :
      (topic : UUri) (list : List V) (m : Subscriptions)
      → topic.resource_id ≡ static_resource_id
      → AreComplete (values m)
      → AreComplete (values (add_subscribers topic list m))
  unfolding add_subscribers
  add_subscribers-AreComplete topic [] m fixed all = all
  add_subscribers-AreComplete topic (value ∷ rest) m fixed all =
      add_subscribers-AreComplete topic rest (add_subscriber topic value m) fixed
        (add_subscriber-AreComplete topic value m fixed all)

  add_topic-AreComplete :
      (entry : String × V) (m : Subscriptions)
      → AreComplete (values m)
      → AreComplete (values (add_topic entry m))
  unfolding add_topic
  add_topic-AreComplete (key, value) m all = elim (Option-cases (v.uri_from_str key)) [
    | inl e ↦ rw (e, add_topic) all
    | inr (uri, e) ↦ elim (Option-cases (v.as_array value)) [
      | inl e' ↦ rw (e, e', add_topic) all
      | inr (list, e') ↦
          rw (e, e', add_topic) (add_subscribers-AreComplete _ list m (fixed_resource uri) all)
    ]
  ]

  add_topics-AreComplete :
      (entries : List (String × V)) (m : Subscriptions)
      → AreComplete (values m)
      → AreComplete (values (add_topics entries m))
  unfolding add_topics
  add_topics-AreComplete [] m all = all
  add_topics-AreComplete (entry ∷ rest) m all =
      add_topics-AreComplete rest (add_topic entry m) (add_topic-AreComplete entry m all)

  parse_entries-LoadsComplete : (value : V) → LoadsComplete (parse_entries value)
  unfolding parse_entries
  parse_entries-LoadsComplete value = elim (Option-cases (v.as_object value)) [
    | inl e ↦ rw (e, parse_entries) tt
    | inr (entries, e) ↦ rw (e, parse_entries) (add_topics-AreComplete entries [] tt)
  ]

  parse_static_subscriptions-LoadsComplete :
      (files : Files V) (self : USubscriptionStaticFile)
      → LoadsComplete (parse_static_subscriptions files self)
  unfolding parse_static_subscriptions
  parse_static_subscriptions-LoadsComplete files self =
      elim (Result-cases (read_static_config_json files self)) [
        | inl (value, e) ↦ rw (e, parse_static_subscriptions) (parse_entries-LoadsComplete value)
        | inr (x, e) ↦ rw (e, parse_static_subscriptions) tt
      ]

-- What is cached, if anything is, is complete.
abbrev pub CachesComplete : Option (List Subscription) → Type 0
CachesComplete none = Unit
CachesComplete (some subscriptions) = AreComplete subscriptions

abbrev pub IsSound : Result UStatus (List Subscription) × USubscriptionStaticFile → Type 0
IsSound (loaded, self) = LoadsComplete loaded × CachesComplete self.cached_subscriptions

store_subscriptions-IsSound :
    (self : USubscriptionStaticFile) (parsed : Result UStatus (List Subscription))
    → CachesComplete self.cached_subscriptions
    → LoadsComplete parsed
    → IsSound (store_subscriptions self parsed)
unfolding store_subscriptions
store_subscriptions-IsSound self (err e) c l = (tt, c)
store_subscriptions-IsSound self (ok parsed) c l = elim (Bool-cases self.is_poisoned) [
  | inl e ↦ rw (e, store_subscriptions) (tt, c)
  | inr e ↦ elim (Option-cases self.cached_subscriptions) [
    | inl e' ↦ rw (e, e', store_subscriptions) (l, l)
    | inr (cached, e') ↦ rw (e, e', store_subscriptions) (rw e' at c, c)
  ]
]

module _ ⦃o : UriOps⦄ {V : Type 0} ⦃v : ValueOps V⦄ where
  load_cached-IsSound :
      (files : Files V) (self : USubscriptionStaticFile)
      → CachesComplete self.cached_subscriptions
      → IsSound (load_cached files self)
  unfolding load_cached
  load_cached-IsSound files self c = elim (Bool-cases self.is_poisoned) [
    | inl e ↦ rw (e, load_cached) (tt, c)
    | inr e ↦ elim (Option-cases self.cached_subscriptions) [
      | inl e' ↦
          rw (e, e', load_cached)
            (store_subscriptions-IsSound self _ c
              (parse_static_subscriptions-LoadsComplete files self))
      | inr (cached, e') ↦ rw (e, e', load_cached) (rw e' at c, c)
    ]
  ]

  load_subscriptions-IsSound :
      (files : Files V) (self : USubscriptionStaticFile) (strategy : StaticFileReloadStrategy)
      → self.reload_strategy ≡ strategy
      → CachesComplete self.cached_subscriptions
      → IsSound (load_subscriptions files self)
  unfolding load_subscriptions
  load_subscriptions-IsSound files self always_reload e c =
      rw (e, load_subscriptions) (parse_static_subscriptions-LoadsComplete files self, c)
  load_subscriptions-IsSound files self cache_on_first_read e c =
      rw (e, load_subscriptions) (load_cached-IsSound files self c)

module _ ⦃o : UriOps⦄ where
  first_error_complete :
      (subscriptions : List Subscription)
      → AreComplete subscriptions
      → first_error subscriptions ≡ none
  unfolding first_error read_row
  first_error_complete [] c = refl
  first_error_complete (s ∷ rest) ((topic, uri, t, fixed, u), c) =
      rw (t, u, first_error, read_row) (first_error_complete rest c)

  new_complete :
      (subscriptions : List Subscription)
      → AreComplete subscriptions
      → (cache : SubscriptionCache) × (SubscriptionCache.new
            (record { subscriptions = subscriptions })
          ≡ ok cache)
  new_complete subscriptions c =
      elim (Result-cases (SubscriptionCache.new (record { subscriptions = subscriptions }))) [
        | inl found ↦ found
        | inr (e, refused) ↦ absurd (
            cc (
              (new-first_error (record { subscriptions = subscriptions }) e).0 refused,
              first_error_complete subscriptions c,
            ))
      ]

-- A response that is answered is accepted by `SubscriptionCache::new`.
abbrev pub IsAccepted : ⦃o : UriOps⦄ → Result UStatus FetchSubscriptionsResponse → Type 0
IsAccepted (ok response) = (cache : SubscriptionCache) × (SubscriptionCache.new response ≡ ok cache)
IsAccepted (err e) = Unit

module _ ⦃o : UriOps⦄ where
  response_of-IsAccepted :
      (loaded : Result UStatus (List Subscription))
      → LoadsComplete loaded
      → IsAccepted (response_of loaded)
  response_of-IsAccepted (ok subscriptions) c = new_complete subscriptions c
  response_of-IsAccepted (err e) c = tt

module _ ⦃o : UriOps⦄ {V : Type 0} ⦃v : ValueOps V⦄ where
  -- Where the backend has cached nothing or a list of complete subscriptions: whatever the file
  -- holds, a response of the backend is one that `SubscriptionCache::new` accepts, and what the
  -- backend has cached afterwards is again nothing or a list of complete subscriptions.
  pub fetch_subscriptions-IsAccepted :
      (files : Files V) (self : USubscriptionStaticFile)
      → CachesComplete self.cached_subscriptions
      → let (answer, self') = fetch_subscriptions files self in
        IsAccepted answer × CachesComplete self'.cached_subscriptions
  unfolding fetch_subscriptions
  fetch_subscriptions-IsAccepted files self c =
      let sound = load_subscriptions-IsSound files self self.reload_strategy refl c in
      (response_of-IsAccepted (load_subscriptions files self).0 sound.0, sound.1)
