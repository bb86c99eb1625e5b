-- ===== src/StaticFile/Cached.antt =====
-- The reload strategies of the file backend.
use up_streamer_rust.Base.{
  ◌≡◌, refl, ap, inl, inr, false, some, List, Result, ok, err, Bool-cases, Option-cases,
  nat_equality, string_equality, option_equality, pair_equality,
}
use up_streamer_rust.UpRust.{UriOps, UStatus, Subscription, FetchSubscriptionsResponse}
use up_streamer_rust.StaticFile.{
  USubscriptionStaticFile, ValueOps, Files, cache_on_first_read, store_subscriptions, load_cached,
  load_subscriptions, fetch_subscriptions, response_of,
}

-- A backend that caches, whose cache holds these subscriptions.
record Holds (subscriptions : List Subscription) (self : USubscriptionStaticFile) : Type 0 where
  caching : self.reload_strategy ≡ cache_on_first_read
  sane : self.is_poisoned ≡ false
  cached : self.cached_subscriptions ≡ some subscriptions

abbrev LeavesHeld : Result UStatus (List Subscription) × USubscriptionStaticFile → Type 0
LeavesHeld (ok subscriptions, self) = Holds subscriptions self
LeavesHeld (err e, self) = Unit

store_subscriptions-LeavesHeld :
    (self : USubscriptionStaticFile) (parsed : Result UStatus (List Subscription))
    → self.reload_strategy ≡ cache_on_first_read
    → LeavesHeld (store_subscriptions self parsed)
unfolding store_subscriptions
store_subscriptions-LeavesHeld self (err e) caching = tt
store_subscriptions-LeavesHeld self (ok parsed) caching = elim (Bool-cases self.is_poisoned) [
  | inl e ↦ rw (e, store_subscriptions) tt
  | inr e ↦ elim (Option-cases self.cached_subscriptions) [
    | inl e' ↦
        rw (e, e', store_subscriptions) (record { caching = caching; sane = e; cached = refl })
    | inr (cached, e') ↦
        rw (e, e', store_subscriptions) (record { caching = caching; sane = e; cached = e' })
  ]
]

module _ ⦃o : UriOps⦄ {V : Type 0} ⦃v : ValueOps V⦄ where
  load_cached-LeavesHeld :
      (files : Files V) (self : USubscriptionStaticFile)
      → self.reload_strategy ≡ cache_on_first_read
      → LeavesHeld (load_cached files self)
  unfolding load_cached
  load_cached-LeavesHeld files self caching = elim (Bool-cases self.is_poisoned) [
    | inl e ↦ rw (e, load_cached) tt
    | inr e ↦ elim (Option-cases self.cached_subscriptions) [
      | inl e' ↦ rw (e, e', load_cached) (store_subscriptions-LeavesHeld self _ caching)
      | inr (cached, e') ↦
          rw (e, e', load_cached) (record { caching = caching; sane = e; cached = e' })
    ]
  ]

  load_subscriptions-LeavesHeld :
      (files : Files V) (self : USubscriptionStaticFile)
      → self.reload_strategy ≡ cache_on_first_read
      → LeavesHeld (load_subscriptions files self)
  unfolding load_subscriptions
  load_subscriptions-LeavesHeld files self caching =
      rw (caching, load_subscriptions) (load_cached-LeavesHeld files self caching)

  load_held :
      (files : Files V) (self : USubscriptionStaticFile) (subscriptions : List Subscription)
      → Holds subscriptions self
      → load_subscriptions files self ≡ (ok subscriptions, self)
  unfolding load_subscriptions load_cached
  load_held files self subscriptions h =
      simp (h.caching, h.sane, h.cached, load_subscriptions, load_cached)

  fetch_held :
      (files : Files V) (response : FetchSubscriptionsResponse)
      (x : Result UStatus (List Subscription) × USubscriptionStaticFile)
      → LeavesHeld x
      → response_of x.0 ≡ ok response
      → fetch_subscriptions files x.1 ≡ (ok response, x.1)
  unfolding fetch_subscriptions
  fetch_held files response (ok subscriptions, self) h same =
      rw (load_held files self subscriptions h) (ap (λ r. (r, self)) same)
  fetch_held files response (err e, self) h same = cc

  -- With `CacheOnFirstRead`, once a fetch has been answered, each later fetch is answered in the same way
  -- and changes nothing, whatever has become of the file.
  pub fetch_subscriptions-again :
      (files files' : Files V) (self : USubscriptionStaticFile)
      (response : FetchSubscriptionsResponse)
      → self.reload_strategy ≡ cache_on_first_read
      → (fetch_subscriptions files self).0 ≡ ok response
      → fetch_subscriptions files' (fetch_subscriptions files self).1
        ≡ (ok response, (fetch_subscriptions files self).1)
  unfolding fetch_subscriptions
  fetch_subscriptions-again files files' self response caching answered =
      fetch_held files' response (load_subscriptions files self)
        (load_subscriptions-LeavesHeld files self caching) answered
