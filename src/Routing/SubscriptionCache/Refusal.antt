-- ===== src/Routing/SubscriptionCache/Refusal.antt =====
-- Which responses are refused, and with what status.
use up_streamer_rust.Base.{
  String, ◌≡◌, refl, ◌↔◌, ◌⊎◌, inl, inr, none, some, List, [], ◌∷◌, ok, err, Option-cases,
  nat_equality, string_equality, option_equality, pair_equality,
}
use mathlib.Core.Path.{subst}
use up_streamer_rust.UpRust.{
  UUri, UriOps, UStatus, SubscriberInfo, Subscription, FetchSubscriptionsResponse,
}
use up_streamer_rust.Routing.SubscriptionCache.{
  missing_topic, missing_authority, SubscriptionInformation, read_row, new,
}
use up_streamer_rust.Routing.SubscriptionCache.Lookup.{first_error, new-first_error}

-- A row has its topic, its subscriber and the address of its subscriber.
pub record IsComplete (s : Subscription) : Type 0 where
  topic : UUri
  subscriber : SubscriberInfo
  uri : UUri
  has_topic : s.topic ≡ some topic
  has_subscriber : s.subscriber ≡ some subscriber
  has_uri : subscriber.uri ≡ some uri

-- What a row lacks, and the status for it.
pub data Lacks (s : Subscription) : UStatus → Type 0 where
  no_topic : s.topic ≡ none → Lacks s missing_topic
  no_subscriber : s.subscriber ≡ none → Lacks s missing_topic
  no_address :
      (topic : UUri) (subscriber : SubscriberInfo)
      → s.topic ≡ some topic
      → s.subscriber ≡ some subscriber
      → subscriber.uri ≡ none
      → Lacks s missing_authority

-- The first row that is not complete lacks something that has this status.
abbrev pub FirstLacks : List Subscription → UStatus → Type 0
FirstLacks [] e = ⊥
FirstLacks (s ∷ rest) e = Lacks s e ⊎ (IsComplete s × FirstLacks rest e)

module _ ⦃o : UriOps⦄ where
  data Read (s : Subscription) : Type 0 where
    complete :
        (row : String × SubscriptionInformation) → read_row s ≡ ok row → IsComplete s → Read s
    lacking : (e : UStatus) → read_row s ≡ err e → Lacks s e → Read s

  read : (s : Subscription) → Read s
  unfolding read_row
  read s = elim (Option-cases s.topic) [
    | inl t ↦ lacking missing_topic (rw (t, read_row) refl) (no_topic t)
    | inr (topic, t) ↦ elim (Option-cases s.subscriber) [
      | inl u ↦ lacking missing_topic (rw (t, u, read_row) refl) (no_subscriber u)
      | inr (subscriber, u) ↦ elim (Option-cases subscriber.uri) [
        | inl a ↦
            lacking missing_authority (rw (t, u, read_row) (rw a refl))
              (no_address topic subscriber t u a)
        | inr (uri, a) ↦
            complete (o.get_authority_name uri, record { topic = topic; subscriber = subscriber })
              (rw (t, u, read_row) (simp a))
              (record {
                topic = topic;
                subscriber = subscriber;
                uri = uri;
                has_topic = t;
                has_subscriber = u;
                has_uri = a;
              })
      ]
    ]
  ]

  Lacks-read_row : (s : Subscription) (e : UStatus) → Lacks s e → read_row s ≡ err e
  unfolding read_row
  Lacks-read_row s _ (no_topic t) = rw (t, read_row) refl
  Lacks-read_row s _ (no_subscriber u) = elim (Option-cases s.topic) [
    | inl t ↦ rw (t, read_row) refl
    | inr (topic, t) ↦ rw (t, u, read_row) refl
  ]
  Lacks-read_row s _ (no_address topic subscriber t u a) = rw (t, u, read_row) (rw a refl)

  IsComplete-read_row :
      (s : Subscription)
      → IsComplete s
      → (row : String × SubscriptionInformation) × (read_row s ≡ ok row)
  unfolding read_row
  IsComplete-read_row s c = (
    (o.get_authority_name c.uri, record { topic = c.topic; subscriber = c.subscriber }),
    rw (c.has_topic, c.has_subscriber, read_row) (simp c.has_uri),
  )

  first_error-FirstLacks :
      (rows : List Subscription) (e : UStatus) → first_error rows ≡ some e → FirstLacks rows e
  unfolding first_error
  first_error-FirstLacks [] e h = cc
  first_error-FirstLacks (s ∷ rest) e h = elim (read s) [
    | complete row good c ↦ inr (c, first_error-FirstLacks rest e (rw (good, first_error) at h))
    | lacking x bad l ↦
        let same : x ≡ e = cc (rw (bad, first_error) at h) in inl (subst (Lacks s) same l)
  ]

  FirstLacks-first_error :
      (rows : List Subscription) (e : UStatus) → FirstLacks rows e → first_error rows ≡ some e
  unfolding first_error
  FirstLacks-first_error [] e h = absurd h
  FirstLacks-first_error (s ∷ rest) e (inl l) = rw (Lacks-read_row s e l, first_error) refl
  FirstLacks-first_error (s ∷ rest) e (inr (c, later)) =
      rw ((IsComplete-read_row s c).1, first_error) (FirstLacks-first_error rest e later)

  -- A response is refused with a status exactly when the first of its rows that is not complete lacks
  -- its topic or its subscriber, or has both but no address of its subscriber, and the status is the one
  -- for that.
  pub new-FirstLacks :
      (response : FetchSubscriptionsResponse) (e : UStatus)
      → (new response ≡ err e) ↔ FirstLacks response.subscriptions e
  new-FirstLacks response e =
      let (to, from) = new-first_error response e in
      (
        λ h. first_error-FirstLacks response.subscriptions e (to h),
        λ h. from (FirstLacks-first_error response.subscriptions e h),
      )
