-- ===== src/Streamer/Refreshing.antt =====
-- What a refresh of the subscriptions changes.
use up_streamer_rust.Base.{
  ℕ, String, ◌≡◌, refl, sym, ◌⊎◌, inl, inr, Bool, true, false, some, Result, ok, err, Result-cases,
  or_else, nat_equality, string_equality, option_equality, pair_equality,
}
use up_streamer_rust.Base.Map.{get}
use up_streamer_rust.Routing.SubscriptionCache.{
  SubscriptionIdentityKey, subscription_identity_key_equality, rows_or_empty,
  fetch_cache_entry_with_wildcard,
}
use up_streamer_rust.Routing.SubscriptionCache.Lookup.{first_row, fetch-new}
use up_streamer_rust.Routing.SubscriptionCache.Refusal.{FirstLacks, new-FirstLacks}
use mathlib.Core.Path.{subst}
use up_streamer_rust.Base.Usize.{increment}
use up_streamer_rust.UpRust.{UriOps, UStatus, FetchSubscriptionsResponse}
use up_streamer_rust.Routing.SubscriptionCache.{SubscriptionCache, new}
use up_streamer_rust.Routing.SubscriptionDirectory.{SubscriptionDirectory, apply_snapshot}
use up_streamer_rust.Streamer.{
  UStreamer, SubscriptionSyncHealth, SubscriptionOps, record_attempt, refresh_subscriptions,
  apply_fetched, finish_refresh, apply_subscription_snapshot, update_subscription_sync_health,
}

-- The last attempt was now, with this outcome; the one before it is what was the last.
pub record IsMarked (now : ℕ) (succeeded : Bool) (h h' : SubscriptionSyncHealth) : Type 0 where
  pub attempted : h'.last_attempt_at ≡ some now
  pub outcome : h'.last_attempt_succeeded ≡ some succeeded
  pub previous : h'.previous_attempt_succeeded ≡ h.last_attempt_succeeded

-- The service or its response is the reason, the routes and the subscriptions are as before, and
-- the attempt is marked as failed, with the last success as before. A response is the reason if one of its
-- rows is not complete.
pub record IsFailedRefresh {W : Type 0} ⦃o : UriOps⦄ (now : ℕ)
    (fetched : Result UStatus FetchSubscriptionsResponse) (e : UStatus) (s s' : UStreamer W)
    : Type 0 where
  pub reason :
      (fetched ≡ err e)
      ⊎ ((response : FetchSubscriptionsResponse) × (fetched ≡ ok response)
          × FirstLacks response.subscriptions e)
  pub planes : s'.planes ≡ s.planes
  pub directory : s'.subscription_directory ≡ s.subscription_directory
  pub marked : IsMarked now false s.subscription_sync_health s'.subscription_sync_health
  pub last_success :
      s'.subscription_sync_health.last_success_at ≡ s.subscription_sync_health.last_success_at

-- The routes are as before; a lookup finds, for an authority and under each identity, the first row of the
-- response for any authority or else the first for that one; the version is the next one, and the attempt
-- is marked as successful.
pub record IsRefreshed {W : Type 0} ⦃o : UriOps⦄ (now : ℕ)
    (fetched : Result UStatus FetchSubscriptionsResponse) (s s' : UStreamer W) : Type 0 where
  pub planes : s'.planes ≡ s.planes
  pub response : FetchSubscriptionsResponse
  pub answered : fetched ≡ ok response
  pub subscribers :
      (authority : String) (k : SubscriptionIdentityKey)
      → get k (
          rows_or_empty
            (fetch_cache_entry_with_wildcard s'.subscription_directory.snapshot.cache authority))
        ≡ or_else
            (first_row "*" k response.subscriptions)
            (first_row authority k response.subscriptions)
  pub version : s'.subscription_directory.snapshot.version ≡ s.subscription_directory.next_version
  pub marked : IsMarked now true s.subscription_sync_health s'.subscription_sync_health
  pub last_success : s'.subscription_sync_health.last_success_at ≡ some now

-- What an attempt leads to, by its answer; a success answers the health that it stores.
abbrev pub Outcome :
    {W : Type 0}
    → ⦃o : UriOps⦄ → ℕ
    → Result UStatus FetchSubscriptionsResponse
    → UStreamer W
    → Result UStatus SubscriptionSyncHealth × UStreamer W
    → Type 0
Outcome now fetched s (err e, s') = IsFailedRefresh now fetched e s s'
Outcome now fetched s (ok health, s') =
    IsRefreshed now fetched s s' × (health ≡ s'.subscription_sync_health)

abbrev next_directory : SubscriptionDirectory → SubscriptionCache → SubscriptionDirectory
next_directory d cache = record {
  snapshot = record { version = d.next_version; cache = cache };
  next_version = increment d.next_version;
}

module _ ⦃o : UriOps⦄ (d : SubscriptionDirectory) (response : FetchSubscriptionsResponse) where
  apply_snapshot_refused :
      (e : UStatus) → new response ≡ err e → apply_snapshot d response ≡ (err e, d)
  unfolding apply_snapshot
  apply_snapshot_refused e refused = rw (refused, apply_snapshot) refl

  apply_snapshot_accepted :
      (cache : SubscriptionCache)
      → new response ≡ ok cache
      → apply_snapshot d response ≡ (ok tt, next_directory d cache)
  unfolding apply_snapshot
  apply_snapshot_accepted cache accepted = rw (accepted, apply_snapshot) refl

module _ ⦃o : UriOps⦄ {W : Type 0} (now : ℕ) (s : UStreamer W) where
  snapshot_refused :
      (response : FetchSubscriptionsResponse) (e : UStatus)
      → new response ≡ err e
      → apply_subscription_snapshot response s ≡ (err e, s)
  unfolding apply_subscription_snapshot
  snapshot_refused response e refused =
      rw (apply_snapshot_refused s.subscription_directory response e refused) refl

  snapshot_accepted :
      (response : FetchSubscriptionsResponse) (cache : SubscriptionCache)
      → new response ≡ ok cache
      → apply_subscription_snapshot response s ≡ (
        ok tt,
        record s { subscription_directory = next_directory s.subscription_directory cache },
      )
  unfolding apply_subscription_snapshot
  snapshot_accepted response cache accepted =
      rw (apply_snapshot_accepted s.subscription_directory response cache accepted) refl

  apply_fetched-refused :
      (response : FetchSubscriptionsResponse) (e : UStatus)
      → new response ≡ err e
      → apply_fetched now (ok response) s ≡ (
        err e,
        record s { subscription_sync_health = record_attempt now false s.subscription_sync_health },
      )
  unfolding apply_fetched finish_refresh update_subscription_sync_health
  apply_fetched-refused response e refused = rw (snapshot_refused response e refused) refl

  apply_fetched-accepted :
      (response : FetchSubscriptionsResponse) (cache : SubscriptionCache)
      → new response ≡ ok cache
      → apply_fetched now (ok response) s ≡ (
        ok (record_attempt now true s.subscription_sync_health),
        record s {
          subscription_directory = next_directory s.subscription_directory cache;
          subscription_sync_health = record_attempt now true s.subscription_sync_health;
        },
      )
  unfolding apply_fetched finish_refresh update_subscription_sync_health
  apply_fetched-accepted response cache accepted =
      rw (snapshot_accepted response cache accepted) refl

  apply_fetched-Outcome :
      (fetched : Result UStatus FetchSubscriptionsResponse)
      → Outcome now fetched s (apply_fetched now fetched s)
  unfolding apply_fetched finish_refresh update_subscription_sync_health record_attempt
  apply_fetched-Outcome (err e) = record {
    reason = inl refl;
    planes = refl;
    directory = refl;
    marked = record { attempted = refl; outcome = refl; previous = refl };
    last_success = refl;
  }
  apply_fetched-Outcome (ok response) = elim (Result-cases (new response)) [
    | inr (e, refused) ↦
        subst (Outcome now (ok response) s) (sym (apply_fetched-refused response e refused))
          (record {
            reason = inr (response, refl, (new-FirstLacks response e).0 refused);
            planes = refl;
            directory = refl;
            marked = record { attempted = refl; outcome = refl; previous = refl };
            last_success = refl;
          })
    | inl (cache, accepted) ↦
        subst (Outcome now (ok response) s) (sym (apply_fetched-accepted response cache accepted)) (
          record {
            planes = refl;
            response = response;
            answered = refl;
            subscribers = λ authority k. fetch-new response cache authority k accepted;
            version = refl;
            marked = record { attempted = refl; outcome = refl; previous = refl };
            last_success = refl;
          },
          refl,
        )
  ]

module _ ⦃o : UriOps⦄ {W S : Type 0} ⦃u : SubscriptionOps S⦄ where
  -- A refresh never touches the routes. If it fails, the service has failed with that status or it answered
  -- a response whose first incomplete row has that status; the subscriptions and the time of the last success
  -- are as before, and the attempt is marked as failed. If it succeeds, a lookup in the new subscriptions
  -- finds, for an authority and under each identity, the first row of the response with the wildcard
  -- authority, or else the first with that authority; the version is the next one, the attempt is marked as
  -- successful, now is the time of the last success, and the health that is stored is the answer.
  pub refresh_subscriptions-Outcome :
      (now : ℕ) (s : UStreamer W) (service : S)
      → let (answer, rest) = refresh_subscriptions now s service in
        Outcome now (u.fetch_subscriptions service).0 s (answer, rest.0)
  unfolding refresh_subscriptions
  refresh_subscriptions-Outcome now s service =
      apply_fetched-Outcome now s (u.fetch_subscriptions service).0
