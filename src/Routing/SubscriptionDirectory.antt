-- ===== src/Routing/SubscriptionDirectory.antt =====
-- up-streamer/src/routing/subscription_directory.rs: the current snapshot behind its version. The
-- two shared cells are read and written by one task at a time, so they are two fields.
use up_streamer_rust.Base.{
  ℕ, ◌+◌, String, none, some, [], Result, ok, err, nat_equality, string_equality, option_equality,
  pair_equality,
}
use up_streamer_rust.Base.Usize.{increment}
use up_streamer_rust.UpRust.{UriOps, UStatus, FetchSubscriptionsResponse}
use up_streamer_rust.Routing.SubscriptionCache.{
  SubscriptionCache, SubscriptionLookup, default_cache, new, fetch_cache_entry_with_wildcard,
}

pub record SubscriptionDirectorySnapshot : Type 0 where
  pub version : ℕ
  pub cache : SubscriptionCache

pub record SubscriptionDirectory : Type 0 where
  pub snapshot : SubscriptionDirectorySnapshot
  pub next_version : ℕ

unfoldable pub from_cache : ℕ → SubscriptionCache → SubscriptionDirectory
from_cache version cache = record {
  snapshot = record { version = version; cache = cache };
  next_version = version + 1;
}

unfoldable pub empty : SubscriptionDirectory
unfolding from_cache
empty = from_cache 0 default_cache

unfoldable pub lookup_route_subscribers_from_snapshot :
    SubscriptionDirectorySnapshot → String → SubscriptionLookup
lookup_route_subscribers_from_snapshot snapshot out_authority =
    elim (fetch_cache_entry_with_wildcard snapshot.cache out_authority) [
      | some subscribers ↦ subscribers
      | none ↦ []
    ]

unfoldable pub lookup_route_subscribers_with_version :
    SubscriptionDirectory → String → ℕ × SubscriptionLookup
unfolding lookup_route_subscribers_from_snapshot
lookup_route_subscribers_with_version d out_authority =
    (d.snapshot.version, lookup_route_subscribers_from_snapshot d.snapshot out_authority)

module _ ⦃o : UriOps⦄ where
  -- A failure leaves the directory as it was; `fetch_add` on the counter wraps around.
  unfoldable pub apply_snapshot :
      SubscriptionDirectory
      → FetchSubscriptionsResponse
      → Result UStatus (Unit {0}) × SubscriptionDirectory
  apply_snapshot d response = elim (new response) [
    | err e ↦ (err e, d)
    | ok next_cache ↦ (
      ok tt,
      record {
        snapshot = record { version = d.next_version; cache = next_cache };
        next_version = increment d.next_version;
      },
    )
  ]
