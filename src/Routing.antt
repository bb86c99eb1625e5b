-- ===== src/Routing.antt =====
-- up-streamer/src/routing: from subscriptions to the source filters of a route.
pub mod UriIdentityKey
pub mod AuthorityFilter
pub mod SubscriptionCache
pub mod SubscriptionDirectory
pub mod PublishResolution
