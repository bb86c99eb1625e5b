-- ===== src/Routing/PublishResolution.antt =====
-- up-streamer/src/routing/publish_resolution.rs: the source filters of a route, one for each topic.
pub mod Dedupe
use up_streamer_rust.Base.{
  ℕ, String, ◌≡◌, ◌↔◌, Bool, true, false, ◌&&◌, ◌||◌, Option, none, some, List, [], ◌∷◌, arith,
  if◌then◌else◌, Equality, ◌==◌, nat_equality, string_equality, option_equality, pair_equality,
}
use up_streamer_rust.Base.Lists.{contains}
use up_streamer_rust.Base.Map.{Map, values, or_insert}
use up_streamer_rust.UpRust.{UUri, UriOps}
use up_streamer_rust.Routing.UriIdentityKey.{
  UriIdentityKey, uri_identity_key_equality, from_borrowed,
}
use up_streamer_rust.Routing.SubscriptionCache.{SubscriptionInformation, SubscriptionLookup}

abbrev pub SourceFilterLookup : Type 0
SourceFilterLookup = Map UriIdentityKey UUri

pub record PublishSourceFilterCacheKey : Type 0 where
  pub ingress_authority : String
  pub egress_authority : String
  pub snapshot_version : ℕ

abbrev pub publish_source_filter_cache_key_beq :
    PublishSourceFilterCacheKey → PublishSourceFilterCacheKey → Bool
publish_source_filter_cache_key_beq a b =
    a.ingress_authority == b.ingress_authority
    && a.egress_authority == b.egress_authority
    && a.snapshot_version == b.snapshot_version

pub publish_source_filter_cache_key_beq_iff :
    (a b : PublishSourceFilterCacheKey) → (publish_source_filter_cache_key_beq a b ≡ true) ↔ (a ≡ b)
publish_source_filter_cache_key_beq_iff a b = ground (
  arith,
  string_equality.beq_iff a.ingress_authority b.ingress_authority,
  string_equality.beq_iff a.egress_authority b.egress_authority,
  nat_equality.beq_iff a.snapshot_version b.snapshot_version,
)

instance abbrev pub publish_source_filter_cache_key_equality : Equality PublishSourceFilterCacheKey
publish_source_filter_cache_key_equality = record {
  beq = publish_source_filter_cache_key_beq;
  beq_iff = publish_source_filter_cache_key_beq_iff;
}

-- The triple `(u32, u8, u16)`.
abbrev pub TopicKey : Type 0
TopicKey = ℕ × (ℕ × ℕ)

module _ ⦃o : UriOps⦄ where
  unfoldable pub topic_projection_key : UUri → TopicKey
  topic_projection_key topic =
      (topic.ue_id, (o.uentity_major_version topic, o.get_resource_id topic))

  unfoldable pub topic_matches_ingress_authority : String → UUri → Bool
  topic_matches_ingress_authority ingress_authority topic =
      o.has_wildcard_authority topic || o.get_authority_name topic == ingress_authority

  unfoldable pub derive_source_filter_for_topic : String → UUri → Option UUri
  unfolding topic_matches_ingress_authority
  derive_source_filter_for_topic ingress_authority topic =
      if topic_matches_ingress_authority ingress_authority topic
      then o.try_from_parts ingress_authority topic.ue_id (o.uentity_major_version topic)
          (o.get_resource_id topic)
      else none

  -- The loop of `derive_source_filters` over the subscribers, with its two local tables.
  unfoldable pub derive_loop :
      String
      → List SubscriptionInformation
      → List TopicKey
      → SourceFilterLookup
      → SourceFilterLookup
  derive_loop ingress_authority [] seen_topics source_filters = source_filters
  derive_loop ingress_authority (subscriber ∷ rest) seen_topics source_filters =
      let topic_key = topic_projection_key subscriber.topic in
      elim (contains topic_key seen_topics) [
        | true ↦ derive_loop ingress_authority rest seen_topics source_filters
        | false ↦ elim (derive_source_filter_for_topic ingress_authority subscriber.topic) [
          | none ↦ derive_loop ingress_authority rest seen_topics source_filters
          | some source_uri ↦
              derive_loop ingress_authority rest (topic_key ∷ seen_topics)
                (or_insert (from_borrowed source_uri) source_uri source_filters)
        ]
      ]

  unfoldable pub derive_source_filters : String → SubscriptionLookup → SourceFilterLookup
  derive_source_filters ingress_authority subscribers =
      derive_loop ingress_authority (values subscribers) [] []
