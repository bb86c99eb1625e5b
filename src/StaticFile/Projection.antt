-- ===== src/StaticFile/Projection.antt =====
-- The keys under which the file backend finds duplicates.
use up_streamer_rust.Base.{
  ℕ, String, ◌≡◌, ◌↔◌, Bool, true, ◌&&◌, arith, Equality, ◌==◌, nat_equality, string_equality,
}
use up_streamer_rust.UpRust.{UUri, UriOps}

pub record UriProjectionKey : Type 0 where
  pub authority_name : String
  pub ue_id : ℕ
  pub ue_version_major : ℕ
  pub resource_id : ℕ

abbrev pub uri_projection_key_beq : UriProjectionKey → UriProjectionKey → Bool
uri_projection_key_beq u v =
    u.authority_name == v.authority_name
    && u.ue_id == v.ue_id
    && u.ue_version_major == v.ue_version_major
    && u.resource_id == v.resource_id

pub uri_projection_key_beq_iff :
    (u v : UriProjectionKey) → (uri_projection_key_beq u v ≡ true) ↔ (u ≡ v)
uri_projection_key_beq_iff u v = ground (
  arith,
  string_equality.beq_iff u.authority_name v.authority_name,
  nat_equality.beq_iff u.ue_id v.ue_id,
  nat_equality.beq_iff u.ue_version_major v.ue_version_major,
  nat_equality.beq_iff u.resource_id v.resource_id,
)

instance abbrev pub uri_projection_key_equality : Equality UriProjectionKey
uri_projection_key_equality = record {
  beq = uri_projection_key_beq;
  beq_iff = uri_projection_key_beq_iff;
}

module _ ⦃o : UriOps⦄ where
  unfoldable pub from_owned : UUri → UriProjectionKey
  from_owned uri = record {
    authority_name = uri.authority_name;
    ue_id = uri.ue_id;
    ue_version_major = o.uentity_major_version uri;
    resource_id = o.get_resource_id uri;
  }

  unfoldable pub from_borrowed : UUri → UriProjectionKey
  from_borrowed uri = record {
    authority_name = o.get_authority_name uri;
    ue_id = uri.ue_id;
    ue_version_major = o.uentity_major_version uri;
    resource_id = o.get_resource_id uri;
  }

pub record SubscriptionIdentityKey : Type 0 where
  pub topic : UriProjectionKey
  pub subscriber : UriProjectionKey

abbrev pub subscription_identity_key_beq : SubscriptionIdentityKey → SubscriptionIdentityKey → Bool
subscription_identity_key_beq a b = a.topic == b.topic && a.subscriber == b.subscriber

pub subscription_identity_key_beq_iff :
    (a b : SubscriptionIdentityKey) → (subscription_identity_key_beq a b ≡ true) ↔ (a ≡ b)
subscription_identity_key_beq_iff a b = ground (
  arith,
  uri_projection_key_equality.beq_iff a.topic b.topic,
  uri_projection_key_equality.beq_iff a.subscriber b.subscriber,
)

instance abbrev pub subscription_identity_key_equality : Equality SubscriptionIdentityKey
subscription_identity_key_equality = record {
  beq = subscription_identity_key_beq;
  beq_iff = subscription_identity_key_beq_iff;
}
