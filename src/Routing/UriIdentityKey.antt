-- ===== src/Routing/UriIdentityKey.antt =====
-- up-streamer/src/routing/uri_identity_key.rs
use up_streamer_rust.Base.{
  ℕ, String, ◌≡◌, ◌↔◌, Bool, true, ◌&&◌, arith, Equality, ◌==◌, nat_equality, string_equality,
}
use up_streamer_rust.UpRust.{UUri, UriOps, UriLaws}

pub record UriIdentityKey : Type 0 where
  pub authority_name : String
  pub ue_id : ℕ
  pub ue_version_major : ℕ
  pub resource_id : ℕ

abbrev pub uri_identity_key_beq : UriIdentityKey → UriIdentityKey → Bool
uri_identity_key_beq u v =
    u.authority_name == v.authority_name
    && u.ue_id == v.ue_id
    && u.ue_version_major == v.ue_version_major
    && u.resource_id == v.resource_id

pub uri_identity_key_beq_iff : (u v : UriIdentityKey) → (uri_identity_key_beq u v ≡ true) ↔ (u ≡ v)
uri_identity_key_beq_iff u v = ground (
  arith,
  string_equality.beq_iff u.authority_name v.authority_name,
  nat_equality.beq_iff u.ue_id v.ue_id,
  nat_equality.beq_iff u.ue_version_major v.ue_version_major,
  nat_equality.beq_iff u.resource_id v.resource_id,
)

instance abbrev pub uri_identity_key_equality : Equality UriIdentityKey
uri_identity_key_equality = record {
  beq = uri_identity_key_beq;
  beq_iff = uri_identity_key_beq_iff;
}

module _ ⦃o : UriOps⦄ where
  -- `From<UUri>`, which moves the field out.
  unfoldable pub from_owned : UUri → UriIdentityKey
  from_owned uri = record {
    authority_name = uri.authority_name;
    ue_id = uri.ue_id;
    ue_version_major = o.uentity_major_version uri;
    resource_id = o.get_resource_id uri;
  }

  -- `From<&UUri>`, which calls the getter.
  unfoldable pub from_borrowed : UUri → UriIdentityKey
  from_borrowed uri = record {
    authority_name = o.get_authority_name uri;
    ue_id = uri.ue_id;
    ue_version_major = o.uentity_major_version uri;
    resource_id = o.get_resource_id uri;
  }

  pub from_owned-eq-from_borrowed : UriLaws o → (uri : UUri) → from_owned uri ≡ from_borrowed uri
  unfolding from_owned from_borrowed
  from_owned-eq-from_borrowed l uri = ground (arith, l.get_authority_name_lem uri)
