-- ===== src/UpRust.antt =====
-- What the repository takes from the up-rust crate: the plain data of its messages, and its
-- functions as interfaces, of which the program relies on no more than the laws given here.
use up_streamer_rust.Base.{
  ℕ, String, ◌≡◌, ◌↔◌, Bool, true, ◌&&◌, Option, some, List, arith, Equality, ◌==◌, nat_equality,
  string_equality,
}

-- The protobuf message `UUri`.
pub record UUri : Type 0 where
  pub authority_name : String
  pub ue_id : ℕ
  pub ue_version_major : ℕ
  pub resource_id : ℕ

abbrev pub uuri_beq : UUri → UUri → Bool
uuri_beq u v =
    u.authority_name == v.authority_name
    && u.ue_id == v.ue_id
    && u.ue_version_major == v.ue_version_major
    && u.resource_id == v.resource_id

pub uuri_beq_iff : (u v : UUri) → (uuri_beq u v ≡ true) ↔ (u ≡ v)
uuri_beq_iff u v = ground (
  arith,
  string_equality.beq_iff u.authority_name v.authority_name,
  nat_equality.beq_iff u.ue_id v.ue_id,
  nat_equality.beq_iff u.ue_version_major v.ue_version_major,
  nat_equality.beq_iff u.resource_id v.resource_id,
)

instance abbrev pub uuri_equality : Equality UUri
uuri_equality = record { beq = uuri_beq; beq_iff = uuri_beq_iff }

-- The methods of `UUri` that the program calls.
pub record UriOps : Type 0 where
  pub get_authority_name : UUri → String
  pub uentity_major_version : UUri → ℕ
  pub get_resource_id : UUri → ℕ
  pub has_wildcard_authority : UUri → Bool
  pub try_from_parts : String → ℕ → ℕ → ℕ → Option UUri
  pub display : UUri → String

-- Their documented behaviour, for the theorems that need it.
pub record UriLaws (o : UriOps) : Type 0 where
  pub get_authority_name_lem : (u : UUri) → o.get_authority_name u ≡ u.authority_name
  pub try_from_parts-authority :
      (a : String) (e v r : ℕ) (u : UUri) → o.try_from_parts a e v r ≡ some u → u.authority_name ≡ a
  pub try_from_parts-ue_id :
      (a : String) (e v r : ℕ) (u : UUri) → o.try_from_parts a e v r ≡ some u → u.ue_id ≡ e
  pub try_from_parts-major :
      (a : String) (e v r : ℕ) (u : UUri)
      → o.try_from_parts a e v r ≡ some u
      → o.uentity_major_version u ≡ v
  pub try_from_parts-resource :
      (a : String) (e v r : ℕ) (u : UUri)
      → o.try_from_parts a e v r ≡ some u
      → o.get_resource_id u ≡ r

-- The status codes that the program writes; `other` stands for the rest.
pub data UCode : Type 0 where
  invalid_argument already_exists not_found internal unimplemented unavailable : UCode
  other : ℕ → UCode

pub record UStatus : Type 0 where
  pub code : UCode
  pub message : String

abbrev pub fail_with_code : UCode → String → UStatus
fail_with_code c m = record { code = c; message = m }

-- The protobuf messages of the uSubscription service; an unset message field is `none`.
pub record SubscriberInfo : Type 0 where
  pub uri : Option UUri

pub record Subscription : Type 0 where
  pub topic : Option UUri
  pub subscriber : Option SubscriberInfo

pub record FetchSubscriptionsResponse : Type 0 where
  pub subscriptions : List Subscription
