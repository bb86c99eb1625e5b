-- ===== src/Routing/AuthorityFilter.antt =====
-- up-streamer/src/routing/authority_filter.rs
use up_streamer_rust.Base.{String, ◌≡◌, ap, nat_equality, string_equality}
use up_streamer_rust.UpRust.{UUri}

unfoldable pub authority_to_wildcard_filter : String → UUri
authority_to_wildcard_filter authority_name = record {
  authority_name = authority_name;
  ue_id = 0xFFFF_FFFF;
  ue_version_major = 0xFF;
  resource_id = 0xFFFF;
}

-- Two authorities have the same filter only if they are the same.
pub authority_to_wildcard_filter-injective :
    (a b : String) → authority_to_wildcard_filter a ≡ authority_to_wildcard_filter b → a ≡ b
unfolding authority_to_wildcard_filter
authority_to_wildcard_filter-injective a b e = ap (λ (u : UUri). u.authority_name) e
