-- ===== src/DataPlane/IngressRegistry.antt =====
-- up-streamer/src/data_plane/ingress_registry.rs: reference-counted listeners, one for each ingress
-- transport and pair of authorities. `next_address` hands out the addresses of new listeners.
pub mod RefCount
pub mod Connected
pub mod Race
pub mod RoundTrip
pub mod FilterCache
pub mod Listeners
pub mod Fresh
pub mod Calls
pub mod Sync
use up_streamer_rust.Base.{
  ℕ, ◌+◌, String, ◌≡◌, ◌↔◌, Bool, true, ◌&&◌, Option, none, some, List, [], ◌∷◌, ◌++◌, arith, ltb,
  if◌then◌else◌, Result, ok, err, Equality, ◌==◌, nat_equality, string_equality, option_equality,
  pair_equality,
}
use up_streamer_rust.Base.Map.{Map, get, insert, remove, values, or_insert}
use up_streamer_rust.Base.Usize.{increment, decrement}
use up_streamer_rust.UpRust.{UUri, UriOps, UStatus}
use up_streamer_rust.Routing.AuthorityFilter.{authority_to_wildcard_filter}
use up_streamer_rust.Routing.SubscriptionDirectory.{
  SubscriptionDirectory, lookup_route_subscribers_with_version,
}
use up_streamer_rust.Routing.PublishResolution.{
  SourceFilterLookup, PublishSourceFilterCacheKey, publish_source_filter_cache_key_equality,
  derive_source_filters,
}
use up_streamer_rust.DataPlane.IngressListener.{IngressRouteListener}
use up_streamer_rust.DataPlane.IngressListener
use up_streamer_rust.DataPlane.Transport.{
  TransportIdentityKey, transport_identity_key_equality, ListenerFilter, TransportOps,
}

pub data IngressRouteRegistrationError : Type 0 where
  failed_to_register_request_route_listener : IngressRouteRegistrationError
  failed_to_register_publish_route_listener : UUri → IngressRouteRegistrationError

pub record IngressRouteBindingKey : Type 0 where
  pub transport : TransportIdentityKey
  pub ingress_authority : String
  pub egress_authority : String

abbrev pub ingress_route_binding_key_beq : IngressRouteBindingKey → IngressRouteBindingKey → Bool
ingress_route_binding_key_beq a b =
    a.transport == b.transport
    && a.ingress_authority == b.ingress_authority
    && a.egress_authority == b.egress_authority

pub ingress_route_binding_key_beq_iff :
    (a b : IngressRouteBindingKey) → (ingress_route_binding_key_beq a b ≡ true) ↔ (a ≡ b)
ingress_route_binding_key_beq_iff a b = ground (
  arith,
  transport_identity_key_equality.beq_iff a.transport b.transport,
  string_equality.beq_iff a.ingress_authority b.ingress_authority,
  string_equality.beq_iff a.egress_authority b.egress_authority,
)

instance abbrev pub ingress_route_binding_key_equality : Equality IngressRouteBindingKey
ingress_route_binding_key_equality = record {
  beq = ingress_route_binding_key_beq;
  beq_iff = ingress_route_binding_key_beq_iff;
}

pub record IngressRouteBinding : Type 0 where
  pub ref_count : ℕ
  pub listener : IngressRouteListener
  pub registered_filters : List ListenerFilter

pub record IngressRouteRegistry : Type 0 where
  pub bindings : Map IngressRouteBindingKey IngressRouteBinding
  pub publish_filter_cache : Map PublishSourceFilterCacheKey SourceFilterLookup
  pub next_address : ℕ

unfoldable pub new : IngressRouteRegistry
new = record { bindings = []; publish_filter_cache = []; next_address = 0 }

abbrev pub binding_key : ℕ → String → String → IngressRouteBindingKey
binding_key in_transport in_authority out_authority = record {
  transport = record { transport = in_transport };
  ingress_authority = in_authority;
  egress_authority = out_authority;
}

abbrev pub Registration : Type 0
Registration = Result IngressRouteRegistrationError (Option IngressRouteListener)

module _ ⦃o : UriOps⦄ where
  -- The two locked reads and writes of the cache, with no other task between them.
  unfoldable pub derive_publish_filters_cached :
      IngressRouteRegistry
      → String
      → String
      → SubscriptionDirectory
      → SourceFilterLookup × IngressRouteRegistry
  derive_publish_filters_cached r in_authority out_authority directory =
      let (version, subscribers) = lookup_route_subscribers_with_version directory out_authority in
      let key : PublishSourceFilterCacheKey = record {
        ingress_authority = in_authority;
        egress_authority = out_authority;
        snapshot_version = version;
      } in
      elim (get key r.publish_filter_cache) [
        | some cached ↦ (cached, r)
        | none ↦
            let derived = derive_source_filters in_authority subscribers in
            (
              derived,
              record r { publish_filter_cache = or_insert key derived r.publish_filter_cache },
            )
      ]

module _ {W : Type 0} ⦃t : TransportOps W⦄ where
  -- Every filter is unregistered, whatever the transport answers.
  unfoldable pub rollback_registered_filters :
      ℕ → List ListenerFilter → IngressRouteListener → W → W
  rollback_registered_filters in_transport [] l w = w
  rollback_registered_filters in_transport (f ∷ rest) l w =
      rollback_registered_filters in_transport rest l (t.unregister_listener in_transport f l w).1

  -- The loop over the publish filters; `done` are the filters to roll back, oldest first.
  unfoldable pub register_publish_filters :
      ℕ
      → IngressRouteListener
      → List UUri
      → List ListenerFilter
      → W
      → Result IngressRouteRegistrationError (List ListenerFilter) × W
  register_publish_filters in_transport l [] done w = (ok done, w)
  register_publish_filters in_transport l (source_uri ∷ rest) done w =
      let (answer, w') = t.register_listener in_transport (source_uri, none) l w in
      elim answer [
        | err e ↦ (
          err (failed_to_register_publish_route_listener source_uri),
          rollback_registered_filters in_transport done l w',
        )
        | ok _ ↦ register_publish_filters in_transport l rest (done ++ ((source_uri, none) ∷ [])) w'
      ]

  -- The end of `register_route`: a binding that another task has made meanwhile is shared.
  unfoldable pub commit_route :
      IngressRouteRegistry
      → IngressRouteBindingKey
      → ℕ
      → IngressRouteListener
      → List ListenerFilter
      → W
      → Option IngressRouteListener × (IngressRouteRegistry × W)
  commit_route r key in_transport l filters w = elim (get key r.bindings) [
    | some b ↦ (
      none,
      (
        record r {
          bindings = insert key (record b { ref_count = increment b.ref_count }) r.bindings;
        },
        rollback_registered_filters in_transport filters l w,
      ),
    )
    | none ↦ (
      some l,
      (
        record r {
          bindings =
              insert key (record { ref_count = 1; listener = l; registered_filters = filters })
                r.bindings;
        },
        w,
      ),
    )
  ]

  -- The listeners of one binding, one after the other; a refusal is logged and passed over.
  unfoldable pub unregister_filters : ℕ → List ListenerFilter → IngressRouteListener → W → W
  unregister_filters in_transport [] l w = w
  unregister_filters in_transport (f ∷ rest) l w =
      unregister_filters in_transport rest l (t.unregister_listener in_transport f l w).1

  unfoldable pub unregister_route :
      IngressRouteRegistry → ℕ → String → String → W → IngressRouteRegistry × W
  unregister_route r in_transport in_authority out_authority w =
      let key = binding_key in_transport in_authority out_authority in
      elim (get key r.bindings) [
        | none ↦ (r, w)
        | some b ↦
            let left = decrement b.ref_count in
            if ltb 0 left
            then (record r { bindings = insert key (record b { ref_count = left }) r.bindings }, w)
            else (
              record r { bindings = remove key r.bindings },
              unregister_filters in_transport b.registered_filters b.listener w,
            )
      ]

abbrev pub request_filter : String → String → ListenerFilter
request_filter in_authority out_authority =
    (authority_to_wildcard_filter in_authority, some (authority_to_wildcard_filter out_authority))

module _ {W : Type 0} ⦃t : TransportOps W⦄ where
  -- What follows the loop over the publish filters.
  unfoldable pub conclude_registration :
      IngressRouteRegistry
      → IngressRouteBindingKey
      → ℕ
      → IngressRouteListener
      → Result IngressRouteRegistrationError (List ListenerFilter) × W
      → Registration × (IngressRouteRegistry × W)
  conclude_registration r key in_transport l (err e, w) = (err e, (r, w))
  conclude_registration r key in_transport l (ok filters, w) =
      let (made, rest) = commit_route r key in_transport l filters w in (ok made, rest)

module _ ⦃o : UriOps⦄ {W : Type 0} ⦃t : TransportOps W⦄ where
  -- What follows the registration of the request listener, on its answer.
  unfoldable pub register_publish_route :
      IngressRouteRegistry
      → ℕ
      → String
      → String
      → IngressRouteListener
      → SubscriptionDirectory
      → Result UStatus (Unit {0}) × W
      → Registration × (IngressRouteRegistry × W)
  register_publish_route r in_transport in_authority out_authority l directory (err e, w) = (
    err failed_to_register_request_route_listener,
    (
      r,
      rollback_registered_filters in_transport (request_filter in_authority out_authority ∷ []) l w,
    ),
  )
  register_publish_route r in_transport in_authority out_authority l directory (ok _, w) =
      let (filters, r') = derive_publish_filters_cached r in_authority out_authority directory in
      conclude_registration r' (binding_key in_transport in_authority out_authority) in_transport l
        (register_publish_filters in_transport l (values filters)
          (request_filter in_authority out_authority ∷ []) w)

  -- `register_route` where no binding is there.
  unfoldable pub register_new_route :
      IngressRouteRegistry
      → ℕ
      → String
      → String
      → IngressRouteListener
      → SubscriptionDirectory
      → W
      → Registration × (IngressRouteRegistry × W)
  register_new_route r in_transport in_authority out_authority l directory w =
      register_publish_route r in_transport in_authority out_authority l directory
        (t.register_listener in_transport (request_filter in_authority out_authority) l w)

  unfoldable pub register_route :
      IngressRouteRegistry
      → ℕ
      → String
      → String
      → String
      → ℕ
      → SubscriptionDirectory
      → W
      → Registration × (IngressRouteRegistry × W)
  register_route r in_transport in_authority out_authority route_label out_sender directory w =
      let key = binding_key in_transport in_authority out_authority in
      elim (get key r.bindings) [
        | some b ↦ (
          ok none,
          (
            record r {
              bindings = insert key (record b { ref_count = increment b.ref_count }) r.bindings;
            },
            w,
          ),
        )
        | none ↦
            register_new_route (record r { next_address = r.next_address + 1 }) in_transport
              in_authority out_authority (IngressListener.new r.next_address route_label out_sender)
              directory w
      ]
