-- ===== src/Routing/PublishResolution/Dedupe.antt =====
-- The tables of `derive_source_filters` against a search through the subscribers.
use up_streamer_rust.Base.{
  String, ◌≡◌, refl, sym, ap, ◌∙◌, inl, inr, true, Option, none, some, List, [], ◌∷◌, arith,
  if◌then◌else◌, Bool-cases, Option-cases, or_else, or_else-none, ◌==◌, nat_equality,
  string_equality, option_equality, pair_equality, eq_of_beq,
}
use mathlib.Core.Path.{subst}
use up_streamer_rust.Base.Lists.{contains}
use up_streamer_rust.Base.Map.{
  get, values, or_insert, get-or_insert, or_insert_present, or_insert_keeps, get-or_insert_self,
}
use up_streamer_rust.UpRust.{UUri, UriOps, UriLaws}
use up_streamer_rust.Routing.UriIdentityKey.{
  UriIdentityKey, uri_identity_key_equality, from_borrowed,
}
use up_streamer_rust.Routing.SubscriptionCache.{SubscriptionInformation, SubscriptionLookup}
use up_streamer_rust.Routing.PublishResolution.{
  SourceFilterLookup, TopicKey, topic_projection_key, derive_source_filter_for_topic, derive_loop,
  derive_source_filters,
}

module _ ⦃o : UriOps⦄ (a : String) where
  -- The loop without the table of topics that were seen.
  unfoldable pub plain_loop : List SubscriptionInformation → SourceFilterLookup → SourceFilterLookup
  plain_loop [] m = m
  plain_loop (s ∷ rest) m = elim (derive_source_filter_for_topic a s.topic) [
    | none ↦ plain_loop rest m
    | some u ↦ plain_loop rest (or_insert (from_borrowed u) u m)
  ]

  -- The filter of the first subscriber that has one under this key.
  unfoldable pub first_filter : UriIdentityKey → List SubscriptionInformation → Option UUri
  first_filter k [] = none
  first_filter k (s ∷ rest) = elim (derive_source_filter_for_topic a s.topic) [
    | none ↦ first_filter k rest
    | some u ↦ let later = first_filter k rest in if from_borrowed u == k then some u else later
  ]

  abbrev parts : TopicKey → Option UUri
  parts (e, (v, r)) = o.try_from_parts a e v r

  -- Each topic that was seen has its filter in the table.
  abbrev Covered : List TopicKey → SourceFilterLookup → Type 0
  Covered seen m =
      (t : TopicKey)
      → contains t seen ≡ true
      → (u : UUri) × (w : UUri) × (parts t ≡ some u) × (get (from_borrowed u) m ≡ some w)

  derive-parts :
      (topic u : UUri)
      → derive_source_filter_for_topic a topic ≡ some u
      → parts (topic_projection_key topic) ≡ some u
  unfolding derive_source_filter_for_topic topic_projection_key
  derive-parts topic u h = ground arith

  Covered-step :
      (seen : List TopicKey) (m : SourceFilterLookup) (t : TopicKey) (u : UUri)
      → Covered seen m
      → parts t ≡ some u
      → Covered (t ∷ seen) (or_insert (from_borrowed u) u m)
  Covered-step seen m t u c h t' there = elim (Bool-cases (t == t')) [
    | inl e ↦
        let (w, q) = get-or_insert_self (from_borrowed u) u m in
        (u, w, subst (λ t. parts t ≡ some u) (eq_of_beq t t' e) h, q)
    | inr e ↦
        let (u', w, p, q) = c t' (ground arith) in
        (u', w, p, or_insert_keeps (from_borrowed u) (from_borrowed u') u w m q)
  ]

  -- Skipping the topics that were seen changes nothing.
  derive_loop-eq-plain_loop :
      (rows : List SubscriptionInformation) (seen : List TopicKey) (m : SourceFilterLookup)
      → Covered seen m
      → derive_loop a rows seen m ≡ plain_loop rows m
  unfolding derive_loop plain_loop
  derive_loop-eq-plain_loop [] seen m c = refl
  derive_loop-eq-plain_loop (s ∷ rest) seen m c =
      elim (Option-cases (derive_source_filter_for_topic a s.topic)) [
        | inl skip ↦ elim (Bool-cases (contains (topic_projection_key s.topic) seen)) [
          | inl old ↦
              rw (old, derive_loop)
                (rw (skip, plain_loop) (derive_loop-eq-plain_loop rest seen m c))
          | inr new ↦
              rw (new, derive_loop)
                (rw (skip, plain_loop) (derive_loop-eq-plain_loop rest seen m c))
        ]
        | inr (u, made) ↦ elim (Bool-cases (contains (topic_projection_key s.topic) seen)) [
          | inl old ↦
              let (u', w, p, q) = c (topic_projection_key s.topic) old in
              rw (old, derive_loop)
                (rw (made, plain_loop)
                  (derive_loop-eq-plain_loop rest seen m c
                    ∙ ap (plain_loop rest) (
                        sym (
                          or_insert_present (from_borrowed u) u w m (
                            subst (λ v. get (from_borrowed v) m ≡ some w)
                              (cc (p, derive-parts s.topic u made)) q)))))
          | inr new ↦
              rw (new, derive_loop)
                (rw (made, plain_loop)
                  (derive_loop-eq-plain_loop rest (topic_projection_key s.topic ∷ seen) _
                    (Covered-step seen m _ u c (derive-parts s.topic u made))))
        ]
      ]

  plain_loop-get :
      (rows : List SubscriptionInformation) (m : SourceFilterLookup) (k : UriIdentityKey)
      → get k (plain_loop rows m) ≡ or_else (get k m) (first_filter k rows)
  unfolding plain_loop first_filter
  plain_loop-get [] m k = sym (or_else-none (get k m))
  plain_loop-get (s ∷ rest) m k = elim (Option-cases (derive_source_filter_for_topic a s.topic)) [
    | inl skip ↦ rw (skip, plain_loop, first_filter) (plain_loop-get rest m k)
    | inr (u, made) ↦
        rw (made, plain_loop, first_filter)
          (ground (
            arith,
            plain_loop-get rest (or_insert (from_borrowed u) u m) k,
            get-or_insert (from_borrowed u) k u m,
            uri_identity_key_equality.beq_iff (from_borrowed u) k,
          ))
  ]

  -- The filters of a route are found under their keys exactly as a search through the subscribers would
  -- find them: under each key the filter of the first subscriber that has one, and nothing where none has.
  pub derive_source_filters-first_filter :
      (subscribers : SubscriptionLookup) (k : UriIdentityKey)
      → get k (derive_source_filters a subscribers) ≡ first_filter k (values subscribers)
  unfolding derive_source_filters get
  derive_source_filters-first_filter subscribers k =
      rw (derive_loop-eq-plain_loop (values subscribers) [] [] (λ t h. cc h))
        (plain_loop-get (values subscribers) [] k)

  derive-authority :
      UriLaws o
      → (topic u : UUri) → derive_source_filter_for_topic a topic ≡ some u
      → u.authority_name ≡ a
  unfolding derive_source_filter_for_topic
  derive-authority l topic u h =
      l.try_from_parts-authority a topic.ue_id (o.uentity_major_version topic)
        (o.get_resource_id topic) u (ground arith)

  first_filter-authority :
      UriLaws o
      → (k : UriIdentityKey) (rows : List SubscriptionInformation) (u : UUri)
      → first_filter k rows ≡ some u
      → (u.authority_name ≡ a) × (from_borrowed u ≡ k)
  unfolding first_filter
  first_filter-authority l k [] u h = ground arith
  first_filter-authority l k (s ∷ rest) u h =
      elim (Option-cases (derive_source_filter_for_topic a s.topic)) [
        | inl skip ↦ first_filter-authority l k rest u (rw (skip, first_filter) at h)
        | inr (v, made) ↦ ground (
          arith,
          rw (made, first_filter) at h,
          derive-authority l s.topic v made,
          first_filter-authority l k rest u,
          uri_identity_key_equality.beq_iff (from_borrowed v) k,
        )
      ]

  -- Under the laws of addresses, every filter of a route is a source address of the ingress
  -- authority, and stands under its own key.
  pub derive_source_filters-authority :
      UriLaws o
      → (subscribers : SubscriptionLookup) (k : UriIdentityKey) (u : UUri)
      → get k (derive_source_filters a subscribers) ≡ some u
      → (u.authority_name ≡ a) × (from_borrowed u ≡ k)
  derive_source_filters-authority l subscribers k u h =
      first_filter-authority l k (values subscribers) u
        (sym (derive_source_filters-first_filter subscribers k) ∙ h)
