-- ===== src/Routing/SubscriptionCache/Lookup.antt =====
-- What a cache that was built from a response answers, against a search through the response.
use up_streamer_rust.Base.{
  String, ◌≡◌, refl, sym, ◌∙◌, ◌↔◌, inl, inr, false, ◌&&◌, Option, none, some, List, [], ◌∷◌, arith,
  if◌then◌else◌, ok, err, Bool-cases, Result-cases, or_else, or_else-none, or_else_self, ◌==◌,
  nat_equality, string_equality, option_equality, pair_equality, eq_of_beq,
}
use mathlib.Core.Path.{subst, ap₂}
use up_streamer_rust.Base.Map.{Map, get, get-insert, get-or_insert}
use up_streamer_rust.UpRust.{UriOps, UStatus, Subscription, FetchSubscriptionsResponse}
use up_streamer_rust.Routing.SubscriptionCache.{
  SubscriptionIdentityKey, subscription_identity_key_equality, SubscriptionInformation,
  SubscriptionLookup, SubscriptionCache, extend, merge_rows, merge_entries,
  build_wildcard_merged_cache, rows_or_empty, non_empty, identity_of, add_row, read_row, load_rows,
  new, fetch_cache_entry_with_wildcard,
}

abbrev pub get_row :
    String
    → SubscriptionIdentityKey
    → Map String SubscriptionLookup
    → Option SubscriptionInformation
get_row a k m = get k (rows_or_empty (get a m))

module _ ⦃o : UriOps⦄ where
  -- The first complete row of the response under an authority and an identity.
  unfoldable pub first_row :
      String → SubscriptionIdentityKey → List Subscription → Option SubscriptionInformation
  first_row a k [] = none
  first_row a k (s ∷ rest) = elim (read_row s) [
    | err e ↦ first_row a k rest
    | ok (authority, information) ↦
        let later = first_row a k rest in
        if authority == a && identity_of information == k then some information else later
  ]

  -- The first error of the rows.
  unfoldable pub first_error : List Subscription → Option UStatus
  first_error [] = none
  first_error (s ∷ rest) = elim (read_row s) [ err e ↦ some e | ok row ↦ first_error rest ]

  get_row-add_row :
      (authority : String) (information : SubscriptionInformation)
      (m : Map String SubscriptionLookup) (a : String) (k : SubscriptionIdentityKey)
      → get_row a k (add_row authority information m)
        ≡ or_else
            (get_row a k m)
            (if authority == a && identity_of information == k then some information else none)
  unfolding add_row
  get_row-add_row authority information m a k = rw get-insert (
      ground (
        arith,
        string_equality.beq_iff authority a,
        subscription_identity_key_equality.beq_iff (identity_of information) k,
        get-or_insert (identity_of information) k information (rows_or_empty (get authority m)),
      ))

  load_rows-get_row :
      (rows : List Subscription) (m m' : Map String SubscriptionLookup) (a : String)
      (k : SubscriptionIdentityKey)
      → load_rows rows m ≡ ok m'
      → get_row a k m' ≡ or_else (get_row a k m) (first_row a k rows)
  unfolding load_rows first_row
  load_rows-get_row [] m m' a k h = ground arith
  load_rows-get_row (s ∷ rest) m m' a k h = elim (Result-cases (read_row s)) [
    | inl (row, e) ↦
        rw (e, first_row)
          (ground (
            arith,
            load_rows-get_row rest (add_row row.0 row.1 m) m' a k (rw (e, load_rows) at h),
            get_row-add_row row.0 row.1 m a k,
          ))
    | inr (x, e) ↦ cc (rw (e, load_rows) at h)
  ]

  load_rows-first_error :
      (rows : List Subscription) (m : Map String SubscriptionLookup) (e : UStatus)
      → (load_rows rows m ≡ err e) ↔ (first_error rows ≡ some e)
  unfolding load_rows first_error
  load_rows-first_error [] m e = ground arith
  load_rows-first_error (s ∷ rest) m e = elim (Result-cases (read_row s)) [
    | inl (row, q) ↦ rw (q, load_rows, first_error) (load_rows-first_error rest _ e)
    | inr (x, q) ↦ rw (q, load_rows, first_error) (ground arith)
  ]

get-extend :
    (rows more : SubscriptionLookup) (k : SubscriptionIdentityKey)
    → get k (extend rows more) ≡ or_else (get k more) (get k rows)
unfolding extend get
get-extend rows [] k = refl
get-extend rows ((j, v) ∷ more) k =
    ground (arith, get-insert j k v (extend rows more), get-extend rows more k)

get-merge_entries :
    (wildcard : Option SubscriptionLookup) (m : Map String SubscriptionLookup) (a : String)
    → get a (merge_entries wildcard m)
      ≡ (elim (get a m) [ none ↦ none | some rows ↦ some (merge_rows a rows wildcard) ])
unfolding merge_entries get
get-merge_entries wildcard [] a = refl
get-merge_entries wildcard ((j, rows) ∷ m) a = elim (Bool-cases (j == a)) [
  | inl e ↦ rw (e, eq_of_beq j a e)
  | inr e ↦ rw e (get-merge_entries wildcard m a)
]

get-merge_rows :
    (a : String) (rows : SubscriptionLookup) (wildcard : Option SubscriptionLookup)
    (k : SubscriptionIdentityKey)
    → (a == "*") ≡ false
    → get k (merge_rows a rows wildcard) ≡ or_else (get k (rows_or_empty wildcard)) (get k rows)
unfolding merge_rows get
get-merge_rows a rows none k h = refl
get-merge_rows a rows (some w) k h = rw h (get-extend rows w k)

rows_or_empty-non_empty :
    (r : Option SubscriptionLookup) → rows_or_empty (non_empty r) ≡ rows_or_empty r
rows_or_empty-non_empty none = refl
rows_or_empty-non_empty (some []) = refl
rows_or_empty-non_empty (some (x ∷ rows)) = refl

merged_star :
    (x w : Option SubscriptionLookup) (k : SubscriptionIdentityKey)
    → get k (rows_or_empty (elim x [ none ↦ none | some rows ↦ some (merge_rows "*" rows w) ]))
      ≡ get k (rows_or_empty x)
unfolding merge_rows
merged_star none w k = refl
merged_star (some rows) none k = refl
merged_star (some rows) (some w) k = refl

merged_other :
    (a : String) (x w : Option SubscriptionLookup) (k : SubscriptionIdentityKey)
    → (a == "*") ≡ false
    → get k (
        rows_or_empty (or_else (elim x [ none ↦ none | some rows ↦ some (merge_rows a rows w) ]) w))
      ≡ or_else (get k (rows_or_empty w)) (get k (rows_or_empty x))
unfolding get
merged_other a none w k h = sym (or_else-none (get k (rows_or_empty w)))
merged_other a (some rows) w k h = get-merge_rows a rows w k h

abbrev pub with_merged : Map String SubscriptionLookup → SubscriptionCache
with_merged m = record {
  subscription_cache_map = m;
  wildcard_merged_cache_map = build_wildcard_merged_cache m;
}

-- A lookup in a cache whose second table is built from the first: the rows of the wildcard authority
-- come before those of the authority itself.
pub fetch-get_row :
    (m : Map String SubscriptionLookup) (a : String) (k : SubscriptionIdentityKey)
    → get k (rows_or_empty (fetch_cache_entry_with_wildcard (with_merged m) a))
      ≡ or_else (get_row "*" k m) (get_row a k m)
unfolding fetch_cache_entry_with_wildcard build_wildcard_merged_cache
fetch-get_row m a k = rw (rows_or_empty-non_empty _) (elim (Bool-cases (a == "*")) [
  | inl e ↦
      rw (e, get-merge_entries (get "*" m) m "*", eq_of_beq a "*" e)
        (merged_star (get "*" m) (get "*" m) k ∙ sym (or_else_self (get_row "*" k m)))
  | inr e ↦ rw (e, get-merge_entries (get "*" m) m a) (merged_other a (get a m) (get "*" m) k e)
])

module _ ⦃o : UriOps⦄ where
  load_rows-first_row :
      (rows : List Subscription) (m : Map String SubscriptionLookup) (a : String)
      (k : SubscriptionIdentityKey)
      → load_rows rows [] ≡ ok m
      → get_row a k m ≡ first_row a k rows
  unfolding get
  load_rows-first_row rows m a k h = load_rows-get_row rows [] m a k h

  -- When the response is accepted, a lookup for an authority finds, under each identity, the first
  -- complete row of the response with the wildcard authority, or else the first with that authority, and
  -- nothing where there is neither.
  pub fetch-new :
      (response : FetchSubscriptionsResponse) (cache : SubscriptionCache) (a : String)
      (k : SubscriptionIdentityKey)
      → new response ≡ ok cache
      → get k (rows_or_empty (fetch_cache_entry_with_wildcard cache a))
        ≡ or_else (first_row "*" k response.subscriptions) (first_row a k response.subscriptions)
  unfolding new
  fetch-new response cache a k h = elim (Result-cases (load_rows response.subscriptions [])) [
    | inl (m, e) ↦
        subst
          (λ c.
            get k (rows_or_empty (fetch_cache_entry_with_wildcard c a))
            ≡ or_else (first_row "*" k response.subscriptions)
                (first_row a k response.subscriptions))
          (cc (rw (e, new) at h))
          (fetch-get_row m a k
            ∙ ap₂ or_else (load_rows-first_row response.subscriptions m "*" k e)
                (load_rows-first_row response.subscriptions m a k e))
    | inr (x, e) ↦ cc (rw (e, new) at h)
  ]

  -- A response is refused exactly when one of its rows lacks its topic, its subscriber or the address of
  -- its subscriber, with the status of the first such row.
  pub new-first_error :
      (response : FetchSubscriptionsResponse) (e : UStatus)
      → (new response ≡ err e) ↔ (first_error response.subscriptions ≡ some e)
  unfolding new
  new-first_error response e = ground (arith, load_rows-first_error response.subscriptions [] e)
