-- ===== src/Auth/Throttle/Invariant.antt =====
-- What holds of the buckets at all times: the map stays within its limit, and a bucket is blocked
-- exactly from its last permitted failure on.
use coffee_shop_pos_multi_ag.Base.{
  All-filter, ℕ, zero, suc, ◌+◌, ◌≤◌, ◌<◌, ◌≡◌, refl, Bool, true, List, [], ◌∷◌, none, some, filter,
  length, ltb, leb, All, if◌then◌else◌, Bool-cases, Option-cases, or_else, inl, inr, arith,
}
use coffee_shop_pos_multi_ag.Text.{Text, text_key}
use coffee_shop_pos_multi_ag.Dict.{lookup, has, insert, erase, Distinct}
use coffee_shop_pos_multi_ag.Dict.Laws.{
  same_refl, length-insert, Distinct-insert, All-insert, All-erase, length-erase-le, Distinct-erase,
  Distinct-filter, All-lookup,
}
use coffee_shop_pos_multi_ag.Auth.Throttle.{
  AttemptBucket, Buckets, Config, is_live, evict_expired_buckets, seconds_left, blocked_of,
  make_room_for_bucket, room_for, fresh_bucket, with_failure, record_failure, reset,
}

abbrev pub IsBucket : Config → AttemptBucket → Type 0
IsBucket config b =
    (1 ≤ b.failures)
    × (b.failures ≤ config.max_failures)
    × (b.blocked_until ≡ (if leb config.max_failures b.failures then some b.expires_at else none))

pub record IsSound (config : Config) (buckets : Buckets) : Type 0 where
  pub distinct : Distinct buckets
  pub bounded : length buckets ≤ config.max_buckets
  pub each : All (λ entry. IsBucket config entry.1) buckets

length-filter-le : {A : Type 0} (p : A → Bool) (xs : List A) → length (filter p xs) ≤ length xs
length-filter-le p [] = omega arith
length-filter-le p (x ∷ xs) = ground (arith, length-filter-le p xs)

module _ (config : Config) where
  pub evict-IsSound :
      (now : ℕ) (buckets : Buckets)
      → IsSound config buckets
      → IsSound config (evict_expired_buckets now buckets)
  unfolding evict_expired_buckets
  evict-IsSound now buckets s = record {
    distinct = Distinct-filter (is_live now) buckets s.distinct;
    bounded = omega (arith, length-filter-le (is_live now) buckets, s.bounded);
    each = All-filter (λ entry. IsBucket config entry.1) (is_live now) buckets s.each;
  }

  -- A live bucket that blocks nobody has a failure to spare.
  spare :
      (now : ℕ) (b : AttemptBucket)
      → IsBucket config b
      → now < b.expires_at
      → seconds_left now b.blocked_until ≡ none
      → b.failures + 1 ≤ config.max_failures
  unfolding seconds_left
  spare now b h live free = ground arith

  with_failure-IsBucket :
      (now : ℕ) (b : AttemptBucket)
      → b.failures + 1 ≤ config.max_failures
      → (b.blocked_until ≡ none)
      → IsBucket config (with_failure config now b)
  unfolding with_failure
  with_failure-IsBucket now b h e = ground arith

make_room-cons :
    (fuel max_buckets : ℕ) (key : Text) (b : AttemptBucket) (buckets : Buckets)
    → make_room_for_bucket (suc fuel) max_buckets ((key, b) ∷ buckets) ≡ (
        if leb max_buckets (length buckets + 1)
        then make_room_for_bucket fuel max_buckets buckets
        else (key, b) ∷ buckets)
unfolding make_room_for_bucket erase
make_room-cons fuel max_buckets key b buckets = ground (arith, same_refl key)

-- With a round for each bucket the loop ends by its test.
pub make_room_for_bucket_ends :
    (fuel max_buckets : ℕ) (buckets : Buckets)
    → length buckets ≤ fuel
    → 0 < max_buckets
    → length (make_room_for_bucket fuel max_buckets buckets) < max_buckets
make_room_for_bucket_ends zero m [] h p = unfold make_room_for_bucket in omega arith
make_room_for_bucket_ends zero m (x ∷ buckets) h p = absurd (omega arith)
make_room_for_bucket_ends (suc fuel) m [] h p = unfold make_room_for_bucket in omega arith
make_room_for_bucket_ends (suc fuel) m ((k, b) ∷ buckets) h p =
    rw (make_room-cons fuel m k b buckets)
      (ground (arith, make_room_for_bucket_ends fuel m buckets))

make_room-Distinct :
    (fuel m : ℕ) (buckets : Buckets)
    → Distinct buckets
    → Distinct (make_room_for_bucket fuel m buckets)
make_room-Distinct zero m buckets d = unfold make_room_for_bucket in d
make_room-Distinct (suc fuel) m [] d = unfold make_room_for_bucket in tt
make_room-Distinct (suc fuel) m ((k, b) ∷ buckets) d =
    rw (make_room-cons fuel m k b buckets) (elim (Bool-cases (leb m (length buckets + 1))) [
      | inl h ↦ rw h (make_room-Distinct fuel m buckets d.1)
      | inr h ↦ rw h d
    ])

make_room-All :
    (P : Text × AttemptBucket → Type 0) (fuel m : ℕ) (buckets : Buckets)
    → All P buckets
    → All P (make_room_for_bucket fuel m buckets)
make_room-All P zero m buckets a = unfold make_room_for_bucket in a
make_room-All P (suc fuel) m [] a = unfold make_room_for_bucket in tt
make_room-All P (suc fuel) m ((k, b) ∷ buckets) a =
    rw (make_room-cons fuel m k b buckets) (elim (Bool-cases (leb m (length buckets + 1))) [
      | inl h ↦ rw h (make_room-All P fuel m buckets a.1)
      | inr h ↦ rw h a
    ])

filter_kept : {A : Type 0} (p : A → Bool) (xs : List A) → All (λ x. p x ≡ true) (filter p xs)
filter_kept p [] = tt
filter_kept p (x ∷ xs) = elim (Bool-cases (p x)) [
  | inl h ↦ rw h (h, filter_kept p xs)
  | inr h ↦ rw h (filter_kept p xs)
]

-- A bucket that is found after the eviction has not expired.
pub live_found :
    (now : ℕ) (key : Text) (b : AttemptBucket) (buckets : Buckets)
    → lookup key (evict_expired_buckets now buckets) ≡ some b
    → now < b.expires_at
unfolding evict_expired_buckets
live_found now key b buckets h =
    let live : ltb now b.expires_at ≡ true =
      All-lookup (λ (v : AttemptBucket). ltb now v.expires_at ≡ true) key b
        (filter (is_live now) buckets) (filter_kept (is_live now) buckets) h in
    ground arith

module _ (config : Config) (some_failures : 0 < config.max_failures)
    (some_buckets : 0 < config.max_buckets) where
  room_for-bounded :
      (key : Text) (b : AttemptBucket) (buckets : Buckets)
      → length buckets ≤ config.max_buckets
      → length (insert key b (room_for config key buckets)) ≤ config.max_buckets
  unfolding room_for
  room_for-bounded key b buckets h = elim (Bool-cases (has key buckets)) [
    | inl old ↦ rw old (rw (length-insert key b buckets) (rw old h))
    | inr new ↦ rw new (
        ground (
          arith,
          length-insert key b (make_room_for_bucket (length buckets) config.max_buckets buckets),
          make_room_for_bucket_ends (length buckets) config.max_buckets buckets,
        ))
  ]

  room_for-Distinct :
      (key : Text) (buckets : Buckets) → Distinct buckets → Distinct (room_for config key buckets)
  unfolding room_for
  room_for-Distinct key buckets d = elim (Bool-cases (has key buckets)) [
    | inl old ↦ rw old d
    | inr new ↦ rw new (make_room-Distinct (length buckets) config.max_buckets buckets d)
  ]

  pub room_for-All :
      (P : Text × AttemptBucket → Type 0) (key : Text) (buckets : Buckets)
      → All P buckets
      → All P (room_for config key buckets)
  unfolding room_for
  room_for-All P key buckets a = elim (Bool-cases (has key buckets)) [
    | inl old ↦ rw old a
    | inr new ↦ rw new (make_room-All P (length buckets) config.max_buckets buckets a)
  ]

  insert-IsSound :
      (key : Text) (b : AttemptBucket) (buckets : Buckets)
      → IsBucket config b
      → IsSound config buckets
      → IsSound config (insert key b (room_for config key buckets))
  insert-IsSound key b buckets h s = record {
    distinct =
        Distinct-insert key b (room_for config key buckets)
          (room_for-Distinct key buckets s.distinct);
    bounded = room_for-bounded key b buckets s.bounded;
    each =
        All-insert (λ entry. IsBucket config entry.1) key b (room_for config key buckets) (λ j. h)
          (room_for-All (λ entry. IsBucket config entry.1) key buckets s.each);
  }

  -- The bucket that counts one more failure is sound where nothing blocks it.
  counted :
      (now : ℕ) (key : Text) (buckets : Buckets)
      → IsSound config buckets
      → seconds_left now (blocked_of (lookup key (evict_expired_buckets now buckets))) ≡ none
      → IsBucket config (
          with_failure config now
            (or_else (lookup key (evict_expired_buckets now buckets)) (fresh_bucket config now)))
  counted now key buckets s free =
      elim (Option-cases (lookup key (evict_expired_buckets now buckets))) [
        | inl missing ↦ rw missing (
            with_failure-IsBucket config now (fresh_bucket config now)
              (unfold fresh_bucket in omega arith) (unfold fresh_bucket in refl))
        | inr (b, found) ↦
            let sound : IsBucket config b =
              All-lookup (IsBucket config) key b (evict_expired_buckets now buckets)
                (evict-IsSound config now buckets s).each found in
            let more : b.failures + 1 ≤ config.max_failures =
              spare config now b sound (live_found now key b buckets found) (rw found at free) in
            rw found (with_failure-IsBucket config now b more (ground arith))
      ]

  pub record_failure-IsSound :
      (now : ℕ) (key : Text) (buckets : Buckets)
      → IsSound config buckets
      → IsSound config (record_failure config now key buckets)
  unfolding record_failure
  record_failure-IsSound now key buckets s =
      elim (Option-cases
        (seconds_left now (blocked_of (lookup key (evict_expired_buckets now buckets))))) [
          | inl free ↦ rw free (
              insert-IsSound key _ (evict_expired_buckets now buckets)
                (counted now key buckets s free) (evict-IsSound config now buckets s))
          | inr (left, blocked) ↦ rw blocked (evict-IsSound config now buckets s)
        ]

pub reset-IsSound :
    (config : Config) (key : Text) (buckets : Buckets)
    → IsSound config buckets
    → IsSound config (reset key buckets)
unfolding reset
reset-IsSound config key buckets s = record {
  distinct = Distinct-erase key buckets s.distinct;
  bounded = omega (arith, length-erase-le key buckets, s.bounded);
  each = All-erase (λ entry. IsBucket config entry.1) key buckets s.each;
}
