-- ===== src/Auth/Throttle/Lock.antt =====
-- How long a key stays blocked, and what a schedule of calls keeps.
use coffee_shop_pos_multi_ag.Base.{
  All-filter, ℕ, ◌+◌, ◌-◌, ◌/◌, ◌≤◌, ◌<◌, ◌≡◌, refl, ◌∙◌, Bool, true, false, List, [], ◌∷◌, Option,
  none, some, filter, length, ltb, leb, All, if◌then◌else◌, Bool-cases, is_some, inl, inr, arith,
}
use coffee_shop_pos_multi_ag.Text.{Text, text_key}
use coffee_shop_pos_multi_ag.Dict.{lookup}
use coffee_shop_pos_multi_ag.Dict.Laws.{All-insert, All-erase, lookup-insert_self, lookup-filter}
use coffee_shop_pos_multi_ag.Auth.Throttle.{
  AttemptBucket, Buckets, Config, is_live, evict_expired_buckets, seconds_left, blocked_of,
  retry_after_seconds, room_for, fresh_bucket, with_failure, record_failure, reset,
}
use coffee_shop_pos_multi_ag.Auth.Throttle.Invariant.{
  IsSound, room_for-All, evict-IsSound, record_failure-IsSound, reset-IsSound,
}

-- The calls that the sign-in requests make.
pub data Call : Type 0 where
  asks fails succeeds : Text → Call

unfoldable pub run_call : Config → ℕ → Call → Buckets → Buckets
unfolding retry_after_seconds record_failure reset
run_call config now (asks key) buckets = (retry_after_seconds now key buckets).1
run_call config now (fails key) buckets = record_failure config now key buckets
run_call config now (succeeds key) buckets = reset key buckets

-- Calls with their times, the first one first.
unfoldable pub run_calls : Config → List (ℕ × Call) → Buckets → Buckets
unfolding run_call
run_calls config [] buckets = buckets
run_calls config ((now, call) ∷ calls) buckets =
    run_calls config calls (run_call config now call buckets)

-- The failures of one key at the times given.
unfoldable pub record_failures : Config → Text → List ℕ → Buckets → Buckets
unfolding record_failure
record_failures config key [] buckets = buckets
record_failures config key (t ∷ ts) buckets =
    record_failures config key ts (record_failure config t key buckets)

-- Each time is less than a cooldown after the one before.
abbrev pub Close : ℕ → ℕ → List ℕ → Type 0
Close cooldown t [] = Unit
Close cooldown t (u ∷ us) = (u < t + cooldown) × Close cooldown u us

abbrev pub last_time : ℕ → List ℕ → ℕ
last_time t [] = t
last_time t (u ∷ us) = last_time u us

abbrev blocked_if : Bool → ℕ → Option ℕ
blocked_if b t = if b then some t else none

-- The bucket after the `n`-th failure in a row, at the time `t`.
abbrev bucket_after : Config → ℕ → ℕ → AttemptBucket
bucket_after config n t = record {
  failures = n;
  blocked_until = blocked_if (leb config.max_failures n) (t + config.cooldown_ms);
  expires_at = t + config.cooldown_ms;
}

module _ (config : Config) (some_failures : 0 < config.max_failures)
    (some_buckets : 0 < config.max_buckets) where
  -- However the calls of the sign-in requests follow one another, and whatever times they carry, the map
  -- of the throttle keeps its keys distinct and stays within its limit, and each of its buckets counts
  -- from 1 to the permitted number of failures, being blocked until its expiry exactly when the count is
  -- the permitted number.
  pub run_calls-IsSound :
      (calls : List (ℕ × Call)) (buckets : Buckets)
      → IsSound config buckets
      → IsSound config (run_calls config calls buckets)
  unfolding run_calls run_call
  run_calls-IsSound [] buckets s = s
  run_calls-IsSound ((now, asks key) ∷ calls) buckets s =
      run_calls-IsSound calls _ (unfold retry_after_seconds in evict-IsSound config now buckets s)
  run_calls-IsSound ((now, fails key) ∷ calls) buckets s =
      run_calls-IsSound calls _
        (record_failure-IsSound config some_failures some_buckets now key buckets s)
  run_calls-IsSound ((now, succeeds key) ∷ calls) buckets s =
      run_calls-IsSound calls _ (reset-IsSound config key buckets s)

  -- A live bucket survives the eviction.
  still_there :
      (now : ℕ) (key : Text) (b : AttemptBucket) (buckets : Buckets)
      → IsSound config buckets
      → lookup key buckets ≡ some b
      → lookup key (evict_expired_buckets now buckets)
        ≡ (if ltb now b.expires_at then some b else none)
  unfolding evict_expired_buckets
  still_there now key b buckets s h = lookup-filter (is_live now) key b buckets s.distinct h

  first_failure :
      (t : ℕ) (key : Text) (buckets : Buckets)
      → lookup key (evict_expired_buckets t buckets) ≡ none
      → lookup key (record_failure config t key buckets) ≡ some (bucket_after config 1 t)
  unfolding record_failure retry_after_seconds
  first_failure t key buckets h =
      rw (h, seconds_left)
        (lookup-insert_self key _ (room_for config key (evict_expired_buckets t buckets))
          ∙ unfold with_failure fresh_bucket in refl)

  next_failure :
      (n t u : ℕ) (key : Text) (buckets : Buckets)
      → IsSound config buckets
      → lookup key buckets ≡ some (bucket_after config n t)
      → n < config.max_failures
      → u < t + config.cooldown_ms
      → lookup key (record_failure config u key buckets) ≡ some (bucket_after config (n + 1) u)
  unfolding record_failure retry_after_seconds
  next_failure n t u key buckets s h less close =
      let there : lookup key (evict_expired_buckets u buckets) ≡ some (bucket_after config n t) =
        still_there u key _ buckets s h ∙ ground arith in
      let free : leb config.max_failures n ≡ false = ground arith in
      rw (there, free, seconds_left)
        (lookup-insert_self key _ (room_for config key (evict_expired_buckets u buckets))
          ∙ unfold with_failure in ground arith)

  -- A failure that meets a block leaves it as it is.
  blocked_failure :
      (n t u : ℕ) (key : Text) (buckets : Buckets)
      → IsSound config buckets
      → lookup key buckets ≡ some (bucket_after config n t)
      → config.max_failures ≤ n
      → u < t + config.cooldown_ms
      → lookup key (record_failure config u key buckets) ≡ some (bucket_after config n t)
  unfolding record_failure retry_after_seconds
  blocked_failure n t u key buckets s h more close =
      let there : lookup key (evict_expired_buckets u buckets) ≡ some (bucket_after config n t) =
        still_there u key _ buckets s h ∙ ground arith in
      let full : leb config.max_failures n ≡ true = ground arith in
      let left : is_some (seconds_left u (some (t + config.cooldown_ms))) ≡ true =
        unfold seconds_left in ground arith in
      rw (there, full, left) (rw full at there)

  counted_failures :
      (n t : ℕ) (us : List ℕ) (key : Text) (buckets : Buckets)
      → IsSound config buckets
      → lookup key buckets ≡ some (bucket_after config n t)
      → n + length us ≤ config.max_failures
      → Close config.cooldown_ms t us
      → lookup key (record_failures config key us buckets)
        ≡ some (bucket_after config (n + length us) (last_time t us))
  unfolding record_failures
  counted_failures n t [] key buckets s h less close = h ∙ ground arith
  counted_failures n t (u ∷ us) key buckets s h less close =
      counted_failures (n + 1) u us key (record_failure config u key buckets)
        (record_failure-IsSound config some_failures some_buckets u key buckets s)
        (next_failure n t u key buckets s h (omega arith) close.0) (omega arith) close.1
      ∙ ground arith

  record_failures-IsSound :
      (key : Text) (ts : List ℕ) (buckets : Buckets)
      → IsSound config buckets
      → IsSound config (record_failures config key ts buckets)
  unfolding record_failures
  record_failures-IsSound key [] buckets s = s
  record_failures-IsSound key (t ∷ ts) buckets s =
      record_failures-IsSound key ts _
        (record_failure-IsSound config some_failures some_buckets t key buckets s)

  waiting :
      (n t : ℕ) (key : Text) (us : List ℕ) (buckets : Buckets)
      → IsSound config buckets
      → lookup key buckets ≡ some (bucket_after config n t)
      → config.max_failures ≤ n
      → All (λ u. u < t + config.cooldown_ms) us
      → lookup key (record_failures config key us buckets) ≡ some (bucket_after config n t)
  unfolding record_failures
  waiting n t key [] buckets s h more close = h
  waiting n t key (u ∷ us) buckets s h more close =
      waiting n t key us (record_failure config u key buckets)
        (record_failure-IsSound config some_failures some_buckets u key buckets s)
        (blocked_failure n t u key buckets s h more close.0) more close.1

  asked :
      (n t now : ℕ) (key : Text) (buckets : Buckets)
      → IsSound config buckets
      → lookup key buckets ≡ some (bucket_after config n t)
      → config.max_failures ≤ n
      → (retry_after_seconds now key buckets).0 ≡ (
          if ltb now (t + config.cooldown_ms)
          then some ((t + config.cooldown_ms - now + 999) / 1000)
          else none)
  unfolding retry_after_seconds seconds_left
  asked n t now key buckets s h more =
      let full : leb config.max_failures n ≡ true = ground arith in
      let there : lookup key (evict_expired_buckets now buckets)
          ≡ (if ltb now (t + config.cooldown_ms) then some (bucket_after config n t) else none) =
        still_there now key _ buckets s h in
      rw there (elim (Bool-cases (ltb now (t + config.cooldown_ms))) [
        | inl early ↦ rw (early, full) (ground arith)
        | inr late ↦ rw late refl
      ])

  after_failures :
      (t : ℕ) (us waits : List ℕ) (key : Text) (buckets : Buckets)
      → IsSound config buckets
      → lookup key (evict_expired_buckets t buckets) ≡ none
      → Close config.cooldown_ms t us
      → length (t ∷ us) ≡ config.max_failures
      → All (λ u. u < last_time t us + config.cooldown_ms) waits
      → lookup key (record_failures config key waits (record_failures config key (t ∷ us) buckets))
        ≡ some (bucket_after config (1 + length us) (last_time t us))
  after_failures t us waits key buckets s new close enough early =
      waiting (1 + length us) (last_time t us) key waits
        (record_failures config key (t ∷ us) buckets)
        (record_failures-IsSound key (t ∷ us) buckets s)
        (unfold record_failures in
          counted_failures 1 t us key (record_failure config t key buckets)
            (record_failure-IsSound config some_failures some_buckets t key buckets s)
            (first_failure t key buckets new) (omega arith) close)
        (omega arith) early

  -- As many failures of a key as are permitted, the first one meeting no live bucket and each of the others
  -- coming less than a cooldown after the one before, block the key until a cooldown after the last of them:
  -- until then, whatever further failures are tried meanwhile, it is told the seconds that are left, rounded
  -- up, and from then on it is free.
  pub retry_after_seconds-record_failures :
      (t : ℕ) (us waits : List ℕ) (key : Text) (buckets : Buckets)
      → IsSound config buckets
      → lookup key (evict_expired_buckets t buckets) ≡ none
      → Close config.cooldown_ms t us
      → length (t ∷ us) ≡ config.max_failures
      → All (λ u. u < last_time t us + config.cooldown_ms) waits
      → (now : ℕ)
      → (retry_after_seconds now key
          (record_failures config key waits (record_failures config key (t ∷ us) buckets))).0
        ≡ (if ltb now (last_time t us + config.cooldown_ms)
            then some ((last_time t us + config.cooldown_ms - now + 999) / 1000)
            else none)
  retry_after_seconds-record_failures t us waits key buckets s new close enough early now =
      asked (1 + length us) (last_time t us) now key _
        (record_failures-IsSound key waits _ (record_failures-IsSound key (t ∷ us) buckets s))
        (after_failures t us waits key buckets s new close enough early) (omega arith)

  -- Every bucket expires by the time given.
  abbrev pub ExpireBy : ℕ → Buckets → Type 0
  ExpireBy time buckets = All (λ entry. entry.1.expires_at ≤ time) buckets

  run_call-ExpireBy :
      (time now : ℕ) (call : Call) (buckets : Buckets)
      → now + config.cooldown_ms ≤ time
      → ExpireBy time buckets
      → ExpireBy time (run_call config now call buckets)
  unfolding run_call evict_expired_buckets retry_after_seconds
  run_call-ExpireBy time now (asks key) buckets h a = All-filter _ (is_live now) buckets a
  run_call-ExpireBy time now (succeeds key) buckets h a = unfold reset in All-erase _ key buckets a
  run_call-ExpireBy time now (fails key) buckets h a =
      unfold record_failure in
      elim (Bool-cases
        (is_some (seconds_left now (blocked_of (lookup key (filter (is_live now) buckets)))))) [
          | inl blocked ↦ rw blocked (All-filter _ (is_live now) buckets a)
          | inr free ↦ rw free (
              All-insert (λ entry. entry.1.expires_at ≤ time) key _
                (room_for config key (filter (is_live now) buckets)) (λ j. unfold with_failure in h)
                (room_for-All config some_failures some_buckets (λ entry. entry.1.expires_at ≤ time)
                  key (filter (is_live now) buckets) (All-filter _ (is_live now) buckets a)))
        ]

  run_calls-ExpireBy :
      (time : ℕ) (calls : List (ℕ × Call)) (buckets : Buckets)
      → All (λ call. call.0 + config.cooldown_ms ≤ time) calls
      → ExpireBy time buckets
      → ExpireBy time (run_calls config calls buckets)
  unfolding run_calls
  run_calls-ExpireBy time [] buckets early a = a
  run_calls-ExpireBy time ((now, call) ∷ calls) buckets early a =
      run_calls-ExpireBy time calls (run_call config now call buckets) early.1
        (run_call-ExpireBy time now call buckets early.0 a)

  all_expired :
      (time : ℕ) (buckets : Buckets) → ExpireBy time buckets → filter (is_live time) buckets ≡ []
  all_expired time [] a = refl
  all_expired time ((key, b) ∷ buckets) a = ground (arith, all_expired time buckets a.1)

  -- Nobody stays locked out: whatever calls are made, in whatever order, once a cooldown has passed since
  -- the latest of them (and the buckets before them have expired) every key is free to try, and the map is
  -- left empty.
  pub run_calls-frees :
      (time : ℕ) (calls : List (ℕ × Call)) (buckets : Buckets)
      → All (λ call. call.0 + config.cooldown_ms ≤ time) calls
      → ExpireBy time buckets
      → (key : Text) → retry_after_seconds time key (run_calls config calls buckets) ≡ (none, [])
  unfolding retry_after_seconds evict_expired_buckets lookup
  run_calls-frees time calls buckets early a key =
      rw
        (all_expired time (run_calls config calls buckets)
          (run_calls-ExpireBy time calls buckets early a))
        (unfold seconds_left in refl)
