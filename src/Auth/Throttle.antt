-- ===== src/Auth/Throttle.antt =====
-- The throttle of failed attempts (apps/api/src/auth/auth-attempt-throttle.service.ts). Each method
-- takes the map of buckets and the time in milliseconds, and returns the map that it leaves. One
-- call reads the clock once here.
pub mod Invariant
pub mod Lock
use coffee_shop_pos_multi_ag.Base.{
  ℕ, zero, suc, ◌+◌, ◌*◌, ◌/◌, ◌-◌, Bool, true, false, not, List, [], ◌∷◌, ◌++◌, Option, none, some,
  filter, length, ltb, leb, ◌==◌, if◌then◌else◌, or_else, is_some, ℤ, pos, ltb_ℤ, pos_part, leb_ℤ,
}
use coffee_shop_pos_multi_ag.Text.{Text, trim, text_key}
use coffee_shop_pos_multi_ag.Dict.{Dict, lookup, has, insert, erase}

pub record AttemptBucket : Type 0 where
  pub failures : ℕ
  pub blocked_until : Option ℕ
  pub expires_at : ℕ

abbrev pub Buckets : Type 0
Buckets = Dict Text AttemptBucket

-- `positiveInteger`: `none` where it throws. `number_of` is what `Number` makes of a text, if that
-- is an integer.
unfoldable pub positive_integer : (Text → Option ℤ) → Option Text → ℕ → Option ℕ
positive_integer number_of none fallback = some fallback
positive_integer number_of (some configured) fallback = elim (number_of configured) [
  | none ↦ none
  | some value ↦ if leb_ℤ value (pos 0) then none else some (pos_part value)
]

pub record Config : Type 0 where
  pub max_failures : ℕ
  pub cooldown_ms : ℕ
  pub max_buckets : ℕ

abbrev device_prefix : Text
device_prefix = b'd' ∷ b'e' ∷ b'v' ∷ b'i' ∷ b'c' ∷ b'e' ∷ b':' ∷ []

abbrev user_infix : Text
user_infix = b'|' ∷ b'u' ∷ b's' ∷ b'e' ∷ b'r' ∷ b':' ∷ []

unfoldable pub key_for_user : Text → Text → Text
unfolding trim
key_for_user device_id user_id = device_prefix ++ (trim device_id ++ (user_infix ++ user_id))

pub data Method : Type 0 where
  password pin : Method

abbrev method_name : Method → Text
method_name password = b'p' ∷ b'a' ∷ b's' ∷ b's' ∷ b'w' ∷ b'o' ∷ b'r' ∷ b'd' ∷ []
method_name pin = b'p' ∷ b'i' ∷ b'n' ∷ []

-- `lower` is `toLocaleLowerCase('en-US')`.
unfoldable pub key_for_unknown : (Text → Text) → Text → Method → Text → Text
unfolding trim
key_for_unknown lower device_id method identifier =
    device_prefix
    ++ (trim device_id ++ (b'|' ∷ (method_name method ++ (b':' ∷ lower (trim identifier)))))

abbrev pub is_live : ℕ → Text × AttemptBucket → Bool
is_live now entry = ltb now entry.1.expires_at

unfoldable pub evict_expired_buckets : ℕ → Buckets → Buckets
evict_expired_buckets now buckets = filter (is_live now) buckets

-- The seconds that are left of a block, rounded up.
unfoldable pub seconds_left : ℕ → Option ℕ → Option ℕ
seconds_left now none = none
seconds_left now (some blocked_until) =
    if blocked_until == 0
    then none
    else if leb blocked_until now
    then none
    else some ((blocked_until - now + 999) / 1000)

abbrev pub blocked_of : Option AttemptBucket → Option ℕ
blocked_of none = none
blocked_of (some bucket) = bucket.blocked_until

unfoldable pub retry_after_seconds : ℕ → Text → Buckets → Option ℕ × Buckets
unfolding evict_expired_buckets seconds_left
retry_after_seconds now key buckets =
    let live = evict_expired_buckets now buckets in
    (seconds_left now (blocked_of (lookup key live)), live)

-- `makeRoomForBucket`, with fuel: each round deletes the oldest key.
unfoldable pub make_room_for_bucket : ℕ → ℕ → Buckets → Buckets
make_room_for_bucket zero max_buckets buckets = buckets
make_room_for_bucket (suc fuel) max_buckets [] = []
make_room_for_bucket (suc fuel) max_buckets ((key, bucket) ∷ buckets) =
    let rest = make_room_for_bucket fuel max_buckets (erase key ((key, bucket) ∷ buckets)) in
    if leb max_buckets (length ((key, bucket) ∷ buckets)) then rest else (key, bucket) ∷ buckets

unfoldable pub fresh_bucket : Config → ℕ → AttemptBucket
fresh_bucket config now = record {
  failures = 0;
  blocked_until = none;
  expires_at = now + config.cooldown_ms;
}

unfoldable pub with_failure : Config → ℕ → AttemptBucket → AttemptBucket
with_failure config now bucket = record {
  failures = bucket.failures + 1;
  blocked_until =
      if leb config.max_failures (bucket.failures + 1)
      then some (now + config.cooldown_ms)
      else bucket.blocked_until;
  expires_at = now + config.cooldown_ms;
}

unfoldable pub room_for : Config → Text → Buckets → Buckets
unfolding make_room_for_bucket
room_for config key buckets =
    if has key buckets
    then buckets
    else make_room_for_bucket (length buckets) config.max_buckets buckets

unfoldable pub record_failure : Config → ℕ → Text → Buckets → Buckets
unfolding retry_after_seconds with_failure fresh_bucket room_for
record_failure config now key buckets =
    let (blocked, live) = retry_after_seconds now key buckets in
    if is_some blocked
    then live
    else insert key (with_failure config now (or_else (lookup key live) (fresh_bucket config now)))
        (room_for config key live)

unfoldable pub reset : Text → Buckets → Buckets
reset key buckets = erase key buckets
