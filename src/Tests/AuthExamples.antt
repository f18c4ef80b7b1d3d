-- ===== src/Tests/AuthExamples.antt =====
-- Examples of signing in.
use coffee_shop_pos_multi_ag.Base.{
  ℕ, ◌<◌, ◌≡◌, refl, true, none, some, List, [], ◌∷◌, map, length, arith,
}
use coffee_shop_pos_multi_ag.Text.{Text, text_eq, text_key}
use coffee_shop_pos_multi_ag.Dict.{lookup, has, Distinct}
use coffee_shop_pos_multi_ag.Store.{User, staff}
use coffee_shop_pos_multi_ag.Auth.Throttle.{
  AttemptBucket, Buckets, Config, evict_expired_buckets, retry_after_seconds, make_room_for_bucket,
}
use coffee_shop_pos_multi_ag.Auth.Throttle.Invariant.{IsSound, make_room_for_bucket_ends}
use coffee_shop_pos_multi_ag.Auth.Throttle.Lock.{
  Call, asks, fails, succeeds, run_calls, run_calls-IsSound, run_calls-frees,
}
use coffee_shop_pos_multi_ag.Auth.Users.{Platform}
use coffee_shop_pos_multi_ag.Auth.SignIn.{
  Server, Answer, too_many_requests, accepted, LoginResult, Supply, staff_login_result,
}
use coffee_shop_pos_multi_ag.Auth.SignIn.Requests.{
  append_default_cashier, pin_attempt, pin_user, staff_password_login,
}
use coffee_shop_pos_multi_ag.Auth.SignIn.Lockout.{
  enter, enter_all, undisturbed, staff_pin_login-lockout,
}
use coffee_shop_pos_multi_ag.Auth.SignIn.Overlap.{
  verdict, enter_at_once, is_right, enter_at_once-is_right,
}
use coffee_shop_pos_multi_ag.Auth.SignIn.Admission.{
  IsAdmitted, waited, key_of, staff_password_login-accepted,
}
use coffee_shop_pos_multi_ag.Tests.{morning}

abbrev config : Config
config = record { max_failures = 2; cooldown_ms = 30000; max_buckets = 2 }

-- A hash is the secret itself, and an id one character.
abbrev platform : Platform
platform = record {
  verifies = λ hash secret. some (text_eq hash secret);
  sign = λ payload. payload.username;
  lower = λ t. t;
  same_name = text_eq;
  read_id = λ t. 3;
  print_id = λ id. id ∷ [];
}

abbrev right_pin : Text
right_pin = b'1' ∷ b'2' ∷ b'3' ∷ b'4' ∷ []

abbrev wrong_pin : Text
wrong_pin = b'1' ∷ b'2' ∷ b'3' ∷ b'5' ∷ []

abbrev device : Text
device = b'd' ∷ []

abbrev staff_id : Text
staff_id =
    b'1' ∷ b'2' ∷ b'3' ∷ b'4' ∷ b'5' ∷ b'6' ∷ b'7' ∷ b'8' ∷ b'-' ∷ b'a' ∷ b'b' ∷ b'c' ∷ b'd' ∷ b'-'
    ∷ b'4' ∷ b'0' ∷ b'0' ∷ b'0' ∷ b'-' ∷ b'8' ∷ b'0' ∷ b'0' ∷ b'0' ∷ b'-' ∷ b'1' ∷ b'2' ∷ b'3'
    ∷ b'4' ∷ b'5' ∷ b'6' ∷ b'7' ∷ b'8' ∷ b'9' ∷ b'A' ∷ b'B' ∷ b'C' ∷ []

abbrev ann : User
ann = record {
  id = 3;
  username = b'a' ∷ [];
  display_name = b'A' ∷ [];
  password_hash = b'p' ∷ [];
  pin_hash = some right_pin;
  is_active = true;
  role = staff;
}

abbrev server : Server
server = record { db = record morning { users = ann ∷ [] }; buckets = [] }

abbrev one_failure : AttemptBucket
one_failure = record { failures = 1; blocked_until = none; expires_at = 40000 }

abbrev two_buckets : Buckets
two_buckets = (b'x' ∷ [], one_failure) ∷ (b'y' ∷ [], one_failure) ∷ []

two_buckets-IsSound : IsSound config two_buckets
two_buckets-IsSound = record {
  distinct = (unfold has text_eq in refl, (unfold has in refl, tt));
  bounded = omega arith;
  each = ((omega arith, omega arith, refl), ((omega arith, omega arith, refl), tt));
}

-- A third key meets the limit of the map; one of the keys succeeds, and one is locked.
abbrev calls : List (ℕ × Call)
calls =
    (20000, fails (b'z' ∷ []))
    ∷ (20001, asks (b'z' ∷ []))
    ∷ (20002, succeeds (b'z' ∷ []))
    ∷ (20003, fails (b'y' ∷ []))
    ∷ []

run_calls-IsSound_example : IsSound config (run_calls config calls two_buckets)
run_calls-IsSound_example =
    run_calls-IsSound config (omega arith) (omega arith) calls two_buckets two_buckets-IsSound

make_room_for_bucket_ends_example : length (make_room_for_bucket 2 2 two_buckets) < 2
make_room_for_bucket_ends_example =
    make_room_for_bucket_ends 2 2 two_buckets (omega arith) (omega arith)

run_calls-frees_example :
    retry_after_seconds 50003 (b'y' ∷ []) (run_calls config calls two_buckets) ≡ (none, [])
run_calls-frees_example =
    run_calls-frees config (omega arith) (omega arith) 50003 calls two_buckets
      (omega arith, (omega arith, (omega arith, (omega arith, tt))))
      (omega arith, (omega arith, tt)) (b'y' ∷ [])

no_buckets-IsSound : IsSound config []
no_buckets-IsSound = record { distinct = tt; bounded = omega arith; each = tt }

wrong_pin_lem : pin_user platform (pin_attempt platform staff_id wrong_pin device server.db) ≡ none
unfolding pin_user pin_attempt text_eq
wrong_pin_lem = refl

abbrev entries : List (ℕ × Text)
entries = (1000, wrong_pin) ∷ (2500, wrong_pin) ∷ []

staff_pin_login-lockout_example :
    (enter platform config staff_id device 3000 right_pin
      (enter_all platform config staff_id device entries server)).0
    ≡ too_many_requests 30
staff_pin_login-lockout_example =
    staff_pin_login-lockout platform config staff_id device (omega arith) (omega arith) 1000
      wrong_pin ((2500, wrong_pin) ∷ []) server no_buckets-IsSound
      (wrong_pin_lem, (wrong_pin_lem, tt)) (unfold evict_expired_buckets lookup in refl)
      (omega arith, tt) refl 3000 right_pin

enter_at_once-is_right_example :
    map verdict (
      enter_at_once platform config staff_id device server.db 1000 1200
        (wrong_pin ∷ wrong_pin ∷ wrong_pin ∷ right_pin ∷ [])
        server)
    ≡ map
        (λ entered. some (is_right platform config staff_id device server.db entered))
        (wrong_pin ∷ wrong_pin ∷ wrong_pin ∷ right_pin ∷ [])
enter_at_once-is_right_example =
    enter_at_once-is_right platform config staff_id device server.db 1000 1200
      (wrong_pin ∷ wrong_pin ∷ wrong_pin ∷ right_pin ∷ []) server
      (unfold retry_after_seconds lookup in refl)

abbrev password_supply : Supply
password_supply = record { started_at = 1000; verified_at = 1200; selection_id = 77 }

-- Ann's result, and the server with her device's selection.
abbrev signed_in : Answer LoginResult × Server
signed_in =
    staff_password_login platform config undisturbed password_supply (b'a' ∷ []) (b'p' ∷ []) device
      server

abbrev result : LoginResult
result = record {
  user = record {
    id = 3;
    username = b'a' ∷ [];
    role = staff;
    display_name = some (b'A' ∷ []);
    staff_member_id = some (some 7);
  };
  token = b'a' ∷ [];
}

signed_in_lem : signed_in ≡ (accepted result, signed_in.1)
unfolding staff_password_login lookup text_eq
signed_in_lem = refl

staff_password_login-accepted_example :
    (u : User) × IsAdmitted platform (b'a' ∷ []) (b'p' ∷ []) server.db u
    × ((retry_after_seconds 1000 (key_of platform config undisturbed password_supply device u) []).0
        ≡ none)
    × (result
        ≡ staff_login_result platform u
            (waited platform config undisturbed password_supply
              (key_of platform config undisturbed password_supply device u)
              server).db)
    × (signed_in.1.db
        ≡ append_default_cashier password_supply device u.id
            (waited platform config undisturbed password_supply
              (key_of platform config undisturbed password_supply device u)
              server).db)
    × (Distinct
          (waited platform config undisturbed password_supply
            (key_of platform config undisturbed password_supply device u)
            server).buckets
        → lookup (key_of platform config undisturbed password_supply device u) signed_in.1.buckets
          ≡ none)
staff_password_login-accepted_example =
    staff_password_login-accepted platform config undisturbed password_supply (b'a' ∷ [])
      (b'p' ∷ []) device server signed_in.1 result signed_in_lem
