-- ===== src/Auth/SignIn.antt =====
-- Signing in (apps/api/src/auth/auth.service.ts). A request has two halves: `start` up to the moment
-- at which it waits for the hash to be checked, and `finish` from there on; `others` is what other
-- requests do meanwhile.
pub mod Requests
pub mod Lockout
pub mod Overlap
pub mod Admission
use coffee_shop_pos_multi_ag.Base.{
  ℕ, ◌-◌, Bool, true, false, not, ◌&&◌, ◌||◌, List, [], ◌∷◌, Option, none, some, any, leb, ◌==◌,
  if◌then◌else◌, or_else,
}
use coffee_shop_pos_multi_ag.Text.{Text, is_empty}
use coffee_shop_pos_multi_ag.Store.{Role, admin, staff, User, StaffMember, CashierSelection, Db}
use coffee_shop_pos_multi_ag.Store.Queries.{append_selection}
use coffee_shop_pos_multi_ag.Auth.Throttle.{
  Buckets, Config, Method, password, pin, key_for_user, key_for_unknown, retry_after_seconds,
  record_failure, reset,
}
use coffee_shop_pos_multi_ag.Auth.Hashes.{dummy_password_hash, dummy_pin_hash}
use coffee_shop_pos_multi_ag.Auth.Users.{
  AuthTokenPayload, Platform, find_by_username, find_by_id, find_by_staff_member_id,
  find_linked_staff_member,
}

-- The database and the throttle's map.
pub record Server : Type 0 where
  pub db : Db
  pub buckets : Buckets

-- `display_name` and `staff_member_id` may be absent, and the member also null.
pub record AuthenticatedUser : Type 0 where
  pub id : ℕ
  pub username : Text
  pub role : Role
  pub display_name : Option Text
  pub staff_member_id : Option (Option ℕ)

pub record LoginResult : Type 0 where
  pub user : AuthenticatedUser
  pub token : Text

pub data Refusal : Type 0 where
  invalid_credentials invalid_staff_credentials invalid_cashier_pin : Refusal

pub data Answer (A : Type 0) : Type 0 where
  too_many_requests : ℕ → Answer A
  unauthorized : Refusal → Answer A
  accepted : A → Answer A

-- The clock at the two halves of a request, and the id of the row that it may append.
pub record Supply : Type 0 where
  pub started_at : ℕ
  pub verified_at : ℕ
  pub selection_id : ℕ

-- The kinds of characters in `UUID_PATTERN`.
pub data Class : Type 0 where
  hex dash version variant : Class

abbrev is_letter : ℕ → ℕ → ℕ → Bool
is_letter low high c = leb low c && leb c high || leb (low - 32) c && leb c (high - 32)

abbrev fits : Class → ℕ → Bool
fits hex c = leb b'0' c && leb c b'9' || is_letter b'a' b'f' c
fits dash c = c == b'-'
fits version c = leb b'1' c && leb c b'5'
fits variant c = leb b'8' c && leb c b'9' || is_letter b'a' b'b' c

matches : List Class → Text → Bool
matches [] [] = true
matches (k ∷ ks) (c ∷ cs) = fits k c && matches ks cs
matches _ _ = false

abbrev uuid_pattern : List Class
uuid_pattern =
    hex ∷ hex ∷ hex ∷ hex ∷ hex ∷ hex ∷ hex ∷ hex ∷ dash ∷ hex ∷ hex ∷ hex ∷ hex ∷ dash ∷ version
    ∷ hex ∷ hex ∷ hex ∷ dash ∷ variant ∷ hex ∷ hex ∷ hex ∷ dash ∷ hex ∷ hex ∷ hex ∷ hex ∷ hex ∷ hex
    ∷ hex ∷ hex ∷ hex ∷ hex ∷ hex ∷ hex ∷ []

-- `UUID_PATTERN.test(text)`
unfoldable pub is_uuid : Text → Bool
unfolding matches
is_uuid text = matches uuid_pattern text

-- `/^\d{4}$/.test(text)`
unfoldable pub is_pin : Text → Bool
is_pin (a ∷ b ∷ c ∷ d ∷ []) =
    leb b'0' a
    && leb a b'9'
    && (leb b'0' b && leb b b'9')
    && (leb b'0' c && leb c b'9')
    && (leb b'0' d && leb d b'9')
is_pin _ = false

-- `throwIfThrottled`: the seconds to wait, where it throws.
unfoldable pub throw_if_throttled : ℕ → Text → Server → Option ℕ × Server
unfolding retry_after_seconds
throw_if_throttled now key server =
    let (left, buckets) = retry_after_seconds now key server.buckets in
    (left, record server { buckets = buckets })

-- `verify`
unfoldable pub verify : Platform → Text → Text → Bool
verify platform hash secret = or_else (platform.verifies hash secret) false

abbrev pub is_staff : Role → Bool
is_staff admin = false
is_staff staff = true

unfoldable pub linked_staff_member_id : ℕ → Db → Option ℕ
unfolding find_linked_staff_member
linked_staff_member_id user_id db = elim (find_linked_staff_member user_id db) [
  | none ↦ none
  | some m ↦ if m.is_active then some m.id else none
]

unfoldable pub with_linked_staff_member : AuthenticatedUser → Db → AuthenticatedUser
unfolding linked_staff_member_id
with_linked_staff_member user db =
    if is_staff user.role
    then record user { staff_member_id = some (linked_staff_member_id user.id db) }
    else record user { staff_member_id = some none }

unfoldable pub staff_login_result : Platform → User → Db → LoginResult
unfolding linked_staff_member_id
staff_login_result platform user db = record {
  user = record {
    id = user.id;
    username = user.username;
    role = staff;
    display_name = some user.display_name;
    staff_member_id = some (linked_staff_member_id user.id db);
  };
  token = platform.sign (record {
    sub = user.id;
    username = user.username;
    role = staff;
    display_name = some user.display_name;
  });
}

abbrev stored_hash : Option User → Text → Text
stored_hash none dummy = dummy
stored_hash (some u) dummy = u.password_hash

abbrev admin_if : Bool → Option User → Option User
admin_if matching none = none
admin_if matching (some u) =
    if not matching || is_staff u.role || not u.is_active then none else some u

-- `login`: `none` where it refuses.
unfoldable pub login : Platform → Text → Text → Db → Option LoginResult
unfolding find_by_username verify dummy_password_hash
login platform username secret db =
    let user = find_by_username platform username db in
    elim (admin_if (verify platform (stored_hash user dummy_password_hash) secret) user) [
      | none ↦ none
      | some u ↦ some (record {
        user = record {
          id = u.id;
          username = u.username;
          role = admin;
          display_name = none;
          staff_member_id = none;
        };
        token =
            platform.sign
              (record { sub = u.id; username = u.username; role = admin; display_name = none });
      })
    ]
