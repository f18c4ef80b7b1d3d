-- ===== src/Auth/SignIn/Requests.antt =====
-- The four requests that check a secret (apps/api/src/auth/auth.service.ts). An attempt is what a request
-- has read when it waits for the hash to be checked.
use coffee_shop_pos_multi_ag.Base.{
  ℕ, Bool, false, not, ◌&&◌, [], Option, none, some, any, ◌==◌, if◌then◌else◌, or_else,
}
use coffee_shop_pos_multi_ag.Text.{Text, is_empty}
use coffee_shop_pos_multi_ag.Store.{User, StaffMember, CashierSelection, Db}
use coffee_shop_pos_multi_ag.Store.Queries.{append_selection}
use coffee_shop_pos_multi_ag.Auth.Throttle.{
  Config, password, pin, key_for_user, key_for_unknown, record_failure, reset,
}
use coffee_shop_pos_multi_ag.Auth.Hashes.{dummy_password_hash, dummy_pin_hash}
use coffee_shop_pos_multi_ag.Auth.Users.{
  Platform, find_by_username, find_by_id, find_by_staff_member_id, find_linked_staff_member,
}
use coffee_shop_pos_multi_ag.Auth.SignIn.{
  Server, LoginResult, Refusal, invalid_staff_credentials, invalid_cashier_pin, Answer,
  too_many_requests, unauthorized, accepted, Supply, is_uuid, is_pin, throw_if_throttled, verify,
  is_staff, staff_login_result,
}

pub record Attempt : Type 0 where
  pub user : Option User
  pub key : Text
  pub device_id : Text
  pub secret : Text

abbrev active_only : Option StaffMember → Option StaffMember
active_only none = none
active_only (some m) = if m.is_active then some m else none

abbrev location_of : Option StaffMember → Option ℕ
location_of none = none
location_of (some m) = m.location_id

abbrev id_of : Option StaffMember → Option ℕ
id_of none = none
id_of (some m) = some m.id

unfoldable pub default_selection : Supply → Text → ℕ → Db → CashierSelection
unfolding find_linked_staff_member
default_selection supply device_id user_id db =
    let member = active_only (find_linked_staff_member user_id db) in
    record {
      id = supply.selection_id;
      device_id = device_id;
      location_id = location_of member;
      staff_member_id = id_of member;
      selected_by_user_id = user_id;
      selected_at = supply.verified_at;
    }

-- `appendDefaultCashier`: a row that the database refuses is only logged.
unfoldable pub append_default_cashier : Supply → Text → ℕ → Db → Db
unfolding default_selection append_selection
append_default_cashier supply device_id user_id db =
    if any (λ s. s.id == supply.selection_id) db.cashier_selections
    then db
    else append_selection (default_selection supply device_id user_id db) db

abbrev pub proceed :
    {A : Type 0} → Option ℕ → (Server → Answer A × Server) → Server → Answer A × Server
proceed (some seconds) rest asked = (too_many_requests seconds, asked)
proceed none rest asked = rest asked

-- The check of the throttle, and what other requests do while the hash is checked.
unfoldable pub with_throttle :
    {A : Type 0}
    → (Server → Server)
    → ℕ
    → Text
    → (Server → Answer A × Server)
    → Server
    → Answer A × Server
unfolding throw_if_throttled
with_throttle others now key finish server =
    let (left, asked) = throw_if_throttled now key server in
    proceed left (λ s. finish (others s)) asked

unfoldable pub refuse :
    {A : Type 0} → Config → Supply → Attempt → Refusal → Server → Answer A × Server
unfolding record_failure
refuse config supply attempt refusal server = (
  unauthorized refusal,
  record server { buckets = record_failure config supply.verified_at attempt.key server.buckets },
)

abbrev key_or_unknown : Platform → Text → Option User → Text → Text
key_or_unknown platform device_id none unknown = unknown
key_or_unknown platform device_id (some u) unknown = key_for_user device_id (platform.print_id u.id)

module _ (platform : Platform) where
  unfoldable pub password_attempt : Text → Text → Text → Db → Attempt
  unfolding find_by_username key_for_user key_for_unknown
  password_attempt username secret device_id db =
      let user = find_by_username platform username db in
      record {
        user = user;
        key =
            key_or_unknown platform device_id user
              (key_for_unknown platform.lower device_id password username);
        device_id = device_id;
        secret = secret;
      }

  unfoldable pub pin_attempt : Text → Text → Text → Db → Attempt
  unfolding find_by_id key_for_user key_for_unknown is_uuid
  pin_attempt staff_id secret device_id db =
      let user = if is_uuid staff_id then find_by_id platform staff_id db else none in
      record {
        user = user;
        key =
            key_or_unknown platform device_id user
              (key_for_unknown platform.lower device_id pin staff_id);
        device_id = device_id;
        secret = secret;
      }

  -- `none` for a pin that is no string.
  unfoldable pub cashier_attempt : Text → Option Text → Text → Db → Attempt
  unfolding find_by_staff_member_id key_for_user key_for_unknown is_uuid
  cashier_attempt staff_member_id supplied device_id db =
      let user =
        if is_uuid staff_member_id
        then find_by_staff_member_id platform staff_member_id db
        else none in
      record {
        user = user;
        key =
            key_or_unknown platform device_id user
              (key_for_unknown platform.lower device_id pin staff_member_id);
        device_id = device_id;
        secret = or_else supplied [];
      }

  abbrev pub password_hash_of : Option User → Text
  password_hash_of none = dummy_password_hash
  password_hash_of (some u) = u.password_hash

  abbrev pin_hash_of : Option User → Text
  pin_hash_of none = dummy_pin_hash
  pin_hash_of (some u) = or_else u.pin_hash dummy_pin_hash

  abbrev has_pin : Option Text → Bool
  has_pin none = false
  has_pin (some hash) = not (is_empty hash)

  -- The user of an attempt if every condition of the request holds.
  abbrev pub when : Option User → (User → Bool) → Option User
  when none test = none
  when (some u) test = if test u then some u else none

  unfoldable pub password_user : Attempt → Option User
  unfolding verify dummy_password_hash
  password_user attempt =
      let matching = verify platform (password_hash_of attempt.user) attempt.secret in
      when attempt.user (λ u. matching && is_staff u.role && u.is_active)

  unfoldable pub pin_user : Attempt → Option User
  unfolding verify dummy_pin_hash is_pin is_empty
  pin_user attempt =
      let matching = verify platform (pin_hash_of attempt.user) attempt.secret in
      when attempt.user (λ u.
        is_pin attempt.secret && has_pin u.pin_hash && matching && is_staff u.role && u.is_active)

  unfoldable pub cashier_user : Attempt → Option User
  unfolding verify dummy_pin_hash is_pin is_empty
  cashier_user attempt =
      let matching = verify platform (pin_hash_of attempt.user) attempt.secret in
      when attempt.user
        (λ u. is_pin attempt.secret && has_pin u.pin_hash && matching && u.is_active)

unfoldable pub finish_cashier :
    Config → Supply → Attempt → Option User → Server → Answer (Unit {0}) × Server
unfolding refuse reset
finish_cashier config supply attempt none server =
    refuse config supply attempt invalid_cashier_pin server
finish_cashier config supply attempt (some u) server =
    (accepted tt, record server { buckets = reset attempt.key server.buckets })

module _ (platform : Platform) (config : Config) where
  unfoldable pub finish_staff :
      Supply → Attempt → Option User → Server → Answer LoginResult × Server
  unfolding refuse append_default_cashier staff_login_result reset
  finish_staff supply attempt none server =
      refuse config supply attempt invalid_staff_credentials server
  finish_staff supply attempt (some u) server = (
    accepted (staff_login_result platform u server.db),
    record server {
      db = append_default_cashier supply attempt.device_id u.id server.db;
      buckets = reset attempt.key server.buckets;
    },
  )

  unfoldable pub staff_password_login :
      (Server → Server) → Supply → Text → Text → Text → Server → Answer LoginResult × Server
  unfolding password_attempt with_throttle finish_staff password_user
  staff_password_login others supply username secret device_id server =
      let attempt = password_attempt platform username secret device_id server.db in
      with_throttle others supply.started_at attempt.key
        (finish_staff supply attempt (password_user platform attempt)) server

  unfoldable pub staff_pin_login :
      (Server → Server) → Supply → Text → Text → Text → Server → Answer LoginResult × Server
  unfolding pin_attempt with_throttle finish_staff pin_user
  staff_pin_login others supply staff_id secret device_id server =
      let attempt = pin_attempt platform staff_id secret device_id server.db in
      with_throttle others supply.started_at attempt.key
        (finish_staff supply attempt (pin_user platform attempt)) server

  unfoldable pub authorize_cashier_pin :
      (Server → Server) → Supply → Text → Option Text → Text → Server → Answer (Unit {0}) × Server
  unfolding cashier_attempt with_throttle finish_cashier cashier_user
  authorize_cashier_pin others supply staff_member_id supplied device_id server =
      let attempt = cashier_attempt platform staff_member_id supplied device_id server.db in
      with_throttle others supply.started_at attempt.key
        (finish_cashier config supply attempt (cashier_user platform attempt)) server
