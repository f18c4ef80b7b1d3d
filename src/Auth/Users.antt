-- ===== src/Auth/Users.antt =====
-- The lookups of apps/api/src/users/users.service.ts that signing in makes, and what it takes from
-- the platform: the database's comparison of user names, ids as text, the hashes and the tokens.
use coffee_shop_pos_multi_ag.Base.{ℕ, Bool, false, Option, none, some, find?, ◌==◌}
use coffee_shop_pos_multi_ag.Text.{Text, trim}
use coffee_shop_pos_multi_ag.Store.{Role, User, StaffMember, Db}

-- `displayName` is absent from an administrator's token.
pub record AuthTokenPayload : Type 0 where
  pub sub : ℕ
  pub username : Text
  pub role : Role
  pub display_name : Option Text

-- `verifies` is `argon2.verify`, `none` where it throws; `sign` is `jwtService.signAsync`; `lower`
-- is `toLocaleLowerCase('en-US')`; `same_name` compares as `mode: 'insensitive'` does; `read_id` and
-- `print_id` turn the text of an id into the id and back.
pub record Platform : Type 0 where
  pub verifies : Text → Text → Option Bool
  pub sign : AuthTokenPayload → Text
  pub lower : Text → Text
  pub same_name : Text → Text → Bool
  pub read_id : Text → ℕ
  pub print_id : ℕ → Text

unfoldable pub find_by_username : Platform → Text → Db → Option User
unfolding trim
find_by_username platform username db =
    find? (λ u. platform.same_name u.username (trim username)) db.users

unfoldable pub find_by_id : Platform → Text → Db → Option User
find_by_id platform id db = find? (λ u. u.id == platform.read_id id) db.users

abbrev pub user_of : Option ℕ → Db → Option User
user_of none db = none
user_of (some id) db = find? (λ u. u.id == id) db.users

abbrev pub user_of_member : Option StaffMember → Db → Option User
user_of_member none db = none
user_of_member (some m) db = user_of m.user_id db

unfoldable pub find_by_staff_member_id : Platform → Text → Db → Option User
find_by_staff_member_id platform id db =
    user_of_member (find? (λ m. m.id == platform.read_id id) db.staff_members) db

abbrev pub is_linked_to : ℕ → Option ℕ → Bool
is_linked_to id none = false
is_linked_to id (some linked) = linked == id

unfoldable pub find_linked_staff_member : ℕ → Db → Option StaffMember
find_linked_staff_member user_id db = find? (λ m. is_linked_to user_id m.user_id) db.staff_members
