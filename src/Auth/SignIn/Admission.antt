-- ===== src/Auth/SignIn/Admission.antt =====
-- Who signs in with a password.
use coffee_shop_pos_multi_ag.Base.{
  ℕ, ◌≡◌, ◌≢◌, refl, sym, ◌∙◌, ap, Bool, true, ◌&&◌, Option, none, some, Option-cases, Bool-cases,
  inl, inr, arith,
}
use mathlib.Core.Path.{subst}
use coffee_shop_pos_multi_ag.Text.{Text, text_key}
use coffee_shop_pos_multi_ag.Dict.{lookup, Distinct}
use coffee_shop_pos_multi_ag.Dict.Laws.{lookup-erase}
use coffee_shop_pos_multi_ag.Store.{Role, staff, User, Db}
use coffee_shop_pos_multi_ag.Auth.Throttle.{Config, key_for_user, retry_after_seconds, reset}
use coffee_shop_pos_multi_ag.Auth.Users.{Platform, find_by_username}
use coffee_shop_pos_multi_ag.Auth.SignIn.{
  Server, LoginResult, Answer, too_many_requests, accepted, Supply, verify, is_staff,
  staff_login_result,
}
use coffee_shop_pos_multi_ag.Auth.SignIn.Requests.{
  Attempt, when, password_hash_of, refuse, with_throttle, password_attempt, password_user,
  finish_staff, staff_password_login, append_default_cashier,
}
use coffee_shop_pos_multi_ag.Auth.SignIn.Lockout.{with_throttle_free, with_throttle_blocked}

and_left : (a b : Bool) → (a && b) ≡ true → a ≡ true
and_left a b h = ground arith

and_right : (a b : Bool) → (a && b) ≡ true → b ≡ true
and_right a b h = ground arith

is_staff_sound : (r : Role) → is_staff r ≡ true → r ≡ staff
is_staff_sound r h = ground arith

module _ (platform : Platform) where
  -- Someone whom the request lets in: the user of that name, whose password is right, who is active staff.
  pub record IsAdmitted (username secret : Text) (db : Db) (u : User) : Type 0 where
    pub named : find_by_username platform username db ≡ some u
    pub verified : verify platform u.password_hash secret ≡ true
    pub is_staff_user : u.role ≡ staff
    pub active : u.is_active ≡ true

  when_sound :
      (user : Option User) (test : User → Bool) (u : User)
      → when platform user test ≡ some u
      → (user ≡ some u) × (test u ≡ true)
  when_sound none test u h = absurd (ground arith)
  when_sound (some v) test u h = elim (Bool-cases (test v)) [
    | inl yes_ ↦
        let same : v ≡ u = ground arith in
        (ap some same, subst (λ (w : User). test w ≡ true) same yes_)
    | inr no_ ↦ absurd (ground arith)
  ]

  password_user-IsAdmitted :
      (username secret device_id : Text) (db : Db) (u : User)
      → password_user platform (password_attempt platform username secret device_id db) ≡ some u
      → IsAdmitted username secret db u
  unfolding password_user password_attempt
  password_user-IsAdmitted username secret device_id db u h =
      let user : Option User = find_by_username platform username db in
      let sound = when_sound user _ u h in
      let matching : verify platform (password_hash_of platform (some u)) secret ≡ true =
        subst (λ (w : Option User). verify platform (password_hash_of platform w) secret ≡ true)
          sound.0 (and_left _ _ (and_left _ _ sound.1)) in
      record {
        named = sound.0;
        verified = matching;
        is_staff_user = is_staff_sound u.role (and_right _ _ (and_left _ _ sound.1));
        active = and_right _ _ sound.1;
      }

module _ (platform : Platform) (config : Config) (others : Server → Server) (supply : Supply) where
  finish_accepted :
      (attempt : Attempt) (user : Option User) (server after : Server) (r : LoginResult)
      → finish_staff platform config supply attempt user server ≡ (accepted r, after)
      → (u : User) × (user ≡ some u)
        × (r ≡ staff_login_result platform u server.db)
        × (after ≡ record server {
          db = append_default_cashier supply attempt.device_id u.id server.db;
          buckets = reset attempt.key server.buckets;
        })
  unfolding finish_staff refuse
  finish_accepted attempt none server after r h = absurd (ground arith)
  finish_accepted attempt (some u) server after r h = (u, refl, ground arith, cc)

  -- The server when the hash has been checked: expired buckets were dropped, and others went on.
  abbrev pub waited : Text → Server → Server
  waited key server =
      others
        (record server { buckets = (retry_after_seconds supply.started_at key server.buckets).1 })

  abbrev pub key_of : Text → User → Text
  key_of device_id u = key_for_user device_id (platform.print_id u.id)

  with_throttle_accepted :
      (key : Text) (finish : Server → Answer LoginResult × Server) (server after : Server)
      (r : LoginResult)
      → with_throttle others supply.started_at key finish server ≡ (accepted r, after)
      → ((retry_after_seconds supply.started_at key server.buckets).0 ≡ none)
        × (finish (waited key server) ≡ (accepted r, after))
  with_throttle_accepted key finish server after r h =
      elim (Option-cases (retry_after_seconds supply.started_at key server.buckets).0) [
        | inl free ↦
            (free, sym (with_throttle_free others supply.started_at key finish server free) ∙ h)
        | inr (s, blocked) ↦ absurd (
            refused s (
              sym (with_throttle_blocked others supply.started_at key finish server s blocked) ∙ h))
      ]
    where
      refused :
          {before : Server} (s : ℕ)
          → ◌≢◌ {A = Answer LoginResult × Server} (too_many_requests s, before) (accepted r, after)
      refused s e = absurd (ground arith)

  key_of_named :
      (username secret device_id : Text) (db : Db) (u : User)
      → find_by_username platform username db ≡ some u
      → (password_attempt platform username secret device_id db).key ≡ key_of device_id u
  unfolding password_attempt
  key_of_named username secret device_id db u h = rw h refl

  -- Whoever signs in with a password, whatever other requests do while the hash is checked: when the request
  -- came, the key of that user and device was not blocked, and the first user of that name in the database had
  -- that password and was active staff. The answer is that user's, with the roster link as it is after the
  -- check, and the device's default cashier is appended. The failures of that user on that device are
  -- forgotten, if the keys of the throttle's map are distinct.
  pub staff_password_login-accepted :
      (username secret device_id : Text) (server after : Server) (r : LoginResult)
      → staff_password_login platform config others supply username secret device_id server
        ≡ (accepted r, after)
      → (u : User) × IsAdmitted platform username secret server.db u
        × ((retry_after_seconds supply.started_at (key_of device_id u) server.buckets).0 ≡ none)
        × (r ≡ staff_login_result platform u (waited (key_of device_id u) server).db)
        × (after.db
            ≡ append_default_cashier supply device_id u.id (waited (key_of device_id u) server).db)
        × (Distinct (waited (key_of device_id u) server).buckets
            → lookup (key_of device_id u) after.buckets ≡ none)
  staff_password_login-accepted username secret device_id server after r h =
      let attempt : Attempt = password_attempt platform username secret device_id server.db in
      let passed =
        with_throttle_accepted attempt.key
          (finish_staff platform config supply attempt (password_user platform attempt)) server
          after r (unfold staff_password_login in h) in
      let done = finish_accepted attempt _ _ after r passed.1 in
      let u : User = done.0 in
      let sound = password_user-IsAdmitted platform username secret device_id server.db u done.1 in
      let same : attempt.key ≡ key_of device_id u =
        key_of_named username secret device_id server.db u sound.named in
      let same_device : attempt.device_id ≡ device_id = unfold password_attempt in refl in
      (
        u,
        sound,
        subst (λ (k : Text). (retry_after_seconds supply.started_at k server.buckets).0 ≡ none) same
            passed.0,
        done.2 ∙ ap (λ k. staff_login_result platform u (waited k server).db) same,
        ap (λ s. s.db) done.3
            ∙ ap (λ k. append_default_cashier supply attempt.device_id u.id (waited k server).db)
                same
            ∙ ap (λ d. append_default_cashier supply d u.id (waited (key_of device_id u) server).db)
                same_device,
        λ d.
            subst (λ (k : Text). lookup k after.buckets ≡ none) same
              (ap (λ s. lookup attempt.key s.buckets) done.3
                ∙ unfold reset in
                  lookup-erase attempt.key (waited attempt.key server).buckets
                    (subst (λ (k : Text). Distinct (waited k server).buckets) (sym same) d)),
      )
