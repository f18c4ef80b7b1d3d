-- ===== src/Auth/SignIn/Lockout.antt =====
-- Wrong PINs of one user on one device, one request after the other.
use coffee_shop_pos_multi_ag.Base.{
  ℕ, ◌+◌, ◌-◌, ◌/◌, ◌<◌, ◌≡◌, refl, sym, ◌∙◌, ap, Bool, true, false, List, [], ◌∷◌, Option, none,
  some, filter, length, ltb, All, if◌then◌else◌, Bool-cases, Option-cases, inl, inr,
}
use coffee_shop_pos_multi_ag.Text.{Text, text_key}
use coffee_shop_pos_multi_ag.Dict.{lookup}
use coffee_shop_pos_multi_ag.Store.{User, Db}
use coffee_shop_pos_multi_ag.Auth.Throttle.{
  Buckets, Config, is_live, evict_expired_buckets, retry_after_seconds, record_failure,
}
use coffee_shop_pos_multi_ag.Auth.Throttle.Invariant.{IsSound}
use coffee_shop_pos_multi_ag.Auth.Throttle.Lock.{
  record_failures, Close, last_time, retry_after_seconds-record_failures,
}
use coffee_shop_pos_multi_ag.Auth.Users.{Platform}
use coffee_shop_pos_multi_ag.Auth.SignIn.{
  Server, LoginResult, invalid_staff_credentials, Answer, too_many_requests, unauthorized, accepted,
  Supply, throw_if_throttled, staff_login_result,
}
use coffee_shop_pos_multi_ag.Auth.SignIn.Requests.{
  Attempt, proceed, with_throttle, refuse, pin_attempt, pin_user, finish_staff, staff_pin_login,
}

abbrev pub undisturbed : Server → Server
undisturbed server = server

abbrev pub supply_at : ℕ → Supply
supply_at t = record { started_at = t; verified_at = t; selection_id = t }

pub filter-filter : {A : Type 0} (p : A → Bool) (xs : List A) → filter p (filter p xs) ≡ filter p xs
filter-filter p [] = refl
filter-filter p (x ∷ xs) = elim (Bool-cases (p x)) [
  | inl h ↦ rw (h, h) (ap (λ rest. x ∷ rest) (filter-filter p xs))
  | inr h ↦ rw h (filter-filter p xs)
]

-- A failure finds the map as it is after the eviction.
record_failure-evict :
    (config : Config) (t : ℕ) (key : Text) (buckets : Buckets)
    → record_failure config t key (evict_expired_buckets t buckets)
      ≡ record_failure config t key buckets
unfolding record_failure retry_after_seconds evict_expired_buckets
record_failure-evict config t key buckets = rw (filter-filter (is_live t) buckets) refl

record_failure_blocked :
    (config : Config) (t s : ℕ) (key : Text) (buckets : Buckets)
    → (retry_after_seconds t key buckets).0 ≡ some s
    → record_failure config t key buckets ≡ (retry_after_seconds t key buckets).1
unfolding record_failure
record_failure_blocked config t s key buckets h = rw h refl

module _ {A : Type 0} (others : Server → Server) (t : ℕ) (key : Text)
    (finish : Server → Answer A × Server) (server : Server) where
  pub with_throttle_free :
      (retry_after_seconds t key server.buckets).0 ≡ none
      → with_throttle others t key finish server
        ≡ finish (others (record server { buckets = (retry_after_seconds t key server.buckets).1 }))
  unfolding with_throttle throw_if_throttled
  with_throttle_free h =
      ap
        (λ (left : Option ℕ).
          proceed left (λ s. finish (others s))
            (record server { buckets = (retry_after_seconds t key server.buckets).1 }))
        h

  pub with_throttle_blocked :
      (s : ℕ)
      → (retry_after_seconds t key server.buckets).0 ≡ some s
      → with_throttle others t key finish server ≡ (
        too_many_requests s,
        record server { buckets = (retry_after_seconds t key server.buckets).1 },
      )
  unfolding with_throttle throw_if_throttled
  with_throttle_blocked s h =
      ap
        (λ (left : Option ℕ).
          proceed left (λ s. finish (others s))
            (record server { buckets = (retry_after_seconds t key server.buckets).1 }))
        h

module _ (platform : Platform) (config : Config) (staff_id device_id : Text) where
  abbrev pub enter : ℕ → Text → Server → Answer LoginResult × Server
  enter t entered server =
      staff_pin_login platform config undisturbed (supply_at t) staff_id entered device_id server

  -- PINs that are entered one after the other, with their times.
  unfoldable pub enter_all : List (ℕ × Text) → Server → Server
  enter_all [] server = server
  enter_all ((t, entered) ∷ entries) server = enter_all entries (enter t entered server).1

  abbrev pub the_key : Db → Text
  the_key db = (pin_attempt platform staff_id [] device_id db).key

  abbrev pub IsWrong : Db → ℕ × Text → Type 0
  IsWrong db entry = pin_user platform (pin_attempt platform staff_id entry.1 device_id db) ≡ none

  enter-eq :
      (t : ℕ) (entered : Text) (server : Server)
      → enter t entered server
        ≡ with_throttle undisturbed t
            (the_key server.db)
            (finish_staff platform config
              (supply_at t)
              (pin_attempt platform staff_id entered device_id server.db)
              (pin_user platform (pin_attempt platform staff_id entered device_id server.db)))
            server
  unfolding staff_pin_login
  enter-eq t entered server = refl

  key_of_any :
      (entered : Text) (db : Db)
      → (pin_attempt platform staff_id entered device_id db).key ≡ the_key db
  unfolding pin_attempt
  key_of_any entered db = refl

  refuse-eq :
      (t : ℕ) (entered : Text) (db : Db) (server : Server)
      → finish_staff platform config
          (supply_at t)
          (pin_attempt platform staff_id entered device_id db)
          none
          server
        ≡ (
          unauthorized invalid_staff_credentials,
          record server { buckets = record_failure config t (the_key db) server.buckets },
        )
  unfolding finish_staff refuse pin_attempt
  refuse-eq t entered db server = refl

  -- A wrong PIN leaves one failure and nothing else, whether it is refused by the throttle or by the check.
  enter_wrong :
      (t : ℕ) (entered : Text) (server : Server)
      → IsWrong server.db (t, entered)
      → (enter t entered server).1
        ≡ record server { buckets = record_failure config t (the_key server.db) server.buckets }
  enter_wrong t entered server wrong =
      let finish : Server → Answer LoginResult × Server =
        finish_staff platform config (supply_at t)
          (pin_attempt platform staff_id entered device_id server.db)
          (pin_user platform (pin_attempt platform staff_id entered device_id server.db)) in
      elim (Option-cases (retry_after_seconds t (the_key server.db) server.buckets).0) [
        | inl free ↦
            ap (λ r. r.1) (enter-eq t entered server)
            ∙ ap (λ r. r.1)
                (with_throttle_free undisturbed t (the_key server.db) finish server free)
            ∙ rw wrong (
                ap (λ r. r.1) (refuse-eq t entered server.db _)
                ∙ ap (λ b. record server { buckets = b })
                    (evicted t (the_key server.db) server.buckets))
        | inr (s, blocked) ↦
            ap (λ r. r.1) (enter-eq t entered server)
            ∙ ap (λ r. r.1)
                (with_throttle_blocked undisturbed t (the_key server.db) finish server s blocked)
            ∙ ap (λ b. record server { buckets = b })
                (sym (record_failure_blocked config t s (the_key server.db) server.buckets blocked))
      ]
    where
      evicted :
          (t : ℕ) (key : Text) (buckets : Buckets)
          → record_failure config t key (retry_after_seconds t key buckets).1
            ≡ record_failure config t key buckets
      evicted t key buckets =
          unfold retry_after_seconds in record_failure-evict config t key buckets

  abbrev pub times : List (ℕ × Text) → List ℕ
  times [] = []
  times (entry ∷ entries) = entry.0 ∷ times entries

  enter_all_wrong :
      (entries : List (ℕ × Text)) (server : Server)
      → All (IsWrong server.db) entries
      → enter_all entries server ≡ record server {
        buckets = record_failures config (the_key server.db) (times entries) server.buckets;
      }
  unfolding enter_all record_failures
  enter_all_wrong [] server wrong = refl
  enter_all_wrong ((t, entered) ∷ entries) server wrong =
      ap (enter_all entries) (enter_wrong t entered server wrong.0)
      ∙ enter_all_wrong entries
          (record server { buckets = record_failure config t (the_key server.db) server.buckets })
          wrong.1

  -- What a request answers that the throttle lets pass.
  abbrev pub checked : Option User → Db → Answer LoginResult
  checked none db = unauthorized invalid_staff_credentials
  checked (some u) db = accepted (staff_login_result platform u db)

  finish-answer :
      (supply : Supply) (attempt : Attempt) (user : Option User) (server : Server)
      → (finish_staff platform config supply attempt user server).0 ≡ checked user server.db
  unfolding finish_staff refuse
  finish-answer supply attempt none server = refl
  finish-answer supply attempt (some u) server = refl

  enter_answer :
      (now : ℕ) (entered : Text) (server : Server) (left : Option ℕ)
      → (retry_after_seconds now (the_key server.db) server.buckets).0 ≡ left
      → (enter now entered server).0 ≡ elim left [
        | some s ↦ too_many_requests s
        | none ↦
            checked
              (pin_user platform (pin_attempt platform staff_id entered device_id server.db))
              server.db
      ]
  enter_answer now entered server none free =
      ap (λ r. r.0) (enter-eq now entered server)
      ∙ ap (λ r. r.0) (with_throttle_free undisturbed now (the_key server.db) _ server free)
      ∙ finish-answer (supply_at now) (pin_attempt platform staff_id entered device_id server.db) _
          _
  enter_answer now entered server (some s) blocked =
      ap (λ r. r.0) (enter-eq now entered server)
      ∙ ap (λ r. r.0) (with_throttle_blocked undisturbed now (the_key server.db) _ server s blocked)

  module _ (some_failures : 0 < config.max_failures) (some_buckets : 0 < config.max_buckets) where
    -- PINs are guessed in vain: once as many wrong PINs as are permitted have been entered for one staff id on
    -- one device, one request after the other, the first of them where no live bucket counted and each of the
    -- others less than a cooldown after the one before, the next request with any PIN, the right one too, is
    -- told to wait for the rest of the cooldown that started with the last of them. From its end on the answer
    -- is what the check of that PIN alone gives.
    pub staff_pin_login-lockout :
        (t : ℕ) (first : Text) (entries : List (ℕ × Text)) (server : Server)
        → IsSound config server.buckets
        → All (IsWrong server.db) ((t, first) ∷ entries)
        → lookup (the_key server.db) (evict_expired_buckets t server.buckets) ≡ none
        → Close config.cooldown_ms t (times entries)
        → length (t ∷ times entries) ≡ config.max_failures
        → (now : ℕ) (entered : Text)
        → (enter now entered (enter_all ((t, first) ∷ entries) server)).0 ≡ (
            if ltb now (last_time t (times entries) + config.cooldown_ms)
            then too_many_requests
                ((last_time t (times entries) + config.cooldown_ms - now + 999) / 1000)
            else checked
                (pin_user platform (pin_attempt platform staff_id entered device_id server.db))
                server.db)
    staff_pin_login-lockout t first entries server s wrong new close enough now entered =
        ap (λ after. (enter now entered after).0)
          (enter_all_wrong ((t, first) ∷ entries) server wrong)
        ∙ enter_answer now entered
            (record server {
              buckets =
                  record_failures config (the_key server.db) (t ∷ times entries) server.buckets;
            })
            (if ltb now (last_time t (times entries) + config.cooldown_ms)
              then some ((last_time t (times entries) + config.cooldown_ms - now + 999) / 1000)
              else none)
            (unfold record_failures in
              retry_after_seconds-record_failures config some_failures some_buckets t
                (times entries) [] (the_key server.db) server.buckets s new close enough tt now)
        ∙ by_time (ltb now (last_time t (times entries) + config.cooldown_ms)) _ _
      where
        by_time :
            (early : Bool) (seconds : ℕ) (otherwise : Answer LoginResult)
            → (elim (if early then some seconds else none) [
              | some s ↦ too_many_requests s
              | none ↦ otherwise
            ])
              ≡ (if early then too_many_requests seconds else otherwise)
        by_time true seconds otherwise = refl
        by_time false seconds otherwise = refl
