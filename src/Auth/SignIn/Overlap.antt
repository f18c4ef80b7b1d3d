-- ===== src/Auth/SignIn/Overlap.antt =====
-- PINs that are entered at once: the requests all start before the first of them has been checked.
use coffee_shop_pos_multi_ag.Base.{
  ℕ, ◌≡◌, refl, ◌∙◌, ap, Bool, true, false, List, [], ◌∷◌, Option, none, some, is_some, map,
}
use coffee_shop_pos_multi_ag.Text.{Text, text_key}
use coffee_shop_pos_multi_ag.Store.{User, Db}
use coffee_shop_pos_multi_ag.Auth.Throttle.{
  Buckets, Config, is_live, evict_expired_buckets, retry_after_seconds,
}
use coffee_shop_pos_multi_ag.Auth.Users.{Platform}
use coffee_shop_pos_multi_ag.Auth.SignIn.{
  Server, LoginResult, Answer, too_many_requests, unauthorized, accepted, throw_if_throttled,
}
use coffee_shop_pos_multi_ag.Auth.SignIn.Requests.{
  Attempt, proceed, refuse, pin_attempt, pin_user, finish_staff,
}
use coffee_shop_pos_multi_ag.Auth.SignIn.Lockout.{supply_at, filter-filter}

-- Whether the secret was found right, where it was checked at all.
abbrev pub verdict : {A : Type 0} → Answer A → Option Bool
verdict (accepted a) = some true
verdict (unauthorized r) = some false
verdict (too_many_requests s) = none

retry_again :
    (t : ℕ) (key : Text) (buckets : Buckets)
    → (retry_after_seconds t key (retry_after_seconds t key buckets).1).0
      ≡ (retry_after_seconds t key buckets).0
unfolding retry_after_seconds evict_expired_buckets
retry_again t key buckets = rw (filter-filter (is_live t) buckets) refl

module _ (platform : Platform) (config : Config) (staff_id device_id : Text) (db : Db) where
  abbrev pub attempt_of : Text → Attempt
  attempt_of entered = pin_attempt platform staff_id entered device_id db

  -- The first halves, at the time `t`: what the throttle tells each request.
  unfoldable pub start_all : ℕ → List Text → Server → List (Option ℕ × Text) × Server
  unfolding throw_if_throttled
  start_all t [] server = ([], server)
  start_all t (entered ∷ pins) server =
      let (left, asked) = throw_if_throttled t (attempt_of []).key server in
      let (told, last) = start_all t pins asked in ((left, entered) ∷ told, last)

  -- The second halves, at the time `t`.
  unfoldable pub finish_all : ℕ → List (Option ℕ × Text) → Server → List (Answer LoginResult)
  unfolding finish_staff pin_user
  finish_all t [] server = []
  finish_all t ((left, entered) ∷ told) server =
      let (answer, next) =
        proceed left
          (finish_staff platform config (supply_at t) (attempt_of entered)
            (pin_user platform (attempt_of entered)))
          server in
      answer ∷ finish_all t told next

  abbrev pub enter_at_once : ℕ → ℕ → List Text → Server → List (Answer LoginResult)
  enter_at_once started verified pins server =
      let (told, asked) = start_all started pins server in finish_all verified told asked

  abbrev pub is_right : Text → Bool
  is_right entered = is_some (pin_user platform (attempt_of entered))

  start_all_free :
      (t : ℕ) (pins : List Text) (server : Server)
      → (retry_after_seconds t (attempt_of []).key server.buckets).0 ≡ none
      → (start_all t pins server).0 ≡ map (λ entered. (none, entered)) pins
  unfolding start_all throw_if_throttled
  start_all_free t [] server free = refl
  start_all_free t (entered ∷ pins) server free =
      ap (λ left. (left, entered) ∷ (start_all t pins asked).0) free
      ∙ ap (λ told. (none, entered) ∷ told)
          (start_all_free t pins asked (retry_again t (attempt_of []).key server.buckets ∙ free))
    where
      asked : Server
      asked = record server {
        buckets = (retry_after_seconds t (attempt_of []).key server.buckets).1;
      }

  verdict-right :
      (t : ℕ) (attempt : Attempt) (user : Option User) (server : Server)
      → verdict (finish_staff platform config (supply_at t) attempt user server).0
        ≡ some (is_some user)
  unfolding finish_staff refuse
  verdict-right t attempt none server = refl
  verdict-right t attempt (some u) server = refl

  finish_all_free :
      (t : ℕ) (pins : List Text) (server : Server)
      → map verdict (finish_all t (map (λ entered. (none, entered)) pins) server)
        ≡ map (λ entered. some (is_right entered)) pins
  unfolding finish_all
  finish_all_free t [] server = refl
  finish_all_free t (entered ∷ pins) server =
      ap (λ answer. answer ∷ map verdict (finish_all t (map (λ e. (none, e)) pins) next))
        (verdict-right t (attempt_of entered) (pin_user platform (attempt_of entered)) server)
      ∙ ap (λ rest. some (is_right entered) ∷ rest) (finish_all_free t pins next)
    where
      next : Server
      next =
          (finish_staff platform config (supply_at t) (attempt_of entered)
            (pin_user platform (attempt_of entered)) server).1

  -- The throttle does not hold requests that overlap: however many PINs are entered at once for one staff id on
  -- one device, where the key is free when they start, each is answered by its
  -- check, accepted where it is right and unauthorized where it is not, and none is told to wait, whatever
  -- number of failures is permitted.
  pub enter_at_once-is_right :
      (started verified : ℕ) (pins : List Text) (server : Server)
      → (retry_after_seconds started (attempt_of []).key server.buckets).0 ≡ none
      → map verdict (enter_at_once started verified pins server)
        ≡ map (λ entered. some (is_right entered)) pins
  enter_at_once-is_right started verified pins server free =
      ap (λ told. map verdict (finish_all verified told (start_all started pins server).1))
        (start_all_free started pins server free)
      ∙ finish_all_free verified pins (start_all started pins server).1
