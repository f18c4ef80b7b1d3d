-- ===== src/Orders/Preferences.antt =====
-- Proofs about the preferences of a line, which stand for a set.
use coffee_shop_pos_multi_ag.Base.{◌≡◌, refl, Bool, List, [], ◌∷◌, any, if◌then◌else◌, arith}
use coffee_shop_pos_multi_ag.Store.{LinePreference, sweeter, stronger, less_sweet, less_ice}
use coffee_shop_pos_multi_ag.Orders.Amounts.{preference_eq, normalize_preferences}

abbrev pub is_chosen : LinePreference → List LinePreference → Bool
is_chosen p ps = any (preference_eq p) ps

-- What four tests let through, in the order of the declaration.
abbrev kept : Bool → Bool → Bool → Bool → List LinePreference
kept a b c d =
    let rest = (if d then less_ice ∷ [] else []) in
    let rest = (if c then less_sweet ∷ rest else rest) in
    let rest = (if b then stronger ∷ rest else rest) in if a then sweeter ∷ rest else rest

normalize_preferences-kept :
    (ps : List LinePreference)
    → normalize_preferences ps
      ≡ kept
          (is_chosen sweeter ps)
          (is_chosen stronger ps)
          (is_chosen less_sweet ps)
          (is_chosen less_ice ps)
unfolding normalize_preferences
normalize_preferences-kept ps = refl

-- Two lists that choose the same preferences are stored alike: order and repetition do not matter.
pub normalize_preferences-set :
    (ps qs : List LinePreference)
    → ((p : LinePreference) → is_chosen p ps ≡ is_chosen p qs)
    → normalize_preferences ps ≡ normalize_preferences qs
normalize_preferences-set ps qs h =
    rw
      (
        normalize_preferences-kept ps,
        normalize_preferences-kept qs,
        h sweeter,
        h stronger,
        h less_sweet,
        h less_ice,
      )
      refl

kept-chosen :
    (p : LinePreference) (choose : LinePreference → Bool)
    → is_chosen p (kept (choose sweeter) (choose stronger) (choose less_sweet) (choose less_ice))
      ≡ choose p
kept-chosen sweeter choose = ground arith
kept-chosen stronger choose = ground arith
kept-chosen less_sweet choose = ground arith
kept-chosen less_ice choose = ground arith

-- A preference is stored exactly when it was sent.
pub normalize_preferences-chosen :
    (p : LinePreference) (ps : List LinePreference)
    → is_chosen p (normalize_preferences ps) ≡ is_chosen p ps
normalize_preferences-chosen p ps =
    rw (normalize_preferences-kept ps) (kept-chosen p (λ q. is_chosen q ps))
