-- ===== src/Dict.antt =====
-- The program's `Map`: entries in the order in which their keys were first set.
pub mod Laws
use coffee_shop_pos_multi_ag.Base.{
  ℕ, ◌==◌, ==_iff, ◌≡◌, ◌↔◌, Bool, true, false, List, [], ◌∷◌, Option, none, some, any, filter, All,
  not, delete_where, if◌then◌else◌,
}

-- Keys that can be compared.
pub record Key (K : Type 0) : Type 0 where
  pub same : K → K → Bool
  pub same_iff : (a b : K) → (same a b ≡ true) ↔ (a ≡ b)

instance abbrev pub id_key : Key ℕ
id_key = record { same = ◌==◌; same_iff = ==_iff }

abbrev pub Dict : Type 0 → Type 0 → Type 0
Dict K V = List (K × V)

module _ {K V : Type 0} ⦃e : Key K⦄ where
  -- `map.get(k)`
  unfoldable pub lookup : K → Dict K V → Option V
  lookup k [] = none
  lookup k ((j, v) ∷ m) = if e.same j k then some v else lookup k m

  -- `map.has(k)`
  unfoldable pub has : K → Dict K V → Bool
  has k [] = false
  has k ((j, v) ∷ m) = if e.same j k then true else has k m

  -- `map.set(k, v)`: an old key keeps its place, and a new one comes last.
  unfoldable pub insert : K → V → Dict K V → Dict K V
  insert k v [] = (k, v) ∷ []
  insert k v ((j, w) ∷ m) = if e.same j k then (j, v) ∷ m else (j, w) ∷ insert k v m

  -- `map.delete(k)`
  unfoldable pub erase : K → Dict K V → Dict K V
  erase k [] = []
  erase k ((j, w) ∷ m) = if e.same j k then m else (j, w) ∷ erase k m

  -- No key stands twice.
  abbrev pub Distinct : Dict K V → Type 0
  Distinct [] = Unit
  Distinct ((k, v) ∷ m) = (has k m ≡ false) × Distinct m
