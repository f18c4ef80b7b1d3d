-- ===== src/Base/Lists.antt =====
-- Lists with Boolean predicates and native lengths, and predicates over all entries.
use Prim.Native.Nat.{ℕ, suc}
use mathlib.Core.Path.{◌≡◌, refl, subst}
use mathlib.Core.Bool.{Bool, true, false, ◌||◌}
use mathlib.Core.List.{List, [], ◌∷◌}
use mathlib.Core.Option.{Option, none, some}
use native.Mathlib.Omega.{arith}
use coffee_shop_pos_multi_ag.Base.Tests.{if◌then◌else◌}

-- The statement that is never true, at any level.
pub data Never {ℓ} : Type ℓ where

module _ {ℓ} {A : Type ℓ} where
  abbrev pub length : List A → ℕ
  length [] = 0
  length (x ∷ xs) = suc (length xs)

  -- `xs.filter(p)`
  abbrev pub filter : (A → Bool) → List A → List A
  filter p [] = []
  filter p (x ∷ xs) = if p x then x ∷ filter p xs else filter p xs

  -- `xs.find(p)`, and `findFirst` on rows in the order asked for.
  abbrev pub find? : (A → Bool) → List A → Option A
  find? p [] = none
  find? p (x ∷ xs) = if p x then some x else find? p xs

  -- `xs.some(p)`
  abbrev pub any : (A → Bool) → List A → Bool
  any p [] = false
  any p (x ∷ xs) = p x || any p xs

  abbrev pub All {κ} : (A → Type κ) → List A → Type κ
  All P [] = Unit
  All P (x ∷ xs) = P x × All P xs

  -- The rows that meet `p` rewritten by `f`: `updateMany`, and `update` on a unique key.
  abbrev pub update_where : (A → Bool) → (A → A) → List A → List A
  update_where p f [] = []
  update_where p f (x ∷ xs) = (if p x then f x else x) ∷ update_where p f xs

  abbrev pub delete_where : (A → Bool) → List A → List A
  delete_where p [] = []
  delete_where p (x ∷ xs) = if p x then delete_where p xs else x ∷ delete_where p xs

  pub find?-sound : (p : A → Bool) (xs : List A) (a : A) → find? p xs ≡ some a → p a ≡ true
  find?-sound p [] a h = cc
  find?-sound p (x ∷ xs) a h = ground (arith, find?-sound p xs a)

  pub All-update_where {κ} :
      (P : A → Type κ) (p : A → Bool) (f : A → A) (xs : List A)
      → ((a : A) → p a ≡ true → P a → P (f a))
      → All P xs
      → All P (update_where p f xs)
  All-update_where P p f [] keep h = tt
  All-update_where P p f (x ∷ xs) keep h = (head (p x) refl, All-update_where P p f xs keep h.1)
    where
      head : (b : Bool) → p x ≡ b → P (if b then f x else x)
      head true e = keep x e h.0
      head false e = h.0

  pub All-find? {κ} :
      (P : A → Type κ) (p : A → Bool) (xs : List A) (a : A) → All P xs → find? p xs ≡ some a → P a
  All-find? P p [] a h e = cc
  All-find? P p (x ∷ xs) a h e = go (p x) e (All-find? P p xs a h.1)
    where
      go :
          (b : Bool)
          → (if b then some x else find? p xs) ≡ some a
          → (find? p xs ≡ some a → P a)
          → P a
      go true e' rest = subst P (cc) h.0
      go false e' rest = rest e'

  pub All-delete_where {κ} :
      (P : A → Type κ) (p : A → Bool) (xs : List A) → All P xs → All P (delete_where p xs)
  All-delete_where P p [] h = tt
  All-delete_where P p (x ∷ xs) h =
      elim (p x) as (λ b. All P (if b then delete_where p xs else x ∷ delete_where p xs)) [
        | true ↦ All-delete_where P p xs h.1
        | false ↦ (h.0, All-delete_where P p xs h.1)
      ]

  -- Two lists of one length whose entries are related one by one.
  abbrev pub Rows {κ} : (A → A → Type κ) → List A → List A → Type κ
  Rows R [] [] = Unit
  Rows R [] (y ∷ ys) = Never
  Rows R (x ∷ xs) [] = Never
  Rows R (x ∷ xs) (y ∷ ys) = R x y × Rows R xs ys

  pub Rows-update_where {κ} :
      (R : A → A → Type κ) (p : A → Bool) (f : A → A)
      → ((a : A) → R a (if p a then f a else a))
      → (xs : List A) → Rows R xs (update_where p f xs)
  Rows-update_where R p f r [] = tt
  Rows-update_where R p f r (x ∷ xs) = (r x, Rows-update_where R p f r xs)

  pub All-map {κ ι} :
      (P : A → Type κ) (Q : A → Type ι)
      → ((a : A) → P a → Q a)
      → (xs : List A) → All P xs
      → All Q xs
  All-map P Q f [] h = tt
  All-map P Q f (x ∷ xs) h = (f x h.0, All-map P Q f xs h.1)

  pub All-filter {κ} :
      (P : A → Type κ) (p : A → Bool) (xs : List A) → All P xs → All P (filter p xs)
  All-filter P p [] a = tt
  All-filter P p (x ∷ xs) a =
      elim (p x) as (λ b. All P (if b then x ∷ filter p xs else filter p xs)) [
        | true ↦ (a.0, All-filter P p xs a.1)
        | false ↦ All-filter P p xs a.1
      ]
