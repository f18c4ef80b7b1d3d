-- ===== src/Dict/Laws.antt =====
-- Laws of the maps.
use coffee_shop_pos_multi_ag.Base.{
  ◌+◌, ◌≤◌, ◌≡◌, refl, Bool, true, false, [], ◌∷◌, none, some, filter, All, length, if◌then◌else◌,
  Bool-cases, Option-cases, inl, inr, arith, is_some,
}
use mathlib.Core.Path.{subst}
use coffee_shop_pos_multi_ag.Dict.{Key, Dict, lookup, has, insert, erase, Distinct}

pub same_refl : {K : Type 0} ⦃e : Key K⦄ (k : K) → e.same k k ≡ true
same_refl ⦃e⦄ k = (e.same_iff k k).1 refl

module _ {K V : Type 0} ⦃e : Key K⦄ where
  pub has-lookup : (k : K) (m : Dict K V) → has k m ≡ is_some (lookup k m)
  unfolding has lookup
  has-lookup k [] = refl
  has-lookup k ((j, v) ∷ m) = ground (arith, has-lookup k m)

  pub lookup_of_not_has : (k : K) (m : Dict K V) → has k m ≡ false → lookup k m ≡ none
  unfolding has lookup
  lookup_of_not_has k [] h = refl
  lookup_of_not_has k ((j, v) ∷ m) h = ground (arith, lookup_of_not_has k m)

  pub lookup-insert :
      (k j : K) (v : V) (m : Dict K V)
      → lookup j (insert k v m) ≡ (if e.same k j then some v else lookup j m)
  unfolding lookup insert
  lookup-insert k j v [] = refl
  lookup-insert k j v ((i, w) ∷ m) =
      ground (arith, e.same_iff k j, e.same_iff i k, e.same_iff i j, lookup-insert k j v m)

  pub lookup-insert_self : (k : K) (v : V) (m : Dict K V) → lookup k (insert k v m) ≡ some v
  lookup-insert_self k v m = ground (arith, lookup-insert k k v m, same_refl k)

  pub has-insert :
      (k j : K) (v : V) (m : Dict K V)
      → has j (insert k v m) ≡ (if e.same k j then true else has j m)
  unfolding has insert
  has-insert k j v [] = refl
  has-insert k j v ((i, w) ∷ m) =
      ground (arith, e.same_iff k j, e.same_iff i k, e.same_iff i j, has-insert k j v m)

  pub length-insert :
      (k : K) (v : V) (m : Dict K V)
      → length (insert k v m) ≡ (if has k m then length m else length m + 1)
  unfolding has insert
  length-insert k v [] = refl
  length-insert k v ((i, w) ∷ m) = ground (arith, length-insert k v m)

  pub Distinct-insert : (k : K) (v : V) (m : Dict K V) → Distinct m → Distinct (insert k v m)
  unfolding insert
  Distinct-insert k v [] d = (unfold has in refl, tt)
  Distinct-insert k v ((i, w) ∷ m) d = elim (Bool-cases (e.same i k)) [
    | inl h ↦ rw h d
    | inr h ↦ rw h (
      ground (arith, has-insert k i v m, e.same_iff k i, e.same_iff i k, d.0),
      Distinct-insert k v m d.1,
    )
  ]

  pub All-insert {κ} :
      (P : K × V → Type κ) (k : K) (v : V) (m : Dict K V)
      → ((j : K) → P (j, v))
      → All P m
      → All P (insert k v m)
  unfolding insert
  All-insert P k v [] h a = (h k, tt)
  All-insert P k v ((i, w) ∷ m) h a = elim (Bool-cases (e.same i k)) [
    | inl g ↦ rw g (h i, a.1)
    | inr g ↦ rw g (a.0, All-insert P k v m h a.1)
  ]

  pub All-erase {κ} : (P : K × V → Type κ) (k : K) (m : Dict K V) → All P m → All P (erase k m)
  unfolding erase
  All-erase P k [] a = tt
  All-erase P k ((i, w) ∷ m) a = elim (Bool-cases (e.same i k)) [
    | inl g ↦ rw g a.1
    | inr g ↦ rw g (a.0, All-erase P k m a.1)
  ]

  pub length-erase-le : (k : K) (m : Dict K V) → length (erase k m) ≤ length m
  unfolding erase
  length-erase-le k [] = omega arith
  length-erase-le k ((i, w) ∷ m) = ground (arith, length-erase-le k m)

  has-erase-false : (k j : K) (m : Dict K V) → has j m ≡ false → has j (erase k m) ≡ false
  unfolding has erase
  has-erase-false k j [] h = refl
  has-erase-false k j ((i, w) ∷ m) h = ground (arith, has-erase-false k j m)

  -- A key is gone once it has been deleted.
  pub lookup-erase : (k : K) (m : Dict K V) → Distinct m → lookup k (erase k m) ≡ none
  unfolding lookup erase
  lookup-erase k [] d = refl
  lookup-erase k ((i, w) ∷ m) d = elim (Bool-cases (e.same i k)) [
    | inl g ↦
        let same : i ≡ k = (e.same_iff i k).0 g in
        rw g (lookup_of_not_has k m (subst (λ (j : K). has j m ≡ false) same d.0))
    | inr g ↦ rw (g, lookup, g) (lookup-erase k m d.1)
  ]

  pub Distinct-erase : (k : K) (m : Dict K V) → Distinct m → Distinct (erase k m)
  unfolding erase
  Distinct-erase k [] d = tt
  Distinct-erase k ((i, w) ∷ m) d = elim (Bool-cases (e.same i k)) [
    | inl g ↦ rw g d.1
    | inr g ↦ rw g (has-erase-false k i m d.0, Distinct-erase k m d.1)
  ]

  pub has-filter :
      (p : K × V → Bool) (k : K) (m : Dict K V) → has k m ≡ false → has k (filter p m) ≡ false
  unfolding has
  has-filter p k [] h = refl
  has-filter p k ((i, w) ∷ m) h = ground (arith, has-filter p k m)

  pub Distinct-filter : (p : K × V → Bool) (m : Dict K V) → Distinct m → Distinct (filter p m)
  Distinct-filter p [] d = tt
  Distinct-filter p ((i, w) ∷ m) d = elim (Bool-cases (p (i, w))) [
    | inl g ↦ rw g (has-filter p i m d.0, Distinct-filter p m d.1)
    | inr g ↦ rw g (Distinct-filter p m d.1)
  ]

  pub lookup-filter :
      (p : K × V → Bool) (k : K) (v : V) (m : Dict K V)
      → Distinct m
      → lookup k m ≡ some v
      → lookup k (filter p m) ≡ (if p (k, v) then some v else none)
  unfolding lookup
  lookup-filter p k v [] d h = absurd (ground arith)
  lookup-filter p k v ((i, w) ∷ m) d h = elim (Bool-cases (e.same i k)) [
    | inl g ↦
        let same : i ≡ k = (e.same_iff i k).0 g in
        let value : w ≡ v = ground arith in
        rw (← same, ← value)
          (elim (Bool-cases (p (i, w))) [
            | inl kept ↦ rw (kept, lookup, same_refl i) refl
            | inr gone ↦ rw gone (lookup_of_not_has i (filter p m) (has-filter p i m d.0))
          ])
    | inr g ↦ elim (Bool-cases (p (i, w))) [
      | inl kept ↦ rw (kept, lookup, g) (lookup-filter p k v m d.1 (ground arith))
      | inr gone ↦ rw gone (lookup-filter p k v m d.1 (ground arith))
    ]
  ]

  pub lookup-filter_dropped :
      (p : K × V → Bool) (k : K) (m : Dict K V)
      → ((v : V) → lookup k m ≡ some v → p (k, v) ≡ false)
      → Distinct m
      → lookup k (filter p m) ≡ none
  lookup-filter_dropped p k m h d = elim (Option-cases (lookup k m)) [
    | inl gone ↦
        lookup_of_not_has k (filter p m) (has-filter p k m (rw (has-lookup k m, gone) refl))
    | inr (v, found) ↦ rw (lookup-filter p k v m d found, h v found) refl
  ]

  pub All-lookup {κ} :
      (P : V → Type κ) (k : K) (v : V) (m : Dict K V)
      → All (λ entry. P entry.1) m
      → lookup k m ≡ some v
      → P v
  unfolding lookup
  All-lookup P k v [] a h = absurd (ground arith)
  All-lookup P k v ((i, w) ∷ m) a h = elim (Bool-cases (e.same i k)) [
    | inl g ↦ let value : w ≡ v = ground arith in subst P value a.0
    | inr g ↦ All-lookup P k v m a.1 (ground arith)
  ]
