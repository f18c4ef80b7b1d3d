-- ===== src/Journal/Balance.antt =====
-- What a deposit does to the balance of its ledger (`createDeposit` and `toLedgerBalance`).
use coffee_shop_pos_multi_ag.Base.{
  ℕ, ◌<◌, ◌≡◌, refl, sym, ◌∙◌, ap, true, List, [], ◌∷◌, ◌++◌, filter, any, map, ◌==◌, ℤ, ◌+ℤ◌,
  neg_ℤ, sum, Bool-cases, inl, inr, ◌⊎◌, arith, int_laws,
}
use mathlib.Core.Path.{subst}
use coffee_shop_pos_multi_ag.Number.{two_53}
use coffee_shop_pos_multi_ag.Failure.{
  Result, ok, err, unique_violation, conflict, duplicate_deposit,
}
use coffee_shop_pos_multi_ag.Money.{add_money}
use coffee_shop_pos_multi_ag.Money.Sums.{abs_sum, add_money-exact}
use coffee_shop_pos_multi_ag.Reporting.Sums.{all_cents-ok}
use coffee_shop_pos_multi_ag.Store.{Db}
use coffee_shop_pos_multi_ag.Store.Journal.{JournalLedger, JournalDeposit, JournalWithdrawal}
use coffee_shop_pos_multi_ag.Store.Calls.{M, throw, catch_unique, interleave, ◌>>=◌, ◌>>◌}
use coffee_shop_pos_multi_ag.Store.Rules.{Post}
use coffee_shop_pos_multi_ag.Journal.{ledger_balance, require_ledger}
use coffee_shop_pos_multi_ag.Journal.Deposits.{
  JournalDepositDto, assert_eligible_dates, new_deposit, insert_deposit, create_deposit,
  deposit_clashes,
}
use coffee_shop_pos_multi_ag.Journal.Deposits.Bulk.{all_eligible-Post, require_ledger-Post}

-- The amounts of a ledger: its start, its deposits, and its withdrawals with their sign changed.
abbrev pub amounts_of : JournalLedger → Db → List ℤ
amounts_of l db =
    l.starting_balance_cents
    ∷ (map (λ (d : JournalDeposit). d.amount_cents)
          (filter (λ (d : JournalDeposit). d.ledger_id == l.id) db.journal_deposits)
        ++ map (λ (w : JournalWithdrawal). neg_ℤ w.amount_cents)
            (filter (λ (w : JournalWithdrawal). w.ledger_id == l.id) db.journal_withdrawals))

ledger_balance-sum :
    (l : JournalLedger) (db : Db)
    → abs_sum (amounts_of l db) < two_53
    → ledger_balance l db ≡ ok (sum (amounts_of l db))
unfolding ledger_balance
ledger_balance-sum l db h =
    ap (λ (r : Result (List ℤ)). elim r [ ok amounts ↦ add_money amounts | err e ↦ err e ])
      (all_cents-ok (amounts_of l db) h)
    ∙ add_money-exact (amounts_of l db) h

-- A deposit that throws changes nothing itself; one that is saved adds its amount to the balance that the
-- ledger has when it is saved.
abbrev pub IsDeposited :
    JournalLedger → JournalDepositDto → (Db → Db) → Db → Result JournalDeposit × Db → Type 0
IsDeposited l input others db (err e, db') = (db' ≡ db) ⊎ (db' ≡ others db)
IsDeposited l input others db (ok row, db') =
    (b : ℤ) × (ledger_balance l (others db) ≡ ok b)
    × (ledger_balance l db' ≡ ok (input.amount_cents +ℤ b))

module _ (l : JournalLedger) (input : JournalDepositDto) (others : Db → Db) (db : Db)
    (small : abs_sum (input.amount_cents ∷ amounts_of l (others db)) < two_53) where
  balance_after :
      (row : JournalDeposit)
      → row.ledger_id ≡ l.id
      → row.amount_cents ≡ input.amount_cents
      → IsDeposited l input others db
          (ok row, record (others db) { journal_deposits = row ∷ (others db).journal_deposits })
  balance_after row same amount =
      let saved : Db = record (others db) {
        journal_deposits = row ∷ (others db).journal_deposits;
      } in
      let own : (row.ledger_id == l.id) ≡ true = ground arith in
      let terms : amounts_of l saved ≡ l.starting_balance_cents ∷ input.amount_cents ∷ rest =
        rw (own, amount) refl in
      (
        sum (amounts_of l (others db)),
        ledger_balance-sum l (others db) (omega arith),
        ledger_balance-sum l saved (subst (λ xs. abs_sum xs < two_53) (sym terms) (omega arith))
            ∙ ap (λ xs. ok (sum xs)) terms
            ∙ ap ok (omega int_laws),
      )
    where
      rest : List ℤ
      rest =
          map (λ (d : JournalDeposit). d.amount_cents)
            (filter (λ (d : JournalDeposit). d.ledger_id == l.id) (others db).journal_deposits)
          ++ map (λ (w : JournalWithdrawal). neg_ℤ w.amount_cents)
              (filter (λ (w : JournalWithdrawal). w.ledger_id == l.id)
                (others db).journal_withdrawals)

  Deposited-bind :
      {A : Type 0} (Q : A → Type 0) (m : M A) (f : A → M JournalDeposit)
      → Post (λ d. d ≡ db) (λ a _. Q a) (m db)
      → ((a : A) → Q a → IsDeposited l input others db (f a db))
      → IsDeposited l input others db ((m >>= f) db)
  Deposited-bind {A} Q m f h k = go (m db) h
    where
      go :
          (r : Result A × Db)
          → Post (λ d. d ≡ db) (λ a _. Q a) r
          → IsDeposited l input others db
              (let (x, db') = r in elim x [ ok a ↦ f a db' | err e ↦ (err e, db') ])
      go (ok a, db') h = subst (λ d. IsDeposited l input others db (f a d)) (sym h.0) (k a h.1)
      go (err e, db') h = inl h

  inserted :
      (row : JournalDeposit)
      → (insert_deposit row (others db) ≡ (err unique_violation, others db))
        ⊎ (insert_deposit row (others db) ≡ (
          ok row,
          record (others db) { journal_deposits = row ∷ (others db).journal_deposits },
        ))
  unfolding insert_deposit
  inserted row = elim (Bool-cases (any (deposit_clashes row) (others db).journal_deposits)) [
    | inl clash ↦ inl (rw clash refl)
    | inr free ↦ inr (rw free refl)
  ]

  saving-IsDeposited :
      (row : JournalDeposit)
      → row.ledger_id ≡ l.id
      → row.amount_cents ≡ input.amount_cents
      → IsDeposited l input others db
          (catch_unique (insert_deposit row) (throw (conflict duplicate_deposit)) (others db))
  saving-IsDeposited row same amount = elim (inserted row) [
    | inl e ↦ subst Caught (sym e) (inr refl)
    | inr e ↦ subst Caught (sym e) (balance_after row same amount)
  ]
    where
      Caught : Result JournalDeposit × Db → Type 0
      Caught r =
          IsDeposited l input others db
            (catch_unique (λ _. r) (throw (conflict duplicate_deposit)) (others db))

  -- A new deposit either throws and leaves the database as it was or as others left it meanwhile, or raises the
  -- balance of its ledger by its amount, as long as the ledger's amounts stay below 2^53 in sum.
  pub create_deposit-IsDeposited :
      (id user_id : ℕ)
      → IsDeposited l input others db (create_deposit others id l.id input user_id db)
  unfolding create_deposit new_deposit
  create_deposit-IsDeposited id user_id =
      let saving : JournalLedger → M JournalDeposit = λ k.
        interleave others
        >> catch_unique (insert_deposit (new_deposit id k input user_id))
            (throw (conflict duplicate_deposit)) in
      Deposited-bind (λ k. k.id ≡ l.id) (require_ledger l.id)
        (λ k. assert_eligible_dates k input.business_date [] >> saving k)
        (require_ledger-Post l.id db)
        (λ k same.
          Deposited-bind (λ _. Unit {0}) (assert_eligible_dates k input.business_date [])
            (λ _. saving k) (all_eligible-Post k (input ∷ []) db)
            (λ _ _. saving-IsDeposited (new_deposit id k input user_id) same refl))
