-- ===== src/Inventory/Counts/Submitting.antt =====
-- Handing in a count keeps the chains of corrections.
use coffee_shop_pos_multi_ag.Base.{
  ℕ, ◌≡◌, refl, sym, ap, true, false, List, [], ◌∷◌, Option, none, some, find?, any, ◌==◌,
  Bool-cases, Option-cases, inl, inr, arith,
}
use mathlib.Core.Path.{subst}
use coffee_shop_pos_multi_ag.Failure.{
  Error, Result, ok, err, submitter_inactive, shift_lead_inactive, no_open_day,
}
use coffee_shop_pos_multi_ag.Store.{TradingDay, StaffMember, Db}
use coffee_shop_pos_multi_ag.Store.Calls.{M, lift, or_throw, ◌>>=◌}
use coffee_shop_pos_multi_ag.Store.Rules.{Post, Post-bind, Post-or_throw, Post-lift}
use coffee_shop_pos_multi_ag.Store.Queries.{find_open_day, find_active_staff}
use coffee_shop_pos_multi_ag.Store.Stock.{StockCountPhase, InventoryItem, StockCount}
use coffee_shop_pos_multi_ag.Inventory.Movements.{Supply, find_optional_staff}
use coffee_shop_pos_multi_ag.Inventory.Packaging.{corrects_count}
use coffee_shop_pos_multi_ag.Inventory.Counts.Input.{
  SubmitStockCountDto, SubmitStockCountLineDto, validate_line_values,
}
use coffee_shop_pos_multi_ag.Inventory.Counts.{
  off_sheet, method_differs, rethrown, check_items, target_differs, check_correction, new_count,
  same_target, insert_count_row, submit_transaction, submit,
}
use coffee_shop_pos_multi_ag.Inventory.Counts.Chain.{
  may_correct, target_among, IsChained, IsKept, KeepsCounts, IsKept-trans, any-find,
  target_among-append, IsAdded,
}

module _ (start : Db) (supply : Supply) (input : SubmitStockCountDto) where
  insert_count_row-Post :
      (row : StockCount) (db : Db)
      → IsKept start db
      → target_among row row.corrects_stock_count_id db.stock_counts ≡ true
      → (row.recorded_at ≡ supply.now)
        × (row.phase ≡ input.phase)
        × (row.corrects_stock_count_id ≡ input.corrects_stock_count_id)
      → Post (IsKept start) (IsAdded supply input) (insert_count_row row db)
  unfolding insert_count_row
  insert_count_row-Post row db k target facts =
      elim (Bool-cases (any (λ c. c.id == row.id) db.stock_counts)) [
        | inl used ↦ rw used k
        | inr new ↦
            rw new
              (elim (Bool-cases (
                any (λ c. same_target row.corrects_stock_count_id c.corrects_stock_count_id)
                  db.stock_counts)) [
                    | inl used ↦ rw used k
                    | inr single ↦ rw single (
                      record {
                        chained = (new, single, target, k.chained);
                        extended = (row ∷ k.extended.0, ap (λ l. row ∷ l) k.extended.1);
                      },
                      record {
                        newest = (db.stock_counts, refl);
                        recorded = facts.0;
                        of_phase = facts.1;
                        correcting = facts.2;
                      },
                    )
                  ])
      ]

  -- The correction that the request may make.
  abbrev Allowed : TradingDay → Option ℕ → Db → Type 0
  Allowed day o db =
      (o ≡ input.corrects_stock_count_id)
      × ((submitter : StaffMember) (lead : Option StaffMember)
          → target_among (new_count supply input day submitter lead o) o db.stock_counts ≡ true)

  check_items-Post :
      (phase : StockCountPhase) (lines : List SubmitStockCountLineDto) (db : Db)
      → IsKept start db
      → Post (IsKept start) (λ _ db'. db' ≡ db) (check_items phase lines db)
  unfolding check_items
  check_items-Post phase [] db k = (k, refl)
  check_items-Post phase (line ∷ lines) db k =
      let item : Option InventoryItem =
        find? (λ i. i.id == line.inventory_item_id) db.inventory_items in
      elim (Bool-cases (off_sheet phase item)) [
        | inl off ↦ rw off k
        | inr on ↦ rw on (elim (Bool-cases (method_differs item line)) [
          | inl differs ↦ rw differs k
          | inr fits ↦ rw fits (check_items-Post phase lines db k)
        ])
      ]

  target-allowed :
      (day : TradingDay) (id : ℕ) (db : Db) (submitter : StaffMember) (lead : Option StaffMember)
      → target_differs day input.phase (find? (λ c. c.id == id) db.stock_counts) ≡ false
      → any (may_correct (new_count supply input day submitter lead (some id)) id) db.stock_counts
        ≡ true
  unfolding new_count
  target-allowed day id db submitter lead h =
      elim (Option-cases (find? (λ c. c.id == id) db.stock_counts)) [
        | inl missing ↦ absurd (ground (arith, rw missing at h))
        | inr (c, found) ↦
            let same : target_differs day input.phase (some c) ≡ false = rw found at h in
            any-find (λ d. d.id == id)
              (may_correct (new_count supply input day submitter lead (some id)) id) db.stock_counts
              c found (λ e. ground arith)
      ]

  check_correction-Post :
      (day : TradingDay) (db : Db)
      → IsKept start db
      → Post
          (IsKept start)
          (Allowed day)
          (check_correction day input.phase input.corrects_stock_count_id db)
  check_correction-Post day db k = of_option input.corrects_stock_count_id refl
    where
      of_option :
          (o : Option ℕ)
          → input.corrects_stock_count_id ≡ o
          → Post (IsKept start) (Allowed day) (check_correction day input.phase o db)
      of_option none e = unfold check_correction in (k, (sym e, λ submitter lead. refl))
      of_option (some id) e =
          unfold check_correction in
          elim (Bool-cases
            (target_differs day input.phase (find? (λ c. c.id == id) db.stock_counts))) [
              | inl differs ↦ rw differs k
              | inr same ↦
                  rw same
                    (elim (Bool-cases
                      (any (λ c. corrects_count id c.corrects_stock_count_id) db.stock_counts)) [
                        | inl twice ↦ rw twice k
                        | inr once ↦ rw once (
                          k,
                          (sym e, λ submitter lead. target-allowed day id db submitter lead same),
                        )
                      ])
            ]

  corrects_field :
      (day : TradingDay) (submitter : StaffMember) (lead : Option StaffMember) (o : Option ℕ)
      → (new_count supply input day submitter lead o).corrects_stock_count_id ≡ o
  unfolding new_count
  corrects_field day submitter lead o = refl

  module _ (meanwhile : Db → Db) (keep : KeepsCounts meanwhile) where
    still_among :
        (row : StockCount) (o : Option ℕ) (db : Db)
        → row.corrects_stock_count_id ≡ o
        → IsChained db.stock_counts
        → target_among row o db.stock_counts ≡ true
        → target_among row row.corrects_stock_count_id (meanwhile db).stock_counts ≡ true
    still_among row o db e c h =
        let kept : IsKept db (meanwhile db) = keep db c in
        subst (λ (l : List StockCount). target_among row row.corrects_stock_count_id l ≡ true)
          (sym kept.extended.1)
          (target_among-append row row.corrects_stock_count_id kept.extended.0 db.stock_counts
            (subst (λ (x : Option ℕ). target_among row x db.stock_counts ≡ true) (sym e) h))

    insertion : TradingDay → StaffMember → Option StaffMember → Option ℕ → M StockCount
    insertion day submitter lead corrects db =
        insert_count_row (new_count supply input day submitter lead corrects) (meanwhile db)

    insertion-Post :
        (day : TradingDay) (submitter : StaffMember) (lead : Option StaffMember) (db : Db)
        → IsKept start db
        → Post (IsKept start) (IsAdded supply input) (
            (check_correction day input.phase input.corrects_stock_count_id
                >>= insertion day submitter lead)
              db)
    insertion-Post day submitter lead db k =
        Post-bind (IsKept start) (Allowed day) (IsAdded supply input)
          (check_correction day input.phase input.corrects_stock_count_id)
          (insertion day submitter lead) db (check_correction-Post day db k)
          (λ corrects db' k' allowed.
            unfold insertion in
            insert_count_row-Post (new_count supply input day submitter lead corrects)
              (meanwhile db') (IsKept-trans meanwhile keep start db' k')
              (still_among (new_count supply input day submitter lead corrects) corrects db'
                (corrects_field day submitter lead corrects) k'.chained (allowed.1 submitter lead))
              (unfold new_count in (refl, refl, allowed.0)))

    checked : TradingDay → StaffMember → Option StaffMember → M StockCount
    checked day submitter lead = check_items input.phase input.lines >>= λ _.
        check_correction day input.phase input.corrects_stock_count_id
        >>= insertion day submitter lead

    led : TradingDay → StaffMember → M StockCount
    led day submitter =
        (λ db.
          or_throw (find_optional_staff input.shift_lead_staff_member_id db)
            (Error.bad_request shift_lead_inactive) db)
        >>= checked day submitter

    checked-Post :
        (day : TradingDay) (submitter : StaffMember) (lead : Option StaffMember) (db : Db)
        → IsKept start db
        → Post (IsKept start) (IsAdded supply input) (checked day submitter lead db)
    unfolding checked
    checked-Post day submitter lead db k =
        Post-bind (IsKept start) (λ _ db'. db' ≡ db) (IsAdded supply input)
          (check_items input.phase input.lines)
          (λ _.
            check_correction day input.phase input.corrects_stock_count_id
            >>= insertion day submitter lead)
          db (check_items-Post input.phase input.lines db k)
          (λ _ db' k' _. insertion-Post day submitter lead db' k')

    led-Post :
        (day : TradingDay) (submitter : StaffMember) (db : Db)
        → IsKept start db
        → Post (IsKept start) (IsAdded supply input) (led day submitter db)
    unfolding led
    led-Post day submitter db k =
        Post-or_throw (IsKept start) (IsAdded supply input)
          (find_optional_staff input.shift_lead_staff_member_id db)
          (Error.bad_request shift_lead_inactive) (checked day submitter) db k
          (λ lead _. checked-Post day submitter lead db k)

    submit_transaction-Post :
        (day : TradingDay) (db : Db)
        → IsKept start db
        → Post
            (IsKept start)
            (IsAdded supply input)
            (submit_transaction meanwhile supply input day db)
    unfolding submit_transaction insertion led checked
    submit_transaction-Post day db k =
        Post-or_throw (IsKept start) (IsAdded supply input)
          (find_active_staff input.submitted_by_staff_member_id db)
          (Error.bad_request submitter_inactive) (led day) db k
          (λ submitter _. led-Post day submitter db k)

    rethrown-Post :
        (r : Result StockCount × Db)
        → Post (IsKept start) (IsAdded supply input) r
        → Post (IsKept start) (IsAdded supply input) (rethrown r)
    rethrown-Post (ok r, db) h = h
    rethrown-Post (err e, db) h = h

    pub submit-Post :
        (others : Db → Db)
        → KeepsCounts others
        → IsChained start.stock_counts
        → Post (IsKept start) (IsAdded supply input) (submit others meanwhile supply input start)
    unfolding submit
    submit-Post others keep_others chained =
        Post-or_throw (IsKept start) (IsAdded supply input) (find_open_day start)
          (Error.conflict no_open_day) validated start kept
          (λ day _.
            Post-lift (IsKept start) (IsAdded supply input) (validate_line_values input)
              (counted day) start kept
              (λ _ _. rethrown-Post (submit_transaction meanwhile supply input day (others start)) (
                submit_transaction-Post day (others start)
                  (IsKept-trans others keep_others start start kept))))
      where
        kept : IsKept start start
        kept = record { chained = chained; extended = ([], refl) }

        counted : TradingDay → Unit {0} → M StockCount
        counted day _ db = rethrown (submit_transaction meanwhile supply input day (others db))

        validated : TradingDay → M StockCount
        validated day = lift (validate_line_values input) >>= counted day
