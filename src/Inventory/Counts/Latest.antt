-- ===== src/Inventory/Counts/Latest.antt =====
-- Schedules of stock counts, and the count that the packaging reads.
use coffee_shop_pos_multi_ag.Base.{
  All-filter, ℕ, ◌<◌, ◌≡◌, ◌⊎◌, refl, ◌∙◌, ap, Bool, true, false, not, List, [], ◌∷◌, Option, none,
  some, filter, any, All, ◌==◌, Bool-cases, Option-cases, inl, inr, arith,
}
use mathlib.Core.Path.{subst}
use coffee_shop_pos_multi_ag.Failure.{ok}
use coffee_shop_pos_multi_ag.Store.{TradingDay, Db}
use coffee_shop_pos_multi_ag.Store.Rules.{Post, Post-keeps}
use coffee_shop_pos_multi_ag.Store.Queries.{first_by}
use coffee_shop_pos_multi_ag.Store.Stock.{StockCountPhase, opening_phase, closing_phase, StockCount}
use coffee_shop_pos_multi_ag.Inventory.Movements.{Supply}
use coffee_shop_pos_multi_ag.Inventory.Packaging.{
  is_phase, corrects_count, recorded_later, is_corrected, latest_stock_count_correction, in_scope,
  counts_of,
}
use coffee_shop_pos_multi_ag.Inventory.Counts.Input.{SubmitStockCountDto}
use coffee_shop_pos_multi_ag.Inventory.Counts.{submit}
use coffee_shop_pos_multi_ag.Inventory.Counts.Submitting.{submit-Post}
use coffee_shop_pos_multi_ag.Inventory.Counts.Chain.{
  may_correct, target_among, IsChained, IsKept, IsKept-trans, IsAdded,
}

-- Counts that are handed in, each with the schedules that others run before its checks and between its checks
-- and its row.
pub data CountSchedule : Type 0 where
  done : CountSchedule
  during :
      SubmitStockCountDto → Supply → CountSchedule → CountSchedule → CountSchedule → CountSchedule

unfoldable pub run_counts : CountSchedule → Db → Db
unfolding submit
run_counts done db = db
run_counts (during input supply others meanwhile rest) db =
    run_counts rest (submit (run_counts others) (run_counts meanwhile) supply input db).1

-- However stock counts overlap, the counts that were there stay as they are, below the new ones; no id stands
-- twice; every correction names an older count of its place, date and phase; and no count is corrected twice.
pub run_counts-IsKept :
    (schedule : CountSchedule) (db : Db)
    → IsChained db.stock_counts
    → IsKept db (run_counts schedule db)
unfolding run_counts
run_counts-IsKept done db c = record { chained = c; extended = ([], refl) }
run_counts-IsKept (during input supply others meanwhile rest) db c =
    IsKept-trans (run_counts rest) (run_counts-IsKept rest) db
      (submit (run_counts others) (run_counts meanwhile) supply input db).1
      (Post-keeps (IsKept db) (IsAdded supply input)
        (submit (run_counts others) (run_counts meanwhile) supply input db)
        (submit-Post db supply input (run_counts meanwhile) (run_counts-IsKept meanwhile)
          (run_counts others) (run_counts-IsKept others) c))

any_mono :
    (p q : StockCount → Bool) (counts : List StockCount)
    → ((c : StockCount) → p c ≡ true → q c ≡ true)
    → any q counts ≡ false
    → any p counts ≡ false
any_mono p q [] k h = refl
any_mono p q (c ∷ counts) k h = ground (arith, k c, any_mono p q counts k)

target_differs_from :
    (id : ℕ) (c : StockCount) (o : Option ℕ) (counts : List StockCount)
    → target_among c o counts ≡ true
    → any (λ d. d.id == id) counts ≡ false
    → corrects_count id o ≡ false
target_differs_from id c none counts t new = refl
target_differs_from id c (some target) counts t new = elim (Bool-cases (target == id)) [
  | inl e ↦
      let none_there : any (may_correct c target) counts ≡ false =
        any_mono (may_correct c target) (λ d. d.id == id) counts (λ d m. ground arith) new in
      absurd (ground arith)
  | inr e ↦ e
]

-- An id that no count has is corrected by none.
uncorrected :
    (id : ℕ) (counts : List StockCount)
    → IsChained counts
    → any (λ c. c.id == id) counts ≡ false
    → any (λ c. corrects_count id c.corrects_stock_count_id) counts ≡ false
uncorrected id [] h new = refl
uncorrected id (c ∷ counts) h new =
    let here : corrects_count id c.corrects_stock_count_id ≡ false =
      target_differs_from id c c.corrects_stock_count_id counts h.2 (ground arith) in
    let rest : any (λ d. corrects_count id d.corrects_stock_count_id) counts ≡ false =
      uncorrected id counts h.3 (ground arith) in
    rw (here, rest) refl

any-filter :
    (p q : StockCount → Bool) (counts : List StockCount)
    → any p counts ≡ false
    → any p (filter q counts) ≡ false
any-filter p q [] h = refl
any-filter p q (c ∷ counts) h = ground (arith, any-filter p q counts)

first_by_bound :
    (time : ℕ) (counts : List StockCount) (y : StockCount)
    → All (λ c. c.recorded_at < time) counts
    → first_by recorded_later (λ c. true) counts ≡ some y
    → y.recorded_at < time
unfolding first_by
first_by_bound time [] y a h = absurd (ground arith)
first_by_bound time (c ∷ counts) y a h = ground (arith, first_by_bound time counts y a.1, a.0)

-- A row that was recorded after all the others comes first.
first_by_newest :
    (r : StockCount) (counts : List StockCount)
    → All (λ c. c.recorded_at < r.recorded_at) counts
    → first_by recorded_later (λ c. true) (r ∷ counts) ≡ some r
unfolding first_by
first_by_newest r counts a = elim (Option-cases (first_by recorded_later (λ c. true) counts)) [
  | inl nothing ↦ rw nothing refl
  | inr (y, found) ↦ rw found (ground (arith, first_by_bound r.recorded_at counts y a found))
]

filter-cons :
    (p : StockCount → Bool) (r : StockCount) (counts : List StockCount)
    → p r ≡ true
    → filter p (r ∷ counts) ≡ r ∷ filter p counts
filter-cons p r counts h = rw h refl

is_phase_refl : (phase : StockCountPhase) → is_phase phase phase ≡ true
is_phase_refl opening_phase = refl
is_phase_refl closing_phase = refl

module _ (r : StockCount) (older : List StockCount) (chained : IsChained (r ∷ older))
    (p q : StockCount → Bool) where
  is_corrected_newest : is_corrected (r ∷ filter q (filter p older)) r ≡ false
  unfolding is_corrected
  is_corrected_newest =
      let itself : corrects_count r.id r.corrects_stock_count_id ≡ false =
        target_differs_from r.id r r.corrects_stock_count_id older chained.2 chained.0 in
      let others : any (λ d. corrects_count r.id d.corrects_stock_count_id)
            (filter q (filter p older))
          ≡ false =
        any-filter (λ d. corrects_count r.id d.corrects_stock_count_id) q (filter p older)
          (any-filter (λ d. corrects_count r.id d.corrects_stock_count_id) p older
            (uncorrected r.id older chained.3 chained.0)) in
      rw (itself, others) refl

-- A count that was put on chained counts, after all of them, is the latest of its phase, on its day.
latest_of_chained :
    (r : StockCount) (older : List StockCount) (day : TradingDay) (db : Db)
    → db.stock_counts ≡ r ∷ older
    → IsChained (r ∷ older)
    → All (λ c. c.recorded_at < r.recorded_at) older
    → in_scope day r.location_id r.business_date ≡ true
    → latest_stock_count_correction (counts_of day db) r.phase ≡ some r
unfolding latest_stock_count_correction counts_of
latest_of_chained r older day db rows chained later scope =
    ap (λ counts. latest_stock_count_correction (filter scoped counts) r.phase) rows
    ∙ ap (λ counts. latest_stock_count_correction counts r.phase) (filter-cons scoped r older scope)
    ∙ ap leaves_first (filter-cons phased r (filter scoped older) (is_phase_refl r.phase))
    ∙ ap (first_by recorded_later (λ c. true)) (
        filter-cons (λ c. not (is_corrected counted c)) r (filter phased (filter scoped older))
          (ap not (is_corrected_newest r older chained scoped phased)))
    ∙ first_by_newest r _ (
        All-filter _ (λ c. not (is_corrected counted c)) (filter phased (filter scoped older))
          (All-filter _ phased (filter scoped older) (All-filter _ scoped older later)))
  where
    scoped : StockCount → Bool
    scoped c = in_scope day c.location_id c.business_date

    phased : StockCount → Bool
    phased c = is_phase c.phase r.phase

    counted : List StockCount
    counted = r ∷ filter phased (filter scoped older)

    leaves_first : List StockCount → Option StockCount
    leaves_first counts =
        first_by recorded_later (λ c. true) (filter (λ c. not (is_corrected counts c)) counts)

-- A count that a request has returned is the one that the packaging reads: whatever other requests add counts
-- meanwhile, if it was recorded after every other, then on a day of its place and date it is the latest of its
-- phase, whether it corrects another count or is a first one; and it carries the phase and the correction that
-- were asked for.
pub submit_latest :
    (others meanwhile : CountSchedule) (supply : Supply) (input : SubmitStockCountDto) (db db' : Db)
    (r : StockCount)
    → IsChained db.stock_counts
    → submit (run_counts others) (run_counts meanwhile) supply input db ≡ (ok r, db')
    → All (λ c. (c.id ≡ r.id) ⊎ (c.recorded_at < r.recorded_at)) db'.stock_counts
    → (day : TradingDay) → in_scope day r.location_id r.business_date ≡ true
    → (latest_stock_count_correction (counts_of day db') input.phase ≡ some r)
      × (r.phase ≡ input.phase)
      × (r.corrects_stock_count_id ≡ input.corrects_stock_count_id)
submit_latest others meanwhile supply input db db' r chained h later day scope =
    let post : Post (IsKept db) (IsAdded supply input) (ok r, db') =
      subst (Post (IsKept db) (IsAdded supply input)) h (
        submit-Post db supply input (run_counts meanwhile) (run_counts-IsKept meanwhile)
          (run_counts others) (run_counts-IsKept others) chained) in
    let older : List StockCount = post.1.newest.0 in
    let rows : db'.stock_counts ≡ r ∷ older = post.1.newest.1 in
    let kept : IsChained (r ∷ older) = subst IsChained rows post.0.chained in
    (
      subst
          (λ (phase : StockCountPhase).
            latest_stock_count_correction (counts_of day db') phase ≡ some r)
          post.1.of_phase
          (latest_of_chained r older day db' rows kept
            (others_earlier older kept.0 (subst (All _) rows later).1) scope),
      post.1.of_phase,
      post.1.correcting,
    )
  where
    others_earlier :
        (cs : List StockCount)
        → any (λ d. d.id == r.id) cs ≡ false
        → All (λ c. (c.id ≡ r.id) ⊎ (c.recorded_at < r.recorded_at)) cs
        → All (λ c. c.recorded_at < r.recorded_at) cs
    others_earlier [] new a = tt
    others_earlier (c ∷ cs) new a = (ground (arith, a.0), others_earlier cs (ground arith) a.1)
