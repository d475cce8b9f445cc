-- ===== src/DbWriter/Release.antt =====
-- What ORDER_CANCELED and ORDER_REJECTED do to the balances: margin goes back to its owner, and the
-- totals of all assets stay.
use perpetual_futures_exchan.Prelude.{
  ℕ, ◌≤◌, ◌≡◌, refl, ◌∙◌, Bool, true, false, none, some, if◌then◌else◌, ◌==◌, Bool-cases,
  Option-cases, inl, inr,
}
use perpetual_futures_exchan.Prelude.Int.{ℤ, pos, ◌+ℤ◌, ◌-ℤ◌, int_laws}
use perpetual_futures_exchan.Big.{Js}
use perpetual_futures_exchan.Decimal.{DecStr, zero_text, mul, gt, places}
use perpetual_futures_exchan.Store.{Db, Market, Order}
use perpetual_futures_exchan.Store.Rows.{first}
use perpetual_futures_exchan.Store.Monad.{Result, ok, err, done, division_by_zero}
use perpetual_futures_exchan.Store.Numeric.{Postgres, IsPostgres}
use perpetual_futures_exchan.Balance.{unlock_balance}
use perpetual_futures_exchan.Balance.Table.{total}
use perpetual_futures_exchan.Balance.Moved.{IsLedger}
use perpetual_futures_exchan.Balance.Stored.{not_gt_zero}
use perpetual_futures_exchan.Balance.Release.{Unlocks, unlock_balance-Unlocks}
use perpetual_futures_exchan.Orders.{margin_for}
use perpetual_futures_exchan.DbWriter.{remaining, stored_leverage, buy_price, unlock_order_margin}

module _ ⦃js : Js⦄ where
  -- Only balances change, and no asset's total.
  pub record Conserves (db db' : Db) : Type 0 where
    pub ledger : IsLedger db'
    pub totals : (c : ℕ) → total c db'.balances ≡ total c db.balances
    pub frame : db' ≡ record db { balances = db'.balances }

  pub Conserves-refl : (db : Db) → IsLedger db → Conserves db db
  Conserves-refl db ledger = record { ledger = ledger; totals = λ c. refl; frame = refl }

  -- What is released has eight places at most, as a column holds it.
  pub record ReleaseFits (order : Order) : Type 0 where
    pub quantity : places (remaining order) ≤ 8
    pub margin :
        (price margin : DecStr)
        → buy_price order.side order.price ≡ some price
        → margin_for (mul price (remaining order)) (stored_leverage order) ≡ some margin
        → places margin ≤ 8

  no_change : (b : Bool) (y t : ℤ) → t +ℤ (if b then y +ℤ (pos 0 -ℤ y) else pos 0) ≡ t
  no_change true y t = omega int_laws
  no_change false y t = omega int_laws

  -- The asset and the amount that an order has still locked: a priced buy the margin for what is not
  -- filled yet, by the formula of the lock, and any other order what is not filled of its quantity.
  pub data IsDue (order : Order) (market : Market) : ℕ → DecStr → Type 0 where
    margin_due :
        (price : DecStr) {x : DecStr}
        → buy_price order.side order.price ≡ some price
        → margin_for (mul price (remaining order)) (stored_leverage order) ≡ some x
        → IsDue order market market.quote_asset_id x
    rest_due :
        buy_price order.side order.price ≡ none
        → IsDue order market market.base_asset_id (remaining order)

module _ ⦃js : Js⦄ ⦃pg : Postgres⦄ where
  -- What is due is unlocked for the owner of the order, as `unlockBalance` does, in the market that the
  -- tables list for it.
  pub data Released (order : Order) (db : Db) : Result (Unit {0}) × Db → Type 0 where
    marketless :
        first (λ m. m.id == order.market_id) db.markets ≡ none → Released order db (ok tt, db)
    no_margin :
        (market : Market) (price : DecStr)
        → first (λ m. m.id == order.market_id) db.markets ≡ some market
        → buy_price order.side order.price ≡ some price
        → margin_for (mul price (remaining order)) (stored_leverage order) ≡ none
        → Released order db (err division_by_zero, db)
    gives :
        (market : Market) (asset : ℕ) (x : DecStr) {r : Result (Unit {0}) × Db}
        → first (λ m. m.id == order.market_id) db.markets ≡ some market
        → IsDue order market asset x
        → Unlocks order.user_id asset x db r
        → Released order db r

  abbrev pub Unchanged : Db → Result (Unit {0}) × Db → Type 0
  Unchanged db (ok _, db') = Unit {0}
  Unchanged db (err e, db') = db' ≡ db

  pub released-Unchanged :
      (order : Order) (db : Db) (r : Result (Unit {0}) × Db) → Released order db r → Unchanged db r
  released-Unchanged order db r (Released.marketless missing) = tt
  released-Unchanged order db r (Released.no_margin m price found priced none_) = refl
  released-Unchanged order db (ok _, db') (Released.gives m asset x found due unlocks) = tt
  released-Unchanged order db (err e, db') (Released.gives m asset x found due unlocks) = unlocks.1

module _ ⦃js : Js⦄ ⦃pg : Postgres⦄ (laws : IsPostgres pg) where
  unlocks-Conserves :
      (user asset : ℕ) (x : DecStr) (db : Db) (r : Result (Unit {0}) × Db)
      → IsLedger db
      → Unlocks user asset x db r
      → Conserves db r.1
  unlocks-Conserves user asset x db (err e, db') ledger (_, same) =
      rw same (Conserves-refl db ledger)
  unlocks-Conserves user asset x db (ok _, db') ledger (inl (_, same)) =
      rw same (Conserves-refl db ledger)
  unlocks-Conserves user asset x db (ok _, db') ledger (inr (b, _, _, moved)) = record {
    ledger = moved.ledger;
    totals = λ c. moved.totals c ∙ no_change (asset == c) _ _;
    frame = moved.frame;
  }

  pub released-Conserves :
      (o : Order) (db : Db) (r : Result (Unit {0}) × Db)
      → IsLedger db
      → Released o db r
      → Conserves db r.1
  released-Conserves o db r ledger (Released.marketless missing) = Conserves-refl db ledger
  released-Conserves o db r ledger (Released.no_margin m price found priced none_) =
      Conserves-refl db ledger
  released-Conserves o db r ledger (Released.gives m asset x found due unlocks) =
      unlocks-Conserves o.user_id asset x db r ledger unlocks

  unlock_balance-Gives :
      (user asset : ℕ) (x : DecStr) (db : Db)
      → places x ≤ 8
      → IsLedger db
      → Unlocks user asset x db ((if gt x zero_text then unlock_balance user asset x else done) db)
  unlock_balance-Gives user asset x db fits ledger = elim (Bool-cases (gt x zero_text)) [
    | inl some_ ↦ rw some_ (unlock_balance-Unlocks laws user asset x db fits ledger)
    | inr none_ ↦ rw none_ (inl (inl (not_gt_zero x fits none_), refl))
  ]

  module _ (order : Order) (db : Db) (fits : ReleaseFits order) (ledger : IsLedger db) where
    pub unlock_order_margin-Released : Released order db (unlock_order_margin order db)
    unfolding unlock_order_margin
    unlock_order_margin-Released =
        elim (Option-cases (first (λ m. m.id == order.market_id) db.markets)) [
          | inl missing ↦ rw missing (Released.marketless missing)
          | inr (m, found) ↦ elim (Option-cases (buy_price order.side order.price)) [
            | inl whole ↦
                rw (found, whole)
                  (Released.gives m m.base_asset_id (remaining order) found (IsDue.rest_due whole) (
                    unlock_balance-Gives order.user_id m.base_asset_id (remaining order) db
                      fits.quantity ledger))
            | inr (p, priced) ↦
                elim (Option-cases (margin_for (mul p (remaining order)) (stored_leverage order))) [
                  | inl undefined ↦
                      rw (found, priced, undefined) (Released.no_margin m p found priced undefined)
                  | inr (x, margin) ↦
                      rw (found, priced, margin)
                        (Released.gives m m.quote_asset_id x found
                          (IsDue.margin_due p priced margin)
                          (unlock_balance-Gives order.user_id m.quote_asset_id x db
                            (fits.margin p x priced margin) ledger))
                ]
          ]
        ]
