-- ===== src/DbWriter/Settle/Sides.antt =====
-- Both sides of a trade's settlement, on a ledger.
use perpetual_futures_exchan.Prelude.{ℕ, ◌≡◌, ◌≢◌, sym, some}
use mathlib.Core.Path.{subst}
use perpetual_futures_exchan.Prelude.Int.{ℤ, ◌+ℤ◌, ◌≤ℤ◌, int_laws}
use perpetual_futures_exchan.Big.{Js}
use perpetual_futures_exchan.Decimal.{DecStr, amount}
use perpetual_futures_exchan.Store.{Db, Order, Side}
use perpetual_futures_exchan.Store.Monad.{◌>>◌}
use perpetual_futures_exchan.Store.Numeric.{Postgres, IsPostgres}
use perpetual_futures_exchan.Balance.Holdings.{at, plus, available_of, locked_of}
use perpetual_futures_exchan.Orders.{margin_for}
use perpetual_futures_exchan.DbWriter.{stored_leverage}
use perpetual_futures_exchan.DbWriter.Trade.{Settlement, proceeds}
use perpetual_futures_exchan.DbWriter.InOrder.{gives, pay_in_order, pays}
use perpetual_futures_exchan.DbWriter.Settle.{IfOk, Good, Settled, Settled-Good}
use perpetual_futures_exchan.DbWriter.Settle.Steps.{
  Fits, elsewhere_zero, gives-Settled, le_same, minus, pays-Settled, same_Settled, then-Settled,
}

-- Who buys and who sells, and for which fee.
abbrev pub buyer_of : {A : Type 0} → Side → (taker maker : A) → A
buyer_of Side.buy taker maker = taker
buyer_of Side.sell taker maker = maker

abbrev pub seller_of : {A : Type 0} → Side → (taker maker : A) → A
seller_of Side.buy taker maker = maker
seller_of Side.sell taker maker = taker

module _ ⦃js : Js⦄ where
  -- The buyer has locked the margin and has the fee, the seller has locked the quantity, and all
  -- amounts fit the columns.
  pub record Funded (s : Settlement) (buyer_fee seller_fee margin : DecStr) (buyer seller : Order)
      (db : Db) : Type 0 where
    pub differ : buyer.user_id ≢ seller.user_id
    pub margin_is : margin_for s.notional (stored_leverage buyer) ≡ some margin
    pub margin_fits : Fits margin
    pub fee_fits : Fits buyer_fee
    pub quantity_fits : Fits s.quantity
    pub proceeds_fit : Fits (proceeds s seller_fee)
    pub margin_locked : amount 8 margin ≤ℤ locked_of buyer.user_id s.quote_asset_id db
    pub fee_available : amount 8 buyer_fee ≤ℤ available_of buyer.user_id s.quote_asset_id db
    pub quantity_locked : amount 8 s.quantity ≤ℤ locked_of seller.user_id s.base_asset_id db

  -- What becomes available: for the buyer the quantity, less the fee in the quote asset; for the
  -- seller the notional less the fee.
  abbrev pub gained :
      Settlement → (buyer_fee seller_fee : DecStr) → (buyer seller : Order) → ℕ → ℕ → ℤ
  gained s bf sf b w =
      plus
        (plus (at b.user_id s.quote_asset_id (minus bf))
          (at b.user_id s.base_asset_id (amount 8 s.quantity)))
        (at w.user_id s.quote_asset_id (amount 8 (proceeds s sf)))

  -- What is no longer locked: the buyer's margin, the seller's quantity.
  abbrev pub given : Settlement → DecStr → (buyer seller : Order) → ℕ → ℕ → ℤ
  given s margin b w =
      plus (at b.user_id s.quote_asset_id (minus margin))
        (at w.user_id s.base_asset_id (minus s.quantity))

plus_comm : (f g : ℕ → ℕ → ℤ) (v c : ℕ) → plus f g v c ≡ plus g f v c
plus_comm f g v c = add_comm_ℤ (f v c) (g v c)
  where
    add_comm_ℤ : (x y : ℤ) → x +ℤ y ≡ y +ℤ x
    add_comm_ℤ x y = omega int_laws

module _ ⦃js : Js⦄ ⦃pg : Postgres⦄ (laws : IsPostgres pg) (s : Settlement) (bf sf margin : DecStr)
    (b w : Order) (db : Db) (f : Funded s bf sf margin b w db) (good : Good db) where
  abbrev pub buyer_gain : ℕ → ℕ → ℤ
  buyer_gain =
      plus (at b.user_id s.quote_asset_id (minus bf))
        (at b.user_id s.base_asset_id (amount 8 s.quantity))

  abbrev pub buyer_lock : ℕ → ℕ → ℤ
  buyer_lock = at b.user_id s.quote_asset_id (minus margin)

  abbrev pub seller_gain : ℕ → ℕ → ℤ
  seller_gain = at w.user_id s.quote_asset_id (amount 8 (proceeds s sf))

  abbrev pub seller_lock : ℕ → ℕ → ℤ
  seller_lock = at w.user_id s.base_asset_id (minus s.quantity)

  pub paid :
      (d : Db)
      → amount 8 margin ≤ℤ locked_of b.user_id s.quote_asset_id d
      → amount 8 bf ≤ℤ available_of b.user_id s.quote_asset_id d
      → Good d
      → IfOk (Settled buyer_gain buyer_lock d) (pays s bf (some b) d)
  paid d enough covered g =
      subst (λ x. IfOk (Settled buyer_gain buyer_lock d) (pay_in_order s bf b x d))
        (sym f.margin_is)
        (pays-Settled laws s bf b margin d f.margin_fits f.fee_fits f.quantity_fits enough covered
          g)

  pub given_up :
      (d : Db)
      → amount 8 s.quantity ≤ℤ locked_of w.user_id s.base_asset_id d
      → Good d
      → IfOk (Settled seller_gain seller_lock d) (gives s sf (some w) d)
  given_up d enough g = gives-Settled laws s sf w d f.quantity_fits f.proceeds_fit enough g

  pub pays-gives-Settled :
      IfOk
        (Settled (gained s bf sf b w) (given s margin b w) db)
        ((pays s bf (some b) >> gives s sf (some w)) db)
  pays-gives-Settled =
      then-Settled buyer_gain buyer_lock seller_gain seller_lock (pays s bf (some b))
        (gives s sf (some w)) db (paid db f.margin_locked f.fee_available good)
        (λ db' h.
          given_up db'
            (le_same _ _ _ _ f.quantity_locked (h.shift.locked w.user_id s.base_asset_id) (
              elsewhere_zero b.user_id s.quote_asset_id w.user_id s.base_asset_id (minus margin)
                f.differ))
            (Settled-Good buyer_gain buyer_lock db db' h))

  pub gives-pays-Settled :
      IfOk
        (Settled (gained s bf sf b w) (given s margin b w) db)
        ((gives s sf (some w) >> pays s bf (some b)) db)
  gives-pays-Settled =
      same_Settled _ _ _ _ db ((gives s sf (some w) >> pays s bf (some b)) db)
        (plus_comm seller_gain buyer_gain) (plus_comm seller_lock buyer_lock)
        (then-Settled seller_gain seller_lock buyer_gain buyer_lock (gives s sf (some w))
          (pays s bf (some b)) db (given_up db f.quantity_locked good)
          (λ db' h.
            paid db'
              (le_same _ _ _ _ f.margin_locked (h.shift.locked b.user_id s.quote_asset_id) (
                elsewhere_zero w.user_id s.base_asset_id b.user_id s.quote_asset_id
                  (minus s.quantity) (λ e. f.differ (sym e))))
              (le_same _ _ _ _ f.fee_available (h.shift.available b.user_id s.quote_asset_id) (
                elsewhere_zero w.user_id s.quote_asset_id b.user_id s.quote_asset_id
                  (amount 8 (proceeds s sf)) (λ e. f.differ (sym e))))
              (Settled-Good seller_gain seller_lock db db' h)))
