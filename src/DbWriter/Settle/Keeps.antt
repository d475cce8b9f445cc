-- ===== src/DbWriter/Settle/Keeps.antt =====
-- The steps of a trade that touch no balance.
use mathlib.Core.Path.{subst}
use perpetual_futures_exchan.Prelude.{ℕ, All, ◌≡◌, refl, sym, ap, ◌∙◌, Option-cases, inl, inr}
use perpetual_futures_exchan.Prelude.Int.{ℤ, ◌+ℤ◌, ◌≤ℤ◌}
use perpetual_futures_exchan.Big.{Js}
use perpetual_futures_exchan.Decimal.{DecStr, amount}
use perpetual_futures_exchan.Store.{Db, Order}
use perpetual_futures_exchan.Store.Monad.{Action, Result, ok, err, ◌>>◌}
use perpetual_futures_exchan.Store.Numeric.{Postgres}
use perpetual_futures_exchan.Balance.Moved.{IsSound}
use perpetual_futures_exchan.Balance.{owns}
use perpetual_futures_exchan.Balance.Table.{IsTable}
use perpetual_futures_exchan.Store.Rows.{first}
use perpetual_futures_exchan.Balance.Holdings.{Shift, available_in, locked_in}
use perpetual_futures_exchan.Orders.{truthy, or_else}
use perpetual_futures_exchan.DbWriter.{order_by_id, filled_text, apply_trade_to_order}
use perpetual_futures_exchan.DbWriter.Fills.{
  apply_missing, apply_unfilled, apply_unpriced, apply_done,
}
use perpetual_futures_exchan.DbWriter.Positions.{PositionFill, upsert_position}
use perpetual_futures_exchan.DbWriter.Trade.{Settlement}
use perpetual_futures_exchan.DbWriter.Agree.Statements.{upsert_position-Keeps}
use perpetual_futures_exchan.DbWriter.Settle.{IfOk}
use perpetual_futures_exchan.DbWriter.Settle.Sides.{Funded}
use perpetual_futures_exchan.DbWriter.Settle.Steps.{then-IfOk}
use perpetual_futures_exchan.DbWriter.Settle.Found.{IfOk-imp}

-- Steps that touch no balance.
abbrev pub SameBalances : Db → Db → Type 0
SameBalances db db' = db'.balances ≡ db.balances

module _ ⦃js : Js⦄ where
  pub Shift-resp :
      (da dl : ℕ → ℕ → ℤ) (a b c d : Db)
      → SameBalances a b
      → Shift da dl b c
      → SameBalances c d
      → Shift da dl a d
  Shift-resp da dl a b c d e h f = record {
    available = λ v x.
        ap (λ rows. available_in (first (owns v x) rows)) f
        ∙ h.available v x
        ∙ ap (λ rows. available_in (first (owns v x) rows) +ℤ da v x) e;
    locked = λ v x.
        ap (λ rows. locked_in (first (owns v x) rows)) f
        ∙ h.locked v x
        ∙ ap (λ rows. locked_in (first (owns v x) rows) +ℤ dl v x) e;
    ledger = record {
      table = subst IsTable (sym f) h.ledger.table;
      sound = subst (All IsSound) (sym f) h.ledger.sound;
    };
  }

module _ ⦃js : Js⦄ ⦃pg : Postgres⦄ where
  pub apply-SameBalances :
      (id : ℕ) (qty price : DecStr) (db : Db)
      → SameBalances db (apply_trade_to_order id qty price db).1
  apply-SameBalances id qty price db = elim (Option-cases (order_by_id id db)) [
    | inl missing ↦ rw (apply_missing id qty price db missing)
    | inr (o, found) ↦ elim (Option-cases (pg.column (filled_text qty o))) [
      | inl refused ↦ rw (apply_unfilled id qty price o db found refused)
      | inr (f, kept) ↦ elim (Option-cases (pg.column (or_else (truthy o.price) price))) [
        | inl refused ↦ rw (apply_unpriced id qty price o db found f kept refused)
        | inr (p, priced) ↦ rw (apply_done id qty price o db found f p kept priced)
      ]
    ]
  ]

  pub always : (P : Db → Type 0) (r : Result (Unit {0}) × Db) → P r.1 → IfOk P r
  always P (ok a, db) h = h
  always P (err e, db) h = tt

  pub Funded-resp :
      (s : Settlement) (bf sf margin : DecStr) (b w : Order) (db db' : Db)
      → SameBalances db db'
      → Funded s bf sf margin b w db
      → Funded s bf sf margin b w db'
  Funded-resp s bf sf margin b w db db' e f = record {
    differ = f.differ;
    margin_is = f.margin_is;
    margin_fits = f.margin_fits;
    fee_fits = f.fee_fits;
    quantity_fits = f.quantity_fits;
    proceeds_fit = f.proceeds_fit;
    margin_locked =
        subst (λ rows. amount 8 margin ≤ℤ locked_in (first (owns b.user_id s.quote_asset_id) rows))
          (sym e) f.margin_locked;
    fee_available =
        subst (λ rows. amount 8 bf ≤ℤ available_in (first (owns b.user_id s.quote_asset_id) rows))
          (sym e) f.fee_available;
    quantity_locked =
        subst
          (λ rows. amount 8 s.quantity ≤ℤ locked_in (first (owns w.user_id s.base_asset_id) rows))
          (sym e) f.quantity_locked;
  }

  -- A step behind the settlement.
  pub tail-Shift :
      (da dl : ℕ → ℕ → ℤ) (m k : Action (Unit {0})) (db : Db)
      → IfOk (Shift da dl db) (m db)
      → ((d : Db) → IfOk (SameBalances d) (k d))
      → IfOk (Shift da dl db) ((m >> k) db)
  tail-Shift da dl m k db h f = then-IfOk m k (Shift da dl db) (Shift da dl db) db h (λ d sh.
      IfOk-imp (SameBalances d) (Shift da dl db) (k d)
        (λ d' e. Shift-resp da dl db db d d' refl sh e) (f d))

  pub upserts-SameBalances :
      (x y : PositionFill) (d : Db)
      → IfOk (SameBalances d) ((upsert_position x >> upsert_position y) d)
  upserts-SameBalances x y d =
      then-IfOk (upsert_position x) (upsert_position y) (SameBalances d) (SameBalances d) d
        (always (SameBalances d) (upsert_position x d) (upsert_position-Keeps x d).balances)
        (λ d' e.
          always (SameBalances d) (upsert_position y d')
            ((upsert_position-Keeps y d').balances ∙ e))
