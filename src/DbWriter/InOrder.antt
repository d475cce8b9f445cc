-- ===== src/DbWriter/InOrder.antt =====
-- A trade as one would run it on a single connection: the same statements, one after the other, in
-- one transaction; and what it is that the handler of TRADE_EXECUTED comes to the same.
pub mod Sides
pub mod Whole
use perpetual_futures_exchan.Prelude.{
  ℕ, ◌≡◌, ◌≢◌, refl, sym, ap, ◌∙◌, Bool, false, Option, none, some, List, [], if◌then◌else◌, inl,
  inr, ◌⊎◌,
}
use perpetual_futures_exchan.Big.{Js}
use perpetual_futures_exchan.Decimal.{DecStr}
use perpetual_futures_exchan.Store.{Db, Market, Order, Side}
use perpetual_futures_exchan.Store.Monad.{
  Action, Result, ok, err, throw, done, gets, transaction, ◌>>=◌, ◌>>◌, division_by_zero,
}
use perpetual_futures_exchan.Store.Session
use perpetual_futures_exchan.Store.Session.{
  Session, Reply, ended, waits, Tx, commit, skip, in_tx, write_balance, elsewhere,
}
use perpetual_futures_exchan.Store.Numeric.{Postgres}
use perpetual_futures_exchan.Balance.{debit_locked}
use perpetual_futures_exchan.Balance.Table.{IsTable}
use perpetual_futures_exchan.Balance.Fresh.{IsFresh}
use perpetual_futures_exchan.Orders.{margin_for}
use perpetual_futures_exchan.DbWriter.{
  EngineEvent, order_by_id, stored_leverage, apply_trade_to_order,
}
use perpetual_futures_exchan.DbWriter.Credit.{
  TradeEvent, opposite, is_external, credit_available, debit_available, insert_fill,
}
use perpetual_futures_exchan.DbWriter.Positions.{upsert_position}
use perpetual_futures_exchan.DbWriter.Trade.{
  Settlement, settlement, proceeds, position_fill, fee_of, trade_of, market_of, trade_body,
  pay_margin, buyer_pays, seller_gives, follow, synthetic_orders, execute, execute_in,
  execute_trade, settle, debit_locked_elsewhere, handle_trade_executed,
}
use perpetual_futures_exchan.DbWriter.Together.{Together-refl}
use perpetual_futures_exchan.DbWriter.Agree.{
  Aligned, At, Agrees, Follows, Follows-pre, widen-Aligned, Follows-then, debit_locked-Agrees,
}
use perpetual_futures_exchan.DbWriter.Agree.Writes.{
  statement, credit_available-Agrees, debit_available-Agrees,
}
use perpetual_futures_exchan.DbWriter.Agree.Statements.{
  Agrees-weaken, insert_fill-Agrees, upsert_position-Agrees, apply_trade_to_order-Agrees,
}
use mathlib.Core.Path.{subst}
use perpetual_futures_exchan.Store.Rows.{first}
use perpetual_futures_exchan.Orders.{has_order_id}

module _ ⦃js : Js⦄ ⦃pg : Postgres⦄ where
  abbrev pub pay_in_order : Settlement → DecStr → Order → Option DecStr → Action (Unit {0})
  pay_in_order s fee order none = throw division_by_zero
  pay_in_order s fee order (some margin) =
      debit_locked order.user_id s.quote_asset_id margin
      >> statement (debit_available order.user_id s.quote_asset_id fee)
      >> statement (credit_available order.user_id s.base_asset_id s.quantity)

  abbrev pub pays : Settlement → DecStr → Option Order → Action (Unit {0})
  pays s fee none = done
  pays s fee (some order) = pay_in_order s fee order (margin_for s.notional (stored_leverage order))

  abbrev pub gives : Settlement → DecStr → Option Order → Action (Unit {0})
  gives s fee none = done
  gives s fee (some order) =
      debit_locked order.user_id s.base_asset_id s.quantity
      >> statement (credit_available order.user_id s.quote_asset_id (proceeds s fee))

  -- The taker's side, then the maker's.
  abbrev pub settle_in_order :
      Settlement → TradeEvent → (maker_fee taker_fee : DecStr) → Side → Action (Unit {0})
  settle_in_order s ev maker_fee taker_fee Side.buy =
      (gets (order_by_id ev.taker_order_id) >>= pays s taker_fee)
      >> (gets (order_by_id ev.maker_order_id) >>= gives s maker_fee)
  settle_in_order s ev maker_fee taker_fee Side.sell =
      (gets (order_by_id ev.taker_order_id) >>= gives s taker_fee)
      >> (gets (order_by_id ev.maker_order_id) >>= pays s maker_fee)

  abbrev pub follow_in_order : ℕ → TradeEvent → Action (Unit {0})
  follow_in_order market_id ev =
      upsert_position (position_fill market_id ev.taker_user_id ev.taker_order_id ev.side ev)
      >> upsert_position
          (position_fill market_id ev.maker_user_id ev.maker_order_id (opposite ev.side) ev)

  abbrev pub trade_in_order :
      Market → TradeEvent → (maker_fee taker_fee : DecStr) → Action (Unit {0})
  trade_in_order market ev maker_fee taker_fee =
      insert_fill market.id ev maker_fee taker_fee
      >> settle_in_order (settlement market ev) ev maker_fee taker_fee ev.side
      >> apply_trade_to_order ev.maker_order_id ev.quantity ev.price
      >> apply_trade_to_order ev.taker_order_id ev.quantity ev.price
      >> follow_in_order market.id ev

  abbrev pub charge :
      Market → TradeEvent → (taker_fee maker_fee : Option DecStr) → Action (Unit {0})
  charge market ev none maker_fee = throw division_by_zero
  charge market ev (some taker_fee) none = throw division_by_zero
  charge market ev (some taker_fee) (some maker_fee) =
      transaction (trade_in_order market ev maker_fee taker_fee)

  abbrev pub trade_at_once : Market → TradeEvent → Action (Unit {0})
  trade_at_once market ev =
      charge market ev (fee_of ev market.taker_fee_bps) (fee_of ev market.maker_fee_bps)

  abbrev pub committed : Reply (Unit {0}) × Session → Reply (Unit {0}) × Db
  committed x =
      let (r, s) = x in
      elim r [
        | ended (ok a) ↦ (ended (ok a), s.inside)
        | ended (err e) ↦ (ended (err e), s.outside)
        | waits ↦ (waits, s.outside)
      ]

  abbrev pub kept_if_ok : Db → Result (Unit {0}) × Db → Result (Unit {0}) × Db
  kept_if_ok db n = let (r, db') = n in elim r [ ok a ↦ (ok a, db') | err e ↦ (err e, db) ]

  -- The handler ends: as the one transaction does, with the same tables if it commits, and with the
  -- same error if it does not.
  abbrev pub Executes : Reply (Unit {0}) × Db → Result (Unit {0}) × Db → Type 0
  Executes (ended (ok _), db') n = n ≡ (ok tt, db')
  Executes (ended (err e), db') n = n.0 ≡ err e
  Executes (waits, db') n = ⊥

  pub committed-Executes :
      (Post : Session → Type 0) (db : Db) (x : Reply (Unit {0}) × Session)
      (n : Result (Unit {0}) × Db)
      → Agrees Post x n
      → Executes (committed x) (kept_if_ok db n)
  committed-Executes Post db (ended (ok a), s) n (e, h) = ap (kept_if_ok db) e
  committed-Executes Post db (ended (err x), s) n e = ap (λ m. (kept_if_ok db m).0) e
  committed-Executes Post db (waits, s) n h = absurd h

  -- The tables before a trade: two known orders of different users, unique keys, fresh identifiers.
  pub record IsTradable (ev : TradeEvent) (db : Db) : Type 0 where
    pub taker : Order
    pub maker : Order
    pub taker_found : order_by_id ev.taker_order_id db ≡ some taker
    pub maker_found : order_by_id ev.maker_order_id db ≡ some maker
    pub differ : taker.user_id ≢ maker.user_id
    pub maker_internal : is_external ev.maker_user_id ≡ false
    pub taker_internal : is_external ev.taker_user_id ≡ false
    pub table : IsTable db.balances
    pub fresh : IsFresh db.next_id db.balances
