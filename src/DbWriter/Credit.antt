-- ===== src/DbWriter/Credit.antt =====
-- Server/src/workers/dbWriter.ts: the SQL statements with which a trade changes balances, and the rows
-- that it inserts. Each of the first two returns the balance that it has written.
use perpetual_futures_exchan.Prelude.{ℕ, suc, Bool, false, Option, none, some, [], ◌∷◌, ◌++◌, ◌==◌}
use perpetual_futures_exchan.Big.{Js}
use perpetual_futures_exchan.Decimal.{DecStr, zero_text}
use perpetual_futures_exchan.Store.{
  Db, Balance, Order, OrderType, OrderStatus, Side, TimeInForce, MarginMode, Fill,
}
use perpetual_futures_exchan.Store.Monad.{
  Action, pure, done, ◌>>=◌, ◌>>◌, gets, modify, or_throw, foreign_key_violation,
  transaction_aborted,
}
use perpetual_futures_exchan.Store.Numeric.{Postgres}
use perpetual_futures_exchan.Balance.{balance_of, update_balance, write_column}
use perpetual_futures_exchan.DbWriter.{order_by_id}

abbrev pub set_available : DecStr → ℕ → Balance → Balance
set_available available now b = record b { available_balance = available; updated_at = now }

abbrev pub opened_balance : ℕ → ℕ → DecStr → DecStr → Db → Balance
opened_balance user_id asset_id amount zero db = record {
  id = db.next_id;
  user_id = user_id;
  asset_id = asset_id;
  available_balance = amount;
  locked_balance = zero;
  updated_at = db.clock;
}

-- A trade, as the event tells it once none of these fields is missing.
pub record TradeEvent : Type 0 where
  pub market : ℕ
  pub maker_order_id : ℕ
  pub taker_order_id : ℕ
  pub maker_user_id : ℕ
  pub taker_user_id : ℕ
  pub price : DecStr
  pub quantity : DecStr
  pub side : Side

abbrev pub opposite : Side → Side
opposite Side.buy = Side.sell
opposite Side.sell = Side.buy

-- `00000000-0000-0000-0000-000000000001`
abbrev pub external_user_id : ℕ
external_user_id = 1

abbrev pub is_external : ℕ → Bool
is_external user_id = user_id == external_user_id

module _ ⦃js : Js⦄ ⦃pg : Postgres⦄ where
  credit_found : ℕ → ℕ → DecStr → DecStr → DecStr → Option Balance → Action (Option ℕ)
  credit_found user_id asset_id amount opening zero none = do
    db ← gets (λ db. db)
    let row = opened_balance user_id asset_id opening zero db
    modify (λ db. record db { balances = db.balances ++ (row ∷ []); next_id = suc db.next_id })
    pure (some row.id)
  credit_found user_id asset_id amount opening zero (some b) = do
    available ← write_column (pg.sum b.available_balance amount)
    modify (λ db. update_balance b.id (set_available available db.clock) db)
    pure (some b.id)

  -- `INSERT ... ON CONFLICT (user_id, asset_id) DO UPDATE`; the new row is made in any case.
  unfoldable pub credit_available : ℕ → ℕ → DecStr → Action (Option ℕ)
  unfolding credit_found
  credit_available user_id asset_id amount = do
    opening ← write_column amount
    zero ← write_column zero_text
    gets (balance_of user_id asset_id) >>= credit_found user_id asset_id amount opening zero

  debit_available_found : DecStr → Option Balance → Action (Option ℕ)
  debit_available_found amount none = pure none
  debit_available_found amount (some b) = do
    available ← write_column (pg.difference b.available_balance amount)
    modify (λ db. update_balance b.id (set_available available db.clock) db)
    pure (some b.id)

  -- `UPDATE balances SET available_balance = available_balance - amount WHERE ...`
  unfoldable pub debit_available : ℕ → ℕ → DecStr → Action (Option ℕ)
  unfolding debit_available_found
  debit_available user_id asset_id amount =
      gets (balance_of user_id asset_id) >>= debit_available_found amount

  -- The order that stands for the external side. If the insertion fails, the transaction is aborted,
  -- and its next statement throws, although the failure itself is caught.
  insert_absent : ℕ → ℕ → Side → TradeEvent → Option Order → Action (Unit {0})
  insert_absent market_id order_id side ev (some order) = done
  insert_absent market_id order_id side ev none = do
    price ← or_throw (pg.column ev.price) transaction_aborted
    quantity ← or_throw (pg.column ev.quantity) transaction_aborted
    leverage ← or_throw (pg.column (b'1' ∷ [])) transaction_aborted
    db ← gets (λ db. db)
    let row : Order = record {
      id = order_id;
      user_id = external_user_id;
      market_id = market_id;
      client_order_id = none;
      order_type = OrderType.limit;
      side = side;
      price = some price;
      quantity = quantity;
      filled_quantity = quantity;
      status = OrderStatus.filled;
      reduce_only = false;
      post_only = false;
      time_in_force = TimeInForce.gtc;
      leverage = leverage;
      margin_mode = MarginMode.isolated;
      created_at = db.clock;
      updated_at = db.clock;
      executed_at = none;
    }
    modify (λ db. record db { orders = db.orders ++ (row ∷ []) })

  unfoldable pub insert_synthetic : ℕ → ℕ → Side → TradeEvent → Action (Unit {0})
  unfolding insert_absent
  insert_synthetic market_id order_id side ev =
      gets (order_by_id order_id) >>= insert_absent market_id order_id side ev

  -- The fill refers to both orders.
  unfoldable pub insert_fill : ℕ → TradeEvent → (maker_fee taker_fee : DecStr) → Action (Unit {0})
  insert_fill market_id ev maker_fee_text taker_fee_text = do
    price ← write_column ev.price
    quantity ← write_column ev.quantity
    maker_fee ← write_column maker_fee_text
    taker_fee ← write_column taker_fee_text
    or_throw (← gets (order_by_id ev.maker_order_id)) foreign_key_violation
    or_throw (← gets (order_by_id ev.taker_order_id)) foreign_key_violation
    db ← gets (λ db. db)
    let row : Fill = record {
      id = db.next_id;
      market_id = market_id;
      maker_order_id = ev.maker_order_id;
      taker_order_id = ev.taker_order_id;
      maker_user_id = ev.maker_user_id;
      taker_user_id = ev.taker_user_id;
      side = ev.side;
      price = price;
      quantity = quantity;
      maker_fee = maker_fee;
      taker_fee = taker_fee;
      created_at = db.clock;
    }
    modify (λ db. record db { fills = db.fills ++ (row ∷ []); next_id = suc db.next_id })
