-- ===== src/Orders/Cancel.antt =====
-- Cancelling one order, and all open orders of a user.
use perpetual_futures_exchan.Prelude.{
  ℕ, ◌+◌, Bool, true, false, ◌&&◌, Option, none, some, List, [], ◌∷◌, ◌==◌,
}
use perpetual_futures_exchan.Store.{Db, Order, OrderStatus, Command}
use perpetual_futures_exchan.Store.Rows.{first, where_, update_rows}
use perpetual_futures_exchan.Store.Monad.{
  Action, pure, ◌>>=◌, ◌>>◌, gets, modify, throw_if, or_throw, catch_all, order_not_found,
  order_not_cancellable, market_missing,
}
use perpetual_futures_exchan.Orders.{xadd, has_order_id}

-- `["filled", "canceled", "rejected", "expired"].includes(status)`
abbrev pub is_terminal : OrderStatus → Bool
is_terminal OrderStatus.filled = true
is_terminal OrderStatus.canceled = true
is_terminal OrderStatus.rejected = true
is_terminal OrderStatus.expired = true
is_terminal OrderStatus.pending = false
is_terminal OrderStatus.opened = false
is_terminal OrderStatus.partially_filled = false

abbrev pub order_of : ℕ → ℕ → Db → Option Order
order_of order_id user_id db = first (λ o. o.id == order_id && o.user_id == user_id) db.orders

-- `update(orders).set(...).where(eq(orders.id, id))`
abbrev pub update_order : ℕ → (Order → Order) → Db → Db
update_order id f db = record db { orders = update_rows (has_order_id id) f db.orders }

abbrev pub canceled_at : ℕ → Order → Order
canceled_at now o = record o {
  status = OrderStatus.canceled;
  updated_at = now;
  executed_at = some now;
}

unfoldable pub cancel_order : ℕ → ℕ → Action (Unit {0})
cancel_order order_id user_id = do
  order ← or_throw (← gets (order_of order_id user_id)) order_not_found
  throw_if (is_terminal order.status) order_not_cancellable
  market ← or_throw (← gets (λ db. first (λ m. m.id == order.market_id) db.markets)) market_missing
  xadd (Command.cancel_order order_id market.symbol user_id)
  now ← gets (λ db. db.clock)
  modify (update_order order_id (canceled_at now))

-- The loop over the open orders: a failure is not counted, and does not stop it.
unfoldable pub cancel_each : ℕ → ℕ → List Order → Action ℕ
unfolding cancel_order
cancel_each user_id count [] = pure count
cancel_each user_id count (o ∷ rows) =
    catch_all (cancel_order o.id user_id >> pure (count + 1)) (pure count) >>= λ counted.
    cancel_each user_id counted rows

-- `inArray(orders.status, ["open", "partially_filled", "pending"])`
abbrev pub is_open : OrderStatus → Bool
is_open OrderStatus.opened = true
is_open OrderStatus.partially_filled = true
is_open OrderStatus.pending = true
is_open OrderStatus.filled = false
is_open OrderStatus.canceled = false
is_open OrderStatus.rejected = false
is_open OrderStatus.expired = false

-- The rows are read once, before the first is cancelled.
unfoldable pub cancel_all_open_orders : ℕ → Option ℕ → Action ℕ
unfolding cancel_each
cancel_all_open_orders user_id none = do
  rows ← gets (λ db. where_ (λ o. o.user_id == user_id && is_open o.status) db.orders)
  cancel_each user_id 0 rows
cancel_all_open_orders user_id (some symbol) = do
  market ← gets (λ db. first (λ m. m.symbol == symbol) db.markets)
  elim market [
    | none ↦ pure 0
    | some m ↦ do
      rows ← gets (λ db.
          where_ (λ o. o.user_id == user_id && is_open o.status && o.market_id == m.id) db.orders)
      cancel_each user_id 0 rows
  ]
