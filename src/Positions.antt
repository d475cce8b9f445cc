-- ===== src/Positions.antt =====
-- Server/src/routes/positions.ts: listing positions, reading one, and the order that closes one. The
-- user is the one whom the authentication gave; each error has its status in Store.Monad.
pub mod Close
mod Tests
use perpetual_futures_exchan.Prelude.{
  ℕ, suc, ltb, Bool, true, false, not, ◌&&◌, Option, none, some, List, [], ◌∷◌, ◌++◌, ◌==◌,
  if◌then◌else◌,
}
use perpetual_futures_exchan.Big.{Js}
use perpetual_futures_exchan.Decimal.{DecStr, zero_text}
use perpetual_futures_exchan.Store.{
  Db, Market, Order, OrderType, OrderStatus, Side, TimeInForce, Position, PositionSide,
  PositionStatus, Command,
}
use perpetual_futures_exchan.Store.Rows.{first, where_}
use perpetual_futures_exchan.Store.Monad.{
  Action, pure, ◌>>=◌, ◌>>◌, gets, modify, throw_if, or_throw, position_not_found,
  position_not_open, market_not_found,
}
use perpetual_futures_exchan.Store.Numeric.{Postgres}
use perpetual_futures_exchan.Balance.{write_column}
use perpetual_futures_exchan.Orders.{xadd}
use perpetual_futures_exchan.DbWriter.Positions.{is_live}

abbrev pub position_of : ℕ → ℕ → Db → Option Position
position_of id user_id db = first (λ p. p.id == id && p.user_id == user_id) db.positions

abbrev pub position_code : PositionStatus → ℕ
position_code PositionStatus.opened = 0
position_code PositionStatus.closed = 1
position_code PositionStatus.liquidated = 2

unfoldable pub insert_latest : Position → List Position → List Position
insert_latest p [] = p ∷ []
insert_latest p (q ∷ rows) =
    let rest = insert_latest p rows in
    if ltb q.opened_at p.opened_at then p ∷ q ∷ rows else q ∷ rest

-- `orderBy(desc(positions.openedAt))`
unfoldable pub latest_first : List Position → List Position
unfolding insert_latest
latest_first [] = []
latest_first (p ∷ rows) = insert_latest p (latest_first rows)

-- The status asked for, or open.
unfoldable pub list_positions : ℕ → Option PositionStatus → Db → List Position
unfolding latest_first
list_positions user_id status db =
    let wanted : PositionStatus = elim status [ none ↦ PositionStatus.opened | some s ↦ s ] in
    latest_first (
      where_ (λ p. p.user_id == user_id && position_code p.status == position_code wanted)
        db.positions)

unfoldable pub get_position : ℕ → ℕ → Action Position
get_position id user_id = do
  row ← or_throw (← gets (position_of id user_id)) position_not_found
  pure row

abbrev pub close_side : PositionSide → Side
close_side PositionSide.long = Side.sell
close_side PositionSide.short = Side.buy

module _ ⦃js : Js⦄ ⦃pg : Postgres⦄ where
  abbrev pub close_order : ℕ → Position → Market → (quantity filled leverage : DecStr) → Db → Order
  close_order user_id pos market quantity filled leverage db = record {
    id = db.next_id;
    user_id = user_id;
    market_id = market.id;
    client_order_id = none;
    order_type = OrderType.market;
    side = close_side pos.side;
    price = none;
    quantity = quantity;
    filled_quantity = filled;
    status = OrderStatus.opened;
    reduce_only = true;
    post_only = false;
    time_in_force = TimeInForce.gtc;
    leverage = leverage;
    margin_mode = pos.margin_mode;
    created_at = db.clock;
    updated_at = db.clock;
    executed_at = none;
  }

  -- A reduce-only market order for the whole position; nothing is locked for it.
  unfoldable pub close_position : ℕ → ℕ → Action Order
  close_position id user_id = do
    pos ← or_throw (← gets (position_of id user_id)) position_not_found
    throw_if (not (is_live pos.status)) position_not_open
    market ←
        or_throw (← gets (λ db. first (λ m. m.id == pos.market_id) db.markets)) market_not_found
    quantity ← write_column pos.quantity
    filled ← write_column zero_text
    leverage ← write_column (b'1' ∷ [])
    order ← gets (close_order user_id pos market quantity filled leverage)
    modify (λ db. record db { orders = db.orders ++ (order ∷ []); next_id = suc db.next_id })
    xadd (
        Command.close_position order.id user_id market.symbol (close_side pos.side) pos.quantity
          pos.margin_mode)
    pure order
