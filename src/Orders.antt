-- ===== src/Orders.antt =====
-- Server/src/services/orderService.ts: placing, listing and cancelling orders.
pub mod Place
pub mod Publish
pub mod Submit
pub mod Idempotent
pub mod Cancel
pub mod Canceled
pub mod Query
mod Tests
use mathlib.Core.Option
use perpetual_futures_exchan.Prelude.{
  ℕ, suc, ◌+◌, Bool, true, false, not, ◌&&◌, Option, none, some, List, [], ◌∷◌, ◌++◌, ◌==◌,
  if◌then◌else◌,
}
use perpetual_futures_exchan.Big
use perpetual_futures_exchan.Big.{Js}
use perpetual_futures_exchan.Decimal.{DecStr, zero_text, dec, mul, gt, lt, lte}
use perpetual_futures_exchan.Store.{
  Db, Market, MarketStatus, Order, OrderType, OrderStatus, Side, TimeInForce, MarginMode,
  OrderCommand, OutboxEvent, EventType, Command,
}
use perpetual_futures_exchan.Store.Rows.{first, update_rows}
use perpetual_futures_exchan.Store.Monad.{
  Action, pure, throw, done, ◌>>=◌, ◌>>◌, gets, modify, throw_if, or_throw, market_not_found,
  market_not_active, quantity_must_be_positive, quantity_below_min, quantity_above_max,
  limit_order_requires_price, price_must_be_positive, leverage_exceeds_max,
  market_buy_requires_price_for_margin_calc, division_by_zero, redis_error,
}
use perpetual_futures_exchan.Store.Numeric.{Postgres}
use perpetual_futures_exchan.Balance.{write_column, lock_balance}

pub record PlaceOrderInput : Type 0 where
  pub user_id : ℕ
  pub market : ℕ
  pub side : Side
  pub order_type : OrderType
  pub price : Option DecStr
  pub quantity : DecStr
  pub time_in_force : Option TimeInForce
  pub leverage : Option DecStr
  pub margin_mode : Option MarginMode
  pub reduce_only : Option Bool
  pub post_only : Option Bool
  pub client_order_id : Option ℕ

-- An empty text is as good as none in a test or before `||`.
abbrev pub truthy : Option DecStr → Option DecStr
truthy none = none
truthy (some []) = none
truthy (some (c ∷ cs)) = some (c ∷ cs)

abbrev pub or_else {ℓ} : {A : Type ℓ} → Option A → A → A
or_else none d = d
or_else (some a) d = a

-- `input.leverage || "1"`
abbrev pub leverage_of : PlaceOrderInput → DecStr
leverage_of input = or_else (truthy input.leverage) (b'1' ∷ [])

abbrev pub is_active : MarketStatus → Bool
is_active MarketStatus.active = true
is_active MarketStatus.paused = false

abbrev pub is_limit : OrderType → Bool
is_limit OrderType.limit = true
is_limit OrderType.market = false

abbrev pub is_none {ℓ} : {A : Type ℓ} → Option A → Bool
is_none none = true
is_none (some a) = false

-- An order of this user with this `clientOrderId`; a request without one matches nothing.
abbrev pub same_client_order : ℕ → Option ℕ → Order → Bool
same_client_order user_id none o = false
same_client_order user_id (some c) o =
    o.user_id == user_id && elim o.client_order_id [ none ↦ false | some d ↦ d == c ]

-- `redis.xadd(REDIS_ORDER_COMMANDS_STREAM, …)`, which throws where Redis answers with an error. (To a
-- Redis that cannot be reached, the client sends again without limit: such a call has no end, and
-- is not modelled.)
abbrev pub xadd : Command → Action (Unit {0})
xadd c = do
  up ← gets (λ db. db.redis_up)
  throw_if (not up) redis_error
  modify (λ db. record db { commands = db.commands ++ (c ∷ []) })

abbrev pub has_order_id : ℕ → Order → Bool
has_order_id id o = o.id == id

module _ ⦃js : Js⦄ where
  -- The checks before anything is written, in their order.
  unfoldable pub check_order : PlaceOrderInput → Market → Action (Unit {0})
  check_order input market = do
    throw_if (not (is_active market.status)) market_not_active
    throw_if (not (gt input.quantity zero_text)) quantity_must_be_positive
    throw_if (lt input.quantity market.min_order_size) quantity_below_min
    throw_if (gt input.quantity market.max_order_size) quantity_above_max
    throw_if (is_limit input.order_type && is_none (truthy input.price)) limit_order_requires_price
    throw_if (elim (truthy input.price) [ none ↦ false | some p ↦ lte p zero_text ])
        price_must_be_positive
    throw_if (Big.gt (dec (leverage_of input)) (dec market.max_leverage)) leverage_exceeds_max

  -- `D(cost).div(D(leverage)).toString()`
  unfoldable pub margin_for : DecStr → DecStr → Option DecStr
  margin_for cost leverage = Option.map Big.to_text (Big.div (dec cost) (dec leverage))

  -- The command, with the input's own texts; `sequence` and `timestamp` are the clock.
  abbrev pub command_payload : PlaceOrderInput → ℕ → ℕ → OrderCommand
  command_payload input order_id now = record {
    order_id = order_id;
    user_id = input.user_id;
    market = input.market;
    side = input.side;
    order_type = input.order_type;
    price = truthy input.price;
    quantity = input.quantity;
    time_in_force = or_else input.time_in_force TimeInForce.gtc;
    reduce_only = or_else input.reduce_only false;
    post_only = or_else input.post_only false;
    client_order_id = input.client_order_id;
    leverage = leverage_of input;
    margin_mode = or_else input.margin_mode MarginMode.isolated;
    sequence = now;
    timestamp = now;
  }

module _ ⦃js : Js⦄ ⦃pg : Postgres⦄ where
  -- A buy locks the quote asset for the margin, which wants a price; a sell locks the base asset.
  lock_buy : PlaceOrderInput → Market → Option DecStr → Action (Unit {0})
  lock_buy input market none = throw market_buy_requires_price_for_margin_calc
  lock_buy input market (some price) =
      or_throw (margin_for (mul price input.quantity) (leverage_of input)) division_by_zero
      >>= lock_balance input.user_id market.quote_asset_id

  lock_side : PlaceOrderInput → Market → Side → Action (Unit {0})
  unfolding lock_buy
  lock_side input market Side.buy = lock_buy input market (truthy input.price)
  lock_side input market Side.sell = lock_balance input.user_id market.base_asset_id input.quantity

  unfoldable pub lock_margin : PlaceOrderInput → Market → Action (Unit {0})
  unfolding lock_side
  lock_margin input market = lock_side input market input.side

  -- `price: input.price || null`, through the column.
  abbrev pub write_optional : Option DecStr → Action (Option DecStr)
  write_optional none = pure none
  write_optional (some t) = write_column t >>= λ u. pure (some u)

  -- The unique index on a user's client order ids refuses no row here: `place_order` has looked for
  -- the id before, and operations run one at a time.
  unfoldable pub insert_order : PlaceOrderInput → Market → Action Order
  insert_order input market = do
    price ← write_optional (truthy input.price)
    quantity ← write_column input.quantity
    filled ← write_column zero_text
    leverage ← write_column (leverage_of input)
    db ← gets (λ db. db)
    let row : Order = record {
      id = db.next_id;
      user_id = input.user_id;
      market_id = market.id;
      client_order_id = input.client_order_id;
      order_type = input.order_type;
      side = input.side;
      price = price;
      quantity = quantity;
      filled_quantity = filled;
      status = OrderStatus.opened;
      reduce_only = or_else input.reduce_only false;
      post_only = or_else input.post_only false;
      time_in_force = or_else input.time_in_force TimeInForce.gtc;
      leverage = leverage;
      margin_mode = or_else input.margin_mode MarginMode.isolated;
      created_at = db.clock;
      updated_at = db.clock;
      executed_at = none;
    }
    modify (λ db. record db { orders = db.orders ++ (row ∷ []); next_id = suc db.next_id })
    pure row

-- `insert(outbox)`, and the event it stores.
unfoldable pub insert_outbox : OrderCommand → Action OutboxEvent
insert_outbox payload = do
  db ← gets (λ db. db)
  let row : OutboxEvent = record {
    id = db.next_id;
    event_type = EventType.order_created;
    aggregate_id = some payload.order_id;
    payload = payload;
    created_at = db.clock;
    published_at = none;
  }
  modify (λ db. record db { outbox = db.outbox ++ (row ∷ []); next_id = suc db.next_id })
  pure row

abbrev pub has_event_id : ℕ → OutboxEvent → Bool
has_event_id id e = e.id == id

-- `update(outbox).set({ publishedAt: new Date() }).where(eq(outbox.id, id))`
abbrev pub mark_published : ℕ → Db → Db
mark_published id db = record db {
  outbox = update_rows (has_event_id id) (λ e. record e { published_at = some db.clock }) db.outbox;
}

-- The outbox row first, then the stream, then the mark.
unfoldable pub publish_order : OrderCommand → Action (Unit {0})
unfolding insert_outbox
publish_order payload = do
  row ← insert_outbox payload
  xadd (Command.place_order payload)
  modify (mark_published row.id)

module _ ⦃js : Js⦄ ⦃pg : Postgres⦄ where
  -- From the lock on: a new order, its event and its command.
  unfoldable pub submit_order : PlaceOrderInput → Market → Action (Order × Bool)
  submit_order input market = do
    lock_margin input market
    order ← insert_order input market
    now ← gets (λ db. db.clock)
    publish_order (command_payload input order.id now)
    pure (order, false)

  -- The order, and whether it was there before.
  unfoldable pub place_order : PlaceOrderInput → Action (Order × Bool)
  place_order input = do
    market ←
        or_throw (← gets (λ db. first (λ m. m.symbol == input.market) db.markets)) market_not_found
    check_order input market
    existing ← gets (λ db. first (same_client_order input.user_id input.client_order_id) db.orders)
    elim existing [ some order ↦ pure (order, true) | none ↦ submit_order input market ]
