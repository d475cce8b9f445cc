-- ===== src/DbWriter.antt =====
-- Server/src/workers/dbWriter.ts: what the matching engine's events do to the tables.
pub mod Positions
pub mod Release
pub mod Events
pub mod Fills
pub mod Credit
pub mod Trade
pub mod Together
pub mod Agree
pub mod InOrder
pub mod Leftover
pub mod Settle
pub mod Messages
mod Tests
mod TradeTests
use perpetual_futures_exchan.Prelude.{
  ℕ, Bool, true, false, Option, none, some, if◌then◌else◌, List, [], ◌∷◌, ◌==◌,
}
use perpetual_futures_exchan.Big
use perpetual_futures_exchan.Big.{Js}
use perpetual_futures_exchan.Decimal.{DecStr, zero_text, dec, mul, gt}
use perpetual_futures_exchan.Store.{Db, Market, Order, OrderStatus, Side}
use perpetual_futures_exchan.Store.Rows.{first}
use perpetual_futures_exchan.Store.Monad.{
  Action, pure, done, ◌>>=◌, ◌>>◌, gets, modify, or_throw, transaction, division_by_zero,
}
use perpetual_futures_exchan.Store.Numeric.{Postgres}
use perpetual_futures_exchan.Balance.{write_column, unlock_balance}
use perpetual_futures_exchan.Orders.{truthy, or_else, margin_for, has_order_id}
use perpetual_futures_exchan.Orders.Cancel.{update_order, canceled_at}

pub data EventKind : Type 0 where
  order_accepted order_rejected order_filled order_canceled : EventKind
  trade_executed order_book_updated other_kind : EventKind

-- The fields that the handlers read; for an identifier or a symbol, an empty text is none.
pub record EngineEvent : Type 0 where
  pub kind : EventKind
  pub order_id : Option ℕ
  pub market : Option ℕ
  pub price : Option DecStr
  pub quantity : Option DecStr
  pub maker_order_id : Option ℕ
  pub taker_order_id : Option ℕ
  pub maker_user_id : Option ℕ
  pub taker_user_id : Option ℕ
  pub side : Option Side
  pub bids : Option (List (DecStr × DecStr))
  pub asks : Option (List (DecStr × DecStr))

-- An event of the given kind with no other field.
abbrev pub bare_event : EventKind → EngineEvent
bare_event kind = record {
  kind = kind;
  order_id = none;
  market = none;
  price = none;
  quantity = none;
  maker_order_id = none;
  taker_order_id = none;
  maker_user_id = none;
  taker_user_id = none;
  side = none;
  bids = none;
  asks = none;
}

abbrev pub order_by_id : ℕ → Db → Option Order
order_by_id id db = first (has_order_id id) db.orders

-- `order.leverage || "1"`
abbrev pub stored_leverage : Order → DecStr
stored_leverage order = or_else (truthy (some order.leverage)) (b'1' ∷ [])

-- `gte ? "filled" : gt(0) ? "partially_filled" : order.status`
abbrev pub is_filled : OrderStatus → Bool
is_filled OrderStatus.filled = true
is_filled _ = false

-- `["filled", "canceled", "expired"].includes(status)`
abbrev pub keeps_margin_on_reject : OrderStatus → Bool
keeps_margin_on_reject OrderStatus.filled = true
keeps_margin_on_reject OrderStatus.canceled = true
keeps_margin_on_reject OrderStatus.expired = true
keeps_margin_on_reject _ = false

-- `["filled", "rejected", "expired"].includes(status)`
abbrev pub ignores_cancel : OrderStatus → Bool
ignores_cancel OrderStatus.filled = true
ignores_cancel OrderStatus.rejected = true
ignores_cancel OrderStatus.expired = true
ignores_cancel _ = false

-- The price by which a buy's margin was computed.
abbrev pub buy_price : Side → Option DecStr → Option DecStr
buy_price Side.buy price = truthy price
buy_price Side.sell price = none

module _ ⦃js : Js⦄ where
  abbrev pub filled_text : DecStr → Order → DecStr
  filled_text qty order = Big.to_text (Big.plus (dec order.filled_quantity) (dec qty))

  abbrev pub status_after : DecStr → Order → OrderStatus
  status_after qty order =
      if Big.gte (dec (filled_text qty order)) (dec order.quantity)
      then OrderStatus.filled
      else (if Big.gt (dec (filled_text qty order)) (dec zero_text)
          then OrderStatus.partially_filled
          else order.status)

  -- `D(order.quantity).minus(D(order.filledQuantity))`, as a text.
  abbrev pub remaining : Order → DecStr
  remaining order = Big.to_text (Big.minus (dec order.quantity) (dec order.filled_quantity))

module _ ⦃js : Js⦄ ⦃pg : Postgres⦄ where
  apply_found : ℕ → DecStr → DecStr → Option Order → Action (Unit {0})
  apply_found order_id qty fill_price none = done
  apply_found order_id qty fill_price (some order) = do
    let status_now = status_after qty order
    now ← gets (λ db. db.clock)
    filled ← write_column (filled_text qty order)
    price ← write_column (or_else (truthy order.price) fill_price)
    modify (
        update_order order_id (λ o. record o {
          filled_quantity = filled;
          status = status_now;
          updated_at = now;
          executed_at = if is_filled status_now then some now else order.executed_at;
          price = some price;
        }))

  unfoldable pub apply_trade_to_order : ℕ → DecStr → DecStr → Action (Unit {0})
  unfolding apply_found
  apply_trade_to_order order_id qty fill_price =
      transaction (gets (order_by_id order_id) >>= apply_found order_id qty fill_price)

  -- A margin for the remaining quantity of a buy, the remaining quantity itself of a sell.
  unlock_remaining : Order → Market → Option DecStr → Action (Unit {0})
  unlock_remaining order market (some price) =
      or_throw (margin_for (mul price (remaining order)) (stored_leverage order)) division_by_zero
      >>= λ margin.
          if gt margin zero_text
          then unlock_balance order.user_id market.quote_asset_id margin
          else done
  unlock_remaining order market none =
      if gt (remaining order) zero_text
      then unlock_balance order.user_id market.base_asset_id (remaining order)
      else done

  unlock_in : Order → Option Market → Action (Unit {0})
  unfolding unlock_remaining
  unlock_in order none = done
  unlock_in order (some market) = unlock_remaining order market (buy_price order.side order.price)

  unfoldable pub unlock_order_margin : Order → Action (Unit {0})
  unfolding unlock_in
  unlock_order_margin order =
      gets (λ db. first (λ m. m.id == order.market_id) db.markets) >>= unlock_in order

abbrev pub stored_as : OrderStatus → ℕ → Order → Order
stored_as s now o = record o { status = s; updated_at = now }

abbrev pub filled_at : ℕ → Order → Order
filled_at now o = record o { status = OrderStatus.filled; updated_at = now; executed_at = some now }

abbrev pub set_order : ℕ → (ℕ → Order → Order) → Action (Unit {0})
set_order id f = modify (λ db. update_order id (f db.clock) db)

unfoldable pub handle_order_accepted : EngineEvent → Action (Unit {0})
handle_order_accepted ev = elim ev.order_id [
  | none ↦ done
  | some id ↦ set_order id (stored_as OrderStatus.opened)
]

unfoldable pub handle_order_filled : EngineEvent → Action (Unit {0})
handle_order_filled ev = elim ev.order_id [ none ↦ done | some id ↦ set_order id filled_at ]

module _ ⦃js : Js⦄ ⦃pg : Postgres⦄ where
  pub release_rejected : Option Order → Action (Unit {0})
  release_rejected none = done
  release_rejected (some order) =
      if keeps_margin_on_reject order.status then done else unlock_order_margin order

  -- The margin first, unless the order is in a final state; the status in any case.
  unfoldable pub handle_order_rejected : EngineEvent → Action (Unit {0})
  unfolding release_rejected
  handle_order_rejected ev = elim ev.order_id [
    | none ↦ done
    | some id ↦
        (gets (order_by_id id) >>= release_rejected)
        >> set_order id (stored_as OrderStatus.rejected)
  ]

  cancel_found : ℕ → Option Order → Action (Unit {0})
  cancel_found id none = done
  cancel_found id (some order) =
      if ignores_cancel order.status
      then done
      else unlock_order_margin order >> set_order id canceled_at

  unfoldable pub handle_order_canceled : EngineEvent → Action (Unit {0})
  unfolding cancel_found
  handle_order_canceled ev = elim ev.order_id [
    | none ↦ done
    | some id ↦ gets (order_by_id id) >>= cancel_found id
  ]
