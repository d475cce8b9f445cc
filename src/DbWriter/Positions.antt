-- ===== src/DbWriter/Positions.antt =====
-- `upsertPosition`: a fill opens, adds to, reduces or closes a position.
pub mod Exposure
pub mod Follow
use mathlib.Core.Option
use perpetual_futures_exchan.Prelude.{
  ℕ, suc, zero, ◌^◌, ltb, Bool, true, false, not, Option, none, some, ◌&&◌, List, [], ◌∷◌, ◌++◌,
  ◌==◌, if◌then◌else◌,
}
use perpetual_futures_exchan.Prelude.Int.{ℤ, pos, negsuc, signed}
use perpetual_futures_exchan.Text.{Text, is_digit, trim_start, number}
use perpetual_futures_exchan.Big
use perpetual_futures_exchan.Big.{Js}
use perpetual_futures_exchan.Decimal.{DecStr, zero_text, dec}
use perpetual_futures_exchan.Store.{
  Db, Order, Side, MarginMode, Position, PositionSide, PositionStatus,
}
use perpetual_futures_exchan.Store.Rows.{first, update_rows}
use perpetual_futures_exchan.Store.Monad.{
  Action, done, ◌>>=◌, ◌>>◌, gets, modify, or_throw, throw_if, division_by_zero,
  integer_out_of_range,
}
use perpetual_futures_exchan.Store.Numeric.{Postgres}
use perpetual_futures_exchan.Balance.{write_column}
use perpetual_futures_exchan.Orders.{has_order_id}

abbrev pub side_of : Side → PositionSide
side_of Side.buy = PositionSide.long
side_of Side.sell = PositionSide.short

abbrev pub same_side : PositionSide → PositionSide → Bool
same_side PositionSide.long PositionSide.long = true
same_side PositionSide.short PositionSide.short = true
same_side PositionSide.long PositionSide.short = false
same_side PositionSide.short PositionSide.long = false

abbrev pub is_live : PositionStatus → Bool
is_live PositionStatus.opened = true
is_live PositionStatus.closed = false
is_live PositionStatus.liquidated = false

abbrev pub open_position_of : ℕ → ℕ → Db → Option Position
open_position_of user_id market_id db =
    first (λ p. p.user_id == user_id && p.market_id == market_id && is_live p.status) db.positions

abbrev pub has_position_id : ℕ → Position → Bool
has_position_id id p = p.id == id

abbrev pub update_position : ℕ → (Position → Position) → Db → Db
update_position id f db = record db { positions = update_rows (has_position_id id) f db.positions }

-- The digits at the start of a text.
unfoldable pub leading_digits : Text → Text
leading_digits [] = []
leading_digits (c ∷ cs) = let rest = leading_digits cs in if is_digit c then c ∷ rest else []

-- `parseInt(text, 10) || 1`: no digits at all is NaN.
unfoldable pub parse_int_or_one : Text → ℤ
unfolding leading_digits signed number
parse_int_or_one t =
    let (negative, body) : Bool × Text = elim (trim_start t) [
      | [] ↦ (false, [])
      | c ∷ cs ↦
          if c == b'-' then (true, cs) else (if c == b'+' then (false, cs) else (false, c ∷ cs))
    ] in
    elim (signed negative (number (leading_digits body))) [
      | pos zero ↦ pos 1
      | pos (suc n) ↦ pos (suc n)
      | negsuc n ↦ negsuc n
    ]

-- What a 32-bit column of PostgreSQL holds.
abbrev pub fits_integer : ℤ → Bool
fits_integer (pos n) = ltb n (2 ^ 31)
fits_integer (negsuc n) = ltb n (2 ^ 31)

module _ ⦃js : Js⦄ where
  -- `D(price).times(D(quantity)).div(D(lev)).toString()`
  unfoldable pub position_margin : DecStr → DecStr → DecStr → Option DecStr
  position_margin price quantity lev =
      Option.map Big.to_text (Big.div (Big.times (dec price) (dec quantity)) (dec lev))

  -- The average entry, weighted by quantity.
  unfoldable pub average_entry : Position → DecStr → DecStr → Option DecStr
  average_entry p price quantity = Option.map Big.to_text (
      Big.div
        (Big.plus (Big.times (dec p.entry_price) (dec p.quantity))
          (Big.times (dec price) (dec quantity)))
        (Big.plus (dec p.quantity) (dec quantity)))

  abbrev pub added : Position → DecStr → DecStr
  added p quantity = Big.to_text (Big.plus (dec p.quantity) (dec quantity))

  abbrev pub reduced : Position → DecStr → Big.Big
  reduced p quantity = Big.minus (dec p.quantity) (dec quantity)

  -- `existing.side === "long" ? 1 : -1`
  abbrev pub sign_text : PositionSide → DecStr
  sign_text PositionSide.long = b'1' ∷ []
  sign_text PositionSide.short = b'-' ∷ b'1' ∷ []

  unfoldable pub pnl_of : Position → DecStr → DecStr
  pnl_of p price = Big.to_text (
      Big.times (Big.times (Big.minus (dec price) (dec p.entry_price)) (dec p.quantity))
        (dec (sign_text p.side)))

  unfoldable pub realized : Position → DecStr → DecStr
  unfolding pnl_of
  realized p price = Big.to_text (Big.plus (dec p.realized_pnl) (dec (pnl_of p price)))

-- A fill, as `handleTradeExecuted` passes it on for one of its two users.
pub record PositionFill : Type 0 where
  pub market_id : ℕ
  pub user_id : ℕ
  pub order_id : ℕ
  pub side : Side
  pub price : DecStr
  pub quantity : DecStr
  pub leverage : DecStr
  pub margin_mode : MarginMode

-- The leverage and the margin mode are those of the order, where it exists.
abbrev pub fill_leverage : PositionFill → Option Order → DecStr
fill_leverage fill none = fill.leverage
fill_leverage fill (some order) = order.leverage

abbrev pub fill_margin_mode : PositionFill → Option Order → MarginMode
fill_margin_mode fill none = fill.margin_mode
fill_margin_mode fill (some order) = order.margin_mode

module _ ⦃js : Js⦄ ⦃pg : Postgres⦄ where
  open_position : PositionFill → Action (Unit {0})
  open_position fill = do
    order ← gets (λ db. first (has_order_id fill.order_id) db.orders)
    let lev = fill_leverage fill order
    margin_text ← or_throw (position_margin fill.price fill.quantity lev) division_by_zero
    quantity ← write_column fill.quantity
    price ← write_column fill.price
    margin ← write_column margin_text
    zero_pnl ← write_column zero_text
    throw_if (not (fits_integer (parse_int_or_one lev))) integer_out_of_range
    db ← gets (λ db. db)
    let row : Position = record {
      id = db.next_id;
      user_id = fill.user_id;
      market_id = fill.market_id;
      side = side_of fill.side;
      quantity = quantity;
      entry_price = price;
      mark_price = price;
      liquidation_price = price;
      margin = margin;
      leverage = parse_int_or_one lev;
      margin_mode = fill_margin_mode fill order;
      realized_pnl = zero_pnl;
      status = PositionStatus.opened;
      opened_at = db.clock;
      closed_at = none;
    }
    modify (λ db. record db { positions = db.positions ++ (row ∷ []); next_id = suc db.next_id })

  pub add_to_position : PositionFill → Position → Action (Unit {0})
  add_to_position fill p = do
    entry_text ← or_throw (average_entry p fill.price fill.quantity) division_by_zero
    quantity ← write_column (added p fill.quantity)
    entry ← write_column entry_text
    price ← write_column fill.price
    modify (
        update_position p.id
          (λ q. record q { quantity = quantity; entry_price = entry; mark_price = price }))

  pub close_position : PositionFill → Position → Action (Unit {0})
  close_position fill p = do
    quantity ← write_column zero_text
    pnl ← write_column (realized p fill.price)
    price ← write_column fill.price
    now ← gets (λ db. db.clock)
    modify (
        update_position p.id (λ q. record q {
          quantity = quantity;
          status = PositionStatus.closed;
          closed_at = some now;
          realized_pnl = pnl;
          mark_price = price;
        }))

  pub reduce_position : PositionFill → Position → Action (Unit {0})
  reduce_position fill p = do
    quantity ← write_column (Big.to_text (reduced p fill.quantity))
    price ← write_column fill.price
    modify (update_position p.id (λ q. record q { quantity = quantity; mark_price = price }))

  -- `newQty.lte(0)` closes.
  change_position : PositionFill → Option Position → Action (Unit {0})
  unfolding open_position add_to_position close_position reduce_position
  change_position fill none = open_position fill
  change_position fill (some p) =
      if same_side p.side (side_of fill.side)
      then add_to_position fill p
      else (if Big.lte (reduced p fill.quantity) (dec zero_text)
          then close_position fill p
          else reduce_position fill p)

  unfoldable pub upsert_position : PositionFill → Action (Unit {0})
  unfolding change_position
  upsert_position fill =
      gets (open_position_of fill.user_id fill.market_id) >>= change_position fill
