-- ===== src/DbWriter/Trade.antt =====
-- `handleTradeExecuted` of Server/src/workers/dbWriter.ts: a transaction that settles a trade, and in
-- which `debitLocked` and `applyTradeToOrder` run on connections of their own.
use mathlib.Core.Option
use perpetual_futures_exchan.Prelude.{ℕ, Option, none, some, [], ◌∷◌, ◌==◌, if◌then◌else◌}
use perpetual_futures_exchan.Big
use perpetual_futures_exchan.Big.{Js}
use perpetual_futures_exchan.Decimal.{DecStr, zero_text, dec, mul, gt}
use perpetual_futures_exchan.Store.{Db, Market, Order, Side, MarginMode}
use perpetual_futures_exchan.Store.Rows.{first}
use perpetual_futures_exchan.Store.Monad.{ok, err, gets, division_by_zero}
use perpetual_futures_exchan.Store.Session.{
  Reply, ended, Tx, skip, reject, ◌>>=◌, ◌>>◌, in_tx, write_balance, elsewhere, elsewhere_on,
  commit,
}
use perpetual_futures_exchan.Store.Numeric.{Postgres}
use perpetual_futures_exchan.Balance.{balance_of, debit_locked}
use perpetual_futures_exchan.Orders.{truthy, margin_for}
use perpetual_futures_exchan.DbWriter.{
  EngineEvent, order_by_id, stored_leverage, apply_trade_to_order,
}
use perpetual_futures_exchan.DbWriter.Credit.{
  TradeEvent, opposite, is_external, credit_available, debit_available, insert_synthetic,
  insert_fill,
}
use perpetual_futures_exchan.DbWriter.Positions.{PositionFill, upsert_position}

-- Nothing, if a field is missing or empty.
unfoldable pub trade_of : EngineEvent → Option TradeEvent
unfolding Option.bind
trade_of ev = Option.bind ev.market λ market. Option.bind ev.maker_order_id λ maker_order_id.
    Option.bind ev.taker_order_id λ taker_order_id. Option.bind ev.maker_user_id λ maker_user_id.
      Option.bind ev.taker_user_id λ taker_user_id. Option.bind (truthy ev.price) λ price.
        Option.bind (truthy ev.quantity) λ quantity. Option.bind ev.side λ side. some (record {
          market = market;
          maker_order_id = maker_order_id;
          taker_order_id = taker_order_id;
          maker_user_id = maker_user_id;
          taker_user_id = taker_user_id;
          price = price;
          quantity = quantity;
          side = side;
        })

-- What a trade is settled with.
pub record Settlement : Type 0 where
  pub base_asset_id : ℕ
  pub quote_asset_id : ℕ
  pub notional : DecStr
  pub quantity : DecStr

-- The leverage and the margin mode of `takerOrderLeverage`, `takerOrderMarginMode` and their likes.
abbrev pub position_fill : ℕ → (user_id order_id : ℕ) → Side → TradeEvent → PositionFill
position_fill market_id user_id order_id side ev = record {
  market_id = market_id;
  user_id = user_id;
  order_id = order_id;
  side = side;
  price = ev.price;
  quantity = ev.quantity;
  leverage = b'1' ∷ [];
  margin_mode = MarginMode.isolated;
}

module _ ⦃js : Js⦄ where
  -- `D(bps).div(10000).toString()`
  unfoldable pub fee_rate : DecStr → Option DecStr
  fee_rate bps =
      Option.map Big.to_text (Big.div (dec bps) (dec (b'1' ∷ b'0' ∷ b'0' ∷ b'0' ∷ b'0' ∷ [])))

  unfoldable pub fee_of : TradeEvent → DecStr → Option DecStr
  unfolding fee_rate
  fee_of ev bps = Option.map (λ rate. mul ev.price (mul ev.quantity rate)) (fee_rate bps)

  -- `D(notional).minus(D(fee)).toString()`
  abbrev pub proceeds : Settlement → DecStr → DecStr
  proceeds s fee = Big.to_text (Big.minus (dec s.notional) (dec fee))

  abbrev pub settlement : Market → TradeEvent → Settlement
  settlement market ev = record {
    base_asset_id = market.base_asset_id;
    quote_asset_id = market.quote_asset_id;
    notional = mul ev.price ev.quantity;
    quantity = ev.quantity;
  }

module _ ⦃js : Js⦄ ⦃pg : Postgres⦄ where
  -- `await debitLocked(...)` inside the transaction; an amount that is not positive writes nothing.
  unfoldable pub debit_locked_elsewhere : ℕ → ℕ → DecStr → Tx (Unit {0})
  debit_locked_elsewhere user_id asset_id amount s =
      elsewhere_on (if gt amount zero_text then balance_of user_id asset_id s.outside else none)
        (debit_locked user_id asset_id amount) s

  unfoldable pub pay_margin : Settlement → DecStr → Order → Option DecStr → Tx (Unit {0})
  unfolding debit_locked_elsewhere
  pay_margin s fee order none = reject division_by_zero
  pay_margin s fee order (some margin) =
      debit_locked_elsewhere order.user_id s.quote_asset_id margin
      >> write_balance (debit_available order.user_id s.quote_asset_id fee)
      >> write_balance (credit_available order.user_id s.base_asset_id s.quantity)

  -- The buyer's margin is spent, the fee leaves what is available, and the quantity arrives.
  unfoldable pub buyer_pays : Settlement → DecStr → Option Order → Tx (Unit {0})
  unfolding pay_margin
  buyer_pays s fee none = skip
  buyer_pays s fee (some order) =
      pay_margin s fee order (margin_for s.notional (stored_leverage order))

  unfoldable pub seller_gives : Settlement → DecStr → Option Order → Tx (Unit {0})
  unfolding debit_locked_elsewhere
  seller_gives s fee none = skip
  seller_gives s fee (some order) =
      debit_locked_elsewhere order.user_id s.base_asset_id s.quantity
      >> write_balance (credit_available order.user_id s.quote_asset_id (proceeds s fee))

  -- The taker first. An external maker has infinite liquidity.
  unfoldable pub settle :
      Settlement → TradeEvent → (maker_fee taker_fee : DecStr) → Side → Tx (Unit {0})
  unfolding buyer_pays seller_gives
  settle s ev maker_fee taker_fee Side.buy = do
    in_tx (gets (order_by_id ev.taker_order_id)) >>= buyer_pays s taker_fee
    maker ← in_tx (gets (order_by_id ev.maker_order_id))
    if is_external ev.maker_user_id then skip else seller_gives s maker_fee maker
  settle s ev maker_fee taker_fee Side.sell = do
    in_tx (gets (order_by_id ev.taker_order_id)) >>= seller_gives s taker_fee
    maker ← in_tx (gets (order_by_id ev.maker_order_id))
    if is_external ev.maker_user_id then skip else buyer_pays s maker_fee maker

  -- Positions of the external user are not followed.
  unfoldable pub follow : ℕ → TradeEvent → Tx (Unit {0})
  follow market_id ev =
      (if is_external ev.taker_user_id
        then skip
        else in_tx (
            upsert_position
              (position_fill market_id ev.taker_user_id ev.taker_order_id ev.side ev)))
      >> (if is_external ev.maker_user_id
          then skip
          else in_tx (
              upsert_position
                (position_fill market_id ev.maker_user_id ev.maker_order_id (opposite ev.side) ev)))

  unfoldable pub synthetic_orders : ℕ → TradeEvent → Tx (Unit {0})
  synthetic_orders market_id ev =
      (if is_external ev.maker_user_id
        then in_tx (insert_synthetic market_id ev.maker_order_id (opposite ev.side) ev)
        else skip)
      >> (if is_external ev.taker_user_id
          then in_tx (insert_synthetic market_id ev.taker_order_id ev.side ev)
          else skip)

  -- The body of the transaction.
  unfoldable pub trade_body : Market → TradeEvent → (maker_fee taker_fee : DecStr) → Tx (Unit {0})
  unfolding settle follow synthetic_orders
  trade_body market ev maker_fee taker_fee =
      synthetic_orders market.id ev
      >> in_tx (insert_fill market.id ev maker_fee taker_fee)
      >> settle (settlement market ev) ev maker_fee taker_fee ev.side
      >> elsewhere (apply_trade_to_order ev.maker_order_id ev.quantity ev.price)
      >> elsewhere (apply_trade_to_order ev.taker_order_id ev.quantity ev.price)
      >> follow market.id ev

  -- The market, whose two assets exist.
  unfoldable pub market_of : TradeEvent → Db → Option Market
  market_of ev db = elim (first (λ m. m.symbol == ev.market) db.markets) [
    | none ↦ none
    | some market ↦ elim (first (λ a. a.id == market.base_asset_id) db.assets) [
      | none ↦ none
      | some base ↦ elim (first (λ a. a.id == market.quote_asset_id) db.assets) [
        | none ↦ none
        | some quote ↦ some market
      ]
    ]
  ]

  -- With the taker's fee and the maker's; 10000 is not zero, so that none of them is missing.
  unfoldable pub execute :
      TradeEvent → Market → (taker_fee maker_fee : Option DecStr) → Db → Reply (Unit {0}) × Db
  unfolding trade_body
  execute ev market none maker_fee db = (ended (err division_by_zero), db)
  execute ev market (some taker_fee) none db = (ended (err division_by_zero), db)
  execute ev market (some taker_fee) (some maker_fee) db =
      commit (trade_body market ev maker_fee taker_fee) db

  unfoldable pub execute_in : TradeEvent → Option Market → Db → Reply (Unit {0}) × Db
  unfolding fee_of execute
  execute_in ev none db = (ended (ok tt), db)
  execute_in ev (some market) db =
      execute ev market (fee_of ev market.taker_fee_bps) (fee_of ev market.maker_fee_bps) db

  unfoldable pub execute_trade : Option TradeEvent → Db → Reply (Unit {0}) × Db
  unfolding market_of execute_in
  execute_trade none db = (ended (ok tt), db)
  execute_trade (some ev) db = execute_in ev (market_of ev db) db

  unfoldable pub handle_trade_executed : EngineEvent → Db → Reply (Unit {0}) × Db
  unfolding trade_of execute_trade
  handle_trade_executed event db = execute_trade (trade_of event) db
