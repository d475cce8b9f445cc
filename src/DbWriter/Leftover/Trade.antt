-- ===== src/DbWriter/Leftover/Trade.antt =====
-- The steps of a trade, and the handler of TRADE_EXECUTED, leave no more than that behind.
use perpetual_futures_exchan.Prelude.{ℕ, Bool, Option, none, some, [], if◌then◌else◌}
use perpetual_futures_exchan.Big.{Js}
use perpetual_futures_exchan.Decimal.{DecStr, zero_text, gt}
use perpetual_futures_exchan.Store.{Db, Order, Side, Market}
use perpetual_futures_exchan.Store.Monad.{Action, ok, err, gets}
use perpetual_futures_exchan.Store.Session.{
  Session, Reply, ended, waits, Tx, skip, ◌>>=◌, ◌>>◌, in_tx, write_balance, elsewhere,
}
use perpetual_futures_exchan.Store.Numeric.{Postgres}
use perpetual_futures_exchan.Balance.{balance_of, debit_locked}
use perpetual_futures_exchan.Orders.{margin_for}
use perpetual_futures_exchan.DbWriter.{
  EngineEvent, order_by_id, stored_leverage, apply_trade_to_order,
}
use perpetual_futures_exchan.DbWriter.Credit.{
  TradeEvent, is_external, opposite, debit_available, credit_available, insert_fill,
  insert_synthetic,
}
use perpetual_futures_exchan.DbWriter.InOrder.{committed}
use perpetual_futures_exchan.DbWriter.Trade.{
  Settlement, settlement, fee_of, trade_of, market_of, trade_body, pay_margin, buyer_pays,
  seller_gives, settle, follow, synthetic_orders, execute, execute_in, execute_trade,
  debit_locked_elsewhere, proceeds, handle_trade_executed,
}
use perpetual_futures_exchan.DbWriter.Leftover.{
  Spends, Spent, Spent-refl, apply_trade_to_order-Spent, bind-Spends, debit_locked-Spent,
  elsewhere-Spends, elsewhere_on-Spends, if-Spends, in_tx-Spends, skip-Spends, then-Spends,
  write-Spends,
}

module _ ⦃js : Js⦄ ⦃pg : Postgres⦄ where
  debit-Spends : (u a : ℕ) (x : DecStr) → Spends (debit_locked_elsewhere u a x)
  unfolding debit_locked_elsewhere
  debit-Spends u a x s =
      elsewhere_on-Spends (if gt x zero_text then balance_of u a s.outside else none)
        (debit_locked u a x) (debit_locked-Spent u a x) s

  pay_margin-Spends :
      (s : Settlement) (fee : DecStr) (o : Order) (margin : Option DecStr)
      → Spends (pay_margin s fee o margin)
  unfolding pay_margin
  pay_margin-Spends s fee o none = λ r. Spent-refl r.outside
  pay_margin-Spends s fee o (some margin) =
      let debit = debit_locked_elsewhere o.user_id s.quote_asset_id margin in
      let fee_step = debit_available o.user_id s.quote_asset_id fee in
      let credit = credit_available o.user_id s.base_asset_id s.quantity in
      then-Spends (debit >> write_balance fee_step) (write_balance credit)
        (then-Spends debit (write_balance fee_step) (debit-Spends o.user_id s.quote_asset_id margin)
          (write-Spends fee_step))
        (write-Spends credit)

  buyer_pays-Spends :
      (s : Settlement) (fee : DecStr) (o : Option Order) → Spends (buyer_pays s fee o)
  unfolding buyer_pays
  buyer_pays-Spends s fee none = skip-Spends
  buyer_pays-Spends s fee (some o) =
      pay_margin-Spends s fee o (margin_for s.notional (stored_leverage o))

  seller_gives-Spends :
      (s : Settlement) (fee : DecStr) (o : Option Order) → Spends (seller_gives s fee o)
  unfolding seller_gives
  seller_gives-Spends s fee none = skip-Spends
  seller_gives-Spends s fee (some o) =
      let credit = credit_available o.user_id s.quote_asset_id (proceeds s fee) in
      then-Spends (debit_locked_elsewhere o.user_id s.base_asset_id s.quantity)
        (write_balance credit) (debit-Spends o.user_id s.base_asset_id s.quantity)
        (write-Spends credit)

  ordered-Spends :
      (id : ℕ) (f : Option Order → Tx (Unit {0}))
      → ((o : Option Order) → Spends (f o))
      → Spends (in_tx (gets (order_by_id id)) >>= f)
  ordered-Spends id f h =
      bind-Spends (in_tx (gets (order_by_id id))) f (in_tx-Spends (gets (order_by_id id))) h

  sides-Spends :
      (t m : ℕ) (b : Bool) (f g : Option Order → Tx (Unit {0}))
      → ((o : Option Order) → Spends (f o))
      → ((o : Option Order) → Spends (g o))
      → Spends (
          (in_tx (gets (order_by_id t)) >>= f)
          >> (in_tx (gets (order_by_id m)) >>= λ o. if b then skip else g o))
  sides-Spends t m b f g h k =
      then-Spends (in_tx (gets (order_by_id t)) >>= f)
        (in_tx (gets (order_by_id m)) >>= λ o. if b then skip else g o) (ordered-Spends t f h)
        (ordered-Spends m (λ o. if b then skip else g o)
          (λ o. if-Spends b skip (g o) skip-Spends (k o)))

  settle-Spends :
      (s : Settlement) (ev : TradeEvent) (mf tf : DecStr) (side : Side)
      → Spends (settle s ev mf tf side)
  unfolding settle
  settle-Spends s ev mf tf Side.buy =
      sides-Spends ev.taker_order_id ev.maker_order_id (is_external ev.maker_user_id)
        (buyer_pays s tf) (seller_gives s mf) (buyer_pays-Spends s tf) (seller_gives-Spends s mf)
  settle-Spends s ev mf tf Side.sell =
      sides-Spends ev.taker_order_id ev.maker_order_id (is_external ev.maker_user_id)
        (seller_gives s tf) (buyer_pays s mf) (seller_gives-Spends s tf) (buyer_pays-Spends s mf)

  guarded-Spends :
      (b c : Bool) (m n : Action (Unit {0}))
      → Spends ((if b then skip else in_tx m) >> (if c then skip else in_tx n))
  guarded-Spends b c m n =
      then-Spends (if b then skip else in_tx m) (if c then skip else in_tx n)
        (if-Spends b skip (in_tx m) skip-Spends (in_tx-Spends m))
        (if-Spends c skip (in_tx n) skip-Spends (in_tx-Spends n))

  follow-Spends : (market_id : ℕ) (ev : TradeEvent) → Spends (follow market_id ev)
  unfolding follow
  follow-Spends market_id ev =
      guarded-Spends (is_external ev.taker_user_id) (is_external ev.maker_user_id) _ _

  opening-Spends :
      (market_id : ℕ) (ev : TradeEvent) (m : Action (Unit {0}))
      → Spends (synthetic_orders market_id ev >> in_tx m)
  unfolding synthetic_orders
  opening-Spends market_id ev m =
      let maker = insert_synthetic market_id ev.maker_order_id (opposite ev.side) ev in
      let taker = insert_synthetic market_id ev.taker_order_id ev.side ev in
      let a : Tx (Unit {0}) = if is_external ev.maker_user_id then in_tx maker else skip in
      let b : Tx (Unit {0}) = if is_external ev.taker_user_id then in_tx taker else skip in
      then-Spends (a >> b) (in_tx m)
        (then-Spends a b
          (if-Spends (is_external ev.maker_user_id) (in_tx maker) skip (in_tx-Spends maker)
            skip-Spends)
          (if-Spends (is_external ev.taker_user_id) (in_tx taker) skip (in_tx-Spends taker)
            skip-Spends))
        (in_tx-Spends m)

  trade_body-Spends :
      (market : Market) (ev : TradeEvent) (mf tf : DecStr) → Spends (trade_body market ev mf tf)
  unfolding trade_body
  trade_body-Spends market ev mf tf =
      let fill = insert_fill market.id ev mf tf in
      let settling = settle (settlement market ev) ev mf tf ev.side in
      let a = apply_trade_to_order ev.maker_order_id ev.quantity ev.price in
      let b = apply_trade_to_order ev.taker_order_id ev.quantity ev.price in
      let opening = synthetic_orders market.id ev >> in_tx fill in
      then-Spends (opening >> settling >> elsewhere a >> elsewhere b) (follow market.id ev)
        (then-Spends (opening >> settling >> elsewhere a) (elsewhere b)
          (then-Spends (opening >> settling) (elsewhere a)
            (then-Spends opening settling (opening-Spends market.id ev fill)
              (settle-Spends (settlement market ev) ev mf tf ev.side))
            (elsewhere-Spends a
              (apply_trade_to_order-Spent ev.maker_order_id ev.quantity ev.price)))
          (elsewhere-Spends b (apply_trade_to_order-Spent ev.taker_order_id ev.quantity ev.price)))
        (follow-Spends market.id ev)

  -- How the tables stand after a handler that did not come to its end.
  abbrev pub Leaves : Db → Reply (Unit {0}) × Db → Type 0
  Leaves db (ended (ok _), db') = Unit
  Leaves db (ended (err e), db') = Spent db db'
  Leaves db (waits, db') = Spent db db'

  committed-Leaves :
      (db : Db) (x : Reply (Unit {0}) × Session) → Spent db x.1.outside → Leaves db (committed x)
  committed-Leaves db (ended (ok a), s) h = tt
  committed-Leaves db (ended (err e), s) h = h
  committed-Leaves db (waits, s) h = h

  execute-Leaves :
      (ev : TradeEvent) (market : Market) (tf mf : Option DecStr) (db : Db)
      → Leaves db (execute ev market tf mf db)
  unfolding execute
  execute-Leaves ev market none mf db = Spent-refl db
  execute-Leaves ev market (some tf) none db = Spent-refl db
  execute-Leaves ev market (some tf) (some mf) db =
      committed-Leaves db
        (trade_body market ev mf tf (record { outside = db; inside = db; held = [] }))
        (trade_body-Spends market ev mf tf (record { outside = db; inside = db; held = [] }))

  execute_in-Leaves :
      (ev : TradeEvent) (market : Option Market) (db : Db) → Leaves db (execute_in ev market db)
  unfolding execute_in
  execute_in-Leaves ev none db = tt
  execute_in-Leaves ev (some market) db =
      execute-Leaves ev market (fee_of ev market.taker_fee_bps) (fee_of ev market.maker_fee_bps) db

  execute_trade-Leaves : (ev : Option TradeEvent) (db : Db) → Leaves db (execute_trade ev db)
  unfolding execute_trade
  execute_trade-Leaves none db = tt
  execute_trade-Leaves (some ev) db = execute_in-Leaves ev (market_of ev db) db

  -- When TRADE_EXECUTED fails, or waits for ever, for any event and any tables, then no fill, no
  -- position, no new row and no available balance is left of it. Locked balances and the fills of the
  -- orders, which other connections have committed by then, are all that can differ.
  pub handle_trade_executed-Leaves :
      (event : EngineEvent) (db : Db) → Leaves db (handle_trade_executed event db)
  unfolding handle_trade_executed
  handle_trade_executed-Leaves event db = execute_trade-Leaves (trade_of event) db
