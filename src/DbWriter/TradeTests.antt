-- ===== src/DbWriter/TradeTests.antt =====
-- Runs of the handler of TRADE_EXECUTED, and its theorems at a small store.
use perpetual_futures_exchan.Prelude.{true, false, ◌≡◌, refl, some, [], ◌∷◌, map, arith}
use perpetual_futures_exchan.Big.{Code}
use perpetual_futures_exchan.Decimal.{DecStr, mul, gt, sub, add}
use perpetual_futures_exchan.Store.{Db, Order, Side}
use perpetual_futures_exchan.Store.Exact.{plain_js, exact_pg, exact_pg-IsPostgres}
use perpetual_futures_exchan.Store.Sample.{sample, resting, perp, balance, n0, n1, n2, n3, n9}
use perpetual_futures_exchan.Store.Monad.{ok, err, division_by_zero}
use perpetual_futures_exchan.Store.Session.{ended, waits}
use perpetual_futures_exchan.Balance.{debit_locked}
use perpetual_futures_exchan.Orders.{margin_for}
use perpetual_futures_exchan.DbWriter.{EngineEvent, EventKind, bare_event, apply_trade_to_order}
use perpetual_futures_exchan.DbWriter.Positions.{upsert_position, position_margin, parse_int_or_one}
use perpetual_futures_exchan.DbWriter.InOrder.{Executes, IsTradable, trade_at_once}
use perpetual_futures_exchan.DbWriter.InOrder.Whole.{handle_trade_executed-Executes}
use perpetual_futures_exchan.DbWriter.Settle.Whole.{
  Settles, FundedTrade, bought, spent, handle_trade_executed-Settles,
}
use perpetual_futures_exchan.Balance.Moved.{IsLedger}
use perpetual_futures_exchan.DbWriter.Leftover.Trade.{Leaves, handle_trade_executed-Leaves}
use perpetual_futures_exchan.DbWriter.Messages.{
  World, handle_order_book_updated, handle_message, dispatch, run_chain,
}
use perpetual_futures_exchan.DbWriter.Messages.Chain.{HandlesAll, run_chain-HandlesAll}
use perpetual_futures_exchan.DbWriter.Messages.Snapshots.{
  ReadsBack, handle_order_book_updated-ReadsBack,
}
use perpetual_futures_exchan.DbWriter.Messages.Mirror.{Mirrors, handle_message-Mirrors}
use perpetual_futures_exchan.DbWriter.Credit.{
  TradeEvent, credit_available, debit_available, insert_fill, insert_synthetic,
}
use perpetual_futures_exchan.DbWriter.Trade.{trade_of, market_of, fee_of, handle_trade_executed}

-- A buy of user 3 takes the sell of user 2.
abbrev maker_order : Order
maker_order = record resting { id = 31; user_id = 2; side = Side.sell }

abbrev taker_order : Order
taker_order = record resting { id = 32; user_id = 3; side = Side.buy }

abbrev before : Db
before = record sample {
  balances = balance 41 3 10 n9 n2 ∷ balance 42 2 10 n9 n0 ∷ balance 43 2 11 n3 n1 ∷ [];
  orders = maker_order ∷ taker_order ∷ [];
}

abbrev traded : EngineEvent
traded = record (bare_event EventKind.trade_executed) {
  market = some 500;
  price = some n2;
  quantity = some n1;
  maker_order_id = some 31;
  taker_order_id = some 32;
  maker_user_id = some 2;
  taker_user_id = some 3;
  side = some Side.buy;
}

-- Both users are left with what the trade gives them: 2 · 1 spent by the buyer, who pays a fee of
-- 0.0006, and received by the seller, less 0.0004.
traded_run :
    let r = handle_trade_executed traded before in
    (r.0 ≡ ended (ok tt))
    × (map (λ b. b.available_balance) r.1.balances
        ≡ (b'8' ∷ b'.' ∷ b'9' ∷ b'9' ∷ b'9' ∷ b'4' ∷ [])
          ∷ (b'1' ∷ b'0' ∷ b'.' ∷ b'9' ∷ b'9' ∷ b'9' ∷ b'6' ∷ [])
          ∷ n3
          ∷ n1
          ∷ [])
    × (map (λ b. b.locked_balance) r.1.balances ≡ n0 ∷ n0 ∷ n0 ∷ n0 ∷ [])
unfolding Code handle_trade_executed margin_for mul gt debit_locked credit_available debit_available
    insert_fill insert_synthetic upsert_position apply_trade_to_order sub add position_margin
    parse_int_or_one
traded_run = (refl, refl, refl)

-- If one user is on both sides and holds the base asset already, the second `debitLocked` waits for
-- the row that the transaction has credited, and the handler never ends.
abbrev alone : Db
alone = record before {
  orders = maker_order ∷ record taker_order { user_id = 2 } ∷ [];
  balances = balance 41 2 10 n9 n2 ∷ balance 43 2 11 n3 n1 ∷ [];
}

self_trade_run : (handle_trade_executed (record traded { taker_user_id = some 2 }) alone).0 ≡ waits
unfolding Code handle_trade_executed margin_for mul gt debit_locked credit_available debit_available
    insert_fill insert_synthetic upsert_position apply_trade_to_order sub add position_margin
self_trade_run = refl

-- A sale to a buyer whose order has leverage 0: the seller's locked quantity is gone by the time the
-- division throws, and nothing else has changed.
abbrev broken : Db
broken = record before {
  orders =
      record maker_order { user_id = 3; side = Side.buy; leverage = n0 }
      ∷ record taker_order { user_id = 2; side = Side.sell }
      ∷ [];
}

abbrev sold : EngineEvent
sold = record traded { maker_user_id = some 3; taker_user_id = some 2; side = some Side.sell }

half_done_run :
    let r = handle_trade_executed sold broken in
    (r.0 ≡ ended (err division_by_zero))
    × (map (λ b. b.locked_balance) broken.balances ≡ n2 ∷ n0 ∷ n1 ∷ [])
    × (map (λ b. b.locked_balance) r.1.balances ≡ n2 ∷ n0 ∷ n0 ∷ [])
    × (r.1.fills ≡ [])
unfolding Code handle_trade_executed margin_for mul gt debit_locked credit_available debit_available
    insert_fill insert_synthetic upsert_position apply_trade_to_order sub add position_margin
half_done_run = (refl, refl, refl, refl)

handle_trade_executed-Leaves_example : Leaves broken (handle_trade_executed sold broken)
handle_trade_executed-Leaves_example = handle_trade_executed-Leaves sold broken

abbrev trade : TradeEvent
trade = record {
  market = 500;
  maker_order_id = 31;
  taker_order_id = 32;
  maker_user_id = 2;
  taker_user_id = 3;
  price = n2;
  quantity = n1;
  side = Side.buy;
}

abbrev tradable : IsTradable trade before
tradable = record {
  taker = taker_order;
  maker = maker_order;
  taker_found = refl;
  maker_found = refl;
  differ = λ e. omega arith;
  maker_internal = refl;
  taker_internal = refl;
  table = ground arith;
  fresh = ground arith;
}

traded_complete : trade_of traded ≡ some trade
unfolding trade_of
traded_complete = refl

traded_known : market_of trade before ≡ some perp
unfolding market_of
traded_known = refl

handle_trade_executed-Executes_example :
    Executes (handle_trade_executed traded before) (trade_at_once perp trade before)
handle_trade_executed-Executes_example =
    handle_trade_executed-Executes traded trade perp before traded_complete traded_known tradable

abbrev world : World
world = record { db = before; books = []; kafka_up = true; kafka = [] }

abbrev snapshot : EngineEvent
snapshot = record (bare_event EventKind.order_book_updated) {
  market = some 500;
  bids = some ((n1, n2) ∷ (n1, n3) ∷ []);
}

handle_order_book_updated-ReadsBack_example :
    ReadsBack snapshot 500 1 7 world (handle_order_book_updated snapshot world).1
handle_order_book_updated-ReadsBack_example =
    handle_order_book_updated-ReadsBack snapshot 500 1 7 world refl refl

handle_message-Mirrors_example :
    Mirrors traded world
      (handle_message traded (record world { kafka_up = true }))
      (handle_message traded (record world { kafka_up = false }))
handle_message-Mirrors_example = handle_message-Mirrors traded world

-- The second of these messages never ends.
abbrev self_trade : EngineEvent
self_trade = record traded { taker_user_id = some 2 }

abbrev lonely : World
lonely = record world { db = alone }

left_over_run :
    (run_chain (snapshot ∷ self_trade ∷ snapshot ∷ []) lonely).1 ≡ self_trade ∷ snapshot ∷ []
unfolding Code run_chain handle_message dispatch handle_order_book_updated handle_trade_executed
    margin_for mul gt debit_locked credit_available debit_available insert_fill insert_synthetic
    upsert_position apply_trade_to_order sub add position_margin parse_int_or_one
left_over_run = refl

run_chain-HandlesAll_example :
    HandlesAll (snapshot ∷ snapshot ∷ []) world (run_chain (snapshot ∷ snapshot ∷ []) world)
run_chain-HandlesAll_example =
    run_chain-HandlesAll (snapshot ∷ snapshot ∷ []) world ((λ e. cc), ((λ e. cc), tt))

-- 2 · 0.0002 and 2 · 0.0003.
abbrev maker_fee : DecStr
maker_fee = b'0' ∷ b'.' ∷ b'0' ∷ b'0' ∷ b'0' ∷ b'4' ∷ []

abbrev taker_fee : DecStr
taker_fee = b'0' ∷ b'.' ∷ b'0' ∷ b'0' ∷ b'0' ∷ b'6' ∷ []

maker_fee_run : fee_of trade perp.maker_fee_bps ≡ some maker_fee
unfolding Code fee_of mul
maker_fee_run = refl

taker_fee_run : fee_of trade perp.taker_fee_bps ≡ some taker_fee
unfolding Code fee_of mul
taker_fee_run = refl

before-IsLedger : IsLedger before
unfolding Code
before-IsLedger = record { table = ground arith; sound = ground arith }

before-FundedTrade : FundedTrade trade perp maker_fee taker_fee n2 taker_order maker_order before
unfolding Code mul margin_for
before-FundedTrade = record {
  differ = λ e. omega arith;
  margin_is = refl;
  margin_fits = ground arith;
  fee_fits = ground arith;
  quantity_fits = ground arith;
  proceeds_fit = ground arith;
  margin_locked = ground arith;
  fee_available = ground arith;
  quantity_locked = ground arith;
}

handle_trade_executed-Settles_example :
    Settles
      (bought trade perp maker_fee taker_fee taker_order maker_order)
      (spent trade perp n2 taker_order maker_order)
      before
      (handle_trade_executed traded before)
handle_trade_executed-Settles_example =
    handle_trade_executed-Settles exact_pg-IsPostgres traded trade perp before traded_complete
      traded_known tradable before-IsLedger maker_fee taker_fee n2 maker_fee_run taker_fee_run
      before-FundedTrade
