-- ===== src/DbWriter/Messages.antt =====
-- `handleMessage` and the chain of Server/src/workers/dbWriter.ts, with `publishEngineEvent` of
-- Server/src/kafka.ts; the snapshots of the order book, and how Server/src/services/marketService.ts
-- reads them. Messages are given parsed.
pub mod Chain
pub mod Snapshots
pub mod Mirror
use perpetual_futures_exchan.Prelude.{
  ℕ, ◌+◌, ltb, Bool, true, false, Option, none, some, List, [], ◌∷◌, ◌++◌, ◌==◌, if◌then◌else◌,
  take,
}
use perpetual_futures_exchan.Big.{Js}
use perpetual_futures_exchan.Decimal.{DecStr}
use perpetual_futures_exchan.Store.{Db}
use perpetual_futures_exchan.Store.Monad.{Action, Error, Result, ok, err, redis_error}
use perpetual_futures_exchan.Store.Session.{Reply, ended, waits}
use perpetual_futures_exchan.Store.Numeric.{Postgres}
use perpetual_futures_exchan.DbWriter.{
  EngineEvent, EventKind, handle_order_accepted, handle_order_rejected, handle_order_filled,
  handle_order_canceled,
}
use perpetual_futures_exchan.DbWriter.Trade.{handle_trade_executed}

abbrev pub Levels : Type 0
Levels = List (DecStr × DecStr)

-- The value at `orderbook:<market>`, and until when Redis keeps it.
pub record Book : Type 0 where
  pub bids : Levels
  pub asks : Levels
  pub ts : ℕ
  pub expires_at : ℕ

-- The tables, the snapshots in Redis, the latest first, and the topic `engine_events`, which takes
-- messages or does not.
pub record World : Type 0 where
  pub db : Db
  pub books : List (ℕ × Book)
  pub kafka_up : Bool
  pub kafka : List EngineEvent

-- `ev.bids || []`
abbrev pub levels_of : Option Levels → Levels
levels_of none = []
levels_of (some l) = l

-- `EX 300`
abbrev pub book_of : EngineEvent → ℕ → Book
book_of ev now = record {
  bids = levels_of ev.bids;
  asks = levels_of ev.asks;
  ts = now;
  expires_at = now + 300000;
}

abbrev pub set_book : ℕ → Book → World → World
set_book market book w = record w { books = (market, book) ∷ w.books }

store_book : EngineEvent → Option ℕ → World → Reply (Unit {0}) × World
store_book ev none w = (ended (ok tt), w)
store_book ev (some market) w =
    if w.db.redis_up
    then (ended (ok tt), set_book market (book_of ev w.db.clock) w)
    else (ended (err redis_error), w)

unfoldable pub handle_order_book_updated : EngineEvent → World → Reply (Unit {0}) × World
unfolding store_book
handle_order_book_updated ev w = store_book ev ev.market w

abbrev pub lookup : ℕ → List (ℕ × Book) → Option Book
lookup market [] = none
lookup market ((key, book) ∷ books) = if key == market then some book else lookup market books

-- What `getOrderbookFromRedis` returns.
pub record Depth : Type 0 where
  pub bids : Levels
  pub asks : Levels

abbrev pub live_book : ℕ → Option Book → Option Book
live_book now none = none
live_book now (some book) = if ltb now book.expires_at then some book else none

abbrev pub depth_of : ℕ → Option Book → Depth
depth_of depth none = record { bids = []; asks = [] }
depth_of depth (some book) = record { bids = take depth book.bids; asks = take depth book.asks }

unfoldable pub get_orderbook_from_redis : ℕ → ℕ → World → Result Depth
get_orderbook_from_redis symbol depth w =
    if w.db.redis_up
    then ok (depth_of depth (live_book w.db.clock (lookup symbol w.books)))
    else err redis_error

-- `p.send`; whether it returned, and did not throw.
abbrev pub publish_engine_event : EngineEvent → World → Bool × World
publish_engine_event ev w =
    if w.kafka_up then (true, record w { kafka = w.kafka ++ (ev ∷ []) }) else (false, w)

-- The `try` around it, whose `catch` only logs.
abbrev pub mirrored : Bool × World → World
mirrored (returned, w) = w

module _ ⦃js : Js⦄ ⦃pg : Postgres⦄ where
  -- A handler that works on the tables alone.
  abbrev pub on_tables : (Db → Reply (Unit {0}) × Db) → World → Reply (Unit {0}) × World
  on_tables f w = let (r, db') = f w.db in (r, record w { db = db' })

  abbrev pub ends_with : Action (Unit {0}) → Db → Reply (Unit {0}) × Db
  ends_with m db = let (r, db') = m db in (ended r, db')

  unfoldable pub dispatch : EventKind → EngineEvent → World → Reply (Unit {0}) × World
  unfolding handle_order_accepted handle_order_rejected handle_order_filled handle_order_canceled
      handle_trade_executed handle_order_book_updated
  dispatch EventKind.order_accepted ev = on_tables (ends_with (handle_order_accepted ev))
  dispatch EventKind.order_rejected ev = on_tables (ends_with (handle_order_rejected ev))
  dispatch EventKind.order_filled ev = on_tables (ends_with (handle_order_filled ev))
  dispatch EventKind.order_canceled ev = on_tables (ends_with (handle_order_canceled ev))
  dispatch EventKind.trade_executed ev = on_tables (handle_trade_executed ev)
  dispatch EventKind.order_book_updated ev = handle_order_book_updated ev
  dispatch EventKind.other_kind ev = λ w. (ended (ok tt), w)

  unfoldable pub handle_message : EngineEvent → World → Reply (Unit {0}) × World
  unfolding dispatch
  handle_message ev w = dispatch ev.kind ev (mirrored (publish_engine_event ev w))

  -- `chain.then(() => handleMessage(raw)).catch(...)`: a failure is logged, and the next message is
  -- handled; behind a message that never ends, none is. The second component are that message
  -- and those behind it.
  unfoldable pub run_chain : List EngineEvent → World → World × List EngineEvent
  unfolding handle_message
  run_chain [] w = (w, [])
  run_chain (ev ∷ evs) w =
      let (r, w') = handle_message ev w in
      let rest = run_chain evs w' in elim r [ ended _ ↦ rest | waits ↦ (w', ev ∷ evs) ]
