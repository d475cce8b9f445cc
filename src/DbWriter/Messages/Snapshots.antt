-- ===== src/DbWriter/Messages/Snapshots.antt =====
-- Snapshots of the order book are read back.
use perpetual_futures_exchan.Prelude.{ℕ, ◌+◌, ◌<◌, ◌≤◌, ◌≡◌, ◌≢◌, true, some, [], take, arith}
use perpetual_futures_exchan.Big.{Js}
use perpetual_futures_exchan.Store.Monad.{ok}
use perpetual_futures_exchan.Store.Numeric.{Postgres}
use perpetual_futures_exchan.DbWriter.{EngineEvent}
use perpetual_futures_exchan.DbWriter.Messages.{
  World, levels_of, book_of, set_book, handle_order_book_updated, get_orderbook_from_redis,
}

abbrev at_time : ℕ → World → World
at_time now w = record w { db = record w.db { clock = now } }

-- A snapshot that is read at `now`.
abbrev pub ReadsBack : EngineEvent → ℕ → (depth now : ℕ) → (before after : World) → Type 0
ReadsBack ev market depth now before after =
    (now < before.db.clock + 300000
      → get_orderbook_from_redis market depth (at_time now after)
        ≡ ok (record {
          bids = take depth (levels_of ev.bids);
          asks = take depth (levels_of ev.asks);
        }))
    × (before.db.clock + 300000 ≤ now
        → get_orderbook_from_redis market depth (at_time now after)
          ≡ ok (record { bids = []; asks = [] }))
    × ((other : ℕ)
        → other ≢ market
        → get_orderbook_from_redis other depth (at_time now after)
          ≡ get_orderbook_from_redis other depth (at_time now before))

module _ ⦃js : Js⦄ ⦃pg : Postgres⦄ where
  stored :
      (ev : EngineEvent) (market : ℕ) (w : World)
      → ev.market ≡ some market
      → w.db.redis_up ≡ true
      → (handle_order_book_updated ev w).1 ≡ set_book market (book_of ev w.db.clock) w
  unfolding handle_order_book_updated
  stored ev market w e up = rw (e, up)

  -- A snapshot of a market's order book, once ORDER_BOOK_UPDATED has stored it, is read back up to the
  -- depth asked for until 300 seconds have passed, and no level is read from then on. Other markets'
  -- snapshots are read as before. Redis takes the snapshot.
  pub handle_order_book_updated-ReadsBack :
      (ev : EngineEvent) (market depth now : ℕ) (w : World)
      → ev.market ≡ some market
      → w.db.redis_up ≡ true
      → ReadsBack ev market depth now w (handle_order_book_updated ev w).1
  unfolding get_orderbook_from_redis
  handle_order_book_updated-ReadsBack ev market depth now w e up =
      rw (stored ev market w e up)
        ((λ lt. ground arith), (λ le. ground arith), λ other ne. ground arith)
