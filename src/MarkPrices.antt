-- ===== src/MarkPrices.antt =====
-- Server/src/workers/markPriceUpdater.ts: reference prices become the mark prices of open positions.
-- What `redis.get` and `JSON.parse` give for a market's key is a parameter, `read`: `none` for no key,
-- for a text that does not parse, and for a value without the three fields at their types.
pub mod Fresh
mod Tests
use perpetual_futures_exchan.Prelude.{
  ℕ, ◌-◌, ltb, Bool, not, ◌&&◌, Option, none, some, List, [], ◌∷◌, ◌==◌, if◌then◌else◌,
}
use perpetual_futures_exchan.Big.{Js}
use perpetual_futures_exchan.Decimal.{DecStr, zero_text, gt}
use perpetual_futures_exchan.Store.{Db, Market, Position}
use perpetual_futures_exchan.Store.Rows.{first, where_, update_rows}
use perpetual_futures_exchan.Store.Monad.{Action, done, ◌>>=◌, ◌>>◌, gets, modify, catch_all}
use perpetual_futures_exchan.Store.Numeric.{Postgres}
use perpetual_futures_exchan.Balance.{write_column}
use perpetual_futures_exchan.Orders.{is_active}
use perpetual_futures_exchan.DbWriter.Positions.{is_live}

pub record MarkPriceData : Type 0 where
  pub price : DecStr
  pub timestamp : ℕ
  pub market : ℕ

abbrev pub is_marked : ℕ → Position → Bool
is_marked market_id p = is_live p.status && p.market_id == market_id

abbrev pub marked_at : DecStr → Position → Position
marked_at price p = record p { mark_price = price }

-- `age > MAX_STALENESS_MS`; an age below zero is none of these.
abbrev pub is_stale : ℕ → MarkPriceData → Bool
is_stale now entry = ltb 30000 (now - entry.timestamp)

abbrev pub is_empty : List Position → Bool
is_empty [] = Bool.true
is_empty (p ∷ rows) = Bool.false

module _ ⦃js : Js⦄ where
  abbrev pub parse_mark_price_data : Option MarkPriceData → Option MarkPriceData
  parse_mark_price_data none = none
  parse_mark_price_data (some entry) = if gt entry.price zero_text then some entry else none

module _ ⦃js : Js⦄ ⦃pg : Postgres⦄ where
  update_open : DecStr → ℕ → Action (Unit {0})
  update_open price market_id = do
    stored ← write_column price
    modify (λ db. record db {
      positions = update_rows (is_marked market_id) (marked_at stored) db.positions;
    })

  update_in : DecStr → Option Market → Action (Unit {0})
  unfolding update_open
  update_in price none = done
  update_in price (some market) = gets (λ db. where_ (is_marked market.id) db.positions) >>= λ rows.
      if is_empty rows then done else update_open price market.id

  -- An error of the database is logged, and no more.
  unfoldable pub update_mark_prices : DecStr → ℕ → Action (Unit {0})
  unfolding update_in
  update_mark_prices price market_symbol =
      if gt price zero_text
      then catch_all
          (gets (λ db. first (λ m. m.symbol == market_symbol) db.markets) >>= update_in price) done
      else done

  pub poll_entry : Option MarkPriceData → Action (Unit {0})
  unfolding update_mark_prices
  poll_entry none = done
  poll_entry (some entry) = gets (λ db. is_stale db.clock entry) >>= λ stale.
      if stale then done else update_mark_prices entry.price entry.market

  module _ (read : ℕ → Option MarkPriceData) where
    pub poll_each : List Market → Action (Unit {0})
    unfolding poll_entry
    poll_each [] = done
    poll_each (m ∷ rows) = poll_entry (parse_mark_price_data (read m.symbol)) >> poll_each rows

    -- One tick of the timer.
    unfoldable pub poll_mark_prices : Action (Unit {0})
    unfolding poll_each
    poll_mark_prices = gets (λ db. where_ (λ m. is_active m.status) db.markets) >>= poll_each
