-- ===== src/MarkPrices/Tests.antt =====
-- A tick of the updater at a store with one open position.
use perpetual_futures_exchan.Prelude.{
  ℕ, ◌≡◌, refl, none, some, Option, [], ◌∷◌, ◌==◌, if◌then◌else◌,
}
use perpetual_futures_exchan.Prelude.Int.{pos}
use perpetual_futures_exchan.Big.{Code}
use perpetual_futures_exchan.Decimal.{gt}
use perpetual_futures_exchan.Store.{Db, MarginMode, Position, PositionSide, PositionStatus}
use perpetual_futures_exchan.Store.Exact.{plain_js, exact_pg}
use perpetual_futures_exchan.Store.Sample.{sample, n0, n1, n2, n3, n9}
use perpetual_futures_exchan.MarkPrices.{MarkPriceData, poll_mark_prices}
use perpetual_futures_exchan.MarkPrices.Fresh.{Marks, poll_mark_prices-Marks}

abbrev shorted : Position
shorted = record {
  id = 61;
  user_id = 2;
  market_id = 20;
  side = PositionSide.short;
  quantity = n3;
  entry_price = n2;
  mark_price = n2;
  liquidation_price = n2;
  margin = n1;
  leverage = pos 1;
  margin_mode = MarginMode.isolated;
  realized_pnl = n0;
  status = PositionStatus.opened;
  opened_at = 0;
  closed_at = none;
}

abbrev with_short : ℕ → Db
with_short now = record sample { positions = shorted ∷ []; clock = now }

abbrev prices : ℕ → Option MarkPriceData
prices key = if key == 500 then some (record { price = n9; timestamp = 7; market = 500 }) else none

marks_run :
    (poll_mark_prices prices (with_short 30007)).1
    ≡ record (with_short 30007) { positions = record shorted { mark_price = n9 } ∷ [] }
unfolding Code poll_mark_prices gt
marks_run = refl

-- A millisecond later the price is stale.
stale_run : (poll_mark_prices prices (with_short 30008)).1 ≡ with_short 30008
unfolding Code poll_mark_prices gt
stale_run = refl

poll_mark_prices-Marks_example :
    Marks prices (with_short 30007) (poll_mark_prices prices (with_short 30007))
poll_mark_prices-Marks_example = poll_mark_prices-Marks prices (with_short 30007)
