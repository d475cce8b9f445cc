-- ===== src/Positions/Tests.antt =====
-- Closing the one position of the sample store.
use perpetual_futures_exchan.Prelude.{◌≡◌, refl, none, [], ◌∷◌}
use perpetual_futures_exchan.Prelude.Int.{pos}
use perpetual_futures_exchan.Store.{Db, MarginMode, Position, PositionSide, PositionStatus}
use perpetual_futures_exchan.Big.{Code}
use perpetual_futures_exchan.Store.Exact.{plain_js, exact_pg, exact_pg-IsPostgres}
use perpetual_futures_exchan.Store.Sample.{sample, n0, n1, n2, n3}
use perpetual_futures_exchan.Prelude.{length}
use perpetual_futures_exchan.Store.Monad.{◌>>◌}
use perpetual_futures_exchan.Positions.{close_position}
use perpetual_futures_exchan.Positions.Close.{Closes, close_position-Closes}

abbrev longed : Position
longed = record {
  id = 62;
  user_id = 2;
  market_id = 20;
  side = PositionSide.long;
  quantity = n3;
  entry_price = n2;
  mark_price = n2;
  liquidation_price = n2;
  margin = n1;
  leverage = pos 1;
  margin_mode = MarginMode.isolated;
  realized_pnl = n0;
  status = PositionStatus.opened;
  opened_at = 0;
  closed_at = none;
}

abbrev with_long : Db
with_long = record sample { positions = longed ∷ [] }

-- Two calls send two orders for the one position.
closed_twice_run : length ((close_position 62 2 >> close_position 62 2) with_long).1.commands ≡ 2
unfolding Code close_position
closed_twice_run = refl

close_position-Closes_example : Closes 62 2 with_long (close_position 62 2 with_long)
close_position-Closes_example = close_position-Closes exact_pg-IsPostgres 62 2 with_long
