-- ===== src/DbWriter/Tests.antt =====
-- Runs of the event handlers, and their theorems at the sample store.
use perpetual_futures_exchan.Prelude.{◌≡◌, refl, none, some, true, false, [], ◌∷◌, arith}
use perpetual_futures_exchan.Prelude.Int.{pos}
use perpetual_futures_exchan.Big.{Code}
use perpetual_futures_exchan.Decimal.{mul, gt}
use perpetual_futures_exchan.Store.{Db, Side, MarginMode, Position, PositionSide, PositionStatus}
use perpetual_futures_exchan.Store.Exact.{plain_js, exact_pg, exact_pg-IsPostgres}
use perpetual_futures_exchan.Store.Sample.{sample, resting, balance, half, n0, n1, n2, n3}
use perpetual_futures_exchan.Store.Monad.{◌>>◌}
use perpetual_futures_exchan.Balance.{balance_of, unlock_balance}
use perpetual_futures_exchan.Orders.{margin_for}
use perpetual_futures_exchan.DbWriter.{
  EngineEvent, EventKind, bare_event, handle_order_canceled, apply_trade_to_order,
  unlock_order_margin,
}
use perpetual_futures_exchan.DbWriter.Fills.{Applies, apply_trade_to_order-Applies}
use perpetual_futures_exchan.DbWriter.Positions.{PositionFill, fits_integer, upsert_position}
use perpetual_futures_exchan.DbWriter.Positions.Follow.{Upserts, upsert_position-Upserts}

abbrev canceled_event : EngineEvent
canceled_event = record (bare_event EventKind.order_canceled) { order_id = some 31 }

-- Four are locked, of which two are for another order. The first event releases two, and the second,
-- for the order that is canceled by then, two more.
abbrev four_locked : Db
four_locked = record sample { balances = balance 41 1 10 n3 (b'4' ∷ []) ∷ [] }

canceled_twice_run :
    balance_of 1 10
      ((handle_order_canceled canceled_event >> handle_order_canceled canceled_event) four_locked).1
    ≡ some (record (balance 41 1 10 (b'7' ∷ []) n0) { updated_at = 5 })
unfolding Code handle_order_canceled unlock_order_margin unlock_balance margin_for mul gt
canceled_twice_run = refl

apply_trade_to_order-Applies_example :
    Applies 31 half resting sample (apply_trade_to_order 31 half n2 sample)
unfolding Code
apply_trade_to_order-Applies_example =
    apply_trade_to_order-Applies 31 half n2 resting sample refl exact_pg-IsPostgres (omega arith)
      (omega arith) (omega arith) (ground arith) (ground arith)

abbrev holding : Position
holding = record {
  id = 60;
  user_id = 2;
  market_id = 20;
  side = PositionSide.long;
  quantity = n3;
  entry_price = n2;
  mark_price = n2;
  liquidation_price = n2;
  margin = n1;
  leverage = pos 1;
  margin_mode = MarginMode.isolated;
  realized_pnl = n0;
  status = PositionStatus.opened;
  opened_at = 0;
  closed_at = none;
}

abbrev held : Db
held = record sample { positions = holding ∷ [] }

abbrev sold : PositionFill
sold = record {
  market_id = 20;
  user_id = 2;
  order_id = 31;
  side = Side.sell;
  price = n2;
  quantity = half;
  leverage = n1;
  margin_mode = MarginMode.isolated;
}

reduced_run :
    (upsert_position sold held).1
    ≡ record held { positions = record holding { quantity = b'2' ∷ b'.' ∷ b'5' ∷ [] } ∷ [] }
unfolding Code upsert_position
reduced_run = refl

upsert_position-Upserts_example : Upserts sold holding held (upsert_position sold held)
unfolding Code
upsert_position-Upserts_example =
    upsert_position-Upserts exact_pg-IsPostgres sold holding held refl (omega arith) (omega arith)
      (ground arith) (ground arith)

fits_run : fits_integer (pos 2147483647) ≡ true
fits_run = refl

overflow_run : fits_integer (pos 2147483648) ≡ false
overflow_run = refl
