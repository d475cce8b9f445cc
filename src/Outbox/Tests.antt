-- ===== src/Outbox/Tests.antt =====
-- A run in which Redis is down for an order, and the theorems on it.
use perpetual_futures_exchan.Prelude.{◌≡◌, refl, false, some, none, arith}
use perpetual_futures_exchan.Big.{Code}
use perpetual_futures_exchan.Decimal.{mul, sub, add, gt, gte}
use perpetual_futures_exchan.Store.{Db, OrderType, Side}
use perpetual_futures_exchan.Store.Exact.{plain_js, exact_pg}
use perpetual_futures_exchan.Store.Sample.{sample, perp, n2, n3}
use perpetual_futures_exchan.Store.Monad.{err, redis_error}
use perpetual_futures_exchan.Orders.{
  PlaceOrderInput, submit_order, lock_margin, margin_for, insert_order, publish_order,
}
use perpetual_futures_exchan.Balance.{lock_balance}
use perpetual_futures_exchan.Outbox.{publish_outbox_batch}
use perpetual_futures_exchan.Outbox.Batch.{Publishes, publish_outbox_batch-Publishes}
use perpetual_futures_exchan.Outbox.Recovery.{recovered, Sends, refused_order-Sends}

abbrev buy : PlaceOrderInput
buy = record {
  user_id = 1;
  market = 500;
  side = Side.buy;
  order_type = OrderType.limit;
  price = some n3;
  quantity = n2;
  time_in_force = none;
  leverage = none;
  margin_mode = none;
  reduce_only = none;
  post_only = none;
  client_order_id = none;
}

abbrev down : Db
down = record sample { redis_up = false }

refused_run : submit_order buy perp down ≡ (err redis_error, (submit_order buy perp down).1)
unfolding Code submit_order lock_margin margin_for insert_order publish_order lock_balance mul sub
    add gt gte
refused_run = refl

refused_order-Sends_example :
    Sends buy down
      (submit_order buy perp down).1
      (publish_outbox_batch (recovered 9 (submit_order buy perp down).1))
unfolding Code submit_order lock_margin margin_for insert_order publish_order lock_balance mul sub
    add gt gte
refused_order-Sends_example =
    refused_order-Sends buy perp down (submit_order buy perp down).1 9 redis_error tt refl
      refused_run (ground arith) (tt, tt)

publish_outbox_batch-Publishes_example : Publishes (submit_order buy perp down).1
unfolding Code submit_order lock_margin margin_for insert_order publish_order lock_balance mul sub
    add gt gte
publish_outbox_batch-Publishes_example =
    publish_outbox_batch-Publishes (submit_order buy perp down).1 (tt, tt)
