-- ===== src/Orders/Tests.antt =====
-- Runs of the order service, and its theorems at the sample store.
use perpetual_futures_exchan.Prelude.{◌≡◌, ◌↔◌, refl, true, false, some, none, arith}
use perpetual_futures_exchan.Big.{Code}
use perpetual_futures_exchan.Decimal.{mul, sub, add, gt, gte, lt, lte}
use perpetual_futures_exchan.Store.{Order, OrderType, Side}
use perpetual_futures_exchan.Store.Exact.{plain_js, exact_pg}
use perpetual_futures_exchan.Store.Sample.{sample, perp, resting, n2, n3}
use perpetual_futures_exchan.Store.Monad.{ok, err, order_not_cancellable}
use perpetual_futures_exchan.Orders.{
  PlaceOrderInput, check_order, submit_order, place_order, lock_margin, margin_for, insert_order,
  publish_order,
}
use perpetual_futures_exchan.Balance.{lock_balance}
use perpetual_futures_exchan.Orders.Cancel.{cancel_order, cancel_all_open_orders}
use perpetual_futures_exchan.Orders.Canceled.{Cancels, cancel_order-Cancels, cancel_order_again}
use perpetual_futures_exchan.Orders.Place.{Acceptable, Fits, check_order-iff-Acceptable}
use perpetual_futures_exchan.Orders.Submit.{Submits, submit_order-Submits}
use perpetual_futures_exchan.Orders.Idempotent.{place_order_again}

abbrev request : PlaceOrderInput
request = record {
  user_id = 1;
  market = 500;
  side = Side.buy;
  order_type = OrderType.limit;
  price = some n3;
  quantity = n2;
  time_in_force = none;
  leverage = none;
  margin_mode = none;
  reduce_only = none;
  post_only = none;
  client_order_id = some 9;
}

request-Fits : Fits 8 request perp
unfolding Code
request-Fits = record {
  quantity = omega arith;
  smallest = omega arith;
  largest = omega arith;
  price = λ p e. ground arith;
  leverage = omega arith;
  max_leverage = omega arith;
}

check_order-iff-Acceptable_example :
    (check_order request perp sample ≡ (ok tt, sample)) ↔ Acceptable 8 request perp
check_order-iff-Acceptable_example = check_order-iff-Acceptable 8 request perp sample request-Fits

submit_order-Submits_example : Submits request sample (submit_order request perp sample)
submit_order-Submits_example = submit_order-Submits request perp sample tt

abbrev placed : Order
placed = record resting {
  id = 100;
  client_order_id = some 9;
  price = some n3;
  quantity = n2;
  reduce_only = false;
  post_only = false;
  created_at = 5;
  updated_at = 5;
}

place_run : place_order request sample ≡ (ok (placed, false), (place_order request sample).1)
unfolding Code place_order check_order submit_order lock_margin margin_for insert_order
    publish_order lock_balance mul sub add gt gte lt lte
place_run = refl

place_order_again_example :
    place_order request (place_order request sample).1
    ≡ (ok (placed, true), (place_order request sample).1)
place_order_again_example =
    place_order_again request 9 sample (place_order request sample).1 placed false refl tt place_run

cancel_order-Cancels_example : Cancels 31 1 sample (cancel_order 31 1 sample)
cancel_order-Cancels_example = cancel_order-Cancels 31 1 sample

cancel_run : cancel_order 31 1 sample ≡ (ok tt, (cancel_order 31 1 sample).1)
unfolding cancel_order
cancel_run = refl

cancel_order_again_example :
    cancel_order 31 1 (cancel_order 31 1 sample).1
    ≡ (err order_not_cancellable, (cancel_order 31 1 sample).1)
cancel_order_again_example = cancel_order_again 31 1 sample (cancel_order 31 1 sample).1 cancel_run

cancel_all_run : (cancel_all_open_orders 1 (some 500) sample).0 ≡ ok 1
unfolding cancel_all_open_orders
cancel_all_run = refl
