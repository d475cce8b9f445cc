-- ===== src/OrderManager/Tests.antt =====
-- A manager with one bid, at an exchange that refuses new orders and knows one open order.
use perpetual_futures_exchan.Prelude.{◌≡◌, refl, true, false, none, some, [], ◌∷◌}
use perpetual_futures_exchan.Store.{Side}
use perpetual_futures_exchan.Store.Sample.{n1, n2, n3, n9}
use perpetual_futures_exchan.Injector.{Quote}
use perpetual_futures_exchan.OrderManager.{
  ActiveOrder, Client, ClientOrder, OrderManager, reconcile, update_quotes, has,
}
use perpetual_futures_exchan.OrderManager.Tracking.{KeysWanted, update_quotes-KeysWanted}
use perpetual_futures_exchan.OrderManager.Reconcile.{Reconciles, reconcile-Reconciles, entry_at}

abbrev open_bid : ClientOrder
open_bid = record {
  id = 3;
  price = some n2;
  quantity = n1;
  side = Side.buy;
  client_order_id = none;
}

abbrev exchange : Client
exchange = record { get_open_orders = λ n. some (open_bid ∷ []); place_limit_order = λ n s b. none }

abbrev stale_bid : ActiveOrder
stale_bid = record { id = 1; price = n3; quantity = n1; side = Side.buy; client_order_id = 1 }

abbrev manager : OrderManager
manager = record {
  active_bids = record { key = n3; order = stale_bid } ∷ [];
  active_asks = [];
  is_reconciling = false;
  calls = 0;
}

abbrev desired : Quote
desired = record {
  bids = record { price = n2; quantity = n1 } ∷ [];
  asks = record { price = n9; quantity = n1 } ∷ [];
}

-- The stale bid at another price is forgotten.
forgotten_run : entry_at n3 (reconcile exchange manager).1.active_bids ≡ none
unfolding reconcile
forgotten_run = refl

reconcile_run : has (reconcile exchange manager).1.active_bids n2 ≡ true
unfolding reconcile
reconcile_run = refl

reconcile-Reconciles_example :
    (manager.is_reconciling ≡ true → reconcile exchange manager ≡ (true, manager))
    × (manager.is_reconciling ≡ false
        → Reconciles exchange manager (some (open_bid ∷ [])) (reconcile exchange manager))
reconcile-Reconciles_example = reconcile-Reconciles exchange manager

update_quotes-KeysWanted_example :
    KeysWanted desired.bids (update_quotes exchange desired manager).active_bids
    × KeysWanted desired.asks (update_quotes exchange desired manager).active_asks
update_quotes-KeysWanted_example = update_quotes-KeysWanted exchange desired manager
