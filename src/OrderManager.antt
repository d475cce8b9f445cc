-- ===== src/OrderManager.antt =====
-- market_maker/src/orders/orderManager.ts: the market maker's orders at the exchange, placed and
-- cancelled over HTTP. A Map is the list of its entries, in insertion order.
pub mod Reconcile
pub mod Tracking
mod Tests
use perpetual_futures_exchan.Prelude.{
  ℕ, suc, Bool, true, false, ◌||◌, Option, none, some, List, [], ◌∷◌, ◌++◌, if◌then◌else◌, map,
}
use perpetual_futures_exchan.Text.{Text}
use perpetual_futures_exchan.Store.{Side}
use perpetual_futures_exchan.Orders.{or_else}
use perpetual_futures_exchan.Injector.{Level, Quote, same_text, wants}

-- An order as the exchange's HTTP interface gives it: the fields that are read.
pub record ClientOrder : Type 0 where
  pub id : ℕ
  pub price : Option Text
  pub quantity : Text
  pub side : Side
  pub client_order_id : Option ℕ

pub record ActiveOrder : Type 0 where
  pub id : ℕ
  pub price : Text
  pub quantity : Text
  pub side : Side
  pub client_order_id : ℕ

-- What the exchange answers to the n-th call: the open orders, or a placed order; `none` is an
-- exception. Whether a cancel succeeds makes no difference here, so it is only counted as a call.
pub record Client : Type 0 where
  pub get_open_orders : ℕ → Option (List ClientOrder)
  pub place_limit_order : ℕ → Side → Level → Option ClientOrder

-- A price and its order.
pub record Entry : Type 0 where
  pub key : Text
  pub order : ActiveOrder

pub record OrderManager : Type 0 where
  pub active_bids : List Entry
  pub active_asks : List Entry
  pub is_reconciling : Bool
  pub calls : ℕ

abbrev pub has : List Entry → Text → Bool
has [] key = false
has (e ∷ es) key = if same_text e.key key then true else has es key

-- `Map.set`: an entry there keeps its place.
unfoldable pub set_entry : Text → ActiveOrder → List Entry → List Entry
set_entry key order [] = record { key = key; order = order } ∷ []
set_entry key order (e ∷ es) =
    let rest = set_entry key order es in
    if same_text e.key key then record { key = e.key; order = order } ∷ es else e ∷ rest

abbrev pub price_text : ClientOrder → Text
price_text o = or_else o.price []

abbrev pub active_of : Side → ClientOrder → ActiveOrder
active_of side o = record {
  id = o.id;
  price = price_text o;
  quantity = o.quantity;
  side = side;
  client_order_id = or_else o.client_order_id o.id;
}

abbrev pub track_on : Side → ClientOrder → OrderManager → OrderManager
track_on Side.buy o m = record m {
  active_bids = set_entry (price_text o) (active_of o.side o) m.active_bids;
}
track_on Side.sell o m = record m {
  active_asks = set_entry (price_text o) (active_of o.side o) m.active_asks;
}

-- The loop of `reconcile`.
unfoldable pub track : List ClientOrder → OrderManager → OrderManager
unfolding set_entry
track [] m = m
track (o ∷ os) m = track os (track_on o.side o m)

module _ (client : Client) where
  reconciled : Option (List ClientOrder) → OrderManager → Bool × OrderManager
  unfolding track
  reconciled none m = (false, record m { is_reconciling = false })
  reconciled (some os) m = (
    true,
    record (track os (record m { active_bids = []; active_asks = [] })) { is_reconciling = false },
  )

  -- Whether it returned, and did not throw.
  unfoldable pub reconcile : OrderManager → Bool × OrderManager
  unfolding reconciled
  reconcile m =
      if m.is_reconciling
      then (true, m)
      else reconciled (client.get_open_orders m.calls)
          (record m { is_reconciling = true; calls = suc m.calls })

  -- A failed cancel is logged: the entry goes in any case.
  unfoldable pub cancel_stale : List Level → List Entry → ℕ → List Entry × ℕ
  cancel_stale desired [] calls = ([], calls)
  cancel_stale desired (e ∷ es) calls =
      let kept = cancel_stale desired es calls in
      let dropped = cancel_stale desired es (suc calls) in
      if wants desired e.key then (e ∷ kept.0, kept.1) else dropped

  abbrev pub recorded : Side → Level → Option ClientOrder → List Entry → List Entry
  recorded side level none es = es
  recorded side level (some o) es = set_entry level.price (active_of side o) es

  unfoldable pub place_missing : Side → List Level → List Entry → ℕ → List Entry × ℕ
  unfolding set_entry
  place_missing side [] es calls = (es, calls)
  place_missing side (b ∷ bs) es calls =
      let placed =
        place_missing side bs (recorded side b (client.place_limit_order calls side b) es)
          (suc calls) in
      let skipped = place_missing side bs es calls in if has es b.price then skipped else placed

  unfoldable pub update_quotes : Quote → OrderManager → OrderManager
  unfolding cancel_stale place_missing
  update_quotes quote m =
      let bids = cancel_stale quote.bids m.active_bids m.calls in
      let asks = cancel_stale quote.asks m.active_asks bids.1 in
      let bids' = place_missing Side.buy quote.bids bids.0 asks.1 in
      let asks' = place_missing Side.sell quote.asks asks.0 bids'.1 in
      record m { active_bids = bids'.0; active_asks = asks'.0; calls = asks'.1 }

  unfoldable pub cancel_calls : List Entry → ℕ → ℕ
  cancel_calls [] calls = calls
  cancel_calls (e ∷ es) calls = cancel_calls es (suc calls)

  unfoldable pub cancel_all : OrderManager → OrderManager
  unfolding cancel_calls
  cancel_all m = record m {
    active_bids = [];
    active_asks = [];
    calls = cancel_calls (m.active_bids ++ m.active_asks) m.calls;
  }

unfoldable pub get_active_bids : OrderManager → List ActiveOrder
get_active_bids m = map (λ e. e.order) m.active_bids

unfoldable pub get_active_asks : OrderManager → List ActiveOrder
get_active_asks m = map (λ e. e.order) m.active_asks

abbrev pub some_entry : List Entry → Bool
some_entry [] = false
some_entry (e ∷ es) = true

unfoldable pub has_active_orders : OrderManager → Bool
has_active_orders m = some_entry m.active_bids || some_entry m.active_asks
