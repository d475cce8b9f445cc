-- ===== src/Store/Sample.antt =====
-- A small store for the tests: two users, two assets, one market.
use perpetual_futures_exchan.Prelude.{ℕ, true, none, some, [], ◌∷◌}
use perpetual_futures_exchan.Decimal.{DecStr}
use perpetual_futures_exchan.Store.{
  Db, Asset, AssetType, Market, MarketStatus, Balance, Order, OrderType, OrderStatus, Side,
  TimeInForce, MarginMode,
}

abbrev pub n0 : DecStr
n0 = b'0' ∷ []

abbrev pub n1 : DecStr
n1 = b'1' ∷ []

abbrev pub n2 : DecStr
n2 = b'2' ∷ []

abbrev pub n3 : DecStr
n3 = b'3' ∷ []

abbrev pub n9 : DecStr
n9 = b'9' ∷ []

-- "0.5"
abbrev pub half : DecStr
half = b'0' ∷ b'.' ∷ b'5' ∷ []

abbrev pub balance : (id user asset : ℕ) (available locked : DecStr) → Balance
balance id user asset available locked = record {
  id = id;
  user_id = user;
  asset_id = asset;
  available_balance = available;
  locked_balance = locked;
  updated_at = 0;
}

abbrev pub coin : (id symbol : ℕ) → Asset
coin id symbol = record {
  id = id;
  symbol = symbol;
  name = symbol;
  asset_type = AssetType.crypto;
  precision = 8;
  min_withdraw = n0;
  is_collateral = true;
  created_at = 0;
}

-- BTC against USDT.
abbrev pub perp : Market
perp = record {
  id = 20;
  symbol = 500;
  base_asset_id = 11;
  quote_asset_id = 10;
  status = MarketStatus.active;
  tick_size = n1;
  step_size = half;
  min_order_size = half;
  max_order_size = n9;
  max_leverage = n9;
  maker_fee_bps = n2;
  initial_margin_rate = half;
  maintenance_margin_rate = half;
  funding_interval_hours = 8;
  created_at = 0;
  taker_fee_bps = n3;
}

abbrev pub resting : Order
resting = record {
  id = 31;
  user_id = 1;
  market_id = 20;
  client_order_id = some 77;
  order_type = OrderType.limit;
  side = Side.buy;
  price = some n2;
  quantity = n1;
  filled_quantity = n0;
  status = OrderStatus.opened;
  reduce_only = true;
  post_only = true;
  time_in_force = TimeInForce.gtc;
  leverage = n1;
  margin_mode = MarginMode.isolated;
  created_at = 0;
  updated_at = 0;
  executed_at = none;
}

abbrev pub sample : Db
sample = record {
  assets = coin 10 400 ∷ coin 11 401 ∷ [];
  markets = perp ∷ [];
  balances = balance 41 1 10 n9 n2 ∷ balance 42 2 10 n9 n0 ∷ balance 43 2 11 n3 n1 ∷ [];
  orders = resting ∷ [];
  fills = [];
  positions = [];
  outbox = [];
  commands = [];
  redis_up = true;
  next_id = 100;
  clock = 5;
}
