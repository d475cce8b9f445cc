-- ===== src/MakerState.antt =====
-- market_maker/src/index.ts: the state of the class MarketMaker, as its constructor leaves it.
use perpetual_futures_exchan.Prelude.{ℕ, Bool, false, Option, none, List, [], map}
use perpetual_futures_exchan.Text.{Text}
use perpetual_futures_exchan.BinanceFeed.{Feed}

pub data State : Type 0 where
  starting connecting ready quoting paused reconnecting stopping stopped : State

-- How far `start` has come: it awaits the health server, then the markets, then looks for a price
-- once a second.
pub data Startup : Type 0 where
  not_started awaiting_health loading waiting finished : Startup

pub record MarketState : Type 0 where
  pub market : ℕ
  pub binance_symbol : ℕ
  pub current_price : Option Text
  pub has_info : Bool

-- `cycles` are the markets that running rounds of the quote loop have still to do, `to_cancel` those
-- that `shutdown` has; `sent` counts the quotes that went out.
pub record Maker : Type 0 where
  pub state : State
  pub startup : Startup
  pub is_shutting_down : Bool
  pub quote_interval : Bool
  pub markets : List MarketState
  pub feed : Feed
  pub cycles : List (List ℕ)
  pub to_cancel : List ℕ
  pub live : List ℕ
  pub sent : ℕ
  pub clock : ℕ

abbrev pub watched : ℕ × ℕ → MarketState
watched (m, symbol) = record {
  market = m;
  binance_symbol = symbol;
  current_price = none;
  has_info = false;
}

-- The constructor, of the markets with their symbols.
abbrev pub opened : List (ℕ × ℕ) → ℕ → Maker
opened rows clock = record {
  state = State.starting;
  startup = Startup.not_started;
  is_shutting_down = false;
  quote_interval = false;
  markets = map watched rows;
  feed = record {
    last_price_update = 0;
    per_symbol_last_update = [];
    is_running = false;
    reconnect_attempts = 0;
  };
  cycles = [];
  to_cancel = [];
  live = [];
  sent = 0;
  clock = clock;
}
