-- ===== src/MarketMaker.antt =====
-- market_maker/src/index.ts, the class MarketMaker, with handleMessage of binance/binanceFeed.ts, which
-- calls it back: which prices come in, when quoting starts, and how the process shuts down. What
-- runs between two `await`s is one event, but that the quote of one market, and the cancelling of one
-- market's orders, which await once for each order, are one event each: how those interleave within
-- a market is not modelled. The events come in any order that the program allows.
pub mod Cases
pub mod Shutdown
pub mod Rounds
mod Tests
use perpetual_futures_exchan.Prelude.{
  ℕ, zero, suc, ◌+◌, ◌-◌, ltb, Bool, true, false, not, ◌&&◌, Option, none, some, List, [], ◌∷◌,
  ◌++◌, map, ◌==◌, if◌then◌else◌,
}
use perpetual_futures_exchan.Text.{Text}
use perpetual_futures_exchan.Orders.{or_else}
use perpetual_futures_exchan.MakerState.{State, Startup, MarketState, Maker}
use perpetual_futures_exchan.BinanceFeed.{
  Feed, FeedKind, FeedMessage, is_price_stale_for, is_price_kind, symbol_of, note_price,
}

abbrev pub set_price : ℕ → Text → MarketState → MarketState
set_price market price s = if s.market == market then record s { current_price = some price } else s

-- The older callback: if there is one market, and it has no price.
abbrev pub first_price : Text → List MarketState → List MarketState
first_price price [] = []
first_price price (s ∷ []) = record s { current_price = some (or_else s.current_price price) } ∷ []
first_price price (s ∷ t ∷ rest) = s ∷ t ∷ rest

pub data Event : Type 0 where
  start health_started markets_loaded check_price tick : Event
  quote_next : ℕ → Event
  feed_message : FeedMessage → Event
  socket_open socket_closed signal cancel_next shutdown_done : Event
  time_passes : ℕ → Event

abbrev pub has_price : Option Text → Bool
has_price none = false
has_price (some p) = true

-- The n-th of the running rounds does its next market, if it has one.
abbrev pub next_of : ℕ → List (List ℕ) → Option ℕ
next_of n [] = none
next_of zero ([] ∷ rounds) = none
next_of zero ((m ∷ ms) ∷ rounds) = some m
next_of (suc n) (r ∷ rounds) = next_of n rounds

abbrev pub advance : ℕ → List (List ℕ) → List (List ℕ)
advance n [] = []
advance zero ([] ∷ rounds) = rounds
advance zero ((m ∷ ms) ∷ rounds) = ms ∷ rounds
advance (suc n) (r ∷ rounds) = r ∷ advance n rounds

abbrev pub is_quoting : State → Bool
is_quoting State.quoting = true
is_quoting _ = false

abbrev pub without : ℕ → List ℕ → List ℕ
without m [] = []
without m (x ∷ xs) = let rest = without m xs in if x == m then rest else x ∷ rest

abbrev pub begin_shutdown : Maker → Maker
begin_shutdown mk = record mk {
  is_shutting_down = true;
  state = State.stopping;
  quote_interval = false;
  to_cancel = map (λ (s : MarketState). s.market) mk.markets;
}

abbrev pub start_step : Startup → Maker → Maker
start_step Startup.not_started mk = record mk {
  state = State.connecting;
  startup = Startup.awaiting_health;
}
start_step _ mk = mk

abbrev pub health_step : Startup → Maker → Maker
health_step Startup.awaiting_health mk = record mk {
  state = State.ready;
  startup = Startup.loading;
}
health_step _ mk = mk

abbrev pub cancel_step : List ℕ → Maker → Maker
cancel_step [] mk = mk
cancel_step (m ∷ ms) mk = record mk { to_cancel = ms; live = without m mk.live }

abbrev pub done_step : List ℕ → Maker → Maker
done_step [] mk =
    if mk.is_shutting_down
    then record mk { state = State.stopped; feed = record mk.feed { is_running = false } }
    else mk
done_step (m ∷ ms) mk = mk

-- `binance_to_market` is binanceToMarket, which compares texts; `is_positive` is `parseFloat(p) > 0`.
module _ (binance_to_market : ℕ → Option ℕ) (is_positive : Text → Bool) (only : Option ℕ)
    (price_stale_ms : ℕ) where
  abbrev pub price_by_symbol : Option ℕ → Text → List MarketState → List MarketState
  price_by_symbol none price rows = rows
  price_by_symbol (some s) price rows = elim (binance_to_market s) [
    | none ↦ rows
    | some m ↦ map (set_price m price) rows
  ]

  -- `priceCallback`, then `symbolPriceCallback`.
  abbrev pub take_price : FeedMessage → Text → Maker → Maker
  take_price m price mk = record mk {
    feed = note_price (symbol_of only m) (or_else m.time mk.clock) mk.feed;
    markets = price_by_symbol (symbol_of only m) price (first_price price mk.markets);
  }

  unfoldable pub handle_feed_message : FeedMessage → Maker → Maker
  handle_feed_message m mk = elim m.price [
    | none ↦ mk
    | some price ↦ if is_price_kind m.kind && is_positive price then take_price m price mk else mk
  ]

  abbrev pub is_fresh : Maker → MarketState → Bool
  is_fresh mk s =
      has_price s.current_price
      && not (is_price_stale_for price_stale_ms mk.clock s.binance_symbol mk.feed)

  abbrev pub any_fresh : Maker → List MarketState → Bool
  any_fresh mk [] = false
  any_fresh mk (s ∷ rows) = if is_fresh mk s then true else any_fresh mk rows

  -- `checkPrice`, and `startQuoteLoop` once a price is fresh.
  unfoldable pub check : Maker → Maker
  check mk =
      if mk.is_shutting_down
      then record mk { startup = Startup.finished }
      else (if any_fresh mk mk.markets
          then record mk {
            state = State.quoting;
            quote_interval = true;
            startup = Startup.finished;
          }
          else mk)

  -- One market of a round: it has a price and is loaded, and the price is fresh.
  abbrev pub can_quote : ℕ → Maker → List MarketState → Bool
  can_quote market mk [] = false
  can_quote market mk (s ∷ rows) =
      if s.market == market then is_fresh mk s && s.has_info else can_quote market mk rows

  abbrev pub quote : ℕ → Maker → Maker
  quote market mk =
      if can_quote market mk mk.markets
      then record mk { live = market ∷ mk.live; sent = suc mk.sent }
      else mk

  -- `binanceFeed.start()`, and the first look at the prices.
  unfoldable pub loaded_step : Startup → Maker → Maker
  unfolding check
  loaded_step Startup.loading mk = check (record mk {
    markets = map (λ (s : MarketState). record s { has_info = true }) mk.markets;
    feed = record mk.feed { is_running = true };
    startup = Startup.waiting;
  })
  loaded_step _ mk = mk

  unfoldable pub check_step : Startup → Maker → Maker
  unfolding check
  check_step Startup.waiting mk = check mk
  check_step _ mk = mk

  abbrev pub quote_step : Option ℕ → Maker → Maker
  quote_step none mk = mk
  quote_step (some m) mk = quote m mk

  unfoldable pub step : Event → Maker → Maker
  unfolding loaded_step check_step handle_feed_message
  step Event.start mk = start_step mk.startup mk
  step Event.health_started mk = health_step mk.startup mk
  step Event.markets_loaded mk = loaded_step mk.startup mk
  step Event.check_price mk = check_step mk.startup mk
  step Event.tick mk =
      if mk.quote_interval && not mk.is_shutting_down && is_quoting mk.state
      then record mk { cycles = mk.cycles ++ (map (λ (s : MarketState). s.market) mk.markets ∷ []) }
      else mk
  step (Event.quote_next n) mk =
      quote_step (next_of n mk.cycles) (record mk { cycles = advance n mk.cycles })
  step (Event.feed_message m) mk = handle_feed_message m mk
  step Event.socket_open mk = record mk { feed = record mk.feed { reconnect_attempts = 0 } }
  step Event.socket_closed mk =
      if mk.feed.is_running
      then record mk {
        feed = record mk.feed { reconnect_attempts = suc mk.feed.reconnect_attempts };
      }
      else mk
  step Event.signal mk = if mk.is_shutting_down then mk else begin_shutdown mk
  step Event.cancel_next mk = cancel_step mk.to_cancel mk
  step Event.shutdown_done mk = done_step mk.to_cancel mk
  step (Event.time_passes ms) mk = record mk { clock = ms + mk.clock }

  unfoldable pub run : List Event → Maker → Maker
  unfolding step
  run [] mk = mk
  run (e ∷ es) mk = run es (step e mk)
