-- ===== src/MarketMaker/Tests.antt =====
-- Runs of the market maker.
use perpetual_futures_exchan.Prelude.{
  ℕ, ◌+◌, ◌==◌, if◌then◌else◌, Bool, true, false, Option, none, some, List, [], ◌∷◌, ◌≡◌, refl,
}
use perpetual_futures_exchan.Text.{Text}
use perpetual_futures_exchan.BinanceFeed.{FeedKind, reconnect_delay}
use perpetual_futures_exchan.MakerState.{opened, Maker, State}
use perpetual_futures_exchan.MarketMaker.{
  Event, step, run, loaded_step, check_step, check, handle_feed_message,
}
use perpetual_futures_exchan.MarketMaker.Shutdown.{IsSound, run-Sound}
use perpetual_futures_exchan.MarketMaker.Rounds.{Winds, still_to_do, run-Winds_down}

-- A process of two markets, as the constructor leaves it.
abbrev markets : List (ℕ × ℕ)
markets = (1, 101) ∷ (2, 102) ∷ []

abbrev fresh : Maker
fresh = opened markets 1000

abbrev to_market : ℕ → Option ℕ
to_market s = if s == 101 then some 1 else (if s == 102 then some 2 else none)

abbrev is_positive : Text → Bool
is_positive [] = false
is_positive (c ∷ cs) = true

abbrev price_of : ℕ → Event
price_of symbol = Event.feed_message (record {
  kind = FeedKind.trade;
  price = some (53 ∷ []);
  time = none;
  symbol = some symbol;
  stream = none;
})

abbrev played : List Event → Maker → Maker
played es mk = run to_market is_positive none 5000 es mk

abbrev opening : List Event
opening =
    Event.start
    ∷ Event.health_started
    ∷ Event.markets_loaded
    ∷ Event.socket_open
    ∷ price_of 101
    ∷ price_of 102
    ∷ Event.check_price
    ∷ Event.tick
    ∷ []

abbrev quoting : Maker
quoting = played opening fresh

opening_run : quoting.state ≡ State.quoting
unfolding run step loaded_step check_step check handle_feed_message
opening_run = refl

quotes_run : (played (Event.quote_next 0 ∷ Event.quote_next 0 ∷ []) quoting).live ≡ 2 ∷ 1 ∷ []
unfolding run step loaded_step check_step check handle_feed_message
quotes_run = refl

-- A price older than the bound is not quoted.
stale_run : (played (Event.time_passes 5001 ∷ Event.quote_next 0 ∷ []) quoting).live ≡ []
unfolding run step loaded_step check_step check handle_feed_message
stale_run = refl

-- The round that runs when the signal comes still sends a quote when the cancelling is done.
abbrev closing : List Event
closing =
    Event.quote_next 0
    ∷ Event.signal
    ∷ Event.cancel_next
    ∷ Event.cancel_next
    ∷ Event.quote_next 0
    ∷ Event.shutdown_done
    ∷ []

closing_state : (played closing quoting).state ≡ State.stopped
unfolding run step loaded_step check_step check handle_feed_message
closing_state = refl

closing_live : (played closing quoting).live ≡ 2 ∷ []
unfolding run step loaded_step check_step check handle_feed_message
closing_live = refl

-- A signal while the markets are being loaded: the process says it is ready.
early_run :
    (played (Event.start ∷ Event.signal ∷ Event.health_started ∷ []) fresh).state ≡ State.ready
unfolding run step loaded_step check_step check handle_feed_message
early_run = refl

delay_run : reconnect_delay 9 ≡ 30000
delay_run = refl

run-Sound_example : IsSound (run to_market is_positive none 5000 opening (opened markets 1000))
run-Sound_example = run-Sound to_market is_positive none 5000 opening markets 1000

abbrev signaled : Maker
signaled = step to_market is_positive none 5000 Event.signal quoting

signaled_down : signaled.is_shutting_down ≡ true
unfolding run step loaded_step check_step check handle_feed_message
signaled_down = refl

run-Winds_down_example :
    Winds
      (signaled.sent + still_to_do signaled.cycles)
      (run to_market is_positive none 5000 (Event.quote_next 0 ∷ Event.tick ∷ []) signaled)
run-Winds_down_example =
    run-Winds_down to_market is_positive none 5000 (Event.quote_next 0 ∷ Event.tick ∷ []) signaled
      signaled_down
