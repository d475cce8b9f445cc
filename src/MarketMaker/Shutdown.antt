-- ===== src/MarketMaker/Shutdown.antt =====
-- market_maker/src/index.ts: the quote loop, its interval, and what `shutdown` puts an end to.
use perpetual_futures_exchan.Prelude.{
  ℕ, Bool, true, false, not, ◌&&◌, Option, none, some, List, [], ◌∷◌, ◌≡◌, refl, sym, ap, ◌∙◌,
}
use mathlib.Core.Path.{subst}
use perpetual_futures_exchan.Text.{Text}
use perpetual_futures_exchan.MarketMaker.Cases.{
  on_test, start_cases, health_cases, cancel_cases, done_cases, feed_cases, check_cases,
  check_step_cases, loaded_cases,
}
use perpetual_futures_exchan.MakerState.{opened, Maker, State, Startup}
use perpetual_futures_exchan.MarketMaker.{
  Event, is_quoting, check, step, run, next_of, advance, quote_step, can_quote,
}

abbrev pub is_finished : Startup → Bool
is_finished Startup.finished = true
is_finished _ = false

abbrev pub is_used : State → Bool
is_used State.paused = false
is_used State.reconnecting = false
is_used _ = true

-- The interval runs just in the state `quoting`, not in a shutdown, and only after `start`.
pub record Sound (shutting interval : Bool) (startup : Startup) (state : State) : Type 0 where
  pub loops : interval ≡ is_quoting state
  pub stops : shutting && interval ≡ false
  pub starts : interval && not (is_finished startup) ≡ false
  pub used : is_used state ≡ true

abbrev pub IsSound : Maker → Type 0
IsSound mk = Sound mk.is_shutting_down mk.quote_interval mk.startup mk.state

and_true : (b : Bool) → b && true ≡ false → b ≡ false
and_true true p = p
and_true false p = refl

and_false : (b : Bool) → b && false ≡ false
and_false true = refl
and_false false = refl

-- What `start` does before it looks at prices keeps the interval off.
idle :
    {sh i : Bool} {su : Startup} {st : State}
    → is_finished su ≡ false
    → Sound sh i su st
    → i ≡ false
idle {i = i} h s = and_true i (subst (λ x. i && not x ≡ false) h s.starts)

moves :
    {sh i : Bool} {su : Startup} {st : State} (su' : Startup) (st' : State)
    → is_finished su ≡ false
    → is_quoting st' ≡ false
    → is_used st' ≡ true
    → Sound sh i su st
    → Sound sh i su' st'
moves su' st' h q u s = record {
  loops = idle h s ∙ sym q;
  stops = s.stops;
  starts = ap (λ x. x && not (is_finished su')) (idle h s);
  used = u;
}

module _ (binance_to_market : ℕ → Option ℕ) (is_positive : Text → Bool) (only : Option ℕ)
    (price_stale_ms : ℕ) where
  check-Sound :
      (mk : Maker)
      → IsSound mk
      → IsSound (check binance_to_market is_positive only price_stale_ms mk)
  check-Sound mk s =
      check_cases binance_to_market is_positive only price_stale_ms IsSound mk
        (λ down. record {
          loops = s.loops;
          stops = s.stops;
          starts = and_false mk.quote_interval;
          used = s.used;
        })
        (λ up. record { loops = refl; stops = ap (λ x. x && true) up; starts = refl; used = refl })
        s

  step-Sound :
      (e : Event) (mk : Maker)
      → IsSound mk
      → IsSound (step binance_to_market is_positive only price_stale_ms e mk)
  unfolding step
  step-Sound Event.start mk s =
      start_cases IsSound mk.startup mk
        (λ h. moves Startup.awaiting_health State.connecting (ap is_finished h) refl refl s) s
  step-Sound Event.health_started mk s =
      health_cases IsSound mk.startup mk
        (λ h. moves Startup.loading State.ready (ap is_finished h) refl refl s) s
  step-Sound Event.markets_loaded mk s =
      loaded_cases binance_to_market is_positive only price_stale_ms IsSound mk.startup mk
        (λ h. check-Sound _ (record {
          loops = s.loops;
          stops = s.stops;
          starts = ap (λ x. x && true) (idle (ap is_finished h) s);
          used = s.used;
        }))
        s
  step-Sound Event.check_price mk s =
      check_step_cases binance_to_market is_positive only price_stale_ms IsSound mk.startup mk
        (λ h. check-Sound mk s) s
  step-Sound Event.tick mk s =
      on_test IsSound (mk.quote_interval && not mk.is_shutting_down && is_quoting mk.state) (λ h. s)
        (λ h. s)
  step-Sound (Event.quote_next n) mk s =
      elim (next_of n mk.cycles)
        as (λ (m : Option ℕ). IsSound (
          quote_step binance_to_market is_positive only price_stale_ms m
            (record mk { cycles = advance n mk.cycles }))) [
              | none ↦ s
              | some m ↦
                  on_test IsSound
                    (can_quote binance_to_market is_positive only price_stale_ms m
                      (record mk { cycles = advance n mk.cycles }) mk.markets)
                    (λ h. s) (λ h. s)
            ]
  step-Sound (Event.feed_message m) mk s =
      feed_cases binance_to_market is_positive only price_stale_ms IsSound m mk (λ price. s) s
  step-Sound Event.socket_open mk s = s
  step-Sound Event.socket_closed mk s = on_test IsSound mk.feed.is_running (λ h. s) (λ h. s)
  step-Sound Event.signal mk s =
      on_test IsSound mk.is_shutting_down (λ h. s)
        (λ h. record { loops = refl; stops = refl; starts = refl; used = refl })
  step-Sound Event.cancel_next mk s = cancel_cases IsSound mk.to_cancel mk (λ rest live. s) s
  step-Sound Event.shutdown_done mk s =
      done_cases IsSound mk.to_cancel mk
        (λ h. record {
          loops = subst (λ x. x && mk.quote_interval ≡ false) h s.stops;
          stops = s.stops;
          starts = s.starts;
          used = refl;
        })
        s
  step-Sound (Event.time_passes ms) mk s = s

  run_from-Sound :
      (es : List Event) (mk : Maker)
      → IsSound mk
      → IsSound (run binance_to_market is_positive only price_stale_ms es mk)
  unfolding run
  run_from-Sound [] mk s = s
  run_from-Sound (e ∷ es) mk s = run_from-Sound es _ (step-Sound e mk s)

  -- Whatever happens to a process, and in whatever order, from its constructor on: the quote
  -- interval runs exactly in the state `quoting`; it does not run once a shutdown has begun, nor
  -- before the startup has finished; and the states `paused` and `reconnecting` are never entered.
  pub run-Sound :
      (es : List Event) (rows : List (ℕ × ℕ)) (clock : ℕ)
      → IsSound (run binance_to_market is_positive only price_stale_ms es (opened rows clock))
  run-Sound es rows clock =
      run_from-Sound es (opened rows clock)
        (record { loops = refl; stops = refl; starts = refl; used = refl })
