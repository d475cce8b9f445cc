-- ===== src/MarketMaker/Rounds.antt =====
-- market_maker/src/index.ts: how many quotes still go out after `shutdown` has begun.
use perpetual_futures_exchan.Prelude.{
  ℕ, zero, suc, ◌+◌, ◌≤◌, Bool, true, false, not, ◌&&◌, Option, none, some, List, [], ◌∷◌, ◌++◌,
  map, if◌then◌else◌, ◌≡◌, refl, sym, arith,
}
use mathlib.Core.Path.{subst}
use perpetual_futures_exchan.Text.{Text}
use perpetual_futures_exchan.MakerState.{Maker, MarketState}
use perpetual_futures_exchan.MarketMaker.{
  Event, is_quoting, check, step, run, next_of, advance, quote_step, can_quote,
}
use perpetual_futures_exchan.MarketMaker.Cases.{
  on_test, start_cases, health_cases, cancel_cases, done_cases, feed_cases, check_cases,
  check_step_cases, loaded_cases,
}

abbrev pub size : List ℕ → ℕ
size [] = 0
size (m ∷ ms) = suc (size ms)

-- The markets that all running rounds have still to do.
abbrev pub still_to_do : List (List ℕ) → ℕ
still_to_do [] = 0
still_to_do (ms ∷ rounds) = size ms + still_to_do rounds

abbrev count : Option ℕ → ℕ
count none = 0
count (some m) = 1

advance-still_to_do :
    (n : ℕ) (rounds : List (List ℕ))
    → count (next_of n rounds) + still_to_do (advance n rounds) ≡ still_to_do rounds
advance-still_to_do zero [] = refl
advance-still_to_do zero ([] ∷ rounds) = refl
advance-still_to_do zero ((m ∷ ms) ∷ rounds) = omega arith
advance-still_to_do (suc n) [] = refl
advance-still_to_do (suc n) (ms ∷ rounds) = by_arith (advance-still_to_do n rounds)
  where
    by_arith :
        count (next_of n rounds) + still_to_do (advance n rounds) ≡ still_to_do rounds
        → count (next_of n rounds) + (size ms + still_to_do (advance n rounds))
          ≡ size ms + still_to_do rounds
    by_arith h = omega arith

-- A shutdown has begun, and what went out with what is still to do is at most n.
pub record Winds (n : ℕ) (mk : Maker) : Type 0 where
  pub down : mk.is_shutting_down ≡ true
  pub most : mk.sent + still_to_do mk.cycles ≤ n

-- The guard of the interval's callback.
no_tick :
    (interval quoting : Bool) {down : Bool} → down ≡ true → interval && not down && quoting ≡ false
no_tick true quoting h = subst (λ d. true && not d && quoting ≡ false) (sym h) refl
no_tick false quoting h = refl

module _ (binance_to_market : ℕ → Option ℕ) (is_positive : Text → Bool) (only : Option ℕ)
    (price_stale_ms : ℕ) where
  check-Winds :
      {n : ℕ} (mk : Maker)
      → Winds n mk
      → Winds n (check binance_to_market is_positive only price_stale_ms mk)
  check-Winds {n} mk w =
      check_cases binance_to_market is_positive only price_stale_ms (Winds n) mk
        (λ down. record { down = w.down; most = w.most })
        (λ up. record { down = w.down; most = w.most }) w

  quote_step-Winds :
      {n : ℕ} (m : Option ℕ) (mk : Maker)
      → mk.is_shutting_down ≡ true
      → count m + (mk.sent + still_to_do mk.cycles) ≤ n
      → Winds n (quote_step binance_to_market is_positive only price_stale_ms m mk)
  quote_step-Winds none mk d l = record { down = d; most = omega arith }
  quote_step-Winds {n} (some m) mk d l =
      on_test (Winds n)
        (can_quote binance_to_market is_positive only price_stale_ms m mk mk.markets)
        (λ h. record { down = d; most = omega arith })
        (λ h. record { down = d; most = omega arith })

  step-Winds :
      {n : ℕ} (e : Event) (mk : Maker)
      → Winds n mk
      → Winds n (step binance_to_market is_positive only price_stale_ms e mk)
  unfolding step
  step-Winds {n} Event.start mk w =
      start_cases (Winds n) mk.startup mk (λ h. record { down = w.down; most = w.most }) w
  step-Winds {n} Event.health_started mk w =
      health_cases (Winds n) mk.startup mk (λ h. record { down = w.down; most = w.most }) w
  step-Winds {n} Event.markets_loaded mk w =
      loaded_cases binance_to_market is_positive only price_stale_ms (Winds n) mk.startup mk
        (λ h. check-Winds _ (record { down = w.down; most = w.most })) w
  step-Winds {n} Event.check_price mk w =
      check_step_cases binance_to_market is_positive only price_stale_ms (Winds n) mk.startup mk
        (λ h. check-Winds mk w) w
  step-Winds {n} Event.tick mk w =
      subst
        (λ (b : Bool). Winds n (
          if b
          then record mk {
            cycles = mk.cycles ++ (map (λ (s : MarketState). s.market) mk.markets ∷ []);
          }
          else mk))
        (sym (no_tick mk.quote_interval (is_quoting mk.state) w.down)) w
  step-Winds {n} (Event.quote_next k) mk w =
      quote_step-Winds (next_of k mk.cycles) (record mk { cycles = advance k mk.cycles }) w.down
        (at (count (next_of k mk.cycles)) mk.sent (still_to_do (advance k mk.cycles))
          (advance-still_to_do k mk.cycles) w.most)
    where
      at : (c s d : ℕ) {e : ℕ} → c + d ≡ e → s + e ≤ n → c + (s + d) ≤ n
      at c s d h l = omega arith
  step-Winds {n} (Event.feed_message m) mk w =
      feed_cases binance_to_market is_positive only price_stale_ms (Winds n) m mk
        (λ price. record { down = w.down; most = w.most }) w
  step-Winds Event.socket_open mk w = record { down = w.down; most = w.most }
  step-Winds {n} Event.socket_closed mk w =
      on_test (Winds n) mk.feed.is_running (λ h. record { down = w.down; most = w.most }) (λ h. w)
  step-Winds {n} Event.signal mk w =
      on_test (Winds n) mk.is_shutting_down (λ h. w) (λ h. record { down = refl; most = w.most })
  step-Winds {n} Event.cancel_next mk w =
      cancel_cases (Winds n) mk.to_cancel mk (λ rest live. record { down = w.down; most = w.most })
        w
  step-Winds {n} Event.shutdown_done mk w =
      done_cases (Winds n) mk.to_cancel mk (λ h. record { down = w.down; most = w.most }) w
  step-Winds (Event.time_passes ms) mk w = record { down = w.down; most = w.most }

  run-Winds :
      {n : ℕ} (es : List Event) (mk : Maker)
      → Winds n mk
      → Winds n (run binance_to_market is_positive only price_stale_ms es mk)
  unfolding run
  run-Winds [] mk w = w
  run-Winds (e ∷ es) mk w = run-Winds es _ (step-Winds e mk w)

  -- Once a shutdown has begun, it is never undone, and no round of the quote loop begins: the quotes
  -- that go out from there on are, whatever happens, at most one for each market that the rounds
  -- then running have still to do.
  pub run-Winds_down :
      (es : List Event) (mk : Maker)
      → mk.is_shutting_down ≡ true
      → Winds
          (mk.sent + still_to_do mk.cycles)
          (run binance_to_market is_positive only price_stale_ms es mk)
  run-Winds_down es mk h = run-Winds es mk (record { down = h; most = omega arith })
