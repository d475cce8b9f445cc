-- ===== src/MarketMaker/Cases.antt =====
-- market_maker/src/index.ts, step by step: what a step can have done to the process.
use perpetual_futures_exchan.Prelude.{
  ℕ, ◌≡◌, refl, Bool, true, false, ◌&&◌, Option, none, some, List, [], ◌∷◌, map, if◌then◌else◌,
}
use perpetual_futures_exchan.Text.{Text}
use perpetual_futures_exchan.BinanceFeed.{FeedMessage, is_price_kind}
use perpetual_futures_exchan.MakerState.{Maker, State, Startup, MarketState}
use perpetual_futures_exchan.MarketMaker.{
  handle_feed_message, check, start_step, health_step, loaded_step, check_step, cancel_step,
  done_step, take_price, any_fresh, without,
}

-- A branch of a test holds what both branches hold.
pub on_test {ℓ ℓ'} :
    {A : Type ℓ} (P : A → Type ℓ') (b : Bool) {x y : A}
    → (b ≡ true → P x)
    → (b ≡ false → P y)
    → P (if b then x else y)
on_test P true t f = t refl
on_test P false t f = f refl

module _ (P : Maker → Type 0) where
  pub start_cases :
      (su : Startup) (mk : Maker)
      → (su ≡ Startup.not_started
          → P (record mk { state = State.connecting; startup = Startup.awaiting_health }))
      → P mk
      → P (start_step su mk)
  start_cases Startup.not_started mk t p = t refl
  start_cases Startup.awaiting_health mk t p = p
  start_cases Startup.loading mk t p = p
  start_cases Startup.waiting mk t p = p
  start_cases Startup.finished mk t p = p

  pub health_cases :
      (su : Startup) (mk : Maker)
      → (su ≡ Startup.awaiting_health
          → P (record mk { state = State.ready; startup = Startup.loading }))
      → P mk
      → P (health_step su mk)
  health_cases Startup.not_started mk t p = p
  health_cases Startup.awaiting_health mk t p = t refl
  health_cases Startup.loading mk t p = p
  health_cases Startup.waiting mk t p = p
  health_cases Startup.finished mk t p = p

  pub cancel_cases :
      (ms : List ℕ) (mk : Maker)
      → ((rest live : List ℕ) → P (record mk { to_cancel = rest; live = live }))
      → P mk
      → P (cancel_step ms mk)
  cancel_cases [] mk t p = p
  cancel_cases (m ∷ ms) mk t p = t ms (without m mk.live)

  pub done_cases :
      (ms : List ℕ) (mk : Maker)
      → (mk.is_shutting_down ≡ true
          → P (record mk { state = State.stopped; feed = record mk.feed { is_running = false } }))
      → P mk
      → P (done_step ms mk)
  done_cases [] mk t p = on_test P mk.is_shutting_down t (λ h. p)
  done_cases (m ∷ ms) mk t p = p

module _ (binance_to_market : ℕ → Option ℕ) (is_positive : Text → Bool) (only : Option ℕ)
    (price_stale_ms : ℕ) (P : Maker → Type 0) where
  pub feed_cases :
      (m : FeedMessage) (mk : Maker)
      → ((price : Text)
          → P (take_price binance_to_market is_positive only price_stale_ms m price mk))
      → P mk
      → P (handle_feed_message binance_to_market is_positive only price_stale_ms m mk)
  unfolding handle_feed_message
  feed_cases m mk t p =
      elim m.price
        as (λ (o : Option Text). P (elim o [
          | none ↦ mk
          | some price ↦
              if is_price_kind m.kind && is_positive price
              then take_price binance_to_market is_positive only price_stale_ms m price mk
              else mk
        ])) [
          | none ↦ p
          | some price ↦
              on_test P (is_price_kind m.kind && is_positive price) (λ h. t price) (λ h. p)
        ]

  pub check_cases :
      (mk : Maker)
      → (mk.is_shutting_down ≡ true → P (record mk { startup = Startup.finished }))
      → (mk.is_shutting_down ≡ false
          → P (record mk {
            state = State.quoting;
            quote_interval = true;
            startup = Startup.finished;
          }))
      → P mk
      → P (check binance_to_market is_positive only price_stale_ms mk)
  unfolding check
  check_cases mk down fresh p = on_test P mk.is_shutting_down down (λ up.
      on_test P (any_fresh binance_to_market is_positive only price_stale_ms mk mk.markets)
        (λ h. fresh up) (λ h. p))

  pub check_step_cases :
      (su : Startup) (mk : Maker)
      → (su ≡ Startup.waiting → P (check binance_to_market is_positive only price_stale_ms mk))
      → P mk
      → P (check_step binance_to_market is_positive only price_stale_ms su mk)
  unfolding check_step
  check_step_cases Startup.not_started mk t p = p
  check_step_cases Startup.awaiting_health mk t p = p
  check_step_cases Startup.loading mk t p = p
  check_step_cases Startup.waiting mk t p = t refl
  check_step_cases Startup.finished mk t p = p

  pub loaded_cases :
      (su : Startup) (mk : Maker)
      → (su ≡ Startup.loading
          → P (
              check binance_to_market is_positive only price_stale_ms (record mk {
                markets = map (λ (s : MarketState). record s { has_info = true }) mk.markets;
                feed = record mk.feed { is_running = true };
                startup = Startup.waiting;
              })))
      → P mk
      → P (loaded_step binance_to_market is_positive only price_stale_ms su mk)
  unfolding loaded_step
  loaded_cases Startup.not_started mk t p = p
  loaded_cases Startup.awaiting_health mk t p = p
  loaded_cases Startup.loading mk t p = t refl
  loaded_cases Startup.waiting mk t p = p
  loaded_cases Startup.finished mk t p = p
