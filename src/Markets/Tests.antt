-- ===== src/Markets/Tests.antt =====
-- Runs of the market service.
use perpetual_futures_exchan.Prelude.{ℕ, none, some, [], ◌∷◌, ◌≡◌, refl, arith}
use perpetual_futures_exchan.Big.{Code}
use perpetual_futures_exchan.Decimal.{DecStr, add, gt, zero_text}
use perpetual_futures_exchan.Store.{Db, Fill, Side}
use perpetual_futures_exchan.Store.Monad.{ok}
use perpetual_futures_exchan.Store.Exact.{plain_js, exact_pg, exact_pg-IsPostgres}
use perpetual_futures_exchan.Store.Sample.{sample, perp, n0, n1, n2, n3}
use perpetual_futures_exchan.Markets.{list_markets, Ticker24h, get_ticker24h}
use perpetual_futures_exchan.Markets.Ticker.{Tells, get_ticker24h-Tells}

list_run : list_markets sample ≡ record { market = perp; base_asset = 401; quote_asset = 400 } ∷ []
unfolding list_markets
list_run = refl

abbrev fill : (market created_at : ℕ) (price quantity : DecStr) → Fill
fill market created_at price quantity = record {
  id = created_at;
  market_id = market;
  maker_order_id = 31;
  taker_order_id = 32;
  maker_user_id = 2;
  taker_user_id = 3;
  side = Side.buy;
  price = price;
  quantity = quantity;
  maker_fee = n0;
  taker_fee = n0;
  created_at = created_at;
}

-- The last of these fills is another market's.
abbrev busy : Db
busy = record sample { fills = fill 20 1 n1 n1 ∷ fill 20 2 n2 n1 ∷ fill 21 3 n3 n1 ∷ [] }

ticker_run :
    get_ticker24h (λ m. none) (λ p. gt p zero_text) 500 busy
    ≡ ok (some (record { symbol = 500; last_price = some n2; volume24h = n3; trade_count = 3 }))
unfolding Code get_ticker24h add
ticker_run = refl

get_ticker24h-Tells_example :
    (t : Ticker24h) × (get_ticker24h (λ m. none) (λ p. gt p zero_text) 500 busy ≡ ok (some t))
    × Tells (λ m. none) (λ p. gt p zero_text) 500 busy t
unfolding Code
get_ticker24h-Tells_example =
    get_ticker24h-Tells exact_pg-IsPostgres (λ m. none) (λ p. gt p zero_text) 500 perp busy refl
      refl (ground arith)
