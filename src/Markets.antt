-- ===== src/Markets.antt =====
-- Server/src/services/marketService.ts: listMarkets, getMarketBySymbol, getRecentTrades
-- and getTicker24h. What `redis.get` and `JSON.parse` give for a market's reference price is a parameter.
pub mod Ticker
mod Tests
use perpetual_futures_exchan.Prelude.{
  ℕ, Bool, true, false, ◌&&◌, length, ltb, ◌≡◌, refl, Option, none, some, List, [], ◌∷◌, ◌==◌,
  if◌then◌else◌, take,
}
use perpetual_futures_exchan.Store.{Db, Asset, Market, Fill}
use perpetual_futures_exchan.Decimal.{DecStr, zero_text}
use perpetual_futures_exchan.Store.Monad.{Result, ok, err, redis_error}
use perpetual_futures_exchan.Store.Numeric.{Postgres}
use perpetual_futures_exchan.Store.Rows.{first, where_}
use perpetual_futures_exchan.Orders.{is_active}
use perpetual_futures_exchan.Store.Sample.{sample, perp}

-- A market, of which the query selects all columns but the two references and the creation time, with
-- the symbols of its two assets.
pub record MarketView : Type 0 where
  pub market : Market
  pub base_asset : ℕ
  pub quote_asset : ℕ

abbrev pub asset_of : ℕ → List Asset → Option Asset
asset_of id assets = first (λ a. a.id == id) assets

-- The two inner joins.
abbrev pub joined : Market → Option Asset → Option Asset → List MarketView → List MarketView
joined m (some b) (some q) rest =
    record { market = m; base_asset = b.symbol; quote_asset = q.symbol } ∷ rest
joined m none q rest = rest
joined m (some b) none rest = rest

unfoldable pub join_markets : List Asset → List Market → List MarketView
join_markets assets [] = []
join_markets assets (m ∷ rows) =
    joined m (asset_of m.base_asset_id assets) (asset_of m.quote_asset_id assets)
      (join_markets assets rows)

unfoldable pub list_markets : Db → List MarketView
unfolding join_markets
list_markets db = join_markets db.assets (where_ (λ m. is_active m.status) db.markets)

unfoldable pub get_market_by_symbol : ℕ → Db → Option Market
get_market_by_symbol symbol db = first (λ m. m.symbol == symbol) db.markets

unfoldable pub insert_recent : Fill → List Fill → List Fill
insert_recent f [] = f ∷ []
insert_recent f (g ∷ rows) =
    let rest = insert_recent f rows in
    if ltb g.created_at f.created_at then f ∷ g ∷ rows else g ∷ rest

-- `orderBy(desc(fills.createdAt))`
unfoldable pub recent_first : List Fill → List Fill
unfolding insert_recent
recent_first [] = []
recent_first (f ∷ rows) = insert_recent f (recent_first rows)

unfoldable pub get_recent_trades : ℕ → ℕ → Db → List Fill
unfolding recent_first
get_recent_trades symbol limit db = elim (first (λ m. m.symbol == symbol) db.markets) [
  | none ↦ []
  | some m ↦ take limit (recent_first (where_ (λ f. f.market_id == m.id) db.fills))
]

pub record Ticker24h : Type 0 where
  pub symbol : ℕ
  pub last_price : Option DecStr
  pub volume24h : DecStr
  pub trade_count : ℕ

-- `SELECT price FROM fills WHERE market_id = ... ORDER BY created_at DESC LIMIT 1`
abbrev pub newest_price : List Fill → Option DecStr
newest_price [] = none
newest_price (f ∷ rows) = some f.price

-- A reference price counts if it is of this market and positive; `parseFloat(price) > 0` is
-- `is_positive`.
abbrev pub reference_price : (DecStr → Bool) → ℕ → Option (ℕ × DecStr) → Option DecStr
reference_price is_positive symbol none = none
reference_price is_positive symbol (some (market, price)) =
    if market == symbol && is_positive price then some price else none

-- `lastPrice || (agg?.lastPrice ?? null)`
abbrev pub or_newest : Option DecStr → Option DecStr → Option DecStr
or_newest none newest = newest
or_newest (some price) newest = some price

module _ ⦃pg : Postgres⦄ where
  -- `COALESCE(SUM(quantity), 0)`
  unfoldable pub sum_quantities : List Fill → DecStr
  sum_quantities [] = zero_text
  sum_quantities (f ∷ rows) = pg.sum f.quantity (sum_quantities rows)

  module _ (read : ℕ → Option (ℕ × DecStr)) (is_positive : DecStr → Bool) where
    -- The aggregates are over all fills: the query has no `where`.
    ticker_of : ℕ → Option Market → Db → Result (Option Ticker24h)
    unfolding sum_quantities recent_first
    ticker_of symbol none db = ok none
    ticker_of symbol (some m) db =
        if db.redis_up
        then ok (
            some (record {
              symbol = m.symbol;
              last_price =
                  or_newest (reference_price is_positive symbol (read symbol))
                    (newest_price (recent_first (where_ (λ f. f.market_id == m.id) db.fills)));
              volume24h = sum_quantities db.fills;
              trade_count = length db.fills;
            }))
        else err redis_error

    unfoldable pub get_ticker24h : ℕ → Db → Result (Option Ticker24h)
    unfolding ticker_of
    get_ticker24h symbol db = ticker_of symbol (first (λ m. m.symbol == symbol) db.markets) db
