-- ===== src/BinanceFeed.antt =====
-- market_maker/src/binance/binanceFeed.ts, the class BinanceFeed: what it keeps of each price, when a
-- price is stale, and how long it waits before it connects again.
use perpetual_futures_exchan.Prelude.{
  ℕ, zero, suc, ◌-◌, ltb, Bool, true, false, Option, none, some, List, [], ◌∷◌, ◌==◌, if◌then◌else◌,
}
use perpetual_futures_exchan.Text.{Text}

pub record Feed : Type 0 where
  pub last_price_update : ℕ
  pub per_symbol_last_update : List (ℕ × ℕ)
  pub is_running : Bool
  pub reconnect_attempts : ℕ

pub data FeedKind : Type 0 where
  trade mark_price_update other_message : FeedKind

-- A message of the socket, parsed: `e`, `p`, `E`, `s`, and the symbol in the name of its stream.
pub record FeedMessage : Type 0 where
  pub kind : FeedKind
  pub price : Option Text
  pub time : Option ℕ
  pub symbol : Option ℕ
  pub stream : Option ℕ

abbrev pub last_update : ℕ → List (ℕ × ℕ) → ℕ
last_update symbol [] = 0
last_update symbol ((s, at) ∷ rows) = if s == symbol then at else last_update symbol rows

-- `isPriceStaleFor`
abbrev pub is_price_stale_for : (price_stale_ms now : ℕ) → ℕ → Feed → Bool
is_price_stale_for price_stale_ms now symbol feed =
    let ts = last_update symbol feed.per_symbol_last_update in
    if ts == 0 then true else ltb price_stale_ms (now - ts)

-- The delays of `scheduleReconnect`.
abbrev pub reconnect_delay : ℕ → ℕ
reconnect_delay zero = 1000
reconnect_delay (suc zero) = 2000
reconnect_delay (suc (suc zero)) = 4000
reconnect_delay (suc (suc (suc zero))) = 8000
reconnect_delay (suc (suc (suc (suc zero)))) = 16000
reconnect_delay (suc (suc (suc (suc (suc n))))) = 30000

abbrev pub is_price_kind : FeedKind → Bool
is_price_kind FeedKind.trade = true
is_price_kind FeedKind.mark_price_update = true
is_price_kind FeedKind.other_message = false

-- The symbol in the message, else that of its stream, else the only one there is.
abbrev pub symbol_of : Option ℕ → FeedMessage → Option ℕ
symbol_of only m = elim m.symbol [
  | some s ↦ some s
  | none ↦ elim m.stream [ some s ↦ some s | none ↦ only ]
]

abbrev pub note_symbol : Option ℕ → ℕ → List (ℕ × ℕ) → List (ℕ × ℕ)
note_symbol none at rows = rows
note_symbol (some s) at rows = (s, at) ∷ rows

abbrev pub note_price : Option ℕ → ℕ → Feed → Feed
note_price symbol at feed = record feed {
  last_price_update = at;
  per_symbol_last_update = note_symbol symbol at feed.per_symbol_last_update;
}
