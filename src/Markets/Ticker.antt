-- ===== src/Markets/Ticker.antt =====
-- What a ticker tells.
use perpetual_futures_exchan.Prelude.{
  ℕ, ◌≤◌, ◌≡◌, refl, sym, ap, ◌∙◌, Bool, true, false, ◌&&◌, if◌then◌else◌, Option, none, some, List,
  [], ◌∷◌, ◌==◌, length, All, arith, take,
}
use mathlib.Core.Path.{subst}
use perpetual_futures_exchan.Prelude.Int.{ℤ, pos, ◌+ℤ◌}
use perpetual_futures_exchan.Big.{Js}
use perpetual_futures_exchan.Decimal.{DecStr, places, amount}
use perpetual_futures_exchan.Decimal.Laws.{places-zero_text, amount-zero_text}
use perpetual_futures_exchan.Store.{Db, Market, Fill}
use perpetual_futures_exchan.Store.Rows.{first, where_}
use perpetual_futures_exchan.Store.Monad.{ok}
use perpetual_futures_exchan.Store.Numeric.{Postgres, IsPostgres}
use perpetual_futures_exchan.Markets.{
  Ticker24h, newest_price, reference_price, or_newest, recent_first, sum_quantities, get_ticker24h,
  get_recent_trades,
}

module _ ⦃js : Js⦄ where
  -- What all fills have traded, whichever their market.
  abbrev pub traded : List Fill → ℤ
  traded [] = pos 0
  traded (f ∷ rows) = amount 8 f.quantity +ℤ traded rows

  -- Which last price a ticker gives, by what Redis has under the symbol, where `recent` is the price
  -- of the newest trade.
  pub data IsLast (is_positive : DecStr → Bool) (symbol : ℕ) (recent : Option DecStr)
      : Option (ℕ × DecStr) → Option DecStr → Type 0 where
    is_reference :
        (price : DecStr)
        → is_positive price ≡ true
        → IsLast is_positive symbol recent (some (symbol, price)) (some price)
    is_ignored :
        (market : ℕ) (price : DecStr)
        → market == symbol && is_positive price ≡ false
        → IsLast is_positive symbol recent (some (market, price)) recent
    is_missing : IsLast is_positive symbol recent none recent

  pub record Tells (read : ℕ → Option (ℕ × DecStr)) (is_positive : DecStr → Bool) (symbol : ℕ)
      (db : Db) (t : Ticker24h) : Type 0 where
    pub is_asked_for : t.symbol ≡ symbol
    pub last :
        IsLast is_positive symbol
          (newest_price (get_recent_trades symbol 1 db))
          (read symbol)
          t.last_price
    pub volume : amount 8 t.volume24h ≡ traded db.fills
    pub trades : t.trade_count ≡ length db.fills

  or_newest-IsLast :
      (is_positive : DecStr → Bool) (symbol : ℕ) (recent : Option DecStr) (o : Option (ℕ × DecStr))
      → IsLast is_positive symbol recent o (or_newest (reference_price is_positive symbol o) recent)
  or_newest-IsLast is_positive symbol recent none = IsLast.is_missing
  or_newest-IsLast is_positive symbol recent (some (market, price)) =
      counts market (market == symbol) refl (is_positive price) refl
    where
      same : (market : ℕ) → (market == symbol) ≡ true → market ≡ symbol
      same market h = ground arith

      counts :
          (market : ℕ) (b : Bool)
          → market == symbol ≡ b
          → (c : Bool) → is_positive price ≡ c
          → IsLast is_positive symbol recent
              (some (market, price))
              (or_newest (if b && c then some price else none) recent)
      counts market true h true k =
          subst (λ m. IsLast is_positive symbol recent (some (m, price)) (some price))
            (sym (same market h)) (IsLast.is_reference price k)
      counts market true h false k = IsLast.is_ignored market price (rw (h, k))
      counts market false h c k = IsLast.is_ignored market price (rw h)

found_symbol :
    (symbol : ℕ) (rows : List Market) (m : Market)
    → first (λ m. m.symbol == symbol) rows ≡ some m
    → m.symbol ≡ symbol
found_symbol symbol [] m e = cc
found_symbol symbol (r ∷ rows) m e = ground (arith, found_symbol symbol rows m)

newest-take : (rows : List Fill) → newest_price (take 1 rows) ≡ newest_price rows
newest-take [] = refl
newest-take (f ∷ rows) = refl

newest_recent :
    (symbol : ℕ) (m : Market) (db : Db)
    → first (λ m. m.symbol == symbol) db.markets ≡ some m
    → newest_price (get_recent_trades symbol 1 db)
      ≡ newest_price (recent_first (where_ (λ f. f.market_id == m.id) db.fills))
unfolding get_recent_trades
newest_recent symbol m db found =
    let rows = recent_first (where_ (λ f. f.market_id == m.id) db.fills) in
    let recent : get_recent_trades symbol 1 db ≡ take 1 rows = rw (found, get_recent_trades) in
    ap newest_price recent ∙ newest-take rows

module _ ⦃js : Js⦄ ⦃pg : Postgres⦄ (laws : IsPostgres pg) where
  sum-traded :
      (rows : List Fill)
      → All (λ (f : Fill). places f.quantity ≤ 8) rows
      → (places (sum_quantities rows) ≤ 8) × (amount 8 (sum_quantities rows) ≡ traded rows)
  unfolding sum_quantities
  sum-traded [] h = (omega (arith, places-zero_text), amount-zero_text 8)
  sum-traded (f ∷ rows) (p, h) =
      let (q, e) = sum-traded rows h in
      let (r, d) = laws.sum_exact 8 f.quantity (sum_quantities rows) p q in
      (r, d ∙ ap (λ x. amount 8 f.quantity +ℤ x) e)

  -- The ticker of a known market. Its last price is the reference price, if there is a positive one for
  -- this market, and otherwise the price of the trade that getRecentTrades puts first, if any. Its
  -- volume and its count are those of all fills, whichever their market and their age. Redis answers,
  -- the quantities have eight places at most, and SQL adds exactly.
  pub get_ticker24h-Tells :
      (read : ℕ → Option (ℕ × DecStr)) (is_positive : DecStr → Bool) (symbol : ℕ) (m : Market)
      (db : Db)
      → first (λ m. m.symbol == symbol) db.markets ≡ some m
      → db.redis_up ≡ true
      → All (λ (f : Fill). places f.quantity ≤ 8) db.fills
      → (t : Ticker24h) × (get_ticker24h read is_positive symbol db ≡ ok (some t))
        × Tells read is_positive symbol db t
  unfolding get_ticker24h get_recent_trades
  get_ticker24h-Tells read is_positive symbol m db found up fits = (
    record {
      symbol = m.symbol;
      last_price =
          or_newest (reference_price is_positive symbol (read symbol))
            (newest_price (recent_first (where_ (λ f. f.market_id == m.id) db.fills)));
      volume24h = sum_quantities db.fills;
      trade_count = length db.fills;
    },
    rw (found, up),
    record {
      is_asked_for = found_symbol symbol db.markets m found;
      last = rw (newest_recent symbol m db found) (
          or_newest-IsLast is_positive symbol
            (newest_price (recent_first (where_ (λ f. f.market_id == m.id) db.fills)))
            (read symbol));
      volume = (sum-traded db.fills fits).1;
      trades = refl;
    },
  )
