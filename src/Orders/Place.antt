-- ===== src/Orders/Place.antt =====
-- What `placeOrder` checks, writes and sends.
use mathlib.Core.Path.{subst}
use mathlib.Core.Option.{some-injective}
use perpetual_futures_exchan.Big.Order.{gt_iff}
use perpetual_futures_exchan.Prelude.{
  ℕ, ◌≤◌, ◌≡◌, ◌↔◌, refl, Bool, true, false, ◌&&◌, Option, none, some, arith,
}
use perpetual_futures_exchan.Prelude.Int.{pos, ◌≤ℤ◌, ◌<ℤ◌}
use perpetual_futures_exchan.Big
use perpetual_futures_exchan.Big.{Js}
use perpetual_futures_exchan.Decimal.{DecStr, zero_text, dec, gt, lt, lte, places, amount}
use perpetual_futures_exchan.Decimal.Laws.{
  gt-zero_iff, gt-iff-amount, lt-iff-amount, lte-iff-amount, amount-zero_text, places-zero_text,
}
use perpetual_futures_exchan.Store.{Db, Market, MarketStatus, OrderType}
use perpetual_futures_exchan.Store.Monad.{ok}
use perpetual_futures_exchan.Orders.{
  PlaceOrderInput, truthy, leverage_of, is_active, is_limit, is_none, check_order,
}

module _ ⦃js : Js⦄ where
  -- The request that `placeOrder` accepts, by the amounts that its texts denote at a scale that holds
  -- them.
  pub record Acceptable (k : ℕ) (input : PlaceOrderInput) (m : Market) : Type 0 where
    pub active : m.status ≡ MarketStatus.active
    pub positive : pos 0 <ℤ amount k input.quantity
    pub at_least : amount k m.min_order_size ≤ℤ amount k input.quantity
    pub at_most : amount k input.quantity ≤ℤ amount k m.max_order_size
    pub priced : input.order_type ≡ OrderType.limit → (p : DecStr) × (truthy input.price ≡ some p)
    pub price_positive : (p : DecStr) → truthy input.price ≡ some p → pos 0 <ℤ amount k p
    pub leverage_allowed : amount k (leverage_of input) ≤ℤ amount k m.max_leverage

  -- A scale that holds all the texts of a request.
  pub record Fits (k : ℕ) (input : PlaceOrderInput) (m : Market) : Type 0 where
    pub quantity : places input.quantity ≤ k
    pub smallest : places m.min_order_size ≤ k
    pub largest : places m.max_order_size ≤ k
    pub price : (p : DecStr) → truthy input.price ≡ some p → places p ≤ k
    pub leverage : places (leverage_of input) ≤ k
    pub max_leverage : places m.max_leverage ≤ k

  pub check_order_reads :
      (input : PlaceOrderInput) (m : Market) (db : Db) → (check_order input m db).1 ≡ db
  unfolding check_order
  check_order_reads input m db = ground arith

  abbrev pub price_test : Option DecStr → Bool
  price_test none = false
  price_test (some p) = lte p zero_text

  -- The seven tests, as the code computes them.
  abbrev pub Passes : PlaceOrderInput → Market → Type 0
  Passes input m =
      (is_active m.status ≡ true)
      × (gt input.quantity zero_text ≡ true)
      × (lt input.quantity m.min_order_size ≡ false)
      × (gt input.quantity m.max_order_size ≡ false)
      × ((is_limit input.order_type && is_none (truthy input.price)) ≡ false)
      × (price_test (truthy input.price) ≡ false)
      × (Big.gt (dec (leverage_of input)) (dec m.max_leverage) ≡ false)

  pub check_order-iff-Passes :
      (input : PlaceOrderInput) (m : Market) (db : Db)
      → (check_order input m db ≡ (ok tt, db)) ↔ Passes input m
  unfolding check_order
  check_order-iff-Passes input m db = (ground arith, ground arith)

  active_iff : (s : MarketStatus) → (is_active s ≡ true) ↔ (s ≡ MarketStatus.active)
  active_iff s = ground arith

  lte_zero : (k : ℕ) (p : DecStr) → places p ≤ k → (lte p zero_text ≡ false) ↔ (pos 0 <ℤ amount k p)
  lte_zero k p h =
      let i =
        rw (amount-zero_text k) at
          (lte-iff-amount k p zero_text h (omega (arith, places-zero_text))) in
      ground (arith, i)

  price_test_iff :
      (k : ℕ) (o : Option DecStr)
      → ((p : DecStr) → o ≡ some p → places p ≤ k)
      → (price_test o ≡ false) ↔ ((p : DecStr) → o ≡ some p → pos 0 <ℤ amount k p)
  price_test_iff k none fits = (λ t p e. cc, λ f. refl)
  price_test_iff k (some p) fits =
      let i = lte_zero k p (fits p refl) in
      (
        (λ t q e. subst (λ (x : DecStr). pos 0 <ℤ amount k x) (some-injective _ _ e) (i.0 t)),
        λ f. i.1 (f p refl),
      )

  priced_iff :
      (t : OrderType) (o : Option DecStr)
      → ((is_limit t && is_none o) ≡ false) ↔ (t ≡ OrderType.limit → (p : DecStr) × (o ≡ some p))
  priced_iff OrderType.market o = (λ h e. cc, λ h. refl)
  priced_iff OrderType.limit none = (λ h. cc, λ h. let (p, e) = h refl in cc)
  priced_iff OrderType.limit (some p) = (λ h e. (p, refl), λ h. refl)

  -- `placeOrder` goes past its checks exactly for the acceptable requests: an active market, a
  -- positive quantity within the market's bounds, a price where the order is a limit order, any
  -- price positive, and a leverage that the market allows, all measured in units of the k-th place,
  -- where no text has more places than k.
  pub check_order-iff-Acceptable :
      (k : ℕ) (input : PlaceOrderInput) (m : Market) (db : Db)
      → Fits k input m
      → (check_order input m db ≡ (ok tt, db)) ↔ Acceptable k input m
  check_order-iff-Acceptable k input m db fits =
      let tests = check_order-iff-Passes input m db in
      let q = fits.quantity in
      let i1 = gt-zero_iff k input.quantity q in
      let i2 = lt-iff-amount k input.quantity m.min_order_size q fits.smallest in
      let i3 = gt-iff-amount k input.quantity m.max_order_size q fits.largest in
      let i4 = priced_iff input.order_type (truthy input.price) in
      let i5 = price_test_iff k (truthy input.price) fits.price in
      let i6 =
        gt_iff (dec (leverage_of input)) (dec m.max_leverage) k
          (omega (arith, fits.leverage, fits.max_leverage)) in
      let i0 = active_iff m.status in
      (
        λ e.
            let (t0, t1, t2, t3, t4, t5, t6) = tests.0 e in
            record {
              active = i0.0 t0;
              positive = i1.0 t1;
              at_least = ground (arith, i2);
              at_most = ground (arith, i3);
              priced = i4.0 t4;
              price_positive = i5.0 t5;
              leverage_allowed = ground (arith, i6);
            },
        λ a. tests.1 (
          i0.1 a.active,
          i1.1 a.positive,
          ground (arith, i2),
          ground (arith, i3),
          i4.1 a.priced,
          i5.1 a.price_positive,
          ground (arith, i6),
        ),
      )
