-- ===== src/Orders/Idempotent.antt =====
-- Placing an order with a `clientOrderId` twice.
use mathlib.Core.Path.{subst}
use perpetual_futures_exchan.Prelude.{
  ℕ, ◌<◌, ◌≡◌, ◌⊎◌, refl, sym, ap, ◌∙◌, Bool, true, Option, none, some, List, [], ◌∷◌, ◌++◌, arith,
  ◌==◌, Option-cases, inl, inr, All,
}
use perpetual_futures_exchan.Big.{Js}
use perpetual_futures_exchan.Store.{Db, Market, Order}
use perpetual_futures_exchan.Store.Rows.{first}
use perpetual_futures_exchan.Store.Monad.{Result, ok, err, Error, market_not_found}
use perpetual_futures_exchan.Store.Numeric.{Postgres}
use perpetual_futures_exchan.Orders.{
  PlaceOrderInput, check_order, place_order, submit_order, same_client_order,
}
use perpetual_futures_exchan.Orders.Place.{check_order_reads, check_order-iff-Passes}
use perpetual_futures_exchan.Orders.Submit.{Submits, submit_order-Submits}

abbrev pub market_of : PlaceOrderInput → Db → Option Market
market_of input db = first (λ m. m.symbol == input.market) db.markets

abbrev pub placed_before : PlaceOrderInput → Db → Option Order
placed_before input db = first (same_client_order input.user_id input.client_order_id) db.orders

first-append :
    (p : Order → Bool) (rows : List Order) (o : Order)
    → first p rows ≡ none
    → p o ≡ true
    → first p (rows ++ (o ∷ [])) ≡ some o
first-append p [] o e t = rw t
first-append p (r ∷ rows) o e t = ground (arith, first-append p rows o)

abbrev Outcome : Type 0
Outcome = Result (Order × Bool) × Db

err_not_ok :
    {e : Error} {db db' : Db} {x : Order × Bool} → ◌≡◌ {A = Outcome} (err e, db) (ok x, db') → ⊥
err_not_ok h = cc

abbrev order_in : Order → Result (Order × Bool) → Order
order_in default (ok (o, b)) = o
order_in default (err e) = default

ok_parts :
    {o o' : Order} {b b' : Bool} {db db' : Db}
    → ◌≡◌ {A = Outcome} (ok (o, b), db) (ok (o', b'), db')
    → (o ≡ o') × (db ≡ db')
ok_parts {o} h = (ap (λ (r : Outcome). order_in o r.0) h, ap (λ (r : Outcome). r.1) h)

module _ ⦃js : Js⦄ ⦃pg : Postgres⦄ (input : PlaceOrderInput) where
  place_marketless :
      (db : Db) → market_of input db ≡ none → place_order input db ≡ (err market_not_found, db)
  unfolding place_order
  place_marketless db e = ground arith

  place_refused :
      (db db1 : Db) (m : Market) (e : Error)
      → market_of input db ≡ some m
      → check_order input m db ≡ (err e, db1)
      → place_order input db ≡ (err e, db1)
  unfolding place_order
  place_refused db db1 m e f c = ground arith

  place_existing :
      (db : Db) (m : Market) (o : Order)
      → market_of input db ≡ some m
      → check_order input m db ≡ (ok tt, db)
      → placed_before input db ≡ some o
      → place_order input db ≡ (ok (o, true), db)
  unfolding place_order
  place_existing db m o f c e = ground arith

  place_new :
      (db : Db) (m : Market)
      → market_of input db ≡ some m
      → check_order input m db ≡ (ok tt, db)
      → placed_before input db ≡ none
      → place_order input db ≡ submit_order input m db
  unfolding place_order
  place_new db m f c e = ground arith

  -- How a call can end: refused with nothing changed, answered with the earlier order, or submitted.
  abbrev Places : Db → Result (Order × Bool) × Db → Type 0
  Places db r =
      ((e : Error) × (r ≡ (err e, db)))
      ⊎ ((m : Market) × (market_of input db ≡ some m)
          × (check_order input m db ≡ (ok tt, db))
          × (((o : Order) × (placed_before input db ≡ some o) × (r ≡ (ok (o, true), db)))
              ⊎ ((placed_before input db ≡ none) × (r ≡ submit_order input m db))))

  checked_Places :
      (db : Db) (m : Market) (c : Result (Unit {0}) × Db)
      → market_of input db ≡ some m
      → check_order input m db ≡ c
      → c.1 ≡ db
      → Places db (place_order input db)
  checked_Places db m (err e, db1) f h same =
      inl (e, place_refused db db1 m e f h ∙ ap (λ (d : Db). (err e, d)) same)
  checked_Places db m (ok tt, db1) f h same =
      let passed : check_order input m db ≡ (ok tt, db) = h ∙ ap (λ (d : Db). (ok tt, d)) same in
      elim (Option-cases (placed_before input db)) [
        | inl new ↦ inr (m, f, passed, inr (new, place_new db m f passed new))
        | inr (o, old) ↦ inr (m, f, passed, inl (o, old, place_existing db m o f passed old))
      ]

  pub place_order-Places : (db : Db) → Places db (place_order input db)
  place_order-Places db = elim (Option-cases (market_of input db)) [
    | inl missing ↦ inl (market_not_found, place_marketless db missing)
    | inr (m, found) ↦
        checked_Places db m (check_order input m db) found refl (check_order_reads input m db)
  ]

  again_after_submit :
      (c : ℕ) (db db' : Db) (m : Market) (o : Order) (b : Bool)
      → input.client_order_id ≡ some c
      → market_of input db ≡ some m
      → check_order input m db ≡ (ok tt, db)
      → placed_before input db ≡ none
      → Submits input db (ok (o, b), db')
      → place_order input db' ≡ (ok (o, true), db')
  again_after_submit c db db' m o b client found passed new
        (_, _, user, oc, _, markets, orders, _, _) =
      let mine : same_client_order input.user_id input.client_order_id o ≡ true =
        rw (user, oc, client) (ground arith) in
      place_existing db' m o (rw markets found)
        ((check_order-iff-Passes input m db').1 ((check_order-iff-Passes input m db).0 passed))
        (rw orders (
          first-append (same_client_order input.user_id input.client_order_id) db.orders o new
            mine))

  -- A request that carries a `clientOrderId` and has succeeded is answered with the same order when
  -- it is placed again, and the second call writes and sends nothing. The outbox held no identifier
  -- that was still to be given out.
  pub place_order_again :
      (c : ℕ) (db db' : Db) (o : Order) (b : Bool)
      → input.client_order_id ≡ some c
      → All (λ e. e.id < db.next_id) db.outbox
      → place_order input db ≡ (ok (o, b), db')
      → place_order input db' ≡ (ok (o, true), db')
  place_order_again c db db' o b client fresh placed = elim (place_order-Places db) [
    | inl (e, refused) ↦ absurd (err_not_ok (sym refused ∙ placed))
    | inr (m, found, passed, inl (o', old, same)) ↦
        let (oo, dd) = ok_parts (sym same ∙ placed) in
        subst (λ (d : Db). place_order input d ≡ (ok (o, true), d)) dd
          (subst (λ (x : Order). place_order input db ≡ (ok (x, true), db)) oo same)
    | inr (m, found, passed, inr (new, same)) ↦
        again_after_submit c db db' m o b client found passed new
          (subst (Submits input db) (sym same ∙ placed) (submit_order-Submits input m db fresh))
  ]
