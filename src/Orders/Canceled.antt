-- ===== src/Orders/Canceled.antt =====
-- What `cancelOrder` does on every branch.
use mathlib.Core.Path.{subst}
use perpetual_futures_exchan.Prelude.{
  ℕ, ◌≡◌, ◌≢◌, refl, true, false, ◌&&◌, none, some, List, [], ◌∷◌, ◌++◌, arith, ◌==◌, Bool-cases,
  Option-cases, inl, inr,
}
use perpetual_futures_exchan.Store.{Db, Market, Order, Command}
use perpetual_futures_exchan.Store.Rows.{first, update_rows}
use perpetual_futures_exchan.Store.Monad.{
  Result, ok, err, order_not_found, order_not_cancellable, market_missing, redis_error,
}
use perpetual_futures_exchan.Orders.{has_order_id}
use perpetual_futures_exchan.Orders.Cancel.{
  order_of, update_order, canceled_at, is_terminal, cancel_order,
}

-- A cancel that succeeds stores `canceled`, and sends one command.
abbrev pub CanceledIn : ℕ → ℕ → Db → Db → Type 0
CanceledIn order_id user_id db db' =
    (o : Order) × (m : Market) × (order_of order_id user_id db ≡ some o)
    × (is_terminal o.status ≡ false)
    × (order_of order_id user_id db' ≡ some (canceled_at db.clock o))
    × (db'.commands ≡ db.commands ++ (Command.cancel_order order_id m.symbol user_id ∷ []))
    × ((k : ℕ)
        → k ≢ order_id
        → first (has_order_id k) db'.orders ≡ first (has_order_id k) db.orders)
    × (db'.balances ≡ db.balances)

abbrev pub Cancels : ℕ → ℕ → Db → Result (Unit {0}) × Db → Type 0
Cancels order_id user_id db (ok _, db') = CanceledIn order_id user_id db db'
Cancels order_id user_id db (err e, db') = db' ≡ db

module _ (order_id user_id : ℕ) (f : Order → Order) (id_kept : (o : Order) → (f o).id ≡ o.id)
    (user_kept : (o : Order) → (f o).user_id ≡ o.user_id) where
  order_of-update :
      (rows : List Order) (o : Order)
      → first (λ o. o.id == order_id && o.user_id == user_id) rows ≡ some o
      → first
          (λ o. o.id == order_id && o.user_id == user_id)
          (update_rows (has_order_id order_id) f rows)
        ≡ some (f o)
  order_of-update [] o e = cc
  order_of-update (r ∷ rows) o e = ground (arith, id_kept r, user_kept r, order_of-update rows o)

  pub first-update_other :
      (k : ℕ) (rows : List Order)
      → k ≢ order_id
      → first (has_order_id k) (update_rows (has_order_id order_id) f rows)
        ≡ first (has_order_id k) rows
  first-update_other k [] ne = refl
  first-update_other k (r ∷ rows) ne = ground (arith, id_kept r, first-update_other k rows ne)

module _ (order_id user_id : ℕ) (db : Db) where
  cancel_missing :
      order_of order_id user_id db ≡ none
      → cancel_order order_id user_id db ≡ (err order_not_found, db)
  unfolding cancel_order
  cancel_missing e = ground arith

  cancel_terminal :
      (o : Order)
      → order_of order_id user_id db ≡ some o
      → is_terminal o.status ≡ true
      → cancel_order order_id user_id db ≡ (err order_not_cancellable, db)
  unfolding cancel_order
  cancel_terminal o e t = ground arith

  cancel_marketless :
      (o : Order)
      → order_of order_id user_id db ≡ some o
      → is_terminal o.status ≡ false
      → first (λ m. m.id == o.market_id) db.markets ≡ none
      → cancel_order order_id user_id db ≡ (err market_missing, db)
  unfolding cancel_order
  cancel_marketless o e t m = ground arith

  cancel_unsent :
      (o : Order) (m : Market)
      → order_of order_id user_id db ≡ some o
      → is_terminal o.status ≡ false
      → first (λ m. m.id == o.market_id) db.markets ≡ some m
      → db.redis_up ≡ false
      → cancel_order order_id user_id db ≡ (err redis_error, db)
  unfolding cancel_order
  cancel_unsent o m e t f r = ground arith

  cancel_done :
      (o : Order) (m : Market)
      → order_of order_id user_id db ≡ some o
      → is_terminal o.status ≡ false
      → first (λ m. m.id == o.market_id) db.markets ≡ some m
      → db.redis_up ≡ true
      → cancel_order order_id user_id db ≡ (
        ok tt,
        update_order order_id (canceled_at db.clock) (record db {
          commands = db.commands ++ (Command.cancel_order order_id m.symbol user_id ∷ []);
        }),
      )
  unfolding cancel_order
  cancel_done o m e t f r = ground arith

-- A cancel either fails and changes nothing, or its order, which was not in a final state, is
-- stored as canceled, one command for it goes to the engine, every other order is as before, and no
-- balance moves.
pub cancel_order-Cancels :
    (order_id user_id : ℕ) (db : Db)
    → Cancels order_id user_id db (cancel_order order_id user_id db)
cancel_order-Cancels order_id user_id db = elim (Option-cases (order_of order_id user_id db)) [
  | inl missing ↦ rw (cancel_missing order_id user_id db missing)
  | inr (o, found) ↦ elim (Bool-cases (is_terminal o.status)) [
    | inl final ↦ rw (cancel_terminal order_id user_id db o found final)
    | inr live ↦ elim (Option-cases (first (λ m. m.id == o.market_id) db.markets)) [
      | inl lost ↦ rw (cancel_marketless order_id user_id db o found live lost)
      | inr (m, listed) ↦ elim (Bool-cases db.redis_up) [
        | inr down ↦ rw (cancel_unsent order_id user_id db o m found live listed down)
        | inl up ↦ rw (cancel_done order_id user_id db o m found live listed up) (
          o,
          m,
          found,
          live,
          order_of-update order_id user_id (canceled_at db.clock) (λ o. refl) (λ o. refl) db.orders
              o found,
          refl,
          (λ k ne.
              first-update_other order_id user_id (canceled_at db.clock) (λ o. refl) (λ o. refl) k
                db.orders ne),
          refl,
        )
      ]
    ]
  ]
]

-- A second cancel of the same order is refused and changes nothing.
pub cancel_order_again :
    (order_id user_id : ℕ) (db db' : Db)
    → cancel_order order_id user_id db ≡ (ok tt, db')
    → cancel_order order_id user_id db' ≡ (err order_not_cancellable, db')
cancel_order_again order_id user_id db db' e =
    let (o, m, _, _, after, _, _, _) =
      subst (Cancels order_id user_id db) e (cancel_order-Cancels order_id user_id db) in
    cancel_terminal order_id user_id db' (canceled_at db.clock o) after refl
