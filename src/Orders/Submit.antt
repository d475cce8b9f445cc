-- ===== src/Orders/Submit.antt =====
-- What `placeOrder` writes and sends once a request has passed its checks.
use perpetual_futures_exchan.Prelude.{
  ℕ, suc, ◌<◌, ◌≡◌, ◌⊎◌, refl, ap, ◌∙◌, Bool, false, Option, none, some, List, [], ◌∷◌, ◌++◌, arith,
  Bool-cases, inl, inr, All,
}
use perpetual_futures_exchan.Big.{Js}
use perpetual_futures_exchan.Decimal.{DecStr, mul}
use perpetual_futures_exchan.Store.{
  Db, Balance, Market, Order, OrderStatus, Side, OutboxEvent, Command,
}
use perpetual_futures_exchan.Orders.Publish.{
  event_of, publish_up, publish_down, update_fresh, IsEventFor,
}
use perpetual_futures_exchan.Store.Monad.{
  then_ok, then_err, Result, ok, err, Error, ◌>>=◌, ◌>>◌, redis_error, or_throw, pure,
  division_by_zero,
}
use perpetual_futures_exchan.Store.Numeric.{Postgres}
use perpetual_futures_exchan.Balance.{lock_balance}
use perpetual_futures_exchan.Orders.{
  PlaceOrderInput, truthy, leverage_of, margin_for, submit_order, lock_buy, lock_side, lock_margin,
  insert_order, publish_order, command_payload,
}

-- Balances at most have changed.
abbrev pub OnlyBalances : Db → Db → Type 0
OnlyBalances db db' = db' ≡ record db { balances = db'.balances }

module _ ⦃js : Js⦄ ⦃pg : Postgres⦄ where
  lock_balance-OnlyBalances :
      (user asset : ℕ) (x : DecStr) (db : Db) → OnlyBalances db (lock_balance user asset x db).1
  unfolding lock_balance
  lock_balance-OnlyBalances user asset x db = ground arith

  lock_found-OnlyBalances :
      (user asset : ℕ) (margin : Option DecStr) (db : Db)
      → OnlyBalances db ((or_throw margin division_by_zero >>= lock_balance user asset) db).1
  lock_found-OnlyBalances user asset none db = refl
  lock_found-OnlyBalances user asset (some x) db = lock_balance-OnlyBalances user asset x db

  lock_buy-OnlyBalances :
      (input : PlaceOrderInput) (m : Market) (price : Option DecStr) (db : Db)
      → OnlyBalances db (lock_buy input m price db).1
  unfolding lock_buy
  lock_buy-OnlyBalances input m none db = refl
  lock_buy-OnlyBalances input m (some p) db =
      lock_found-OnlyBalances input.user_id m.quote_asset_id
        (margin_for (mul p input.quantity) (leverage_of input)) db

  lock_side-OnlyBalances :
      (input : PlaceOrderInput) (m : Market) (side : Side) (db : Db)
      → OnlyBalances db (lock_side input m side db).1
  unfolding lock_side
  lock_side-OnlyBalances input m Side.buy db = lock_buy-OnlyBalances input m (truthy input.price) db
  lock_side-OnlyBalances input m Side.sell db =
      lock_balance-OnlyBalances input.user_id m.base_asset_id input.quantity db

  lock_margin-OnlyBalances :
      (input : PlaceOrderInput) (m : Market) (db : Db) → OnlyBalances db (lock_margin input m db).1
  unfolding lock_margin
  lock_margin-OnlyBalances input m db = lock_side-OnlyBalances input m input.side db

  -- The new row, or nothing.
  abbrev Inserts : PlaceOrderInput → Db → Result Order × Db → Type 0
  Inserts input db (ok o, db') =
      (o.id ≡ db.next_id)
      × (o.user_id ≡ input.user_id)
      × (o.client_order_id ≡ input.client_order_id)
      × (o.status ≡ OrderStatus.opened)
      × (db' ≡ record db { orders = db.orders ++ (o ∷ []); next_id = suc db.next_id })
  Inserts input db (err e, db') = db' ≡ db

  insert_order-Inserts :
      (input : PlaceOrderInput) (m : Market) (db : Db) → Inserts input db (insert_order input m db)
  unfolding insert_order
  insert_order-Inserts input m db = ground arith

module _ ⦃js : Js⦄ ⦃pg : Postgres⦄ where
  -- What has happened to a request that passed its checks, by how the call ended.
  abbrev pub Submits : PlaceOrderInput → Db → Result (Order × Bool) × Db → Type 0
  Submits input db (ok (o, idempotent), db') =
      (idempotent ≡ false)
      × (o.id ≡ db.next_id)
      × (o.user_id ≡ input.user_id)
      × (o.client_order_id ≡ input.client_order_id)
      × (o.status ≡ OrderStatus.opened)
      × (db'.markets ≡ db.markets)
      × (db'.orders ≡ db.orders ++ (o ∷ []))
      × (db'.commands
          ≡ db.commands ++ (Command.place_order (command_payload input o.id db.clock) ∷ []))
      × ((e : OutboxEvent) × (db'.outbox ≡ db.outbox ++ (e ∷ []))
          × IsEventFor o.id (command_payload input o.id db.clock) (some db.clock) e)
  Submits input db (err cause, db') =
      (db'.commands ≡ db.commands)
      × (OnlyBalances db db'
          ⊎ ((cause ≡ redis_error)
              × (db.redis_up ≡ false)
              × (o : Order) × (db'.orders ≡ db.orders ++ (o ∷ []))
              × (o.id ≡ db.next_id)
              × (o.status ≡ OrderStatus.opened)
              × (e : OutboxEvent) × (db'.outbox ≡ db.outbox ++ (e ∷ []))
              × IsEventFor o.id (command_payload input o.id db.clock) none e))

  module _ (input : PlaceOrderInput) (m : Market) (db : Db) where
    submit_unlocked :
        (e : Error) (db1 : Db)
        → lock_margin input m db ≡ (err e, db1)
        → submit_order input m db ≡ (err e, db1)
    unfolding submit_order
    submit_unlocked e db1 h = ground arith

    submit_uninserted :
        (e : Error) (db1 db2 : Db)
        → lock_margin input m db ≡ (ok tt, db1)
        → insert_order input m db1 ≡ (err e, db2)
        → submit_order input m db ≡ (err e, db2)
    unfolding submit_order
    submit_uninserted e db1 db2 h k = ground arith

    submit_inserted :
        (o : Order) (db1 db2 : Db)
        → lock_margin input m db ≡ (ok tt, db1)
        → insert_order input m db1 ≡ (ok o, db2)
        → submit_order input m db
          ≡ (publish_order (command_payload input o.id db2.clock) >> pure (o, false)) db2
    unfolding submit_order
    submit_inserted o db1 db2 h k = ground arith

    abbrev inserted : List Balance → Order → Db
    inserted bs o = record db {
      balances = bs;
      orders = db.orders ++ (o ∷ []);
      next_id = suc db.next_id;
    }

    publish_Submits :
        (bs : List Balance) (o : Order)
        → All (λ e. e.id < db.next_id) db.outbox
        → o.id ≡ db.next_id
        → o.user_id ≡ input.user_id
        → o.client_order_id ≡ input.client_order_id
        → o.status ≡ OrderStatus.opened
        → Submits input db (
            (publish_order (command_payload input o.id db.clock) >> pure (o, false))
              (inserted bs o))
    publish_Submits bs o fresh i u c s = elim (Bool-cases db.redis_up) [
      | inl up ↦
          rw
            (then_ok {B = Order × Bool} (publish_order (command_payload input o.id db.clock))
              (pure (o, false)) (inserted bs o) _ tt
              (publish_up (command_payload input o.id db.clock) (inserted bs o) up))
            (
              refl,
              i,
              u,
              c,
              s,
              refl,
              refl,
              refl,
              (
                record (event_of (command_payload input o.id db.clock) (inserted bs o)) {
                  published_at = some db.clock;
                },
                update_fresh (λ e. record e { published_at = some db.clock })
                    (event_of (command_payload input o.id db.clock) (inserted bs o)) db.outbox
                    db.next_id fresh (omega arith),
                (refl, refl, refl, refl),
              ),
            )
      | inr down ↦
          rw
            (then_err {B = Order × Bool} (publish_order (command_payload input o.id db.clock))
              (pure (o, false)) (inserted bs o) _ redis_error
              (publish_down (command_payload input o.id db.clock) (inserted bs o) down))
            (
              refl,
              inr (
                refl,
                down,
                o,
                refl,
                i,
                s,
                event_of (command_payload input o.id db.clock) (inserted bs o),
                refl,
                (refl, refl, refl, refl),
              ),
            )
    ]

    insert_Submits :
        (db1 : Db) (r : Result Order × Db)
        → All (λ e. e.id < db.next_id) db.outbox
        → lock_margin input m db ≡ (ok tt, db1)
        → OnlyBalances db db1
        → insert_order input m db1 ≡ r
        → Inserts input db1 r
        → Submits input db (submit_order input m db)
    insert_Submits db1 (err e, db2) fresh h only k same =
        rw (submit_uninserted e db1 db2 h k, same) (ap (λ (d : Db). d.commands) only, inl only)
    insert_Submits db1 (ok o, db2) fresh h only k (i, u, c, s, same) =
        let state : db2 ≡ inserted db1.balances o =
          same
          ∙ ap (λ (d : Db). record d { orders = d.orders ++ (o ∷ []); next_id = suc d.next_id })
              only in
        rw (submit_inserted o db1 db2 h k, state)
          (publish_Submits db1.balances o fresh (i ∙ ap (λ (d : Db). d.next_id) only) u c s)

    lock_Submits :
        (r : Result (Unit {0}) × Db)
        → All (λ e. e.id < db.next_id) db.outbox
        → lock_margin input m db ≡ r
        → OnlyBalances db r.1
        → Submits input db (submit_order input m db)
    lock_Submits (err e, db1) fresh h only =
        rw (submit_unlocked e db1 h) (ap (λ (d : Db). d.commands) only, inl only)
    lock_Submits (ok tt, db1) fresh h only =
        insert_Submits db1 (insert_order input m db1) fresh h only refl
          (insert_order-Inserts input m db1)

    -- The outbox guarantee. A call that succeeds stores the order as open, under a new identifier,
    -- sends exactly one command for it, with the request's own texts, and stores its event as
    -- published. A call that fails sends nothing; at most balances have changed, unless Redis refused
    -- the command: then the order stays stored and its event waits unpublished. The outbox held no
    -- identifier that was still to be given out.
    pub submit_order-Submits :
        All (λ e. e.id < db.next_id) db.outbox → Submits input db (submit_order input m db)
    submit_order-Submits fresh =
        lock_Submits (lock_margin input m db) fresh refl (lock_margin-OnlyBalances input m db)
