-- ===== src/DbWriter/Events.antt =====
-- The handlers of ORDER_CANCELED and ORDER_REJECTED.
use perpetual_futures_exchan.Prelude.{ℕ, ◌≡◌, true, false, none, some}
use perpetual_futures_exchan.Big.{Js}
use perpetual_futures_exchan.Store.{Db, Order, OrderStatus}
use perpetual_futures_exchan.Store.Monad.{Action, Error, Result, ok, err, gets, ◌>>=◌, ◌>>◌}
use perpetual_futures_exchan.Store.Numeric.{Postgres, IsPostgres}
use perpetual_futures_exchan.Balance.Moved.{IsLedger}
use perpetual_futures_exchan.Orders.Cancel.{update_order, canceled_at}
use perpetual_futures_exchan.DbWriter.{
  EngineEvent, order_by_id, ignores_cancel, keeps_margin_on_reject, stored_as, set_order,
  release_rejected,
}
use perpetual_futures_exchan.DbWriter.Release.{Conserves, ReleaseFits, Released}

module _ ⦃js : Js⦄ ⦃pg : Postgres⦄ where
  -- What is due is released, in one ledger and within its totals, and then one order is changed; if the
  -- release fails, nothing is.
  pub data Ends (id : ℕ) (f : Order → Order) (order : Order) (db : Db)
      : Result (Unit {0}) × Db → Type 0 where
    changed :
        (db1 : Db)
        → Released order db (ok tt, db1)
        → Conserves db db1
        → Ends id f order db (ok tt, update_order id f db1)
    failed : (e : Error) → Released order db (err e, db) → Ends id f order db (err e, db)

  pub data CancelEvent (id : ℕ) (db : Db) : Result (Unit {0}) × Db → Type 0 where
    unknown : order_by_id id db ≡ none → CancelEvent id db (ok tt, db)
    ignored :
        (order : Order)
        → order_by_id id db ≡ some order
        → ignores_cancel order.status ≡ true
        → CancelEvent id db (ok tt, db)
    canceled :
        (order : Order) {r : Result (Unit {0}) × Db}
        → order_by_id id db ≡ some order
        → ignores_cancel order.status ≡ false
        → Ends id (canceled_at db.clock) order db r
        → CancelEvent id db r

  pub data RejectEvent (id : ℕ) (db : Db) : Result (Unit {0}) × Db → Type 0 where
    unknown :
        order_by_id id db ≡ none
        → RejectEvent id db (ok tt, update_order id (stored_as OrderStatus.rejected db.clock) db)
    unlocked :
        (order : Order)
        → order_by_id id db ≡ some order
        → keeps_margin_on_reject order.status ≡ true
        → RejectEvent id db (ok tt, update_order id (stored_as OrderStatus.rejected db.clock) db)
    rejected :
        (order : Order) {r : Result (Unit {0}) × Db}
        → order_by_id id db ≡ some order
        → keeps_margin_on_reject order.status ≡ false
        → Ends id (stored_as OrderStatus.rejected db.clock) order db r
        → RejectEvent id db r

  module _ (laws : IsPostgres pg) (ev : EngineEvent) (id : ℕ) (db : Db)
      (has_order : ev.order_id ≡ some id) (ledger : IsLedger db)
      (fits : (order : Order) → order_by_id id db ≡ some order → ReleaseFits order) where
    reject_order : Action (Unit {0})
    reject_order =
        (gets (order_by_id id) >>= release_rejected)
        >> set_order id (stored_as OrderStatus.rejected)
