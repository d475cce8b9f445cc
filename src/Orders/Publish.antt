-- ===== src/Orders/Publish.antt =====
-- Storing an order's event, sending its command, and marking the event, as `placeOrder` does.
use perpetual_futures_exchan.Prelude.{
  ℕ, suc, ◌≤◌, ◌<◌, ◌≡◌, true, false, Option, none, some, List, [], ◌∷◌, ◌++◌, arith, All,
}
use perpetual_futures_exchan.Store.{Db, OrderCommand, OutboxEvent, EventType, Command}
use perpetual_futures_exchan.Store.Rows.{update_rows}
use perpetual_futures_exchan.Store.Monad.{ok, err, redis_error}
use perpetual_futures_exchan.Orders.{publish_order, mark_published, has_event_id}

abbrev pub event_of : OrderCommand → Db → OutboxEvent
event_of payload db = record {
  id = db.next_id;
  event_type = EventType.order_created;
  aggregate_id = some payload.order_id;
  payload = payload;
  created_at = db.clock;
  published_at = none;
}

abbrev pub with_event : OrderCommand → Db → Db
with_event payload db = record db {
  outbox = db.outbox ++ (event_of payload db ∷ []);
  next_id = suc db.next_id;
}

pub publish_up :
    (payload : OrderCommand) (db : Db)
    → db.redis_up ≡ true
    → publish_order payload db ≡ (
      ok tt,
      mark_published db.next_id (record (with_event payload db) {
        commands = db.commands ++ (Command.place_order payload ∷ []);
      }),
    )
unfolding publish_order
publish_up payload db up = ground arith

pub publish_down :
    (payload : OrderCommand) (db : Db)
    → db.redis_up ≡ false
    → publish_order payload db ≡ (err redis_error, with_event payload db)
unfolding publish_order
publish_down payload db down = ground arith

pub update_fresh :
    (f : OutboxEvent → OutboxEvent) (row : OutboxEvent) (rows : List OutboxEvent) (next : ℕ)
    → All (λ e. e.id < next) rows
    → next ≤ row.id
    → update_rows (has_event_id row.id) f (rows ++ (row ∷ [])) ≡ rows ++ (f row ∷ [])
update_fresh f row [] next h l = ground arith
update_fresh f row (r ∷ rows) next h l = ground (arith, update_fresh f row rows next h.1 l)

-- An event for an order, published at the time given or pending.
abbrev pub IsEventFor : ℕ → OrderCommand → Option ℕ → OutboxEvent → Type 0
IsEventFor order_id payload at e =
    (e.event_type ≡ EventType.order_created)
    × (e.aggregate_id ≡ some order_id)
    × (e.payload ≡ payload)
    × (e.published_at ≡ at)
