-- ===== src/Outbox/Batch.antt =====
-- What a batch of the outbox worker does to the table and the stream.
use perpetual_futures_exchan.Prelude.{
  ℕ, zero, suc, Bool, ◌+◌, ◌-◌, ◌≡◌, ◌≢◌, refl, ◌∙◌, true, false, some, List, [], ◌∷◌, ◌++◌, arith,
  if◌then◌else◌, Bool-cases, inl, inr, All, All-take, take, length, ap, ==_refl,
}
use mathlib.Core.List.{append_assoc, append-nil}
use perpetual_futures_exchan.Store.{Db, OutboxEvent, EventType, Command}
use perpetual_futures_exchan.Store.Rows.{where_, update_rows}
use perpetual_futures_exchan.Store.Monad.{
  ok, pure, ◌>>◌, modify, catch_all, then_ok, then_err, err, redis_error, bind_ok, catch_ok,
  catch_err,
}
use perpetual_futures_exchan.Orders.{has_event_id, mark_published}
use perpetual_futures_exchan.Outbox.{
  is_pending, send_event, publish_row, publish_each, publish_outbox_batch,
}

abbrev pub published : ℕ → OutboxEvent → OutboxEvent
published now e = record e { published_at = some now }

-- The table after its first `n` pending events were published.
unfoldable pub publish_first : ℕ → ℕ → List OutboxEvent → List OutboxEvent
publish_first now zero rows = rows
publish_first now (suc n) [] = []
publish_first now (suc n) (e ∷ rows) =
    if is_pending e
    then published now e ∷ publish_first now n rows
    else e ∷ publish_first now (suc n) rows

abbrev pub command_of : EventType → OutboxEvent → List Command
command_of EventType.order_created e = Command.place_order e.payload ∷ []
command_of EventType.other_event e = []

-- The commands of a list of events, in their order.
unfoldable pub commands_of : List OutboxEvent → List Command
commands_of [] = []
commands_of (e ∷ rows) = command_of e.event_type e ++ commands_of rows

-- The primary key.
abbrev pub IsOutbox : List OutboxEvent → Type 0
IsOutbox [] = Unit
IsOutbox (e ∷ rows) = All (λ r. r.id ≢ e.id) rows × IsOutbox rows

-- The rows of a list of events are marked, one after the other.
update_each : ℕ → List OutboxEvent → List OutboxEvent → List OutboxEvent
update_each now [] rows = rows
update_each now (e ∷ es) rows =
    update_each now es (update_rows (has_event_id e.id) (published now) rows)

-- `update_each` goes past a row that is not among the events.
update_each-skip :
    (now : ℕ) (es : List OutboxEvent) (r : OutboxEvent) (rows : List OutboxEvent)
    → All (λ e. e.id ≢ r.id) es
    → update_each now es (r ∷ rows) ≡ r ∷ update_each now es rows
unfolding update_each
update_each-skip now [] r rows h = refl
update_each-skip now (e ∷ es) r rows (ne, h) =
    ground
      (arith, update_each-skip now es r (update_rows (has_event_id e.id) (published now) rows) h)

All-where :
    (P : OutboxEvent → Type 0) (p : OutboxEvent → Bool) (rows : List OutboxEvent)
    → All P rows
    → All P (where_ p rows)
All-where P p [] h = tt
All-where P p (r ∷ rows) (q, h) = elim (Bool-cases (p r)) [
  | inl t ↦ rw t (q, All-where P p rows h)
  | inr t ↦ rw t (All-where P p rows h)
]

All-picked :
    (P : OutboxEvent → Type 0) (n : ℕ) (rows : List OutboxEvent)
    → All P rows
    → All P (take n (where_ is_pending rows))
All-picked P n rows h = All-take P n (where_ is_pending rows) (All-where P is_pending rows h)

update_other :
    (now : ℕ) (e : OutboxEvent) (rows : List OutboxEvent)
    → All (λ r. r.id ≢ e.id) rows
    → update_rows (has_event_id e.id) (published now) rows ≡ rows
update_other now e [] h = refl
update_other now e (r ∷ rows) h = ground (arith, update_other now e rows h.1)

picked_lem :
    (now n : ℕ) (rows : List OutboxEvent)
    → IsOutbox rows
    → update_each now (take n (where_ is_pending rows)) rows ≡ publish_first now n rows
unfolding update_each publish_first
picked_lem now zero rows t = refl
picked_lem now (suc n) [] t = refl
picked_lem now (suc n) (e ∷ rows) (d, t) = elim (Bool-cases (is_pending e)) [
  | inl pending ↦
      rw (pending, ==_refl e.id, update_other now e rows d)
        (update_each-skip now (take n (where_ is_pending rows)) (published now e) rows
            (All-picked (λ r. r.id ≢ e.id) n rows d)
          ∙ ap (λ (rs : List OutboxEvent). published now e ∷ rs) (picked_lem now n rows t))
  | inr sent ↦ rw sent (
      update_each-skip now (take (suc n) (where_ is_pending rows)) e rows
        (All-picked (λ r. r.id ≢ e.id) (suc n) rows d)
      ∙ ap (λ (rs : List OutboxEvent). e ∷ rs) (picked_lem now (suc n) rows t))
]

send_event-up :
    (t : EventType) (e : OutboxEvent) (db : Db)
    → db.redis_up ≡ true
    → send_event t e db ≡ (ok tt, record db { commands = db.commands ++ command_of t e })
send_event-up EventType.order_created e db up = ground arith
send_event-up EventType.other_event e db up = rw (append-nil db.commands)

publish_row-up :
    (e : OutboxEvent) (db : Db)
    → db.redis_up ≡ true
    → publish_row e db ≡ (
      ok tt,
      record db {
        outbox = update_rows (has_event_id e.id) (published db.clock) db.outbox;
        commands = db.commands ++ command_of e.event_type e;
      },
    )
publish_row-up e db up =
    then_ok (send_event e.event_type e) (modify (mark_published e.id)) db _ tt
      (send_event-up e.event_type e db up)

publish_each-up :
    (count : ℕ) (es : List OutboxEvent) (db : Db)
    → db.redis_up ≡ true
    → publish_each count es db ≡ (
      ok (count + length es),
      record db {
        outbox = update_each db.clock es db.outbox;
        commands = db.commands ++ commands_of es;
      },
    )
unfolding publish_each update_each commands_of
publish_each-up count [] db up =
    let sum : count + 0 ≡ count = omega arith in rw (append-nil db.commands, sum)
publish_each-up count (e ∷ es) db up =
    let one = publish_row-up e db up in
    let sum : count + 1 + length es ≡ count + suc (length es) = omega arith in
    let counted = then_ok (publish_row e) (pure (count + 1)) db _ tt one in
    bind_ok (catch_all (publish_row e >> pure (count + 1)) (pure count)) (λ c. publish_each c es) db
      _ (count + 1)
      (catch_ok (publish_row e >> pure (count + 1)) (pure count) db _ (count + 1) counted)
    ∙ publish_each-up (count + 1) es _ up
    ∙ rw (append_assoc db.commands (command_of e.event_type e) (commands_of es), sum)

publish_row-down :
    (e : OutboxEvent) (db : Db)
    → db.redis_up ≡ false
    → e.event_type ≡ EventType.order_created
    → publish_row e db ≡ (err redis_error, db)
publish_row-down e db down created = rw created (ground arith)

publish_each-down :
    (count : ℕ) (es : List OutboxEvent) (db : Db)
    → db.redis_up ≡ false
    → All (λ e. e.event_type ≡ EventType.order_created) es
    → publish_each count es db ≡ (ok count, db)
unfolding publish_each
publish_each-down count [] db down created = refl
publish_each-down count (e ∷ es) db down (c, created) =
    let failed =
      then_err (publish_row e) (pure (count + 1)) db db redis_error
        (publish_row-down e db down c) in
    bind_ok (catch_all (publish_row e >> pure (count + 1)) (pure count)) (λ c. publish_each c es) db
      db count (catch_err (publish_row e >> pure (count + 1)) (pure count) db db redis_error failed)
    ∙ publish_each-down count es db down created

pending-publish_first :
    (now n : ℕ) (rows : List OutboxEvent)
    → length (where_ is_pending (publish_first now n rows)) ≡ length (where_ is_pending rows) - n
unfolding publish_first
pending-publish_first now zero rows = omega arith
pending-publish_first now (suc n) [] = omega arith
pending-publish_first now (suc n) (e ∷ rows) = elim (Bool-cases (is_pending e)) [
  | inl pending ↦ rw pending (omega (arith, pending-publish_first now n rows))
  | inr sent ↦ rw (sent, sent) (pending-publish_first now (suc n) rows)
]

-- What a batch does to a store.
abbrev pub Publishes : Db → Type 0
Publishes db =
    let picked = take 100 (where_ is_pending db.outbox) in
    (db.redis_up ≡ true
      → (db' : Db) × (publish_outbox_batch db ≡ (ok (length picked), db'))
        × (db'.commands ≡ db.commands ++ commands_of picked)
        × (db'.outbox ≡ publish_first db.clock 100 db.outbox)
        × (length (where_ is_pending db'.outbox) ≡ length (where_ is_pending db.outbox) - 100)
        × (db'.orders ≡ db.orders)
        × (db'.balances ≡ db.balances))
    × (db.redis_up ≡ false
        → All (λ e. e.event_type ≡ EventType.order_created) picked
        → publish_outbox_batch db ≡ (ok 0, db))

-- A batch on an outbox with unique identifiers. Where Redis takes commands, it sends those of the
-- first hundred pending events in their order, counts these events, marks exactly them as published,
-- so that a hundred fewer are pending, and changes no order and no balance. Where Redis is down and
-- these events are all of created orders, it counts none and changes nothing.
pub publish_outbox_batch-Publishes : (db : Db) → IsOutbox db.outbox → Publishes db
unfolding publish_outbox_batch
publish_outbox_batch-Publishes db table =
    let picked = take 100 (where_ is_pending db.outbox) in
    let sum : 0 + length picked ≡ length picked = omega arith in
    let marked = picked_lem db.clock 100 db.outbox table in
    (
      λ up. (
        _,
        rw sum at (publish_each-up 0 picked db up),
        refl,
        marked,
        rw marked (pending-publish_first db.clock 100 db.outbox),
        refl,
        refl,
      ),
      λ down created. publish_each-down 0 picked db down created,
    )
