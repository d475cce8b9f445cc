-- ===== src/Outbox/Recovery.antt =====
-- An order whose command Redis refused is sent by a later batch.
use mathlib.Core.Path.{subst}
use perpetual_futures_exchan.Prelude.{
  ℕ, ◌<◌, ◌≡◌, ◌≢◌, refl, ◌∙◌, ap, true, none, List, [], ◌∷◌, ◌++◌, arith, Bool-cases, inl, inr,
  All, length,
}
use perpetual_futures_exchan.Big.{Js}
use perpetual_futures_exchan.Store.{Db, Market, Order, OutboxEvent, Command}
use perpetual_futures_exchan.Store.Rows.{where_}
use perpetual_futures_exchan.Store.Monad.{Result, ok, err, Error}
use perpetual_futures_exchan.Store.Numeric.{Postgres}
use perpetual_futures_exchan.Orders.{PlaceOrderInput, command_payload, submit_order}
use perpetual_futures_exchan.Orders.Publish.{IsEventFor}
use perpetual_futures_exchan.Orders.Submit.{Submits, submit_order-Submits}
use perpetual_futures_exchan.Outbox.{is_pending, publish_outbox_batch}
use perpetual_futures_exchan.Outbox.Batch.{commands_of, IsOutbox, publish_outbox_batch-Publishes}

-- Only the last event is pending.
where-append :
    (rows : List OutboxEvent) (e : OutboxEvent)
    → where_ is_pending rows ≡ []
    → is_pending e ≡ true
    → where_ is_pending (rows ++ (e ∷ [])) ≡ e ∷ []
where-append [] e h p = rw p
where-append (r ∷ rows) e h p = elim (Bool-cases (is_pending r)) [
  | inl t ↦ ground arith
  | inr t ↦ rw t (where-append rows e (rw t at h) p)
]

length_zero : (rows : List OutboxEvent) → length rows ≡ 0 → rows ≡ []
length_zero [] e = refl
length_zero (r ∷ rows) e = ground arith

-- A Redis that is back, and a clock that went on.
abbrev pub recovered : ℕ → Db → Db
recovered now db = record db { redis_up = true; clock = now }

module _ ⦃js : Js⦄ ⦃pg : Postgres⦄ where
  -- The command of an order that is stored, with the request's own texts, is the only one sent.
  pub record Sends (input : PlaceOrderInput) (db db' : Db) (run : Result ℕ × Db) : Type 0 where
    pub order : Order
    pub stored : db'.orders ≡ db.orders ++ (order ∷ [])
    pub counted : run.0 ≡ ok 1
    pub kept : run.1.orders ≡ db'.orders
    pub sent :
        run.1.commands
        ≡ db.commands ++ (Command.place_order (command_payload input order.id db.clock) ∷ [])
    pub none_left : where_ is_pending run.1.outbox ≡ []

  module _ (input : PlaceOrderInput) (m : Market) (db : Db) where
    batch-Sends :
        (db' : Db) (now : ℕ) (o : Order) (e : OutboxEvent)
        → where_ is_pending db.outbox ≡ []
        → IsOutbox db'.outbox
        → db'.commands ≡ db.commands
        → db'.orders ≡ db.orders ++ (o ∷ [])
        → db'.outbox ≡ db.outbox ++ (e ∷ [])
        → IsEventFor o.id (command_payload input o.id db.clock) none e
        → Sends input db db' (publish_outbox_batch (recovered now db'))
    unfolding commands_of
    batch-Sends db' now o e idle keys same stored queued (created, _, payload, waiting) =
        let (after, run, sent, _, fewer, orders, _) =
          (publish_outbox_batch-Publishes (recovered now db') keys).0 refl in
        let one : where_ is_pending db'.outbox ≡ e ∷ [] =
          rw queued (where-append db.outbox e idle (rw waiting)) in
        rw run (record {
          order = o;
          stored = stored;
          counted = rw one;
          kept = orders;
          sent = sent ∙ rw (one, created, payload, same);
          none_left = length_zero (where_ is_pending after.outbox) (rw one at fewer);
        })

    Sends-from :
        (db' : Db) (now : ℕ) (cause : Error)
        → where_ is_pending db.outbox ≡ []
        → IsOutbox db'.outbox
        → db'.orders ≢ db.orders
        → Submits input db (err cause, db')
        → Sends input db db' (publish_outbox_batch (recovered now db'))
    Sends-from db' now cause idle keys stored (same, inl only) =
        absurd (stored (ap (λ (d : Db). d.orders) only))
    Sends-from db' now cause idle keys stored (same, inr (_, _, o, put, _, _, e, queued, event)) =
        batch-Sends db' now o e idle keys same put queued event

    -- An order is stored, and then Redis refuses its command, so that the call fails; no other event
    -- was pending, and identifiers are unique. The next batch that finds Redis up sends exactly that
    -- order's command, with the request's own texts, counts one, and leaves nothing pending.
    pub refused_order-Sends :
        (db' : Db) (now : ℕ) (cause : Error)
        → All (λ e. e.id < db.next_id) db.outbox
        → where_ is_pending db.outbox ≡ []
        → submit_order input m db ≡ (err cause, db')
        → db'.orders ≢ db.orders
        → IsOutbox db'.outbox
        → Sends input db db' (publish_outbox_batch (recovered now db'))
    refused_order-Sends db' now cause fresh idle failed stored keys =
        Sends-from db' now cause idle keys stored
          (subst (Submits input db) failed (submit_order-Submits input m db fresh))
