-- ===== src/Outbox.antt =====
-- Server/src/workers/outboxWorker.ts: sending the events again that were never published.
pub mod Batch
pub mod Recovery
mod Tests
use perpetual_futures_exchan.Prelude.{ℕ, ◌+◌, Bool, List, [], ◌∷◌, take}
use perpetual_futures_exchan.Store.{Db, OutboxEvent, EventType, Command}
use perpetual_futures_exchan.Store.Rows.{where_}
use perpetual_futures_exchan.Store.Monad.{Action, pure, done, ◌>>=◌, ◌>>◌, gets, modify, catch_all}
use perpetual_futures_exchan.Orders.{is_none, xadd, mark_published}

-- `isNull(outbox.publishedAt)`
abbrev pub is_pending : OutboxEvent → Bool
is_pending e = is_none e.published_at

-- Only an `order_created` event has a command.
abbrev pub send_event : EventType → OutboxEvent → Action (Unit {0})
send_event EventType.order_created row = xadd (Command.place_order row.payload)
send_event EventType.other_event row = done

abbrev pub publish_row : OutboxEvent → Action (Unit {0})
publish_row row = send_event row.event_type row >> modify (mark_published row.id)

-- The loop: a row that fails is not counted, and does not stop it.
unfoldable pub publish_each : ℕ → List OutboxEvent → Action ℕ
publish_each published [] = pure published
publish_each published (row ∷ rows) =
    catch_all (publish_row row >> pure (published + 1)) (pure published) >>= λ counted.
    publish_each counted rows

-- The select has no `order by`: that the rows come in the order of the table, as PostgreSQL gives them
-- on a scan of a table whose rows have not moved, is this model's choice.
unfoldable pub publish_outbox_batch : Action ℕ
unfolding publish_each
publish_outbox_batch = do
  pending ← gets (λ db. take 100 (where_ is_pending db.outbox))
  publish_each 0 pending
