-- ===== src/DbWriter/Messages/Mirror.antt =====
-- The copies of messages that go to Kafka.
use perpetual_futures_exchan.Prelude.{
  ◌≡◌, refl, sym, ◌∙◌, Bool, true, false, List, [], ◌∷◌, ◌++◌, arith,
}
use perpetual_futures_exchan.Big.{Js}
use perpetual_futures_exchan.Store.{Db}
use perpetual_futures_exchan.Store.Monad.{ok}
use perpetual_futures_exchan.Store.Session.{Reply, ended}
use perpetual_futures_exchan.Store.Numeric.{Postgres}
use perpetual_futures_exchan.DbWriter.{
  EngineEvent, EventKind, handle_order_accepted, handle_order_rejected, handle_order_filled,
  handle_order_canceled,
}
use perpetual_futures_exchan.DbWriter.Trade.{handle_trade_executed}
use perpetual_futures_exchan.DbWriter.Messages.{
  World, handle_order_book_updated, on_tables, ends_with, dispatch, handle_message,
}

module _ ⦃js : Js⦄ ⦃pg : Postgres⦄ where
  -- The answer and the tables of a handler do not depend on Kafka, and it sends nothing there itself.
  pub record Alike (a b : Reply (Unit {0}) × World) (sent : List EngineEvent) (up : Bool)
      : Type 0 where
    pub answer : a.0 ≡ b.0
    pub tables : a.1.db ≡ b.1.db
    pub books : a.1.books ≡ b.1.books
    pub topic : b.1.kafka ≡ sent
    pub reachable : b.1.kafka_up ≡ up

  abbrev pub with_kafka : List EngineEvent → Bool → World → World
  with_kafka sent up w = record w { kafka = sent; kafka_up = up }

  on_tables-Alike :
      (f : Db → Reply (Unit {0}) × Db) (w : World) (sent : List EngineEvent) (up : Bool)
      → Alike (on_tables f w) (on_tables f (with_kafka sent up w)) sent up
  on_tables-Alike f w sent up = record {
    answer = refl;
    tables = refl;
    books = refl;
    topic = refl;
    reachable = refl;
  }

  book-Alike :
      (ev : EngineEvent) (w : World) (sent : List EngineEvent) (up : Bool)
      → Alike
          (handle_order_book_updated ev w)
          (handle_order_book_updated ev (with_kafka sent up w))
          sent
          up
  unfolding handle_order_book_updated
  book-Alike ev w sent up = record {
    answer = ground arith;
    tables = ground arith;
    books = ground arith;
    topic = ground arith;
    reachable = ground arith;
  }

  pub dispatch-Alike :
      (kind : EventKind) (ev : EngineEvent) (w : World) (sent : List EngineEvent) (up : Bool)
      → Alike (dispatch kind ev w) (dispatch kind ev (with_kafka sent up w)) sent up
  unfolding dispatch
  dispatch-Alike EventKind.order_accepted ev w sent up =
      on_tables-Alike (ends_with (handle_order_accepted ev)) w sent up
  dispatch-Alike EventKind.order_rejected ev w sent up =
      on_tables-Alike (ends_with (handle_order_rejected ev)) w sent up
  dispatch-Alike EventKind.order_filled ev w sent up =
      on_tables-Alike (ends_with (handle_order_filled ev)) w sent up
  dispatch-Alike EventKind.order_canceled ev w sent up =
      on_tables-Alike (ends_with (handle_order_canceled ev)) w sent up
  dispatch-Alike EventKind.trade_executed ev w sent up =
      on_tables-Alike (handle_trade_executed ev) w sent up
  dispatch-Alike EventKind.order_book_updated ev w sent up = book-Alike ev w sent up
  dispatch-Alike EventKind.other_kind ev w sent up =
      on_tables-Alike (λ db. (ended (ok tt), db)) w sent up

  abbrev pub Mirrors : EngineEvent → World → (reached missed : Reply (Unit {0}) × World) → Type 0
  Mirrors ev w reached missed =
      (reached.0 ≡ missed.0)
      × (reached.1.db ≡ missed.1.db)
      × (reached.1.books ≡ missed.1.books)
      × (reached.1.kafka ≡ w.kafka ++ (ev ∷ []))
      × (missed.1.kafka ≡ w.kafka)

  -- A message has the same answer, and the same effect on the tables and on the snapshots, whether
  -- Kafka takes the copy or not. The copy, once, is all that is sent there, whatever becomes of the
  -- message.
  pub handle_message-Mirrors :
      (ev : EngineEvent) (w : World)
      → Mirrors ev w
          (handle_message ev (record w { kafka_up = true }))
          (handle_message ev (record w { kafka_up = false }))
  unfolding handle_message
  handle_message-Mirrors ev w =
      let up = dispatch-Alike ev.kind ev w (w.kafka ++ (ev ∷ [])) true in
      let down = dispatch-Alike ev.kind ev w w.kafka false in
      (
        sym up.answer ∙ down.answer,
        sym up.tables ∙ down.tables,
        sym up.books ∙ down.books,
        up.topic,
        down.topic,
      )
