-- ===== src/DbWriter/Messages/Chain.antt =====
-- The chain of messages: their order, and progress past failures.
use mathlib.Core.List.{append-nil, append_assoc}
use perpetual_futures_exchan.Prelude.{
  ◌≡◌, ◌≢◌, refl, sym, ap, ◌∙◌, true, List, [], ◌∷◌, ◌++◌, All, arith, Bool-cases, Option-cases,
  if◌then◌else◌, false, inl, inr,
}
use perpetual_futures_exchan.Big.{Js}
use perpetual_futures_exchan.Store.Monad.{Result, ok, err, redis_error}
use perpetual_futures_exchan.Store.Session.{Reply, ended, waits}
use perpetual_futures_exchan.Store.Numeric.{Postgres}
use perpetual_futures_exchan.DbWriter.{EngineEvent, EventKind}
use perpetual_futures_exchan.DbWriter.Messages.{
  World, handle_order_book_updated, publish_engine_event, mirrored, dispatch, handle_message,
  run_chain,
}
use perpetual_futures_exchan.DbWriter.Messages.Mirror.{dispatch-Alike}

module _ ⦃js : Js⦄ ⦃pg : Postgres⦄ where
  run_on :
      (ev : EngineEvent) (evs : List EngineEvent) (w : World) (a : Result (Unit {0}))
      → (handle_message ev w).0 ≡ ended a
      → run_chain (ev ∷ evs) w ≡ run_chain evs (handle_message ev w).1
  unfolding run_chain
  run_on ev evs w a e =
      ap
        (λ (r : Reply (Unit {0})). elim r [
          | ended _ ↦ run_chain evs (handle_message ev w).1
          | waits ↦ ((handle_message ev w).1, ev ∷ evs)
        ])
        e

  run_nothing : (w : World) → run_chain [] w ≡ (w, [])
  unfolding run_chain
  run_nothing w = refl

  quiet_dispatch :
      (kind : EventKind) (ev : EngineEvent) (w : World)
      → kind ≢ EventKind.trade_executed
      → (a : Result (Unit {0})) × ((dispatch kind ev w).0 ≡ ended a)
  unfolding dispatch handle_order_book_updated
  quiet_dispatch EventKind.order_accepted ev w ne = (_, refl)
  quiet_dispatch EventKind.order_rejected ev w ne = (_, refl)
  quiet_dispatch EventKind.order_filled ev w ne = (_, refl)
  quiet_dispatch EventKind.order_canceled ev w ne = (_, refl)
  quiet_dispatch EventKind.trade_executed ev w ne = absurd (ne refl)
  quiet_dispatch EventKind.order_book_updated ev w ne = elim (Option-cases ev.market) [
    | inl missing ↦ (ok tt, ground arith)
    | inr (m, found) ↦ elim (Bool-cases w.db.redis_up) [
      | inl on ↦ (ok tt, ground arith)
      | inr off ↦ (err redis_error, ground arith)
    ]
  ]
  quiet_dispatch EventKind.other_kind ev w ne = (_, refl)

  ends :
      (ev : EngineEvent) (w : World)
      → ev.kind ≢ EventKind.trade_executed
      → (a : Result (Unit {0})) × ((handle_message ev w).0 ≡ ended a)
  unfolding handle_message
  ends ev w ne = quiet_dispatch ev.kind ev (mirrored (publish_engine_event ev w)) ne

  -- The topic of Kafka once these messages were sent there, if it takes any.
  abbrev pub copied : World → List EngineEvent → List EngineEvent
  copied w evs = if w.kafka_up then w.kafka ++ evs else w.kafka

  copied_once :
      (ev : EngineEvent) (w : World)
      → ((handle_message ev w).1.kafka ≡ copied w (ev ∷ []))
        × ((handle_message ev w).1.kafka_up ≡ w.kafka_up)
  unfolding handle_message
  copied_once ev w = elim (Bool-cases w.kafka_up) [
    | inl up ↦
        let h = dispatch-Alike ev.kind ev w (w.kafka ++ (ev ∷ [])) true in
        rw up (h.topic, h.reachable)
    | inr down ↦ let h = dispatch-Alike ev.kind ev w w.kafka false in rw down (h.topic, h.reachable)
  ]

  copied_up :
      (evs : List EngineEvent) (w : World) → w.kafka_up ≡ true → copied w evs ≡ w.kafka ++ evs
  copied_up evs w up = rw up

  -- Where a run stops, with what it leaves over.
  abbrev pub Stops : List EngineEvent → World → World × List EngineEvent → Type 0
  Stops evs w (w', []) = w'.kafka ≡ copied w evs
  Stops evs w (w', ev ∷ left) =
      (handled : List EngineEvent) × (before : World) × (evs ≡ handled ++ (ev ∷ left))
      × (run_chain handled w ≡ (before, []))
      × (handle_message ev before ≡ (waits, w'))
      × (w'.kafka ≡ copied w (handled ++ (ev ∷ [])))

  -- A run in which nothing is left over.
  abbrev pub HandlesAll : List EngineEvent → World → World × List EngineEvent → Type 0
  HandlesAll evs w r = (r.1 ≡ []) × (w.kafka_up ≡ true → r.0.kafka ≡ w.kafka ++ evs)

  -- Messages of which none is a TRADE_EXECUTED are all handled, whatever fails, and, if Kafka takes
  -- messages, each of them is sent there once, in their order.
  pub run_chain-HandlesAll :
      (evs : List EngineEvent) (w : World)
      → All (λ (ev : EngineEvent). ev.kind ≢ EventKind.trade_executed) evs
      → HandlesAll evs w (run_chain evs w)
  run_chain-HandlesAll [] w h = rw (run_nothing w) (refl, λ up. sym (append-nil w.kafka))
  run_chain-HandlesAll (ev ∷ evs) w (ne, h) =
      let (a, e) = ends ev w ne in
      let w' = (handle_message ev w).1 in
      let (none_left, copies) = run_chain-HandlesAll evs w' h in
      rw (run_on ev evs w a e) (
        none_left,
        λ up.
            let (once, still) = copied_once ev w in
            copies (still ∙ up)
            ∙ ap (λ x. x ++ evs) (once ∙ copied_up (ev ∷ []) w up)
            ∙ append_assoc w.kafka (ev ∷ []) evs,
      )
