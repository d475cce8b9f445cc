-- ===== src/DbWriter/InOrder/Whole.antt =====
-- The handler of TRADE_EXECUTED comes to the same as a trade on one connection.
use perpetual_futures_exchan.Prelude.{
  ℕ, ◌≡◌, ◌≢◌, refl, sym, ap, ◌∙◌, Bool, false, Option, none, some, List, [], if◌then◌else◌, inl,
  inr, ◌⊎◌,
}
use perpetual_futures_exchan.Big.{Js}
use perpetual_futures_exchan.Decimal.{DecStr}
use perpetual_futures_exchan.Store.{Db, Market, Order, Side}
use perpetual_futures_exchan.Store.Monad.{Action, gets, transaction, ◌>>=◌, ◌>>◌}
use perpetual_futures_exchan.Store.Session
use perpetual_futures_exchan.Store.Session.{
  Session, Reply, ended, waits, Tx, commit, skip, in_tx, write_balance, elsewhere,
}
use perpetual_futures_exchan.Store.Numeric.{Postgres}
use perpetual_futures_exchan.DbWriter.{EngineEvent, order_by_id, apply_trade_to_order}
use perpetual_futures_exchan.DbWriter.Credit.{TradeEvent, opposite, is_external, insert_fill}
use perpetual_futures_exchan.DbWriter.Positions.{upsert_position}
use perpetual_futures_exchan.DbWriter.Trade.{
  Settlement, settlement, position_fill, fee_of, trade_of, market_of, trade_body, buyer_pays,
  seller_gives, follow, synthetic_orders, execute, execute_in, execute_trade, settle,
  handle_trade_executed,
}
use perpetual_futures_exchan.DbWriter.Together.{Together-refl}
use perpetual_futures_exchan.DbWriter.Agree.{Aligned, At, Follows, Follows-then}
use perpetual_futures_exchan.DbWriter.Agree.Statements.{
  Agrees-weaken, insert_fill-Agrees, upsert_position-Agrees, apply_trade_to_order-Agrees,
}
use mathlib.Core.Path.{subst}
use perpetual_futures_exchan.Store.Rows.{first}
use perpetual_futures_exchan.Orders.{has_order_id}
use perpetual_futures_exchan.DbWriter.InOrder.{
  Executes, IsTradable, charge, committed-Executes, follow_in_order, gives, pays, settle_in_order,
  trade_at_once, trade_in_order,
}
use perpetual_futures_exchan.DbWriter.InOrder.Sides.{
  buyer_pays-Agrees, found-Agrees, seller_gives-Agrees,
}

module _ ⦃js : Js⦄ ⦃pg : Postgres⦄ where
  -- The two users differ, and neither of them is the external one.
  module _ (ev : TradeEvent) (os : List Order) (t m : Order)
      (taker_found : first (has_order_id ev.taker_order_id) os ≡ some t)
      (maker_found : first (has_order_id ev.maker_order_id) os ≡ some m)
      (differ : t.user_id ≢ m.user_id) (maker_internal : is_external ev.maker_user_id ≡ false)
      (taker_internal : is_external ev.taker_user_id ≡ false) where
    Nobody : ℕ → Type 0
    Nobody v = ⊥

    Taker : ℕ → Type 0
    Taker v = v ≡ t.user_id

    Both : ℕ → Type 0
    Both v = (v ≡ t.user_id) ⊎ (v ≡ m.user_id)

    seen_order :
        (P : ℕ → Type 0) (id : ℕ) (o : Order)
        → first (has_order_id id) os ≡ some o
        → (r : Session) → At P os r
        → order_by_id id r.inside ≡ some o
    seen_order P id o found r (al, e) = ap (first (has_order_id id)) e ∙ found

    internal :
        (Pre Post : Session → Type 0) (b : Bool) (x : Tx (Unit {0})) (y : Action (Unit {0}))
        → b ≡ false
        → Follows Pre Post x y
        → Follows Pre Post (if b then skip else x) y
    internal Pre Post b x y e h = subst (λ c. Follows Pre Post (if c then skip else x) y) (sym e) h

    -- First the taker's side, then the maker's.
    sides-Agrees :
        (f g : Option Order → Tx (Unit {0})) (f' g' : Option Order → Action (Unit {0}))
        → Follows (At Nobody os) (At Taker os) (f (some t)) (f' (some t))
        → Follows (At Taker os) (At Both os) (g (some m)) (g' (some m))
        → Follows
            (At Nobody os)
            (At Both os)
            (Session.◌>>◌ (Session.◌>>=◌ (in_tx (gets (order_by_id ev.taker_order_id))) f) (
              Session.◌>>=◌
                (in_tx (gets (order_by_id ev.maker_order_id)))
                (λ maker. if is_external ev.maker_user_id then skip else g maker)))
            ((gets (order_by_id ev.taker_order_id) >>= f')
              >> (gets (order_by_id ev.maker_order_id) >>= g'))
    sides-Agrees f g f' g' h k =
        Follows-then (At Nobody os) (At Taker os) (At Both os) _ _ _ _
          (found-Agrees (At Nobody os) (At Taker os) ev.taker_order_id t f f'
            (seen_order Nobody ev.taker_order_id t taker_found) h)
          (found-Agrees (At Taker os) (At Both os) ev.maker_order_id m
            (λ maker. if is_external ev.maker_user_id then skip else g maker) g'
            (seen_order Taker ev.maker_order_id m maker_found)
            (internal (At Taker os) (At Both os) (is_external ev.maker_user_id) (g (some m))
              (g' (some m)) maker_internal k))

    settle-Agrees :
        (s : Settlement) (mf tf : DecStr) (side : Side)
        → Follows
            (At Nobody os)
            (At Both os)
            (settle s ev mf tf side)
            (settle_in_order s ev mf tf side)
    unfolding settle Nobody Taker Both
    settle-Agrees s mf tf Side.buy =
        sides-Agrees (buyer_pays s tf) (seller_gives s mf) (pays s tf) (gives s mf)
          (buyer_pays-Agrees Nobody Taker os s tf t (λ v h. absurd h) (λ h. h) refl)
          (seller_gives-Agrees Taker Both os s mf m (λ v h. inl h) (λ e. differ (sym e)) (inr refl))
    settle-Agrees s mf tf Side.sell =
        sides-Agrees (seller_gives s tf) (buyer_pays s mf) (gives s tf) (pays s mf)
          (seller_gives-Agrees Nobody Taker os s tf t (λ v h. absurd h) (λ h. h) refl)
          (buyer_pays-Agrees Taker Both os s mf m (λ v h. inl h) (λ e. differ (sym e)) (inr refl))

    aligned : (r : Session) → At Both os r → Aligned Both r
    aligned r h = h.0

    follow-Agrees :
        (market_id : ℕ)
        → Follows (Aligned Both) (Aligned Both) (follow market_id ev) (follow_in_order market_id ev)
    unfolding follow
    follow-Agrees market_id =
        let taker = position_fill market_id ev.taker_user_id ev.taker_order_id ev.side ev in
        let maker =
          position_fill market_id ev.maker_user_id ev.maker_order_id (opposite ev.side) ev in
        Follows-then (Aligned Both) (Aligned Both) (Aligned Both) _ _ (upsert_position taker)
          (upsert_position maker)
          (internal (Aligned Both) (Aligned Both) (is_external ev.taker_user_id) _
            (upsert_position taker) taker_internal (upsert_position-Agrees Both taker))
          (internal (Aligned Both) (Aligned Both) (is_external ev.maker_user_id) _
            (upsert_position maker) maker_internal (upsert_position-Agrees Both maker))

    opening-Agrees :
        (market : Market) (mf tf : DecStr)
        → Follows
            (At Nobody os)
            (At Nobody os)
            (Session.◌>>◌ (synthetic_orders market.id ev) (in_tx (insert_fill market.id ev mf tf)))
            (insert_fill market.id ev mf tf)
    unfolding synthetic_orders
    opening-Agrees market mf tf r pre =
        rw (maker_internal, taker_internal) (insert_fill-Agrees Nobody os market.id ev mf tf r pre)

    trade_body-Agrees :
        (market : Market) (mf tf : DecStr)
        → Follows
            (At Nobody os)
            (Aligned Both)
            (trade_body market ev mf tf)
            (trade_in_order market ev mf tf)
    unfolding trade_body
    trade_body-Agrees market mf tf =
        let s = settlement market ev in
        let fill = insert_fill market.id ev mf tf in
        let a = apply_trade_to_order ev.maker_order_id ev.quantity ev.price in
        let b = apply_trade_to_order ev.taker_order_id ev.quantity ev.price in
        let opening = Session.◌>>◌ (synthetic_orders market.id ev) (in_tx fill) in
        let settled = Session.◌>>◌ opening (settle s ev mf tf ev.side) in
        let settled_m = fill >> settle_in_order s ev mf tf ev.side in
        let applied = Session.◌>>◌ settled (elsewhere a) in
        Follows-then (At Nobody os) (Aligned Both) (Aligned Both)
          (Session.◌>>◌ applied (elsewhere b)) (follow market.id ev) (settled_m >> a >> b)
          (follow_in_order market.id ev)
          (Follows-then (At Nobody os) (Aligned Both) (Aligned Both) applied (elsewhere b)
            (settled_m >> a) b
            (Follows-then (At Nobody os) (Aligned Both) (Aligned Both) settled (elsewhere a)
              settled_m a
              (Follows-then (At Nobody os) (At Nobody os) (Aligned Both) opening
                (settle s ev mf tf ev.side) fill (settle_in_order s ev mf tf ev.side)
                (opening-Agrees market mf tf)
                (λ r pre.
                  Agrees-weaken (At Both os) (Aligned Both) (settle s ev mf tf ev.side r)
                    (settle_in_order s ev mf tf ev.side r.inside) aligned
                    (settle-Agrees s mf tf ev.side r pre)))
              (apply_trade_to_order-Agrees Both ev.maker_order_id ev.quantity ev.price))
            (apply_trade_to_order-Agrees Both ev.taker_order_id ev.quantity ev.price))
          (follow-Agrees market.id)

  trade-Executes :
      (market : Market) (ev : TradeEvent) (mf tf : DecStr) (db : Db)
      → IsTradable ev db
      → Executes
          (commit (trade_body market ev mf tf) db)
          (transaction (trade_in_order market ev mf tf) db)
  unfolding Nobody
  trade-Executes market ev mf tf db h =
      committed-Executes _ db _ (trade_in_order market ev mf tf db) (
        trade_body-Agrees ev db.orders h.taker h.maker h.taker_found h.maker_found h.differ
          h.maker_internal h.taker_internal market mf tf
          (record { outside = db; inside = db; held = [] })
          (
            record {
              rows = Together-refl _ db.balances;
              orders = refl;
              clock = refl;
              table = h.table;
              fresh = h.fresh;
            },
            refl,
          ))

  execute-Executes :
      (ev : TradeEvent) (market : Market) (db : Db) (tf mf : Option DecStr)
      → IsTradable ev db
      → Executes (execute ev market tf mf db) (charge market ev tf mf db)
  unfolding execute
  execute-Executes ev market db none mf h = refl
  execute-Executes ev market db (some tf) none h = refl
  execute-Executes ev market db (some tf) (some mf) h = trade-Executes market ev mf tf db h

  -- TRADE_EXECUTED, for two orders of different users, neither of whom is the external one, never
  -- waits for ever, and comes to the same as its statements run on one connection in one transaction:
  -- the fill, the settlement of the taker and of the maker, both orders, both positions. The tables
  -- are the same if it commits, and the error is the same if it does not. No field of the event is
  -- missing, and the market and its assets are known; the balances have unique keys, and identifiers
  -- are fresh.
  pub handle_trade_executed-Executes :
      (event : EngineEvent) (ev : TradeEvent) (market : Market) (db : Db)
      → trade_of event ≡ some ev
      → market_of ev db ≡ some market
      → IsTradable ev db
      → Executes (handle_trade_executed event db) (trade_at_once market ev db)
  unfolding handle_trade_executed execute_trade execute_in
  handle_trade_executed-Executes event ev market db complete known h =
      let goal = trade_at_once market ev db in
      subst (λ x. Executes (execute_trade x db) goal) (sym complete)
        (subst (λ x. Executes (execute_in ev x db) goal) (sym known)
          (execute-Executes ev market db (fee_of ev market.taker_fee_bps)
            (fee_of ev market.maker_fee_bps) h))
