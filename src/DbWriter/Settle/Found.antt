-- ===== src/DbWriter/Settle/Found.antt =====
-- The settlement, with the two orders looked up.
use mathlib.Core.Path.{subst}
use perpetual_futures_exchan.Prelude.{ℕ, ◌≡◌, refl, sym, ap, ◌∙◌, Option, some}
use perpetual_futures_exchan.Prelude.Int.{ℤ}
use perpetual_futures_exchan.Big.{Js}
use perpetual_futures_exchan.Decimal.{DecStr}
use perpetual_futures_exchan.Store.{Db, Order, Side}
use perpetual_futures_exchan.Store.Monad.{Action, Result, ok, err, gets, ◌>>=◌, ◌>>◌}
use perpetual_futures_exchan.Store.Numeric.{Postgres, IsPostgres}
use perpetual_futures_exchan.Store.Rows.{first}
use perpetual_futures_exchan.Orders.{has_order_id}
use perpetual_futures_exchan.DbWriter.{order_by_id}
use perpetual_futures_exchan.DbWriter.Credit.{TradeEvent}
use perpetual_futures_exchan.DbWriter.Trade.{Settlement}
use perpetual_futures_exchan.DbWriter.InOrder.{pays, gives, settle_in_order}
use perpetual_futures_exchan.DbWriter.Settle.{IfOk, Good, Settled}
use perpetual_futures_exchan.DbWriter.Settle.Sides.{
  Funded, gained, given, buyer_of, seller_of, paid, given_up, pays-gives-Settled,
  gives-pays-Settled,
}

abbrev after : {A B : Type 0} → Action B → Result A × Db → Result B × Db
after k n = let (r, db') = n in elim r [ ok a ↦ k db' | err e ↦ (err e, db') ]

after_same :
    {A B : Type 0} (k k' : Action B) (n : Result A × Db)
    → IfOk (λ d. k d ≡ k' d) n
    → after k n ≡ after k' n
after_same k k' (ok a, db) h = h
after_same k k' (err e, db) h = refl

then_same :
    (m m' k k' : Action (Unit {0})) (db : Db)
    → m db ≡ m' db
    → IfOk (λ d. k d ≡ k' d) (m' db)
    → (m >> k) db ≡ (m' >> k') db
then_same m m' k k' db e h = ap (after k) e ∙ after_same k k' (m' db) h

pub IfOk-imp :
    {A : Type 0} (P Q : Db → Type 0) (r : Result A × Db)
    → ((d : Db) → P d → Q d)
    → IfOk P r
    → IfOk Q r
IfOk-imp P Q (ok a, db) f h = f db h
IfOk-imp P Q (err e, db) f h = tt

module _ ⦃js : Js⦄ ⦃pg : Postgres⦄ (laws : IsPostgres pg) (s : Settlement) (ev : TradeEvent)
    (t m : Order) (mf tf margin : DecStr) where
  -- Both orders are found where they are asked for.
  in_turn :
      (f g : Option Order → Action (Unit {0})) (db : Db)
      → order_by_id ev.taker_order_id db ≡ some t
      → order_by_id ev.maker_order_id db ≡ some m
      → (da dl : ℕ → ℕ → ℤ) → IfOk (Settled da dl db) (f (some t) db)
      → ((gets (order_by_id ev.taker_order_id) >>= f)
            >> (gets (order_by_id ev.maker_order_id) >>= g))
          db
        ≡ (f (some t) >> g (some m)) db
  in_turn f g db ft fm da dl h =
      then_same (gets (order_by_id ev.taker_order_id) >>= f) (f (some t))
        (gets (order_by_id ev.maker_order_id) >>= g) (g (some m)) db (ap (λ o. f o db) ft)
        (IfOk-imp (Settled da dl db)
          (λ d. (gets (order_by_id ev.maker_order_id) >>= g) d ≡ g (some m) d) (f (some t) db)
          (λ d k. ap (λ o. g o d) (ap (first (has_order_id ev.maker_order_id)) k.orders ∙ fm)) h)

  pub settle-Settled :
      (side : Side) (db : Db)
      → order_by_id ev.taker_order_id db ≡ some t
      → order_by_id ev.maker_order_id db ≡ some m
      → Funded s
          (buyer_of side tf mf)
          (seller_of side tf mf)
          margin
          (buyer_of side t m)
          (seller_of side t m)
          db
      → Good db
      → IfOk
          (Settled
            (gained s
              (buyer_of side tf mf)
              (seller_of side tf mf)
              (buyer_of side t m)
              (seller_of side t m))
            (given s margin (buyer_of side t m) (seller_of side t m))
            db)
          (settle_in_order s ev mf tf side db)
  settle-Settled Side.buy db ft fm f good =
      subst (IfOk _)
        (sym (
          in_turn (pays s tf) (gives s mf) db ft fm _ _
            (paid laws s tf mf margin t m db f good db f.margin_locked f.fee_available good)))
        (pays-gives-Settled laws s tf mf margin t m db f good)
  settle-Settled Side.sell db ft fm f good =
      subst (IfOk _)
        (sym (
          in_turn (gives s tf) (pays s mf) db ft fm _ _
            (given_up laws s mf tf margin m t db f good db f.quantity_locked good)))
        (gives-pays-Settled laws s mf tf margin m t db f good)
