-- ===== src/DbWriter/InOrder/Sides.antt =====
-- Each side of the settlement, on two connections and on one.
use perpetual_futures_exchan.Prelude.{ℕ, ◌≡◌, refl, sym, Option, none, some, List}
use perpetual_futures_exchan.Big.{Js}
use perpetual_futures_exchan.Decimal.{DecStr}
use perpetual_futures_exchan.Store.{Order}
use perpetual_futures_exchan.Store.Monad.{Action, gets, ◌>>=◌, ◌>>◌}
use perpetual_futures_exchan.Store.Session
use perpetual_futures_exchan.Store.Session.{
  Session, Reply, ended, waits, Tx, commit, skip, in_tx, write_balance, elsewhere,
}
use perpetual_futures_exchan.Store.Numeric.{Postgres}
use perpetual_futures_exchan.Balance.{debit_locked}
use perpetual_futures_exchan.Orders.{margin_for}
use perpetual_futures_exchan.DbWriter.{order_by_id, stored_leverage}
use perpetual_futures_exchan.DbWriter.Credit.{credit_available, debit_available}
use perpetual_futures_exchan.DbWriter.Trade.{
  Settlement, proceeds, pay_margin, buyer_pays, seller_gives, debit_locked_elsewhere,
}
use perpetual_futures_exchan.DbWriter.Agree.{
  At, Agrees, Follows, Follows-pre, widen-Aligned, Follows-then, debit_locked-Agrees,
}
use perpetual_futures_exchan.DbWriter.Agree.Writes.{
  statement, credit_available-Agrees, debit_available-Agrees,
}
use mathlib.Core.Path.{subst}
use perpetual_futures_exchan.DbWriter.InOrder.{gives, pay_in_order, pays}

module _ ⦃js : Js⦄ ⦃pg : Postgres⦄ where
  -- One side of the settlement: a user outside `P` joins those who have written rows.
  module _ (P Q : ℕ → Type 0) (os : List Order) (s : Settlement) (fee : DecStr) (o : Order)
      (wider : (v : ℕ) → P v → Q v) (out : P o.user_id → ⊥) (mine : Q o.user_id) where
    widened : (r : Session) → At P os r → At Q os r
    widened r (al, e) = (widen-Aligned P Q r wider al, e)

    debit_then :
        (a : ℕ) (x : DecStr) (t : Tx (Unit {0})) (m : Action (Unit {0}))
        → Follows (At Q os) (At Q os) t m
        → Follows
            (At P os)
            (At Q os)
            (Session.◌>>◌ (debit_locked_elsewhere o.user_id a x) t)
            (debit_locked o.user_id a x >> m)
    debit_then a x t m h =
        Follows-then (At P os) (At P os) (At Q os) (debit_locked_elsewhere o.user_id a x) t
          (debit_locked o.user_id a x) m (debit_locked-Agrees P os o.user_id a x out)
          (Follows-pre (At P os) (At Q os) (At Q os) t m widened h)

    pub seller_gives-Agrees :
        Follows (At P os) (At Q os) (seller_gives s fee (some o)) (gives s fee (some o))
    unfolding seller_gives
    seller_gives-Agrees =
        debit_then s.base_asset_id s.quantity _ _
          (credit_available-Agrees Q os o.user_id s.quote_asset_id (proceeds s fee) mine)

    pay_margin-Agrees :
        (margin : Option DecStr)
        → Follows (At P os) (At Q os) (pay_margin s fee o margin) (pay_in_order s fee o margin)
    unfolding pay_margin
    pay_margin-Agrees none = λ r pre. refl
    pay_margin-Agrees (some margin) =
        let fee_step = debit_available o.user_id s.quote_asset_id fee in
        let credit = credit_available o.user_id s.base_asset_id s.quantity in
        Follows-then (At P os) (At Q os) (At Q os)
          (Session.◌>>◌ (debit_locked_elsewhere o.user_id s.quote_asset_id margin)
            (write_balance fee_step))
          (write_balance credit)
          (debit_locked o.user_id s.quote_asset_id margin >> statement fee_step) (statement credit)
          (debit_then s.quote_asset_id margin (write_balance fee_step) (statement fee_step)
            (debit_available-Agrees Q os o.user_id s.quote_asset_id fee mine))
          (credit_available-Agrees Q os o.user_id s.base_asset_id s.quantity mine)

    pub buyer_pays-Agrees :
        Follows (At P os) (At Q os) (buyer_pays s fee (some o)) (pays s fee (some o))
    unfolding buyer_pays
    buyer_pays-Agrees = pay_margin-Agrees (margin_for s.notional (stored_leverage o))

  -- The order is the one that the transaction sees.
  pub found-Agrees :
      (Pre Post : Session → Type 0) (id : ℕ) (o : Order) (f : Option Order → Tx (Unit {0}))
      (g : Option Order → Action (Unit {0}))
      → ((r : Session) → Pre r → order_by_id id r.inside ≡ some o)
      → Follows Pre Post (f (some o)) (g (some o))
      → Follows Pre Post
          (Session.◌>>=◌ (in_tx (gets (order_by_id id))) f)
          (gets (order_by_id id) >>= g)
  found-Agrees Pre Post id o f g found h r pre =
      subst (λ x. Agrees Post (f x r) (g x r.inside)) (sym (found r pre)) (h r pre)
