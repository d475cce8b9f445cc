-- ===== src/DbWriter/Agree/Statements.antt =====
-- The trade's other statements: the fill and the positions, which it writes itself, and the orders,
-- which are written on other connections.
use mathlib.Core.Path.{subst}
use perpetual_futures_exchan.Prelude.{
  ℕ, ◌<◌, ◌≤◌, ◌≡◌, refl, ap, ◌∙◌, Bool, false, List, [], ◌∷◌, arith, Option-cases, inl, inr,
  All-imp,
}
use perpetual_futures_exchan.Big.{Js}
use perpetual_futures_exchan.Decimal.{DecStr}
use perpetual_futures_exchan.Store.{Db, Balance, Order}
use perpetual_futures_exchan.Store.Rows.{first, update_rows}
use perpetual_futures_exchan.Store.Monad.{Result, ok, err, gets}
use perpetual_futures_exchan.Store.Session.{Session, Reply, ended, waits, in_tx, elsewhere, seen}
use perpetual_futures_exchan.Store.Numeric.{Postgres}
use perpetual_futures_exchan.Balance.Fresh.{IsFresh}
use perpetual_futures_exchan.Orders.{truthy, or_else, has_order_id}
use perpetual_futures_exchan.Orders.Cancel.{update_order}
use perpetual_futures_exchan.DbWriter.{order_by_id, filled_text, status_after, apply_trade_to_order}
use perpetual_futures_exchan.DbWriter.Fills.{
  fill_row, apply_missing, apply_unfilled, apply_unpriced, apply_done,
}
use perpetual_futures_exchan.DbWriter.Credit.{TradeEvent, insert_fill}
use perpetual_futures_exchan.DbWriter.Positions.{PositionFill, upsert_position}
use perpetual_futures_exchan.DbWriter.Together.{seen-Together}
use perpetual_futures_exchan.DbWriter.Agree.{
  Aligned, At, Agrees, Follows, Keeps, in_tx-Agrees, orders-see,
}

later-IsFresh : (m n : ℕ) (rows : List Balance) → m ≤ n → IsFresh m rows → IsFresh n rows
later-IsFresh m n rows le h = All-imp (λ b. b.id < m) (λ b. b.id < n) rows (λ b lt. omega arith) h

seen-update :
    (p : Order → Bool) (f : Order → Order) (os : List Order)
    → seen (λ (o : Order). false) (update_rows p f os) os ≡ update_rows p f os
seen-update p f [] = refl
seen-update p f (o ∷ os) = rw (seen-update p f os)

update-see :
    (p : Order → Bool) (f : Order → Order) (ins outs : List Order)
    → ins ≡ outs
    → seen (λ (o : Order). false) (update_rows p f outs) ins ≡ update_rows p f ins
update-see p f ins outs e =
    subst (λ x. seen (λ (o : Order). false) (update_rows p f x) ins ≡ update_rows p f ins) e
      (seen-update p f ins)

pub Agrees-weaken :
    {A : Type 0} (Post Post' : Session → Type 0) (x : Reply A × Session) (n : Result A × Db)
    → ((s : Session) → Post s → Post' s)
    → Agrees Post x n
    → Agrees Post' x n
Agrees-weaken Post Post' (ended (ok a), s) n f (e, h) = (e, f s h)
Agrees-weaken Post Post' (ended (err x), s) n f h = h
Agrees-weaken Post Post' (waits, s) n f h = h

module _ ⦃js : Js⦄ ⦃pg : Postgres⦄ where
  pub insert_fill-Keeps :
      (market_id : ℕ) (ev : TradeEvent) (mf tf : DecStr) (db : Db)
      → Keeps db (insert_fill market_id ev mf tf db).1
  unfolding insert_fill
  insert_fill-Keeps market_id ev mf tf db = record {
    balances = ground arith;
    orders = ground arith;
    clock = ground arith;
    fresh = λ rows. later-IsFresh db.next_id _ rows (ground arith);
  }

  pub upsert_position-Keeps : (fill : PositionFill) (db : Db) → Keeps db (upsert_position fill db).1
  unfolding upsert_position
  upsert_position-Keeps fill db = record {
    balances = ground arith;
    orders = ground arith;
    clock = ground arith;
    fresh = λ rows. later-IsFresh db.next_id _ rows (ground arith);
  }

  module _ (P : ℕ → Type 0) (os : List Order) where
    pub insert_fill-Agrees :
        (market_id : ℕ) (ev : TradeEvent) (mf tf : DecStr)
        → Follows
            (At P os)
            (At P os)
            (in_tx (insert_fill market_id ev mf tf))
            (insert_fill market_id ev mf tf)
    insert_fill-Agrees market_id ev mf tf s (al, e) =
        in_tx-Agrees P os (insert_fill market_id ev mf tf) s _ refl
          (insert_fill-Keeps market_id ev mf tf s.inside) al e

    pub gets-Agrees :
        {A : Type 0} (f : Db → A) → Follows (At P os) (At P os) (in_tx (gets f)) (gets f)
    gets-Agrees f s (al, e) = (refl, (al, e))

  pub upsert_position-Agrees :
      (P : ℕ → Type 0) (fill : PositionFill)
      → Follows (Aligned P) (Aligned P) (in_tx (upsert_position fill)) (upsert_position fill)
  upsert_position-Agrees P fill s al =
      Agrees-weaken (At P s.inside.orders) (Aligned P) (in_tx (upsert_position fill) s)
        (upsert_position fill s.inside) (λ s' h. h.0)
        (in_tx-Agrees P s.inside.orders (upsert_position fill) s _ refl
          (upsert_position-Keeps fill s.inside) al refl)

  module _ (P : ℕ → Type 0) (id : ℕ) (qty price : DecStr) where
    pub apply_trade_to_order-Agrees :
        Follows
          (Aligned P)
          (Aligned P)
          (elsewhere (apply_trade_to_order id qty price))
          (apply_trade_to_order id qty price)
    apply_trade_to_order-Agrees s al =
        let same : order_by_id id s.inside ≡ order_by_id id s.outside =
          ap (first (has_order_id id)) al.orders in
        let quiet = seen-Together P s.held s.outside.balances s.inside.balances al.rows in
        let ordered = orders-see s.inside.orders s.outside.orders al.orders in
        elim (Option-cases (order_by_id id s.outside)) [
          | inl missing ↦
              rw
                (
                  apply_missing id qty price s.outside missing,
                  apply_missing id qty price s.inside (same ∙ missing),
                  quiet,
                  ordered,
                )
                (refl, al)
          | inr (o, found) ↦ elim (Option-cases (pg.column (filled_text qty o))) [
            | inl refused ↦
                rw
                  (
                    apply_unfilled id qty price o s.outside found refused,
                    apply_unfilled id qty price o s.inside (same ∙ found) refused,
                    quiet,
                    ordered,
                  )
                  refl
            | inr (f, kept) ↦ elim (Option-cases (pg.column (or_else (truthy o.price) price))) [
              | inl refused ↦
                  rw
                    (
                      apply_unpriced id qty price o s.outside found f kept refused,
                      apply_unpriced id qty price o s.inside (same ∙ found) f kept refused,
                      quiet,
                      ordered,
                    )
                    refl
              | inr (p, priced) ↦
                  let change = fill_row f (status_after qty o) p s.outside.clock o in
                  let outside_run = apply_done id qty price o s.outside found f p kept priced in
                  let inside_run : apply_trade_to_order id qty price s.inside
                      ≡ (ok tt, update_order id change s.inside) =
                    subst
                      (λ c.
                        apply_trade_to_order id qty price s.inside
                        ≡ (ok tt, update_order id (fill_row f (status_after qty o) p c o) s.inside))
                      al.clock
                      (apply_done id qty price o s.inside (same ∙ found) f p kept priced) in
                  rw
                    (
                      outside_run,
                      inside_run,
                      quiet,
                      update-see (has_order_id id) change s.inside.orders s.outside.orders
                          al.orders,
                    )
                    (
                      refl,
                      record {
                        rows = al.rows;
                        orders = ap (update_rows (has_order_id id) change) al.orders;
                        clock = al.clock;
                        table = al.table;
                        fresh = al.fresh;
                      },
                    )
            ]
          ]
        ]
