-- ===== src/DbWriter/Fills.antt =====
-- What a trade does to the order that took part in it.
use perpetual_futures_exchan.Prelude.{
  ℕ, ◌≤◌, ◌≡◌, ◌≢◌, ◌↔◌, refl, ◌∙◌, Bool, true, false, none, some, List, [], ◌∷◌, arith,
  if◌then◌else◌, Option-cases, inl, inr,
}
use perpetual_futures_exchan.Prelude.Int.{ℤ, pos, ◌+ℤ◌, ◌≤ℤ◌, ◌<ℤ◌, int_laws}
use perpetual_futures_exchan.Big.{Js}
use perpetual_futures_exchan.Decimal.{DecStr, zero_text, add, gte, gt, places, amount}
use perpetual_futures_exchan.Decimal.Laws.{amount-add, places-add, gte-iff-amount, gt-zero_iff}
use perpetual_futures_exchan.Store.{Db, Order, OrderStatus}
use perpetual_futures_exchan.Store.Rows.{first, update_rows}
use perpetual_futures_exchan.Store.Monad.{Result, ok, err, numeric_field_overflow}
use perpetual_futures_exchan.Store.Numeric.{Postgres, IsPostgres}
use perpetual_futures_exchan.Orders.{has_order_id, truthy, or_else}
use perpetual_futures_exchan.Orders.Cancel.{update_order}
use perpetual_futures_exchan.Orders.Canceled.{first-update_other}
use perpetual_futures_exchan.DbWriter.{
  order_by_id, filled_text, status_after, is_filled, apply_trade_to_order,
}

abbrev pub fill_row : DecStr → OrderStatus → DecStr → ℕ → Order → Order → Order
fill_row filled status_now price now order o = record o {
  filled_quantity = filled;
  status = status_now;
  updated_at = now;
  executed_at = if is_filled status_now then some now else order.executed_at;
  price = some price;
}

first-update_id :
    (id : ℕ) (f : Order → Order) (rows : List Order) (o : Order)
    → ((o : Order) → (f o).id ≡ o.id)
    → first (has_order_id id) rows ≡ some o
    → first (has_order_id id) (update_rows (has_order_id id) f rows) ≡ some (f o)
first-update_id id f [] o kept e = cc
first-update_id id f (r ∷ rows) o kept e = ground (arith, kept r, first-update_id id f rows o kept)

-- The status after a fill of a positive quantity, by the order's quantity and what is filled of it.
abbrev pub StatusOf : OrderStatus → (quantity filled : ℤ) → Type 0
StatusOf s quantity filled =
    ((s ≡ OrderStatus.filled) ↔ (quantity ≤ℤ filled))
    × (filled <ℤ quantity → s ≡ OrderStatus.partially_filled)

chosen-StatusOf :
    (full part : Bool) (s : OrderStatus) (quantity filled : ℤ)
    → (full ≡ true) ↔ (quantity ≤ℤ filled)
    → part ≡ true
    → StatusOf
        (if full then OrderStatus.filled else (if part then OrderStatus.partially_filled else s))
        quantity
        filled
chosen-StatusOf true part s quantity filled is p =
    ((λ e. is.0 refl, λ le. refl), λ lt. absurd (omega (int_laws, is.0 refl)))
chosen-StatusOf false true s quantity filled is p =
    ((λ e. cc, λ le. let e = is.1 le in cc), λ lt. refl)
chosen-StatusOf false false s quantity filled is p = cc

module _ ⦃js : Js⦄ where
  filled_amount :
      (qty : DecStr) (o : Order)
      → places o.filled_quantity ≤ 8
      → places qty ≤ 8
      → (places (filled_text qty o) ≤ 8)
        × (amount 8 (filled_text qty o) ≡ amount 8 o.filled_quantity +ℤ amount 8 qty)
  unfolding add
  filled_amount qty o hf hx =
      (omega (arith, places-add o.filled_quantity qty), amount-add 8 o.filled_quantity qty hf hx)

  status_after-StatusOf :
      (qty : DecStr) (o : Order)
      → places o.filled_quantity ≤ 8
      → places o.quantity ≤ 8
      → places qty ≤ 8
      → pos 0 ≤ℤ amount 8 o.filled_quantity
      → pos 0 <ℤ amount 8 qty
      → StatusOf
          (status_after qty o)
          (amount 8 o.quantity)
          (amount 8 o.filled_quantity +ℤ amount 8 qty)
  unfolding gte gt
  status_after-StatusOf qty o hf hq hx nf nx =
      let (fits, value) = filled_amount qty o hf hx in
      chosen-StatusOf (gte (filled_text qty o) o.quantity) (gt (filled_text qty o) zero_text)
        o.status (amount 8 o.quantity) (amount 8 o.filled_quantity +ℤ amount 8 qty)
        (rw value at (gte-iff-amount 8 (filled_text qty o) o.quantity fits hq))
        ((rw value at (gt-zero_iff 8 (filled_text qty o) fits)).1 (omega int_laws))

module _ ⦃js : Js⦄ ⦃pg : Postgres⦄ where
  abbrev pub Applies : ℕ → DecStr → Order → Db → Result (Unit {0}) × Db → Type 0
  Applies id qty o db (ok _, db') =
      (q : Order) × (order_by_id id db' ≡ some q)
      × (amount 8 q.filled_quantity ≡ amount 8 o.filled_quantity +ℤ amount 8 qty)
      × (q.quantity ≡ o.quantity)
      × StatusOf q.status (amount 8 o.quantity) (amount 8 q.filled_quantity)
      × ((k : ℕ) → k ≢ id → order_by_id k db' ≡ order_by_id k db)
      × (db' ≡ record db { orders = db'.orders })
  Applies id qty o db (err e, db') = (e ≡ numeric_field_overflow) × (db' ≡ db)

  pub apply_missing :
      (id : ℕ) (qty price : DecStr) (db : Db)
      → order_by_id id db ≡ none
      → apply_trade_to_order id qty price db ≡ (ok tt, db)
  unfolding apply_trade_to_order
  apply_missing id qty price db missing = ground arith

  module _ (id : ℕ) (qty price : DecStr) (o : Order) (db : Db)
      (found : order_by_id id db ≡ some o) where
    pub apply_unfilled :
        pg.column (filled_text qty o) ≡ none
        → apply_trade_to_order id qty price db ≡ (err numeric_field_overflow, db)
    unfolding apply_trade_to_order
    apply_unfilled refused = ground arith

    pub apply_unpriced :
        (f : DecStr)
        → pg.column (filled_text qty o) ≡ some f
        → pg.column (or_else (truthy o.price) price) ≡ none
        → apply_trade_to_order id qty price db ≡ (err numeric_field_overflow, db)
    unfolding apply_trade_to_order
    apply_unpriced f kept refused = ground arith

    pub apply_done :
        (f p : DecStr)
        → pg.column (filled_text qty o) ≡ some f
        → pg.column (or_else (truthy o.price) price) ≡ some p
        → apply_trade_to_order id qty price db
          ≡ (ok tt, update_order id (fill_row f (status_after qty o) p db.clock o) db)
    unfolding apply_trade_to_order
    apply_done f p kept priced = ground arith

    -- A trade of a positive quantity on a known order adds exactly this to what is filled of it. The
    -- order is stored as filled if and only if nothing is left, and as partially filled otherwise; no
    -- other order and no other table changes. It fails, and changes nothing, on an overflow alone.
    -- The quantities have eight places at most, what was filled is not negative, and the columns are
    -- PostgreSQL's.
    pub apply_trade_to_order-Applies :
        IsPostgres pg
        → places o.filled_quantity ≤ 8
        → places o.quantity ≤ 8
        → places qty ≤ 8
        → pos 0 ≤ℤ amount 8 o.filled_quantity
        → pos 0 <ℤ amount 8 qty
        → Applies id qty o db (apply_trade_to_order id qty price db)
    apply_trade_to_order-Applies laws hf hq hx nf nx =
        elim (Option-cases (pg.column (filled_text qty o))) [
          | inl refused ↦ rw (apply_unfilled refused) (refl, refl)
          | inr (f, kept) ↦ elim (Option-cases (pg.column (or_else (truthy o.price) price))) [
            | inl refused ↦ rw (apply_unpriced f kept refused) (refl, refl)
            | inr (p, priced) ↦
                let change = fill_row f (status_after qty o) p db.clock o in
                let (fits, sum) = filled_amount qty o hf hx in
                let value = laws.column_exact (filled_text qty o) f kept fits ∙ sum in
                rw (apply_done f p kept priced) (
                  change o,
                  first-update_id id change db.orders o (λ o. refl) found,
                  value,
                  refl,
                  rw value (status_after-StatusOf qty o hf hq hx nf nx),
                  (λ k ne. first-update_other id 0 change (λ o. refl) (λ o. refl) k db.orders ne),
                  refl,
                )
          ]
        ]
