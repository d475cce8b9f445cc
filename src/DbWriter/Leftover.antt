-- ===== src/DbWriter/Leftover.antt =====
-- What a trade leaves behind when its transaction is taken back or never ends: the effects of
-- `debitLocked` and `applyTradeToOrder`, which are committed on their own.
pub mod Trade
use perpetual_futures_exchan.Prelude.{
  ℕ, ◌≡◌, refl, ap, ◌∙◌, Bool, true, false, Option, none, some, List, [], ◌∷◌, map, arith,
  if◌then◌else◌, Bool-cases, Option-cases, inl, inr,
}
use perpetual_futures_exchan.Big.{Js}
use perpetual_futures_exchan.Decimal.{DecStr, zero_text, sub, gt}
use perpetual_futures_exchan.Store.{Db, Balance, Order, OrderStatus, Side, Market}
use perpetual_futures_exchan.Store.Rows.{update_rows}
use perpetual_futures_exchan.Store.Monad.{Action, Result, ok, err, gets}
use perpetual_futures_exchan.Store.Session.{
  Session, Reply, ended, waits, Tx, skip, ◌>>=◌, ◌>>◌, in_tx, write_balance, elsewhere,
  elsewhere_on, is_held,
}
use perpetual_futures_exchan.Store.Numeric.{Postgres}
use perpetual_futures_exchan.Balance.{balance_of, has_id, debit_locked}
use perpetual_futures_exchan.Balance.Release.{
  released, set_locked, debit_idle, debit_overflow, debit_done,
}
use perpetual_futures_exchan.Orders.{truthy, or_else, has_order_id, margin_for}
use perpetual_futures_exchan.DbWriter.{
  EngineEvent, order_by_id, filled_text, status_after, stored_leverage, apply_trade_to_order,
}
use perpetual_futures_exchan.DbWriter.Fills.{
  fill_row, apply_missing, apply_unfilled, apply_unpriced, apply_done,
}
use perpetual_futures_exchan.DbWriter.Agree.{after_tx}
use perpetual_futures_exchan.DbWriter.Credit.{
  TradeEvent, is_external, opposite, debit_available, credit_available, insert_fill,
  insert_synthetic,
}
use perpetual_futures_exchan.DbWriter.InOrder.{committed}
use perpetual_futures_exchan.DbWriter.Trade.{
  Settlement, settlement, fee_of, trade_of, market_of, trade_body, pay_margin, buyer_pays,
  seller_gives, settle, follow, synthetic_orders, execute, execute_in, execute_trade,
  debit_locked_elsewhere, proceeds, handle_trade_executed,
}

-- A balance but for what is locked.
abbrev pub but_locked : Balance → Balance
but_locked b = record b { locked_balance = []; updated_at = 0 }

-- An order but for what a fill sets.
abbrev pub but_filled : Order → Order
but_filled o = record o {
  filled_quantity = [];
  status = OrderStatus.filled;
  updated_at = 0;
  executed_at = none;
  price = none;
}

-- Only locked balances and the fills of orders differ.
pub record Spent (db db' : Db) : Type 0 where
  pub frame : db' ≡ record db { balances = db'.balances; orders = db'.orders }
  pub balances : map but_locked db'.balances ≡ map but_locked db.balances
  pub orders : map but_filled db'.orders ≡ map but_filled db.orders

pub Spent-refl : (db : Db) → Spent db db
Spent-refl db = record { frame = refl; balances = refl; orders = refl }

Spent-trans : (a b c : Db) → Spent a b → Spent b c → Spent a c
Spent-trans a b c h k = record {
  frame = k.frame ∙ ap (λ (d : Db). record d { balances = c.balances; orders = c.orders }) h.frame;
  balances = k.balances ∙ h.balances;
  orders = k.orders ∙ h.orders;
}

map-update :
    {A B : Type 0} (e : A → B) (p : A → Bool) (f : A → A) (rows : List A)
    → ((r : A) → e (f r) ≡ e r)
    → map e (update_rows p f rows) ≡ map e rows
map-update e p f [] h = refl
map-update e p f (r ∷ rows) h =
    rw (map-update e p f rows h) (elim (Bool-cases (p r)) [ inl t ↦ rw (t, h r) | inr t ↦ rw t ])

-- Steps that leave no more than that.
abbrev pub Spends : {A : Type 0} → Tx A → Type 0
Spends t = (s : Session) → Spent s.outside (t s).1.outside

bind-step :
    {A B : Type 0} (f : A → Tx B) (db : Db) (x : Reply A × Session)
    → Spent db x.1.outside
    → ((a : A) → Spends (f a))
    → Spent db (after_tx f x).1.outside
bind-step f db (ended (ok a), s) h k = Spent-trans db s.outside (f a s).1.outside h (k a s)
bind-step f db (ended (err e), s) h k = h
bind-step f db (waits, s) h k = h

pub bind-Spends :
    {A B : Type 0} (t : Tx A) (f : A → Tx B)
    → Spends t
    → ((a : A) → Spends (f a))
    → Spends (t >>= f)
bind-Spends t f h k s = bind-step f s.outside (t s) (h s) k

pub then-Spends : {A B : Type 0} (t : Tx A) (u : Tx B) → Spends t → Spends u → Spends (t >> u)
then-Spends t u h k = bind-Spends t (λ _. u) h (λ _. k)

pub skip-Spends : Spends skip
skip-Spends s = Spent-refl s.outside

pub in_tx-Spends : {A : Type 0} (m : Action A) → Spends (in_tx m)
in_tx-Spends m s = Spent-refl s.outside

write_step :
    (s : Session) (n : Result (Option ℕ) × Db) (m : Action (Option ℕ))
    → m s.inside ≡ n
    → (write_balance m s).1.outside ≡ s.outside
write_step s (ok id, db') m e = ground arith
write_step s (err x, db') m e = ground arith

pub write-Spends : (m : Action (Option ℕ)) → Spends (write_balance m)
write-Spends m s = rw (write_step s (m s.inside) m refl) (Spent-refl s.outside)

pub if-Spends : (b : Bool) (t u : Tx (Unit {0})) → Spends t → Spends u → Spends (if b then t else u)
if-Spends true t u h k = h
if-Spends false t u h k = k

pub elsewhere-Spends :
    {A : Type 0} (m : Action A) → ((db : Db) → Spent db (m db).1) → Spends (elsewhere m)
elsewhere-Spends m h s = h s.outside

pub elsewhere_on-Spends :
    (o : Option Balance) (m : Action (Unit {0}))
    → ((db : Db) → Spent db (m db).1)
    → Spends (elsewhere_on o m)
elsewhere_on-Spends none m h s = h s.outside
elsewhere_on-Spends (some b) m h s = elim (Bool-cases (is_held b.id s.held)) [
  | inl t ↦ rw t (Spent-refl s.outside)
  | inr t ↦ rw t (h s.outside)
]

module _ ⦃js : Js⦄ ⦃pg : Postgres⦄ where
  pub debit_locked-Spent : (u a : ℕ) (x : DecStr) (db : Db) → Spent db (debit_locked u a x db).1
  debit_locked-Spent u a x db = elim (Bool-cases (gt x zero_text)) [
    | inr idle ↦ rw (debit_idle u a x db (inl idle)) (Spent-refl db)
    | inl positive ↦ elim (Option-cases (balance_of u a db)) [
      | inl missing ↦ rw (debit_idle u a x db (inr missing)) (Spent-refl db)
      | inr (b, found) ↦ elim (Option-cases (pg.column (sub b.locked_balance (released b x)))) [
        | inl refused ↦ rw (debit_overflow u a x db b positive found refused) (Spent-refl db)
        | inr (lk, kept) ↦ rw (debit_done u a x db b lk positive found kept) (record {
          frame = refl;
          balances =
              map-update but_locked (has_id b.id) (set_locked lk db.clock) db.balances (λ r. refl);
          orders = refl;
        })
      ]
    ]
  ]

  pub apply_trade_to_order-Spent :
      (id : ℕ) (qty price : DecStr) (db : Db) → Spent db (apply_trade_to_order id qty price db).1
  apply_trade_to_order-Spent id qty price db = elim (Option-cases (order_by_id id db)) [
    | inl missing ↦ rw (apply_missing id qty price db missing) (Spent-refl db)
    | inr (o, found) ↦ elim (Option-cases (pg.column (filled_text qty o))) [
      | inl refused ↦ rw (apply_unfilled id qty price o db found refused) (Spent-refl db)
      | inr (f, kept) ↦ elim (Option-cases (pg.column (or_else (truthy o.price) price))) [
        | inl refused ↦ rw (apply_unpriced id qty price o db found f kept refused) (Spent-refl db)
        | inr (p, priced) ↦ rw (apply_done id qty price o db found f p kept priced) (record {
          frame = refl;
          balances = refl;
          orders =
              map-update but_filled (has_order_id id) (fill_row f (status_after qty o) p db.clock o)
                db.orders (λ r. refl);
        })
      ]
    ]
  ]
