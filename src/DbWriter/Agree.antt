-- ===== src/DbWriter/Agree.antt =====
-- When a step of the trade's transaction does to what the transaction sees exactly what a step on one
-- connection would do, and never waits.
pub mod Writes
pub mod Statements
use perpetual_futures_exchan.Prelude.{
  ℕ, ◌≡◌, refl, ◌∙◌, Bool, false, List, [], ◌∷◌, Bool-cases, Option-cases, inl, inr,
}
use mathlib.Core.Path.{subst}
use perpetual_futures_exchan.Big.{Js}
use perpetual_futures_exchan.Decimal.{DecStr, zero_text, gt, sub}
use perpetual_futures_exchan.Store.{Db, Balance, Order}
use perpetual_futures_exchan.Store.Monad
use perpetual_futures_exchan.Store.Monad.{Action, Result, ok, err, done, numeric_field_overflow}
use perpetual_futures_exchan.Store.Session.{
  Session, Reply, ended, waits, Tx, in_tx, is_held, seen, ◌>>=◌, ◌>>◌,
}
use perpetual_futures_exchan.Store.Numeric.{Postgres}
use perpetual_futures_exchan.Balance.{balance_of, update_balance, debit_locked}
use perpetual_futures_exchan.Balance.Table.{KeepsKeys, IsTable, update-IsTable}
use perpetual_futures_exchan.Balance.Fresh.{IsFresh, update-IsFresh}
use perpetual_futures_exchan.Balance.Release.{
  released, set_locked, set_locked-KeepsKeys, debit_idle, debit_overflow, debit_done,
}
use perpetual_futures_exchan.DbWriter.Together.{
  Together, first-Together, first-unheld, seen-Together, update-Together,
}
use perpetual_futures_exchan.DbWriter.Together.Writes.{widen-Together}
use perpetual_futures_exchan.DbWriter.Trade.{debit_locked_elsewhere}

-- The transaction has written balances of users in `P` alone.
pub record Aligned (P : ℕ → Type 0) (s : Session) : Type 0 where
  pub rows : Together P s.held s.outside.balances s.inside.balances
  pub orders : s.inside.orders ≡ s.outside.orders
  pub clock : s.inside.clock ≡ s.outside.clock
  pub table : IsTable s.inside.balances
  pub fresh : IsFresh s.inside.next_id s.inside.balances

-- And the transaction sees these orders.
abbrev pub At : (ℕ → Type 0) → List Order → Session → Type 0
At P os s = Aligned P s × (s.inside.orders ≡ os)

abbrev pub Agrees : {A : Type 0} → (Session → Type 0) → Reply A × Session → Result A × Db → Type 0
Agrees Post (ended (ok a), s) n = (n ≡ (ok a, s.inside)) × Post s
Agrees Post (ended (err e), s) n = n ≡ (err e, s.inside)
Agrees Post (waits, s) n = ⊥

abbrev pub Follows : {A : Type 0} → (Pre Post : Session → Type 0) → Tx A → Action A → Type 0
Follows Pre Post t m = (s : Session) → Pre s → Agrees Post (t s) (m s.inside)

abbrev pub after_tx : {A B : Type 0} → (A → Tx B) → Reply A × Session → Reply B × Session
after_tx f x =
    let (r, s') = x in
    elim r [ ended (ok a) ↦ f a s' | ended (err e) ↦ (ended (err e), s') | waits ↦ (waits, s') ]

Agrees-bind :
    {A B : Type 0} (Mid Post : Session → Type 0) (f : A → Tx B) (m : Action A) (db : Db)
    (g : A → Action B) (x : Reply A × Session)
    → Agrees Mid x (m db)
    → ((a : A) → Follows Mid Post (f a) (g a))
    → Agrees Post (after_tx f x) (Monad.◌>>=◌ m g db)
Agrees-bind Mid Post f m db g (ended (ok a), s') (h, mid) k =
    rw (Monad.bind_ok m g db s'.inside a h) (k a s' mid)
Agrees-bind Mid Post f m db g (ended (err x), s') h k = Monad.bind_err m g db s'.inside x h
Agrees-bind Mid Post f m db g (waits, s') h k = absurd h

pub Follows-bind :
    {A B : Type 0} (Pre Mid Post : Session → Type 0) (t : Tx A) (f : A → Tx B) (m : Action A)
    (g : A → Action B)
    → Follows Pre Mid t m
    → ((a : A) → Follows Mid Post (f a) (g a))
    → Follows Pre Post (t >>= f) (Monad.◌>>=◌ m g)
Follows-bind Pre Mid Post t f m g h k s pre = Agrees-bind Mid Post f m s.inside g (t s) (h s pre) k

pub Follows-then :
    {A B : Type 0} (Pre Mid Post : Session → Type 0) (t : Tx A) (u : Tx B) (m : Action A)
    (n : Action B)
    → Follows Pre Mid t m
    → Follows Mid Post u n
    → Follows Pre Post (t >> u) (Monad.◌>>◌ m n)
Follows-then Pre Mid Post t u m n h k = Follows-bind Pre Mid Post t (λ _. u) m (λ _. n) h (λ _. k)

pub Follows-pre :
    {A : Type 0} (Pre Mid Post : Session → Type 0) (t : Tx A) (m : Action A)
    → ((s : Session) → Pre s → Mid s)
    → Follows Mid Post t m
    → Follows Pre Post t m
Follows-pre Pre Mid Post t m f h s pre = h s (f s pre)

pub widen-Aligned :
    (P Q : ℕ → Type 0) (s : Session) → ((v : ℕ) → P v → Q v) → Aligned P s → Aligned Q s
widen-Aligned P Q s f al = record {
  rows = widen-Together P Q s.held s.outside.balances s.inside.balances f al.rows;
  orders = al.orders;
  clock = al.clock;
  table = al.table;
  fresh = al.fresh;
}

-- A statement of the transaction that touches neither balances nor orders.
pub record Keeps (db db' : Db) : Type 0 where
  pub balances : db'.balances ≡ db.balances
  pub orders : db'.orders ≡ db.orders
  pub clock : db'.clock ≡ db.clock
  pub fresh : (rows : List Balance) → IsFresh db.next_id rows → IsFresh db'.next_id rows

pub in_tx-Agrees :
    {A : Type 0} (P : ℕ → Type 0) (os : List Order) (m : Action A) (s : Session) (n : Result A × Db)
    → m s.inside ≡ n
    → Keeps s.inside n.1
    → Aligned P s
    → s.inside.orders ≡ os
    → Agrees (At P os) (in_tx m s) (m s.inside)
in_tx-Agrees P os m s (err e, db') run keeps al os_eq = rw run refl
in_tx-Agrees P os m s (ok a, db') run keeps al os_eq = rw run (
  refl,
  (
    record {
      rows = rw keeps.balances al.rows;
      orders = keeps.orders ∙ al.orders;
      clock = keeps.clock ∙ al.clock;
      table = rw keeps.balances al.table;
      fresh = rw keeps.balances (keeps.fresh s.inside.balances al.fresh);
    },
    keeps.orders ∙ os_eq,
  ),
)

pub seen_self : {A : Type 0} (own : A → Bool) (rows : List A) → seen own rows rows ≡ rows
seen_self own [] = refl
seen_self own (r ∷ rows) =
    rw (seen_self own rows) (elim (Bool-cases (own r)) [ inl w ↦ rw w | inr w ↦ rw w ])

pub orders-see : (os outs : List Order) → os ≡ outs → seen (λ (o : Order). false) outs os ≡ os
orders-see os outs e =
    subst (λ x. seen (λ (o : Order). false) x os ≡ os) e (seen_self (λ (o : Order). false) os)

-- A balance that the transaction has not written is changed outside and seen inside.
elsewhere-Aligned :
    (P : ℕ → Type 0) (f : Balance → Balance) (keeps : KeepsKeys f) (k : ℕ) (s : Session)
    → is_held k s.held ≡ false
    → Aligned P s
    → Aligned P
        (record s { outside = update_balance k f s.outside; inside = update_balance k f s.inside })
elsewhere-Aligned P f keeps k s free al = record {
  rows = (update-Together P s.held f keeps k free s.outside.balances s.inside.balances al.rows).1;
  orders = al.orders;
  clock = al.clock;
  table = update-IsTable f keeps k s.inside.balances al.table;
  fresh = update-IsFresh f keeps k s.inside.next_id s.inside.balances al.fresh;
}

module _ ⦃js : Js⦄ ⦃pg : Postgres⦄ where
  pub debit_locked-Agrees :
      (P : ℕ → Type 0) (os : List Order) (u a : ℕ) (x : DecStr)
      → (P u → ⊥)
      → Follows (At P os) (At P os) (debit_locked_elsewhere u a x) (debit_locked u a x)
  unfolding debit_locked_elsewhere
  debit_locked-Agrees P os u a x out s (al, e) =
      let same : balance_of u a s.inside ≡ balance_of u a s.outside =
        first-Together P s.held u a s.outside.balances s.inside.balances out al.rows in
      let quiet = seen-Together P s.held s.outside.balances s.inside.balances al.rows in
      let ordered = orders-see s.inside.orders s.outside.orders al.orders in
      elim (Bool-cases (gt x zero_text)) [
        | inr idle ↦
            rw (idle, debit_idle u a x s.outside (inl idle), debit_idle u a x s.inside (inl idle))
              (rw (quiet, ordered) (refl, (al, e)))
        | inl positive ↦ elim (Option-cases (balance_of u a s.outside)) [
          | inl missing ↦
              rw
                (
                  positive,
                  missing,
                  debit_idle u a x s.outside (inr missing),
                  debit_idle u a x s.inside (inr (same ∙ missing)),
                )
                (rw (quiet, ordered) (refl, (al, e)))
          | inr (b, found) ↦
              let unheld =
                first-unheld P s.held u a s.outside.balances s.inside.balances b out al.rows
                  found in
              elim (Option-cases (pg.column (sub b.locked_balance (released b x)))) [
                | inl refused ↦
                    rw
                      (
                        positive,
                        found,
                        unheld,
                        debit_overflow u a x s.outside b positive found refused,
                        debit_overflow u a x s.inside b positive (same ∙ found) refused,
                      )
                      (rw (quiet, ordered) refl)
                | inr (lk, kept) ↦
                    let f = set_locked lk s.outside.clock in
                    let keeps = set_locked-KeepsKeys lk s.outside.clock in
                    let inside_run : debit_locked u a x s.inside
                        ≡ (ok tt, update_balance b.id f s.inside) =
                      subst
                        (λ c.
                          debit_locked u a x s.inside
                          ≡ (ok tt, update_balance b.id (set_locked lk c) s.inside))
                        al.clock (debit_done u a x s.inside b lk positive (same ∙ found) kept) in
                    let rows =
                      (update-Together P s.held f keeps b.id unheld s.outside.balances
                        s.inside.balances al.rows).0 in
                    rw
                      (
                        positive,
                        found,
                        unheld,
                        debit_done u a x s.outside b lk positive found kept,
                        inside_run,
                        rows,
                        ordered,
                      )
                      (refl, (elsewhere-Aligned P f keeps b.id s unheld al, e))
              ]
        ]
      ]
