-- ===== src/DbWriter/Settle.antt =====
-- The statements that settle a trade, on a ledger: what each of them moves.
pub mod Steps
pub mod Sides
pub mod Found
pub mod Keeps
pub mod Whole
pub mod Moves
use perpetual_futures_exchan.Prelude.{
  ℕ, suc, ◌≤◌, ◌≡◌, refl, sym, ap, ◌∙◌, Bool, true, false, ◌&&◌, Option, none, some, List, [], ◌∷◌,
  ◌++◌, arith, ◌==◌, if◌then◌else◌, Bool-cases, Option-cases, ◌⊎◌, inl, inr,
}
use perpetual_futures_exchan.Prelude.Int.{ℤ, pos, ◌+ℤ◌, ◌-ℤ◌, ◌≤ℤ◌, int_laws, min_ℤ}
use perpetual_futures_exchan.Big.{Js}
use perpetual_futures_exchan.Decimal.{DecStr, zero_text, sub, gt, places, amount}
use perpetual_futures_exchan.Decimal.Laws.{places-zero_text, amount-zero_text}
use perpetual_futures_exchan.Store.{Db, Balance}
use perpetual_futures_exchan.Store.Monad.{Action, Result, ok, err}
use perpetual_futures_exchan.Store.Numeric.{Postgres, IsPostgres}
use perpetual_futures_exchan.Balance.{balance_of, update_balance, debit_locked}
use perpetual_futures_exchan.Balance.Fresh.{IsFresh, append-IsFresh, update-IsFresh}
use perpetual_futures_exchan.Balance.Moved.{IsStored, IsSound, IsLedger, Moved, Moved-update}
use perpetual_futures_exchan.Balance.Holdings.{
  at, nothing, plus, Shift-trans, available_of, locked_of, Shift, Shift-refl, Shift-same,
  Moved-Shift, append-Shift,
}
use perpetual_futures_exchan.Balance.Release.{
  Debits, units_released, debit_locked-Debits, released, set_locked, set_locked-KeepsKeys,
  debit_idle, debit_overflow, debit_done,
}
use perpetual_futures_exchan.Balance.Stored.{found-IsSound}
use perpetual_futures_exchan.DbWriter.Credit.{
  set_available, opened_balance, credit_available, debit_available,
}
use perpetual_futures_exchan.DbWriter.Agree.Writes.{
  set_available-KeepsKeys, credit_refused, credit_no_zero, credit_opened, credit_overflow,
  credit_added, debit_missing, fee_overflow, fee_taken,
}

abbrev pub IfOk : {A : Type 0} → (Db → Type 0) → Result A × Db → Type 0
IfOk P (ok a, db) = P db
IfOk P (err e, db) = Unit

pub at_zero : (u a v c : ℕ) (x : ℤ) → x ≡ pos 0 → at u a x v c ≡ pos 0
at_zero u a v c x e = ground arith

pub minus_zero : {x : ℤ} → x ≡ pos 0 → pos 0 -ℤ x ≡ pos 0
minus_zero e = rw e (omega int_laws)

pub minus_as_plus : (x y : ℤ) → x -ℤ y ≡ x +ℤ (pos 0 -ℤ y)
minus_as_plus x y = omega int_laws

pub min_right : (x y : ℤ) → y ≤ℤ x → min_ℤ x y ≡ y
min_right x y le = ground arith

module _ ⦃js : Js⦄ where
  -- The tables before a statement.
  pub record Good (db : Db) : Type 0 where
    pub ledger : IsLedger db
    pub fresh : IsFresh db.next_id db.balances

  pub record Settled (da dl : ℕ → ℕ → ℤ) (db db' : Db) : Type 0 where
    pub shift : Shift da dl db db'
    pub fresh : IsFresh db'.next_id db'.balances
    pub orders : db'.orders ≡ db.orders

  pub record Unmoved (db db' : Db) : Type 0 where
    fresh : IsFresh db'.next_id db'.balances
    orders : db'.orders ≡ db.orders

  pub both :
      (da dl : ℕ → ℕ → ℤ) (db : Db) (r : Result (Unit {0}) × Db)
      → IfOk (Shift da dl db) r
      → IfOk (Unmoved db) r
      → IfOk (Settled da dl db) r
  both da dl db (ok _, db') h k = record { shift = h; fresh = k.fresh; orders = k.orders }
  both da dl db (err e, db') h k = tt

  pub Settled-trans :
      (da dl da' dl' : ℕ → ℕ → ℤ) (a b c : Db)
      → Settled da dl a b
      → Settled da' dl' b c
      → Settled (plus da da') (plus dl dl') a c
  Settled-trans da dl da' dl' a b c h k = record {
    shift = Shift-trans da dl da' dl' a b c h.shift k.shift;
    fresh = k.fresh;
    orders = k.orders ∙ h.orders;
  }

  pub Settled-Good : (da dl : ℕ → ℕ → ℤ) (a b : Db) → Settled da dl a b → Good b
  Settled-Good da dl a b h = record { ledger = h.shift.ledger; fresh = h.fresh }
