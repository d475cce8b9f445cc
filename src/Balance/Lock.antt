-- ===== src/Balance/Lock.antt =====
-- `lockBalance` on every branch.
use perpetual_futures_exchan.Prelude.{
  ℕ, ◌≤◌, ◌≡◌, ◌⊎◌, refl, true, false, Option, none, some, arith, Bool-cases, Option-cases, inl,
  inr,
}
use perpetual_futures_exchan.Prelude.Int.{pos, ◌-ℤ◌, ◌≤ℤ◌, ◌<ℤ◌}
use perpetual_futures_exchan.Big.{Js}
use perpetual_futures_exchan.Decimal.{DecStr, zero_text, add, sub, gt, gte, places, amount}
use perpetual_futures_exchan.Decimal.Laws.{gte-iff-amount, gt-zero_iff}
use perpetual_futures_exchan.Store.{Db, Balance}
use perpetual_futures_exchan.Store.Monad.{
  Result, ok, err, Error, insufficient_balance, balance_not_found, numeric_field_overflow,
}
use perpetual_futures_exchan.Store.Numeric.{Postgres, IsPostgres}
use perpetual_futures_exchan.Balance.{balance_of, lock_balance, update_balance}
use perpetual_futures_exchan.Balance.Stored.{
  set_amounts, set_amounts-KeepsKeys, not_gt_zero, not_gte, found-IsSound, sub-IsStored,
  add-IsStored,
}
use perpetual_futures_exchan.Balance.Moved.{IsLedger, Moved, Moved-update}

module _ ⦃js : Js⦄ ⦃pg : Postgres⦄ where
  -- Why a lock is refused.
  pub data LockRefused (user asset : ℕ) (x : DecStr) (db : Db) : Error → Type 0 where
    no_balance : balance_of user asset db ≡ none → LockRefused user asset x db balance_not_found
    not_covered :
        (b : Balance)
        → balance_of user asset db ≡ some b
        → amount 8 b.available_balance <ℤ amount 8 x
        → LockRefused user asset x db insufficient_balance
    overflow : LockRefused user asset x db numeric_field_overflow

  -- What `lockBalance` has done, by how it ended.
  abbrev pub Locks : ℕ → ℕ → DecStr → Db → Result (Unit {0}) × Db → Type 0
  Locks user asset x db (ok _, db') =
      ((amount 8 x ≤ℤ pos 0) × (db' ≡ db))
      ⊎ ((pos 0 <ℤ amount 8 x) × Moved user asset (pos 0 -ℤ amount 8 x) (amount 8 x) db db')
  Locks user asset x db (err e, db') = (db' ≡ db) × LockRefused user asset x db e

  module _ (user asset : ℕ) (x : DecStr) (db : Db) where
    lock_zero : gt x zero_text ≡ false → lock_balance user asset x db ≡ (ok tt, db)
    unfolding lock_balance
    lock_zero z = rw z

    lock_missing :
        gt x zero_text ≡ true
        → balance_of user asset db ≡ none
        → lock_balance user asset x db ≡ (err balance_not_found, db)
    unfolding lock_balance
    lock_missing p e = ground arith

    lock_short :
        (b : Balance)
        → gt x zero_text ≡ true
        → balance_of user asset db ≡ some b
        → gte b.available_balance x ≡ false
        → lock_balance user asset x db ≡ (err insufficient_balance, db)
    unfolding lock_balance
    lock_short b p e g = ground arith

    lock_overflow :
        (b : Balance)
        → gt x zero_text ≡ true
        → balance_of user asset db ≡ some b
        → gte b.available_balance x ≡ true
        → (pg.column (sub b.available_balance x) ≡ none)
          ⊎ (pg.column (add b.locked_balance x) ≡ none)
        → lock_balance user asset x db ≡ (err numeric_field_overflow, db)
    unfolding lock_balance
    lock_overflow b p e g c = ground arith

    lock_done :
        (b : Balance) (av lk : DecStr)
        → gt x zero_text ≡ true
        → balance_of user asset db ≡ some b
        → gte b.available_balance x ≡ true
        → pg.column (sub b.available_balance x) ≡ some av
        → pg.column (add b.locked_balance x) ≡ some lk
        → lock_balance user asset x db
          ≡ (ok tt, update_balance b.id (set_amounts av lk db.clock) db)
    unfolding lock_balance
    lock_done b av lk p e g c d = ground arith

  module _ (laws : IsPostgres pg) where
    lock_covered :
        (user asset : ℕ) (x : DecStr) (db : Db) (b : Balance)
        → places x ≤ 8
        → IsLedger db
        → gt x zero_text ≡ true
        → balance_of user asset db ≡ some b
        → gte b.available_balance x ≡ true
        → (av lk : Option DecStr) → pg.column (sub b.available_balance x) ≡ av
        → pg.column (add b.locked_balance x) ≡ lk
        → Locks user asset x db (lock_balance user asset x db)
    lock_covered user asset x db b px ledger positive found enough none lk c d =
        rw (lock_overflow user asset x db b positive found enough (inl c)) (refl, overflow)
    lock_covered user asset x db b px ledger positive found enough (some av) none c d =
        rw (lock_overflow user asset x db b positive found enough (inr d)) (refl, overflow)
    lock_covered user asset x db b px ledger positive found enough (some av) (some lk) c d =
        let (sa, sl) = found-IsSound user asset db b ledger found in
        let more : pos 0 <ℤ amount 8 x = (gt-zero_iff 8 x px).0 positive in
        let (pa, ea) =
          sub-IsStored laws b.available_balance x av sa px
            ((gte-iff-amount 8 b.available_balance x sa.0 px).0 enough) c in
        let (pl, el) = add-IsStored laws b.locked_balance x lk sl px (omega arith) d in
        rw (lock_done user asset x db b av lk positive found enough c d) (
          inr (
            more,
            Moved-update (set_amounts av lk db.clock) user asset (pos 0 -ℤ amount 8 x) (amount 8 x)
                db b (set_amounts-KeepsKeys av lk db.clock) (λ r s. (pa, pl)) ledger found ea el,
          ))

    -- A lock of a positive amount of at most eight places moves exactly it from available to locked,
    -- touching no other balance and no total; or it is refused, and nothing changes. The ledger has
    -- unique keys and no negative amount, which it keeps, and the columns are PostgreSQL's.
    pub lock_balance-Locks :
        (user asset : ℕ) (x : DecStr) (db : Db)
        → places x ≤ 8
        → IsLedger db
        → Locks user asset x db (lock_balance user asset x db)
    lock_balance-Locks user asset x db px ledger = elim (Bool-cases (gt x zero_text)) [
      | inr not_positive ↦
          rw (lock_zero user asset x db not_positive) (inl (not_gt_zero x px not_positive, refl))
      | inl positive ↦ elim (Option-cases (balance_of user asset db)) [
        | inl missing ↦
            rw (lock_missing user asset x db positive missing) (refl, no_balance missing)
        | inr (b, found) ↦ elim (Bool-cases (gte b.available_balance x)) [
          | inr short ↦ rw (lock_short user asset x db b positive found short) (
            refl,
            not_covered b found (
                not_gte b.available_balance x (found-IsSound user asset db b ledger found).0 px
                  short),
          )
          | inl enough ↦
              lock_covered user asset x db b px ledger positive found enough
                (pg.column (sub b.available_balance x)) (pg.column (add b.locked_balance x)) refl
                refl
        ]
      ]
    ]
