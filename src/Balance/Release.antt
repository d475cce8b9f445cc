-- ===== src/Balance/Release.antt =====
-- `unlockBalance` and `debitLocked` on every branch: neither takes more than is locked.
use perpetual_futures_exchan.Prelude.{
  ℕ, ◌≤◌, ◌≡◌, ◌⊎◌, refl, sym, true, false, none, some, Option, arith, if◌then◌else◌, Bool-cases,
  Option-cases, inl, inr,
}
use perpetual_futures_exchan.Prelude.Int.{ℤ, pos, ◌-ℤ◌, ◌≤ℤ◌, ◌<ℤ◌, add_zero, min_ℤ}
use perpetual_futures_exchan.Big.{Js}
use perpetual_futures_exchan.Decimal.{DecStr, zero_text, add, sub, gt, gte, places, amount}
use perpetual_futures_exchan.Decimal.Laws.{gte-iff-amount, gt-zero_iff}
use perpetual_futures_exchan.Store.{Db, Balance}
use perpetual_futures_exchan.Store.Monad.{Result, ok, err, numeric_field_overflow}
use perpetual_futures_exchan.Store.Numeric.{Postgres, IsPostgres}
use perpetual_futures_exchan.Balance.{balance_of, unlock_balance, debit_locked, update_balance}
use perpetual_futures_exchan.Balance.Table.{KeepsKeys}
use perpetual_futures_exchan.Balance.Moved.{IsStored, IsLedger, Moved, Moved-update}
use perpetual_futures_exchan.Balance.Stored.{
  set_amounts, set_amounts-KeepsKeys, not_gt_zero, found-IsSound, sub-IsStored, add-IsStored,
}

abbrev pub set_locked : DecStr → ℕ → Balance → Balance
set_locked locked now b = record b { locked_balance = locked; updated_at = now }

pub set_locked-KeepsKeys : (lk : DecStr) (now : ℕ) → KeepsKeys (set_locked lk now)
set_locked-KeepsKeys lk now = record {
  id_kept = λ b. refl;
  user_kept = λ b. refl;
  asset_kept = λ b. refl;
}

module _ ⦃js : Js⦄ where
  -- `currentlyLocked.gte(D(amount)) ? amount : locked`, as texts.
  abbrev pub released : Balance → DecStr → DecStr
  released b x = if gte b.locked_balance x then x else b.locked_balance

  -- How many units a release of `x` takes from a balance.
  abbrev pub units_released : Balance → DecStr → ℤ
  units_released b x = min_ℤ (amount 8 b.locked_balance) (amount 8 x)

  released_lem :
      (b : Balance) (x : DecStr)
      → IsStored b.locked_balance
      → places x ≤ 8
      → pos 0 <ℤ amount 8 x
      → IsStored (released b x)
        × (amount 8 (released b x) ≡ units_released b x)
        × (units_released b x ≤ℤ amount 8 b.locked_balance)
  released_lem b x (pl, nl) px more = elim (Bool-cases (gte b.locked_balance x)) [
    | inl enough ↦
        let le = (gte-iff-amount 8 b.locked_balance x pl px).0 enough in
        rw enough ((px, omega arith), ground arith, ground arith)
    | inr short ↦
        let lt : amount 8 b.locked_balance <ℤ amount 8 x =
          ground (arith, gte-iff-amount 8 b.locked_balance x pl px) in
        rw short ((pl, nl), ground arith, ground arith)
  ]

module _ ⦃js : Js⦄ ⦃pg : Postgres⦄ where
  -- What `unlockBalance` has done, by how it ended.
  abbrev pub Unlocks : ℕ → ℕ → DecStr → Db → Result (Unit {0}) × Db → Type 0
  Unlocks user asset x db (ok _, db') =
      (((amount 8 x ≤ℤ pos 0) ⊎ (balance_of user asset db ≡ none)) × (db' ≡ db))
      ⊎ ((b : Balance) × (balance_of user asset db ≡ some b)
          × (pos 0 <ℤ amount 8 x)
          × Moved user asset (units_released b x) (pos 0 -ℤ units_released b x) db db')
  Unlocks user asset x db (err e, db') = (e ≡ numeric_field_overflow) × (db' ≡ db)

  abbrev pub Debits : ℕ → ℕ → DecStr → Db → Result (Unit {0}) × Db → Type 0
  Debits user asset x db (ok _, db') =
      (((amount 8 x ≤ℤ pos 0) ⊎ (balance_of user asset db ≡ none)) × (db' ≡ db))
      ⊎ ((b : Balance) × (balance_of user asset db ≡ some b)
          × (pos 0 <ℤ amount 8 x)
          × Moved user asset (pos 0) (pos 0 -ℤ units_released b x) db db')
  Debits user asset x db (err e, db') = (e ≡ numeric_field_overflow) × (db' ≡ db)

  module _ (user asset : ℕ) (x : DecStr) (db : Db) where
    unlock_idle :
        (gt x zero_text ≡ false) ⊎ (balance_of user asset db ≡ none)
        → unlock_balance user asset x db ≡ (ok tt, db)
    unfolding unlock_balance
    unlock_idle h = ground arith

    unlock_overflow :
        (b : Balance)
        → gt x zero_text ≡ true
        → balance_of user asset db ≡ some b
        → (pg.column (add b.available_balance (released b x)) ≡ none)
          ⊎ (pg.column (sub b.locked_balance (released b x)) ≡ none)
        → unlock_balance user asset x db ≡ (err numeric_field_overflow, db)
    unfolding unlock_balance add sub gte
    unlock_overflow b p e c = ground arith

    unlock_done :
        (b : Balance) (av lk : DecStr)
        → gt x zero_text ≡ true
        → balance_of user asset db ≡ some b
        → pg.column (add b.available_balance (released b x)) ≡ some av
        → pg.column (sub b.locked_balance (released b x)) ≡ some lk
        → unlock_balance user asset x db
          ≡ (ok tt, update_balance b.id (set_amounts av lk db.clock) db)
    unfolding unlock_balance add sub gte
    unlock_done b av lk p e c d = ground arith

    pub debit_idle :
        (gt x zero_text ≡ false) ⊎ (balance_of user asset db ≡ none)
        → debit_locked user asset x db ≡ (ok tt, db)
    unfolding debit_locked
    debit_idle h = ground arith

    pub debit_overflow :
        (b : Balance)
        → gt x zero_text ≡ true
        → balance_of user asset db ≡ some b
        → pg.column (sub b.locked_balance (released b x)) ≡ none
        → debit_locked user asset x db ≡ (err numeric_field_overflow, db)
    unfolding debit_locked sub gte
    debit_overflow b p e c = ground arith

    pub debit_done :
        (b : Balance) (lk : DecStr)
        → gt x zero_text ≡ true
        → balance_of user asset db ≡ some b
        → pg.column (sub b.locked_balance (released b x)) ≡ some lk
        → debit_locked user asset x db ≡ (ok tt, update_balance b.id (set_locked lk db.clock) db)
    unfolding debit_locked sub gte
    debit_done b lk p e d = ground arith

  module _ (laws : IsPostgres pg) where
    unlock_found :
        (user asset : ℕ) (x : DecStr) (db : Db) (b : Balance)
        → places x ≤ 8
        → IsLedger db
        → gt x zero_text ≡ true
        → balance_of user asset db ≡ some b
        → (av lk : Option DecStr) → pg.column (add b.available_balance (released b x)) ≡ av
        → pg.column (sub b.locked_balance (released b x)) ≡ lk
        → Unlocks user asset x db (unlock_balance user asset x db)
    unlock_found user asset x db b px ledger positive found none lk c d =
        rw (unlock_overflow user asset x db b positive found (inl c)) (refl, refl)
    unlock_found user asset x db b px ledger positive found (some av) none c d =
        rw (unlock_overflow user asset x db b positive found (inr d)) (refl, refl)
    unlock_found user asset x db b px ledger positive found (some av) (some lk) c d =
        let (sa, sl) = found-IsSound user asset db b ledger found in
        let more = (gt-zero_iff 8 x px).0 positive in
        let ((py, ny), ey, le) = released_lem b x sl px more in
        let (pa, ea) = add-IsStored laws b.available_balance (released b x) av sa py ny c in
        let (pl, el) = sub-IsStored laws b.locked_balance (released b x) lk sl py (rw ey le) d in
        rw (unlock_done user asset x db b av lk positive found c d) (
          inr (
            b,
            found,
            more,
            Moved-update (set_amounts av lk db.clock) user asset (units_released b x)
                (pos 0 -ℤ units_released b x) db b (set_amounts-KeepsKeys av lk db.clock)
                (λ r s. (pa, pl)) ledger found (rw ey at ea) (rw ey at el),
          ))

    -- An unlock of at most eight places gives back the amount or what is locked, whichever is less:
    -- it goes from locked to available, with no other balance and no total touched. For an amount
    -- that is not positive, or with no balance, it does nothing; it fails on an overflow alone. The
    -- ledger has unique keys and no negative amount, which it keeps; the columns are PostgreSQL's.
    pub unlock_balance-Unlocks :
        (user asset : ℕ) (x : DecStr) (db : Db)
        → places x ≤ 8
        → IsLedger db
        → Unlocks user asset x db (unlock_balance user asset x db)
    unlock_balance-Unlocks user asset x db px ledger = elim (Bool-cases (gt x zero_text)) [
      | inr not_positive ↦
          rw (unlock_idle user asset x db (inl not_positive))
            (inl (inl (not_gt_zero x px not_positive), refl))
      | inl positive ↦ elim (Option-cases (balance_of user asset db)) [
        | inl missing ↦ rw (unlock_idle user asset x db (inr missing)) (inl (inr missing, refl))
        | inr (b, found) ↦
            unlock_found user asset x db b px ledger positive found
              (pg.column (add b.available_balance (released b x)))
              (pg.column (sub b.locked_balance (released b x))) refl refl
      ]
    ]

    debit_found :
        (user asset : ℕ) (x : DecStr) (db : Db) (b : Balance)
        → places x ≤ 8
        → IsLedger db
        → gt x zero_text ≡ true
        → balance_of user asset db ≡ some b
        → (lk : Option DecStr) → pg.column (sub b.locked_balance (released b x)) ≡ lk
        → Debits user asset x db (debit_locked user asset x db)
    debit_found user asset x db b px ledger positive found none d =
        rw (debit_overflow user asset x db b positive found d) (refl, refl)
    debit_found user asset x db b px ledger positive found (some lk) d =
        let (sa, sl) = found-IsSound user asset db b ledger found in
        let more = (gt-zero_iff 8 x px).0 positive in
        let ((py, ny), ey, le) = released_lem b x sl px more in
        let (pl, el) = sub-IsStored laws b.locked_balance (released b x) lk sl py (rw ey le) d in
        rw (debit_done user asset x db b lk positive found d) (
          inr (
            b,
            found,
            more,
            Moved-update (set_locked lk db.clock) user asset (pos 0) (pos 0 -ℤ units_released b x)
                db b (set_locked-KeepsKeys lk db.clock) (λ r s. (s.0, pl)) ledger found
                (sym (add_zero (amount 8 b.available_balance))) (rw ey at el),
          ))

    -- A debit of at most eight places takes the amount, or what is locked if that is less, off the
    -- locked balance and off the total of the asset; no other balance changes. For an amount that is
    -- not positive, or with no balance, it does nothing; it fails on an overflow alone. The ledger has
    -- unique keys and no negative amount, which it keeps; the columns are PostgreSQL's.
    pub debit_locked-Debits :
        (user asset : ℕ) (x : DecStr) (db : Db)
        → places x ≤ 8
        → IsLedger db
        → Debits user asset x db (debit_locked user asset x db)
    debit_locked-Debits user asset x db px ledger = elim (Bool-cases (gt x zero_text)) [
      | inr not_positive ↦
          rw (debit_idle user asset x db (inl not_positive))
            (inl (inl (not_gt_zero x px not_positive), refl))
      | inl positive ↦ elim (Option-cases (balance_of user asset db)) [
        | inl missing ↦ rw (debit_idle user asset x db (inr missing)) (inl (inr missing, refl))
        | inr (b, found) ↦
            debit_found user asset x db b px ledger positive found
              (pg.column (sub b.locked_balance (released b x))) refl
      ]
    ]
