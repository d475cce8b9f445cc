-- ===== src/DbWriter/Settle/Moves.antt =====
-- What debitLocked, creditAvailable and debitAvailable move on a ledger.
use perpetual_futures_exchan.Prelude.{
  ℕ, suc, ◌≤◌, ◌≡◌, refl, sym, ap, ◌∙◌, none, some, [], ◌∷◌, ◌++◌, arith, Bool-cases, Option-cases,
  ◌⊎◌, inl, inr,
}
use perpetual_futures_exchan.Prelude.Int.{ℤ, pos, ◌+ℤ◌, ◌-ℤ◌, ◌≤ℤ◌, int_laws}
use perpetual_futures_exchan.Big.{Js}
use perpetual_futures_exchan.Decimal.{DecStr, zero_text, sub, gt, places, amount}
use perpetual_futures_exchan.Decimal.Laws.{places-zero_text, amount-zero_text}
use perpetual_futures_exchan.Store.{Db, Balance}
use perpetual_futures_exchan.Store.Monad.{Result, ok, err}
use perpetual_futures_exchan.Store.Numeric.{Postgres, IsPostgres}
use perpetual_futures_exchan.Balance.{balance_of, update_balance, debit_locked}
use perpetual_futures_exchan.Balance.Fresh.{append-IsFresh, update-IsFresh}
use perpetual_futures_exchan.Balance.Moved.{IsStored, Moved-update}
use perpetual_futures_exchan.Balance.Holdings.{
  at, nothing, available_of, locked_of, Shift, Shift-refl, Shift-same, Moved-Shift, append-Shift,
}
use perpetual_futures_exchan.Balance.Release.{
  Debits, units_released, debit_locked-Debits, released, set_locked, set_locked-KeepsKeys,
  debit_idle, debit_overflow, debit_done,
}
use perpetual_futures_exchan.Balance.Stored.{found-IsSound}
use perpetual_futures_exchan.DbWriter.Credit.{
  set_available, opened_balance, credit_available, debit_available,
}
use perpetual_futures_exchan.DbWriter.Agree.Writes.{
  set_available-KeepsKeys, credit_refused, credit_no_zero, credit_opened, credit_overflow,
  credit_added, debit_missing, fee_overflow, fee_taken,
}
use perpetual_futures_exchan.DbWriter.Settle.{
  Good, IfOk, Settled, Unmoved, at_zero, both, min_right, minus_as_plus, minus_zero,
}

module _ ⦃js : Js⦄ ⦃pg : Postgres⦄ (laws : IsPostgres pg) (u a : ℕ) (x : DecStr) (db : Db)
    (fits : places x ≤ 8) (positive : pos 0 ≤ℤ amount 8 x) (good : Good db) where
  -- `debitLocked` of no more than is locked.
  none_due :
      amount 8 x ≤ℤ locked_of u a db
      → (amount 8 x ≤ℤ pos 0) ⊎ (balance_of u a db ≡ none)
      → amount 8 x ≡ pos 0
  none_due enough (inl le) = omega int_laws
  none_due enough (inr missing) =
      let le : amount 8 x ≤ℤ pos 0 = rw missing at enough in omega int_laws

  debit-Shift :
      amount 8 x ≤ℤ locked_of u a db
      → (r : Result (Unit {0}) × Db) → Debits u a x db r
      → IfOk (Shift nothing (at u a (pos 0 -ℤ amount 8 x)) db) r
  debit-Shift enough (err e, db') h = tt
  debit-Shift enough (ok _, db') (inl (idle, same)) = rw same (
      Shift-same nothing nothing nothing (at u a (pos 0 -ℤ amount 8 x)) db db (λ v c. refl)
        (λ v c. sym (at_zero u a v c (pos 0 -ℤ amount 8 x) (minus_zero (none_due enough idle))))
        (Shift-refl db good.ledger))
  debit-Shift enough (ok _, db') (inr (b, found, more, moved)) =
      let all : units_released b x ≡ amount 8 x =
        min_right (amount 8 b.locked_balance) (amount 8 x) (rw found at enough) in
      Shift-same (at u a (pos 0)) (at u a (pos 0 -ℤ units_released b x)) nothing
        (at u a (pos 0 -ℤ amount 8 x)) db db' (λ v c. at_zero u a v c (pos 0) refl)
        (λ v c. ap (λ y. at u a (pos 0 -ℤ y) v c) all)
        (Moved-Shift u a (pos 0) (pos 0 -ℤ units_released b x) db db' moved)

  debit-Unmoved : IfOk (Unmoved db) (debit_locked u a x db)
  debit-Unmoved = elim (Bool-cases (gt x zero_text)) [
    | inr idle ↦ rw (debit_idle u a x db (inl idle)) (record { fresh = good.fresh; orders = refl })
    | inl more ↦ elim (Option-cases (balance_of u a db)) [
      | inl missing ↦
          rw (debit_idle u a x db (inr missing)) (record { fresh = good.fresh; orders = refl })
      | inr (b, found) ↦ elim (Option-cases (pg.column (sub b.locked_balance (released b x)))) [
        | inl refused ↦ rw (debit_overflow u a x db b more found refused) tt
        | inr (lk, kept) ↦ rw (debit_done u a x db b lk more found kept) (record {
          fresh =
              update-IsFresh (set_locked lk db.clock) (set_locked-KeepsKeys lk db.clock) b.id
                db.next_id db.balances good.fresh;
          orders = refl;
        })
      ]
    ]
  ]

  set_available-Settled :
      (b : Balance) (t : DecStr) (d : ℤ)
      → balance_of u a db ≡ some b
      → IsStored t
      → amount 8 t ≡ amount 8 b.available_balance +ℤ d
      → Settled (at u a d) nothing db (update_balance b.id (set_available t db.clock) db)
  set_available-Settled b t d found stored e =
      let f = set_available t db.clock in
      let keeps = set_available-KeepsKeys t db.clock in
      record {
        shift =
            Shift-same (at u a d) (at u a (pos 0)) (at u a d) nothing db (update_balance b.id f db)
              (λ v c. refl) (λ v c. at_zero u a v c (pos 0) refl)
              (Moved-Shift u a d (pos 0) db (update_balance b.id f db) (
                Moved-update f u a d (pos 0) db b keeps (λ r s. (stored, s.1)) good.ledger found e
                  (omega int_laws)));
        fresh = update-IsFresh f keeps b.id db.next_id db.balances good.fresh;
        orders = refl;
      }

  added-Settled :
      (b : Balance) (t : DecStr)
      → balance_of u a db ≡ some b
      → pg.column (pg.sum b.available_balance x) ≡ some t
      → Settled (at u a (amount 8 x)) nothing db (update_balance b.id (set_available t db.clock) db)
  added-Settled b t found r =
      let (pb, nb) = (found-IsSound u a db b good.ledger found).0 in
      let (ps, es) = laws.sum_exact 8 b.available_balance x pb fits in
      let e = laws.column_exact (pg.sum b.available_balance x) t r ps ∙ es in
      set_available-Settled b t (amount 8 x) found
        (laws.column_places (pg.sum b.available_balance x) t r, rw e (omega int_laws)) e

  opened-Settled :
      (o z : DecStr)
      → pg.column x ≡ some o
      → pg.column zero_text ≡ some z
      → balance_of u a db ≡ none
      → Settled (at u a (amount 8 x)) nothing db (record db {
        balances = db.balances ++ (opened_balance u a o z db ∷ []);
        next_id = suc db.next_id;
      })
  opened-Settled o z c d missing =
      let row = opened_balance u a o z db in
      let db' : Db = record db { balances = db.balances ++ (row ∷ []); next_id = suc db.next_id } in
      let eo = laws.column_exact x o c fits in
      let ez : amount 8 z ≡ pos 0 =
        laws.column_exact zero_text z d (omega (arith, places-zero_text)) ∙ amount-zero_text 8 in
      let so : IsStored o = (laws.column_places x o c, rw eo positive) in
      let sz : IsStored z = (laws.column_places zero_text z d, rw ez (omega arith)) in
      record {
        shift =
            Shift-same (at u a (amount 8 o)) (at u a (amount 8 z)) (at u a (amount 8 x)) nothing db
              db' (λ v e. ap (λ y. at u a y v e) eo) (λ v e. at_zero u a v e (amount 8 z) ez)
              (append-Shift row db (suc db.next_id) good.fresh missing (so, sz) good.ledger);
        fresh = append-IsFresh db.next_id row db.balances refl good.fresh;
        orders = refl;
      }

  -- A credit, whether or not there is a row.
  pub credit_available-Settled :
      IfOk (Settled (at u a (amount 8 x)) nothing db) (credit_available u a x db)
  credit_available-Settled = elim (Option-cases (pg.column x)) [
    | inl c ↦ rw (credit_refused u a x db c) tt
    | inr (o, c) ↦ elim (Option-cases (pg.column zero_text)) [
      | inl d ↦ rw (credit_no_zero u a x db o c d) tt
      | inr (z, d) ↦ elim (Option-cases (balance_of u a db)) [
        | inl missing ↦ rw (credit_opened u a x db o z c d missing) (opened-Settled o z c d missing)
        | inr (b, found) ↦ elim (Option-cases (pg.column (pg.sum b.available_balance x))) [
          | inl r ↦ rw (credit_overflow u a x db o z c d b found r) tt
          | inr (t, r) ↦ rw (credit_added u a x db o z c d b t found r) (added-Settled b t found r)
        ]
      ]
    ]
  ]

  taken-Settled :
      (b : Balance) (t : DecStr)
      → balance_of u a db ≡ some b
      → pg.column (pg.difference b.available_balance x) ≡ some t
      → amount 8 x ≤ℤ amount 8 b.available_balance
      → Settled
          (at u a (pos 0 -ℤ amount 8 x))
          nothing
          db
          (update_balance b.id (set_available t db.clock) db)
  taken-Settled b t found r enough =
      let (pb, nb) = (found-IsSound u a db b good.ledger found).0 in
      let (ps, es) = laws.difference_exact 8 b.available_balance x pb fits in
      let e = laws.column_exact (pg.difference b.available_balance x) t r ps ∙ es in
      set_available-Settled b t (pos 0 -ℤ amount 8 x) found
        (laws.column_places (pg.difference b.available_balance x) t r, rw e (omega int_laws))
        (e ∙ minus_as_plus _ _)

  -- A fee of no more than is available.
  pub debit_available-Settled :
      amount 8 x ≤ℤ available_of u a db
      → IfOk (Settled (at u a (pos 0 -ℤ amount 8 x)) nothing db) (debit_available u a x db)
  debit_available-Settled enough = elim (Option-cases (balance_of u a db)) [
    | inl missing ↦ rw (debit_missing u a x db missing) (
        let le : amount 8 x ≤ℤ pos 0 = rw missing at enough in
        let none_due : amount 8 x ≡ pos 0 = omega int_laws in
        record {
          shift =
              Shift-same nothing nothing (at u a (pos 0 -ℤ amount 8 x)) nothing db db
                (λ v c. sym (at_zero u a v c (pos 0 -ℤ amount 8 x) (minus_zero none_due)))
                (λ v c. refl) (Shift-refl db good.ledger);
          fresh = good.fresh;
          orders = refl;
        })
    | inr (b, found) ↦ elim (Option-cases (pg.column (pg.difference b.available_balance x))) [
      | inl r ↦ rw (fee_overflow u a x db b found r) tt
      | inr (t, r) ↦
          rw (fee_taken u a x db b t found r) (taken-Settled b t found r (rw found at enough))
    ]
  ]

  -- `debitLocked`, the same with the identifiers fresh.
  pub debit_locked-Settled :
      amount 8 x ≤ℤ locked_of u a db
      → IfOk (Settled nothing (at u a (pos 0 -ℤ amount 8 x)) db) (debit_locked u a x db)
  debit_locked-Settled enough =
      both nothing (at u a (pos 0 -ℤ amount 8 x)) db (debit_locked u a x db)
        (debit-Shift enough (debit_locked u a x db)
          (debit_locked-Debits laws u a x db fits good.ledger))
        debit-Unmoved
