-- ===== src/Balance/Stored.antt =====
-- The texts that a balance update writes, and the rows that it is given.
use perpetual_futures_exchan.Prelude.{ℕ, ◌≤◌, ◌≡◌, refl, ◌∙◌, false, some, arith}
use perpetual_futures_exchan.Prelude.Int.{pos, ◌+ℤ◌, ◌-ℤ◌, ◌≤ℤ◌, ◌<ℤ◌, int_laws}
use perpetual_futures_exchan.Big.{Js}
use perpetual_futures_exchan.Decimal.{DecStr, zero_text, add, sub, gt, gte, places, amount}
use perpetual_futures_exchan.Decimal.Laws.{
  amount-add, amount-sub, places-add, places-sub, gte-iff-amount, gt-zero_iff,
}
use perpetual_futures_exchan.Store.{Db, Balance}
use perpetual_futures_exchan.Store.Numeric.{Postgres, IsPostgres}
use perpetual_futures_exchan.Balance.{owns, balance_of}
use perpetual_futures_exchan.Balance.Table.{KeepsKeys, first-All}
use perpetual_futures_exchan.Balance.Moved.{IsStored, IsSound, IsLedger}

abbrev pub set_amounts : DecStr → DecStr → ℕ → Balance → Balance
set_amounts available locked now b = record b {
  available_balance = available;
  locked_balance = locked;
  updated_at = now;
}

pub set_amounts-KeepsKeys : (av lk : DecStr) (now : ℕ) → KeepsKeys (set_amounts av lk now)
set_amounts-KeepsKeys av lk now = record {
  id_kept = λ b. refl;
  user_kept = λ b. refl;
  asset_kept = λ b. refl;
}

module _ ⦃js : Js⦄ where
  pub not_gt_zero : (x : DecStr) → places x ≤ 8 → gt x zero_text ≡ false → amount 8 x ≤ℤ pos 0
  not_gt_zero x px h = ground (arith, gt-zero_iff 8 x px)

  pub not_gte :
      (a x : DecStr) → IsStored a → places x ≤ 8 → gte a x ≡ false → amount 8 a <ℤ amount 8 x
  not_gte a x (pa, _) px h = ground (arith, gte-iff-amount 8 a x pa px)

  pub found-IsSound :
      (user asset : ℕ) (db : Db) (b : Balance)
      → IsLedger db
      → balance_of user asset db ≡ some b
      → IsSound b
  found-IsSound user asset db b ledger found =
      first-All IsSound (owns user asset) db.balances b ledger.sound found

module _ ⦃js : Js⦄ ⦃pg : Postgres⦄ (laws : IsPostgres pg) where
  pub sub-IsStored :
      (a x av : DecStr)
      → IsStored a
      → places x ≤ 8
      → amount 8 x ≤ℤ amount 8 a
      → pg.column (sub a x) ≡ some av
      → IsStored av × (amount 8 av ≡ amount 8 a +ℤ (pos 0 -ℤ amount 8 x))
  sub-IsStored a x av (pa, na) px le c =
      let p8 : places (sub a x) ≤ 8 = omega (arith, places-sub a x) in
      let e : amount 8 av ≡ amount 8 a -ℤ amount 8 x =
        laws.column_exact (sub a x) av c p8 ∙ amount-sub 8 a x pa px in
      ((laws.column_places (sub a x) av c, rw e (omega int_laws)), e ∙ omega int_laws)

  pub add-IsStored :
      (a x lk : DecStr)
      → IsStored a
      → places x ≤ 8
      → pos 0 ≤ℤ amount 8 x
      → pg.column (add a x) ≡ some lk
      → IsStored lk × (amount 8 lk ≡ amount 8 a +ℤ amount 8 x)
  add-IsStored a x lk (pa, na) px nx c =
      let p8 : places (add a x) ≤ 8 = omega (arith, places-add a x) in
      let e : amount 8 lk ≡ amount 8 a +ℤ amount 8 x =
        laws.column_exact (add a x) lk c p8 ∙ amount-add 8 a x pa px in
      ((laws.column_places (add a x) lk c, rw e (omega int_laws)), e)
