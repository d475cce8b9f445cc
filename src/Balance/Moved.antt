-- ===== src/Balance/Moved.antt =====
-- What a change of one balance does to the whole ledger.
use perpetual_futures_exchan.Prelude.{
  ℕ, ◌≤◌, ◌≡◌, refl, ◌∙◌, true, false, ◌&&◌, some, List, arith, ◌==◌, if◌then◌else◌, Bool-cases,
  inl, inr, All,
}
use perpetual_futures_exchan.Prelude.Int.{ℤ, pos, ◌+ℤ◌, ◌≤ℤ◌, shift_sum, add_zero_both}
use perpetual_futures_exchan.Big.{Js}
use perpetual_futures_exchan.Decimal.{DecStr, places, amount}
use perpetual_futures_exchan.Store.{Db, Balance}
use perpetual_futures_exchan.Store.Rows.{first}
use perpetual_futures_exchan.Balance.{owns, has_id, balance_of, update_balance}
use perpetual_futures_exchan.Balance.Table.{
  IsTable, KeepsKeys, first_sound, first-update_self, first-update_ne, update-IsTable, update-All,
  worth_in, total, total-update,
}

module _ ⦃js : Js⦄ where
  -- A text that a column holds: eight places, and not negative.
  abbrev pub IsStored : DecStr → Type 0
  IsStored t = (places t ≤ 8) × (pos 0 ≤ℤ amount 8 t)

  abbrev pub IsSound : Balance → Type 0
  IsSound b = IsStored b.available_balance × IsStored b.locked_balance

  -- Keys are unique and no amount is negative.
  pub record IsLedger (db : Db) : Type 0 where
    pub table : IsTable db.balances
    pub sound : All IsSound db.balances

  -- `available` and `locked` of one user's balance in one asset change by the given amounts, and
  -- nothing else does.
  pub record Moved (user asset : ℕ) (da dl : ℤ) (db db' : Db) : Type 0 where
    pub old : Balance
    pub new : Balance
    pub found : balance_of user asset db ≡ some old
    pub after : balance_of user asset db' ≡ some new
    pub available : amount 8 new.available_balance ≡ amount 8 old.available_balance +ℤ da
    pub locked : amount 8 new.locked_balance ≡ amount 8 old.locked_balance +ℤ dl
    pub others :
        (u a : ℕ) → (user == u && asset == a) ≡ false → balance_of u a db' ≡ balance_of u a db
    pub frame : db' ≡ record db { balances = db'.balances }
    pub ledger : IsLedger db'
    pub totals :
        (c : ℕ)
        → total c db'.balances ≡ total c db.balances +ℤ (if asset == c then da +ℤ dl else pos 0)

  owner_asset :
      (u a : ℕ) (rows : List Balance) (b : Balance)
      → first (owns u a) rows ≡ some b
      → b.asset_id ≡ a
  owner_asset u a rows b e = ground (arith, first_sound (owns u a) rows b e)

  balance_totals :
      (c a : ℕ) (b n : Balance) (t t' da dl : ℤ)
      → b.asset_id ≡ a
      → n.asset_id ≡ a
      → amount 8 n.available_balance ≡ amount 8 b.available_balance +ℤ da
      → amount 8 n.locked_balance ≡ amount 8 b.locked_balance +ℤ dl
      → t' +ℤ worth_in c b ≡ t +ℤ worth_in c n
      → t' ≡ t +ℤ (if a == c then da +ℤ dl else pos 0)
  balance_totals c a b n t t' da dl ba na av lk h = elim (Bool-cases (a == c)) [
    | inl same ↦
        let eb : (b.asset_id == c) ≡ true = ground arith in
        let en : (n.asset_id == c) ≡ true = ground arith in
        rw same (shift_sum t' t _ _ _ _ da dl av lk (rw (eb, en) at h))
    | inr other ↦
        let eb : (b.asset_id == c) ≡ false = ground arith in
        let en : (n.asset_id == c) ≡ false = ground arith in
        rw other (add_zero_both t' t (rw (eb, en) at h))
  ]

  pub Moved-update :
      (f : Balance → Balance) (user asset : ℕ) (da dl : ℤ) (db : Db) (b : Balance)
      → KeepsKeys f
      → ((r : Balance) → IsSound r → IsSound (f r))
      → IsLedger db
      → balance_of user asset db ≡ some b
      → amount 8 (f b).available_balance ≡ amount 8 b.available_balance +ℤ da
      → amount 8 (f b).locked_balance ≡ amount 8 b.locked_balance +ℤ dl
      → Moved user asset da dl db (update_balance b.id f db)
  Moved-update f user asset da dl db b keeps sound ledger found av lk =
      let rows = db.balances in
      let is_asset : b.asset_id ≡ asset = owner_asset user asset rows b found in
      record {
        old = b;
        new = f b;
        found = found;
        after = first-update_self f keeps user asset rows b found;
        available = av;
        locked = lk;
        others = λ u a ne. first-update_ne f keeps user asset u a rows b ledger.table found ne;
        frame = refl;
        ledger = record {
          table = update-IsTable f keeps b.id rows ledger.table;
          sound = update-All f keeps IsSound (has_id b.id) rows sound ledger.sound;
        };
        totals = λ c.
            balance_totals c asset b (f b) (total c rows) _ da dl is_asset
              (keeps.asset_kept b ∙ is_asset) av lk
              (total-update f keeps c user asset rows b ledger.table found);
      }
