-- ===== src/Balance/Holdings.antt =====
-- Balances as one looks at them from outside: what each user holds of each asset, available and
-- locked, nothing where there is no row.
use mathlib.Core.Path.{subst}
use perpetual_futures_exchan.Prelude.{
  ℕ, ◌≡◌, sym, ap, ◌∙◌, Bool, true, false, ◌&&◌, Option, none, some, List, [], ◌∷◌, ◌++◌, arith,
  ◌==◌, if◌then◌else◌, Bool-cases, inl, inr, All-append,
}
use perpetual_futures_exchan.Prelude.Int.{ℤ, pos, ◌+ℤ◌, int_laws, add_zero}
use perpetual_futures_exchan.Big.{Js}
use perpetual_futures_exchan.Decimal.{amount}
use perpetual_futures_exchan.Store.{Db, Balance}
use perpetual_futures_exchan.Store.Rows.{first}
use perpetual_futures_exchan.Balance.{owns, balance_of}
use perpetual_futures_exchan.Balance.Moved.{IsSound, IsLedger, Moved}
use perpetual_futures_exchan.Balance.Fresh.{IsFresh, append-IsTable}

-- An amount at one user and one asset.
abbrev pub at : (user asset : ℕ) → ℤ → ℕ → ℕ → ℤ
at user asset x v c = if user == v && asset == c then x else pos 0

abbrev pub plus : (ℕ → ℕ → ℤ) → (ℕ → ℕ → ℤ) → ℕ → ℕ → ℤ
plus f g v c = f v c +ℤ g v c

abbrev pub nothing : ℕ → ℕ → ℤ
nothing v c = pos 0

add_assoc_ℤ : (a x y : ℤ) → (a +ℤ x) +ℤ y ≡ a +ℤ (x +ℤ y)
add_assoc_ℤ a x y = omega int_laws

zero_add_ℤ : (x : ℤ) → x ≡ pos 0 +ℤ x
zero_add_ℤ x = omega int_laws

same_owner : (u a v c : ℕ) → (u == v && a == c) ≡ true → (u ≡ v) × (a ≡ c)
same_owner u a v c e = ground arith

-- One user's balance in one asset has changed, and nobody else's.
shift_at :
    (g : Option Balance → ℤ) (u a v c : ℕ) (d : ℤ) (db db' : Db)
    → g (balance_of u a db') ≡ g (balance_of u a db) +ℤ d
    → ((u == v && a == c) ≡ false → balance_of v c db' ≡ balance_of v c db)
    → g (balance_of v c db') ≡ g (balance_of v c db) +ℤ at u a d v c
shift_at g u a v c d db db' here others = elim (Bool-cases (u == v && a == c)) [
  | inl same ↦
      let (eu, ea) = same_owner u a v c same in
      rw same (
        subst (λ w. g (balance_of w c db') ≡ g (balance_of w c db) +ℤ d) eu
          (subst (λ w. g (balance_of u w db') ≡ g (balance_of u w db) +ℤ d) ea here))
  | inr other ↦ rw other (ap g (others other) ∙ sym (add_zero (g (balance_of v c db))))
]

module _ ⦃js : Js⦄ where
  abbrev pub available_in : Option Balance → ℤ
  available_in none = pos 0
  available_in (some b) = amount 8 b.available_balance

  abbrev pub locked_in : Option Balance → ℤ
  locked_in none = pos 0
  locked_in (some b) = amount 8 b.locked_balance

  abbrev pub available_of : ℕ → ℕ → Db → ℤ
  available_of user asset db = available_in (balance_of user asset db)

  abbrev pub locked_of : ℕ → ℕ → Db → ℤ
  locked_of user asset db = locked_in (balance_of user asset db)

  -- What all users hold of all assets changes by the given amounts.
  pub record Shift (da dl : ℕ → ℕ → ℤ) (db db' : Db) : Type 0 where
    pub available : (v c : ℕ) → available_of v c db' ≡ available_of v c db +ℤ da v c
    pub locked : (v c : ℕ) → locked_of v c db' ≡ locked_of v c db +ℤ dl v c
    pub ledger : IsLedger db'

  pub Shift-refl : (db : Db) → IsLedger db → Shift nothing nothing db db
  Shift-refl db ledger = record {
    available = λ v c. omega int_laws;
    locked = λ v c. omega int_laws;
    ledger = ledger;
  }

  pub Shift-trans :
      (da dl da' dl' : ℕ → ℕ → ℤ) (a b c : Db)
      → Shift da dl a b
      → Shift da' dl' b c
      → Shift (plus da da') (plus dl dl') a c
  Shift-trans da dl da' dl' a b c h k = record {
    available = λ v d.
        k.available v d
        ∙ ap (λ x. x +ℤ da' v d) (h.available v d)
        ∙ add_assoc_ℤ _ (da v d) (da' v d);
    locked = λ v d.
        k.locked v d ∙ ap (λ x. x +ℤ dl' v d) (h.locked v d) ∙ add_assoc_ℤ _ (dl v d) (dl' v d);
    ledger = k.ledger;
  }

  pub Moved-Shift :
      (user asset : ℕ) (da dl : ℤ) (db db' : Db)
      → Moved user asset da dl db db'
      → Shift (at user asset da) (at user asset dl) db db'
  Moved-Shift user asset da dl db db' m = record {
    available = λ v c.
        shift_at available_in user asset v c da db db'
          (ap available_in m.after ∙ m.available ∙ ap (λ o. available_in o +ℤ da) (sym m.found))
          (m.others v c);
    locked = λ v c.
        shift_at locked_in user asset v c dl db db'
          (ap locked_in m.after ∙ m.locked ∙ ap (λ o. locked_in o +ℤ dl) (sym m.found))
          (m.others v c);
    ledger = m.ledger;
  }

  pub Shift-same :
      (da dl da' dl' : ℕ → ℕ → ℤ) (a b : Db)
      → ((v c : ℕ) → da v c ≡ da' v c)
      → ((v c : ℕ) → dl v c ≡ dl' v c)
      → Shift da dl a b
      → Shift da' dl' a b
  Shift-same da dl da' dl' a b e f h = record {
    available = λ v c. h.available v c ∙ ap (λ x. available_of v c a +ℤ x) (e v c);
    locked = λ v c. h.locked v c ∙ ap (λ x. locked_of v c a +ℤ x) (f v c);
    ledger = h.ledger;
  }

  -- A new row.
  first-append_none :
      (p : Balance → Bool) (rows : List Balance) (row : Balance)
      → first p rows ≡ none
      → p row ≡ true
      → first p (rows ++ (row ∷ [])) ≡ some row
  first-append_none p [] row e t = rw t
  first-append_none p (r ∷ rows) row e t = elim (Bool-cases (p r)) [
    | inl w ↦ let no_row : none ≡ some r = sym (rw w at e) in cc
    | inr w ↦ rw w (first-append_none p rows row (rw w at e) t)
  ]

  first-append_other :
      (p : Balance → Bool) (rows : List Balance) (row : Balance)
      → p row ≡ false
      → first p (rows ++ (row ∷ [])) ≡ first p rows
  first-append_other p [] row t = rw t
  first-append_other p (r ∷ rows) row t = rw (first-append_other p rows row t)

  pub append-Shift :
      (row : Balance) (db : Db) (n : ℕ)
      → IsFresh row.id db.balances
      → balance_of row.user_id row.asset_id db ≡ none
      → IsSound row
      → IsLedger db
      → Shift
          (at row.user_id row.asset_id (amount 8 row.available_balance))
          (at row.user_id row.asset_id (amount 8 row.locked_balance))
          db
          (record db { balances = db.balances ++ (row ∷ []); next_id = n })
  append-Shift row db n fresh missing sound ledger =
      let u = row.user_id in
      let a = row.asset_id in
      let db' : Db = record db { balances = db.balances ++ (row ∷ []); next_id = n } in
      let here : balance_of u a db' ≡ some row =
        first-append_none (owns u a) db.balances row missing (ground arith) in
      let others : (v c : ℕ) → (u == v && a == c) ≡ false → balance_of v c db' ≡ balance_of v c db =
        λ v c ne. first-append_other (owns v c) db.balances row ne in
      record {
        available = λ v c.
            shift_at available_in u a v c (amount 8 row.available_balance) db db'
              (ap available_in here
                ∙ zero_add_ℤ _
                ∙ ap (λ o. available_in o +ℤ amount 8 row.available_balance) (sym missing))
              (others v c);
        locked = λ v c.
            shift_at locked_in u a v c (amount 8 row.locked_balance) db db'
              (ap locked_in here
                ∙ zero_add_ℤ _
                ∙ ap (λ o. locked_in o +ℤ amount 8 row.locked_balance) (sym missing))
              (others v c);
        ledger = record {
          table = append-IsTable row db.balances fresh missing ledger.table;
          sound = All-append IsSound db.balances (row ∷ []) ledger.sound (sound, tt);
        };
      }
