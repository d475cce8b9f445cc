-- ===== src/DbWriter/Settle/Steps.antt =====
-- One side of a trade's settlement, on a ledger.
use perpetual_futures_exchan.Prelude.{ℕ, ◌≤◌, ◌≡◌, ◌≢◌, refl, ap, ◌∙◌, Option, some, arith}
use perpetual_futures_exchan.Prelude.Int.{ℤ, pos, ◌+ℤ◌, ◌-ℤ◌, ◌≤ℤ◌, int_laws, add_zero}
use perpetual_futures_exchan.Big.{Js}
use perpetual_futures_exchan.Decimal.{DecStr, places, amount}
use perpetual_futures_exchan.Store.{Db, Order}
use perpetual_futures_exchan.Store.Monad.{Action, Result, ok, err, done, ◌>>◌}
use perpetual_futures_exchan.Store.Numeric.{Postgres, IsPostgres}
use perpetual_futures_exchan.Balance.{debit_locked}
use perpetual_futures_exchan.Balance.Holdings.{
  at, nothing, plus, available_of, locked_of, Shift-same,
}
use perpetual_futures_exchan.DbWriter.Credit.{credit_available, debit_available}
use perpetual_futures_exchan.DbWriter.Trade.{Settlement, proceeds}
use perpetual_futures_exchan.DbWriter.Agree.Writes.{statement}
use perpetual_futures_exchan.DbWriter.InOrder.{gives, pay_in_order}
use perpetual_futures_exchan.DbWriter.Settle.{IfOk, Good, Settled, Settled-trans, Settled-Good}
use perpetual_futures_exchan.DbWriter.Settle.Moves.{
  debit_locked-Settled, credit_available-Settled, debit_available-Settled,
}
use perpetual_futures_exchan.DbWriter.Settle.Moves.{
  debit_locked-Settled, credit_available-Settled, debit_available-Settled,
}

abbrev after : {A B : Type 0} → (A → Action B) → Result A × Db → Result B × Db
after g n = let (r, db') = n in elim r [ ok a ↦ g a db' | err e ↦ (err e, db') ]

after-IfOk :
    {A B : Type 0} (g : A → Action B) (P Q : Db → Type 0) (n : Result A × Db)
    → IfOk P n
    → ((a : A) (db : Db) → P db → IfOk Q (g a db))
    → IfOk Q (after g n)
after-IfOk g P Q (ok a, db) h k = k a db h
after-IfOk g P Q (err e, db) h k = tt

pub then-IfOk :
    {A B : Type 0} (m : Action A) (k : Action B) (P Q : Db → Type 0) (db : Db)
    → IfOk P (m db)
    → ((db' : Db) → P db' → IfOk Q (k db'))
    → IfOk Q ((m >> k) db)
then-IfOk m k P Q db h f = after-IfOk (λ _. k) P Q (m db) h (λ a db' p. f db' p)

statement-IfOk :
    (m : Action (Option ℕ)) (P : Db → Type 0) (db : Db) → IfOk P (m db) → IfOk P (statement m db)
statement-IfOk m P db h = then-IfOk m done P P db h (λ db' p. p)

module _ ⦃js : Js⦄ where
  pub same_Settled :
      (da dl da' dl' : ℕ → ℕ → ℤ) (db : Db) (r : Result (Unit {0}) × Db)
      → ((v c : ℕ) → da v c ≡ da' v c)
      → ((v c : ℕ) → dl v c ≡ dl' v c)
      → IfOk (Settled da dl db) r
      → IfOk (Settled da' dl' db) r
  same_Settled da dl da' dl' db (ok a, db') e f h = record {
    shift = Shift-same da dl da' dl' db db' e f h.shift;
    fresh = h.fresh;
    orders = h.orders;
  }
  same_Settled da dl da' dl' db (err x, db') e f h = tt

  pub then-Settled :
      (da dl da' dl' : ℕ → ℕ → ℤ) (m k : Action (Unit {0})) (db : Db)
      → IfOk (Settled da dl db) (m db)
      → ((db' : Db) → Settled da dl db db' → IfOk (Settled da' dl' db') (k db'))
      → IfOk (Settled (plus da da') (plus dl dl') db) ((m >> k) db)
  then-Settled da dl da' dl' m k db h f =
      then-IfOk m k (Settled da dl db) (Settled (plus da da') (plus dl dl') db) db h
        (λ db' s. onto (k db') db' s (f db' s))
    where
      onto :
          (r : Result (Unit {0}) × Db) (db' : Db)
          → Settled da dl db db'
          → IfOk (Settled da' dl' db') r
          → IfOk (Settled (plus da da') (plus dl dl') db) r
      onto (ok a, db'') db' s t = Settled-trans da dl da' dl' db db' db'' s t
      onto (err e, db'') db' s t = tt

zero_plus : (x : ℤ) → pos 0 +ℤ x ≡ x
zero_plus x = omega int_laws

pub le_same : (x y z d : ℤ) → x ≤ℤ y → z ≡ y +ℤ d → d ≡ pos 0 → x ≤ℤ z
le_same x y z d le e n = rw (e, n) (omega int_laws)

pub elsewhere_zero : (u a v c : ℕ) (x : ℤ) → u ≢ v → at u a x v c ≡ pos 0
elsewhere_zero u a v c x ne = ground arith

-- An amount of eight places at most that is not negative.
module _ ⦃js : Js⦄ where
  abbrev pub Fits : DecStr → Type 0
  Fits x = (places x ≤ 8) × (pos 0 ≤ℤ amount 8 x)

  abbrev pub minus : DecStr → ℤ
  minus x = pos 0 -ℤ amount 8 x

module _ ⦃js : Js⦄ ⦃pg : Postgres⦄ (laws : IsPostgres pg) (s : Settlement) (fee : DecStr)
    (o : Order) where
  pub gives-Settled :
      (db : Db)
      → Fits s.quantity
      → Fits (proceeds s fee)
      → amount 8 s.quantity ≤ℤ locked_of o.user_id s.base_asset_id db
      → Good db
      → IfOk
          (Settled
            (at o.user_id s.quote_asset_id (amount 8 (proceeds s fee)))
            (at o.user_id s.base_asset_id (minus s.quantity))
            db)
          (gives s fee (some o) db)
  gives-Settled db (q8, q0) (p8, p0) enough good =
      let u = o.user_id in
      let credit = credit_available u s.quote_asset_id (proceeds s fee) in
      same_Settled _ _ _ _ db (gives s fee (some o) db) (λ v c. zero_plus _) (λ v c. add_zero _)
        (then-Settled nothing (at u s.base_asset_id (minus s.quantity))
          (at u s.quote_asset_id (amount 8 (proceeds s fee))) nothing
          (debit_locked u s.base_asset_id s.quantity) (statement credit) db
          (debit_locked-Settled laws u s.base_asset_id s.quantity db q8 q0 good enough)
          (λ db' h. statement-IfOk credit _ db' (
            credit_available-Settled laws u s.quote_asset_id (proceeds s fee) db' p8 p0
              (Settled-Good _ _ db db' h))))

  pub pays-Settled :
      (margin : DecStr) (db : Db)
      → Fits margin
      → Fits fee
      → Fits s.quantity
      → amount 8 margin ≤ℤ locked_of o.user_id s.quote_asset_id db
      → amount 8 fee ≤ℤ available_of o.user_id s.quote_asset_id db
      → Good db
      → IfOk
          (Settled
            (plus
              (at o.user_id s.quote_asset_id (minus fee))
              (at o.user_id s.base_asset_id (amount 8 s.quantity)))
            (at o.user_id s.quote_asset_id (minus margin))
            db)
          (pay_in_order s fee o (some margin) db)
  pays-Settled margin db (m8, m0) (f8, f0) (q8, q0) enough covered good =
      let u = o.user_id in
      let debit = debit_locked u s.quote_asset_id margin in
      let charge = debit_available u s.quote_asset_id fee in
      let credit = credit_available u s.base_asset_id s.quantity in
      same_Settled _ _ _ _ db (pay_in_order s fee o (some margin) db)
        (λ v c. ap (λ x. x +ℤ at u s.base_asset_id (amount 8 s.quantity) v c) (zero_plus _))
        (λ v c. add_zero _ ∙ add_zero _)
        (then-Settled _ _ (at u s.base_asset_id (amount 8 s.quantity)) nothing
          (debit >> statement charge) (statement credit) db
          (then-Settled nothing (at u s.quote_asset_id (minus margin))
            (at u s.quote_asset_id (minus fee)) nothing debit (statement charge) db
            (debit_locked-Settled laws u s.quote_asset_id margin db m8 m0 good enough)
            (λ db' h. statement-IfOk charge _ db' (
              debit_available-Settled laws u s.quote_asset_id fee db' f8 f0
                (Settled-Good _ _ db db' h)
                (le_same _ _ _ _ covered (h.shift.available u s.quote_asset_id) refl))))
          (λ db' h. statement-IfOk credit _ db' (
            credit_available-Settled laws u s.base_asset_id s.quantity db' q8 q0
              (Settled-Good _ _ db db' h))))
