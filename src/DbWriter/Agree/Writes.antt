-- ===== src/DbWriter/Agree/Writes.antt =====
-- The writes of the trade's transaction to balances: credits, and fees.
use mathlib.Core.Path.{subst}
use perpetual_futures_exchan.Prelude.{
  ℕ, suc, ◌<◌, ◌≡◌, refl, sym, Option, none, some, List, [], ◌∷◌, ◌++◌, arith, Option-cases, inl,
  inr, All, All-imp,
}
use perpetual_futures_exchan.Big.{Js}
use perpetual_futures_exchan.Decimal.{DecStr, zero_text}
use perpetual_futures_exchan.Store.{Db, Balance, Order}
use perpetual_futures_exchan.Store.Monad.{
  Action, Error, Result, ok, err, done, ◌>>◌, then_ok, then_err, numeric_field_overflow,
}
use perpetual_futures_exchan.Store.Session.{Session, ended, write_balance, hold}
use perpetual_futures_exchan.Store.Numeric.{Postgres}
use perpetual_futures_exchan.Balance.{owns, balance_of, update_balance}
use perpetual_futures_exchan.Balance.Table.{KeepsKeys, update-IsTable, first_sound}
use perpetual_futures_exchan.Balance.Fresh.{
  found-owner, append-IsTable, append-IsFresh, update-IsFresh,
}
use perpetual_futures_exchan.DbWriter.Credit.{
  set_available, opened_balance, credit_available, debit_available,
}
use perpetual_futures_exchan.DbWriter.Together.{owner}
use perpetual_futures_exchan.DbWriter.Together.Writes.{
  grow-Together, write-Together, append-Together,
}
use perpetual_futures_exchan.DbWriter.Agree.{Aligned, At, Agrees, Follows}

-- A statement whose rows are not asked for.
abbrev pub statement : Action (Option ℕ) → Action (Unit {0})
statement m = m >> done

abbrev Written : (ℕ → Type 0) → List Order → Session → Result (Option ℕ) × Db → Type 0
Written P os s (ok id, db') = At P os (record s { inside = db'; held = hold id s.held })
Written P os s (err e, db') = db' ≡ s.inside

write_ok :
    (m : Action (Option ℕ)) (s : Session) (id : Option ℕ) (db' : Db)
    → m s.inside ≡ (ok id, db')
    → write_balance m s ≡ (ended (ok tt), record s { inside = db'; held = hold id s.held })
write_ok m s id db' e = ground arith

write_err :
    (m : Action (Option ℕ)) (s : Session) (e : Error) (db' : Db)
    → m s.inside ≡ (err e, db')
    → write_balance m s ≡ (ended (err e), record s { inside = db' })
write_err m s e db' h = ground arith

write-Agrees :
    (P : ℕ → Type 0) (os : List Order) (m : Action (Option ℕ)) (s : Session)
    (n : Result (Option ℕ) × Db)
    → m s.inside ≡ n
    → Written P os s n
    → Agrees (At P os) (write_balance m s) (statement m s.inside)
write-Agrees P os m s (ok id, db') run h =
    rw (then_ok m done s.inside db' id run, write_ok m s id db' run) (refl, h)
write-Agrees P os m s (err e, db') run h =
    rw (then_err m done s.inside db' e run, write_err m s e db' run) refl

pub set_available-KeepsKeys : (t : DecStr) (now : ℕ) → KeepsKeys (set_available t now)
set_available-KeepsKeys t now = record {
  id_kept = λ b. refl;
  user_kept = λ b. refl;
  asset_kept = λ b. refl;
}

module _ (P : ℕ → Type 0) (os : List Order) (s : Session) (u a : ℕ) (mine : P u) (al : Aligned P s)
    (e : s.inside.orders ≡ os) where
  added-Written :
      (b : Balance) (t : DecStr)
      → balance_of u a s.inside ≡ some b
      → Written P os s
          (ok (some b.id), update_balance b.id (set_available t s.inside.clock) s.inside)
  added-Written b t found =
      let f = set_available t s.inside.clock in
      let keeps = set_available-KeepsKeys t s.inside.clock in
      let rows = s.inside.balances in
      let mine_b : P b.user_id =
        subst P (sym (owner u a b (first_sound (owns u a) rows b found))) mine in
      let owned : All (λ r. r.id ≡ b.id → P r.user_id) rows =
        All-imp (λ r. r.id ≡ b.id → r.user_id ≡ b.user_id) (λ r. r.id ≡ b.id → P r.user_id) rows
          (λ r h i. subst P (sym (h i)) mine_b) (found-owner u a rows b al.table found) in
      (
        record {
          rows =
              write-Together P f keeps b.id (b.id ∷ s.held) s.outside.balances rows (ground arith)
                (grow-Together P b.id s.held s.outside.balances rows owned al.rows);
          orders = al.orders;
          clock = al.clock;
          table = update-IsTable f keeps b.id rows al.table;
          fresh = update-IsFresh f keeps b.id s.inside.next_id rows al.fresh;
        },
        e,
      )

  opened-Written :
      (x zero : DecStr)
      → balance_of u a s.inside ≡ none
      → Written P os s (
        ok (some s.inside.next_id),
        record s.inside {
          balances = s.inside.balances ++ (opened_balance u a x zero s.inside ∷ []);
          next_id = suc s.inside.next_id;
        },
      )
  opened-Written x zero missing =
      let row = opened_balance u a x zero s.inside in
      let k = s.inside.next_id in
      let rows = s.inside.balances in
      let owned : All (λ r. r.id ≡ k → P r.user_id) rows =
        All-imp (λ r. r.id < k) (λ r. r.id ≡ k → P r.user_id) rows (λ r lt i. absurd (omega arith))
          al.fresh in
      (
        record {
          rows =
              append-Together P row (k ∷ s.held) s.outside.balances rows (ground arith) mine
                (grow-Together P k s.held s.outside.balances rows owned al.rows);
          orders = al.orders;
          clock = al.clock;
          table = append-IsTable row rows al.fresh missing al.table;
          fresh = append-IsFresh k row rows refl al.fresh;
        },
        e,
      )

module _ ⦃js : Js⦄ ⦃pg : Postgres⦄ where
  module _ (u a : ℕ) (x : DecStr) (db : Db) where
    pub credit_refused :
        pg.column x ≡ none → credit_available u a x db ≡ (err numeric_field_overflow, db)
    unfolding credit_available
    credit_refused c = ground arith

    pub credit_no_zero :
        (o : DecStr)
        → pg.column x ≡ some o
        → pg.column zero_text ≡ none
        → credit_available u a x db ≡ (err numeric_field_overflow, db)
    unfolding credit_available
    credit_no_zero o c d = ground arith

    module _ (o z : DecStr) (c : pg.column x ≡ some o) (d : pg.column zero_text ≡ some z) where
      pub credit_opened :
          balance_of u a db ≡ none
          → credit_available u a x db ≡ (
            ok (some db.next_id),
            record db {
              balances = db.balances ++ (opened_balance u a o z db ∷ []);
              next_id = suc db.next_id;
            },
          )
      unfolding credit_available
      credit_opened missing = rw (c, d, missing)

      pub credit_overflow :
          (b : Balance)
          → balance_of u a db ≡ some b
          → pg.column (pg.sum b.available_balance x) ≡ none
          → credit_available u a x db ≡ (err numeric_field_overflow, db)
      unfolding credit_available
      credit_overflow b found r = rw (c, d, found, r)

      pub credit_added :
          (b : Balance) (t : DecStr)
          → balance_of u a db ≡ some b
          → pg.column (pg.sum b.available_balance x) ≡ some t
          → credit_available u a x db
            ≡ (ok (some b.id), update_balance b.id (set_available t db.clock) db)
      unfolding credit_available
      credit_added b t found r = rw (c, d, found, r)

    pub debit_missing : balance_of u a db ≡ none → debit_available u a x db ≡ (ok none, db)
    unfolding debit_available
    debit_missing missing = rw missing

    pub fee_overflow :
        (b : Balance)
        → balance_of u a db ≡ some b
        → pg.column (pg.difference b.available_balance x) ≡ none
        → debit_available u a x db ≡ (err numeric_field_overflow, db)
    unfolding debit_available
    fee_overflow b found r = rw (found, r)

    pub fee_taken :
        (b : Balance) (t : DecStr)
        → balance_of u a db ≡ some b
        → pg.column (pg.difference b.available_balance x) ≡ some t
        → debit_available u a x db
          ≡ (ok (some b.id), update_balance b.id (set_available t db.clock) db)
    unfolding debit_available
    fee_taken b t found r = rw (found, r)

  module _ (P : ℕ → Type 0) (os : List Order) (u a : ℕ) (x : DecStr) (mine : P u) where
    pub credit_available-Agrees :
        Follows
          (At P os)
          (At P os)
          (write_balance (credit_available u a x))
          (statement (credit_available u a x))
    credit_available-Agrees s (al, e) =
        let m = credit_available u a x in
        elim (Option-cases (pg.column x)) [
          | inl c ↦ write-Agrees P os m s _ (credit_refused u a x s.inside c) refl
          | inr (o, c) ↦ elim (Option-cases (pg.column zero_text)) [
            | inl d ↦ write-Agrees P os m s _ (credit_no_zero u a x s.inside o c d) refl
            | inr (z, d) ↦ elim (Option-cases (balance_of u a s.inside)) [
              | inl missing ↦
                  write-Agrees P os m s _ (credit_opened u a x s.inside o z c d missing)
                    (opened-Written P os s u a mine al e o z missing)
              | inr (b, found) ↦ elim (Option-cases (pg.column (pg.sum b.available_balance x))) [
                | inl r ↦
                    write-Agrees P os m s _ (credit_overflow u a x s.inside o z c d b found r) refl
                | inr (t, r) ↦
                    write-Agrees P os m s _ (credit_added u a x s.inside o z c d b t found r)
                      (added-Written P os s u a mine al e b t found)
              ]
            ]
          ]
        ]

    pub debit_available-Agrees :
        Follows
          (At P os)
          (At P os)
          (write_balance (debit_available u a x))
          (statement (debit_available u a x))
    debit_available-Agrees s (al, e) =
        let m = debit_available u a x in
        elim (Option-cases (balance_of u a s.inside)) [
          | inl missing ↦ write-Agrees P os m s _ (debit_missing u a x s.inside missing) (al, e)
          | inr (b, found) ↦ elim (Option-cases (pg.column (pg.difference b.available_balance x))) [
            | inl r ↦ write-Agrees P os m s _ (fee_overflow u a x s.inside b found r) refl
            | inr (t, r) ↦
                write-Agrees P os m s _ (fee_taken u a x s.inside b t found r)
                  (added-Written P os s u a mine al e b t found)
          ]
        ]
