-- ===== src/Balance/Fresh.antt =====
-- A new row in the table of balances, whose identifier is fresh.
use perpetual_futures_exchan.Prelude.{
  ℕ, suc, ◌<◌, ◌≡◌, refl, sym, false, none, some, List, [], ◌∷◌, ◌++◌, arith, Bool-cases, inl, inr,
  All, All-imp,
}
use mathlib.Core.Path.{subst}
use mathlib.Core.Option.{some-injective}
use perpetual_futures_exchan.Store.{Balance}
use perpetual_futures_exchan.Store.Rows.{first, update_rows}
use perpetual_futures_exchan.Balance.{owns, has_id}
use perpetual_futures_exchan.Balance.Table.{Differ, IsTable, KeepsKeys, first-All}

-- All identifiers have been given out before `n`.
abbrev pub IsFresh : ℕ → List Balance → Type 0
IsFresh n rows = All (λ (b : Balance). b.id < n) rows

-- The row with the identifier of a balance is the balance of its owner.
pub found-owner :
    (u a : ℕ) (rows : List Balance) (b : Balance)
    → IsTable rows
    → first (owns u a) rows ≡ some b
    → All (λ r. r.id ≡ b.id → r.user_id ≡ b.user_id) rows
found-owner u a [] b t e = tt
found-owner u a (r ∷ rows) b (d, t) e = elim (Bool-cases (owns u a r)) [
  | inl mine ↦
      let same : r ≡ b = some-injective _ _ (rw mine at e) in
      subst (λ (x : Balance). All (λ r'. r'.id ≡ x.id → r'.user_id ≡ x.user_id) (r ∷ rows)) same
        (
          (λ i. refl),
          All-imp (Differ r) (λ r'. r'.id ≡ r.id → r'.user_id ≡ r.user_id) rows
              (λ r' ne i. absurd (ne.0 i)) d,
        )
  | inr other ↦
      let tail : first (owns u a) rows ≡ some b = rw other at e in
      let ne = first-All (Differ r) (owns u a) rows b d tail in
      ((λ i. absurd (ne.0 (sym i))), found-owner u a rows b t tail)
]

differs : (r row : Balance) → r.id < row.id → owns row.user_id row.asset_id r ≡ false → Differ r row
differs r row lt e = ((λ i. omega arith), ground arith)

append-Differ :
    (r row : Balance) (rows : List Balance)
    → Differ r row
    → All (Differ r) rows
    → All (Differ r) (rows ++ (row ∷ []))
append-Differ r row [] d h = (d, tt)
append-Differ r row (s ∷ rows) d (e, h) = (e, append-Differ r row rows d h)

pub append-IsTable :
    (row : Balance) (rows : List Balance)
    → IsFresh row.id rows
    → first (owns row.user_id row.asset_id) rows ≡ none
    → IsTable rows
    → IsTable (rows ++ (row ∷ []))
append-IsTable row [] f e t = (tt, tt)
append-IsTable row (r ∷ rows) (lt, f) e (d, t) =
    elim (Bool-cases (owns row.user_id row.asset_id r)) [
      | inl mine ↦ let no_row : none ≡ some r = sym (rw mine at e) in cc
      | inr other ↦ (
        append-Differ r row rows (differs r row lt other) d,
        append-IsTable row rows f (rw other at e) t,
      )
    ]

pub append-IsFresh :
    (n : ℕ) (row : Balance) (rows : List Balance)
    → row.id ≡ n
    → IsFresh n rows
    → IsFresh (suc n) (rows ++ (row ∷ []))
append-IsFresh n row [] e f = (omega arith, tt)
append-IsFresh n row (r ∷ rows) e (lt, f) = (omega arith, append-IsFresh n row rows e f)

pub update-IsFresh :
    (f : Balance → Balance) (keeps : KeepsKeys f) (k n : ℕ) (rows : List Balance)
    → IsFresh n rows
    → IsFresh n (update_rows (has_id k) f rows)
update-IsFresh f keeps k n [] h = tt
update-IsFresh f keeps k n (r ∷ rows) (lt, h) =
    (ground (arith, keeps.id_kept r), update-IsFresh f keeps k n rows h)
