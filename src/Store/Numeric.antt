-- ===== src/Store/Numeric.antt =====
-- PostgreSQL's `numeric(30, 8)` columns, which are no code of the repository: an interface with what
-- the services rely on.
use perpetual_futures_exchan.Prelude.{ℕ, ◌≤◌, ◌≡◌, Option, some}
use perpetual_futures_exchan.Prelude.Int.{pos, ◌+ℤ◌, ◌-ℤ◌, ◌≤ℤ◌}
use perpetual_futures_exchan.Big.{Js}
use perpetual_futures_exchan.Decimal.{DecStr, places, amount}

-- A text written to such a column, as it is read back, `none` where the database refuses it; and the
-- sum and the difference that SQL computes before it writes the column.
pub record Postgres : Type 0 where
  pub column : DecStr → Option DecStr
  pub sum : DecStr → DecStr → DecStr
  pub difference : DecStr → DecStr → DecStr

-- The documented behaviour: a column holds eight places, and keeps every value of eight places or
-- fewer as it is; it keeps the sign of a value that it rounds; SQL adds and subtracts exactly.
pub record IsPostgres ⦃js : Js⦄ (pg : Postgres) : Type 0 where
  pub column_places : (t u : DecStr) → pg.column t ≡ some u → places u ≤ 8
  pub column_exact : (t u : DecStr) → pg.column t ≡ some u → places t ≤ 8 → amount 8 u ≡ amount 8 t
  pub column_nonneg :
      (k : ℕ) (t u : DecStr)
      → pg.column t ≡ some u
      → places t ≤ k
      → pos 0 ≤ℤ amount k t
      → pos 0 ≤ℤ amount 8 u
  pub sum_exact :
      (k : ℕ) (a b : DecStr)
      → places a ≤ k
      → places b ≤ k
      → (places (pg.sum a b) ≤ k) × (amount k (pg.sum a b) ≡ amount k a +ℤ amount k b)
  pub difference_exact :
      (k : ℕ) (a b : DecStr)
      → places a ≤ k
      → places b ≤ k
      → (places (pg.difference a b) ≤ k) × (amount k (pg.difference a b) ≡ amount k a -ℤ amount k b)
