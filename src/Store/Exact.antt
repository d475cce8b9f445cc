-- ===== src/Store/Exact.antt =====
-- A database that meets `IsPostgres`: it refuses what it would have to round. With a rendering of
-- exponents that keeps the text, it serves the tests.
use perpetual_futures_exchan.Prelude.{ℕ, ◌≤◌, ◌≡◌, ◌-◌, none, some, arith, leb, if◌then◌else◌}
use perpetual_futures_exchan.Prelude.Int.{pos, ◌≤ℤ◌, signed}
use perpetual_futures_exchan.Big.{Js, Big, at_scale}
use perpetual_futures_exchan.Big.Order.{value-zero}
use perpetual_futures_exchan.Decimal.{DecStr, dec, add, sub, places}
use perpetual_futures_exchan.Decimal.Laws.{places-add, places-sub, amount-add, amount-sub}
use perpetual_futures_exchan.Store.Numeric.{Postgres, IsPostgres}

instance abbrev pub plain_js : Js
plain_js = record { number_text = λ s. s }

instance abbrev pub exact_pg : Postgres
exact_pg = record {
  column = λ t. if leb (places t) 8 then some t else none;
  sum = add;
  difference = sub;
}

at_scale_nonneg : (b : Big) (j k : ℕ) → pos 0 ≤ℤ at_scale b j → pos 0 ≤ℤ at_scale b k
unfolding signed
at_scale_nonneg b j k h = ground (arith, value-zero b.value (j - b.decimals))

column_fits : (t u : DecStr) → exact_pg.column t ≡ some u → (places t ≤ 8) × (t ≡ u)
column_fits t u e = ground arith

pub exact_pg-IsPostgres : IsPostgres exact_pg
exact_pg-IsPostgres = record {
  column_places = λ t u e. let (p, s) = column_fits t u e in rw (← s) p;
  column_exact = λ t u e p. rw (← (column_fits t u e).1);
  column_nonneg = λ k t u e p h. rw (← (column_fits t u e).1) (at_scale_nonneg (dec t) k 8 h);
  sum_exact = λ k a b p q. (omega (arith, places-add a b), amount-add k a b p q);
  difference_exact = λ k a b p q. (omega (arith, places-sub a b), amount-sub k a b p q);
}
