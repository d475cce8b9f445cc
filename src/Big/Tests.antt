-- ===== src/Big/Tests.antt =====
-- Runs of `Big`, and its theorems at concrete numbers.
use perpetual_futures_exchan.Prelude.{
  ℕ, ◌+◌, ◌*◌, ◌^◌, ◌≤◌, ◌<◌, ◌≡◌, ◌↔◌, none, ◌++◌, refl, true, false, some, [], ◌∷◌, arith,
}
use perpetual_futures_exchan.Prelude.Int.{◌+ℤ◌, ◌-ℤ◌, ◌*ℤ◌, ◌≤ℤ◌, ◌<ℤ◌}
use perpetual_futures_exchan.Big.{
  Big, Code, of_text, to_text, plus, minus, times, div, gt, gte, eq, lt, lte, rescaled, to_fixed,
  at_scale, normalize,
}
use perpetual_futures_exchan.Big.Print.{of_text-to_text, to_fixed-zero_places}
use perpetual_futures_exchan.Big.Arith.{IsNormal, plus_exact, minus_exact, times_exact, div_cut}
use perpetual_futures_exchan.Big.Order.{comparisons_exact, zero_big, times_negative_zero}
use perpetual_futures_exchan.Text.{Text}
use perpetual_futures_exchan.Decimal.{DecStr, add, sub, amount}
use perpetual_futures_exchan.Decimal.Laws.{sub-add}
use perpetual_futures_exchan.Store.Exact.{plain_js}

abbrev big : ℕ → ℕ → Big
big v d = record { value = v; decimals = d; negative = false }

abbrev below : ℕ → ℕ → Big
below v d = record { value = v; decimals = d; negative = true }

abbrev one_half : DecStr
one_half = b'0' ∷ b'.' ∷ b'5' ∷ []

abbrev eighth : DecStr
eighth = b'0' ∷ b'.' ∷ b'1' ∷ b'2' ∷ b'5' ∷ []

-- "12.50"
reads_a_price : of_text (b'1' ∷ b'2' ∷ b'.' ∷ b'5' ∷ b'0' ∷ []) ≡ big 1250 2
unfolding Code
reads_a_price = refl

-- 12.50 + 0.5, 0.5 - 12.50, 1 / 8 and their texts.
adds : plus (big 1250 2) (big 5 1) ≡ big 13 0
unfolding Code
adds = refl

subtracts : to_text (minus (big 5 1) (big 1250 2)) ≡ b'-' ∷ b'1' ∷ b'2' ∷ []
unfolding Code
subtracts = refl

divides : div (big 1 0) (big 8 0) ≡ some (big 125 3)
unfolding Code
divides = refl

-- `toFixed(0)` leaves the dot.
fixes_to_zero_places : to_fixed (big 1250 2) 0 ≡ b'1' ∷ b'2' ∷ b'.' ∷ []
unfolding Code
fixes_to_zero_places = refl

of_text-to_text_example : of_text (to_text (below 1250 2)) ≡ normalize (below 1250 2)
of_text-to_text_example = of_text-to_text (below 1250 2)

plus_exact_example :
    let x = big 1250 2 in
    let y = below 5 1 in
    (at_scale (plus x y) 3 ≡ at_scale x 3 +ℤ at_scale y 3)
    × ((plus x y).decimals ≤ 2)
    × IsNormal (plus x y)
plus_exact_example = plus_exact (big 1250 2) (below 5 1) 3 (omega arith)

minus_exact_example :
    let x = big 1250 2 in
    let y = below 5 1 in
    (at_scale (minus x y) 3 ≡ at_scale x 3 -ℤ at_scale y 3)
    × ((minus x y).decimals ≤ 2)
    × IsNormal (minus x y)
minus_exact_example = minus_exact (big 1250 2) (below 5 1) 3 (omega arith)

times_exact_example :
    let x = big 1250 2 in
    let y = below 5 1 in
    (at_scale (times x y) (2 + 1) ≡ at_scale x 2 *ℤ at_scale y 1) × ((times x y).decimals ≤ 3)
times_exact_example = times_exact (big 1250 2) (below 5 1) 2 1 (omega arith) (omega arith)

div_cut_example :
    let x = big 2 0 in
    let y = big 3 0 in
    (y.value ≡ 0 → div x y ≡ none)
    × (0 < y.value
        → (q : Big) × (div x y ≡ some q)
          × (q.decimals ≤ 18)
          × (rescaled q 18 * 3 ≤ 2 * 10 ^ 18)
          × (2 * 10 ^ 18 < (rescaled q 18 + 1) * 3)
          × (q.negative ≡ false))
div_cut_example = div_cut (big 2 0) (big 3 0)

comparisons_exact_example :
    let x = big 1250 2 in
    let y = below 5 1 in
    ((eq x y ≡ true) ↔ (at_scale x 2 ≡ at_scale y 2))
    × ((gt x y ≡ true) ↔ (at_scale y 2 <ℤ at_scale x 2))
    × ((gte x y ≡ true) ↔ (at_scale y 2 ≤ℤ at_scale x 2))
    × ((lt x y ≡ true) ↔ (at_scale x 2 <ℤ at_scale y 2))
    × ((lte x y ≡ true) ↔ (at_scale x 2 ≤ℤ at_scale y 2))
comparisons_exact_example =
    comparisons_exact (big 1250 2) (below 5 1) 2 (ground arith) (ground arith) (omega arith)

-- 0 · (-1), as `times` multiplies a profit of nothing by the sign of a short position.
times_negative_zero_example :
    let z = times (big 0 0) (below 1 0) in
    (z.value ≡ 0) × (z.negative ≡ true) × (eq z zero_big ≡ false) × (lt z zero_big ≡ true)
times_negative_zero_example = times_negative_zero (big 0 0) (below 1 0) (ground arith) refl

to_fixed-zero_places_example : (t : Text) × (to_fixed (big 1250 2) 0 ≡ t ++ b'.' ∷ [])
to_fixed-zero_places_example = to_fixed-zero_places (big 1250 2)

sub-add_example : amount 8 (sub (add one_half eighth) eighth) ≡ amount 8 one_half
unfolding Code
sub-add_example = sub-add 8 one_half eighth (omega arith) (omega arith)
