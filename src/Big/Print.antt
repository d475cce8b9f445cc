-- ===== src/Big/Print.antt =====
-- `toString` and the constructor: a printed number is read back unchanged.
use perpetual_futures_exchan.Prelude.{
  ℕ, ◌≡◌, sym, ap, ◌∙◌, Bool, true, false, not, ◌&&◌, refl, [], ◌∷◌, ◌++◌, ◌==◌, if◌then◌else◌,
  Bool-cases, ==_iff, inl, inr,
}
use perpetual_futures_exchan.Text.{Text, is_lone_zero, before_dot, drop_minus, join_parts, print}
use perpetual_futures_exchan.Text.Digits.{print-IsDigits, number-print, print_nonempty}
use perpetual_futures_exchan.Big.{Big, Js, normalize, of_text, to_text, to_fixed}
use perpetual_futures_exchan.Big.Parse.{of_text-join_parts, of_text-minus_join_parts}
use perpetual_futures_exchan.Big.Scaled.{
  int_of, dec_of, int_of-IsDigits, dec_of-IsDigits, length-dec_of, int_of_nonempty, number-int_of,
}
use mathlib.Core.List.{append-nil}

module _ ⦃js : Js⦄ where
  -- The text of a magnitude, behind the sign that `toString` puts there.
  of_text-signed :
      (s : Bool) (xs ys : Text) (v d : ℕ)
      → of_text (join_parts xs ys)
        ≡ normalize (record { value = v; decimals = d; negative = false })
      → of_text (b'-' ∷ join_parts xs ys)
        ≡ normalize (record { value = v; decimals = d; negative = true })
      → of_text ((if s then b'-' ∷ [] else []) ++ join_parts xs ys)
        ≡ normalize (record { value = v; decimals = d; negative = s })
  of_text-signed true xs ys v d p q = q
  of_text-signed false xs ys v d p q = p

  of_text-whole :
      (s : Bool) (v : ℕ)
      → of_text ((if s then b'-' ∷ [] else []) ++ print v)
        ≡ normalize (record { value = v; decimals = 0; negative = s })
  of_text-whole s v =
      of_text-signed s (print v) [] v 0
        (of_text-join_parts (print v) [] (print-IsDigits v) tt (print_nonempty v)
          ∙ rw (append-nil, number-print v))
        (of_text-minus_join_parts (print v) [] (print-IsDigits v) tt (print_nonempty v)
          ∙ rw (append-nil, number-print v))

  of_text-placed :
      (s : Bool) (v d : ℕ)
      → of_text ((if s then b'-' ∷ [] else []) ++ join_parts (int_of v d) (dec_of v d))
        ≡ normalize (record { value = v; decimals = d; negative = s })
  of_text-placed s v d =
      of_text-signed s (int_of v d) (dec_of v d) v d
        (of_text-join_parts (int_of v d) (dec_of v d) (int_of-IsDigits v d) (dec_of-IsDigits v d)
            (int_of_nonempty v d)
          ∙ rw (number-int_of v d, length-dec_of v d))
        (of_text-minus_join_parts (int_of v d) (dec_of v d) (int_of-IsDigits v d)
            (dec_of-IsDigits v d) (int_of_nonempty v d)
          ∙ rw (number-int_of v d, length-dec_of v d))

  -- The constructor reads back every number that `toString` prints, with its scale; only the sign of
  -- a zero is dropped.
  pub of_text-to_text : (b : Big) → of_text (to_text b) ≡ normalize b
  unfolding to_text
  of_text-to_text b = elim (Bool-cases (b.decimals == 0)) [
    | inl whole ↦ rw whole (
        of_text-whole b.negative b.value
        ∙ ap
            (λ (d : ℕ). normalize (record { value = b.value; decimals = d; negative = b.negative }))
            (sym ((==_iff b.decimals 0).0 whole)))
    | inr placed ↦ rw placed (of_text-placed b.negative b.value b.decimals)
  ]

with_dot :
    (n z : Bool) (xs : Text)
    → (if n && not (z && false) then b'-' ∷ xs ++ b'.' ∷ [] else xs ++ b'.' ∷ [])
      ≡ (if n then b'-' ∷ xs else xs) ++ b'.' ∷ []
with_dot true true xs = refl
with_dot true false xs = refl
with_dot false true xs = refl
with_dot false false xs = refl

-- `toFixed(0)` ends in a dot, whatever the number.
pub to_fixed-zero_places : (b : Big) → (t : Text) × (to_fixed b 0 ≡ t ++ b'.' ∷ [])
unfolding to_fixed
to_fixed-zero_places b =
    let int_part = before_dot (drop_minus (to_text b)) in
    (
      (if b.negative then b'-' ∷ int_part else int_part),
      with_dot b.negative (is_lone_zero int_part) int_part,
    )
