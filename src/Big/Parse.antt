-- ===== src/Big/Parse.antt =====
-- The constructor of `Big` on texts of digits, with or without a dot and a minus sign.
use mathlib.Core.List.{append-nil}
use perpetual_futures_exchan.Prelude.{
  ℕ, ◌≤◌, ◌<◌, ◌≡◌, refl, ◌∙◌, Bool, true, false, [], ◌∷◌, ◌++◌, arith, length, All-append,
}
use perpetual_futures_exchan.Text.{Text, join_parts, or_zero, keep_digits, number}
use perpetual_futures_exchan.Text.Digits.{IsDigits}
use perpetual_futures_exchan.Text.Shape.{
  IsPlain, IsPlainText, IsDigits-plain, trim-plain, has_exponent-plain, keep_digits-digits,
  before_dot-digits, after_dot-digits, before_dot-append, after_dot-append,
}
use perpetual_futures_exchan.Big.{Js, normalize, split_sign, of_unsigned, of_text}

pub or_zero-nonempty : (xs : Text) → 0 < length xs → or_zero xs ≡ xs
or_zero-nonempty [] h = absurd (omega arith)
or_zero-nonempty (x ∷ xs) h = refl

module _ ⦃js : Js⦄ where
  pub of_unsigned-digits :
      (s : Bool) (xs : Text)
      → IsDigits xs
      → 0 < length xs
      → of_unsigned s xs ≡ normalize (record { value = number xs; decimals = 0; negative = s })
  unfolding of_unsigned
  of_unsigned-digits s xs h ne =
      rw
        (
          has_exponent-plain xs (IsDigits-plain xs h),
          before_dot-digits xs h,
          after_dot-digits xs h,
          keep_digits-digits xs h,
          or_zero-nonempty xs ne,
        )
        (unfold keep_digits in rw append-nil)

  pub of_unsigned-dot :
      (s : Bool) (xs ys : Text)
      → IsDigits xs
      → IsDigits ys
      → 0 < length xs
      → of_unsigned s (xs ++ b'.' ∷ ys)
        ≡ normalize (record { value = number (xs ++ ys); decimals = length ys; negative = s })
  unfolding of_unsigned
  of_unsigned-dot s xs ys h k ne = rw (
    has_exponent-plain (xs ++ b'.' ∷ ys) (
        All-append IsPlain xs (b'.' ∷ ys) (IsDigits-plain xs h) (omega arith, IsDigits-plain ys k)),
    before_dot-append xs ys h,
    after_dot-append xs ys h k,
    keep_digits-digits xs h,
    keep_digits-digits ys k,
    or_zero-nonempty xs ne,
  )

  -- A text of plain characters that begins with a digit has no sign.
  pub of_text-unsigned :
      (c : ℕ) (cs : Text)
      → b'0' ≤ c
      → IsPlainText (c ∷ cs)
      → of_text (c ∷ cs) ≡ of_unsigned false (c ∷ cs)
  unfolding of_text split_sign
  of_text-unsigned c cs l h = rw (trim-plain (c ∷ cs) h) (ground arith)

  pub of_text-minus : (cs : Text) → IsPlainText cs → of_text (b'-' ∷ cs) ≡ of_unsigned true cs
  unfolding of_text split_sign
  of_text-minus cs h = rw (trim-plain (b'-' ∷ cs) (omega arith, h))

join_parts-plain : (xs ys : Text) → IsDigits xs → IsDigits ys → IsPlainText (join_parts xs ys)
join_parts-plain xs [] h k = IsDigits-plain xs h
join_parts-plain xs (y ∷ ys) h k =
    All-append IsPlain xs (b'.' ∷ y ∷ ys) (IsDigits-plain xs h)
      (omega arith, IsDigits-plain (y ∷ ys) k)

module _ ⦃js : Js⦄ where
  of_unsigned-join_parts :
      (s : Bool) (xs ys : Text)
      → IsDigits xs
      → IsDigits ys
      → 0 < length xs
      → of_unsigned s (join_parts xs ys)
        ≡ normalize (record { value = number (xs ++ ys); decimals = length ys; negative = s })
  of_unsigned-join_parts s xs [] h k ne = rw append-nil (of_unsigned-digits s xs h ne)
  of_unsigned-join_parts s xs (y ∷ ys) h k ne = of_unsigned-dot s xs (y ∷ ys) h k ne

  -- The constructor on digits, with or without a point behind them.
  pub of_text-join_parts :
      (xs ys : Text)
      → IsDigits xs
      → IsDigits ys
      → 0 < length xs
      → of_text (join_parts xs ys)
        ≡ normalize (record { value = number (xs ++ ys); decimals = length ys; negative = false })
  of_text-join_parts [] ys h k ne = absurd (omega arith)
  of_text-join_parts (x ∷ xs) [] h k ne =
      of_text-unsigned x xs h.0.0 (join_parts-plain (x ∷ xs) [] h k)
      ∙ of_unsigned-join_parts false (x ∷ xs) [] h k ne
  of_text-join_parts (x ∷ xs) (y ∷ ys) h k ne =
      of_text-unsigned x (xs ++ b'.' ∷ y ∷ ys) h.0.0 (join_parts-plain (x ∷ xs) (y ∷ ys) h k)
      ∙ of_unsigned-join_parts false (x ∷ xs) (y ∷ ys) h k ne

  -- The same behind a minus sign.
  pub of_text-minus_join_parts :
      (xs ys : Text)
      → IsDigits xs
      → IsDigits ys
      → 0 < length xs
      → of_text (b'-' ∷ join_parts xs ys)
        ≡ normalize (record { value = number (xs ++ ys); decimals = length ys; negative = true })
  of_text-minus_join_parts xs ys h k ne =
      of_text-minus (join_parts xs ys) (join_parts-plain xs ys h k)
      ∙ of_unsigned-join_parts true xs ys h k ne
