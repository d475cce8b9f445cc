-- ===== src/Text/Shape.antt =====
-- The texts that the decimal code prints: digits, or digits, a dot and digits. Trimming, splitting
-- and the replacement of other characters give their two parts back.
use perpetual_futures_exchan.Prelude.{
  ℕ, ◌≤◌, ◌≡◌, refl, false, [], ◌∷◌, ◌++◌, arith, if◌then◌else◌, All,
}
use perpetual_futures_exchan.Text.{
  Text, is_space, trim_start, drop_end, trim, keep_digits, before_dot, after_dot, has_exponent,
}
use perpetual_futures_exchan.Text.Digits.{IsDigits}

-- Digits, dots and the two signs.
abbrev pub IsPlain : ℕ → Type 0
IsPlain c = (43 ≤ c) × (c ≤ b'9')

abbrev pub IsPlainText : Text → Type 0
IsPlainText = All IsPlain

pub IsDigits-plain : (xs : Text) → IsDigits xs → IsPlainText xs
IsDigits-plain [] h = tt
IsDigits-plain (x ∷ xs) h = (omega arith, IsDigits-plain xs h.1)

pub trim_start-plain : (xs : Text) → IsPlainText xs → trim_start xs ≡ xs
unfolding trim_start
trim_start-plain [] h = refl
trim_start-plain (x ∷ xs) h = ground arith

drop_end-plain : (xs : Text) → IsPlainText xs → drop_end is_space xs ≡ xs
unfolding drop_end
drop_end-plain [] h = refl
drop_end-plain (x ∷ xs) h = rw (drop_end-plain xs h.1) (last xs)
  where
    last :
        (ys : Text)
        → elim ys [ [] ↦ if is_space x then [] else x ∷ [] | d ∷ ds ↦ x ∷ d ∷ ds ] ≡ x ∷ ys
    last [] = ground arith
    last (y ∷ ys) = refl

pub trim-plain : (xs : Text) → IsPlainText xs → trim xs ≡ xs
unfolding trim
trim-plain xs h = rw (trim_start-plain xs h, drop_end-plain xs h)

pub has_exponent-plain : (xs : Text) → IsPlainText xs → has_exponent xs ≡ false
unfolding has_exponent
has_exponent-plain [] h = refl
has_exponent-plain (x ∷ xs) h = ground (arith, has_exponent-plain xs h.1)

pub keep_digits-digits : (xs : Text) → IsDigits xs → keep_digits xs ≡ xs
unfolding keep_digits
keep_digits-digits [] h = refl
keep_digits-digits (x ∷ xs) h = ground (arith, keep_digits-digits xs h.1)

pub before_dot-digits : (xs : Text) → IsDigits xs → before_dot xs ≡ xs
unfolding before_dot
before_dot-digits [] h = refl
before_dot-digits (x ∷ xs) h = ground (arith, before_dot-digits xs h.1)

pub after_dot-digits : (xs : Text) → IsDigits xs → after_dot xs ≡ []
unfolding after_dot
after_dot-digits [] h = refl
after_dot-digits (x ∷ xs) h = ground (arith, after_dot-digits xs h.1)

pub before_dot-append : (xs ys : Text) → IsDigits xs → before_dot (xs ++ b'.' ∷ ys) ≡ xs
unfolding before_dot
before_dot-append [] ys h = refl
before_dot-append (x ∷ xs) ys h = ground (arith, before_dot-append xs ys h.1)

pub after_dot-append : (xs ys : Text) → IsDigits xs → IsDigits ys → after_dot (xs ++ b'.' ∷ ys) ≡ ys
unfolding after_dot
after_dot-append [] ys h k = before_dot-digits ys k
after_dot-append (x ∷ xs) ys h k = ground (arith, after_dot-append xs ys h.1 k)
