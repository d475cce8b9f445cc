-- ===== src/Text/Digits.antt =====
-- What `BigInt` reads from a text of digits, and that it reads back what it prints.
use perpetual_futures_exchan.Prelude.{
  ℕ, zero, suc, ◌+◌, ◌-◌, ◌*◌, ◌/◌, ◌%◌, ◌^◌, ◌≤◌, ◌<◌, ◌≡◌, refl, sym, ap, ◌∙◌, inl, inr, Bool, [],
  ◌∷◌, ◌++◌, arith, ltb, if◌then◌else◌, Bool-cases, length, length-append, length-replicate,
  replicate, All, All-append, All-replicate,
}
use perpetual_futures_exchan.Prelude.Pow.{pow10-suc}
use perpetual_futures_exchan.Text.{
  Text, number_from, number, print_from, print, pad_start, drop_end, is_zero_char,
}

abbrev pub IsDigit : ℕ → Type 0
IsDigit c = (b'0' ≤ c) × (c ≤ b'9')

abbrev pub IsDigits : Text → Type 0
IsDigits = All IsDigit

number_from-append :
    (acc : ℕ) (xs ys : Text) → number_from acc (xs ++ ys) ≡ number_from (number_from acc xs) ys
unfolding number_from
number_from-append acc [] ys = refl
number_from-append acc (x ∷ xs) ys = number_from-append (acc * 10 + (x - b'0')) xs ys

print_from-IsDigits : (f n : ℕ) → IsDigits (print_from f n)
unfolding print_from
print_from-IsDigits zero n = tt
print_from-IsDigits (suc f) n = elim (Bool-cases (ltb n 10)) [
  | inl small ↦ rw (small, print_from) (ground arith)
  | inr big ↦
      rw (big, print_from)
        (All-append IsDigit (print_from f (n / 10)) _ (print_from-IsDigits f (n / 10))
          (omega arith))
]

number-print_from : (f n : ℕ) → n < f → number_from 0 (print_from f n) ≡ n
unfolding print_from
number-print_from zero n h = absurd (omega arith)
number-print_from (suc f) n h = elim (Bool-cases (ltb n 10)) [
  | inl small ↦ rw (small, print_from) (unfold number_from in omega arith)
  | inr big ↦
      rw
        (
          big,
          print_from,
          number_from-append 0 (print_from f (n / 10)) ((b'0' + n % 10) ∷ []),
          number-print_from f (n / 10) (ground arith),
        )
        (unfold number_from in omega arith)
]

pub print-IsDigits : (n : ℕ) → IsDigits (print n)
unfolding print
print-IsDigits n = print_from-IsDigits (suc n) n

pub number-print : (n : ℕ) → number (print n) ≡ n
unfolding print number
number-print n = number-print_from (suc n) n (omega arith)

-- Zeros in front do not count.
number_from-replicate :
    (k : ℕ) (xs : Text) → number_from 0 (replicate k b'0' ++ xs) ≡ number_from 0 xs
unfolding number_from
number_from-replicate zero xs = refl
number_from-replicate (suc k) xs = number_from-replicate k xs

pub number-pad_start : (k : ℕ) (xs : Text) → number (pad_start k xs) ≡ number xs
unfolding pad_start number
number-pad_start k xs = number_from-replicate (k - length xs) xs

pub length-drop_end : (p : ℕ → Bool) (xs : Text) → length (drop_end p xs) ≤ length xs
unfolding drop_end
length-drop_end p [] = omega arith
length-drop_end p (x ∷ xs) = ground (arith, length-drop_end p xs)

abbrev SplitZeros : Text → Text → Type 0
SplitZeros xs kept = (k : ℕ) × (xs ≡ kept ++ replicate k b'0')

cons_split :
    (c : ℕ) (cs kept : Text)
    → SplitZeros cs kept
    → SplitZeros
        (c ∷ cs)
        (elim kept [ [] ↦ if is_zero_char c then [] else c ∷ [] | d ∷ ds ↦ c ∷ d ∷ ds ])
cons_split c cs [] (k, e) = elim (Bool-cases (is_zero_char c)) [
  | inl z ↦ (suc k, rw (z, e) (ground arith))
  | inr nz ↦ (k, rw (nz, e))
]
cons_split c cs (d ∷ ds) (k, e) = (k, rw e)

drop_end_split : (xs : Text) → SplitZeros xs (drop_end is_zero_char xs)
unfolding drop_end
drop_end_split [] = (0, refl)
drop_end_split (c ∷ cs) = cons_split c cs (drop_end is_zero_char cs) (drop_end_split cs)

number_from-zeros : (acc k : ℕ) → number_from acc (replicate k b'0') ≡ acc * 10 ^ k
unfolding number_from
number_from-zeros acc zero = omega arith
number_from-zeros acc (suc k) = omega (
  arith,
  number_from-zeros (acc * 10 + (b'0' - b'0')) k,
  pow10-suc k,
  ap (λ (t : ℕ). acc * t) (pow10-suc k),
)

-- Dropping zeros at the end divides by a power of ten.
pub number_from-drop_end :
    (acc : ℕ) (xs : Text)
    → number_from acc xs
      ≡ number_from acc (drop_end is_zero_char xs)
        * 10 ^ (length xs - length (drop_end is_zero_char xs))
number_from-drop_end acc xs =
    let kept = drop_end is_zero_char xs in
    let (k, e) = drop_end_split xs in
    let l : length xs ≡ length kept + k = omega (
      arith,
      ap length e,
      length-append kept (replicate k b'0'),
      length-replicate {A = ℕ} k b'0',
    ) in
    let d : length xs - length kept ≡ k = omega arith in
    ap (number_from acc) e
    ∙ number_from-append acc kept (replicate k b'0')
    ∙ number_from-zeros (number_from acc kept) k
    ∙ ap (λ (t : ℕ). number_from acc kept * 10 ^ t) (sym d)

pub number-append : (xs ys : Text) → number (xs ++ ys) ≡ number_from (number xs) ys
unfolding number
number-append xs ys = number_from-append 0 xs ys

print_from-nonempty : (f n : ℕ) → 0 < length (print_from (suc f) n)
unfolding print_from
print_from-nonempty f n = elim (Bool-cases (ltb n 10)) [
  | inl small ↦ rw (small, print_from) (omega arith)
  | inr big ↦
      rw (big, print_from)
        (omega (arith, length-append (print_from f (n / 10)) ((b'0' + n % 10) ∷ [])))
]

pub print_nonempty : (n : ℕ) → 0 < length (print n)
unfolding print
print_nonempty n = print_from-nonempty n n

pub pad_start-IsDigits : (k : ℕ) (xs : Text) → IsDigits xs → IsDigits (pad_start k xs)
unfolding pad_start
pad_start-IsDigits k xs h =
    All-append IsDigit (replicate (k - length xs) b'0') xs
      (All-replicate IsDigit (k - length xs) (omega arith)) h

pub le-length-pad_start : (k : ℕ) (xs : Text) → k ≤ length (pad_start k xs)
unfolding pad_start
le-length-pad_start k xs = omega (
  arith,
  length-append (replicate (k - length xs) b'0') xs,
  length-replicate {A = ℕ} (k - length xs) b'0',
)

pub drop_end-IsDigits : (p : ℕ → Bool) (xs : Text) → IsDigits xs → IsDigits (drop_end p xs)
unfolding drop_end
drop_end-IsDigits p [] h = tt
drop_end-IsDigits p (x ∷ xs) h = keep (drop_end p xs) (drop_end-IsDigits p xs h.1)
  where
    keep :
        (ys : Text)
        → IsDigits ys
        → IsDigits (elim ys [ [] ↦ if p x then [] else x ∷ [] | d ∷ ds ↦ x ∷ d ∷ ds ])
    keep [] k = ground arith
    keep (y ∷ ys) k = (h.0, k)
