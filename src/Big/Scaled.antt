-- ===== src/Big/Scaled.antt =====
-- `fromScaled` goes through a text: it pads, cuts, drops zeros and reads the text back. The result is
-- the exact quotient of its argument by a power of ten.
use perpetual_futures_exchan.Prelude.{
  ℕ, ◌+◌, ◌-◌, ◌*◌, ◌^◌, ◌≤◌, ◌<◌, ◌≡◌, refl, sym, ap, ◌∙◌, false, ◌++◌, arith, length, take, drop,
  take-append-drop, length-append, length-drop, All-take, All-drop,
}
use perpetual_futures_exchan.Prelude.Int.{
  ℤ, abs, is_negative, signed, times_ℕ, times_ℕ-signed, signed-is_negative,
}
use perpetual_futures_exchan.Prelude.Pow.{pow10-add}
use perpetual_futures_exchan.Text.{Text, is_zero_char, pad_start, drop_end, number, print}
use perpetual_futures_exchan.Text.Digits.{
  IsDigit, IsDigits, print-IsDigits, number-print, number-pad_start, pad_start-IsDigits,
  le-length-pad_start, number-append, number_from-drop_end, length-drop_end, drop_end-IsDigits,
}
use perpetual_futures_exchan.Big.{
  Big, Js, normalize, unsigned_from_scaled, from_scaled, rescaled, at_scale,
}
use perpetual_futures_exchan.Big.Parse.{or_zero-nonempty, of_text-join_parts}

-- `str` and its two parts in `fromScaled` and in `toString`.
abbrev pub padded : ℕ → ℕ → Text
padded m s = pad_start (s + 1) (print m)

abbrev pub int_of : ℕ → ℕ → Text
int_of m s = take (length (padded m s) - s) (padded m s)

abbrev pub dec_of : ℕ → ℕ → Text
dec_of m s = drop (length (padded m s) - s) (padded m s)

pub padded-IsDigits : (m s : ℕ) → IsDigits (padded m s)
padded-IsDigits m s = pad_start-IsDigits (s + 1) (print m) (print-IsDigits m)

pub int_of-IsDigits : (m s : ℕ) → IsDigits (int_of m s)
int_of-IsDigits m s = All-take IsDigit (length (padded m s) - s) (padded m s) (padded-IsDigits m s)

pub dec_of-IsDigits : (m s : ℕ) → IsDigits (dec_of m s)
dec_of-IsDigits m s = All-drop IsDigit (length (padded m s) - s) (padded m s) (padded-IsDigits m s)

pub length-dec_of : (m s : ℕ) → length (dec_of m s) ≡ s
length-dec_of m s = omega (
  arith,
  length-drop (length (padded m s) - s) (padded m s),
  le-length-pad_start (s + 1) (print m),
)

pub int_of_nonempty : (m s : ℕ) → 0 < length (int_of m s)
int_of_nonempty m s = omega (
  arith,
  length-dec_of m s,
  length-append (int_of m s) (dec_of m s),
  ap length (take-append-drop (length (padded m s) - s) (padded m s)),
  le-length-pad_start (s + 1) (print m),
)

-- The two parts together are the number.
pub number-int_of : (m s : ℕ) → number (int_of m s ++ dec_of m s) ≡ m
number-int_of m s =
    rw (take-append-drop (length (padded m s) - s) (padded m s))
      (number-pad_start (s + 1) (print m) ∙ number-print m)

-- A magnitude that stands for `m / 10 ^ s`.
abbrev pub Denotes : Big → ℕ → ℕ → Type 0
Denotes b m s = (b.decimals ≤ s) × (b.value * 10 ^ (s - b.decimals) ≡ m)

pub normalize-Denotes : (b : Big) (m s : ℕ) → Denotes b m s → Denotes (normalize b) m s
unfolding normalize
normalize-Denotes b m s h = ground arith

module _ ⦃js : Js⦄ where
  unsigned_from_scaled_lem :
      (m s : ℕ)
      → unsigned_from_scaled m s
        ≡ normalize (record {
          value = number (int_of m s ++ drop_end is_zero_char (dec_of m s));
          decimals = length (drop_end is_zero_char (dec_of m s));
          negative = false;
        })
  unfolding unsigned_from_scaled
  unsigned_from_scaled_lem m s = rw (or_zero-nonempty (int_of m s) (int_of_nonempty m s)) (
      of_text-join_parts (int_of m s) (drop_end is_zero_char (dec_of m s)) (int_of-IsDigits m s)
        (drop_end-IsDigits is_zero_char (dec_of m s) (dec_of-IsDigits m s)) (int_of_nonempty m s))

  -- `fromScaled` loses nothing: what it returns is exactly `m / 10 ^ s`.
  pub unsigned_from_scaled-Denotes : (m s : ℕ) → Denotes (unsigned_from_scaled m s) m s
  unsigned_from_scaled-Denotes m s =
      let dec = dec_of m s in
      let kept = drop_end is_zero_char dec in
      let len : length dec ≡ s = length-dec_of m s in
      let shorter : length kept ≤ length dec = length-drop_end is_zero_char dec in
      let exact : number (int_of m s ++ kept) * 10 ^ (s - length kept) ≡ m =
        ap (λ (t : ℕ). number (int_of m s ++ kept) * 10 ^ (t - length kept)) (sym len)
        ∙ ap (λ (t : ℕ). t * 10 ^ (length dec - length kept)) (number-append (int_of m s) kept)
        ∙ sym (number_from-drop_end (number (int_of m s)) dec)
        ∙ sym (number-append (int_of m s) dec)
        ∙ number-int_of m s in
      rw (unsigned_from_scaled_lem m s) (normalize-Denotes _ m s (omega arith, exact))

-- Rescaling to more places multiplies.
pub rescale : (v d s k : ℕ) → d ≤ s → s ≤ k → v * 10 ^ (k - d) ≡ (v * 10 ^ (s - d)) * 10 ^ (k - s)
rescale v d s k h l =
    let e : k - d ≡ (s - d) + (k - s) = omega arith in
    rw (e, pow10-add (s - d) (k - s)) (omega arith)

pub at_scale-rescale :
    (x : Big) (s k : ℕ)
    → x.decimals ≤ s
    → s ≤ k
    → at_scale x k ≡ times_ℕ (at_scale x s) (10 ^ (k - s))
at_scale-rescale x s k h l =
    ap (signed x.negative) (rescale x.value x.decimals s k h l)
    ∙ sym (times_ℕ-signed x.negative (rescaled x s) (10 ^ (k - s)))

pub Denotes-rescaled :
    (x : Big) (m s k : ℕ) → Denotes x m s → s ≤ k → rescaled x k ≡ m * 10 ^ (k - s)
Denotes-rescaled x m s k h l =
    rescale x.value x.decimals s k h.0 l ∙ ap (λ (t : ℕ). t * 10 ^ (k - s)) h.1

module _ ⦃js : Js⦄ where
  pub from_scaled-Denotes : (z : ℤ) (s : ℕ) → Denotes (from_scaled z s) (abs z) s
  unfolding from_scaled
  from_scaled-Denotes z s = unsigned_from_scaled-Denotes (abs z) s

  pub from_scaled_sign : (z : ℤ) (s : ℕ) → (from_scaled z s).negative ≡ is_negative z
  unfolding from_scaled
  from_scaled_sign z s = refl

  -- The value of `fromScaled(z, s)` is `z / 10 ^ s`, with its sign.
  pub at_scale-from_scaled :
      (z : ℤ) (s k : ℕ) → s ≤ k → at_scale (from_scaled z s) k ≡ times_ℕ z (10 ^ (k - s))
  at_scale-from_scaled z s k l =
      rw
        (
          from_scaled_sign z s,
          Denotes-rescaled (from_scaled z s) (abs z) s k (from_scaled-Denotes z s) l,
        )
        (sym (times_ℕ-signed (is_negative z) (abs z) (10 ^ (k - s)))
          ∙ ap (λ (t : ℤ). times_ℕ t (10 ^ (k - s))) (signed-is_negative z))
