-- ===== src/Big.antt =====
-- `class Big` of Server/src/utils/big.ts: signed decimals as a `bigint`, a number of decimal places
-- and a sign flag. `value` is never negative; the sign stands in the flag alone.
pub mod Parse
pub mod Scaled
pub mod Print
pub mod Arith
pub mod Order
mod Tests
use perpetual_futures_exchan.Prelude.{
  ℕ, ◌+◌, ◌-◌, ◌*◌, ◌/◌, ◌^◌, max, Bool, true, false, not, ◌&&◌, ◌||◌, Option, none, some, [], ◌∷◌,
  ◌++◌, ◌==◌, bool_eq, if◌then◌else◌, length, take, drop, replicate,
}
use perpetual_futures_exchan.Prelude.Int.{ℤ, ◌+ℤ◌, ◌-ℤ◌, ltb_ℤ, signed, abs, is_negative}
use perpetual_futures_exchan.Text.{
  Text, is_zero_char, trim, trim_start, drop_end, number_from, print_from, keep_digits, before_dot,
  after_dot, has_exponent, drop_minus, is_lone_zero, join_parts, or_zero, pad_start, number, print,
}

pub record Big : Type 0 where
  pub value : ℕ
  pub decimals : ℕ
  pub negative : Bool

-- `Number(s).toString()`: the double nearest to a text with an exponent, printed. It is the
-- engine's floating point, so it is an argument of the model.
pub record Js : Type 0 where
  pub number_text : Text → Text

unfoldable pub normalize : Big → Big
normalize b = if b.value == 0 then record b { negative = false } else b

-- The constructor's sign test: the sign, and the text behind it.
unfoldable pub split_sign : Text → Bool × Text
split_sign [] = (false, [])
split_sign (c ∷ cs) =
    if c == b'-' then (true, cs) else if c == b'+' then (false, cs) else (false, c ∷ cs)

module _ ⦃js : Js⦄ where
  -- From the text without its sign: the fallback for an exponent, the split at the dot, the digits.
  unfoldable pub of_unsigned : Bool → Text → Big
  of_unsigned sign s =
      let plain = if has_exponent s then js.number_text s else s in
      let int_part = or_zero (keep_digits (before_dot plain)) in
      let dec_part = keep_digits (after_dot plain) in
      normalize (record {
        value = number (int_part ++ dec_part);
        decimals = length dec_part;
        negative = sign;
      })

  -- `new Big(input)` on a string.
  unfoldable pub of_text : Text → Big
  of_text input = let (sign, s) = split_sign (or_zero (trim input)) in of_unsigned sign s

  -- `out` of `fromScaled`, before its sign is set.
  unfoldable pub unsigned_from_scaled : ℕ → ℕ → Big
  unsigned_from_scaled magnitude scale =
      let str = pad_start (scale + 1) (print magnitude) in
      let int_part = or_zero (take (length str - scale) str) in
      let dec_part = drop_end is_zero_char (drop (length str - scale) str) in
      of_text (join_parts int_part dec_part)

  unfoldable pub from_scaled : ℤ → ℕ → Big
  from_scaled value scale = record (unsigned_from_scaled (abs value) scale) {
    negative = is_negative value;
  }

unfoldable pub to_text : Big → Text
to_text b =
    let sign : Text = if b.negative then b'-' ∷ [] else [] in
    if b.decimals == 0
    then sign ++ print b.value
    else (let abs_str = pad_start (b.decimals + 1) (print b.value) in
        let int_part = take (length abs_str - b.decimals) abs_str in
        let dec_part = drop (length abs_str - b.decimals) abs_str in
        sign ++ join_parts int_part dec_part)

-- `sameScale`: both values over the larger number of places.
abbrev pub common_scale : Big → Big → ℕ
common_scale x y = max x.decimals y.decimals

abbrev pub rescaled : Big → ℕ → ℕ
rescaled x scale = x.value * 10 ^ (scale - x.decimals)

-- `x.negative ? -a : a` after `sameScale`.
abbrev pub at_scale : Big → ℕ → ℤ
at_scale x scale = signed x.negative (rescaled x scale)

module _ ⦃js : Js⦄ where
  unfoldable pub plus : Big → Big → Big
  plus x y =
      let scale = common_scale x y in from_scaled (at_scale x scale +ℤ at_scale y scale) scale

  unfoldable pub minus : Big → Big → Big
  minus x y =
      let scale = common_scale x y in from_scaled (at_scale x scale -ℤ at_scale y scale) scale

  unfoldable pub times : Big → Big → Big
  times x y =
      let out = from_scaled (ℤ.pos (x.value * y.value)) (x.decimals + y.decimals) in
      if bool_eq x.negative y.negative then out else record out { negative = true }

  -- `div(other, scale)`; `none` is the exception `Division by zero`.
  unfoldable pub div_to : ℕ → Big → Big → Option Big
  div_to scale x y =
      if y.value == 0
      then none
      else (let numerator = x.value * 10 ^ (scale + y.decimals) in
          let out = from_scaled (ℤ.pos (numerator / y.value)) (x.decimals + scale) in
          some (if bool_eq x.negative y.negative then out else record out { negative = true }))

  -- The default scale is 18.
  unfoldable pub div : Big → Big → Option Big
  unfolding div_to
  div = div_to 18

unfoldable pub eq : Big → Big → Bool
eq x y =
    let scale = common_scale x y in
    rescaled x scale == rescaled y scale && bool_eq x.negative y.negative

unfoldable pub gt : Big → Big → Bool
gt x y = let scale = common_scale x y in ltb_ℤ (at_scale y scale) (at_scale x scale)

unfoldable pub gte : Big → Big → Bool
unfolding eq gt
gte x y = eq x y || gt x y

unfoldable pub lt : Big → Big → Bool
unfolding gte
lt x y = not (gte x y)

unfoldable pub lte : Big → Big → Bool
unfolding gt
lte x y = not (gt x y)

-- `toFixed`: the places of `toString` cut or filled up; a negative sign is put back unless both parts
-- are exactly `0`.
unfoldable pub to_fixed : Big → ℕ → Text
unfolding to_text drop_minus before_dot after_dot is_lone_zero
to_fixed b places =
    let s = drop_minus (to_text b) in
    let int_part = before_dot s in
    let padded = take places (after_dot s ++ replicate places b'0') in
    let base = int_part ++ b'.' ∷ padded in
    if b.negative && not (is_lone_zero int_part && is_lone_zero padded) then b'-' ∷ base else base

-- To unfold `Code` is to unfold all that a run of `Big` calls.
unfoldable pub Code : Type 0
unfolding of_text of_unsigned normalize split_sign unsigned_from_scaled from_scaled to_text plus
    minus times div_to div eq gt gte lt lte to_fixed trim trim_start drop_end keep_digits before_dot
    after_dot has_exponent drop_minus is_lone_zero pad_start number number_from print print_from
    ◌+ℤ◌ ◌-ℤ◌ signed
Code = Unit
