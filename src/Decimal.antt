-- ===== src/Decimal.antt =====
-- Server/src/utils/decimal.ts: amounts travel through the server as texts, and every operation reads
-- its arguments as `Big`, computes, and prints the result.
pub mod Laws
use perpetual_futures_exchan.Prelude.{Bool, Option, some, [], ◌∷◌, ℕ}
use perpetual_futures_exchan.Prelude.Int.{ℤ}
use perpetual_futures_exchan.Text.{Text}
use perpetual_futures_exchan.Big
use perpetual_futures_exchan.Big.{Big, Js, at_scale}
use mathlib.Core.Option

abbrev pub DecStr : Type 0
DecStr = Text

-- The text `"0"`.
abbrev pub zero_text : DecStr
zero_text = b'0' ∷ []

module _ ⦃js : Js⦄ where
  -- `D(v)`
  abbrev pub dec : DecStr → Big
  dec v = Big.of_text v

  unfoldable pub add : DecStr → DecStr → DecStr
  add a b = Big.to_text (Big.plus (dec a) (dec b))

  unfoldable pub sub : DecStr → DecStr → DecStr
  sub a b = Big.to_text (Big.minus (dec a) (dec b))

  unfoldable pub mul : DecStr → DecStr → DecStr
  mul a b = Big.to_text (Big.times (dec a) (dec b))

  -- `none` is the exception `Division by zero`.
  unfoldable pub div : DecStr → DecStr → Option DecStr
  div a b = Option.map Big.to_text (Big.div (dec a) (dec b))

  unfoldable pub gte : DecStr → DecStr → Bool
  gte a b = Big.gte (dec a) (dec b)

  unfoldable pub lte : DecStr → DecStr → Bool
  lte a b = Big.lte (dec a) (dec b)

  unfoldable pub gt : DecStr → DecStr → Bool
  gt a b = Big.gt (dec a) (dec b)

  unfoldable pub lt : DecStr → DecStr → Bool
  lt a b = Big.lt (dec a) (dec b)

  unfoldable pub eq : DecStr → DecStr → Bool
  eq a b = Big.eq (dec a) (dec b)

  unfoldable pub is_positive : DecStr → Bool
  unfolding gt
  is_positive a = gt a zero_text

  unfoldable pub to_fixed : DecStr → ℕ → DecStr
  to_fixed a decimals = Big.to_fixed (dec a) decimals

  -- The places of an amount, and its value in units of `10 ^ (- k)`.
  abbrev pub places : DecStr → ℕ
  places t = (dec t).decimals

  abbrev pub amount : ℕ → DecStr → ℤ
  amount k t = at_scale (dec t) k
