-- ===== src/Prelude/Int.antt =====
-- Integers over the native numbers: JavaScript's `bigint`. Sums and orders go through the two
-- parts of an integer, which are numbers that `omega` reads.
use Prim.Native.Nat.{ℕ, suc, ◌+◌, ◌-◌, ◌*◌, ◌≤◌, ◌<◌}
use mathlib.Core.Path.{◌≡◌, refl, sym, ap, ◌∙◌}
use mathlib.Core.Logic.{◌↔◌}
use mathlib.Core.Bool.{Bool, true, false, not}
use native.Mathlib.Omega.{arith}
use native.Mathlib.Nat.{mul-lt-mul_of_pos_right, lt_of_mul-lt-mul_right}
use perpetual_futures_exchan.Prelude.Tests.{ltb, leb, bool_eq, if◌then◌else◌}

-- `negsuc n` is -(n + 1).
pub data ℤ : Type 0 where
  pos : ℕ → ℤ
  negsuc : ℕ → ℤ

abbrev pub pos_part : ℤ → ℕ
pos_part (pos n) = n
pos_part (negsuc n) = 0

abbrev pub neg_part : ℤ → ℕ
neg_part (pos n) = 0
neg_part (negsuc n) = suc n

abbrev pub sub_ℕ : ℕ → ℕ → ℤ
sub_ℕ a b = if leb b a then pos (a - b) else negsuc (b - a - 1)

pub sub_ℕ_parts : (a b : ℕ) → pos_part (sub_ℕ a b) + b ≡ neg_part (sub_ℕ a b) + a
sub_ℕ_parts a b = ground arith

infixl 65 ◌+ℤ◌ ◌-ℤ◌
infix 50 ◌≤ℤ◌ ◌<ℤ◌
unfoldable pub ◌+ℤ◌ : ℤ → ℤ → ℤ
a +ℤ b = sub_ℕ (pos_part a + pos_part b) (neg_part a + neg_part b)

unfoldable pub ◌-ℤ◌ : ℤ → ℤ → ℤ
a -ℤ b = sub_ℕ (pos_part a + neg_part b) (neg_part a + pos_part b)

abbrev pub ◌≤ℤ◌ : ℤ → ℤ → Type 0
a ≤ℤ b = pos_part a + neg_part b ≤ pos_part b + neg_part a

abbrev pub ◌<ℤ◌ : ℤ → ℤ → Type 0
a <ℤ b = pos_part a + neg_part b < pos_part b + neg_part a

abbrev pub ltb_ℤ : ℤ → ℤ → Bool
ltb_ℤ a b = ltb (pos_part a + neg_part b) (pos_part b + neg_part a)

pub +ℤ_parts :
    (a b : ℤ)
    → pos_part (a +ℤ b) + neg_part a + neg_part b ≡ neg_part (a +ℤ b) + pos_part a + pos_part b
unfolding ◌+ℤ◌
+ℤ_parts a b = ground arith

pub -ℤ_parts :
    (a b : ℤ)
    → pos_part (a -ℤ b) + neg_part a + pos_part b ≡ neg_part (a -ℤ b) + pos_part a + neg_part b
unfolding ◌-ℤ◌
-ℤ_parts a b = ground arith

pub eq_of_parts : (a b : ℤ) → pos_part a + neg_part b ≡ pos_part b + neg_part a → a ≡ b
eq_of_parts a b h = ground arith

-- `negative ? -n : n`
unfoldable pub signed : Bool → ℕ → ℤ
signed false n = pos n
signed true n = sub_ℕ 0 n

pub signed-false_parts : (n : ℕ) → (pos_part (signed false n) ≡ n) × (neg_part (signed false n) ≡ 0)
unfolding signed
signed-false_parts n = (refl, refl)

pub signed-true_parts : (n : ℕ) → (pos_part (signed true n) ≡ 0) × (neg_part (signed true n) ≡ n)
unfolding signed
signed-true_parts n = ground arith

-- The absolute value and the sign, `value < 0n ? -value : value` and `value < 0n`.
abbrev pub abs : ℤ → ℕ
abs a = pos_part a + neg_part a

abbrev pub is_negative : ℤ → Bool
is_negative (pos n) = false
is_negative (negsuc n) = true

pub signed-is_negative : (a : ℤ) → signed (is_negative a) (abs a) ≡ a
unfolding signed
signed-is_negative (pos n) = ground arith
signed-is_negative (negsuc n) = ground arith

-- a · p
unfoldable pub times_ℕ : ℤ → ℕ → ℤ
times_ℕ (pos n) p = pos (n * p)
times_ℕ (negsuc n) p = signed true (suc n * p)

pub times_ℕ_parts :
    (a : ℤ) (p : ℕ)
    → (pos_part (times_ℕ a p) ≡ pos_part a * p) × (neg_part (times_ℕ a p) ≡ neg_part a * p)
unfolding times_ℕ
times_ℕ_parts (pos n) p = omega arith
times_ℕ_parts (negsuc n) p = omega (arith, signed-true_parts (suc n * p))

pub ruleset int_laws = (arith, +ℤ_parts, -ℤ_parts, eq_of_parts)

pub times_ℕ-+ℤ : (a b : ℤ) (p : ℕ) → times_ℕ (a +ℤ b) p ≡ times_ℕ a p +ℤ times_ℕ b p
times_ℕ-+ℤ a b p = omega (
  int_laws,
  times_ℕ_parts (a +ℤ b) p,
  times_ℕ_parts a p,
  times_ℕ_parts b p,
  ap (λ (t : ℕ). t * p) (+ℤ_parts a b),
)

pub times_ℕ--ℤ : (a b : ℤ) (p : ℕ) → times_ℕ (a -ℤ b) p ≡ times_ℕ a p -ℤ times_ℕ b p
times_ℕ--ℤ a b p = omega (
  int_laws,
  times_ℕ_parts (a -ℤ b) p,
  times_ℕ_parts a p,
  times_ℕ_parts b p,
  ap (λ (t : ℕ). t * p) (-ℤ_parts a b),
)

pub times_ℕ-signed : (s : Bool) (n p : ℕ) → times_ℕ (signed s n) p ≡ signed s (n * p)
times_ℕ-signed false n p = omega (
  int_laws,
  times_ℕ_parts (signed false n) p,
  signed-false_parts (n * p),
  ap (λ (t : ℕ). t * p) (signed-false_parts n).0,
  ap (λ (t : ℕ). t * p) (signed-false_parts n).1,
)
times_ℕ-signed true n p = omega (
  int_laws,
  times_ℕ_parts (signed true n) p,
  signed-true_parts (n * p),
  ap (λ (t : ℕ). t * p) (signed-true_parts n).0,
  ap (λ (t : ℕ). t * p) (signed-true_parts n).1,
)

lt_mul : (x y p : ℕ) → 0 < p → (x < y) ↔ (x * p < y * p)
lt_mul x y p h = (λ l. mul-lt-mul_of_pos_right l h, λ l. lt_of_mul-lt-mul_right p l)

ltb_mul : (x y p : ℕ) → 0 < p → ltb (x * p) (y * p) ≡ ltb x y
ltb_mul x y p h = ground (arith, lt_mul x y p h)

-- Multiplying by a positive number keeps the order, both ways.
pub times_ℕ-lt : (a b : ℤ) (p : ℕ) → 0 < p → ltb_ℤ (times_ℕ a p) (times_ℕ b p) ≡ ltb_ℤ a b
times_ℕ-lt a b p h = ground (
  arith,
  ltb_mul (pos_part a + neg_part b) (pos_part b + neg_part a) p h,
  times_ℕ_parts a p,
  times_ℕ_parts b p,
)

-- a · b
infixl 70 ◌*ℤ◌
unfoldable pub ◌*ℤ◌ : ℤ → ℤ → ℤ
a *ℤ b =
    sub_ℕ (pos_part a * pos_part b + neg_part a * neg_part b)
      (pos_part a * neg_part b + neg_part a * pos_part b)

pub *ℤ_parts :
    (a b : ℤ)
    → pos_part (a *ℤ b) + (pos_part a * neg_part b + neg_part a * pos_part b)
      ≡ neg_part (a *ℤ b) + (pos_part a * pos_part b + neg_part a * neg_part b)
unfolding ◌*ℤ◌
*ℤ_parts a b =
    sub_ℕ_parts (pos_part a * pos_part b + neg_part a * neg_part b)
      (pos_part a * neg_part b + neg_part a * pos_part b)

pub signed-*ℤ :
    (s t : Bool) (m n : ℕ) → signed s m *ℤ signed t n ≡ signed (not (bool_eq s t)) (m * n)
signed-*ℤ false false m n =
    let (ma, mb) = signed-false_parts m in
    let (na, nb) = signed-false_parts n in
    omega (
      int_laws,
      rw (ma, mb, na, nb) at (*ℤ_parts (signed false m) (signed false n)),
      signed-false_parts (m * n),
    )
signed-*ℤ false true m n =
    let (ma, mb) = signed-false_parts m in
    let (na, nb) = signed-true_parts n in
    omega (
      int_laws,
      rw (ma, mb, na, nb) at (*ℤ_parts (signed false m) (signed true n)),
      signed-true_parts (m * n),
    )
signed-*ℤ true false m n =
    let (ma, mb) = signed-true_parts m in
    let (na, nb) = signed-false_parts n in
    omega (
      int_laws,
      rw (ma, mb, na, nb) at (*ℤ_parts (signed true m) (signed false n)),
      signed-true_parts (m * n),
    )
signed-*ℤ true true m n =
    let (ma, mb) = signed-true_parts m in
    let (na, nb) = signed-true_parts n in
    omega (
      int_laws,
      rw (ma, mb, na, nb) at (*ℤ_parts (signed true m) (signed true n)),
      signed-false_parts (m * n),
    )

mul_cancel : (x y p : ℕ) → 0 < p → x * p ≡ y * p → x ≡ y
mul_cancel x y p h e = ground (arith, ltb_mul x y p h, ltb_mul y x p h)

pub times_ℕ-injective : (a b : ℤ) (p : ℕ) → 0 < p → times_ℕ a p ≡ times_ℕ b p → a ≡ b
times_ℕ-injective a b p h e =
    let l : pos_part a ≡ pos_part b =
      mul_cancel (pos_part a) (pos_part b) p h
        (sym (times_ℕ_parts a p).0 ∙ ap pos_part e ∙ (times_ℕ_parts b p).0) in
    let m : neg_part a ≡ neg_part b =
      mul_cancel (neg_part a) (neg_part b) p h
        (sym (times_ℕ_parts a p).1 ∙ ap neg_part e ∙ (times_ℕ_parts b p).1) in
    eq_of_parts a b (omega arith)

pub add_inside : (x t w t' w' : ℤ) → t +ℤ w ≡ t' +ℤ w' → (x +ℤ t) +ℤ w ≡ (x +ℤ t') +ℤ w'
add_inside x t w t' w' h = omega (int_laws, ap pos_part h, ap neg_part h)

pub shift_sum :
    (t' t a l a' l' da dl : ℤ)
    → a' ≡ a +ℤ da
    → l' ≡ l +ℤ dl
    → t' +ℤ (a +ℤ l) ≡ t +ℤ (a' +ℤ l')
    → t' ≡ t +ℤ (da +ℤ dl)
shift_sum t' t a l a' l' da dl p q h = omega (
  int_laws,
  ap pos_part p,
  ap neg_part p,
  ap pos_part q,
  ap neg_part q,
  ap pos_part h,
  ap neg_part h,
)

pub add_zero_both : (t' t : ℤ) → t' +ℤ pos 0 ≡ t +ℤ pos 0 → t' ≡ t +ℤ pos 0
add_zero_both t' t h = omega (int_laws, ap pos_part h, ap neg_part h)

pub add_zero : (t : ℤ) → t +ℤ pos 0 ≡ t
add_zero t = omega int_laws

-- The smaller of two, as `a.gte(b) ? b : a` computes it.
abbrev pub min_ℤ : ℤ → ℤ → ℤ
min_ℤ a b = if ltb_ℤ a b then a else b

pub add_sub : (a b : ℤ) → a +ℤ b -ℤ b ≡ a
add_sub a b = omega int_laws
