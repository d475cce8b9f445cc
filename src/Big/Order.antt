-- ===== src/Big/Order.antt =====
-- The comparisons of `Big` are those of the exact values, as long as no zero carries a sign.
use perpetual_futures_exchan.Prelude.{
  ℕ, zero, suc, ◌-◌, ◌*◌, ◌^◌, ◌≤◌, ◌≡◌, ◌≢◌, ◌⊎◌, ◌↔◌, refl, sym, ap, ◌∙◌, Bool, true, false, not,
  ◌&&◌, arith, ◌==◌, bool_eq,
}
use perpetual_futures_exchan.Prelude.Int.{
  ℤ, ◌≤ℤ◌, ◌<ℤ◌, ltb_ℤ, signed, times_ℕ, times_ℕ-lt, times_ℕ-injective, eq_of_parts,
}
use perpetual_futures_exchan.Prelude.Pow.{pow10_pos}
use perpetual_futures_exchan.Big.{
  Big, Js, common_scale, rescaled, at_scale, eq, gt, gte, lt, lte, times,
}
use perpetual_futures_exchan.Big.Scaled.{at_scale-rescale}
use perpetual_futures_exchan.Big.Arith.{IsNormal, times-Denotes, times_sign}

pub gt-eq-ltb :
    (x y : Big) (k : ℕ) → common_scale x y ≤ k → gt x y ≡ ltb_ℤ (at_scale y k) (at_scale x k)
unfolding gt
gt-eq-ltb x y k h =
    let s = common_scale x y in
    rw (at_scale-rescale x s k (omega arith) h, at_scale-rescale y s k (omega arith) h)
      (sym (times_ℕ-lt (at_scale y s) (at_scale x s) (10 ^ (k - s)) (pow10_pos (k - s))))

pub gt_iff :
    (x y : Big) (k : ℕ) → common_scale x y ≤ k → (gt x y ≡ true) ↔ (at_scale y k <ℤ at_scale x k)
gt_iff x y k h = ground (arith, gt-eq-ltb x y k h)

pub lte_iff :
    (x y : Big) (k : ℕ) → common_scale x y ≤ k → (lte x y ≡ true) ↔ (at_scale x k ≤ℤ at_scale y k)
unfolding lte
lte_iff x y k h = ground (arith, gt-eq-ltb x y k h)

signed_eq_iff :
    (s t : Bool) (m n : ℕ)
    → (m ≡ 0 → s ≡ false)
    → (n ≡ 0 → t ≡ false)
    → ((m == n && bool_eq s t) ≡ true) ↔ (signed s m ≡ signed t n)
unfolding signed
signed_eq_iff s t m n h k = ground arith

pub value-zero : (v n : ℕ) → v * 10 ^ n ≡ 0 → v ≡ 0
value-zero zero n h = refl
value-zero (suc v) n h = absurd (omega (arith, pow10_pos n))

pub eq_iff :
    (x y : Big) (k : ℕ)
    → IsNormal x
    → IsNormal y
    → common_scale x y ≤ k
    → (eq x y ≡ true) ↔ (at_scale x k ≡ at_scale y k)
unfolding eq
eq_iff x y k hx hy h =
    let s = common_scale x y in
    let ex = at_scale-rescale x s k (omega arith) h in
    let ey = at_scale-rescale y s k (omega arith) h in
    let same =
      signed_eq_iff x.negative y.negative (rescaled x s) (rescaled y s)
        (λ z. hx (value-zero x.value _ z)) (λ z. hy (value-zero y.value _ z)) in
    (
      λ t. ex ∙ ap (λ (a : ℤ). times_ℕ a (10 ^ (k - s))) (same.0 t) ∙ sym ey,
      λ e. same.1 (
          times_ℕ-injective (at_scale x s) (at_scale y s) (10 ^ (k - s)) (pow10_pos (k - s))
            (sym ex ∙ e ∙ ey)),
    )

le_split : (a b : ℤ) → (a ≤ℤ b) ↔ ((b ≡ a) ⊎ (ltb_ℤ a b ≡ true))
le_split a b = ground (arith, eq_of_parts b a)

pub gte_iff :
    (x y : Big) (k : ℕ)
    → IsNormal x
    → IsNormal y
    → common_scale x y ≤ k
    → (gte x y ≡ true) ↔ (at_scale y k ≤ℤ at_scale x k)
unfolding gte
gte_iff x y k hx hy h =
    ground (arith, eq_iff x y k hx hy h, gt-eq-ltb x y k h, le_split (at_scale y k) (at_scale x k))

pub lt_iff :
    (x y : Big) (k : ℕ)
    → IsNormal x
    → IsNormal y
    → common_scale x y ≤ k
    → (lt x y ≡ true) ↔ (at_scale x k <ℤ at_scale y k)
unfolding lt
lt_iff x y k hx hy h = ground (arith, gte_iff x y k hx hy h)

abbrev pub zero_big : Big
zero_big = record { value = 0; decimals = 0; negative = false }

negative_zero-lt :
    (z : Big) → z.value ≡ 0 → z.negative ≡ true → (eq z zero_big ≡ false) × (lt z zero_big ≡ true)
unfolding eq lt signed
negative_zero-lt z v n = (rw n (ground arith), rw (n, v) (ground arith))

different_signs : (s t : Bool) → s ≢ t → not (bool_eq s t) ≡ true
different_signs s t ne = ground arith

module _ ⦃js : Js⦄ where
  -- A zero product of factors of different signs carries a sign: it is not `eq` to zero, and it
  -- counts as below zero.
  pub times_negative_zero :
      (x y : Big)
      → x.negative ≢ y.negative
      → x.value * y.value ≡ 0
      → let z = times x y in
        (z.value ≡ 0) × (z.negative ≡ true) × (eq z zero_big ≡ false) × (lt z zero_big ≡ true)
  times_negative_zero x y ne zero_product =
      let z = times x y in
      let v : z.value ≡ 0 = value-zero z.value _ ((times-Denotes x y).1 ∙ zero_product) in
      let n : z.negative ≡ true = times_sign x y ∙ different_signs x.negative y.negative ne in
      (v, n, (negative_zero-lt z v n).0, (negative_zero-lt z v n).1)

-- All five comparisons are those of the exact values, at every scale that holds both numbers, if
-- neither is a zero with a sign.
pub comparisons_exact :
    (x y : Big) (k : ℕ)
    → IsNormal x
    → IsNormal y
    → common_scale x y ≤ k
    → ((eq x y ≡ true) ↔ (at_scale x k ≡ at_scale y k))
      × ((gt x y ≡ true) ↔ (at_scale y k <ℤ at_scale x k))
      × ((gte x y ≡ true) ↔ (at_scale y k ≤ℤ at_scale x k))
      × ((lt x y ≡ true) ↔ (at_scale x k <ℤ at_scale y k))
      × ((lte x y ≡ true) ↔ (at_scale x k ≤ℤ at_scale y k))
comparisons_exact x y k hx hy h = (
  eq_iff x y k hx hy h,
  gt_iff x y k h,
  gte_iff x y k hx hy h,
  lt_iff x y k hx hy h,
  lte_iff x y k h,
)
