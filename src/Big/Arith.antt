-- ===== src/Big/Arith.antt =====
-- The arithmetic of `Big` is exact: sums, differences and products have the exact value, and a
-- quotient is the exact one cut off after its places.
use native.Mathlib.Nat.{div-mul-le_self, lt-div-mul-add}
use perpetual_futures_exchan.Prelude.{
  ℕ, ◌+◌, ◌-◌, ◌*◌, ◌/◌, ◌^◌, ◌≤◌, ◌<◌, ◌≡◌, sym, ap, ◌∙◌, true, false, not, none, some, arith,
  bool_eq, if◌then◌else◌,
}
use perpetual_futures_exchan.Prelude.Int.{
  ℤ, ◌+ℤ◌, ◌-ℤ◌, ◌*ℤ◌, signed, times_ℕ-+ℤ, times_ℕ--ℤ, signed-*ℤ,
}
use perpetual_futures_exchan.Prelude.Pow.{pow10-add}
use perpetual_futures_exchan.Big.{
  Big, Js, normalize, from_scaled, common_scale, rescaled, at_scale, plus, minus, times, div_to,
  div,
}
use perpetual_futures_exchan.Big.Scaled.{
  Denotes, from_scaled-Denotes, from_scaled_sign, at_scale-from_scaled, at_scale-rescale,
  Denotes-rescaled,
}

-- A zero has no sign.
abbrev pub IsNormal : Big → Type 0
IsNormal b = b.value ≡ 0 → b.negative ≡ false

pub normalize-eq : (b : Big) → IsNormal b → normalize b ≡ b
unfolding normalize
normalize-eq b h = ground arith

pub normalize-IsNormal : (b : Big) → IsNormal (normalize b)
unfolding normalize
normalize-IsNormal b = ground arith

pub at_scale-normalize : (b : Big) (k : ℕ) → at_scale (normalize b) k ≡ at_scale b k
unfolding normalize signed
at_scale-normalize b k = ground arith

module _ ⦃js : Js⦄ where
  from_scaled-IsNormal : (z : ℤ) (s : ℕ) → IsNormal (from_scaled z s)
  from_scaled-IsNormal (ℤ.pos n) s h = from_scaled_sign (ℤ.pos n) s
  from_scaled-IsNormal (ℤ.negsuc n) s h =
      let (_, e) = from_scaled-Denotes (ℤ.negsuc n) s in
      absurd (omega (arith, ap (λ (t : ℕ). t * 10 ^ (s - (from_scaled (ℤ.negsuc n) s).decimals)) h))

  -- Adding is exact at every number of places that holds both summands.
  pub at_scale-plus :
      (x y : Big) (k : ℕ)
      → common_scale x y ≤ k
      → at_scale (plus x y) k ≡ at_scale x k +ℤ at_scale y k
  unfolding plus
  at_scale-plus x y k h =
      let s = common_scale x y in
      rw
        (
          at_scale-from_scaled (at_scale x s +ℤ at_scale y s) s k h,
          at_scale-rescale x s k (omega arith) h,
          at_scale-rescale y s k (omega arith) h,
        )
        (times_ℕ-+ℤ (at_scale x s) (at_scale y s) (10 ^ (k - s)))

  pub at_scale-minus :
      (x y : Big) (k : ℕ)
      → common_scale x y ≤ k
      → at_scale (minus x y) k ≡ at_scale x k -ℤ at_scale y k
  unfolding minus
  at_scale-minus x y k h =
      let s = common_scale x y in
      rw
        (
          at_scale-from_scaled (at_scale x s -ℤ at_scale y s) s k h,
          at_scale-rescale x s k (omega arith) h,
          at_scale-rescale y s k (omega arith) h,
        )
        (times_ℕ--ℤ (at_scale x s) (at_scale y s) (10 ^ (k - s)))

  pub decimals-plus : (x y : Big) → (plus x y).decimals ≤ common_scale x y
  unfolding plus
  decimals-plus x y = (from_scaled-Denotes _ (common_scale x y)).0

  pub decimals-minus : (x y : Big) → (minus x y).decimals ≤ common_scale x y
  unfolding minus
  decimals-minus x y = (from_scaled-Denotes _ (common_scale x y)).0

  pub plus-IsNormal : (x y : Big) → IsNormal (plus x y)
  unfolding plus
  plus-IsNormal x y = from_scaled-IsNormal _ (common_scale x y)

  pub minus-IsNormal : (x y : Big) → IsNormal (minus x y)
  unfolding minus
  minus-IsNormal x y = from_scaled-IsNormal _ (common_scale x y)

  pub times-Denotes :
      (x y : Big) → Denotes (times x y) (x.value * y.value) (x.decimals + y.decimals)
  unfolding times
  times-Denotes x y =
      ground (arith, from_scaled-Denotes (ℤ.pos (x.value * y.value)) (x.decimals + y.decimals))

  pub times_sign : (x y : Big) → (times x y).negative ≡ not (bool_eq x.negative y.negative)
  unfolding times
  times_sign x y =
      ground (arith, from_scaled_sign (ℤ.pos (x.value * y.value)) (x.decimals + y.decimals))

  pub decimals-times : (x y : Big) → (times x y).decimals ≤ x.decimals + y.decimals
  decimals-times x y = (times-Denotes x y).0

  pub at_scale-times :
      (x y : Big) (j k : ℕ)
      → x.decimals ≤ j
      → y.decimals ≤ k
      → at_scale (times x y) (j + k) ≡ at_scale x j *ℤ at_scale y k
  at_scale-times x y j k hj hk =
      let e : (j + k) - (x.decimals + y.decimals) ≡ (j - x.decimals) + (k - y.decimals) =
        omega arith in
      let m : rescaled (times x y) (j + k) ≡ rescaled x j * rescaled y k =
        Denotes-rescaled (times x y) (x.value * y.value) (x.decimals + y.decimals) (j + k)
          (times-Denotes x y) (omega arith)
        ∙ rw (e, pow10-add (j - x.decimals) (k - y.decimals)) (omega arith) in
      rw (m, times_sign x y) (sym (signed-*ℤ x.negative y.negative (rescaled x j) (rescaled y k)))

  -- A quotient: the exact one, cut off after `x.decimals + scale` places; no quotient by zero.
  pub div_to_zero : (scale : ℕ) (x y : Big) → y.value ≡ 0 → div_to scale x y ≡ none
  unfolding div_to
  div_to_zero scale x y h = ground arith

  pub div_to-eq :
      (scale : ℕ) (x y : Big)
      → 0 < y.value
      → (q : Big) × (div_to scale x y ≡ some q)
        × Denotes q (x.value * 10 ^ (scale + y.decimals) / y.value) (x.decimals + scale)
        × (q.negative ≡ not (bool_eq x.negative y.negative))
  unfolding div_to
  div_to-eq scale x y h =
      let n = x.value * 10 ^ (scale + y.decimals) / y.value in
      let out = from_scaled (ℤ.pos n) (x.decimals + scale) in
      (
        (if bool_eq x.negative y.negative then out else record out { negative = true }),
        ground arith,
        ground (arith, from_scaled-Denotes (ℤ.pos n) (x.decimals + scale)),
        ground (arith, from_scaled_sign (ℤ.pos n) (x.decimals + scale)),
      )

  -- The sum of two numbers is exact at every scale that holds both, needs no more places than they
  -- do, and carries no sign on a zero.
  pub plus_exact :
      (x y : Big) (k : ℕ)
      → common_scale x y ≤ k
      → (at_scale (plus x y) k ≡ at_scale x k +ℤ at_scale y k)
        × ((plus x y).decimals ≤ common_scale x y)
        × IsNormal (plus x y)
  plus_exact x y k h = (at_scale-plus x y k h, decimals-plus x y, plus-IsNormal x y)

  -- The difference of two numbers is exact at every scale that holds both, needs no more places
  -- than they do, and carries no sign on a zero.
  pub minus_exact :
      (x y : Big) (k : ℕ)
      → common_scale x y ≤ k
      → (at_scale (minus x y) k ≡ at_scale x k -ℤ at_scale y k)
        × ((minus x y).decimals ≤ common_scale x y)
        × IsNormal (minus x y)
  minus_exact x y k h = (at_scale-minus x y k h, decimals-minus x y, minus-IsNormal x y)

  -- The product at the sum of two scales, each of which holds its factor, is the product of the
  -- factors at theirs, and it needs no more places than both together.
  pub times_exact :
      (x y : Big) (j k : ℕ)
      → x.decimals ≤ j
      → y.decimals ≤ k
      → (at_scale (times x y) (j + k) ≡ at_scale x j *ℤ at_scale y k)
        × ((times x y).decimals ≤ x.decimals + y.decimals)
  times_exact x y j k hj hk = (at_scale-times x y j k hj hk, decimals-times x y)

  cut_bounds : (n y m : ℕ) → 0 < y → m ≡ n / y → (m * y ≤ n) × (n < (m + 1) * y)
  cut_bounds n y m h e = rw e (div-mul-le_self n y, omega (arith, lt-div-mul-add {a = n} h))

  -- Division by a number other than zero gives a quotient that is the exact one cut off toward zero
  -- after `x.decimals + 18` places: with `m` its size in units of the last of these, `m · |y|` does
  -- not exceed `|x|` and `(m + 1) · |y|` does; its sign is that of the factors. Division by zero throws.
  pub div_cut :
      (x y : Big)
      → (y.value ≡ 0 → div x y ≡ none)
        × (0 < y.value
            → (q : Big) × (div x y ≡ some q)
              × (q.decimals ≤ x.decimals + 18)
              × (rescaled q (x.decimals + 18) * y.value ≤ x.value * 10 ^ (18 + y.decimals))
              × (x.value * 10 ^ (18 + y.decimals) < (rescaled q (x.decimals + 18) + 1) * y.value)
              × (q.negative ≡ not (bool_eq x.negative y.negative)))
  unfolding div
  div_cut x y = (
    div_to_zero 18 x y,
    λ h.
        let (q, e, d, s) = div_to-eq 18 x y h in
        let (low, high) = cut_bounds (x.value * 10 ^ (18 + y.decimals)) y.value _ h d.1 in
        (q, e, d.0, low, high, s),
  )
