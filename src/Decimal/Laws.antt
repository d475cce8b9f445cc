-- ===== src/Decimal/Laws.antt =====
-- The operations on decimal texts compute with the values that the texts denote.
use perpetual_futures_exchan.Prelude.{ℕ, ◌+◌, ◌≤◌, ◌≡◌, ◌↔◌, refl, ap, ◌∙◌, max, true, arith}
use perpetual_futures_exchan.Prelude.Int.{add_sub, signed, pos, ◌+ℤ◌, ◌-ℤ◌, ◌*ℤ◌, ◌≤ℤ◌, ◌<ℤ◌}
use perpetual_futures_exchan.Big
use perpetual_futures_exchan.Big.{
  Big, Js, at_scale, normalize, of_text, of_unsigned, to_text, split_sign,
}
use perpetual_futures_exchan.Big.Print.{of_text-to_text}
use perpetual_futures_exchan.Big.Arith.{
  IsNormal, normalize-IsNormal, at_scale-normalize, at_scale-plus, at_scale-minus, at_scale-times,
  decimals-plus, decimals-minus, decimals-times,
}
use perpetual_futures_exchan.Big.Order.{zero_big, gt_iff, gte_iff, lte_iff, lt_iff}
use perpetual_futures_exchan.Text.{trim, has_exponent, before_dot, after_dot, keep_digits, number}
use perpetual_futures_exchan.Decimal.{
  DecStr, zero_text, dec, add, sub, mul, gt, gte, lte, lt, places, amount,
}

normalize-decimals : (b : Big) → (normalize b).decimals ≡ b.decimals
unfolding normalize
normalize-decimals b = ground arith

module _ ⦃js : Js⦄ where
  -- What the constructor returns carries no sign on a zero.
  pub dec-IsNormal : (t : DecStr) → IsNormal (dec t)
  unfolding of_text of_unsigned
  dec-IsNormal t = normalize-IsNormal _

  places-to_text : (b : Big) → places (to_text b) ≡ b.decimals
  places-to_text b = ap (λ (x : Big). x.decimals) (of_text-to_text b) ∙ normalize-decimals b

  amount-to_text : (k : ℕ) (b : Big) → amount k (to_text b) ≡ at_scale b k
  amount-to_text k b = rw (of_text-to_text b) (at_scale-normalize b k)

  pub places-add : (a b : DecStr) → places (add a b) ≤ max (places a) (places b)
  unfolding add
  places-add a b = rw (places-to_text (Big.plus (dec a) (dec b))) (decimals-plus (dec a) (dec b))

  pub places-sub : (a b : DecStr) → places (sub a b) ≤ max (places a) (places b)
  unfolding sub
  places-sub a b = rw (places-to_text (Big.minus (dec a) (dec b))) (decimals-minus (dec a) (dec b))

  pub places-mul : (a b : DecStr) → places (mul a b) ≤ places a + places b
  unfolding mul
  places-mul a b = rw (places-to_text (Big.times (dec a) (dec b))) (decimals-times (dec a) (dec b))

  -- `add` adds the values, at every scale that holds both.
  pub amount-add :
      (k : ℕ) (a b : DecStr)
      → places a ≤ k
      → places b ≤ k
      → amount k (add a b) ≡ amount k a +ℤ amount k b
  unfolding add
  amount-add k a b ha hb =
      amount-to_text k (Big.plus (dec a) (dec b)) ∙ at_scale-plus (dec a) (dec b) k (omega arith)

  pub amount-sub :
      (k : ℕ) (a b : DecStr)
      → places a ≤ k
      → places b ≤ k
      → amount k (sub a b) ≡ amount k a -ℤ amount k b
  unfolding sub
  amount-sub k a b ha hb =
      amount-to_text k (Big.minus (dec a) (dec b)) ∙ at_scale-minus (dec a) (dec b) k (omega arith)

  pub amount-mul :
      (j k : ℕ) (a b : DecStr)
      → places a ≤ j
      → places b ≤ k
      → amount (j + k) (mul a b) ≡ amount j a *ℤ amount k b
  unfolding mul
  amount-mul j k a b ha hb =
      amount-to_text (j + k) (Big.times (dec a) (dec b)) ∙ at_scale-times (dec a) (dec b) j k ha hb

  pub gte-iff-amount :
      (k : ℕ) (a b : DecStr)
      → places a ≤ k
      → places b ≤ k
      → (gte a b ≡ true) ↔ (amount k b ≤ℤ amount k a)
  unfolding gte
  gte-iff-amount k a b ha hb =
      gte_iff (dec a) (dec b) k (dec-IsNormal a) (dec-IsNormal b) (omega arith)

  pub gt-iff-amount :
      (k : ℕ) (a b : DecStr)
      → places a ≤ k
      → places b ≤ k
      → (gt a b ≡ true) ↔ (amount k b <ℤ amount k a)
  unfolding gt
  gt-iff-amount k a b ha hb = gt_iff (dec a) (dec b) k (omega arith)

  pub lte-iff-amount :
      (k : ℕ) (a b : DecStr)
      → places a ≤ k
      → places b ≤ k
      → (lte a b ≡ true) ↔ (amount k a ≤ℤ amount k b)
  unfolding lte
  lte-iff-amount k a b ha hb = lte_iff (dec a) (dec b) k (omega arith)

  pub lt-iff-amount :
      (k : ℕ) (a b : DecStr)
      → places a ≤ k
      → places b ≤ k
      → (lt a b ≡ true) ↔ (amount k a <ℤ amount k b)
  unfolding lt
  lt-iff-amount k a b ha hb =
      lt_iff (dec a) (dec b) k (dec-IsNormal a) (dec-IsNormal b) (omega arith)

  zero_text_lem : dec zero_text ≡ zero_big
  unfolding of_text of_unsigned normalize split_sign trim has_exponent before_dot after_dot
      keep_digits number
  zero_text_lem = refl

  pub places-zero_text : places zero_text ≡ 0
  places-zero_text = ap (λ (x : Big). x.decimals) zero_text_lem

  pub amount-zero_text : (k : ℕ) → amount k zero_text ≡ pos 0
  unfolding signed
  amount-zero_text k = rw zero_text_lem (ground arith)

  pub gt-zero_iff :
      (k : ℕ) (a : DecStr) → places a ≤ k → (gt a zero_text ≡ true) ↔ (pos 0 <ℤ amount k a)
  gt-zero_iff k a h =
      rw (amount-zero_text k) at (gt-iff-amount k a zero_text h (omega (arith, places-zero_text)))

  -- Taking away what was added gives the value back, through all the texts in between, at every
  -- scale that holds both numbers.
  pub sub-add :
      (k : ℕ) (a b : DecStr) → places a ≤ k → places b ≤ k → amount k (sub (add a b) b) ≡ amount k a
  sub-add k a b ha hb =
      amount-sub k (add a b) b (omega (arith, places-add a b)) hb
      ∙ rw (amount-add k a b ha hb) (add_sub (amount k a) (amount k b))
