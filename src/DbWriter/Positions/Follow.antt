-- ===== src/DbWriter/Positions/Follow.antt =====
-- `upsertPosition` on an open position, measured by exposures.
use perpetual_futures_exchan.Prelude.{
  ℕ, ◌≤◌, ◌≡◌, ◌⊎◌, ◌↔◌, refl, ◌∙◌, true, false, some, arith, Bool-cases, inl, inr,
}
use perpetual_futures_exchan.Prelude.Int.{ℤ, pos, ◌+ℤ◌, ◌-ℤ◌, ◌≤ℤ◌, ◌<ℤ◌, int_laws}
use perpetual_futures_exchan.Big
use perpetual_futures_exchan.Big.{Js, at_scale}
use perpetual_futures_exchan.Big.Arith.{at_scale-minus, decimals-minus}
use perpetual_futures_exchan.Big.Order.{lte_iff}
use perpetual_futures_exchan.Decimal.{DecStr, zero_text, dec, add, sub, places, amount}
use perpetual_futures_exchan.Decimal.Laws.{
  amount-add, amount-sub, places-add, places-sub, amount-zero_text, places-zero_text,
}
use perpetual_futures_exchan.Store.{Db, Position, PositionSide, PositionStatus}
use perpetual_futures_exchan.Store.Monad.{Result, ok, err}
use perpetual_futures_exchan.Store.Numeric.{Postgres, IsPostgres}
use perpetual_futures_exchan.DbWriter.Positions.{
  PositionFill, side_of, same_side, open_position_of, added, reduced, upsert_position,
  add_to_position, reduce_position, close_position,
}
use perpetual_futures_exchan.DbWriter.Positions.Exposure.{
  Rewrites, IsAdded, IsReduced, IsClosed, add_to_position-Rewrites, reduce_position-Rewrites,
  close_position-Rewrites,
}

abbrev pub directed : PositionSide → ℤ → ℤ
directed PositionSide.long z = z
directed PositionSide.short z = pos 0 -ℤ z

directed_add :
    (s t : PositionSide) (a x b : ℤ)
    → same_side s t ≡ true
    → b ≡ a +ℤ x
    → directed s b ≡ directed s a +ℤ directed t x
directed_add PositionSide.long PositionSide.long a x b same e = rw e
directed_add PositionSide.short PositionSide.short a x b same e = rw e (omega int_laws)
directed_add PositionSide.long PositionSide.short a x b same e = cc
directed_add PositionSide.short PositionSide.long a x b same e = cc

directed_sub :
    (s t : PositionSide) (a x b : ℤ)
    → same_side s t ≡ false
    → b ≡ a -ℤ x
    → directed s b ≡ directed s a +ℤ directed t x
directed_sub PositionSide.long PositionSide.long a x b opposite e = cc
directed_sub PositionSide.short PositionSide.short a x b opposite e = cc
directed_sub PositionSide.long PositionSide.short a x b opposite e = rw e (omega int_laws)
directed_sub PositionSide.short PositionSide.long a x b opposite e = rw e (omega int_laws)

module _ ⦃js : Js⦄ where
  -- A long position counts up, a short one down, in units of the eighth place.
  abbrev pub exposure : Position → ℤ
  exposure p = directed p.side (amount 8 p.quantity)

  abbrev pub traded : PositionFill → ℤ
  traded fill = directed (side_of fill.side) (amount 8 fill.quantity)

  closes_iff :
      (p : Position) (x : DecStr)
      → places p.quantity ≤ 8
      → places x ≤ 8
      → (Big.lte (reduced p x) (dec zero_text) ≡ true) ↔ (amount 8 p.quantity ≤ℤ amount 8 x)
  closes_iff p x hp hx =
      let value : at_scale (reduced p x) 8 ≡ amount 8 p.quantity -ℤ amount 8 x =
        at_scale-minus (dec p.quantity) (dec x) 8 (omega arith) in
      let zero_value : at_scale (dec zero_text) 8 ≡ pos 0 = amount-zero_text 8 in
      let fits : (reduced p x).decimals ≤ 8 =
        omega (arith, decimals-minus (dec p.quantity) (dec x)) in
      let test =
        rw (value, zero_value) at
          (lte_iff (reduced p x) (dec zero_text) 8 (omega (arith, places-zero_text))) in
      ((λ t. omega (int_laws, test.0 t)), λ le. test.1 (omega int_laws))

module _ ⦃js : Js⦄ ⦃pg : Postgres⦄ where
  -- How the row ends up.
  abbrev pub Follows : PositionFill → Position → Position → Type 0
  Follows fill p q =
      (q.id ≡ p.id)
      × (q.user_id ≡ p.user_id)
      × (q.market_id ≡ p.market_id)
      × (q.side ≡ p.side)
      × (((q.status ≡ p.status)
            × (pos 0 <ℤ amount 8 q.quantity)
            × (exposure q ≡ exposure p +ℤ traded fill))
          ⊎ ((q.status ≡ PositionStatus.closed)
              × (amount 8 q.quantity ≡ pos 0)
              × (same_side p.side (side_of fill.side) ≡ false)
              × (amount 8 p.quantity ≤ℤ amount 8 fill.quantity)))

  abbrev pub Upserts : PositionFill → Position → Db → Result (Unit {0}) × Db → Type 0
  Upserts fill p db r = Rewrites (λ q f. Follows fill q (f q)) p db r

  module _ (laws : IsPostgres pg) (fill : PositionFill) (p : Position) where
    added-Follows :
        (f : Position → Position)
        → places p.quantity ≤ 8
        → places fill.quantity ≤ 8
        → pos 0 <ℤ amount 8 p.quantity
        → pos 0 <ℤ amount 8 fill.quantity
        → same_side p.side (side_of fill.side) ≡ true
        → IsAdded fill p f
        → Follows fill p (f p)
    unfolding IsAdded add
    added-Follows f hp hx np nx same (q, e, r, kept, is) =
        let fits : places (added p fill.quantity) ≤ 8 =
          omega (arith, places-add p.quantity fill.quantity) in
        let value =
          laws.column_exact (added p fill.quantity) q kept fits
          ∙ amount-add 8 p.quantity fill.quantity hp hx in
        rw is (
          refl,
          refl,
          refl,
          refl,
          inl (
            refl,
            rw value (omega int_laws),
            directed_add p.side (side_of fill.side) _ _ _ same value,
          ),
        )

    reduced-Follows :
        (f : Position → Position)
        → places p.quantity ≤ 8
        → places fill.quantity ≤ 8
        → same_side p.side (side_of fill.side) ≡ false
        → Big.lte (reduced p fill.quantity) (dec zero_text) ≡ false
        → IsReduced fill p f
        → Follows fill p (f p)
    unfolding IsReduced sub
    reduced-Follows f hp hx opposite more (q, r, kept, is) =
        let fits : places (sub p.quantity fill.quantity) ≤ 8 =
          omega (arith, places-sub p.quantity fill.quantity) in
        let value =
          laws.column_exact (sub p.quantity fill.quantity) q kept fits
          ∙ amount-sub 8 p.quantity fill.quantity hp hx in
        let left : amount 8 fill.quantity <ℤ amount 8 p.quantity =
          ground (arith, closes_iff p fill.quantity hp hx) in
        rw is (
          refl,
          refl,
          refl,
          refl,
          inl (
            refl,
            rw value (omega int_laws),
            directed_sub p.side (side_of fill.side) _ _ _ opposite value,
          ),
        )

    closed-Follows :
        (now : ℕ) (f : Position → Position)
        → places p.quantity ≤ 8
        → places fill.quantity ≤ 8
        → same_side p.side (side_of fill.side) ≡ false
        → Big.lte (reduced p fill.quantity) (dec zero_text) ≡ true
        → IsClosed now f
        → Follows fill p (f p)
    unfolding IsClosed
    closed-Follows now f hp hx opposite less (q, n, r, kept, is) =
        let value =
          laws.column_exact zero_text q kept (omega (arith, places-zero_text))
          ∙ amount-zero_text 8 in
        rw is (
          refl,
          refl,
          refl,
          refl,
          inr (refl, value, opposite, (closes_iff p fill.quantity hp hx).0 less),
        )

    Rewrites-imp :
        (P Q : Position → (Position → Position) → Type 0) (db : Db) (r : Result (Unit {0}) × Db)
        → ((f : Position → Position) → P p f → Q p f)
        → Rewrites P p db r
        → Rewrites Q p db r
    Rewrites-imp P Q db (ok _, db') step (f, h, e) = (f, step f h, e)
    Rewrites-imp P Q db (err _, db') step e = e

    module _ (db : Db) (found : open_position_of fill.user_id fill.market_id db ≡ some p) where
      upsert_added :
          same_side p.side (side_of fill.side) ≡ true
          → upsert_position fill db ≡ add_to_position fill p db
      unfolding upsert_position
      upsert_added same = rw (found, same)

      upsert_closed :
          same_side p.side (side_of fill.side) ≡ false
          → Big.lte (reduced p fill.quantity) (dec zero_text) ≡ true
          → upsert_position fill db ≡ close_position fill p db
      unfolding upsert_position
      upsert_closed opposite less = rw (found, opposite, less)

      upsert_reduced :
          same_side p.side (side_of fill.side) ≡ false
          → Big.lte (reduced p fill.quantity) (dec zero_text) ≡ false
          → upsert_position fill db ≡ reduce_position fill p db
      unfolding upsert_position
      upsert_reduced opposite more = rw (found, opposite, more)

      -- A fill of a user who has an open position in the market, both of a positive quantity of at most
      -- eight places, on PostgreSQL's columns. If anything is written, then only to that position,
      -- whose owner, market and side stay. Either it stays open with a positive quantity, and its
      -- exposure (long counts up, short down) changes by exactly what was traded; or the fill goes the
      -- other way and covers all of it, and it is closed with quantity zero, so that what the fill
      -- exceeds it by opens nothing.
      pub upsert_position-Upserts :
          places p.quantity ≤ 8
          → places fill.quantity ≤ 8
          → pos 0 <ℤ amount 8 p.quantity
          → pos 0 <ℤ amount 8 fill.quantity
          → Upserts fill p db (upsert_position fill db)
      upsert_position-Upserts hp hx np nx =
          elim (Bool-cases (same_side p.side (side_of fill.side))) [
            | inl same ↦ rw (upsert_added same) (
                Rewrites-imp (IsAdded fill) (λ q f. Follows fill q (f q)) db
                  (add_to_position fill p db) (λ f. added-Follows f hp hx np nx same)
                  (add_to_position-Rewrites fill p db))
            | inr opposite ↦ elim (Bool-cases (Big.lte (reduced p fill.quantity) (dec zero_text))) [
              | inl less ↦ rw (upsert_closed opposite less) (
                  Rewrites-imp (λ q f. IsClosed db.clock f) (λ q f. Follows fill q (f q)) db
                    (close_position fill p db) (λ f. closed-Follows db.clock f hp hx opposite less)
                    (close_position-Rewrites fill p db))
              | inr more ↦ rw (upsert_reduced opposite more) (
                  Rewrites-imp (IsReduced fill) (λ q f. Follows fill q (f q)) db
                    (reduce_position fill p db) (λ f. reduced-Follows f hp hx opposite more)
                    (reduce_position-Rewrites fill p db))
            ]
          ]
