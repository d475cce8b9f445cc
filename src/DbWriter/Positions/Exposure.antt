-- ===== src/DbWriter/Positions/Exposure.antt =====
-- A fill moves the exposure of an open position by what was traded.
use perpetual_futures_exchan.Prelude.{ℕ, ◌≡◌, refl, some, Option-cases, inl, inr}
use perpetual_futures_exchan.Big
use perpetual_futures_exchan.Big.{Js}
use perpetual_futures_exchan.Decimal.{DecStr, zero_text}
use perpetual_futures_exchan.Store.{Db, Position, PositionStatus}
use perpetual_futures_exchan.Store.Monad.{Result, ok, err}
use perpetual_futures_exchan.Store.Numeric.{Postgres}
use perpetual_futures_exchan.DbWriter.Positions.{
  PositionFill, update_position, added, reduced, average_entry, realized, add_to_position,
  close_position, reduce_position,
}

abbrev pub add_row : DecStr → DecStr → DecStr → Position → Position
add_row quantity entry price q = record q {
  quantity = quantity;
  entry_price = entry;
  mark_price = price;
}

abbrev pub close_row : DecStr → DecStr → DecStr → ℕ → Position → Position
close_row quantity pnl price now q = record q {
  quantity = quantity;
  status = PositionStatus.closed;
  closed_at = some now;
  realized_pnl = pnl;
  mark_price = price;
}

module _ ⦃js : Js⦄ ⦃pg : Postgres⦄ where
  -- Either nothing was written, or the row was changed by a function of which `P` holds.
  abbrev pub Rewrites :
      (Position → (Position → Position) → Type 0) → Position → Db → Result (Unit {0}) × Db → Type 0
  Rewrites P p db (ok _, db') =
      (f : Position → Position) × P p f × (db' ≡ update_position p.id f db)
  Rewrites P p db (err e, db') = db' ≡ db

  -- What the three ways of changing a position write.
  unfoldable pub IsAdded : PositionFill → Position → (Position → Position) → Type 0
  IsAdded fill p f =
      (quantity : DecStr) × (entry : DecStr) × (price : DecStr) × (pg.column (added p fill.quantity)
        ≡ some quantity)
      × (f ≡ add_row quantity entry price)

  unfoldable pub IsReduced : PositionFill → Position → (Position → Position) → Type 0
  IsReduced fill p f =
      (quantity : DecStr) × (price : DecStr) × (pg.column (Big.to_text (reduced p fill.quantity))
        ≡ some quantity)
      × (f ≡ λ q. record q { quantity = quantity; mark_price = price })

  unfoldable pub IsClosed : ℕ → (Position → Position) → Type 0
  IsClosed now f =
      (quantity : DecStr) × (pnl : DecStr) × (price : DecStr) × (pg.column zero_text
        ≡ some quantity)
      × (f ≡ close_row quantity pnl price now)

  IsAdded-by :
      (fill : PositionFill) (p : Position) (q e r : DecStr)
      → pg.column (added p fill.quantity) ≡ some q
      → IsAdded fill p (add_row q e r)
  unfolding IsAdded
  IsAdded-by fill p q e r kept = (q, e, r, kept, refl)

  IsReduced-by :
      (fill : PositionFill) (p : Position) (q r : DecStr)
      → pg.column (Big.to_text (reduced p fill.quantity)) ≡ some q
      → IsReduced fill p (λ s. record s { quantity = q; mark_price = r })
  unfolding IsReduced
  IsReduced-by fill p q r kept = (q, r, kept, refl)

  IsClosed-by :
      (now : ℕ) (q n r : DecStr) → pg.column zero_text ≡ some q → IsClosed now (close_row q n r now)
  unfolding IsClosed
  IsClosed-by now q n r kept = (q, n, r, kept, refl)

  module _ (fill : PositionFill) (p : Position) (db : Db) where
    pub add_to_position-Rewrites : Rewrites (IsAdded fill) p db (add_to_position fill p db)
    unfolding add_to_position
    add_to_position-Rewrites = elim (Option-cases (average_entry p fill.price fill.quantity)) [
      | inl undefined ↦ rw undefined
      | inr (e, defined) ↦ elim (Option-cases (pg.column (added p fill.quantity))) [
        | inl refused ↦ rw (defined, refused)
        | inr (q, kept) ↦ elim (Option-cases (pg.column e)) [
          | inl refused ↦ rw (defined, kept, refused)
          | inr (en, entry) ↦ elim (Option-cases (pg.column fill.price)) [
            | inl refused ↦ rw (defined, kept, entry, refused)
            | inr (pr, mark) ↦
                let written = IsAdded-by fill p q en pr kept in
                rw (defined, kept, entry, mark) (add_row q en pr, written, refl)
          ]
        ]
      ]
    ]

    pub reduce_position-Rewrites : Rewrites (IsReduced fill) p db (reduce_position fill p db)
    unfolding reduce_position
    reduce_position-Rewrites =
        elim (Option-cases (pg.column (Big.to_text (reduced p fill.quantity)))) [
          | inl refused ↦ rw refused
          | inr (q, kept) ↦ elim (Option-cases (pg.column fill.price)) [
            | inl refused ↦ rw (kept, refused)
            | inr (pr, mark) ↦
                let written = IsReduced-by fill p q pr kept in rw (kept, mark) (_, written, refl)
          ]
        ]

    pub close_position-Rewrites :
        Rewrites (λ q f. IsClosed db.clock f) p db (close_position fill p db)
    unfolding close_position
    close_position-Rewrites = elim (Option-cases (pg.column zero_text)) [
      | inl refused ↦ rw refused
      | inr (q, kept) ↦ elim (Option-cases (pg.column (realized p fill.price))) [
        | inl refused ↦ rw (kept, refused)
        | inr (n, profit) ↦ elim (Option-cases (pg.column fill.price)) [
          | inl refused ↦ rw (kept, profit, refused)
          | inr (pr, mark) ↦
              let written = IsClosed-by db.clock q n pr kept in
              rw (kept, profit, mark) (close_row q n pr db.clock, written, refl)
        ]
      ]
    ]
