-- ===== src/Store/Rows.antt =====
-- Queries on a table: `select … where … limit 1`, `select … where …` and `update … where …`.
use perpetual_futures_exchan.Prelude.{Bool, Option, none, some, List, [], ◌∷◌, if◌then◌else◌}

module _ {ℓ} {A : Type ℓ} where
  abbrev pub first : (A → Bool) → List A → Option A
  first p [] = none
  first p (r ∷ rows) = if p r then some r else first p rows

  abbrev pub where_ : (A → Bool) → List A → List A
  where_ p [] = []
  where_ p (r ∷ rows) = let rest = where_ p rows in if p r then r ∷ rest else rest

  abbrev pub update_rows : (A → Bool) → (A → A) → List A → List A
  update_rows p f [] = []
  update_rows p f (r ∷ rows) = (if p r then f r else r) ∷ update_rows p f rows
