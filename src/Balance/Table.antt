-- ===== src/Balance/Table.antt =====
-- The table of balances under an update of one row.
use perpetual_futures_exchan.Prelude.{
  ℕ, ◌≡◌, ◌≢◌, refl, sym, ◌∙◌, Bool, true, false, ◌&&◌, some, List, [], ◌∷◌, arith, ◌==◌,
  if◌then◌else◌, Bool-cases, ==_refl, inl, inr, All, All-imp,
}
use perpetual_futures_exchan.Prelude.Int.{ℤ, pos, ◌+ℤ◌, int_laws, add_inside}
use mathlib.Core.Path.{subst}
use mathlib.Core.Option.{some-injective}
use perpetual_futures_exchan.Big.{Js}
use perpetual_futures_exchan.Decimal.{amount}
use perpetual_futures_exchan.Store.{Balance}
use perpetual_futures_exchan.Store.Rows.{first, update_rows}
use perpetual_futures_exchan.Balance.{owns, has_id}

-- The primary key and the unique index `balances_user_asset_unique`.
abbrev pub Differ : Balance → Balance → Type 0
Differ b r = (r.id ≢ b.id) × (owns b.user_id b.asset_id r ≡ false)

abbrev pub IsTable : List Balance → Type 0
IsTable [] = Unit
IsTable (b ∷ rows) = All (Differ b) rows × IsTable rows

-- An update that keeps the keys of a row.
pub record KeepsKeys (f : Balance → Balance) : Type 0 where
  pub id_kept : (b : Balance) → (f b).id ≡ b.id
  pub user_kept : (b : Balance) → (f b).user_id ≡ b.user_id
  pub asset_kept : (b : Balance) → (f b).asset_id ≡ b.asset_id

pub first-All {ℓ κ} :
    {A : Type ℓ} (P : A → Type κ) (p : A → Bool) (rows : List A) (b : A)
    → All P rows
    → first p rows ≡ some b
    → P b
first-All P p [] b h e = cc
first-All P p (r ∷ rows) b h e = elim (Bool-cases (p r)) [
  | inl t ↦ subst P (some-injective _ _ (rw t at e)) h.0
  | inr t ↦ first-All P p rows b h.1 (rw t at e)
]

pub first_sound :
    (p : Balance → Bool) (rows : List Balance) (b : Balance) → first p rows ≡ some b → p b ≡ true
first_sound p [] b e = cc
first_sound p (r ∷ rows) b e = ground (arith, first_sound p rows b)

update-absent :
    (f : Balance → Balance) (k : ℕ) (rows : List Balance)
    → All (λ r. r.id ≢ k) rows
    → update_rows (has_id k) f rows ≡ rows
update-absent f k [] h = refl
update-absent f k (r ∷ rows) h = ground (arith, update-absent f k rows h.1)

module _ (f : Balance → Balance) (keeps : KeepsKeys f) where
  -- The updated row is found under its owner.
  pub first-update_self :
      (u a : ℕ) (rows : List Balance) (b : Balance)
      → first (owns u a) rows ≡ some b
      → first (owns u a) (update_rows (has_id b.id) f rows) ≡ some (f b)
  first-update_self u a [] b e = cc
  first-update_self u a (r ∷ rows) b e =
      ground (arith, keeps.user_kept r, keeps.asset_kept r, first-update_self u a rows b)

  -- Another owner's row is as before.
  pub first-update_ne :
      (u a v c : ℕ) (rows : List Balance) (b : Balance)
      → IsTable rows
      → first (owns u a) rows ≡ some b
      → (u == v && a == c) ≡ false
      → first (owns v c) (update_rows (has_id b.id) f rows) ≡ first (owns v c) rows
  first-update_ne u a v c [] b t e ne = cc
  first-update_ne u a v c (r ∷ rows) b t e ne = elim (Bool-cases (owns u a r)) [
    | inl here ↦
        let same : r ≡ b = some-injective _ _ (rw here at e) in
        let gone : update_rows (has_id b.id) f rows ≡ rows = update-absent f b.id rows (
          subst (λ (x : Balance). All (λ r'. r'.id ≢ x.id) rows) same
            (All-imp (Differ r) (λ r'. r'.id ≢ r.id) rows (λ r' d. d.0) t.0)) in
        rw gone (ground (arith, keeps.user_kept r, keeps.asset_kept r))
    | inr later ↦
        let tail : first (owns u a) rows ≡ some b = rw later at e in
        let other : b.id ≢ r.id = (first-All (Differ r) (owns u a) rows b t.0 tail).0 in
        ground (arith, first-update_ne u a v c rows b t.1 tail ne)
  ]

  updated_keys :
      (p : Balance → Bool) (r : Balance)
      → let r' = if p r then f r else r in
        (r'.id ≡ r.id) × (r'.user_id ≡ r.user_id) × (r'.asset_id ≡ r.asset_id)
  updated_keys p r = elim (Bool-cases (p r)) [
    | inl t ↦ rw t (keeps.id_kept r, keeps.user_kept r, keeps.asset_kept r)
    | inr t ↦ rw t (refl, refl, refl)
  ]

  All-Differ-update :
      (b c : Balance) (k : ℕ) (rows : List Balance)
      → c.id ≡ b.id
      → c.user_id ≡ b.user_id
      → c.asset_id ≡ b.asset_id
      → All (Differ b) rows
      → All (Differ c) (update_rows (has_id k) f rows)
  All-Differ-update b c k [] i u a h = tt
  All-Differ-update b c k (r ∷ rows) i u a (d, h) =
      let (i', u', a') = updated_keys (has_id k) r in
      (((λ e. d.0 (sym i' ∙ e ∙ i)), rw (u', a', u, a) d.1), All-Differ-update b c k rows i u a h)

  pub update-IsTable :
      (k : ℕ) (rows : List Balance) → IsTable rows → IsTable (update_rows (has_id k) f rows)
  update-IsTable k [] t = tt
  update-IsTable k (r ∷ rows) (d, t) =
      let (i', u', a') = updated_keys (has_id k) r in
      (
        All-Differ-update r (if has_id k r then f r else r) k rows i' u' a' d,
        update-IsTable k rows t,
      )

  pub update-All :
      (P : Balance → Type 0) (p : Balance → Bool) (rows : List Balance)
      → ((b : Balance) → P b → P (f b))
      → All P rows
      → All P (update_rows p f rows)
  update-All P p [] step h = tt
  update-All P p (r ∷ rows) step (q, h) =
      let first_row : P (if p r then f r else r) = elim (Bool-cases (p r)) [
        | inl t ↦ rw t (step r q)
        | inr t ↦ rw t q
      ] in
      (first_row, update-All P p rows step h)

module _ ⦃js : Js⦄ where
  -- What a row holds, in units of the eighth place.
  abbrev pub worth : Balance → ℤ
  worth b = amount 8 b.available_balance +ℤ amount 8 b.locked_balance

  abbrev pub worth_in : ℕ → Balance → ℤ
  worth_in asset b = if b.asset_id == asset then worth b else pos 0

  -- All that the users hold of an asset.
  unfoldable pub total : ℕ → List Balance → ℤ
  total asset [] = pos 0
  total asset (b ∷ rows) = worth_in asset b +ℤ total asset rows

  pub total-update :
      (f : Balance → Balance) (keeps : KeepsKeys f) (c u a : ℕ) (rows : List Balance) (b : Balance)
      → IsTable rows
      → first (owns u a) rows ≡ some b
      → total c (update_rows (has_id b.id) f rows) +ℤ worth_in c b
        ≡ total c rows +ℤ worth_in c (f b)
  unfolding total
  total-update f keeps c u a [] b t e = cc
  total-update f keeps c u a (r ∷ rows) b t e = elim (Bool-cases (owns u a r)) [
    | inl here ↦
        let same : r ≡ b = some-injective _ _ (rw here at e) in
        let gone : update_rows (has_id b.id) f rows ≡ rows = update-absent f b.id rows (
          subst (λ (x : Balance). All (λ r'. r'.id ≢ x.id) rows) same
            (All-imp (Differ r) (λ r'. r'.id ≢ r.id) rows (λ r' d. d.0) t.0)) in
        rw (gone, same, ==_refl b.id) (omega int_laws)
    | inr later ↦
        let tail : first (owns u a) rows ≡ some b = rw later at e in
        let other : b.id ≢ r.id = (first-All (Differ r) (owns u a) rows b t.0 tail).0 in
        let skip : has_id b.id r ≡ false = ground arith in
        rw skip (add_inside (worth_in c r) _ _ _ _ (total-update f keeps c u a rows b t.1 tail))
  ]
