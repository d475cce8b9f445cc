-- ===== src/DbWriter/Together.antt =====
-- The two versions of the balances during the transaction of a trade: a row that the transaction has
-- not written is the same in both, and what it has written belongs to one of its users.
pub mod Writes
use perpetual_futures_exchan.Prelude.{
  ℕ, ◌≡◌, refl, sym, ap, ◌∙◌, Bool, true, false, none, some, List, [], ◌∷◌, ◌++◌, arith, ◌==◌,
  ==_iff, if◌then◌else◌, Bool-cases, inl, inr, All, All-imp,
}
use mathlib.Core.Option.{some-injective}
use mathlib.Core.Path.{subst}
use perpetual_futures_exchan.Store.{Balance}
use perpetual_futures_exchan.Store.Rows.{first, update_rows}
use perpetual_futures_exchan.Store.Session.{is_held, seen}
use perpetual_futures_exchan.Balance.{owns, has_id}
use perpetual_futures_exchan.Balance.Table.{KeepsKeys}

abbrev pub is_own : List ℕ → Balance → Bool
is_own held b = is_held b.id held

-- A row outside and the same row inside.
pub record Pair (P : ℕ → Type 0) (held : List ℕ) (o i : Balance) : Type 0 where
  pub id_same : i.id ≡ o.id
  pub user_same : i.user_id ≡ o.user_id
  pub asset_same : i.asset_id ≡ o.asset_id
  pub unwritten : is_own held i ≡ false → i ≡ o
  pub written : is_own held i ≡ true → P i.user_id

-- A row that only the transaction has.
abbrev pub Inserted : (ℕ → Type 0) → List ℕ → Balance → Type 0
Inserted P held i = (is_own held i ≡ true) × P i.user_id

abbrev pub Together : (ℕ → Type 0) → List ℕ → (outs ins : List Balance) → Type 0
Together P held [] ins = All (Inserted P held) ins
Together P held (o ∷ outs) [] = ⊥
Together P held (o ∷ outs) (i ∷ ins) = Pair P held o i × Together P held outs ins

pub Together-refl : (P : ℕ → Type 0) (rows : List Balance) → Together P [] rows rows
Together-refl P [] = tt
Together-refl P (r ∷ rows) = (
  record {
    id_same = refl;
    user_same = refl;
    asset_same = refl;
    unwritten = λ e. refl;
    written = λ e. cc;
  },
  Together-refl P rows,
)

pub owner : (u a : ℕ) (b : Balance) → owns u a b ≡ true → b.user_id ≡ u
owner u a b e = ground arith

module _ (P : ℕ → Type 0) (held : List ℕ) where
  same_owner : (u a : ℕ) (o i : Balance) → Pair P held o i → owns u a i ≡ owns u a o
  same_owner u a o i p = rw (p.user_same, p.asset_same)

  Pair-refl : (r : Balance) → is_own held r ≡ false → Pair P held r r
  Pair-refl r fresh = record {
    id_same = refl;
    user_same = refl;
    asset_same = refl;
    unwritten = λ e. refl;
    written = λ w. cc;
  }

  -- A row of a user outside `P` is not written.
  unowned :
      (u a : ℕ) (o i : Balance)
      → (P u → ⊥)
      → Pair P held o i
      → owns u a i ≡ true
      → (is_own held i ≡ false) × (i ≡ o)
  unowned u a o i out p mine = elim (Bool-cases (is_own held i)) [
    | inl w ↦ absurd (out (subst P (owner u a i mine) (p.written w)))
    | inr fresh ↦ (fresh, p.unwritten fresh)
  ]

  first-Inserted :
      (u a : ℕ) (ins : List Balance)
      → (P u → ⊥)
      → All (Inserted P held) ins
      → first (owns u a) ins ≡ none
  first-Inserted u a [] out h = refl
  first-Inserted u a (i ∷ ins) out ((w, p), h) = elim (Bool-cases (owns u a i)) [
    | inl mine ↦ absurd (out (subst P (owner u a i mine) p))
    | inr other ↦ rw other (first-Inserted u a ins out h)
  ]

  -- A user who has no written row has the same balances inside and outside.
  pub first-Together :
      (u a : ℕ) (outs ins : List Balance)
      → (P u → ⊥)
      → Together P held outs ins
      → first (owns u a) ins ≡ first (owns u a) outs
  first-Together u a [] ins out h = first-Inserted u a ins out h
  first-Together u a (o ∷ outs) [] out h = absurd h
  first-Together u a (o ∷ outs) (i ∷ ins) out (p, h) =
      let ih = first-Together u a outs ins out h in
      elim (Bool-cases (owns u a i)) [
        | inl mine ↦
            rw (sym (same_owner u a o i p) ∙ mine, mine) (ap some (unowned u a o i out p mine).1)
        | inr other ↦ rw (sym (same_owner u a o i p) ∙ other, other) ih
      ]

  pub first-unheld :
      (u a : ℕ) (outs ins : List Balance) (b : Balance)
      → (P u → ⊥)
      → Together P held outs ins
      → first (owns u a) outs ≡ some b
      → is_own held b ≡ false
  first-unheld u a [] ins b out h e = cc
  first-unheld u a (o ∷ outs) [] b out h e = absurd h
  first-unheld u a (o ∷ outs) (i ∷ ins) b out (p, h) e =
      let ih = first-unheld u a outs ins b out h in
      elim (Bool-cases (owns u a o)) [
        | inl mine ↦
            let (fresh, same) = unowned u a o i out p (same_owner u a o i p ∙ mine) in
            subst (λ r. is_own held r ≡ false) (same ∙ some-injective _ _ (rw mine at e)) fresh
        | inr other ↦ ih (rw other at e)
      ]

  -- Nothing has changed outside since.
  pub seen-Together :
      (outs ins : List Balance) → Together P held outs ins → seen (is_own held) outs ins ≡ ins
  seen-Together [] ins h = refl
  seen-Together (o ∷ outs) [] h = absurd h
  seen-Together (o ∷ outs) (i ∷ ins) (p, h) =
      let rest = seen-Together outs ins h in
      elim (Bool-cases (is_own held i)) [
        | inl w ↦ rw (w, rest)
        | inr fresh ↦ rw (fresh, rest, p.unwritten fresh)
      ]

  -- An update of a row that the transaction has not written, made outside and then seen inside.
  module _ (f : Balance → Balance) (keeps : KeepsKeys f) (k : ℕ)
      (free : is_held k held ≡ false) where
    inserted_other : (i : Balance) → is_own held i ≡ true → has_id k i ≡ false
    inserted_other i w = elim (Bool-cases (has_id k i)) [
      | inl same ↦
          let e : i.id ≡ k = (==_iff i.id k).0 same in
          let taken : is_held k held ≡ true = subst (λ n. is_held n held ≡ true) e w in
          let no_row : false ≡ true = sym free ∙ taken in cc
      | inr other ↦ other
    ]

    update-Inserted :
        (ins : List Balance) → All (Inserted P held) ins → update_rows (has_id k) f ins ≡ ins
    update-Inserted [] h = refl
    update-Inserted (i ∷ ins) ((w, p), h) = rw (inserted_other i w, update-Inserted ins h)

    updated_free :
        (i : Balance) → is_own held i ≡ false → is_own held (if has_id k i then f i else i) ≡ false
    updated_free i fresh = elim (Bool-cases (has_id k i)) [
      | inl same ↦ rw (same, keeps.id_kept i) fresh
      | inr other ↦ rw other fresh
    ]

    update-Pair :
        (o i : Balance)
        → Pair P held o i
        → ((if is_own held i then i else (if has_id k o then f o else o))
            ≡ (if has_id k i then f i else i))
          × Pair P held (if has_id k o then f o else o) (if has_id k i then f i else i)
    update-Pair o i p = elim (Bool-cases (is_own held i)) [
      | inl w ↦
          let other_i = inserted_other i w in
          let other_o : has_id k o ≡ false = rw p.id_same at other_i in
          rw (other_i, other_o, w) (refl, p)
      | inr fresh ↦
          let same = p.unwritten fresh in
          rw fresh (
            ap (λ (x : Balance). if has_id k x then f x else x) (sym same),
            subst
                (λ (x : Balance).
                  Pair P held (if has_id k x then f x else x) (if has_id k i then f i else i))
                same (Pair-refl (if has_id k i then f i else i) (updated_free i fresh)),
          )
    ]

    pub update-Together :
        (outs ins : List Balance)
        → Together P held outs ins
        → (seen (is_own held) (update_rows (has_id k) f outs) ins ≡ update_rows (has_id k) f ins)
          × Together P held (update_rows (has_id k) f outs) (update_rows (has_id k) f ins)
    update-Together [] ins h = rw (update-Inserted ins h) (refl, h)
    update-Together (o ∷ outs) [] h = absurd h
    update-Together (o ∷ outs) (i ∷ ins) (p, h) =
        let (row, pair) = update-Pair o i p in
        let (rows, rest) = update-Together outs ins h in (rw (row, rows), (pair, rest))
