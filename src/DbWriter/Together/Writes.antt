-- ===== src/DbWriter/Together/Writes.antt =====
-- What the transaction writes itself keeps the two versions together.
use perpetual_futures_exchan.Prelude.{
  ℕ, ◌≡◌, sym, ◌∙◌, true, false, List, [], ◌∷◌, ◌++◌, arith, ◌==◌, ==_iff, if◌then◌else◌,
  Bool-cases, inl, inr, All, All-imp,
}
use mathlib.Core.Path.{subst}
use perpetual_futures_exchan.Store.{Balance}
use perpetual_futures_exchan.Store.Rows.{update_rows}
use perpetual_futures_exchan.Store.Session.{is_held}
use perpetual_futures_exchan.Balance.{has_id}
use perpetual_futures_exchan.Balance.Table.{KeepsKeys}
use perpetual_futures_exchan.DbWriter.Together.{Inserted, Pair, Together, is_own}

-- What the transaction writes itself: `k` is held from then on.
module _ (P : ℕ → Type 0) where
  pub grow-Together :
      (k : ℕ) (held : List ℕ) (outs ins : List Balance)
      → All (λ r. r.id ≡ k → P r.user_id) ins
      → Together P held outs ins
      → Together P (k ∷ held) outs ins
  grow-Together k held [] [] mine h = tt
  grow-Together k held [] (i ∷ ins) (m, mine) ((w, p), h) =
      ((ground (arith, w), p), grow-Together k held [] ins mine h)
  grow-Together k held (o ∷ outs) [] mine h = absurd h
  grow-Together k held (o ∷ outs) (i ∷ ins) (m, mine) (p, h) = (
    record {
      id_same = p.id_same;
      user_same = p.user_same;
      asset_same = p.asset_same;
      unwritten = λ e. p.unwritten (ground (arith, e));
      written = λ w. elim (Bool-cases (k == i.id)) [
        | inl same ↦ m (sym ((==_iff k i.id).0 same))
        | inr other ↦ p.written (rw other at w)
      ];
    },
    grow-Together k held outs ins mine h,
  )

  write-Inserted :
      (f : Balance → Balance) (keeps : KeepsKeys f) (k : ℕ) (held : List ℕ) (i : Balance)
      → Inserted P held i
      → Inserted P held (if has_id k i then f i else i)
  write-Inserted f keeps k held i (w, p) = elim (Bool-cases (has_id k i)) [
    | inl same ↦ rw (same, keeps.id_kept i, keeps.user_kept i) (w, p)
    | inr other ↦ rw other (w, p)
  ]

  write-Pair :
      (f : Balance → Balance) (keeps : KeepsKeys f) (k : ℕ) (held : List ℕ) (o i : Balance)
      → is_held k held ≡ true
      → Pair P held o i
      → Pair P held o (if has_id k i then f i else i)
  write-Pair f keeps k held o i taken p = elim (Bool-cases (has_id k i)) [
    | inl same ↦
        let here : is_own held i ≡ true =
          subst (λ n. is_held n held ≡ true) (sym ((==_iff i.id k).0 same)) taken in
        rw same (record {
          id_same = keeps.id_kept i ∙ p.id_same;
          user_same = keeps.user_kept i ∙ p.user_same;
          asset_same = keeps.asset_kept i ∙ p.asset_same;
          unwritten = λ e. let no_row : false ≡ true = sym (rw (keeps.id_kept i) at e) ∙ here in cc;
          written = λ w. rw (keeps.user_kept i) (p.written here);
        })
    | inr other ↦ rw other p
  ]

  pub write-Together :
      (f : Balance → Balance) (keeps : KeepsKeys f) (k : ℕ) (held : List ℕ)
      (outs ins : List Balance)
      → is_held k held ≡ true
      → Together P held outs ins
      → Together P held outs (update_rows (has_id k) f ins)
  write-Together f keeps k held [] [] taken h = tt
  write-Together f keeps k held [] (i ∷ ins) taken ((w, p), h) =
      (write-Inserted f keeps k held i (w, p), write-Together f keeps k held [] ins taken h)
  write-Together f keeps k held (o ∷ outs) [] taken h = absurd h
  write-Together f keeps k held (o ∷ outs) (i ∷ ins) taken (p, h) =
      (write-Pair f keeps k held o i taken p, write-Together f keeps k held outs ins taken h)

  pub append-Together :
      (row : Balance) (held : List ℕ) (outs ins : List Balance)
      → is_own held row ≡ true
      → P row.user_id
      → Together P held outs ins
      → Together P held outs (ins ++ (row ∷ []))
  append-Together row held [] [] taken mine h = ((taken, mine), tt)
  append-Together row held [] (i ∷ ins) taken mine (p, h) =
      (p, append-Together row held [] ins taken mine h)
  append-Together row held (o ∷ outs) [] taken mine h = absurd h
  append-Together row held (o ∷ outs) (i ∷ ins) taken mine (p, h) =
      (p, append-Together row held outs ins taken mine h)

pub widen-Together :
    (P Q : ℕ → Type 0) (held : List ℕ) (outs ins : List Balance)
    → ((v : ℕ) → P v → Q v)
    → Together P held outs ins
    → Together Q held outs ins
widen-Together P Q held [] ins f h =
    All-imp (Inserted P held) (Inserted Q held) ins (λ i w. (w.0, f i.user_id w.1)) h
widen-Together P Q held (o ∷ outs) [] f h = absurd h
widen-Together P Q held (o ∷ outs) (i ∷ ins) f (p, h) = (
  record {
    id_same = p.id_same;
    user_same = p.user_same;
    asset_same = p.asset_same;
    unwritten = p.unwritten;
    written = λ w. f i.user_id (p.written w);
  },
  widen-Together P Q held outs ins f h,
)
