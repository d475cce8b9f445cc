-- ===== src/Store/Session.antt =====
-- A transaction of PostgreSQL at READ COMMITTED whose body also runs statements on other connections of
-- the pool. Those commit at once, are seen inside the transaction, and wait for a row that the
-- transaction has written; since the transaction waits for them in turn, they then wait for ever.
use perpetual_futures_exchan.Prelude.{
  ℕ, Bool, false, ◌||◌, Option, none, some, List, [], ◌∷◌, ◌==◌, if◌then◌else◌,
}
use perpetual_futures_exchan.Store.{Db, Balance, Order}
use perpetual_futures_exchan.Store.Monad.{Action, Result, ok, err, Error}

-- What others see, what the transaction sees, and the balances that it has written.
pub record Session : Type 0 where
  pub outside : Db
  pub inside : Db
  pub held : List ℕ

pub data Reply (A : Type 0) : Type 0 where
  ended : Result A → Reply A
  waits : Reply A

abbrev pub Tx : Type 0 → Type 0
Tx A = Session → Reply A × Session

abbrev pub returned : {A : Type 0} → A → Tx A
returned a s = (ended (ok a), s)

abbrev pub skip : Tx (Unit {0})
skip s = (ended (ok tt), s)

abbrev pub reject : {A : Type 0} → Error → Tx A
reject e s = (ended (err e), s)

infixl 5 ◌>>=◌ ◌>>◌
abbrev pub ◌>>=◌ : {A B : Type 0} → Tx A → (A → Tx B) → Tx B
◌>>=◌ m f s =
    let (r, s') = m s in
    elim r [ ended (ok a) ↦ f a s' | ended (err e) ↦ (ended (err e), s') | waits ↦ (waits, s') ]

abbrev pub ◌>>◌ : {A B : Type 0} → Tx A → Tx B → Tx B
m >> k = m >>= λ _. k

abbrev pub is_held : ℕ → List ℕ → Bool
is_held id [] = false
is_held id (h ∷ held) = h == id || is_held id held

abbrev pub hold : Option ℕ → List ℕ → List ℕ
hold none held = held
hold (some id) held = id ∷ held

-- The rows that others have committed, in the transaction's own version where it has written one, and
-- the rows that it has inserted, which stand behind.
abbrev pub seen {ℓ} : {A : Type ℓ} → (A → Bool) → (outside inside : List A) → List A
seen own [] ins = ins
seen own (o ∷ outs) [] = o ∷ outs
seen own (o ∷ outs) (i ∷ ins) = (if own i then i else o) ∷ seen own outs ins

-- A statement of the transaction.
abbrev pub in_tx : {A : Type 0} → Action A → Tx A
in_tx m s = let (r, db') = m s.inside in (ended r, record s { inside = db' })

-- A statement of the transaction that writes the balance whose identifier it returns.
abbrev pub write_balance : Action (Option ℕ) → Tx (Unit {0})
write_balance m s =
    let (r, db') = m s.inside in
    elim r [
      | ok id ↦ (ended (ok tt), record s { inside = db'; held = hold id s.held })
      | err e ↦ (ended (err e), record s { inside = db' })
    ]

-- Balances and orders are what the other connections write.
abbrev pub see : List ℕ → Db → Db → Db
see held outside inside = record inside {
  balances = seen (λ (b : Balance). is_held b.id held) outside.balances inside.balances;
  orders = seen (λ (o : Order). false) outside.orders inside.orders;
}

-- A statement on another connection, which does not write a balance that the transaction holds.
abbrev pub elsewhere : {A : Type 0} → Action A → Tx A
elsewhere m s =
    let (r, db') = m s.outside in
    (ended r, record s { outside = db'; inside = see s.held db' s.inside })

-- The same, where it writes the given balance.
abbrev pub elsewhere_on : {A : Type 0} → Option Balance → Action A → Tx A
elsewhere_on none m s = elsewhere m s
elsewhere_on (some b) m s = if is_held b.id s.held then (waits, s) else elsewhere m s

-- `db.transaction(...)` of such a body.
abbrev pub commit : {A : Type 0} → Tx A → Db → Reply A × Db
commit m db =
    let (r, s) = m (record { outside = db; inside = db; held = [] }) in
    elim r [
      | ended (ok a) ↦ (ended (ok a), s.inside)
      | ended (err e) ↦ (ended (err e), s.outside)
      | waits ↦ (waits, s.outside)
    ]
