-- ===== src/Store/Monad.antt =====
-- Services run against the store and may throw. What was written stays written after a throw, unless
-- the writes stand in a `db.transaction`.
use perpetual_futures_exchan.Prelude.{ℕ, Bool, true, false, Option, none, some, ◌≡◌, arith}
use perpetual_futures_exchan.Store.{Db}

-- The messages that the services throw, and the failures of PostgreSQL and Redis.
pub data Error : Type 0 where
  asset_not_found amount_must_be_positive insufficient_balance balance_not_found : Error
  market_not_found market_not_active quantity_must_be_positive quantity_below_min : Error
  quantity_above_max limit_order_requires_price price_must_be_positive leverage_exceeds_max : Error
  market_buy_requires_price_for_margin_calc order_not_found order_not_cancellable : Error
  position_not_found position_not_open : Error
  market_missing deposit_failed withdraw_failed : Error
  division_by_zero numeric_field_overflow integer_out_of_range redis_error : Error
  foreign_key_violation transaction_aborted : Error

-- `err.status ?? 500`
unfoldable pub status : Error → ℕ
status asset_not_found = 404
status amount_must_be_positive = 400
status insufficient_balance = 400
status balance_not_found = 400
status market_not_found = 404
status market_not_active = 400
status quantity_must_be_positive = 400
status quantity_below_min = 400
status quantity_above_max = 400
status limit_order_requires_price = 400
status price_must_be_positive = 400
status leverage_exceeds_max = 400
status market_buy_requires_price_for_margin_calc = 400
status order_not_found = 404
status position_not_found = 404
status position_not_open = 400
status order_not_cancellable = 400
status _ = 500

pub data Result {ℓ} (A : Type ℓ) : Type ℓ where
  ok : A → Result A
  err : Error → Result A

abbrev pub Action : Type 0 → Type 0
Action A = Db → Result A × Db

abbrev pub pure : {A : Type 0} → A → Action A
pure a db = (ok a, db)

abbrev pub throw : {A : Type 0} → Error → Action A
throw e db = (err e, db)

abbrev pub done : Action (Unit {0})
done db = (ok tt, db)

infixl 5 ◌>>=◌ ◌>>◌
abbrev pub ◌>>=◌ : {A B : Type 0} → Action A → (A → Action B) → Action B
◌>>=◌ m f db = let (r, db') = m db in elim r [ ok a ↦ f a db' | err e ↦ (err e, db') ]

abbrev pub ◌>>◌ : {A B : Type 0} → Action A → Action B → Action B
m >> k = m >>= λ _. k

abbrev pub gets : {A : Type 0} → (Db → A) → Action A
gets f db = (ok (f db), db)

abbrev pub modify : (Db → Db) → Action (Unit {0})
modify f db = (ok tt, f db)

abbrev pub throw_if : Bool → Error → Action (Unit {0})
throw_if true e db = (err e, db)
throw_if false e db = (ok tt, db)

abbrev pub or_throw : {A : Type 0} → Option A → Error → Action A
or_throw none e db = (err e, db)
or_throw (some a) e db = (ok a, db)

-- `db.transaction(...)`: a throw takes the writes back.
abbrev pub transaction : {A : Type 0} → Action A → Action A
transaction m db = let (r, db') = m db in elim r [ ok a ↦ (ok a, db') | err e ↦ (err e, db) ]

-- `try { ... } catch { ... }`
abbrev pub catch_all : {A : Type 0} → Action A → Action A → Action A
catch_all m handler db = let (r, db') = m db in elim r [ ok a ↦ (ok a, db') | err e ↦ handler db' ]

-- The rest of a block runs after a step that succeeded, and not after one that failed.
pub then_ok :
    {A B : Type 0} (m : Action A) (k : Action B) (db db' : Db) (a : A)
    → m db ≡ (ok a, db')
    → (m >> k) db ≡ k db'
then_ok m k db db' a e = ground arith

pub then_err :
    {A B : Type 0} (m : Action A) (k : Action B) (db db' : Db) (e : Error)
    → m db ≡ (err e, db')
    → (m >> k) db ≡ (err e, db')
then_err m k db db' e h = ground arith

pub bind_ok :
    {A B : Type 0} (m : Action A) (k : A → Action B) (db db' : Db) (a : A)
    → m db ≡ (ok a, db')
    → (m >>= k) db ≡ k a db'
bind_ok m k db db' a e = ground arith

pub bind_err :
    {A B : Type 0} (m : Action A) (k : A → Action B) (db db' : Db) (e : Error)
    → m db ≡ (err e, db')
    → (m >>= k) db ≡ (err e, db')
bind_err m k db db' e h = ground arith

pub catch_ok :
    {A : Type 0} (m handler : Action A) (db db' : Db) (a : A)
    → m db ≡ (ok a, db')
    → catch_all m handler db ≡ (ok a, db')
catch_ok m handler db db' a e = ground arith

pub catch_err :
    {A : Type 0} (m handler : Action A) (db db' : Db) (e : Error)
    → m db ≡ (err e, db')
    → catch_all m handler db ≡ handler db'
catch_err m handler db db' e h = ground arith

pub then_same :
    {A B : Type 0} (m n : Action A) (k : Action B) (db : Db)
    → m db ≡ n db
    → (m >> k) db ≡ (n >> k) db
then_same m n k db e = ground arith
