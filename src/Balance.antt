-- ===== src/Balance.antt =====
-- Server/src/services/balanceService.ts: reading, creating and moving balances.
pub mod Table
pub mod Moved
pub mod Fresh
pub mod Holdings
pub mod Stored
pub mod Lock
pub mod Release
mod Tests
use perpetual_futures_exchan.Prelude.{
  ℕ, suc, ◌+◌, Bool, true, false, not, ◌&&◌, Option, none, some, List, [], ◌∷◌, ◌++◌, ◌==◌,
  if◌then◌else◌, map,
}
use perpetual_futures_exchan.Big
use perpetual_futures_exchan.Big.{Js}
use perpetual_futures_exchan.Decimal.{DecStr, zero_text, dec, add, sub, gt, gte}
use perpetual_futures_exchan.Store.{Db, Asset, Balance}
use perpetual_futures_exchan.Store.Rows.{first, where_, update_rows}
use perpetual_futures_exchan.Store.Monad.{
  Action, pure, throw, done, ◌>>=◌, ◌>>◌, gets, modify, throw_if, or_throw, transaction,
  asset_not_found, amount_must_be_positive, insufficient_balance, balance_not_found, deposit_failed,
  withdraw_failed, numeric_field_overflow,
}
use perpetual_futures_exchan.Store.Numeric.{Postgres}

-- `eq(balances.userId, userId) and eq(balances.assetId, assetId)`
abbrev pub owns : ℕ → ℕ → Balance → Bool
owns user_id asset_id b = b.user_id == user_id && b.asset_id == asset_id

abbrev pub has_id : ℕ → Balance → Bool
has_id id b = b.id == id

abbrev pub balance_of : ℕ → ℕ → Db → Option Balance
balance_of user_id asset_id db = first (owns user_id asset_id) db.balances

-- What `getOrCreateBalance` returns.
pub record BalanceView : Type 0 where
  pub id : ℕ
  pub user_id : ℕ
  pub asset_id : ℕ
  pub symbol : ℕ
  pub available : DecStr
  pub locked : DecStr

abbrev pub view : ℕ → Balance → BalanceView
view symbol b = record {
  id = b.id;
  user_id = b.user_id;
  asset_id = b.asset_id;
  symbol = symbol;
  available = b.available_balance;
  locked = b.locked_balance;
}

-- What a deposit and a withdrawal return.
pub record Receipt : Type 0 where
  pub asset : ℕ
  pub available : DecStr
  pub locked : DecStr

abbrev pub receipt : ℕ → Balance → Receipt
receipt symbol b = record {
  asset = symbol;
  available = b.available_balance;
  locked = b.locked_balance;
}

-- `update(balances).set(...).where(eq(balances.id, id))`
abbrev pub update_balance : ℕ → (Balance → Balance) → Db → Db
update_balance id f db = record db { balances = update_rows (has_id id) f db.balances }

module _ ⦃js : Js⦄ ⦃pg : Postgres⦄ where
  abbrev pub write_column : DecStr → Action DecStr
  write_column t = or_throw (pg.column t) numeric_field_overflow

  insert_balance : ℕ → ℕ → Action Balance
  insert_balance user_id asset_id = do
    zero ← write_column zero_text
    db ← gets (λ db. db)
    let row : Balance = record {
      id = db.next_id;
      user_id = user_id;
      asset_id = asset_id;
      available_balance = zero;
      locked_balance = zero;
      updated_at = db.clock;
    }
    modify (λ db. record db { balances = db.balances ++ (row ∷ []); next_id = suc db.next_id })
    pure row

  unfoldable pub get_or_create_balance : ℕ → ℕ → Action BalanceView
  unfolding insert_balance
  get_or_create_balance user_id asset_symbol = do
    asset ←
        or_throw (← gets (λ db. first (λ a. a.symbol == asset_symbol) db.assets)) asset_not_found
    existing ← gets (balance_of user_id asset.id)
    elim existing [
      | some b ↦ pure (view asset.symbol b)
      | none ↦ insert_balance user_id asset.id >>= λ b. pure (view asset.symbol b)
    ]

  -- The column is added to in SQL.
  unfoldable pub deposit : ℕ → ℕ → DecStr → Action Receipt
  unfolding get_or_create_balance
  deposit user_id asset_symbol amount = do
    throw_if (not (gt amount zero_text)) amount_must_be_positive
    bal ← get_or_create_balance user_id asset_symbol
    now ← gets (λ db. db.clock)
    available ← write_column (pg.sum bal.available amount)
    modify
        (update_balance bal.id (λ b. record b { available_balance = available; updated_at = now }))
    updated ← or_throw (← gets (λ db. first (has_id bal.id) db.balances)) deposit_failed
    pure (receipt asset_symbol updated)

  unfoldable pub withdraw : ℕ → ℕ → DecStr → Action Receipt
  unfolding get_or_create_balance
  withdraw user_id asset_symbol amount = do
    throw_if (not (gt amount zero_text)) amount_must_be_positive
    bal ← get_or_create_balance user_id asset_symbol
    throw_if (not (gte bal.available amount)) insufficient_balance
    now ← gets (λ db. db.clock)
    available ← write_column (sub bal.available amount)
    modify
        (update_balance bal.id (λ b. record b { available_balance = available; updated_at = now }))
    updated ← or_throw (← gets (λ db. first (has_id bal.id) db.balances)) withdraw_failed
    pure (receipt asset_symbol updated)

  -- The body of the transaction in `lockBalance`.
  unfoldable pub lock_row : ℕ → ℕ → DecStr → Action (Unit {0})
  lock_row user_id asset_id amount = do
    bal ← or_throw (← gets (balance_of user_id asset_id)) balance_not_found
    throw_if (not (gte bal.available_balance amount)) insufficient_balance
    now ← gets (λ db. db.clock)
    available ← write_column (sub bal.available_balance amount)
    locked ← write_column (add bal.locked_balance amount)
    modify (
        update_balance bal.id (λ b. record b {
          available_balance = available;
          locked_balance = locked;
          updated_at = now;
        }))

  unfoldable pub lock_balance : ℕ → ℕ → DecStr → Action (Unit {0})
  unfolding lock_row
  lock_balance user_id asset_id amount =
      if gt amount zero_text then transaction (lock_row user_id asset_id amount) else done

  -- `currentlyLocked.gte(D(amount)) ? D(amount) : currentlyLocked`
  abbrev pub at_most_locked : Balance → DecStr → Big.Big
  at_most_locked bal amount =
      if Big.gte (dec bal.locked_balance) (dec amount) then dec amount else dec bal.locked_balance

  unlock_found : DecStr → Option Balance → Action (Unit {0})
  unlock_found amount none = done
  unlock_found amount (some bal) = do
    let unlock_qty = at_most_locked bal amount
    now ← gets (λ db. db.clock)
    available ← write_column (Big.to_text (Big.plus (dec bal.available_balance) unlock_qty))
    locked ← write_column (Big.to_text (Big.minus (dec bal.locked_balance) unlock_qty))
    modify (
        update_balance bal.id (λ b. record b {
          available_balance = available;
          locked_balance = locked;
          updated_at = now;
        }))

  -- More than is locked is never released.
  unfoldable pub unlock_balance : ℕ → ℕ → DecStr → Action (Unit {0})
  unfolding unlock_found
  unlock_balance user_id asset_id amount =
      if gt amount zero_text
      then transaction (gets (balance_of user_id asset_id) >>= unlock_found amount)
      else done

  debit_found : DecStr → Option Balance → Action (Unit {0})
  debit_found amount none = done
  debit_found amount (some bal) = do
    now ← gets (λ db. db.clock)
    locked ←
        write_column (Big.to_text (Big.minus (dec bal.locked_balance) (at_most_locked bal amount)))
    modify (update_balance bal.id (λ b. record b { locked_balance = locked; updated_at = now }))

  unfoldable pub debit_locked : ℕ → ℕ → DecStr → Action (Unit {0})
  unfolding debit_found
  debit_locked user_id asset_id amount =
      if gt amount zero_text
      then transaction (gets (balance_of user_id asset_id) >>= debit_found amount)
      else done

-- The inner join of balances with their assets.
unfoldable pub join_assets : List Asset → List Balance → List BalanceView
join_assets assets [] = []
join_assets assets (b ∷ rows) =
    let rest = join_assets assets rows in
    elim (first (λ a. a.id == b.asset_id) assets) [ none ↦ rest | some a ↦ view a.symbol b ∷ rest ]

unfoldable pub list_user_balances : ℕ → Db → List BalanceView
unfolding join_assets
list_user_balances user_id db =
    join_assets db.assets (where_ (λ b. b.user_id == user_id) db.balances)
