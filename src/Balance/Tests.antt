-- ===== src/Balance/Tests.antt =====
-- Runs of the balance service, and its theorems at the sample store.
use perpetual_futures_exchan.Prelude.{◌≤◌, ◌≡◌, refl, some, [], ◌∷◌, arith}
use perpetual_futures_exchan.Big.{Code}
use perpetual_futures_exchan.Decimal.{places, sub, add, gt, gte}
use perpetual_futures_exchan.Store.Exact.{plain_js, exact_pg, exact_pg-IsPostgres}
use perpetual_futures_exchan.Store.Sample.{sample, balance, n0, n3, n9}
use perpetual_futures_exchan.Store.Monad.{err, insufficient_balance}
use perpetual_futures_exchan.Balance.{balance_of, lock_balance, unlock_balance, debit_locked}
use perpetual_futures_exchan.Balance.Moved.{IsLedger}
use perpetual_futures_exchan.Balance.Lock.{Locks, lock_balance-Locks}
use perpetual_futures_exchan.Balance.Release.{
  Unlocks, Debits, unlock_balance-Unlocks, debit_locked-Debits,
}

sample-IsLedger : IsLedger sample
unfolding Code
sample-IsLedger = record { table = ground arith; sound = ground arith }

n3-places : places n3 ≤ 8
unfolding Code
n3-places = omega arith

lock_run :
    balance_of 1 10 (lock_balance 1 10 n3 sample).1
    ≡ some (record (balance 41 1 10 (b'6' ∷ []) (b'5' ∷ [])) { updated_at = 5 })
unfolding Code lock_balance sub add gt gte
lock_run = refl

lock_refused : (lock_balance 2 11 n9 sample).0 ≡ err insufficient_balance
unfolding Code lock_balance sub add gt gte
lock_refused = refl

-- Two are locked, so two of the three asked for are released.
unlock_run :
    balance_of 1 10 (unlock_balance 1 10 n3 sample).1
    ≡ some (record (balance 41 1 10 (b'1' ∷ b'1' ∷ []) n0) { updated_at = 5 })
unfolding Code unlock_balance gt
unlock_run = refl

lock_balance-Locks_example : Locks 1 10 n3 sample (lock_balance 1 10 n3 sample)
lock_balance-Locks_example =
    lock_balance-Locks exact_pg-IsPostgres 1 10 n3 sample n3-places sample-IsLedger

unlock_balance-Unlocks_example : Unlocks 1 10 n3 sample (unlock_balance 1 10 n3 sample)
unlock_balance-Unlocks_example =
    unlock_balance-Unlocks exact_pg-IsPostgres 1 10 n3 sample n3-places sample-IsLedger

debit_locked-Debits_example : Debits 1 10 n3 sample (debit_locked 1 10 n3 sample)
debit_locked-Debits_example =
    debit_locked-Debits exact_pg-IsPostgres 1 10 n3 sample n3-places sample-IsLedger
