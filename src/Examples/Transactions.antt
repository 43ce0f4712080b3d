-- ===== src/Examples/Transactions.antt =====
-- Transactions that PostgreSQL aborts.
use shop_mall.Common.Base.{ℕ, ◌+◌, ◌<◌, ◌≡◌, refl, none, some, [], arith, ltb, if◌then◌else◌}
use shop_mall.Common.Int.{negsuc, ◌+ℤ◌, ◌-ℤ◌}
use shop_mall.Common.Int64.{neg64}
use shop_mall.Database.Store.{Db, Error, Result, ok, commit}
use shop_mall.Payment.Balance.{store_balance, adjust_balance}
use shop_mall.Examples.Shop.{shop}
use shop_mall.Database.Runner.{Faults, run_transaction, default_transaction_attempts}
use shop_mall.Database.Retry.{IsAtomic, run_transaction-IsAtomic, run_transaction-retries}

-- The first two attempts meet a deadlock.
abbrev busy : Faults
busy = record {
  context = λ n. none;
  abort = λ n. if ltb n 3 then some Error.deadlock else none;
  sleep = λ n. none;
}

-- A payment of thirty points.
abbrev pay : Db ℕ → Result ℕ × Db ℕ
pay db = adjust_balance 1 (negsuc 29) db

abbrev charged : Db ℕ
charged = (commit pay (shop [])).1

run_transaction-IsAtomic_example :
    IsAtomic busy pay (shop []) (run_transaction busy pay default_transaction_attempts (shop []))
run_transaction-IsAtomic_example =
    run_transaction-IsAtomic busy pay default_transaction_attempts (shop [])

aborted : (m : ℕ) → m < 2 → busy.abort (1 + m) ≡ some Error.deadlock
aborted m h = ground arith

paid_lem : commit pay (shop []) ≡ (ok 70, charged)
unfolding adjust_balance store_balance neg64 ◌+ℤ◌ ◌-ℤ◌
paid_lem = refl

run_transaction-retries_example :
    run_transaction busy pay default_transaction_attempts (shop []) ≡ (ok 70, charged)
run_transaction-retries_example =
    run_transaction-retries busy pay (λ n. refl) (λ n. refl) default_transaction_attempts 2
      (shop []) aborted refl (omega arith) 70 charged paid_lem
