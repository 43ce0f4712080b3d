-- ===== src/Database/Runner.antt =====
-- internal/platform/database/database.go: `TransactionRunner.RunTransaction`. What the context,
-- the timer and PostgreSQL do is given by attempt: an error of the context before it, an error
-- that aborts it in the place of a commit, an error of the sleep after it.
use shop_mall.Common.Base.{
  ℕ, zero, suc, Bool, true, false, not, ◌||◌, Option, none, some, ltb, ◌==◌, if◌then◌else◌,
}
use shop_mall.Database.Store.{Db, Error, Result, ok, err, Action, commit}

pub record Faults : Type 0 where
  pub context : ℕ → Option Error
  pub abort : ℕ → Option Error
  pub sleep : ℕ → Option Error

-- IsRetryableTransactionError: SQLSTATE 40P01 and 40001.
abbrev pub is_retryable : Error → Bool
is_retryable Error.deadlock = true
is_retryable Error.serialization_failure = true
is_retryable _ = false

-- IsUniqueViolationError: SQLSTATE 23505.
abbrev pub is_unique_violation : Error → Bool
is_unique_violation Error.unique_violation = true
is_unique_violation _ = false

-- DefaultTransactionAttempts
abbrev pub default_transaction_attempts : ℕ
default_transaction_attempts = 3

module _ {H A : Type 0} (faults : Faults) (body : Action H A) where
  -- One call of gorm's `Transaction`, which PostgreSQL may abort.
  unfoldable pub attempt : ℕ → Action H A
  attempt n db = elim (faults.abort n) [ none ↦ commit body db | some e ↦ (err e, db) ]

  -- What follows one attempt: a result or an error that is not retried is returned, and so is
  -- the error of the last attempt; otherwise the loop sleeps and goes on.
  unfoldable pub after_attempt : ℕ → Bool → Result A × Db H → Action H A → Result A × Db H
  after_attempt n last (ok a, db) again = (ok a, db)
  after_attempt n last (err e, db) again =
      if not (is_retryable e) || last
      then (err e, db)
      else elim (faults.sleep n) [ none ↦ again db | some s ↦ (err s, db) ]

  -- The loop from attempt `n` on, with `left` rounds left.
  unfoldable pub attempts_from : ℕ → ℕ → Action H A
  unfolding attempt after_attempt
  attempts_from zero n db = (err Error.attempts_exhausted, db)
  attempts_from (suc left) n db =
      let again = attempts_from left (suc n) in
      elim (faults.context n) [
        | some e ↦ (err e, db)
        | none ↦ after_attempt n (left == 0) (attempt n db) again
      ]

  -- `RunTransaction`; fewer than one attempt counts as one.
  unfoldable pub run_transaction : ℕ → Action H A
  unfolding attempts_from
  run_transaction max_attempts = attempts_from (if ltb max_attempts 1 then 1 else max_attempts) 1
