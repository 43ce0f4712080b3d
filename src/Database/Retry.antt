-- ===== src/Database/Retry.antt =====
-- What `RunTransaction` gives whatever fails around it.
use shop_mall.Common.Base.{
  ℕ, zero, suc, ◌+◌, ◌<◌, ◌≡◌, refl, inl, inr, Bool, false, none, some, arith, ltb, ◌==◌,
  if◌then◌else◌, Option-cases,
}
use shop_mall.Database.Store.{Db, Error, Result, ok, err, Action, commit}
use native.Mathlib.Nat.{add-zero}
use shop_mall.Database.Runner.{Faults, attempt, after_attempt, attempts_from, run_transaction}

suc_eq_zero : (n : ℕ) → (suc n == 0) ≡ false
suc_eq_zero n = ground arith

shift : (n m : ℕ) → suc n + m ≡ n + suc m
shift n m = omega arith

module _ {H A : Type 0} (faults : Faults) (body : Action H A) where
  -- A result is that of one committed run of the body; an error leaves the tables alone.
  abbrev pub IsAtomic : Db H → Result A × Db H → Type 0
  IsAtomic db (ok a, db') = (ok a, db') ≡ commit body db
  IsAtomic db (err e, db') = db' ≡ db

  commit-IsAtomic : (db : Db H) (out : Result A × Db H) → out ≡ commit body db → IsAtomic db out
  commit-IsAtomic db out h = ground (arith)

  attempt-eq-commit :
      (n : ℕ) (db : Db H) → faults.abort n ≡ none → attempt faults body n db ≡ commit body db
  unfolding attempt
  attempt-eq-commit n db clean = rw (clean, attempt)

  attempt-eq-err :
      (n : ℕ) (db : Db H) (e : Error)
      → faults.abort n ≡ some e
      → attempt faults body n db ≡ (err e, db)
  unfolding attempt
  attempt-eq-err n db e aborted = rw (aborted, attempt)

  attempt-IsAtomic : (n : ℕ) (db : Db H) → IsAtomic db (attempt faults body n db)
  attempt-IsAtomic n db = elim (Option-cases (faults.abort n)) [
    | inl clean ↦ commit-IsAtomic db (attempt faults body n db) (attempt-eq-commit n db clean)
    | inr (e, aborted) ↦ rw (attempt-eq-err n db e aborted, IsAtomic) refl
  ]

  after_attempt-IsAtomic :
      (n : ℕ) (last : Bool) (db : Db H) (out : Result A × Db H) (again : Action H A)
      → IsAtomic db out
      → IsAtomic db (again db)
      → IsAtomic db (after_attempt faults body n last out again)
  unfolding after_attempt
  after_attempt-IsAtomic n last db (ok a, db') again h k = h
  after_attempt-IsAtomic n last db (err e, db') again h k = ground arith

  attempts_from-IsAtomic :
      (left n : ℕ) (db : Db H) → IsAtomic db (attempts_from faults body left n db)
  unfolding attempts_from
  attempts_from-IsAtomic zero n db = refl
  attempts_from-IsAtomic (suc left) n db = elim (Option-cases (faults.context n)) [
    | inl go ↦
        rw (go, attempts_from)
          (after_attempt-IsAtomic n (left == 0) db (attempt faults body n db)
            (attempts_from faults body left (suc n)) (attempt-IsAtomic n db)
            (attempts_from-IsAtomic left (suc n) db))
    | inr (e, stop) ↦ rw (stop, attempts_from) refl
  ]

  -- However often the attempts are aborted, and wherever the context or the sleep fails: a
  -- transaction either ends as one committed run of its body, or fails and changes no table.
  pub run_transaction-IsAtomic :
      (max_attempts : ℕ) (db : Db H) → IsAtomic db (run_transaction faults body max_attempts db)
  unfolding run_transaction
  run_transaction-IsAtomic max_attempts db =
      attempts_from-IsAtomic (if ltb max_attempts 1 then 1 else max_attempts) 1 db

  module _ (calm : (n : ℕ) → faults.context n ≡ none)
      (rested : (n : ℕ) → faults.sleep n ≡ none) where
    attempts_from-eq-commit :
        (k left n : ℕ) (db : Db H)
        → ((m : ℕ) → m < k → faults.abort (n + m) ≡ some Error.deadlock)
        → faults.abort (n + k) ≡ none
        → k < left
        → (a : A) (db' : Db H) → commit body db ≡ (ok a, db')
        → attempts_from faults body left n db ≡ (ok a, db')
    unfolding attempts_from
    attempts_from-eq-commit zero (suc left) n db busy free room a db' done =
        rw (calm n, attempts_from)
          (rw (attempt-eq-commit n db (rw add-zero at free)) (rw done refl))
    attempts_from-eq-commit (suc k) (suc zero) n db busy free room a db' done = absurd (omega arith)
    attempts_from-eq-commit (suc k) (suc (suc left)) n db busy free room a db' done =
        let aborted : faults.abort n ≡ some Error.deadlock =
          rw add-zero at (busy 0 (omega arith)) in
        let rest =
          attempts_from-eq-commit k (suc left) (suc n) db
            (λ m h. rw (shift n m) (busy (suc m) (omega arith))) (rw (shift n k) free) (omega arith)
            a db' done in
        rw (calm n, attempts_from)
          (rw (attempt-eq-err n db Error.deadlock aborted)
            (rw (suc_eq_zero left) (rw (rested n, after_attempt) rest)))
    attempts_from-eq-commit k zero n db busy free room a db' done = absurd (omega arith)

    -- A transaction whose first `k` attempts PostgreSQL aborts by a deadlock, fewer than the
    -- attempts allowed, gives what its body commits at the next one.
    pub run_transaction-retries :
        (max_attempts k : ℕ) (db : Db H)
        → ((m : ℕ) → m < k → faults.abort (1 + m) ≡ some Error.deadlock)
        → faults.abort (1 + k) ≡ none
        → k < max_attempts
        → (a : A) (db' : Db H) → commit body db ≡ (ok a, db')
        → run_transaction faults body max_attempts db ≡ (ok a, db')
    unfolding run_transaction
    run_transaction-retries max_attempts k db busy free room a db' done =
        attempts_from-eq-commit k (if ltb max_attempts 1 then 1 else max_attempts) 1 db busy free
          (ground arith) a db' done
