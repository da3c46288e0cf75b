-- ===== src/Ingester/Retries.antt =====
-- internal/pipeline/ingester/ingester.go: processBatchWithRetry. What an attempt comes to is a
-- function of its number, and so is whether the pause after it runs to its end.
use multichain_indexer.Prelude.{
  ◌==◌, ==_iff, Bool-cases, ℤ, pos, negsuc, ℕ, zero, suc, ◌+◌, ◌-◌, ◌≤◌, ◌<◌, ◌≡◌, refl, ap, ◌∙◌,
  inl, inr, Bool, true, false, arith,
}

-- How processBatch ends: an error comes with a context that is done, or is terminal or transient.
pub data Attempt : Type 0 where
  succeeds context_done fails_terminal fails_transient : Attempt

pub data RetryResult : Type 0 where
  returned_nil returned_context_error terminal_failure pause_interrupted recovery_exhausted :
      RetryResult

unfoldable pub effective_retry_max_attempts : ℤ → ℕ
effective_retry_max_attempts (pos zero) = 1
effective_retry_max_attempts (pos (suc n)) = suc n
effective_retry_max_attempts (negsuc n) = 1

module _ (process : ℕ → Attempt) (pauses : ℕ → Bool) where
  -- One attempt, with the result of the attempts after it; the last one has no pause.
  unfoldable pub after_attempt : Attempt → Bool → ℕ → ℕ → RetryResult × ℕ → RetryResult × ℕ
  after_attempt succeeds paused left attempt rest = (returned_nil, attempt)
  after_attempt context_done paused left attempt rest = (returned_context_error, attempt)
  after_attempt fails_terminal paused left attempt rest = (terminal_failure, attempt)
  after_attempt fails_transient paused zero attempt rest = (recovery_exhausted, attempt)
  after_attempt fails_transient true (suc left) attempt rest = rest
  after_attempt fails_transient false (suc left) attempt rest = (pause_interrupted, attempt)

  -- The loop with `left` attempts after this one.
  unfoldable pub retry_from : ℕ → ℕ → RetryResult × ℕ
  retry_from zero attempt =
      after_attempt (process attempt) (pauses attempt) zero attempt (recovery_exhausted, attempt)
  retry_from (suc left) attempt =
      after_attempt (process attempt) (pauses attempt) (suc left) attempt
        (retry_from left (suc attempt))

  -- The result, and the number of attempts made.
  unfoldable pub process_batch_with_retry : ℤ → RetryResult × ℕ
  process_batch_with_retry retry_max_attempts =
      retry_from (effective_retry_max_attempts retry_max_attempts - 1) 1

  -- What the result says of the last attempt, of at most `most`.
  unfoldable pub Explains : ℕ → RetryResult → ℕ → Type 0
  Explains most returned_nil n = process n ≡ succeeds
  Explains most returned_context_error n = process n ≡ context_done
  Explains most terminal_failure n = process n ≡ fails_terminal
  Explains most pause_interrupted n =
      (process n ≡ fails_transient) × (pauses n ≡ false) × (n < most)
  Explains most recovery_exhausted n = (process n ≡ fails_transient) × (n ≡ most)

  -- A run whose first attempt is `first` and whose last may be `most`.
  unfoldable pub RunsFrom : ℕ → ℕ → RetryResult × ℕ → Type 0
  RunsFrom first most (result, n) =
      (first ≤ n)
      × (n ≤ most)
      × ((k : ℕ) → first ≤ k → k < n → (process k ≡ fails_transient) × (pauses k ≡ true))
      × Explains most result n

  at_once :
      (result : RetryResult) (n most : ℕ)
      → n ≤ most
      → Explains most result n
      → RunsFrom n most (result, n)
  unfolding RunsFrom
  at_once result n most h e = (omega arith, h, λ k p q. absurd (omega arith), e)

  one_more :
      (n most : ℕ) (rest : RetryResult × ℕ)
      → process n ≡ fails_transient
      → pauses n ≡ true
      → RunsFrom (suc n) most rest
      → RunsFrom n most rest
  unfolding RunsFrom
  one_more n most (result, m) e p (a, b, c, d) = (
    omega arith,
    b,
    λ k q r. elim (Bool-cases (k == n)) [
      | inl h ↦ let w = (==_iff k n).0 h in (ap process w ∙ e, ap pauses w ∙ p)
      | inr h ↦ c k (ground arith) r
    ],
    d,
  )

  after_attempt-RunsFrom :
      (a : Attempt) (p : Bool) (left n most : ℕ) (rest : RetryResult × ℕ)
      → process n ≡ a
      → pauses n ≡ p
      → n + left ≡ most
      → (0 < left → RunsFrom (suc n) most rest)
      → RunsFrom n most (after_attempt a p left n rest)
  unfolding after_attempt Explains
  after_attempt-RunsFrom succeeds p left n most rest e q s h =
      at_once returned_nil n most (omega arith) e
  after_attempt-RunsFrom context_done p left n most rest e q s h =
      at_once returned_context_error n most (omega arith) e
  after_attempt-RunsFrom fails_terminal p left n most rest e q s h =
      at_once terminal_failure n most (omega arith) e
  after_attempt-RunsFrom fails_transient p zero n most rest e q s h =
      at_once recovery_exhausted n most (omega arith) (e, omega arith)
  after_attempt-RunsFrom fails_transient true (suc left) n most rest e q s h =
      one_more n most rest e q (h (omega arith))
  after_attempt-RunsFrom fails_transient false (suc left) n most rest e q s h =
      at_once pause_interrupted n most (omega arith) (e, q, omega arith)

  retry_from-RunsFrom : (left n most : ℕ) → n + left ≡ most → RunsFrom n most (retry_from left n)
  unfolding retry_from
  retry_from-RunsFrom zero n most s =
      after_attempt-RunsFrom (process n) (pauses n) zero n most (recovery_exhausted, n) refl refl s
        (λ h. absurd (omega arith))
  retry_from-RunsFrom (suc left) n most s =
      after_attempt-RunsFrom (process n) (pauses n) (suc left) n most (retry_from left (suc n)) refl
        refl s (λ h. retry_from-RunsFrom left (suc n) most (omega arith))

  effective-positive : (m : ℤ) → 1 ≤ effective_retry_max_attempts m
  unfolding effective_retry_max_attempts
  effective-positive (pos zero) = omega arith
  effective-positive (pos (suc n)) = omega arith
  effective-positive (negsuc n) = omega arith

  -- The retry loop ends after one attempt at least and the effective maximum at most: every
  -- attempt before the last failed with a transient error and a pause that ran to its end, and the
  -- result tells how the last attempt, or the pause after it, ended; the recovery is exhausted
  -- only at the maximum.
  pub process_batch_with_retry-RunsFrom :
      (retry_max_attempts : ℤ)
      → RunsFrom 1
          (effective_retry_max_attempts retry_max_attempts)
          (process_batch_with_retry retry_max_attempts)
  unfolding process_batch_with_retry
  process_batch_with_retry-RunsFrom m =
      let h = effective-positive m in
      retry_from-RunsFrom (effective_retry_max_attempts m - 1) 1 (effective_retry_max_attempts m)
        (omega arith)
