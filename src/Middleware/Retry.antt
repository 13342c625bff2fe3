-- ===== src/Middleware/Retry.antt =====
-- `RetryMiddleware` around `TimeoutMiddleware` of middleware.py.
use yuviz.Base.{ℕ, zero, suc, ◌+◌, ◌-◌, ◌≤◌, ◌<◌, ◌≡◌, true, arith, ◌⊎◌, ap, Bool-cases, inl, inr}
use yuviz.Tools.{ToolResult}
use yuviz.Middleware.{Executor, with_timeout, is_failed, retry_loop, with_retry}

-- Attempts `from` up to, and without, `until` all failed.
abbrev pub FailedUntil : Executor → ℕ → ℕ → Type 0
FailedUntil run from until =
    (i : ℕ) → from ≤ i → i < until → is_failed (with_timeout (run i)).status ≡ true

-- The result is that of the last attempt, the attempts before it failed, and only the limit stops
-- after a failure.
pub record IsRetry (max_retries from : ℕ) (run : Executor) (out : ToolResult × ℕ) : Type 0 where
  pub at_least_one : from < out.1
  pub at_most : out.1 ≤ from + suc max_retries
  pub last : out.0 ≡ with_timeout (run (out.1 - 1))
  pub earlier_failed : FailedUntil run from (out.1 - 1)
  pub stopped : is_failed out.0.status ≡ true → out.1 ≡ from + suc max_retries

ℕ-cases : (n i : ℕ) → n ≤ i → (n ≡ i) ⊎ (suc n ≤ i)
ℕ-cases n i p = grind arith

IsRetry-suc :
    (left : ℕ) (run : Executor) (n : ℕ) (out : ToolResult × ℕ)
    → is_failed (with_timeout (run n)).status ≡ true
    → IsRetry left (suc n) run out
    → IsRetry (suc left) n run out
IsRetry-suc left run n out f r = record {
  at_least_one = omega arith;
  at_most = omega arith;
  last = r.last;
  earlier_failed =
      λ i p q. elim (ℕ-cases n i p) [ inl e ↦ rw (← e) f | inr l ↦ r.earlier_failed i l q ];
  stopped = λ g. omega (arith, r.stopped g);
}

retry_loop-IsRetry :
    (left : ℕ) (run : Executor) (n : ℕ)
    → IsRetry left n run (retry_loop left run (suc n) (with_timeout (run n)))
unfolding retry_loop
retry_loop-IsRetry zero run n = record {
  at_least_one = omega arith;
  at_most = omega arith;
  last = ap (λ (k : ℕ). with_timeout (run k)) (omega arith);
  earlier_failed = λ i p q. absurd (omega arith);
  stopped = λ f. omega arith;
}
retry_loop-IsRetry (suc left) run n = elim (Bool-cases (is_failed (with_timeout (run n)).status)) [
  | inl f ↦ rw f (IsRetry-suc left run n _ f (retry_loop-IsRetry left run (suc n)))
  | inr ok ↦ rw ok (record {
    at_least_one = omega arith;
    at_most = omega arith;
    last = ap (λ (k : ℕ). with_timeout (run k)) (omega arith);
    earlier_failed = λ i p q. absurd (omega arith);
    stopped = λ f. cc;
  })
]

-- The result of a call is that of its last attempt, at most `max_retries` attempts follow the
-- first, each attempt before the last failed (a time-out is no failure here), and the last one
-- failed only if every retry was used.
pub with_retry-IsRetry :
    (max_retries : ℕ) (run : Executor) → IsRetry max_retries 0 run (with_retry max_retries run)
unfolding with_retry
with_retry-IsRetry max_retries run = retry_loop-IsRetry max_retries run 0
