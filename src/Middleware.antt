-- ===== src/Middleware.antt =====
-- services/conversation/tools/middleware.py. The executor is a function of the number of the
-- attempt; `none` stands for an attempt that outlasts its time limit. The state of the breaker is
-- passed on explicitly, and the readings of the clock (whole milliseconds) are arguments. Logging
-- and metrics are left out.
pub mod Retry
pub mod Breaker
pub mod Opening
use yuviz.Base.{
  ℕ, zero, suc, ◌-◌, String, Bool, true, false, Option, none, some, List, [], ltb, leb, string_eq,
  if◌then◌else◌,
}
use yuviz.Base.Dict.{lookup, insert, remove, get_or}
use yuviz.Tools.{ToolStatus, failed, timeout, unavailable, ToolResult, result_of}

-- What the executor does at each attempt of a call: the n-th attempt's result, or `none`.
abbrev pub Executor : Type 0
Executor = ℕ → Option ToolResult

-- `TimeoutMiddleware.__call__`
unfoldable pub with_timeout : Option ToolResult → ToolResult
with_timeout none = result_of timeout none
with_timeout (some r) = r

abbrev pub is_failed : ToolStatus → Bool
is_failed failed = true
is_failed _ = false

-- the loop of `RetryMiddleware.__call__`: `left` is `max_retries - attempts`, `n` the number of
-- attempts made; the result and the number of attempts
unfoldable pub retry_loop : ℕ → Executor → ℕ → ToolResult → ToolResult × ℕ
unfolding with_timeout
retry_loop zero run n r = (r, n)
retry_loop (suc left) run n r =
    let again = retry_loop left run (suc n) (with_timeout (run n)) in
    if is_failed r.status then again else (r, n)

-- `RetryMiddleware.__call__` around `TimeoutMiddleware`
unfoldable pub with_retry : ℕ → Executor → ToolResult × ℕ
unfolding retry_loop with_timeout
with_retry max_retries run = retry_loop max_retries run 1 (with_timeout (run 0))

pub record CircuitBreaker : Type 0 where
  pub fails_before_open : ℕ
  pub cooldown : ℕ
  pub consecutive_failures : List (String × ℕ)
  pub opened_at : List (String × ℕ)

-- `CircuitBreakerMiddleware.__init__`, with its defaults
abbrev pub default_breaker : CircuitBreaker
default_breaker = record {
  fails_before_open = 5;
  cooldown = 30000;
  consecutive_failures = [];
  opened_at = [];
}

-- `result.status in (FAILED, TIMEOUT)`
abbrev pub counts_as_failure : ToolStatus → Bool
counts_as_failure failed = true
counts_as_failure timeout = true
counts_as_failure _ = false

-- the part of `CircuitBreakerMiddleware.__call__` after `call_next`
unfoldable pub note_result : String → ℕ → ToolResult → CircuitBreaker → CircuitBreaker
note_result key later r b =
    let count = suc (get_or key b.consecutive_failures 0) in
    if counts_as_failure r.status
    then record b {
      consecutive_failures = insert key count b.consecutive_failures;
      opened_at =
          if leb b.fails_before_open count then insert key later b.opened_at else b.opened_at;
    }
    else record b { consecutive_failures = insert key 0 b.consecutive_failures }

-- `opened_at is not None` and the cooldown has not elapsed
unfoldable pub is_open : String → ℕ → CircuitBreaker → Bool
is_open key now b = elim (lookup key b.opened_at) [
  | none ↦ false
  | some at ↦ ltb (now - at) b.cooldown
]

-- `CircuitBreakerMiddleware.__call__`, around the retries: `now` is read before the call, `later`
-- when it opens. The new state, the result, and the number of attempts that reached the executor.
unfoldable pub call_tool :
    ℕ → Executor → String → ℕ → ℕ → CircuitBreaker → CircuitBreaker × ToolResult × ℕ
unfolding note_result is_open with_retry
call_tool max_retries run key now later b =
    if is_open key now b
    then (b, result_of unavailable (some "circuit_breaker_open"), 0)
    else (let (r, attempts) = with_retry max_retries run in
        (note_result key later r (record b { opened_at = remove key b.opened_at }), r, attempts))

abbrev is_timed : ToolStatus → Bool
is_timed unavailable = false
is_timed _ = true

-- `LatencyRecorderMiddleware.__call__`: whether the call's duration is recorded
unfoldable pub is_recorded : ToolResult → Bool
is_recorded r = is_timed r.status
