-- ===== src/Middleware/Breaker.antt =====
-- `CircuitBreakerMiddleware` of middleware.py.
use yuviz.Base.{
  ℕ, suc, ◌≤◌, ◌<◌, ◌≡◌, ◌≢◌, String, true, false, none, some, arith, string_eq, leb, if◌then◌else◌,
}
use yuviz.Base.Dict
use yuviz.Base.Dict.{lookup, get_or, lookup-insert, lookup-remove}
use yuviz.Tools.{ToolResult, unavailable}
use yuviz.Middleware.Retry.{with_retry-IsRetry}
use yuviz.Middleware.{Executor, CircuitBreaker, counts_as_failure, is_open, note_result, call_tool}

abbrev pub failures : String → CircuitBreaker → ℕ
failures key b = get_or key b.consecutive_failures 0

-- A key is open only after enough consecutive failures.
pub record IsValid (b : CircuitBreaker) : Type 0 where
  pub earned :
      (key : String) (at : ℕ)
      → lookup key b.opened_at ≡ some at
      → b.fails_before_open ≤ failures key b

module _ (max_retries : ℕ) (run : Executor) (key : String) (now later : ℕ)
    (b : CircuitBreaker) where
  abbrev after : CircuitBreaker
  after = (call_tool max_retries run key now later b).0

  abbrev result : ToolResult
  result = (call_tool max_retries run key now later b).1

  -- A call keeps the invariant: whatever the executor does, a key that is marked as opened has at
  -- least `fails_before_open` consecutive failures.
  pub call_tool-IsValid : IsValid b → IsValid after
  unfolding call_tool note_result is_open
  call_tool-IsValid v = record {
    earned = λ k at h. ground (
      arith,
      v.earned k at,
      string_eq.is_same_iff key k,
      lookup-remove key k b.opened_at,
      lookup-insert key k later (Dict.remove key b.opened_at),
      lookup-insert key k 0 b.consecutive_failures,
      lookup-insert key k (suc (failures key b)) b.consecutive_failures,
    );
  }

  -- A call of one tool changes nothing for any other.
  pub call_tool_ne :
      (k : String)
      → key ≢ k
      → (failures k after ≡ failures k b) × (lookup k after.opened_at ≡ lookup k b.opened_at)
  unfolding call_tool note_result is_open
  call_tool_ne k ne = ground (
    arith,
    string_eq.is_same_iff key k,
    lookup-remove key k b.opened_at,
    lookup-insert key k later (Dict.remove key b.opened_at),
    lookup-insert key k 0 b.consecutive_failures,
    lookup-insert key k (suc (failures key b)) b.consecutive_failures,
  )

  -- While the breaker is open a call fails fast: no attempt reaches the executor, the answer is
  -- UNAVAILABLE and nothing changes. Otherwise there is at least one attempt and at most
  -- `max_retries` more.
  pub call_tool-attempts :
      let (b', r, attempts) = call_tool max_retries run key now later b in
      (is_open key now b ≡ true → (attempts ≡ 0) × (r.status ≡ unavailable) × (b' ≡ b))
      × (is_open key now b ≡ false → (0 < attempts) × (attempts ≤ suc max_retries))
  unfolding call_tool
  call_tool-attempts = (
    λ o. ground arith,
    λ c.
        let t = with_retry-IsRetry max_retries run in
        (ground (arith, t.at_least_one), ground (arith, t.at_most)),
  )

  -- A result that is no failure, on a breaker that lets the call through, leaves the tool closed
  -- with its count at 0.
  pub success_closes :
      is_open key now b ≡ false
      → counts_as_failure result.status ≡ false
      → (failures key after ≡ 0) × (lookup key after.opened_at ≡ none)
  unfolding call_tool note_result
  success_closes c ok = ground (
    arith,
    string_eq.is_same_iff key key,
    lookup-remove key key b.opened_at,
    lookup-insert key key 0 b.consecutive_failures,
  )

  -- A failure, on a breaker that lets the call through, counts one more, and opens the tool at the
  -- reading after the call exactly if the count has reached `fails_before_open`; in particular one
  -- failed attempt after the cooldown opens it again.
  pub failure_counts :
      is_open key now b ≡ false
      → counts_as_failure result.status ≡ true
      → (failures key after ≡ suc (failures key b))
        × (lookup key after.opened_at
            ≡ (if leb b.fails_before_open (suc (failures key b)) then some later else none))
  unfolding call_tool note_result
  failure_counts c bad = ground (
    arith,
    string_eq.is_same_iff key key,
    lookup-remove key key b.opened_at,
    lookup-insert key key later (Dict.remove key b.opened_at),
    lookup-insert key key (suc (failures key b)) b.consecutive_failures,
  )
