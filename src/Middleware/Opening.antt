-- ===== src/Middleware/Opening.antt =====
-- Runs of calls of one tool through the circuit breaker of middleware.py.
use yuviz.Base.{
  ℕ, suc, ◌+◌, ◌≤◌, ◌<◌, ◌≡◌, String, true, false, none, some, List, [], ◌∷◌, All, length, arith,
  string_eq,
}
use yuviz.Base.Dict.{lookup}
use yuviz.Tools.{unavailable}
use yuviz.Middleware.{
  Executor, CircuitBreaker, counts_as_failure, is_open, with_retry, note_result, call_tool,
}
use yuviz.Middleware.Breaker.{failures, failure_counts, call_tool-attempts}

-- A call: what its executor does, and the readings of the clock before it and after it.
pub record ToolCall : Type 0 where
  pub run : Executor
  pub now : ℕ
  pub later : ℕ

module _ (max_retries : ℕ) (key : String) where
  -- The calls, one after the other.
  unfoldable pub run_calls : List ToolCall → CircuitBreaker → CircuitBreaker
  run_calls [] b = b
  run_calls (c ∷ cs) b = run_calls cs (call_tool max_retries c.run key c.now c.later b).0

  -- The last attempt of the call fails or times out.
  abbrev pub Fails : ToolCall → Type 0
  Fails c = counts_as_failure (with_retry max_retries c.run).0.status ≡ true

  abbrev pub call : ToolCall → CircuitBreaker → CircuitBreaker
  call c b = (call_tool max_retries c.run key c.now c.later b).0

  closed_lem :
      (b : CircuitBreaker) (now : ℕ) → lookup key b.opened_at ≡ none → is_open key now b ≡ false
  unfolding is_open
  closed_lem b now e = ground arith

  result-call_tool :
      (c : ToolCall) (b : CircuitBreaker)
      → is_open key c.now b ≡ false
      → (call_tool max_retries c.run key c.now c.later b).1 ≡ (with_retry max_retries c.run).0
  unfolding call_tool
  result-call_tool c b e = rw e

  limits-call_tool :
      (c : ToolCall) (b : CircuitBreaker)
      → ((call c b).fails_before_open ≡ b.fails_before_open) × ((call c b).cooldown ≡ b.cooldown)
  unfolding call_tool note_result
  limits-call_tool c b = ground arith

  failing_call :
      (c : ToolCall) (b : CircuitBreaker)
      → lookup key b.opened_at ≡ none
      → Fails c
      → (failures key (call c b) ≡ suc (failures key b))
        × (suc (failures key b) < b.fails_before_open → lookup key (call c b).opened_at ≡ none)
        × (b.fails_before_open ≤ suc (failures key b)
            → lookup key (call c b).opened_at ≡ some c.later)
  failing_call c b shut f =
      let o = closed_lem b c.now shut in
      let (count, opened) =
        failure_counts max_retries c.run key c.now c.later b o (rw (result-call_tool c b o) f) in
      (count, λ few. ground arith, λ many. ground arith)

  open_lem :
      (c : ToolCall) (b : CircuitBreaker) (now : ℕ)
      → lookup key (call c b).opened_at ≡ some c.later
      → c.later ≤ now
      → now < c.later + b.cooldown
      → is_open key now (call c b) ≡ true
  unfolding is_open
  open_lem c b now e p early = ground (arith, limits-call_tool c b)

  -- On a tool that is not opened, failing calls leave it so while their number has not brought the
  -- count to `fails_before_open`; the failing call that does opens it, at the reading after that
  -- call. From then on, at readings that are not before that one, every call before the end of the
  -- cooldown is answered UNAVAILABLE with no attempt.
  pub opens_after_failures :
      (cs : List ToolCall) (c : ToolCall) (b : CircuitBreaker)
      → lookup key b.opened_at ≡ none
      → All Fails cs
      → Fails c
      → failures key b + suc (length cs) ≡ b.fails_before_open
      → (lookup key (run_calls cs b).opened_at ≡ none)
        × (lookup key (call c (run_calls cs b)).opened_at ≡ some c.later)
        × ((run : Executor) (now later : ℕ)
            → c.later ≤ now
            → now < c.later + b.cooldown
            → let (b', r, attempts) =
                call_tool max_retries run key now later (call c (run_calls cs b)) in
              (r.status ≡ unavailable) × (attempts ≡ 0))
  unfolding run_calls
  opens_after_failures [] c b shut fs f n =
      let (count, few, many) = failing_call c b shut f in
      (
        shut,
        many (omega arith),
        λ run now later p early.
            let t =
              (call_tool-attempts max_retries run key now later (call c b)).0
                (open_lem c b now (many (omega arith)) p early) in
            (t.1, t.0),
      )
  opens_after_failures (d ∷ cs) c b shut fs f n =
      let (count, few, many) = failing_call d b shut fs.0 in
      let (same, cool) = limits-call_tool d b in
      let (a, e, g) =
        opens_after_failures cs c (call d b) (few (omega arith)) fs.1 f
          (omega (arith, count, same)) in
      (a, e, λ run now later p early. g run now later p (omega (arith, cool, early)))
