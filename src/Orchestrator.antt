-- ===== src/Orchestrator.antt =====
-- services/conversation/tools/orchestrator.py: a turn in which the model may call tools. The model's
-- replies are a list of arguments; what the local tools do to the state of the call, and what the
-- providers answer, are functions. The ids that are drawn, the deadline, and `force_tool_name`, which
-- is passed on with the first request, are left out, and so is logging.
pub mod Dates
pub mod Shapes
pub mod History
pub mod Checks
pub mod Counting
pub mod Budget
pub mod Rules
pub mod Answered
pub mod Allowed
pub mod Ending
pub mod Endless
pub mod Fresh
use yuviz.Base.{
  ℕ, ◌+◌, Bool, true, false, not, ◌&&◌, ◌||◌, String, string_eq, Option, none, some, is_some, List,
  [], ◌∷◌, ◌++◌, map, any, keep, leb, Text, ◌==◌, if◌then◌else◌,
}
use yuviz.Base.Dict.{lookup, insert}
use yuviz.Tools.{
  Payload, ToolStatus, failed, ToolResult, result_of, ToolDefinition, ToolExecutionRequest,
}
use yuviz.Policy.{ResolvedToolPolicy, tool_name_of, contains, narrow}
use yuviz.Middleware.{Executor, default_breaker, call_tool, is_failed}
use yuviz.Orchestrator.Shapes.{
  TurnEvent, token, local_tool_completed, tool_call_started, deterministic_spoken, Reply, LocalTool,
  ToolCallOrchestrator, Turn,
}
use yuviz.Orchestrator.History.{ToolCallEvent, ChatMessage, fold_tool_result}
use yuviz.Orchestrator.Checks.{Hearing, check_requested_date}

-- `{p.definition.name: p for p in policies}`
abbrev pub policies_by_name :
    List ResolvedToolPolicy
    → List (String × ResolvedToolPolicy)
    → List (String × ResolvedToolPolicy)
policies_by_name [] named = named
policies_by_name (p ∷ ps) named = policies_by_name ps (insert (tool_name_of p) p named)

-- `p.definition for p in policies if p.definition.llm_visible`
abbrev pub visible : List ResolvedToolPolicy → List ToolDefinition
visible ps = keep (λ d. d.llm_visible) (map (λ p. p.definition) ps)

-- `result.status == FAILED and result.error == "cancelled"`
abbrev pub is_cancelled : ToolResult → Bool
is_cancelled r = is_failed r.status && elim r.error [ none ↦ false | some e ↦ e == "cancelled" ]

module _ {W : Type 0} where
  -- `{defn.name: (defn, handler) for defn, handler in raw.values()}`
  abbrev pub by_name :
      List (String × LocalTool W) → List (String × LocalTool W) → List (String × LocalTool W)
  by_name [] tools = tools
  by_name ((key, tool) ∷ raw) tools = by_name raw (insert tool.definition.name tool tools)

  -- `resolve`, the local function of `run_turn`
  unfoldable pub resolve_tools : ToolCallOrchestrator W → Turn W → Turn W
  resolve_tools o t =
      let all_local = by_name (o.local_tools t.world) [] in
      let offered = if leb o.max_local_tool_calls t.local_calls then [] else all_local in
      let allowed =
        if leb o.max_tool_iterations t.iteration
        then []
        else narrow o.enabled (o.only_tools t.world) in
      record t {
        seen_local_names = t.seen_local_names ++ map (λ e. e.0) all_local;
        offered_local = offered;
        policies = policies_by_name allowed [];
        schemas = visible allowed ++ map (λ e. e.1.definition) offered;
      }

  -- `_execute_local_tool`: the state, the history, and the result
  unfoldable pub execute_local_tool :
      LocalTool W → Payload → Bool → W → List ChatMessage → W × List ChatMessage × ToolResult
  execute_local_tool tool arguments interrupted w history =
      let (after, rewritten, answer) = tool.handler arguments w history in
      let (stopped, so_far) = tool.cut_short arguments w history in
      if interrupted then (stopped, so_far, result_of failed (some "cancelled")) else elim answer [
        | none ↦ (after, rewritten, result_of failed (some "local_tool_failed"))
        | some r ↦ (after, rewritten, r)
      ]

  -- `chain.execute(request)` with the chain of `build_default_chain`, which is made for this request
  unfoldable pub execute_chain : ToolCallOrchestrator W → ToolExecutionRequest → ToolResult
  unfolding call_tool
  execute_chain o request =
      let (now, later) = o.clock request in
      (call_tool 0 (o.respond request) request.tool_name now later default_breaker).1

  abbrev pub request_of : ToolCallOrchestrator W → ToolCallEvent → ToolExecutionRequest
  request_of o event = record {
    tool_call_id = event.tool_call_id;
    tool_name = event.tool_name;
    arguments = event.arguments;
    tenant_id = o.tenant_id;
    agent_id = o.agent_id;
  }

  -- `_execute_tool_call`: the result, and the request that an executor got, if one did
  unfoldable pub execute_tool_call :
      ToolCallOrchestrator W
      → ToolCallEvent
      → Bool
      → List (String × ResolvedToolPolicy)
      → ToolResult × List ToolExecutionRequest
  unfolding execute_chain
  execute_tool_call o event interrupted policies = elim (lookup event.tool_name policies) [
    | none ↦ (result_of failed (some "unknown_tool"), [])
    | some policy ↦
        if not (o.has_provider policy)
        then (result_of failed (some "provider_unavailable"), [])
        else if not (o.has_executor event.tool_name)
        then (result_of failed (some "no_executor_registered"), [])
        else (
          (if interrupted
              then result_of failed (some "cancelled")
              else execute_chain o (request_of o event)),
          request_of o event ∷ [],
        )
  ]

  -- the call is counted, and the tool runs
  unfoldable pub run_local : LocalTool W → ToolCallEvent → Bool → Turn W → Turn W × ToolResult
  unfolding execute_local_tool
  run_local tool event interrupted t =
      let (after, history, r) =
        execute_local_tool tool event.arguments interrupted t.world t.history in
      (
        record t {
          local_calls = t.local_calls + 1;
          handled = t.handled ++ event ∷ [];
          world = after;
          history = history;
        },
        r,
      )

  -- the branch of `run_turn` for a local tool
  unfoldable pub call_local :
      ToolCallOrchestrator W → LocalTool W → ToolCallEvent → Bool → Turn W → Turn W × ToolResult
  unfolding run_local resolve_tools
  call_local o tool event interrupted t =
      let (counted, r) = run_local tool event interrupted t in
      if is_cancelled r then (counted, r) else (
        resolve_tools o
            (record counted { events = t.events ++ local_tool_completed event.tool_name ∷ [] }),
        r,
      )

  -- the branch for a tool of a provider, behind the check of the date
  unfoldable pub call_remote :
      ToolCallOrchestrator W → ToolCallEvent → Bool → Turn W → Turn W × ToolResult
  unfolding execute_tool_call
  call_remote o event interrupted t =
      let (r, sent) = execute_tool_call o event interrupted t.policies in
      (
        record t {
          iteration = t.iteration + 1;
          events = t.events ++ tool_call_started event.tool_name ∷ [];
          requests = t.requests ++ sent;
        },
        r,
      )

  -- the three branches: the turn, the event, whose arguments may be corrected, and the result
  unfoldable pub call_any :
      ToolCallOrchestrator W → ToolCallEvent → Bool → Turn W → Turn W × ToolCallEvent × ToolResult
  call_any o event interrupted t = elim (lookup event.tool_name t.offered_local) [
    | some tool ↦ (let (after, r) = call_local o tool event interrupted t in (after, event, r))
    | none ↦
        if leb o.max_local_tool_calls t.local_calls && contains t.seen_local_names event.tool_name
        then (t, event, result_of failed (some "local_tool_call_cap_exceeded"))
        else (let (checked, rejected) =
              check_requested_date o.iso o.hearing o.today event t.history in
            elim rejected [
              | some r ↦ (t, checked, r)
              | none ↦ (let (after, r) = call_remote o checked interrupted t in (after, checked, r))
            ])
  ]

  -- the end of a round: whether the turn goes on
  unfoldable pub settle_call :
      ToolCallOrchestrator W → ToolCallEvent → ToolResult → Turn W → Turn W × Bool
  settle_call o event r t =
      let folded = record t { history = fold_tool_result event r t.history } in
      elim r.deterministic_response [
        | some text ↦ (
          record folded {
            events = t.events ++ deterministic_spoken text r.confirmed_datetime ∷ [];
          },
          false,
        )
        | none ↦
            if is_cancelled r
            then (folded, false)
            else if leb o.max_tool_iterations t.iteration
            then (resolve_tools o folded, true)
            else (folded, true)
      ]

  -- A round of the loop of `run_turn`. `LLMAdapter.generate` has the model reply in words alone when no
  -- tool is offered.
  unfoldable pub round : ToolCallOrchestrator W → Reply → Turn W → Turn W × Bool
  round o reply t =
      let heard = record t { events = t.events ++ map token reply.tokens } in
      elim t.schemas [
        | [] ↦ (heard, false)
        | _ ∷ _ ↦ elim reply.call [
          | none ↦ (heard, false)
          | some event ↦
              (let (after, checked, r) = call_any o event reply.interrupted heard in
                settle_call o checked r after)
        ]
      ]

  -- The loop of `run_turn`, as far as the replies go: whether the turn is over.
  unfoldable pub rounds : ToolCallOrchestrator W → List Reply → Turn W → Turn W × Bool
  rounds o [] t = (t, false)
  rounds o (reply ∷ replies) t =
      let (after, goes_on) = round o reply t in
      elim goes_on [ true ↦ rounds o replies after | false ↦ (after, true) ]

  -- the variables of `run_turn` at its start
  abbrev pub fresh_turn : List ChatMessage → W → Turn W
  fresh_turn history w = record {
    world = w;
    iteration = 0;
    local_calls = 0;
    seen_local_names = [];
    offered_local = [];
    policies = [];
    schemas = [];
    history = history;
    events = [];
    handled = [];
    requests = [];
  }

  -- the first `resolve` of `run_turn`
  unfoldable pub begin_turn : ToolCallOrchestrator W → List ChatMessage → W → Turn W
  begin_turn o history w = resolve_tools o (fresh_turn history w)

  -- `run_turn`
  unfoldable pub run_turn :
      ToolCallOrchestrator W → List ChatMessage → W → List Reply → Turn W × Bool
  unfolding begin_turn rounds
  run_turn o history w replies = rounds o replies (begin_turn o history w)
