-- ===== src/Orchestrator/Shapes.antt =====
-- What a turn of services/conversation/tools/orchestrator.py works on.
use yuviz.Base.{ℕ, Bool, String, Option, List, Text}
use yuviz.Tools.{Payload, ToolResult, ToolDefinition, ToolExecutionRequest}
use yuviz.Policy.{ResolvedToolPolicy}
use yuviz.Middleware.{Executor}
use yuviz.Orchestrator.Dates.{Date, IsoFormat}
use yuviz.Orchestrator.History.{ToolCallEvent, ChatMessage}
use yuviz.Orchestrator.Checks.{Hearing}

-- `DEFAULT_MAX_TOOL_ITERATIONS` and `DEFAULT_MAX_LOCAL_TOOL_CALLS`
abbrev pub default_max_tool_iterations : ℕ
default_max_tool_iterations = 2

abbrev pub default_max_local_tool_calls : ℕ
default_max_local_tool_calls = 8

-- the events that a turn yields
pub data TurnEvent : Type 0 where
  token : Text → TurnEvent
  local_tool_completed : String → TurnEvent
  tool_call_started : String → TurnEvent
  deterministic_spoken : String → Option String → TurnEvent

-- What the model replies to a request: texts, and then it may call a tool; and whether the caller
-- interrupts before that tool is done.
pub record Reply : Type 0 where
  pub tokens : List Text
  pub call : Option ToolCallEvent
  pub interrupted : Bool

-- A local tool: its handler changes the state of the call and the history, which it has a reference to,
-- and raises by `none`; `cut_short` is what it leaves of both when it is cancelled.
pub record LocalTool (W : Type 0) : Type 0 where
  pub definition : ToolDefinition
  pub handler : Payload → W → List ChatMessage → W × List ChatMessage × Option ToolResult
  pub cut_short : Payload → W → List ChatMessage → W × List ChatMessage

-- The orchestrator, for an agent: its limits, its enabled policies, the tools that the state of the call
-- offers and allows, and the providers: whether one can be made for a policy, whether there is an
-- executor for a tool, and what it answers at each attempt, with two readings of the clock.
pub record ToolCallOrchestrator (W : Type 0) : Type 0 where
  pub max_tool_iterations : ℕ
  pub max_local_tool_calls : ℕ
  pub tenant_id : String
  pub agent_id : String
  pub enabled : List ResolvedToolPolicy
  pub local_tools : W → List (String × LocalTool W)
  pub only_tools : W → Option (List String)
  pub has_provider : ResolvedToolPolicy → Bool
  pub has_executor : String → Bool
  pub respond : ToolExecutionRequest → Executor
  pub clock : ToolExecutionRequest → ℕ × ℕ
  pub iso : IsoFormat
  pub hearing : Hearing
  pub today : Date

-- the variables of `run_turn`, the events that it has yielded, the calls that a local handler got, and
-- the requests that an executor got
pub record Turn (W : Type 0) : Type 0 where
  pub world : W
  pub iteration : ℕ
  pub local_calls : ℕ
  pub seen_local_names : List String
  pub offered_local : List (String × LocalTool W)
  pub policies : List (String × ResolvedToolPolicy)
  pub schemas : List ToolDefinition
  pub history : List ChatMessage
  pub events : List TurnEvent
  pub handled : List ToolCallEvent
  pub requests : List ToolExecutionRequest
