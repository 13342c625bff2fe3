-- ===== src/Tools.antt =====
-- services/conversation/tools/types.py and registry.py: the shapes that the tool framework shares.
-- A schema is only passed on, and stands as its JSON text.
use yuviz.Base.{String, Bool, Option, none, List, [], string_eq}
use yuviz.Base.Dict.{lookup, insert}
use yuviz.Workflow.Raw.{Json}

-- `dict[str, Any]`
abbrev pub Payload : Type 0
Payload = List (String × Json)

pub data ToolStatus : Type 0 where
  success failed timeout cancelled unavailable invalid_argument rate_limited : ToolStatus

pub record ToolResult : Type 0 where
  pub status : ToolStatus
  pub payload : Payload
  pub error : Option String
  pub deterministic_response : Option String
  pub confirmed_datetime : Option String

-- `ToolResult(status=...)`, the other fields at their defaults
abbrev pub result_of : ToolStatus → Option String → ToolResult
result_of status error = record {
  status = status;
  payload = [];
  error = error;
  deterministic_response = none;
  confirmed_datetime = none;
}

pub record ToolDefinition : Type 0 where
  pub name : String
  pub description : String
  pub parameters_schema : String
  pub category : String
  pub llm_visible : Bool
  pub companion_tool_name : Option String

-- The part of `ToolExecutionRequest` and its context that the middlewares read, and the arguments.
pub record ToolExecutionRequest : Type 0 where
  pub tool_call_id : String
  pub tool_name : String
  pub arguments : Payload
  pub tenant_id : String
  pub agent_id : String

-- `ToolRegistry`: its dictionary of definitions by name
abbrev pub ToolRegistry : Type 0
ToolRegistry = List (String × ToolDefinition)

-- `register`
unfoldable pub register : ToolDefinition → ToolRegistry → ToolRegistry
register d tools = insert d.name d tools

-- `resolve`
unfoldable pub resolve : ToolRegistry → String → Option ToolDefinition
resolve tools name = lookup name tools
