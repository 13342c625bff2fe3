-- ===== src/Runner.antt =====
-- services/conversation/workflow/runner.py: which step of the workflow a call is at, and the cache of
-- graphs. The extractor and the summarizer, which are only told to start, are left out.
pub mod Moves
pub mod Rejected
pub mod Cache
pub mod Reached
pub mod Resolve
pub mod Resolved
pub mod Runnable
use yuviz.Base.{
  ℕ, ◌+◌, Bool, true, false, not, ◌&&◌, ◌||◌, Option, none, some, is_some, List, [], ◌∷◌, ◌++◌, any,
  length, nat_beq, leb, take, drop, Text, codes, text_eq, ◌==◌, if◌then◌else◌, nat_eq,
}
use yuviz.Base.Dict.{lookup, insert}
use yuviz.Workflow.Words.{strip, is_empty, tool_name}
use yuviz.Workflow.Graph.{
  Node, Edge, Nodes, NodeType, end, transfer, WorkflowGraph, values, is_single_stage, global_prompt,
  is_terminal, type_is_transfer, type_is_end,
}
use yuviz.Workflow.Templates.{Variables, render}

-- a message of the history: whether its role is "system", and its content
pub record ChatMessage : Type 0 where
  pub is_system : Bool
  pub content : Text

pub record WorkflowRunner : Type 0 where
  pub graph : WorkflowGraph
  pub node : Node
  pub suffix : Text
  pub variables : Variables
  pub visited : List Text
  pub pending_speech : Option Text
  pub pending_end : Bool
  pub pending_transfer : Option Node
  pub ended_off_graph : Bool
  pub last_transition : Text
  pub pre_transfer_node : Option Node

-- the runner that `__init__` makes, at the step
abbrev pub runner_at : Node → WorkflowGraph → Text → Variables → WorkflowRunner
runner_at n g suffix variables = record {
  graph = g;
  node = n;
  suffix = suffix;
  variables = variables;
  visited = n.name ∷ [];
  pending_speech = none;
  pending_end = false;
  pending_transfer = none;
  ended_off_graph = false;
  last_transition = [];
  pre_transfer_node = none;
}

-- `__init__`: `none` is the `KeyError` of `graph.start`
unfoldable pub begin : WorkflowGraph → Text → Variables → Option WorkflowRunner
begin g suffix variables = elim (lookup g.start_node_id g.nodes) [
  | none ↦ none
  | some n ↦ some (runner_at n g suffix variables)
]

abbrev pub is_given : Option Text → Bool
is_given none = false
is_given (some _) = true

-- `update_variables`
unfoldable pub update_variables : List (Text × Option Text) → Variables → Variables
update_variables [] variables = variables
update_variables ((name, value) ∷ values) variables =
    update_variables values (if is_given value then insert name value variables else variables)

-- `"\n\n".join(p.strip() for p in parts if p and p.strip())`
unfoldable pub join_parts : List Text → Text
unfolding strip
join_parts [] = []
join_parts (p ∷ parts) =
    let rest = join_parts parts in
    if is_empty (strip p)
    then rest
    else if is_empty rest
    then strip p
    else strip p ++ (10 ∷ 10 ∷ []) ++ rest

-- `system_prompt`
unfoldable pub system_prompt : WorkflowRunner → Text
unfolding join_parts render global_prompt
system_prompt r =
    join_parts (
      render (global_prompt r.graph) r.variables ∷ render r.node.prompt r.variables ∷ r.suffix ∷ [])

-- `allowed_tool_names`
unfoldable pub allowed_tool_names : WorkflowRunner → Option (List Text)
unfolding is_single_stage
allowed_tool_names r = if is_single_stage r.graph then none else some r.node.tools

abbrev pub has_ids : Node → Bool
has_ids n = elim n.knowledge_base_ids [ [] ↦ false | _ ∷ _ ↦ true ]

-- `knowledge_enabled`
unfoldable pub knowledge_enabled : WorkflowRunner → Bool
unfolding is_single_stage
knowledge_enabled r =
    has_ids r.node || is_single_stage r.graph || not (any has_ids (values r.graph.nodes))

-- `disposition`
unfoldable pub disposition : WorkflowRunner → Option Text
disposition r =
    if r.ended_off_graph && not (is_terminal r.node)
    then some (codes "ended_early")
    else r.node.disposition

-- `_transition_tool_name`
unfoldable pub transition_tool_name : Edge → Text
transition_tool_name e = codes "goto_" ++ tool_name e.label

-- `local_tools`, with the connection that the handler of each tool takes
unfoldable pub local_tools : List Edge → List (Text × Edge) → List (Text × Edge)
local_tools [] tools = tools
local_tools (e ∷ es) tools = local_tools es (insert (transition_tool_name e) e tools)

abbrev pub said_or_none : Text → Option Text
said_or_none [] = none
said_or_none (c ∷ s) = some (c ∷ s)

-- `self.render(edge.transition_speech or "") or None`
unfoldable pub speech_of : Edge → Variables → Option Text
unfolding render
speech_of e variables =
    said_or_none (render (elim e.transition_speech [ none ↦ [] | some t ↦ t ]) variables)

-- the part of `_transition` after the target is found
unfoldable pub enter : Edge → Node → WorkflowRunner → WorkflowRunner
unfolding speech_of
enter e n r =
    let moved = record r {
      pending_speech = speech_of e r.variables;
      node = n;
      last_transition = tool_name e.label;
      visited = r.visited ++ n.name ∷ [];
    } in
    if type_is_end n.type
    then record moved { pending_end = true; pre_transfer_node = none }
    else if type_is_transfer n.type
    then record moved { pending_transfer = some n; pre_transfer_node = some r.node }
    else record moved { pre_transfer_node = none }

-- `_transition`: `none` is the `KeyError` of `self._graph.nodes[edge.target]`, which a graph that was
-- validated does not raise
unfoldable pub transition : Edge → WorkflowRunner → Option WorkflowRunner
transition e r = elim (lookup e.target r.graph.nodes) [ none ↦ none | some n ↦ some (enter e n r) ]

-- the end of `_transition`, for one list of messages
unfoldable pub swap_prompt : Text → List ChatMessage → List ChatMessage
swap_prompt prompt [] = []
swap_prompt prompt (m ∷ ms) =
    if m.is_system
    then record { is_system = true; content = prompt } ∷ ms
    else record { is_system = true; content = prompt } ∷ m ∷ ms

abbrev pub last_is : Text → List Text → Bool
last_is name [] = true
last_is name (x ∷ []) = x == name
last_is name (x ∷ y ∷ xs) = last_is name (y ∷ xs)

-- `visited.pop()`
abbrev pub pop : List Text → List Text
pop [] = []
pop (x ∷ []) = []
pop (x ∷ y ∷ xs) = x ∷ pop (y ∷ xs)

-- `abandon_transfer`
unfoldable pub abandon_transfer : WorkflowRunner → WorkflowRunner
abandon_transfer r =
    if type_is_transfer r.node.type
    then elim r.pre_transfer_node [
      | none ↦ record r { pending_transfer = none }
      | some source ↦ record r {
        node = source;
        pre_transfer_node = none;
        pending_transfer = none;
        visited = (if last_is source.name r.visited then r.visited else pop r.visited);
      }
    ]
    else record r { pending_transfer = none }

-- `_GRAPH_CACHE_MAX`
abbrev pub graph_cache_max : ℕ
graph_cache_max = 256

-- `_GRAPH_CACHE`: by a tenant and an agent, here a number
abbrev pub GraphCache : Type 0
GraphCache = List (ℕ × (ℕ × WorkflowGraph))

-- `_cache_get`
unfoldable pub cache_get : ℕ → ℕ → GraphCache → Option WorkflowGraph
cache_get key version cache = elim (lookup key cache) [
  | none ↦ none
  | some (v, g) ↦ if nat_beq v version then some g else none
]

-- `_cache_put`
unfoldable pub cache_put : ℕ → ℕ → WorkflowGraph → GraphCache → GraphCache
cache_put key version g cache =
    let room =
      if not (is_some (lookup key cache)) && leb graph_cache_max (length cache)
      then drop 1 cache
      else cache in
    insert key (version, g) room
