-- ===== src/Workflow/Graph.antt =====
-- The data of libs/config_sdk/workflow.py. A step's type is read as one of `NODE_TYPES` or another
-- text; a message stands as a constructor with what the sentence names.
use yuviz.Base.{
  ℕ, String, Bool, true, false, ◌||◌, Option, List, [], ◌∷◌, map, all, Text, codes, text_eq, ◌==◌,
  if◌then◌else◌,
}

pub data NodeType : Type 0 where
  start agent transfer end global : NodeType
  other : Text → NodeType

-- the comparison of `type` with `NODE_TYPES`
unfoldable pub node_type : Text → NodeType
node_type t =
    if t == codes "start"
    then start
    else if t == codes "agent"
    then agent
    else if t == codes "transfer"
    then transfer
    else if t == codes "end"
    then end
    else if t == codes "global"
    then global
    else other t

pub record ExtractionVariable : Type 0 where
  pub var_name : Text
  pub var_type : Text
  pub var_prompt : Text

pub record Extraction : Type 0 where
  pub enabled : Bool
  pub extraction_prompt : Text
  pub variables : List ExtractionVariable

pub record Edge : Type 0 where
  pub edge_id : Text
  pub source : Text
  pub target : Text
  pub label : Text
  pub condition : Text
  pub transition_speech : Option Text

pub record Node : Type 0 where
  pub id : Text
  pub type : NodeType
  pub name : Text
  pub prompt : Text
  pub greeting : Option Text
  pub delayed_start_ms : ℕ
  pub tools : List Text
  pub knowledge_base_ids : List Text
  pub extraction : Option Extraction
  pub transfer_destination : Option Text
  pub disposition : Option Text
  pub out_edges : List Edge

-- `nodes` keeps the order of the steps
abbrev pub Nodes : Type 0
Nodes = List (Text × Node)

pub record WorkflowGraph : Type 0 where
  pub nodes : Nodes
  pub start_node_id : Text

-- `nodes.values()`
abbrev pub values : Nodes → List Node
values = map (λ e. e.1)

abbrev pub type_is_start : NodeType → Bool
type_is_start start = true
type_is_start _ = false

abbrev pub type_is_end : NodeType → Bool
type_is_end end = true
type_is_end _ = false

abbrev pub type_is_transfer : NodeType → Bool
type_is_transfer transfer = true
type_is_transfer _ = false

abbrev pub type_is_known : NodeType → Bool
type_is_known (other _) = false
type_is_known _ = true

-- `TERMINAL_NODE_TYPES`
abbrev pub type_is_terminal : NodeType → Bool
type_is_terminal end = true
type_is_terminal transfer = true
type_is_terminal _ = false

-- `UNWIRED_NODE_TYPES`
abbrev pub type_is_unwired : NodeType → Bool
type_is_unwired global = true
type_is_unwired _ = false

-- the properties `is_terminal` and `is_unwired`
abbrev pub is_terminal : Node → Bool
is_terminal n = type_is_terminal n.type

abbrev pub is_unwired : Node → Bool
is_unwired n = type_is_unwired n.type

-- `is_single_stage`
unfoldable pub is_single_stage : WorkflowGraph → Bool
is_single_stage g =
    all (λ n. type_is_start n.type || type_is_end n.type || is_unwired n) (values g.nodes)

-- the first unwired step of `global_prompt`
unfoldable pub first_prompt : List Node → Text
first_prompt [] = []
first_prompt (n ∷ ns) = if is_unwired n then n.prompt else first_prompt ns

-- `global_prompt`
unfoldable pub global_prompt : WorkflowGraph → Text
unfolding first_prompt
global_prompt g = first_prompt (values g.nodes)

pub data ErrorKind : Type 0 where
  node edge workflow : ErrorKind

-- The sentences of the messages, with the names that they hold.
pub data Message : Type 0 where
  step_not_object missing_id duplicate_id unknown_type unnamed : Message
  name_taken : Text → Message
  start_count : ℕ → Message
  no_end : Message
  many_globals : ℕ → Message
  connection_not_object unknown_source unknown_target not_set_up no_label : Message
  unusable_label no_condition : Message
  global_connected into_start no_destination out_of_terminal no_way_out : Message
  same_move : Text → Message
  not_an_object no_nodes edges_not_list : Message
  bad_placeholder : Text → Message
  too_late_for_all : Text → Message
  not_on_every_path : Text → Message
  never_captured : Text → Message
  no_path : Message

pub record WorkflowError : Type 0 where
  pub kind : ErrorKind
  pub at : Option Text
  pub field : Option String
  pub message : Message
