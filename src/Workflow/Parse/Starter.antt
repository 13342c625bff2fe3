-- ===== src/Workflow/Parse/Starter.antt =====
-- What `parse_graph` of libs/config_sdk/workflow.py makes of `starter_graph`.
use yuviz.Base.{none, some, List, [], ◌∷◌, map, Text, codes, text_eq, ◌≡◌, refl, ap, true}
use yuviz.Base.Dict.{lookup}
use yuviz.Workflow.Words.{strip, lower, tool_name, is_space, squash, lstrip, rstrip, lower_char}
use yuviz.Workflow.Graph.{
  Node, Edge, node_type, start, end, global, WorkflowGraph, is_single_stage, global_prompt,
}
use yuviz.Workflow.Validate.{
  validate_and_build, collect_nodes, node_errors, graph_errors, name_errors, shape_errors,
  collect_edges, edge_errors, all_wiring_errors, wiring_errors, move_errors, first_start, attach,
}
use yuviz.Workflow.Raw.{
  string, Python, get, data_object, str_of, str_or_empty, to_list, str_list, parse_extraction,
  optional_str, int_or_zero, delayed_start, node_from_raw, edge_from_raw,
}
use yuviz.Workflow.Parse.{
  parsed, coerced_nodes, coerced_edges, validate_raw, parse_graph, names_list, starter_graph,
}

abbrev starter_edge : Edge
starter_edge = record {
  edge_id = codes "e-start-end";
  source = codes "start";
  target = codes "end";
  label = codes "conversation finished";
  condition = codes "The caller has no further questions.";
  transition_speech = none;
}

module _ (py : Python) (greeting system_prompt : Text) (tools knowledge_base_ids : List Text) where
  abbrev always : Node
  always = record {
    id = codes "global";
    type = global;
    name = codes "always applies";
    prompt = str_or_empty py (string system_prompt);
    greeting = none;
    delayed_start_ms = 0;
    tools = [];
    knowledge_base_ids = [];
    extraction = none;
    transfer_destination = none;
    disposition = none;
    out_edges = [];
  }

  abbrev first : Node
  first = record {
    id = codes "start";
    type = start;
    name = codes "greeting";
    prompt = codes "Greet the caller and find out what they need.";
    greeting = some greeting;
    delayed_start_ms = 0;
    tools = map (str_of py) (to_list (names_list tools));
    knowledge_base_ids = map (str_of py) (to_list (names_list knowledge_base_ids));
    extraction = none;
    transfer_destination = none;
    disposition = none;
    out_edges = starter_edge ∷ [];
  }

  abbrev last : Node
  last = record {
    id = codes "end";
    type = end;
    name = codes "goodbye";
    prompt = codes "Confirm anything outstanding and close warmly.";
    greeting = none;
    delayed_start_ms = 0;
    tools = [];
    knowledge_base_ids = [];
    extraction = none;
    transfer_destination = none;
    disposition = some (codes "completed");
    out_edges = [];
  }

  abbrev starter : WorkflowGraph
  starter = record {
    nodes = (codes "global", always) ∷ (codes "start", first) ∷ (codes "end", last) ∷ [];
    start_node_id = codes "start";
  }

  parse_graph-starter :
      parse_graph py (starter_graph greeting system_prompt tools knowledge_base_ids)
      ≡ parsed starter
  unfolding parse_graph validate_raw coerced_nodes coerced_edges starter_graph get data_object
      str_list parse_extraction optional_str int_or_zero delayed_start node_from_raw edge_from_raw
      node_type validate_and_build collect_nodes node_errors graph_errors name_errors shape_errors
      collect_edges edge_errors all_wiring_errors wiring_errors move_errors first_start attach lower
      strip tool_name is_space squash lstrip rstrip lower_char
  parse_graph-starter = refl

str_or_empty-string : (py : Python) (t : Text) → str_or_empty py (string t) ≡ t
str_or_empty-string py [] = refl
str_or_empty-string py (c ∷ t) = refl

names_list_same :
    (py : Python) (names : List Text) → map (str_of py) (to_list (names_list names)) ≡ names
names_list_same py [] = refl
names_list_same py (name ∷ names) =
    ap (λ (rest : List Text). name ∷ rest) (names_list_same py names)

-- The default graph always parses, whatever texts and names it is given: it is a graph of one stage,
-- with that global prompt, and its starting point has that greeting, those tools and that knowledge.
pub parse_graph-starter_graph :
    (py : Python) (greeting system_prompt : Text) (tools knowledge_base_ids : List Text)
    → (g : WorkflowGraph) × (parse_graph py
          (starter_graph greeting system_prompt tools knowledge_base_ids)
        ≡ parsed g)
      × (is_single_stage g ≡ true)
      × (global_prompt g ≡ system_prompt)
      × ((n : Node) × (lookup g.start_node_id g.nodes ≡ some n)
          × (n.greeting ≡ some greeting)
          × (n.tools ≡ tools)
          × (n.knowledge_base_ids ≡ knowledge_base_ids))
unfolding is_single_stage global_prompt
parse_graph-starter_graph py greeting system_prompt tools knowledge_base_ids =
    let g = starter py greeting system_prompt tools knowledge_base_ids in
    (
      g,
      parse_graph-starter py greeting system_prompt tools knowledge_base_ids,
      refl,
      str_or_empty-string py system_prompt,
      (
        first py greeting system_prompt tools knowledge_base_ids,
        refl,
        refl,
        names_list_same py tools,
        names_list_same py knowledge_base_ids,
      ),
    )
