-- ===== src/Examples/Graphs.antt =====
-- Raw workflows: libs/config_sdk/workflow.py and services/conversation/workflow/runner.py.
use yuviz.Base.{true, none, some, List, [], ◌∷◌, codes, text_eq, ◌≡◌, refl, ◌⊎◌, arith}
use yuviz.Workflow.Graph.{WorkflowGraph, WorkflowError}
use yuviz.Workflow.Validate.WellFormed.{IsWellFormed}
use yuviz.Workflow.Raw.{
  Json, not_finite, infinity, array, object, no_items, item, field, no_fields, Python, as_object,
  get, data_object, int_or_zero, delayed_start, node_from_raw,
}
use yuviz.Workflow.Parse.{parsed, invalid, overflow, parse_graph, validate_raw, coerced_nodes}
use yuviz.Workflow.Parse.Checked.{HasEndlessDelay, parse_graph_decides}
use yuviz.Runner.Resolve.{
  RuntimeConfig, resolve_graph, fallback_tools, str_names_from_raw, iterate, scrape,
}
use yuviz.Runner.Resolved.{IsCache, CanScrape, IsRunnable}
use yuviz.Runner.Runnable.{resolve_graph-IsRunnable}

abbrev plain_python : Python
plain_python = record { shown = λ j. codes "None"; int_of = λ t. none }

-- a workflow without a step
abbrev no_steps : Json
no_steps = object (field (codes "nodes") (array no_items) no_fields)

-- a workflow of one step, whose delay is infinite
abbrev endless_delay : Json
endless_delay = object (
    field (codes "nodes")
      (array (
        item
          (object (
            field (codes "data")
              (object (field (codes "delayed_start_ms") (not_finite infinity) no_fields))
              no_fields))
          no_items))
      no_fields)

endless_delay_overflows : parse_graph plain_python endless_delay ≡ overflow
unfolding parse_graph validate_raw coerced_nodes node_from_raw delayed_start int_or_zero get
    data_object
endless_delay_overflows = refl

parse_graph_decides_example :
    ((g : WorkflowGraph) × (parse_graph plain_python endless_delay ≡ parsed g) × IsWellFormed g)
    ⊎ (((e : WorkflowError) × (es : List WorkflowError) × (parse_graph plain_python endless_delay
            ≡ invalid (e ∷ es)))
        ⊎ ((parse_graph plain_python endless_delay ≡ overflow) × HasEndlessDelay endless_delay))
parse_graph_decides_example = parse_graph_decides plain_python endless_delay

empty_IsCache : IsCache []
empty_IsCache = record { graphs = tt; bounded = omega arith }

-- a published workflow without a step, and a draft whose step has an infinite delay
abbrev drafted : RuntimeConfig
drafted = record {
  key = 1;
  version = 7;
  greeting = none;
  system_prompt = some (codes "Be kind.");
  tool_names = [];
  workflow = no_steps;
  workflow_draft = endless_delay;
}

endless_delay-CanScrape : CanScrape drafted (as_object endless_delay)
unfolding fallback_tools str_names_from_raw iterate scrape
endless_delay-CanScrape = (refl, refl)

no_steps-CanScrape : CanScrape drafted (some (field (codes "nodes") (array no_items) no_fields))
unfolding fallback_tools str_names_from_raw iterate scrape
no_steps-CanScrape = (refl, refl)

resolve_graph-IsRunnable_example : IsRunnable (resolve_graph plain_python true drafted [])
resolve_graph-IsRunnable_example =
    resolve_graph-IsRunnable plain_python true drafted [] no_steps-CanScrape
      (λ over. endless_delay-CanScrape) empty_IsCache
