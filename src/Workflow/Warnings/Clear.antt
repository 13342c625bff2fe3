-- ===== src/Workflow/Warnings/Clear.antt =====
-- What it means that `graph_warnings` of libs/config_sdk/workflow.py finds nothing.
use yuviz.Base.{
  true, false, none, some, List, [], ◌∷◌, ◌++◌, Text, text_eq, ◌≡◌, ◌⊎◌, inl, inr, refl, subst, All,
  All-imp, arith, Bool-cases,
}
use yuviz.Base.Dict.{lookup}
use yuviz.Workflow.Graph.{
  Node, WorkflowGraph, values, NodeType, start, global, type_is_start, type_is_unwired, is_unwired,
  node, no_path, WorkflowError,
}
use yuviz.Workflow.Validate.Wiring.{All-lookup, AreSteps-lookup, LeadsTo}
use yuviz.Workflow.Validate.WellFormed.{IsWellFormed, IsWired}
use yuviz.Workflow.Reachable.{has}
use yuviz.Workflow.Available.Sets.{has-append}
use yuviz.Workflow.Available.Ways.{Leads, led_start, led_move, goes_to-All, Leads-closed}
use yuviz.Workflow.Available.Kept.{captured, IsSure, IsReach}
use yuviz.Workflow.Available.Exact.{reachable-IsReach, variables_available_at_iff}
use yuviz.Workflow.Warnings.{
  call_context_variables, template_variables, place_of, warn_templates, or_blank,
  declared_variables, warn_speeches, warn_node, warn_nodes, graph_warnings,
}
use yuviz.Workflow.Warnings.Nil.{append_nil, warn_templates_nil, warn_speeches_nil}

module _ (g : WorkflowGraph) (always : List Text) where
  -- The variable is of the call, or every way to the step captures it.
  abbrev pub IsThere : Text → Text → Type 0
  IsThere k x = (has always x ≡ true) ⊎ IsSure g k x

  -- All that is spoken at a step has its variables: on entering it, and on leaving it, with those
  -- that the step itself captures.
  pub record IsSupplied (k : Text) (n : Node) : Type 0 where
    pub prompt : (x : Text) → has (template_variables n.prompt) x ≡ true → IsThere k x
    pub greeting :
        (x : Text) → has (template_variables (or_blank n.greeting)) x ≡ true → IsThere k x
    pub speeches :
        All
          (λ e.
            (x : Text)
            → has (template_variables (or_blank e.transition_speech)) x ≡ true
            → (has always x ≡ true)
              ⊎ ((left : List Text) → Leads g left k → captured g x (k ∷ left) ≡ true))
          n.out_edges

  module _ (declared : List Text) (w : IsWellFormed g) (reached : List Text)
      (r : IsReach g reached) where
    either :
        {Q : Type 0} (x : Text) (found : List Text)
        → has (always ++ found) x ≡ true
        → (has found x ≡ true → Q)
        → (has always x ≡ true) ⊎ Q
    either x found h f = elim (Bool-cases (has always x)) [
      | inl y ↦ inl y
      | inr n ↦ inr (f (ground (arith, n, h, has-append always found x)))
    ]

    -- A step gets its warnings; with none, and if it is reached, it has its variables.
    warn_node_lem :
        (n : Node)
        → (out : List WorkflowError) × (warn_node g always declared reached n ≡ some out)
          × (out ≡ [] → is_unwired n ≡ false → has reached n.id ≡ true → IsSupplied n.id n)
    unfolding warn_node
    warn_node_lem n = elim (Bool-cases (is_unwired n)) [
      | inl u ↦ (
        warn_templates (place_of n "prompt" true) n.prompt always declared,
        rw (warn_node, u) refl,
        λ _ m. absurd (ground (arith, u, m)),
      )
      | inr m ↦ elim (Bool-cases (has reached n.id)) [
        | inr out ↦ (
          record { kind = node; at = some n.id; field = none; message = no_path } ∷ [],
          rw (warn_node, m, out) refl,
          λ _ _ h. absurd (ground (arith, out, h)),
        )
        | inl inside ↦
            let (left, way) = r.led n.id inside in
            let (a, found_a, is_a) = variables_available_at_iff g n.id false left w way in
            let (b, found_b, is_b) = variables_available_at_iff g n.id true left w way in
            (
              warn_templates (place_of n "prompt" false) n.prompt (always ++ a) declared
                  ++ warn_templates (place_of n "greeting" false) (or_blank n.greeting)
                      (always ++ a) declared
                  ++ warn_speeches n.out_edges (always ++ b) declared,
              rw (warn_node, m, inside, found_a, found_b) refl,
              λ h _ _.
                  let (firsts, no_speech) = append_nil _ _ h in
                  let (no_prompt, no_greeting) = append_nil _ _ firsts in
                  record {
                    prompt = λ x k.
                        either x a
                          (warn_templates_nil (place_of n "prompt" false) n.prompt (always ++ a)
                            declared no_prompt x k)
                          (is_a x).0;
                    greeting = λ x k.
                        either x a
                          (warn_templates_nil (place_of n "greeting" false) (or_blank n.greeting)
                            (always ++ a) declared no_greeting x k)
                          (is_a x).0;
                    speeches =
                        All-imp _ _ n.out_edges (λ e f x k. either x b (f x k) (is_b x).0)
                          (warn_speeches_nil n.out_edges (always ++ b) declared no_speech);
                  },
            )
      ]
    ]

    warn_nodes_lem :
        (ns : List Node)
        → (out : List WorkflowError) × (warn_nodes g always declared reached ns ≡ some out)
          × (out ≡ []
              → All (λ n. is_unwired n ≡ false → has reached n.id ≡ true → IsSupplied n.id n) ns)
    unfolding warn_nodes
    warn_nodes_lem [] = ([], refl, λ _. tt)
    warn_nodes_lem (n ∷ ns) =
        let (found, e, f) = warn_node_lem n in
        let (more, d, h) = warn_nodes_lem ns in
        (
          found ++ more,
          rw (warn_nodes, e, d) refl,
          λ empty. let (a, b) = append_nil found more empty in (f a, h b),
        )

start_wired : (t : NodeType) → type_is_start t ≡ true → type_is_unwired t ≡ false
start_wired start h = refl
start_wired global h = absurd (ground (arith, h))
start_wired _ h = absurd (ground (arith, h))

-- A step that a way leads to is wired.
led_wired :
    (g : WorkflowGraph) {left : List Text} (k : Text) (n : Node)
    → IsWellFormed g
    → Leads g left k
    → lookup k g.nodes ≡ some n
    → is_unwired n ≡ false
led_wired g _ n w led_start at =
    let same : w.start_node ≡ n = ground (arith, w.entered, at) in
    let typed : type_is_start n.type ≡ true =
      subst (λ (m : Node). type_is_start m.type ≡ true) same w.is_start in
    start_wired n.type typed
led_wired g _ n w (led_move p k m way known goes) at =
    let wired = All-lookup (IsWired g.nodes) p m g.nodes w.wired known in
    let to : LeadsTo g.nodes k =
      goes_to-All (LeadsTo g.nodes) k m.out_edges (All-imp _ _ m.out_edges (λ e h. h.2) wired.moves)
        goes in
    let same : to.target_node ≡ n = ground (arith, to.found, at) in
    subst (λ (o : Node). is_unwired o ≡ false) same to.not_global

-- The warnings of a well-formed graph can be computed. Where there are none, all that is spoken at a
-- step that a call can reach has its variables: each is of the call, or known, or every way to the step
-- captures it; a sentence spoken on leaving the step may also have those that the step captures.
pub graph_warnings_clear :
    (g : WorkflowGraph) (known : List Text)
    → IsWellFormed g
    → (out : List WorkflowError) × (graph_warnings g known ≡ some out)
      × (out ≡ []
          → (left : List Text) (k : Text) (n : Node) → Leads g left k
          → lookup k g.nodes ≡ some n
          → IsSupplied g (call_context_variables ++ known) k n)
unfolding graph_warnings
graph_warnings_clear g known w =
    let (reached, done, r) = reachable-IsReach g w in
    let always = call_context_variables ++ known in
    let (out, e, clear) =
      warn_nodes_lem g always (declared_variables (values g.nodes)) w reached r (values g.nodes) in
    (
      out,
      rw (graph_warnings, done) e,
      λ empty left k n way at.
          let key = AreSteps-lookup k n g.nodes w.steps at in
          let inside = Leads-closed g (λ j. has reached j ≡ true) r.closed r.start way in
          let node = All-lookup _ k n g.nodes (clear empty) at in
          subst (λ (j : Text). IsSupplied g always j n) key
            (node (led_wired g k n w way at) (rw key inside)),
    )
