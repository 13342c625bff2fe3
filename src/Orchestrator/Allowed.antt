-- ===== src/Orchestrator/Allowed.antt =====
-- Which requests of a turn of services/conversation/tools/orchestrator.py reach an executor.
use yuviz.Base.{
  Bool, true, String, string_eq, some, List, [], ◌∷◌, map, leb, All, All-append, All-imp,
  Bool-cases, Option-cases, inl, inr, ◌≡◌, refl, subst, arith, beq_refl,
}
use yuviz.Base.Dict.{lookup, insert}
use yuviz.Policy.{ResolvedToolPolicy, tool_name_of, contains, narrow}
use yuviz.Orchestrator.History.{ToolCallEvent, ChatMessage}
use yuviz.Orchestrator.Shapes.{Reply, ToolCallOrchestrator, Turn}
use yuviz.Orchestrator.{
  resolve_tools, run_local, policies_by_name, execute_tool_call, fresh_turn, begin_turn, run_turn,
}
use yuviz.Orchestrator.Rules.{IsKept, rounds-IsKept}

insert-All :
    (P : String → Type 0) (name : String) (p : ResolvedToolPolicy)
    (named : List (String × ResolvedToolPolicy))
    → P name
    → All (λ e. P e.0) named
    → All (λ e. P e.0) (insert name p named)
insert-All P name p [] h k = (h, tt)
insert-All P name p ((key, q) ∷ named) h k = elim (Bool-cases (string_eq.is_same key name)) [
  | inl y ↦ rw y (k.0, k.1)
  | inr n ↦ rw n (k.0, insert-All P name p named h k.1)
]

policies_by_name-All :
    (P : String → Type 0) (ps : List ResolvedToolPolicy)
    (named : List (String × ResolvedToolPolicy))
    → All (λ p. P (tool_name_of p)) ps
    → All (λ e. P e.0) named
    → All (λ e. P e.0) (policies_by_name ps named)
policies_by_name-All P [] named h k = k
policies_by_name-All P (p ∷ ps) named h k =
    policies_by_name-All P ps (insert (tool_name_of p) p named) h.1
      (insert-All P (tool_name_of p) p named h.0 k)

lookup-All :
    (P : String → Type 0) (name : String) (p : ResolvedToolPolicy)
    (named : List (String × ResolvedToolPolicy))
    → All (λ e. P e.0) named
    → lookup name named ≡ some p
    → P name
lookup-All P name p [] h found = absurd (ground (arith, found))
lookup-All P name p ((key, q) ∷ named) h found = elim (Bool-cases (string_eq.is_same key name)) [
  | inl y ↦ subst P ((string_eq.is_same_iff key name).0 y) h.0
  | inr n ↦ lookup-All P name p named h.1 (ground (arith, n, found))
]

contains_more :
    (names : List String) (name other : String)
    → contains names name ≡ true
    → contains (other ∷ names) name ≡ true
contains_more names name other h = ground (arith, h)

contains-All :
    (ps : List ResolvedToolPolicy)
    → All (λ p. contains (map tool_name_of ps) (tool_name_of p) ≡ true) ps
contains-All [] = tt
contains-All (p ∷ ps) = (
  rw (beq_refl (tool_name_of p)) refl,
  All-imp _ _ ps (λ q h. contains_more (map tool_name_of ps) (tool_name_of q) (tool_name_of p) h)
      (contains-All ps),
)

module _ {W : Type 0} (o : ToolCallOrchestrator W) where
  -- At some state of the call, the tool was among the enabled policies that the state allows.
  abbrev pub IsAllowed : String → Type 0
  IsAllowed name =
      (w : W) × (contains (map tool_name_of (narrow o.enabled (o.only_tools w))) name ≡ true)

  abbrev Held : Turn W → Type 0
  Held t = All (λ e. IsAllowed e.0) t.policies × All (λ q. IsAllowed q.tool_name) t.requests

  resolve_tools-Held : (t : Turn W) → Held t → Held (resolve_tools o t)
  unfolding resolve_tools
  resolve_tools-Held t h =
      let allowed = narrow o.enabled (o.only_tools t.world) in
      let named =
        policies_by_name-All IsAllowed allowed []
          (All-imp _ _ allowed (λ p k. (t.world, k)) (contains-All allowed)) tt in
      elim (Bool-cases (leb o.max_tool_iterations t.iteration)) [
        | inl late ↦ rw (resolve_tools, late) (tt, h.1)
        | inr early ↦ rw (resolve_tools, early) (named, h.1)
      ]

  execute_tool_call-IsAllowed :
      (event : ToolCallEvent) (interrupted : Bool) (policies : List (String × ResolvedToolPolicy))
      → All (λ e. IsAllowed e.0) policies
      → All (λ q. IsAllowed q.tool_name) (execute_tool_call o event interrupted policies).1
  unfolding execute_tool_call
  execute_tool_call-IsAllowed event interrupted policies h =
      elim (Option-cases (lookup event.tool_name policies)) [
        | inl missing ↦ rw (execute_tool_call, missing) tt
        | inr (policy, found) ↦
            let fine = lookup-All IsAllowed event.tool_name policy policies h found in
            elim (Bool-cases (o.has_provider policy)) [
              | inr x ↦ rw (execute_tool_call, found, x) tt
              | inl y ↦ elim (Bool-cases (o.has_executor event.tool_name)) [
                | inr x ↦ rw (execute_tool_call, found, y, x) tt
                | inl z ↦ rw (execute_tool_call, found, y, z) (fine, tt)
              ]
            ]
      ]

  Held-IsKept : IsKept o Held
  unfolding run_local
  Held-IsKept = record {
    resolved = λ t h. resolve_tools-Held t h;
    yielded = λ t events h. h;
    moved = λ t tool event interrupted found h. h;
    sent = λ t event interrupted events h. (
      h.0,
      All-append _ t.requests (execute_tool_call o event interrupted t.policies).1 h.1
          (execute_tool_call-IsAllowed event interrupted t.policies h.0),
    );
    answered = λ t event r h. h;
  }

module _ {W : Type 0} where
  -- Every request that reaches an executor in a turn is for a tool that was among the agent's enabled
  -- policies, as narrowed by a state of the call, whatever names the model calls.
  pub run_turn-IsAllowed :
      (o : ToolCallOrchestrator W) (history : List ChatMessage) (w : W) (replies : List Reply)
      → All (λ q. IsAllowed o q.tool_name) (run_turn o history w replies).0.requests
  unfolding run_turn begin_turn
  run_turn-IsAllowed o history w replies =
      let kept = Held-IsKept o in
      (rounds-IsKept o (Held o) kept replies (begin_turn o history w)
        (kept.resolved (fresh_turn history w) (tt, tt))).1
