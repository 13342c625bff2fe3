-- ===== src/Orchestrator/Rules.antt =====
-- How a property of a turn of services/conversation/tools/orchestrator.py is proved: for each of its
-- parts, and then for the whole.
use yuviz.Base.{
  ◌+◌, Bool, ◌&&◌, string_eq, List, [], ◌∷◌, ◌++◌, map, leb, Bool-cases, Option-cases, List-cases,
  inl, inr, some, ◌≡◌,
}
use yuviz.Base.Dict.{lookup}
use yuviz.Tools.{ToolResult}
use yuviz.Policy.{contains}
use yuviz.Orchestrator.History.{ToolCallEvent, fold_tool_result}
use yuviz.Orchestrator.Checks.{check_requested_date}
use yuviz.Orchestrator.Shapes.{
  TurnEvent, token, local_tool_completed, tool_call_started, deterministic_spoken, Reply, LocalTool,
  ToolCallOrchestrator, Turn,
}
use yuviz.Orchestrator.{
  resolve_tools, run_local, execute_tool_call, is_cancelled, call_local, call_remote, call_any,
  settle_call, round, rounds,
}

module _ {W : Type 0} where
  -- What the parts of a round do to a property: events do not matter to it, and it is kept by the
  -- tools that are resolved anew, by a local call, by requests that are sent, and by an answer.
  pub record IsKept (o : ToolCallOrchestrator W) (P : Turn W → Type 0) : Type 1 where
    pub resolved : (t : Turn W) → P t → P (resolve_tools o t)
    pub yielded : (t : Turn W) (events : List TurnEvent) → P t → P (record t { events = events })
    pub moved :
        (t : Turn W) (tool : LocalTool W) (event : ToolCallEvent) (interrupted : Bool)
        → lookup event.tool_name t.offered_local ≡ some tool
        → P t
        → P (run_local tool event interrupted t).0
    pub sent :
        (t : Turn W) (event : ToolCallEvent) (interrupted : Bool) (events : List TurnEvent)
        → P t
        → P (record t {
          iteration = t.iteration + 1;
          events = events;
          requests = t.requests ++ (execute_tool_call o event interrupted t.policies).1;
        })
    pub answered :
        (t : Turn W) (event : ToolCallEvent) (r : ToolResult)
        → P t
        → P (record t { history = fold_tool_result event r t.history })

  module _ (o : ToolCallOrchestrator W) (P : Turn W → Type 0) (kept : IsKept o P) where
    call_local-IsKept :
        (tool : LocalTool W) (event : ToolCallEvent) (interrupted : Bool) (t : Turn W)
        → lookup event.tool_name t.offered_local ≡ some tool
        → P t
        → P (call_local o tool event interrupted t).0
    unfolding call_local
    call_local-IsKept tool event interrupted t found p =
        let (counted, r) = run_local tool event interrupted t in
        let held = kept.moved t tool event interrupted found p in
        elim (Bool-cases (is_cancelled r)) [
          | inl stopped ↦ rw (call_local, stopped) held
          | inr done ↦
              rw (call_local, done)
                (kept.resolved
                  (record counted {
                    events = t.events ++ local_tool_completed event.tool_name ∷ [];
                  })
                  (kept.yielded counted (t.events ++ local_tool_completed event.tool_name ∷ [])
                    held))
        ]

    call_any-IsKept :
        (event : ToolCallEvent) (interrupted : Bool) (t : Turn W)
        → P t
        → P (call_any o event interrupted t).0
    unfolding call_any call_remote
    call_any-IsKept event interrupted t p =
        elim (Option-cases (lookup event.tool_name t.offered_local)) [
          | inr (tool, found) ↦
              rw (call_any, found) (call_local-IsKept tool event interrupted t found p)
          | inl missing ↦
              let full =
                leb o.max_local_tool_calls t.local_calls
                && contains t.seen_local_names event.tool_name in
              let (checked, rejected) =
                check_requested_date o.iso o.hearing o.today event t.history in
              elim (Bool-cases full) [
                | inl reached ↦ rw (call_any, missing, reached) p
                | inr below ↦ elim (Option-cases rejected) [
                  | inr (r, refused) ↦ rw (call_any, missing, below, refused) p
                  | inl fine ↦
                      rw (call_any, missing, below, fine)
                        (kept.sent t checked interrupted
                          (t.events ++ tool_call_started checked.tool_name ∷ []) p)
                ]
              ]
        ]

    settle_call-IsKept :
        (event : ToolCallEvent) (r : ToolResult) (t : Turn W) → P t → P (settle_call o event r t).0
    unfolding settle_call
    settle_call-IsKept event r t p =
        let folded : Turn W = record t { history = fold_tool_result event r t.history } in
        let held = kept.answered t event r p in
        elim (Option-cases r.deterministic_response) [
          | inr (text, spoken) ↦
              rw (settle_call, spoken)
                (kept.yielded folded
                  (t.events ++ deterministic_spoken text r.confirmed_datetime ∷ []) held)
          | inl silent ↦ elim (Bool-cases (is_cancelled r)) [
            | inl stopped ↦ rw (settle_call, silent, stopped) held
            | inr running ↦ elim (Bool-cases (leb o.max_tool_iterations t.iteration)) [
              | inl late ↦ rw (settle_call, silent, running, late) (kept.resolved folded held)
              | inr early ↦ rw (settle_call, silent, running, early) held
            ]
          ]
        ]

    round-IsKept : (reply : Reply) (t : Turn W) → P t → P (round o reply t).0
    unfolding round
    round-IsKept reply t p =
        let heard : Turn W = record t { events = t.events ++ map token reply.tokens } in
        let held = kept.yielded t (t.events ++ map token reply.tokens) p in
        elim (List-cases t.schemas) [
          | inl nothing ↦ rw (round, nothing) held
          | inr (d, ds, offered) ↦ elim (Option-cases reply.call) [
            | inl words ↦ rw (round, offered, words) held
            | inr (event, call) ↦
                let (after, checked, r) = call_any o event reply.interrupted heard in
                rw (round, offered, call)
                  (settle_call-IsKept checked r after
                    (call_any-IsKept event reply.interrupted heard held))
          ]
        ]

    -- What the parts of a round keep holds when the replies are used up, or the turn is over.
    pub rounds-IsKept : (replies : List Reply) (t : Turn W) → P t → P (rounds o replies t).0
    unfolding rounds
    rounds-IsKept [] t p = p
    rounds-IsKept (reply ∷ replies) t p =
        let held = round-IsKept reply t p in
        elim (Bool-cases (round o reply t).1) [
          | inl goes_on ↦ rw (rounds, goes_on) (rounds-IsKept replies (round o reply t).0 held)
          | inr over ↦ rw (rounds, over) held
        ]
