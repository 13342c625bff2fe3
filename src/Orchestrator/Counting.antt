-- ===== src/Orchestrator/Counting.antt =====
-- What one call of a tool in services/conversation/tools/orchestrator.py takes from the budgets of a turn.
use yuviz.Base.{
  ◌≤◌, ◌<◌, Bool, false, ◌&&◌, String, string_eq, some, List, [], ◌∷◌, ◌++◌, length, length-append,
  leb, leb_of_le, ◌≡◌, refl, ap, subst, arith, Bool-cases, Option-cases, inl, inr,
}
use yuviz.Base.Dict.{lookup}
use yuviz.Tools.{ToolResult}
use yuviz.Policy.{ResolvedToolPolicy, contains}
use yuviz.Orchestrator.History.{ToolCallEvent}
use yuviz.Orchestrator.Checks.{check_requested_date}
use yuviz.Orchestrator.Shapes.{local_tool_completed, LocalTool, ToolCallOrchestrator, Turn}
use yuviz.Orchestrator.{
  resolve_tools, run_local, execute_tool_call, is_cancelled, call_local, call_remote, call_any,
}

module _ {W : Type 0} where
  -- The local calls and the requests that were sent are within the limits.
  pub record IsCounted (o : ToolCallOrchestrator W) (t : Turn W) : Type 0 where
    pub calls : t.local_calls ≤ o.max_local_tool_calls
    pub run : length t.handled ≤ t.local_calls
    pub sent : length t.requests ≤ o.max_tool_iterations
    pub early : t.iteration < o.max_tool_iterations → length t.requests ≤ t.iteration

  -- Besides, nothing is offered whose budget is used up.
  pub record IsWithin (o : ToolCallOrchestrator W) (t : Turn W) : Type 0 where
    pub counted : IsCounted o t
    pub late : o.max_tool_iterations ≤ t.iteration → t.policies ≡ []
    pub capped : o.max_local_tool_calls ≤ t.local_calls → t.offered_local ≡ []

  pub resolve_tools-IsWithin :
      (o : ToolCallOrchestrator W) (t : Turn W) → IsCounted o t → IsWithin o (resolve_tools o t)
  unfolding resolve_tools
  resolve_tools-IsWithin o t c = record {
    counted = record { calls = c.calls; run = c.run; sent = c.sent; early = c.early };
    late = λ h. rw (resolve_tools, leb_of_le o.max_tool_iterations t.iteration h) refl;
    capped = λ h. rw (resolve_tools, leb_of_le o.max_local_tool_calls t.local_calls h) refl;
  }

  execute_tool_call-sent :
      (o : ToolCallOrchestrator W) (event : ToolCallEvent) (interrupted : Bool)
      (policies : List (String × ResolvedToolPolicy))
      → length (execute_tool_call o event interrupted policies).1 ≤ 1
  unfolding execute_tool_call
  execute_tool_call-sent o event interrupted policies =
      elim (Option-cases (lookup event.tool_name policies)) [
        | inl missing ↦ ground (arith, missing)
        | inr (policy, found) ↦ ground (arith, found)
      ]

  execute_tool_call-none :
      (o : ToolCallOrchestrator W) (event : ToolCallEvent) (interrupted : Bool)
      → (execute_tool_call o event interrupted []).1 ≡ []
  unfolding execute_tool_call
  execute_tool_call-none o event interrupted = refl

  call_remote-IsCounted :
      (o : ToolCallOrchestrator W) (event : ToolCallEvent) (interrupted : Bool) (t : Turn W)
      → IsWithin o t
      → IsCounted o (call_remote o event interrupted t).0
  unfolding call_remote
  call_remote-IsCounted o event interrupted t w =
      let sent = (execute_tool_call o event interrupted t.policies).1 in
      let more = length-append t.requests sent in
      let one = execute_tool_call-sent o event interrupted t.policies in
      elim (Bool-cases (leb o.max_tool_iterations t.iteration)) [
        | inl late ↦
            let gone : t.policies ≡ [] = w.late (ground (arith, late)) in
            let nothing : length sent ≡ 0 =
              rw gone (ap length (execute_tool_call-none o event interrupted)) in
            record {
              calls = w.counted.calls;
              run = w.counted.run;
              sent = omega (arith, more, nothing, w.counted.sent);
              early = λ h. absurd (ground (arith, late, h));
            }
        | inr early ↦
            let before : t.iteration < o.max_tool_iterations = ground (arith, early) in
            let few = w.counted.early before in
            record {
              calls = w.counted.calls;
              run = w.counted.run;
              sent = omega (arith, more, one, few, before);
              early = λ h. omega (arith, more, one, few);
            }
      ]

  -- A call leaves the counts within the limits, and the local tools too unless it was interrupted.
  abbrev pub AfterCall : ToolCallOrchestrator W → ToolResult → Turn W → Type 0
  AfterCall o r t =
      IsCounted o t
      × (is_cancelled r ≡ false → o.max_local_tool_calls ≤ t.local_calls → t.offered_local ≡ [])

  pub below_cap :
      (o : ToolCallOrchestrator W) (t : Turn W) (name : String) (tool : LocalTool W)
      → IsWithin o t
      → lookup name t.offered_local ≡ some tool
      → t.local_calls < o.max_local_tool_calls
  below_cap o t name tool w found = elim (Bool-cases (leb o.max_local_tool_calls t.local_calls)) [
    | inr below ↦ ground (arith, below)
    | inl full ↦
        let empty = w.capped (ground (arith, full)) in
        let lost =
          subst (λ (tools : List (String × LocalTool W)). lookup name tools ≡ some tool) empty
            found in
        absurd (ground (arith, lost))
  ]

  call_local-AfterCall :
      (o : ToolCallOrchestrator W) (tool : LocalTool W) (event : ToolCallEvent) (interrupted : Bool)
      (t : Turn W)
      → IsWithin o t
      → lookup event.tool_name t.offered_local ≡ some tool
      → AfterCall o
          (call_local o tool event interrupted t).1
          (call_local o tool event interrupted t).0
  unfolding call_local run_local
  call_local-AfterCall o tool event interrupted t w found =
      let (counted, r) = run_local tool event interrupted t in
      let left : t.local_calls < o.max_local_tool_calls =
        below_cap o t event.tool_name tool w found in
      let one_more = length-append t.handled (event ∷ []) in
      elim (Bool-cases (is_cancelled r)) [
        | inl stopped ↦ (
          rw (call_local, stopped)
              (record {
                calls = omega (arith, left);
                run = omega (arith, one_more, w.counted.run);
                sent = w.counted.sent;
                early = w.counted.early;
              }),
          λ other. absurd (ground (arith, stopped, other)),
        )
        | inr done ↦
            let moved : Turn W = record counted {
              events = t.events ++ local_tool_completed event.tool_name ∷ [];
            } in
            let within = resolve_tools-IsWithin o moved (record {
              calls = omega (arith, left);
              run = omega (arith, one_more, w.counted.run);
              sent = w.counted.sent;
              early = w.counted.early;
            }) in
            (rw (call_local, done) within.counted, rw (call_local, done) (λ other. within.capped))
      ]

  pub call_any-AfterCall :
      (o : ToolCallOrchestrator W) (event : ToolCallEvent) (interrupted : Bool) (t : Turn W)
      → IsWithin o t
      → AfterCall o (call_any o event interrupted t).2 (call_any o event interrupted t).0
  unfolding call_any call_remote
  call_any-AfterCall o event interrupted t w =
      elim (Option-cases (lookup event.tool_name t.offered_local)) [
        | inr (tool, found) ↦
            rw (call_any, found) (call_local-AfterCall o tool event interrupted t w found)
        | inl missing ↦
            elim (Bool-cases (
              leb o.max_local_tool_calls t.local_calls
              && contains t.seen_local_names event.tool_name)) [
                | inl full ↦ rw (call_any, missing, full) (w.counted, λ other. w.capped)
                | inr room ↦
                    elim (Option-cases
                      (check_requested_date o.iso o.hearing o.today event t.history).1) [
                        | inr (r, rejected) ↦
                            rw (call_any, missing, room, rejected) (w.counted, λ other. w.capped)
                        | inl fine ↦
                            rw (call_any, missing, room, fine)
                              (
                                call_remote-IsCounted o
                                    (check_requested_date o.iso o.hearing o.today event t.history).0
                                    interrupted t w,
                                λ other. w.capped,
                              )
                      ]
              ]
      ]
