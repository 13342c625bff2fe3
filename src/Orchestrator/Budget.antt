-- ===== src/Orchestrator/Budget.antt =====
-- The budgets of a turn of services/conversation/tools/orchestrator.py: how many calls there can be.
use yuviz.Base.{
  ◌≤◌, true, string_eq, List, [], ◌∷◌, ◌++◌, length, leb, ◌≡◌, map, List-cases, arith, Bool-cases,
  Option-cases, inl, inr,
}
use yuviz.Tools.{ToolResult}
use yuviz.Orchestrator.History.{ToolCallEvent, ChatMessage, fold_tool_result}
use yuviz.Orchestrator.Shapes.{TurnEvent, token, Reply, ToolCallOrchestrator, Turn}
use yuviz.Orchestrator.{
  is_cancelled, call_any, settle_call, round, rounds, fresh_turn, begin_turn, run_turn,
}
use yuviz.Orchestrator.Counting.{
  IsCounted, IsWithin, resolve_tools-IsWithin, AfterCall, call_any-AfterCall,
}

module _ {W : Type 0} where
  settle_call-IsWithin :
      (o : ToolCallOrchestrator W) (event : ToolCallEvent) (r : ToolResult) (t : Turn W)
      → AfterCall o r t
      → IsCounted o (settle_call o event r t).0
        × ((settle_call o event r t).1 ≡ true → IsWithin o (settle_call o event r t).0)
  unfolding settle_call
  settle_call-IsWithin o event r t (c, capped) =
      let folded : Turn W = record t { history = fold_tool_result event r t.history } in
      let same : IsCounted o folded = record {
        calls = c.calls;
        run = c.run;
        sent = c.sent;
        early = c.early;
      } in
      elim (Option-cases r.deterministic_response) [
        | inr (text, spoken) ↦
            rw (settle_call, spoken)
              (
                record { calls = c.calls; run = c.run; sent = c.sent; early = c.early },
                λ h. absurd (ground (arith, h)),
              )
        | inl silent ↦ elim (Bool-cases (is_cancelled r)) [
          | inl stopped ↦ rw (settle_call, silent, stopped) (same, λ h. absurd (ground (arith, h)))
          | inr running ↦ elim (Bool-cases (leb o.max_tool_iterations t.iteration)) [
            | inl late ↦
                let within = resolve_tools-IsWithin o folded same in
                rw (settle_call, silent, running, late) (within.counted, λ h. within)
            | inr early ↦
                rw (settle_call, silent, running, early)
                  (
                    same,
                    λ h. record {
                      counted = same;
                      late = λ k. absurd (ground (arith, early, k));
                      capped = capped running;
                    },
                  )
          ]
        ]
      ]

  pub heard-IsWithin :
      (o : ToolCallOrchestrator W) (t : Turn W) (events : List TurnEvent)
      → IsWithin o t
      → IsWithin o (record t { events = events })
  heard-IsWithin o t events w = record {
    counted = record {
      calls = w.counted.calls;
      run = w.counted.run;
      sent = w.counted.sent;
      early = w.counted.early;
    };
    late = w.late;
    capped = w.capped;
  }

  pub round-IsWithin :
      (o : ToolCallOrchestrator W) (reply : Reply) (t : Turn W)
      → IsWithin o t
      → IsCounted o (round o reply t).0
        × ((round o reply t).1 ≡ true → IsWithin o (round o reply t).0)
  unfolding round
  round-IsWithin o reply t w =
      let heard : Turn W = record t { events = t.events ++ map token reply.tokens } in
      let same : IsCounted o heard = record {
        calls = w.counted.calls;
        run = w.counted.run;
        sent = w.counted.sent;
        early = w.counted.early;
      } in
      let within : IsWithin o heard = record { counted = same; late = w.late; capped = w.capped } in
      elim (List-cases t.schemas) [
        | inl nothing ↦ rw (round, nothing) (same, λ h. absurd (ground (arith, h)))
        | inr (d, ds, some_offered) ↦ elim (Option-cases reply.call) [
          | inl words ↦ rw (round, some_offered, words) (same, λ h. absurd (ground (arith, h)))
          | inr (event, call) ↦
              rw (round, some_offered, call)
                (settle_call-IsWithin o (call_any o event reply.interrupted heard).1
                  (call_any o event reply.interrupted heard).2
                  (call_any o event reply.interrupted heard).0
                  (call_any-AfterCall o event reply.interrupted heard within))
        ]
      ]

  rounds-IsCounted :
      (o : ToolCallOrchestrator W) (replies : List Reply) (t : Turn W)
      → IsWithin o t
      → IsCounted o (rounds o replies t).0
  unfolding rounds
  rounds-IsCounted o [] t w = w.counted
  rounds-IsCounted o (reply ∷ replies) t w =
      let (counted, within) = round-IsWithin o reply t w in
      elim (Bool-cases (round o reply t).1) [
        | inl goes_on ↦
            rw (rounds, goes_on) (rounds-IsCounted o replies (round o reply t).0 (within goes_on))
        | inr over ↦ rw (rounds, over) counted
      ]

  pub begin_turn-IsWithin :
      (o : ToolCallOrchestrator W) (history : List ChatMessage) (w : W)
      → IsWithin o (begin_turn o history w)
  unfolding begin_turn
  begin_turn-IsWithin o history w = resolve_tools-IsWithin o (fresh_turn history w) (record {
    calls = omega arith;
    run = omega arith;
    sent = omega arith;
    early = λ h. omega arith;
  })

  -- Whatever the model replies, and whatever the tools do: in a turn no more calls are handed to a local
  -- handler, and no more requests reach an executor, than the limits allow.
  pub run_turn-IsCounted :
      (o : ToolCallOrchestrator W) (history : List ChatMessage) (w : W) (replies : List Reply)
      → (length (run_turn o history w replies).0.handled ≤ o.max_local_tool_calls)
        × (length (run_turn o history w replies).0.requests ≤ o.max_tool_iterations)
  unfolding run_turn begin_turn
  run_turn-IsCounted o history w replies =
      let counted =
        rounds-IsCounted o replies (begin_turn o history w) (begin_turn-IsWithin o history w) in
      (omega (arith, counted.run, counted.calls), counted.sent)
