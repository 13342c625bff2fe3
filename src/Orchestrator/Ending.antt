-- ===== src/Orchestrator/Ending.antt =====
-- A turn of services/conversation/tools/orchestrator.py that ends.
use yuviz.Base.{
  ℕ, ◌+◌, ◌-◌, ◌<◌, Bool, true, false, ◌&&◌, String, string_eq, none, some, is_some, List, [], ◌∷◌,
  ◌++◌, map, length, leb, ◌≡◌, refl, subst, ◌⊎◌, arith, Bool-cases, Option-cases, List-cases, inl,
  inr,
}
use yuviz.Base.Dict.{lookup}
use yuviz.Tools.{ToolResult}
use yuviz.Policy.{ResolvedToolPolicy, contains}
use yuviz.Orchestrator.History.{ToolCallEvent, ChatMessage}
use yuviz.Orchestrator.Checks.{check_requested_date}
use yuviz.Orchestrator.Shapes.{token, Reply, LocalTool, ToolCallOrchestrator, Turn}
use yuviz.Orchestrator.{
  resolve_tools, run_local, is_cancelled, call_local, call_remote, call_any, settle_call, round,
  rounds, begin_turn, run_turn,
}
use yuviz.Orchestrator.Counting.{IsWithin, below_cap}
use yuviz.Orchestrator.Budget.{begin_turn-IsWithin, heard-IsWithin, round-IsWithin}

module _ {W : Type 0} (o : ToolCallOrchestrator W) where
  -- the calls that are left
  abbrev pub calls_left : Turn W → ℕ
  calls_left t = (o.max_tool_iterations - t.iteration) + (o.max_local_tool_calls - t.local_calls)

  -- The model calls a tool that is offered, and with a date that passes the check if it asks for one.
  abbrev pub IsFit : Turn W → ToolCallEvent → Type 0
  IsFit t event =
      (is_some (lookup event.tool_name t.offered_local) ≡ true)
      ⊎ ((is_some (lookup event.tool_name t.policies) ≡ true)
          × (contains t.seen_local_names event.tool_name ≡ false)
          × ((check_requested_date o.iso o.hearing o.today event t.history).1 ≡ none))

  -- every call of the replies, at the turn where it is made
  abbrev pub AreFit : List Reply → Turn W → Type 0
  AreFit [] t = Unit
  AreFit (reply ∷ replies) t =
      ((event : ToolCallEvent) → reply.call ≡ some event → IsFit t event)
      × AreFit replies (round o reply t).0

  -- one call was counted, of a budget that was not used up
  abbrev IsSpent : Turn W → Turn W → Type 0
  IsSpent t after =
      ((after.local_calls ≡ t.local_calls + 1)
        × (after.iteration ≡ t.iteration)
        × (t.local_calls < o.max_local_tool_calls))
      ⊎ ((after.local_calls ≡ t.local_calls)
          × (after.iteration ≡ t.iteration + 1)
          × (t.iteration < o.max_tool_iterations))

  call_local-counts :
      (tool : LocalTool W) (event : ToolCallEvent) (interrupted : Bool) (t : Turn W)
      → ((call_local o tool event interrupted t).0.local_calls ≡ t.local_calls + 1)
        × ((call_local o tool event interrupted t).0.iteration ≡ t.iteration)
  unfolding call_local run_local resolve_tools
  call_local-counts tool event interrupted t =
      let r = (run_local tool event interrupted t).1 in
      elim (Bool-cases (is_cancelled r)) [
        | inl stopped ↦ rw (call_local, stopped) (refl, refl)
        | inr done ↦ rw (call_local, done) (refl, refl)
      ]

  before_limit :
      (t : Turn W) (name : String) (policy : ResolvedToolPolicy)
      → IsWithin o t
      → lookup name t.policies ≡ some policy
      → t.iteration < o.max_tool_iterations
  before_limit t name policy w found = elim (Bool-cases (leb o.max_tool_iterations t.iteration)) [
    | inr below ↦ ground (arith, below)
    | inl late ↦
        let empty = w.late (ground (arith, late)) in
        let lost =
          subst (λ (ps : List (String × ResolvedToolPolicy)). lookup name ps ≡ some policy) empty
            found in
        absurd (ground (arith, lost))
  ]

  call_any-IsSpent :
      (event : ToolCallEvent) (interrupted : Bool) (t : Turn W)
      → IsWithin o t
      → IsFit t event
      → IsSpent t (call_any o event interrupted t).0
  unfolding call_any call_remote
  call_any-IsSpent event interrupted t w fit =
      elim (Option-cases (lookup event.tool_name t.offered_local)) [
        | inr (tool, found) ↦
            let (calls, iteration) = call_local-counts tool event interrupted t in
            rw (call_any, found)
              (inl (calls, iteration, below_cap o t event.tool_name tool w found))
        | inl missing ↦ elim fit [
          | inl offered ↦ absurd (ground (arith, missing, offered))
          | inr (allowed, unseen, fine) ↦ elim (Option-cases (lookup event.tool_name t.policies)) [
            | inl gone ↦ absurd (ground (arith, gone, allowed))
            | inr (policy, found) ↦
                let uncapped : (leb o.max_local_tool_calls t.local_calls
                      && contains t.seen_local_names event.tool_name)
                    ≡ false =
                  ground (arith, unseen) in
                rw (call_any, missing, uncapped, fine)
                  (inr (refl, refl, before_limit t event.tool_name policy w found))
          ]
        ]
      ]

  settle_call-counts :
      (event : ToolCallEvent) (r : ToolResult) (t : Turn W)
      → ((settle_call o event r t).0.local_calls ≡ t.local_calls)
        × ((settle_call o event r t).0.iteration ≡ t.iteration)
  unfolding settle_call resolve_tools
  settle_call-counts event r t = elim (Option-cases r.deterministic_response) [
    | inr (text, spoken) ↦ rw (settle_call, spoken) (refl, refl)
    | inl silent ↦ elim (Bool-cases (is_cancelled r)) [
      | inl stopped ↦ rw (settle_call, silent, stopped) (refl, refl)
      | inr running ↦ elim (Bool-cases (leb o.max_tool_iterations t.iteration)) [
        | inl late ↦ rw (settle_call, silent, running, late) (refl, refl)
        | inr early ↦ rw (settle_call, silent, running, early) (refl, refl)
      ]
    ]
  ]

  IsSpent-left :
      (t mid after : Turn W)
      → IsSpent t mid
      → after.local_calls ≡ mid.local_calls
      → after.iteration ≡ mid.iteration
      → calls_left after < calls_left t
  IsSpent-left t mid after s calls iteration = elim s [
    | inl (a, b, c) ↦ omega (arith, a, b, c, calls, iteration)
    | inr (a, b, c) ↦ omega (arith, a, b, c, calls, iteration)
  ]

  round-calls_left :
      (reply : Reply) (t : Turn W)
      → IsWithin o t
      → ((event : ToolCallEvent) → reply.call ≡ some event → IsFit t event)
      → ((round o reply t).1 ≡ false) ⊎ (calls_left (round o reply t).0 < calls_left t)
  unfolding round
  round-calls_left reply t w fit =
      let heard : Turn W = record t { events = t.events ++ map token reply.tokens } in
      let within : IsWithin o heard = heard-IsWithin o t (t.events ++ map token reply.tokens) w in
      elim (List-cases t.schemas) [
        | inl nothing ↦ inl (rw (round, nothing) refl)
        | inr (d, ds, offered) ↦ elim (Option-cases reply.call) [
          | inl words ↦ inl (rw (round, offered, words) refl)
          | inr (event, call) ↦
              let (after, checked, r) = call_any o event reply.interrupted heard in
              let (calls, iteration) = settle_call-counts checked r after in
              inr (
                rw (round, offered, call)
                  (IsSpent-left heard after (settle_call o checked r after).0
                    (call_any-IsSpent event reply.interrupted heard within (fit event call)) calls
                    iteration))
        ]
      ]

  rounds-end :
      (replies : List Reply) (t : Turn W)
      → IsWithin o t
      → AreFit replies t
      → calls_left t < length replies
      → (rounds o replies t).1 ≡ true
  unfolding rounds
  rounds-end [] t w fit long = absurd (omega (arith, long))
  rounds-end (reply ∷ replies) t w fit long =
      let (_, within) = round-IsWithin o reply t w in
      elim (Bool-cases (round o reply t).1) [
        | inr over ↦ rw (rounds, over) refl
        | inl goes_on ↦ elim (round-calls_left reply t w fit.0) [
          | inl over ↦ absurd (ground (arith, goes_on, over))
          | inr fewer ↦
              rw (rounds, goes_on)
                (rounds-end replies (round o reply t).0 (within goes_on) fit.1
                  (omega (arith, fewer, long)))
        ]
      ]

module _ {W : Type 0} where
  -- A turn in which the model calls only what is offered, and with dates that pass, is over after one
  -- reply more than there are calls in its two budgets, at the latest.
  pub run_turn_ends :
      (o : ToolCallOrchestrator W) (history : List ChatMessage) (w : W) (replies : List Reply)
      → AreFit o replies (begin_turn o history w)
      → o.max_tool_iterations + o.max_local_tool_calls < length replies
      → (run_turn o history w replies).1 ≡ true
  unfolding run_turn begin_turn resolve_tools
  run_turn_ends o history w replies fit long =
      rounds-end o replies (begin_turn o history w) (begin_turn-IsWithin o history w) fit
        (omega (arith, long))
