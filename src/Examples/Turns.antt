-- ===== src/Examples/Turns.antt =====
-- Turns of services/conversation/tools at small inputs.
use yuviz.Base.{
  ℕ, suc, ◌≤◌, true, false, String, string_eq, none, some, is_some, List, [], ◌∷◌, length, All,
  codes, Text, ◌≡◌, refl, subst, ◌⊎◌, inl, inr, arith,
}
use yuviz.Base.Dict.{lookup}
use yuviz.Workflow.Raw.{string}
use yuviz.Tools.{success, result_of, ToolDefinition, ToolExecutionRequest}
use yuviz.Policy.{contains, narrow, ResolvedToolPolicy}
use yuviz.Orchestrator.Dates.{
  Date, Moment, IsoFormat, is_in_the_past, is_too_far_out, date_field_for_tool,
  parse_requested_date, days_before_month, days_in_month, first_year, replace_year,
  correct_year_if_wrong,
}
use yuviz.Orchestrator.Dates.Calendar.{IsDate}
use yuviz.Orchestrator.Dates.Correction.{in_year, correct_year_if_wrong_lem}
use yuviz.Orchestrator.History.{
  user, ToolCallEvent, ChatMessage, fold_tool_result, said, swap_system_message,
}
use yuviz.Orchestrator.Checks.{check_moment, check_requested_date}
use yuviz.Orchestrator.Shapes.{Reply, LocalTool, ToolCallOrchestrator, Turn}
use yuviz.Orchestrator.{
  settle_call, call_any, call_local, round, rounds, resolve_tools, begin_turn, run_turn,
}
use yuviz.Orchestrator.Budget.{run_turn-IsCounted}
use yuviz.Orchestrator.Allowed.{IsAllowed, run_turn-IsAllowed}
use yuviz.Orchestrator.Ending.{IsFit, AreFit, run_turn_ends}
use yuviz.Orchestrator.Endless.{repeated, IsUnreadable, IsOpen, rounds_endless}

abbrev defined : String → ToolDefinition
defined name = record {
  name = name;
  description = "";
  parameters_schema = "{}";
  category = "booking";
  llm_visible = true;
  companion_tool_name = none;
}

abbrev granted_to : String → ResolvedToolPolicy
granted_to name = record {
  definition = defined name;
  tool_provider_config_id = "1";
  engine = "cal_com";
  api_key_ref = none;
  extra = "{}";
  timeout_ms = none;
  max_calls_per_turn = none;
}

-- a local tool that moves the call to the next node
abbrev move_on : LocalTool ℕ
move_on = record {
  definition = defined "move_on";
  handler = λ arguments node history.
      (suc node, swap_system_message (codes "Next.") history, some (result_of success none));
  cut_short = λ arguments node history. (node, history);
}

abbrev today : Date
today = record { year = 2026; month = 7; day = 28 }

abbrev moment : ℕ → Moment
moment year = record {
  date = record { year = year; month = 9; day = 14 };
  time_of_day = codes "T10:30:00";
}

-- reads one text
abbrev iso : IsoFormat
iso = record {
  read = λ t. elim t [ [] ↦ none | c ∷ s ↦ elim s [ [] ↦ none | d ∷ more ↦ some (moment 2026) ] ];
  write = λ m. codes "2026-09-14T10:30:00";
}

abbrev office : ToolCallOrchestrator ℕ
office = record {
  max_tool_iterations = 1;
  max_local_tool_calls = 1;
  tenant_id = "tenant";
  agent_id = "agent";
  enabled = granted_to "book_appointment" ∷ [];
  local_tools = λ node. ("move_on", move_on) ∷ [];
  only_tools = λ node. none;
  has_provider = λ policy. true;
  has_executor = λ name. true;
  respond = λ request n. some (result_of success none);
  clock = λ request. (10, 11);
  iso = iso;
  hearing = record { day_numerals = λ t. []; states_time = λ t. true };
  today = today;
}

abbrev asked : List ChatMessage
asked = said user (codes "the 14th at 10:30") ∷ []

abbrev event_of : String → Text → ToolCallEvent
event_of name date = record {
  tool_call_id = "1";
  tool_name = name;
  arguments = ("requested_datetime", string date) ∷ [];
  provider_metadata = none;
}

abbrev calls : String → Text → Reply
calls name date = record {
  tokens = codes "One moment." ∷ [];
  call = some (event_of name date);
  interrupted = false;
}

abbrev says : Reply
says = record { tokens = codes "Booked." ∷ []; call = none; interrupted = false }

abbrev replies : List Reply
replies = calls "move_on" [] ∷ calls "book_appointment" (codes "2026") ∷ says ∷ []

run_turn-IsCounted_example :
    (length (run_turn office asked 0 replies).0.handled ≤ 1)
    × (length (run_turn office asked 0 replies).0.requests ≤ 1)
run_turn-IsCounted_example = run_turn-IsCounted office asked 0 replies

run_turn-IsAllowed_example :
    All (λ q. IsAllowed office q.tool_name) (run_turn office asked 0 replies).0.requests
run_turn-IsAllowed_example = run_turn-IsAllowed office asked 0 replies

first_fits : is_some (lookup "move_on" (begin_turn office asked 0).offered_local) ≡ true
unfolding begin_turn resolve_tools
first_fits = refl

second_fits :
    let t = (round office (calls "move_on" []) (begin_turn office asked 0)).0 in
    (is_some (lookup "book_appointment" t.policies) ≡ true)
    × (contains t.seen_local_names "book_appointment" ≡ false)
    × ((check_requested_date iso office.hearing today
          (event_of "book_appointment" (codes "2026"))
          t.history).1
        ≡ none)
unfolding begin_turn resolve_tools round check_requested_date narrow settle_call call_any call_local
    date_field_for_tool parse_requested_date check_moment is_in_the_past is_too_far_out
    days_before_month fold_tool_result swap_system_message
second_fits = (refl, refl, refl)

each_call :
    (t : Turn ℕ) (called : ToolCallEvent)
    → IsFit office t called
    → (event : ToolCallEvent) → some called ≡ some event
    → IsFit office t event
each_call t called fits event e = let same : called ≡ event = cc in subst (IsFit office t) same fits

replies-AreFit : AreFit office replies (begin_turn office asked 0)
replies-AreFit = (
  each_call (begin_turn office asked 0) (event_of "move_on" []) (inl first_fits),
  (
    each_call (round office (calls "move_on" []) (begin_turn office asked 0)).0
        (event_of "book_appointment" (codes "2026")) (inr second_fits),
    ((λ event e. cc), tt),
  ),
)

run_turn_ends_example : (run_turn office asked 0 replies).1 ≡ true
run_turn_ends_example = run_turn_ends office asked 0 replies replies-AreFit (omega arith)

abbrev request : ToolExecutionRequest
request = record {
  tool_call_id = "1";
  tool_name = "book_appointment";
  arguments = [];
  tenant_id = "tenant";
  agent_id = "agent";
}

abbrev unreadable : Reply
unreadable = calls "book_appointment" (codes "Y")

wrongly-IsUnreadable : IsUnreadable office (event_of "book_appointment" (codes "Y"))
wrongly-IsUnreadable = record { books = refl; first = b'Y'; more = []; given = refl; unread = refl }

begun-IsOpen : IsOpen office (begin_turn office asked 0)
unfolding begin_turn resolve_tools narrow
begun-IsOpen = record {
  definition = defined "book_appointment";
  definitions = move_on.definition ∷ [];
  offered = refl;
  left = omega arith;
  not_local = refl;
  never_local = refl;
}

rounds_endless_example :
    (rounds office (repeated 9 unreadable) (begin_turn office asked 0)).1 ≡ false
rounds_endless_example =
    rounds_endless office (event_of "book_appointment" (codes "Y")) unreadable
      (begin_turn office asked 0) 9 refl wrongly-IsUnreadable begun-IsOpen

today-IsDate : IsDate today
unfolding days_in_month
today-IsDate = record {
  some_year = omega arith;
  first_month = omega arith;
  last_month = omega arith;
  first_day = omega arith;
  last_day = omega arith;
}

moment-IsDate : IsDate (moment 2023).date
unfolding days_in_month
moment-IsDate = record {
  some_year = omega arith;
  first_month = omega arith;
  last_month = omega arith;
  first_day = omega arith;
  last_day = omega arith;
}

corrected : correct_year_if_wrong today (moment 2023) ≡ some (moment 2026)
unfolding correct_year_if_wrong first_year replace_year days_in_month is_in_the_past
corrected = refl

correct_year_if_wrong_lem_example :
    ((moment 2026 ≡ in_year 2026 (moment 2023)) ⊎ (moment 2026 ≡ in_year 2027 (moment 2023)))
    × (is_in_the_past today (moment 2026) ≡ false)
    × (is_too_far_out today (moment 2026) ≡ false)
correct_year_if_wrong_lem_example =
    correct_year_if_wrong_lem today (moment 2023) (moment 2026) today-IsDate moment-IsDate refl
      corrected
