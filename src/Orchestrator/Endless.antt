-- ===== src/Orchestrator/Endless.antt =====
-- A turn of services/conversation/tools/orchestrator.py that does not end.
use yuviz.Base.{
  ℕ, zero, suc, ◌<◌, Bool, true, false, ◌&&◌, String, string_eq, Option, none, some, List, [], ◌∷◌,
  ◌++◌, map, leb, Text, ◌≡◌, refl, ap, ◌∙◌, arith,
}
use yuviz.Base.Dict.{lookup}
use yuviz.Workflow.Raw.{string, is_truthy}
use yuviz.Tools.{ToolResult, ToolDefinition}
use yuviz.Policy.{contains}
use yuviz.Orchestrator.Dates.{IsoFormat, date_field_for_tool, parse_requested_date}
use yuviz.Orchestrator.History.{ToolCallEvent, ChatMessage, fold_tool_result}
use yuviz.Orchestrator.Checks.{argument, rejection, check_requested_date}
use yuviz.Orchestrator.Shapes.{TurnEvent, token, Reply, ToolCallOrchestrator, Turn}
use yuviz.Orchestrator.{call_any, settle_call, round, rounds}

-- the same reply, time and again
abbrev pub repeated : ℕ → Reply → List Reply
repeated zero reply = []
repeated (suc n) reply = reply ∷ repeated n reply

-- A call of the tool for bookings with a date that cannot be read.
pub record IsUnreadable {W : Type 0} (o : ToolCallOrchestrator W) (event : ToolCallEvent)
    : Type 0 where
  pub books : event.tool_name ≡ "book_appointment"
  pub first : ℕ
  pub more : Text
  pub given : argument "requested_datetime" event ≡ string (first ∷ more)
  pub unread : o.iso.read (first ∷ more) ≡ none

-- Some tool is offered, there are requests left, and the tool for bookings is no local tool.
pub record IsOpen {W : Type 0} (o : ToolCallOrchestrator W) (t : Turn W) : Type 0 where
  pub definition : ToolDefinition
  pub definitions : List ToolDefinition
  pub offered : t.schemas ≡ definition ∷ definitions
  pub left : t.iteration < o.max_tool_iterations
  pub not_local : lookup "book_appointment" t.offered_local ≡ none
  pub never_local : contains t.seen_local_names "book_appointment" ≡ false

field_of_booking : date_field_for_tool "book_appointment" ≡ some "requested_datetime"
unfolding date_field_for_tool
field_of_booking = refl

parse_unread :
    (iso : IsoFormat) (c : ℕ) (s : Text)
    → iso.read (c ∷ s) ≡ none
    → parse_requested_date iso (string (c ∷ s)) ≡ none
unfolding parse_requested_date
parse_unread iso c s h = h

module _ {W : Type 0} (o : ToolCallOrchestrator W) (event : ToolCallEvent) where
  unreadable_rejected :
      (history : List ChatMessage)
      → IsUnreadable o event
      → check_requested_date o.iso o.hearing o.today event history
        ≡ (event, some (rejection "requested_datetime" "invalid_date_format"))
  unfolding check_requested_date
  unreadable_rejected history u =
      let named : date_field_for_tool event.tool_name ≡ some "requested_datetime" =
        ap date_field_for_tool u.books ∙ field_of_booking in
      let unread =
        ap (parse_requested_date o.iso) u.given ∙ parse_unread o.iso u.first u.more u.unread in
      let given = ap is_truthy u.given in rw (check_requested_date, named, unread, given) refl

  -- what the answer to the refused call is
  abbrev refusal : ToolResult
  refusal = rejection "requested_datetime" "invalid_date_format"

  call_any_refused :
      (interrupted : Bool) (t : Turn W)
      → IsUnreadable o event
      → IsOpen o t
      → call_any o event interrupted t ≡ (t, event, refusal)
  unfolding call_any
  call_any_refused interrupted t u room =
      let absent = ap (λ (name : String). lookup name t.offered_local) u.books ∙ room.not_local in
      let unseen = ap (contains t.seen_local_names) u.books ∙ room.never_local in
      let uncapped : (leb o.max_local_tool_calls t.local_calls
            && contains t.seen_local_names event.tool_name)
          ≡ false =
        ground (arith, unseen) in
      let answer = unreadable_rejected t.history u in
      rw
        (
          call_any,
          absent,
          uncapped,
          ap (λ (p : ToolCallEvent × Option ToolResult). p.1) answer,
          ap (λ (p : ToolCallEvent × Option ToolResult). p.0) answer,
        )
        refl

  -- the turn with the refused call and its answer in the history
  abbrev refused : Turn W → Turn W
  refused t = record t { history = fold_tool_result event refusal t.history }

  settle_call-refused :
      (t : Turn W) → IsOpen o t → settle_call o event refusal t ≡ (refused t, true)
  unfolding settle_call
  settle_call-refused t room =
      let early : leb o.max_tool_iterations t.iteration ≡ false = ground (arith, room.left) in
      rw (settle_call, early) refl

  refused-IsOpen : (t : Turn W) → IsOpen o t → IsOpen o (refused t)
  refused-IsOpen t room = record {
    definition = room.definition;
    definitions = room.definitions;
    offered = room.offered;
    left = room.left;
    not_local = room.not_local;
    never_local = room.never_local;
  }

  heard-IsOpen :
      (t : Turn W) (events : List TurnEvent) → IsOpen o t → IsOpen o (record t { events = events })
  heard-IsOpen t events room = record {
    definition = room.definition;
    definitions = room.definitions;
    offered = room.offered;
    left = room.left;
    not_local = room.not_local;
    never_local = room.never_local;
  }

  round-refused :
      (reply : Reply) (t : Turn W)
      → reply.call ≡ some event
      → IsUnreadable o event
      → IsOpen o t
      → round o reply t ≡ (refused (record t { events = t.events ++ map token reply.tokens }), true)
  unfolding round
  round-refused reply t call u room =
      let heard : Turn W = record t { events = t.events ++ map token reply.tokens } in
      let still = heard-IsOpen t (t.events ++ map token reply.tokens) room in
      ground (
        arith,
        room.offered,
        call,
        call_any_refused reply.interrupted heard u still,
        settle_call-refused heard still,
      )

  -- A model that keeps calling the tool for bookings with a date that cannot be read keeps the turn
  -- going: after any number of replies it is not over. The check of the date comes before the call is
  -- counted, so that no limit is ever reached.
  pub rounds_endless :
      (reply : Reply) (t : Turn W) (n : ℕ)
      → reply.call ≡ some event
      → IsUnreadable o event
      → IsOpen o t
      → (rounds o (repeated n reply) t).1 ≡ false
  unfolding rounds
  rounds_endless reply t zero call u room = refl
  rounds_endless reply t (suc n) call u room =
      let events = t.events ++ map token reply.tokens in
      let went = round-refused reply t call u room in
      rw (rounds, ap (λ (o : Turn W × Bool). o.1) went, ap (λ (o : Turn W × Bool). o.0) went)
        (rounds_endless reply (refused (record t { events = events })) n call u
          (refused-IsOpen (record t { events = events }) (heard-IsOpen t events room)))
