-- ===== src/Orchestrator/Checks.antt =====
-- `_check_requested_date` of services/conversation/tools/orchestrator.py. What the two regular
-- expressions of date_sanity.py find in a text is an argument.
use yuviz.Base.{
  ℕ, Bool, false, not, ◌&&◌, String, string_eq, Option, none, some, List, [], ◌∷◌, any, keep, leb,
  nat_beq, Text, codes, if◌then◌else◌,
}
use yuviz.Base.Dict.{lookup, insert}
use yuviz.Workflow.Words.{is_empty}
use yuviz.Workflow.Raw.{Json, null, string, array, item, no_items, is_truthy}
use yuviz.Tools.{invalid_argument, ToolResult, result_of}
use yuviz.Orchestrator.Dates.{
  Date, Moment, IsoFormat, date_field_for_tool, is_in_the_past, is_too_far_out,
  correct_year_if_wrong, parse_requested_date,
}
use yuviz.Orchestrator.History.{
  ToolCallEvent, ChatMessage, recent_rejection_count, recent_user_text, time_confirmable_texts,
}

-- The numerals that `_DAY_NUMERAL_RE` finds once `_TIME_EXPRESSION_RE` is taken out, and whether the
-- latter finds anything.
pub record Hearing : Type 0 where
  pub day_numerals : Text → List ℕ
  pub states_time : Text → Bool

-- `stated_day_mismatch`
unfoldable pub stated_day_mismatch : Hearing → ℕ → Text → Bool
stated_day_mismatch hearing day utterance =
    let candidates = keep (λ n. leb 1 n && leb n 31) (hearing.day_numerals utterance) in
    elim candidates [ [] ↦ false | d ∷ ds ↦ not (any (λ n. nat_beq n day) (d ∷ ds)) ]

-- `no_time_stated`
unfoldable pub no_time_stated : Hearing → List Text → Bool
no_time_stated hearing texts = not (any hearing.states_time texts)

-- the `ToolResult` of a rejection
abbrev pub rejection : String → String → ToolResult
rejection date_field reason = record (result_of invalid_argument none) {
  payload =
      ("missing_fields", array (item (string (codes date_field)) no_items))
      ∷ ("reason", string (codes reason))
      ∷ [];
}

-- `event.arguments.get(date_field)`
abbrev pub argument : String → ToolCallEvent → Json
argument name event = elim (lookup name event.arguments) [ none ↦ null | some j ↦ j ]

-- `_MAX_DATE_CONFIRMATION_REJECTIONS`
abbrev pub max_date_confirmation_rejections : ℕ
max_date_confirmation_rejections = 2

module _ (iso : IsoFormat) (hearing : Hearing) (today : Date) where
  -- the checks that a caller can answer, for a date that is read
  unfoldable pub check_confirmed : String → List ChatMessage → Moment → Option ToolResult
  unfolding recent_rejection_count recent_user_text time_confirmable_texts stated_day_mismatch
      no_time_stated
  check_confirmed date_field history dt =
      let recent = recent_user_text history 3 in
      if leb max_date_confirmation_rejections (recent_rejection_count history)
      then none
      else if not (is_empty recent) && stated_day_mismatch hearing dt.date.day recent
      then some (rejection date_field "date_not_confirmed")
      else if no_time_stated hearing (time_confirmable_texts history)
      then some (rejection date_field "time_not_confirmed")
      else none

  -- the checks of a date that is read: the event, whose argument may be corrected, and the rejection
  unfoldable pub check_moment :
      String → ToolCallEvent → List ChatMessage → Moment → ToolCallEvent × Option ToolResult
  unfolding check_confirmed
  check_moment date_field event history dt =
      if is_in_the_past today dt
      then elim (correct_year_if_wrong today dt) [
        | none ↦ (event, some (rejection date_field "date_in_past"))
        | some corrected ↦ (
          record event {
            arguments = insert date_field (string (iso.write corrected)) event.arguments;
          },
          check_confirmed date_field history corrected,
        )
      ]
      else if is_too_far_out today dt
      then (event, some (rejection date_field "date_too_far_out"))
      else (event, check_confirmed date_field history dt)

  -- `_check_requested_date`
  unfoldable pub check_requested_date :
      ToolCallEvent → List ChatMessage → ToolCallEvent × Option ToolResult
  check_requested_date event history = elim (date_field_for_tool event.tool_name) [
    | none ↦ (event, none)
    | some date_field ↦
        let raw_value = argument date_field event in
        elim (parse_requested_date iso raw_value) [
          | none ↦
              if is_truthy raw_value
              then (event, some (rejection date_field "invalid_date_format"))
              else (event, none)
          | some dt ↦ check_moment date_field event history dt
        ]
  ]
