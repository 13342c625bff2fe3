-- ===== src/Orchestrator/Dates.antt =====
-- services/conversation/tools/date_sanity.py, beside its regular expressions. The current date in the
-- calendar's time zone is an argument; the time of day of a moment, and its offset, are only passed on.
pub mod Calendar
pub mod Correction
use yuviz.Base.{
  ℕ, ◌+◌, ◌-◌, ◌*◌, ◌/◌, ◌%◌, Bool, true, false, not, ◌&&◌, ◌||◌, String, string_eq, Option, none,
  some, List, [], ◌∷◌, ltb, leb, nat_beq, Text, if◌then◌else◌,
}
use yuviz.Base.Dict.{lookup}
use yuviz.Workflow.Words.{is_empty}
use yuviz.Workflow.Raw.{Json, null, boolean, whole, decimal, not_finite, string, array, object}

pub record Date : Type 0 where
  pub year : ℕ
  pub month : ℕ
  pub day : ℕ

-- a `datetime`
pub record Moment : Type 0 where
  pub date : Date
  pub time_of_day : Text

-- Python's `datetime.fromisoformat`, with `none` for its `ValueError`, and `isoformat`.
pub record IsoFormat : Type 0 where
  pub read : Text → Option Moment
  pub write : Moment → Text

-- `DATE_ARG_BY_TOOL`
abbrev pub date_arg_by_tool : List (String × String)
date_arg_by_tool =
    ("book_appointment", "requested_datetime")
    ∷ ("reschedule_appointment", "new_requested_datetime")
    ∷ []

-- `date_field_for_tool`
unfoldable pub date_field_for_tool : String → Option String
date_field_for_tool tool_name = lookup tool_name date_arg_by_tool

-- the order of `date`
unfoldable pub date_lt : Date → Date → Bool
date_lt a b =
    ltb a.year b.year
    || (nat_beq a.year b.year
        && (ltb a.month b.month || (nat_beq a.month b.month && ltb a.day b.day)))

-- `is_in_the_past`
unfoldable pub is_in_the_past : Date → Moment → Bool
unfolding date_lt
is_in_the_past today dt = date_lt dt.date today

-- `calendar.isleap`
unfoldable pub is_leap : ℕ → Bool
is_leap y = nat_beq (y % 4) 0 && (not (nat_beq (y % 100) 0) || nat_beq (y % 400) 0)

-- the days of a month
unfoldable pub days_in_month : ℕ → ℕ → ℕ
unfolding is_leap
days_in_month y m =
    if nat_beq m 2
    then (if is_leap y then 29 else 28)
    else if nat_beq m 4 || nat_beq m 6 || nat_beq m 9 || nat_beq m 11
    then 30
    else 31

-- the days of the months before a month: 31 for each, less what the shorter months lack
unfoldable pub days_before_month : ℕ → ℕ → ℕ
unfolding is_leap
days_before_month y m =
    31 * (m - 1)
    - ((if ltb 2 m then (if is_leap y then 2 else 3) else 0)
        + (if ltb 4 m then 1 else 0)
        + (if ltb 6 m then 1 else 0)
        + (if ltb 9 m then 1 else 0)
        + (if ltb 11 m then 1 else 0))

-- `date.toordinal`, by which two dates are subtracted
unfoldable pub ordinal : Date → ℕ
ordinal d =
    let y = d.year - 1 in
    365 * y + y / 4 + y / 400 - y / 100 + days_before_month d.year d.month + d.day

-- `_MAX_DAYS_IN_FUTURE`
abbrev pub max_days_in_future : ℕ
max_days_in_future = 365

-- `is_too_far_out`
unfoldable pub is_too_far_out : Date → Moment → Bool
unfolding ordinal
is_too_far_out today dt = ltb (ordinal today + max_days_in_future) (ordinal dt.date)

-- `_MAX_YEAR_CORRECTION_GAP`
abbrev pub max_year_correction_gap : ℕ
max_year_correction_gap = 5

-- `dt.replace(year=year)`, with `none` for the `ValueError`: only the 29th of February can lack
unfoldable pub replace_year : ℕ → Moment → Option Moment
replace_year year dt =
    if ltb (days_in_month year dt.date.month) dt.date.day
    then none
    else some
        (record dt { date = record { year = year; month = dt.date.month; day = dt.date.day } })

-- the loop of `correct_year_if_wrong`
unfoldable pub first_year : Date → Moment → List ℕ → Option Moment
first_year today dt [] = none
first_year today dt (year ∷ years) =
    let later = first_year today dt years in
    elim (replace_year year dt) [
      | none ↦ later
      | some candidate ↦ if not (is_in_the_past today candidate) then some candidate else later
    ]

-- `correct_year_if_wrong`
unfoldable pub correct_year_if_wrong : Date → Moment → Option Moment
correct_year_if_wrong today dt =
    if not (ltb dt.date.year today.year && leb (today.year - dt.date.year) max_year_correction_gap)
    then none
    else first_year today dt (today.year ∷ (today.year + 1) ∷ [])

-- `parse_requested_date`
unfoldable pub parse_requested_date : IsoFormat → Json → Option Moment
parse_requested_date iso (string t) = if is_empty t then none else iso.read t
parse_requested_date iso null = none
parse_requested_date iso (boolean _) = none
parse_requested_date iso (whole _ _) = none
parse_requested_date iso (decimal _ _ _) = none
parse_requested_date iso (not_finite _) = none
parse_requested_date iso (array _) = none
parse_requested_date iso (object _) = none
