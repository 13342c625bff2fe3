-- ===== src/Orchestrator/Dates/Correction.antt =====
-- The corrected year: `correct_year_if_wrong` of services/conversation/tools/date_sanity.py.
use yuviz.Base.{
  ℕ, suc, ◌+◌, ◌-◌, ◌≤◌, true, false, not, ◌&&◌, Option, some, nat_beq, ◌≡◌, ap, ◌⊎◌, ◌∙◌, arith,
  Bool-cases, Option-cases, inl, inr,
}
use yuviz.Orchestrator.Dates.{
  Date, Moment, is_leap, days_in_month, days_before_month, ordinal, is_in_the_past, is_too_far_out,
  replace_year, first_year, correct_year_if_wrong,
}
use yuviz.Orchestrator.Dates.Calendar.{
  IsDate, year_start, year_length, year_start-suc, year_of, months_fit, ordinal-lt,
}

-- the date in another year
abbrev pub in_year : ℕ → Moment → Moment
in_year y dt = record dt { date = record { year = y; month = dt.date.month; day = dt.date.day } }

leap_alone : (y : ℕ) → is_leap y ≡ true → is_leap (suc y) ≡ false
unfolding is_leap
leap_alone y h = ground arith

-- A year on is at most 366 days on.
next_year : (y m : ℕ) → days_before_month (suc y) m + year_length y ≤ days_before_month y m + 366
unfolding days_before_month
next_year y m = elim (Bool-cases (is_leap y)) [
  | inl leap ↦ ground (arith, leap, leap_alone y leap)
  | inr plain ↦ ground (arith, plain)
]

is_leap_bool : (y : ℕ) → year_length y ≤ 366
is_leap_bool y = ground arith

some_past :
    (today : Date) (now first : Moment) {o : Option Moment}
    → o ≡ some now
    → o ≡ some first
    → is_in_the_past today now ≡ true
    → is_in_the_past today first ≡ true
some_past today now first f g past =
    let same : now ≡ first = ground (arith, f, g) in rw (← same) past

-- `correct_year_if_wrong` tries the current year, then the next.
correct_year_cases :
    (today : Date) (dt fixed : Moment)
    → correct_year_if_wrong today dt ≡ some fixed
    → (is_in_the_past today fixed ≡ false)
      × (((replace_year today.year dt ≡ some fixed))
          ⊎ ((replace_year (today.year + 1) dt ≡ some fixed)
              × ((first : Moment)
                  → replace_year today.year dt ≡ some first
                  → is_in_the_past today first ≡ true)))
unfolding correct_year_if_wrong first_year
correct_year_cases today dt fixed h = elim (Option-cases (replace_year today.year dt)) [
  | inl none_now ↦ elim (Option-cases (replace_year (today.year + 1) dt)) [
    | inl none_next ↦ absurd (ground (arith, none_now, none_next, h))
    | inr (next, n) ↦
        let same : next ≡ fixed = ground (arith, none_now, n, h) in
        (
          ground (arith, none_now, n, h),
          inr (n ∙ ap some same, λ first f. absurd (ground (arith, none_now, f))),
        )
  ]
  | inr (now, f) ↦ elim (Bool-cases (is_in_the_past today now)) [
    | inr free ↦
        let same : now ≡ fixed = ground (arith, f, free, h) in
        (ground (arith, f, free, h), inl (f ∙ ap some same))
    | inl past ↦ elim (Option-cases (replace_year (today.year + 1) dt)) [
      | inl none_next ↦ absurd (ground (arith, f, past, none_next, h))
      | inr (next, n) ↦
          let same : next ≡ fixed = ground (arith, f, past, n, h) in
          (
            ground (arith, f, past, n, h),
            inr (n ∙ ap some same, λ first g. some_past today now first f g past),
          )
    ]
  ]
]

replace_year-some :
    (y : ℕ) (dt fixed : Moment)
    → replace_year y dt ≡ some fixed
    → (fixed ≡ in_year y dt) × (dt.date.day ≤ days_in_month y dt.date.month)
unfolding replace_year
replace_year-some y dt fixed h = ground (arith, h)

-- The year is found for a day that is not the 29th of February.
replace_year_found :
    (y : ℕ) (dt : Moment)
    → dt.date.day ≤ days_in_month y dt.date.month
    → replace_year y dt ≡ some (in_year y dt)
unfolding replace_year
replace_year_found y dt h = ground (arith, h)

same_length :
    (y z m d : ℕ)
    → d ≤ days_in_month y m
    → not (nat_beq m 2 && nat_beq d 29) ≡ true
    → d ≤ days_in_month z m
unfolding days_in_month
same_length y z m d h k = ground (arith, h, k)

-- A moment in the year of today that is not past is at most 365 days away.
same_year_near :
    (today : Date) (dt : Moment)
    → IsDate today
    → IsDate (in_year today.year dt).date
    → is_too_far_out today (in_year today.year dt) ≡ false
unfolding is_too_far_out ordinal
same_year_near today dt t d =
    let far =
      months_fit today.year dt.date.month dt.date.day d.first_month d.last_month d.last_day in
    let length = is_leap_bool today.year in ground (arith, far, length, t.first_day)

ordinal_next :
    (y m d : ℕ)
    → 1 ≤ y
    → ordinal (record { year = y + 1; month = m; day = d })
      ≤ ordinal (record { year = y; month = m; day = d }) + 366
unfolding ordinal
ordinal_next y m d h =
    let e : suc (y - 1) ≡ y = omega (arith, h) in
    let n : y + 1 ≡ suc y = omega arith in
    omega (
      arith,
      h,
      year_start-suc (y - 1),
      year_of y h,
      next_year y m,
      ap (λ (z : ℕ). days_before_month z m) n,
      ap year_start e,
    )

-- A moment in the next year is at most 365 days away when it was past in the current year.
next_year_near :
    (today : Date) (dt : Moment)
    → IsDate today
    → IsDate (in_year today.year dt).date
    → is_in_the_past today (in_year today.year dt) ≡ true
    → is_too_far_out today (in_year (today.year + 1) dt) ≡ false
unfolding is_too_far_out is_in_the_past
next_year_near today dt t d past =
    let before = ordinal-lt (in_year today.year dt).date today d t past in
    let later = ordinal_next today.year dt.date.month dt.date.day t.some_year in
    ground (arith, before, later)

in_year-IsDate :
    (y : ℕ) (dt : Moment)
    → 1 ≤ y
    → IsDate dt.date
    → dt.date.day ≤ days_in_month y dt.date.month
    → IsDate (in_year y dt).date
in_year-IsDate y dt h d fits = record {
  some_year = h;
  first_month = d.first_month;
  last_month = d.last_month;
  first_day = d.first_day;
  last_day = fits;
}

-- A year that is corrected: the month, the day and the time stay, the year is the current one or the
-- next, the moment is not in the past, and it is not too far out, where the day is not the 29th of
-- February.
pub correct_year_if_wrong_lem :
    (today : Date) (dt fixed : Moment)
    → IsDate today
    → IsDate dt.date
    → not (nat_beq dt.date.month 2 && nat_beq dt.date.day 29) ≡ true
    → correct_year_if_wrong today dt ≡ some fixed
    → ((fixed ≡ in_year today.year dt) ⊎ (fixed ≡ in_year (today.year + 1) dt))
      × (is_in_the_past today fixed ≡ false)
      × (is_too_far_out today fixed ≡ false)
correct_year_if_wrong_lem today dt fixed t d plain h =
    let (free, found) = correct_year_cases today dt fixed h in
    let fits = same_length dt.date.year today.year dt.date.month dt.date.day d.last_day plain in
    let this_year = in_year-IsDate today.year dt t.some_year d fits in
    elim found [
      | inl now ↦
          let (same, _) = replace_year-some today.year dt fixed now in
          (inl same, free, rw same (same_year_near today dt t this_year))
      | inr (next, passed) ↦
          let (same, _) = replace_year-some (today.year + 1) dt fixed next in
          let past = passed (in_year today.year dt) (replace_year_found today.year dt fits) in
          (inr same, free, rw same (next_year_near today dt t this_year past))
    ]
