-- ===== src/Orchestrator/Dates/Calendar.antt =====
-- The calendar behind services/conversation/tools/date_sanity.py: days are counted in the order of the
-- dates.
use yuviz.Base.{
  ℕ, zero, suc, ◌+◌, ◌-◌, ◌*◌, ◌/◌, ◌≤◌, ◌<◌, true, ltb, nat_beq, if◌then◌else◌, ◌≡◌, ap, arith,
  Bool-cases, inl, inr, ◌∙◌,
}
use yuviz.Orchestrator.Dates.{Date, date_lt, is_leap, days_in_month, days_before_month, ordinal}

pub record IsDate (d : Date) : Type 0 where
  pub some_year : 1 ≤ d.year
  pub first_month : 1 ≤ d.month
  pub last_month : d.month ≤ 12
  pub first_day : 1 ≤ d.day
  pub last_day : d.day ≤ days_in_month d.year d.month

-- the days before the year behind `y`
abbrev pub year_start : ℕ → ℕ
year_start y = 365 * y + y / 4 + y / 400 - y / 100

abbrev pub year_length : ℕ → ℕ
year_length y = if is_leap y then 366 else 365

pub year_start-suc : (y : ℕ) → year_start (suc y) ≡ year_start y + year_length (suc y)
unfolding is_leap
year_start-suc y = ground arith

year_start-le : (y z : ℕ) → y < z → year_start y + year_length (suc y) ≤ year_start z
year_start-le y zero h = absurd (omega arith)
year_start-le y (suc z) h = elim (Bool-cases (nat_beq y z)) [
  | inl same ↦ let e : y ≡ z = ground (arith, same) in rw e (omega (arith, year_start-suc z))
  | inr other ↦
      let before : y < z = ground (arith, other, h) in
      omega (arith, year_start-le y z before, year_start-suc z)
]

pub months_fit :
    (y m d : ℕ) → 1 ≤ m → m ≤ 12 → d ≤ days_in_month y m → days_before_month y m + d ≤ year_length y
unfolding days_in_month days_before_month is_leap
months_fit y m d h k l = ground arith

month_step :
    (y m : ℕ)
    → 1 ≤ m
    → m < 12
    → days_before_month y m + days_in_month y m ≤ days_before_month y (suc m)
unfolding days_in_month days_before_month is_leap
month_step y zero h k = absurd (omega arith)
month_step y (suc zero) h k = ground arith
month_step y (suc (suc zero)) h k = ground arith
month_step y (suc (suc (suc zero))) h k = ground arith
month_step y (suc (suc (suc (suc zero)))) h k = ground arith
month_step y (suc (suc (suc (suc (suc zero))))) h k = ground arith
month_step y (suc (suc (suc (suc (suc (suc zero)))))) h k = ground arith
month_step y (suc (suc (suc (suc (suc (suc (suc zero))))))) h k = ground arith
month_step y (suc (suc (suc (suc (suc (suc (suc (suc zero)))))))) h k = ground arith
month_step y (suc (suc (suc (suc (suc (suc (suc (suc (suc zero))))))))) h k = ground arith
month_step y (suc (suc (suc (suc (suc (suc (suc (suc (suc (suc zero)))))))))) h k = ground arith
month_step y (suc (suc (suc (suc (suc (suc (suc (suc (suc (suc (suc zero))))))))))) h k =
    ground arith
month_step y (suc (suc (suc (suc (suc (suc (suc (suc (suc (suc (suc (suc m)))))))))))) h k =
    absurd (omega arith)

months_order :
    (y m n : ℕ)
    → 1 ≤ m
    → m < n
    → n ≤ 12
    → days_before_month y m + days_in_month y m ≤ days_before_month y n
months_order y m zero h k l = absurd (omega arith)
months_order y m (suc n) h k l = elim (Bool-cases (nat_beq m n)) [
  | inl same ↦
      let e : m ≡ n = ground (arith, same) in
      rw e (month_step y n (omega (arith, e, h)) (omega (arith, l)))
  | inr other ↦
      let before : m < n = ground (arith, other, k) in
      omega (
        arith,
        months_order y m n h before (omega (arith, l)),
        month_step y n (omega (arith, h, before)) (omega (arith, l)),
      )
]

pub year_of : (y : ℕ) → 1 ≤ y → year_length (suc (y - 1)) ≡ year_length y
year_of y h = ap year_length (omega arith)

-- A date before another has the lower number.
pub ordinal-lt : (a b : Date) → IsDate a → IsDate b → date_lt a b ≡ true → ordinal a < ordinal b
unfolding ordinal date_lt
ordinal-lt a b p q h = elim (Bool-cases (ltb a.year b.year)) [
  | inl earlier ↦ omega (
    arith,
    p.some_year,
    year_start-le (a.year - 1) (b.year - 1) (ground (arith, earlier, p.some_year)),
    year_of a.year p.some_year,
    months_fit a.year a.month a.day p.first_month p.last_month p.last_day,
    q.first_day,
  )
  | inr x ↦ elim (Bool-cases (ltb a.month b.month)) [
    | inl earlier ↦
        let same : a.year ≡ b.year = ground (arith, x, h) in
        omega (
          arith,
          months_order b.year a.month b.month p.first_month (ground (arith, earlier)) q.last_month,
          q.first_day,
          p.last_day,
          same,
          ap (λ (y : ℕ). days_before_month y a.month) same,
          ap (λ (y : ℕ). days_in_month y a.month) same,
        )
    | inr y ↦
        let same : a.year ≡ b.year = ground (arith, x, h) in
        let month : a.month ≡ b.month = ground (arith, x, y, h) in
        let day : a.day < b.day = ground (arith, x, y, h) in
        omega (
          arith,
          day,
          same,
          ap (λ (y : ℕ). days_before_month y a.month) same ∙ ap (days_before_month b.year) month,
        )
  ]
]
