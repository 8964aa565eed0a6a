-- ===== src/Python/Calendar/Months.antt =====
-- The months of a year, and the clock's readings that are dates.
use lingo_async.Prelude.{ℕ, ◌+◌, ◌≤◌, ◌<◌, ◌≡◌, ap, ◌||◌, arith, if◌then◌else◌, eqb}
use native.Mathlib.Numerals.{add-one}
use lingo_async.World.{DateTime}
use lingo_async.Python.Calendar.{is_leap, days_before_month, ordinal}
use lingo_async.Python.Calendar.Weeks.{
  new_year, ordinal-new_year, new_year-suc, days_in_year, IsDayOfYear,
}

abbrev pub days_in_month : ℕ → ℕ → ℕ
days_in_month y m =
    if eqb m 2
    then (if is_leap y then 29 else 28)
    else if eqb m 4 || eqb m 6 || eqb m 9 || eqb m 11
    then 30
    else 31

days_before_month-suc :
    (y m : ℕ)
    → 1 ≤ m
    → m ≤ 11
    → days_before_month y (m + 1) ≡ days_before_month y m + days_in_month y m
unfolding days_before_month
days_before_month-suc y m lo hi = ground arith

december : (y : ℕ) → days_before_month y 12 + 31 ≡ days_in_year y
unfolding days_before_month
december y = ground arith

month-le-year :
    (y m : ℕ) → 1 ≤ m → m ≤ 12 → days_before_month y m + days_in_month y m ≤ days_in_year y
unfolding days_before_month
month-le-year y m lo hi = ground arith

-- A `datetime` holds a date of the calendar and a time of day.
pub record IsClock (t : DateTime) : Type 0 where
  pub year_in : (1 ≤ t.year) × (t.year ≤ 9999)
  pub month_in : (1 ≤ t.month) × (t.month ≤ 12)
  pub day_in : (1 ≤ t.day) × (t.day ≤ days_in_month t.year t.month)
  pub hour_in : t.hour < 24
  pub minute_in : t.minute < 60
  pub second_in : t.second < 60

ordinal_parts : (y m d : ℕ) → ordinal y m d + 1 ≡ new_year y + days_before_month y m + d
unfolding ordinal new_year
ordinal_parts y m d = omega arith

abbrev pub today : DateTime → ℕ
today t = ordinal t.year t.month t.day

pub today-IsDayOfYear : (t : DateTime) → IsClock t → IsDayOfYear t.year (today t)
today-IsDayOfYear t c =
    let parts = ordinal_parts t.year t.month t.day in
    record {
      positive = c.year_in.0;
      after = omega (arith, parts, c.day_in.0);
      before = omega (
        arith,
        parts,
        new_year-suc t.year c.year_in.0,
        c.day_in.1,
        month-le-year t.year t.month c.month_in.0 c.month_in.1,
      );
    }

-- The first day of the next month comes after the day, by at most 31 days.
pub next_month_range :
    (t : DateTime)
    → IsClock t
    → t.month ≤ 11
    → (today t < ordinal t.year (t.month + 1) 1) × (ordinal t.year (t.month + 1) 1 ≤ today t + 31)
next_month_range t c le =
    let parts = ordinal_parts t.year t.month t.day in
    let parts' = ordinal_parts t.year (t.month + 1) 1 in
    let next = days_before_month-suc t.year t.month c.month_in.0 le in
    (
      omega (arith, parts, parts', next, c.day_in.1),
      ground (arith, parts, parts', next, c.day_in.0),
    )

pub next_year_range :
    (t : DateTime)
    → IsClock t
    → t.month ≡ 12
    → (today t < ordinal (t.year + 1) 1 1) × (ordinal (t.year + 1) 1 1 ≤ today t + 31)
next_year_range t c last =
    let parts = ordinal_parts t.year t.month t.day in
    let first = ordinal-new_year (t.year + 1) in
    let next = new_year-suc t.year c.year_in.0 in
    let same = ap new_year (add-one t.year) in
    let offset = ap (days_before_month t.year) last in
    let size = ap (days_in_month t.year) last in
    (
      omega (arith, parts, first, next, same, offset, size, december t.year, c.day_in.1),
      omega (arith, parts, first, next, same, offset, december t.year, c.day_in.0),
    )
