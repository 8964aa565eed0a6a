-- ===== src/Python/Calendar/Weeks.antt =====
-- The ISO week of a day: `isocalendar` and `fromisocalendar` agree with one another.
use lingo_async.Prelude.{
  ℕ, zero, suc, ◌+◌, ◌-◌, ◌*◌, ◌/◌, ◌%◌, ◌≤◌, ◌<◌, ◌≡◌, refl, Bool, true, false, ◌||◌, ◌&&◌, arith,
  if◌then◌else◌, ltb, leb, eqb, if_either, ltb→lt, Bool-cases, inl, inr, ap, ◌∙◌,
}
use native.Mathlib.Numerals.{add-one}
use lingo_async.Python.Exn.{ok}
use lingo_async.Python.Calendar.{
  is_leap, days_before_year, ordinal, iso_week1_monday, IsoWeek, iso_week, has_week_53, monday_of,
}

-- The number of days of a year.
abbrev pub days_in_year : ℕ → ℕ
days_in_year y = if is_leap y then 366 else 365

pub days_before_year-suc :
    (y : ℕ) → 1 ≤ y → days_before_year (suc y) ≡ days_before_year y + days_in_year y
unfolding days_before_year is_leap
days_before_year-suc y h = ground arith

-- 1 January.
unfoldable pub new_year : ℕ → ℕ
new_year y = days_before_year y + 1

pub ordinal-new_year : (y : ℕ) → ordinal y 1 1 ≡ new_year y
unfolding ordinal new_year
ordinal-new_year y = omega arith

pub new_year-suc : (y : ℕ) → 1 ≤ y → new_year (suc y) ≡ new_year y + days_in_year y
unfolding new_year
new_year-suc y h = ground (arith, days_before_year-suc y h)

new_year-pos : (y : ℕ) → 1 ≤ new_year y
unfolding new_year
new_year-pos y = omega arith

-- The Monday nearest to the day, where Thursday to Sunday go back.
monday_near : ℕ → ℕ
monday_near day =
    let weekday = (day + 6) % 7 in if ltb 3 weekday then day - weekday + 7 else day - weekday

monday_near-eq : (y : ℕ) → iso_week1_monday y ≡ monday_near (new_year y)
unfolding iso_week1_monday monday_near
monday_near-eq y = ground (arith, ordinal-new_year y)

record IsNear (day monday : ℕ) : Type 0 where
  above : monday ≤ day + 3
  below : day ≤ monday + 3
  phase : monday % 7 ≡ 1

monday_near-IsNear : (day : ℕ) → 1 ≤ day → IsNear day (monday_near day)
unfolding monday_near
monday_near-IsNear day h = ground arith

-- The Monday nearest to a day `n` days later.
monday_near-year :
    (day : ℕ) (leap : Bool)
    → 1 ≤ day
    → monday_near (day + (if leap then 366 else 365))
      ≡ monday_near day + (if eqb (day % 7) 4 || (eqb (day % 7) 3 && leap) then 371 else 364)
unfolding monday_near
monday_near-year day true h = ground arith
monday_near-year day false h = ground arith

-- An ISO year has 53 weeks or 52.
pub iso_week1_monday-suc :
    (y : ℕ)
    → 1 ≤ y
    → iso_week1_monday (suc y) ≡ iso_week1_monday y + (if has_week_53 y then 371 else 364)
iso_week1_monday-suc y h =
    rw (monday_near-eq (suc y), monday_near-eq y, new_year-suc y h, ordinal-new_year y)
      (monday_near-year (new_year y) (is_leap y) (new_year-pos y))

week1-IsNear : (y : ℕ) → IsNear (new_year y) (iso_week1_monday y)
week1-IsNear y = rw (monday_near-eq y) (monday_near-IsNear (new_year y) (new_year-pos y))

-- A day of the ISO year `y` has this Monday by its week's number.
monday_of-week :
    (y day : ℕ)
    → 1 ≤ y
    → y ≤ 9999
    → iso_week1_monday y ≤ day
    → day < iso_week1_monday (suc y)
    → let weeks = (day - iso_week1_monday y) / 7 in
      monday_of (record { year = y; week = weeks + 1 }) ≡ ok (iso_week1_monday y + weeks * 7)
unfolding monday_of
monday_of-week y day h le from to = ground (arith, iso_week1_monday-suc y h)

pub record IsDayOfYear (y day : ℕ) : Type 0 where
  pub positive : 1 ≤ y
  pub after : new_year y ≤ day
  pub before : day < new_year (suc y)

-- The ISO year of a day, with the bounds that place the day in it.
record IsIn (day : ℕ) (i : IsoWeek) : Type 0 where
  year_in : (1 ≤ i.year) × (i.year ≤ 9999)
  from : iso_week1_monday i.year ≤ day
  to : day < iso_week1_monday (suc i.year)
  week_is : i.week ≡ (day - iso_week1_monday i.year) / 7 + 1

-- The first week of year 1 begins on its first day, and that of year 10000 after 1 January.
edges : (iso_week1_monday 1 ≡ 1) × (iso_week1_monday 10000 ≡ 3652062) × (new_year 10000 ≡ 3652060)
unfolding iso_week1_monday ordinal new_year days_before_year
edges = (refl, refl, refl)

leap_days : (y : ℕ) → (365 ≤ days_in_year y) × (days_in_year y ≤ 366)
leap_days y = ground arith

year_9999 : (y day : ℕ) → IsDayOfYear y day → y ≤ 9999 → iso_week1_monday (suc y) ≤ day → y < 9999
year_9999 y day d le over = elim (Bool-cases (ltb y 9999)) [
  | inl below ↦ ltb→lt y 9999 below
  | inr last ↦
      let e : suc y ≡ 10000 = ground arith in
      absurd (omega (arith, d.before, ap new_year e, ap iso_week1_monday e, edges))
]

last_year :
    (y day : ℕ)
    → IsDayOfYear y day
    → y ≤ 9999
    → day < iso_week1_monday y
    → IsIn day (record { year = y - 1; week = (day - iso_week1_monday (y - 1)) / 7 + 1 })
last_year zero day d le early = absurd (omega (arith, d.positive))
last_year (suc zero) day d le early = absurd (omega (arith, new_year-pos 1, d.after, edges))
last_year (suc (suc y)) day d le early =
    let e : suc (suc y) - 1 ≡ suc y = omega arith in
    rw e (record {
      year_in = omega arith;
      from = omega (
        arith,
        (week1-IsNear (suc y)).above,
        new_year-suc (suc y) (omega arith),
        d.after,
        leap_days (suc y),
      );
      to = early;
      week_is = refl;
    })

next_year :
    (y day : ℕ)
    → IsDayOfYear y day
    → y ≤ 9999
    → iso_week1_monday (suc y) ≤ day
    → IsIn day (record { year = y + 1; week = 1 })
next_year y day d le over =
    let e : y + 1 ≡ suc y = omega arith in
    let near = week1-IsNear (suc y) in
    rw e (record {
      year_in = omega (arith, year_9999 y day d le over);
      from = over;
      to = ground (arith, iso_week1_monday-suc (suc y), near.below, d.before);
      week_is = omega (arith, near.below, d.before);
    })

iso_week-IsIn : (y day : ℕ) → IsDayOfYear y day → y ≤ 9999 → IsIn day (iso_week y day)
unfolding iso_week
iso_week-IsIn y day d le =
    let near = week1-IsNear y in
    let next = week1-IsNear (suc y) in
    if_either (IsIn day) (ltb day (iso_week1_monday y)) _ _
      (λ early. last_year y day d le (ltb→lt _ _ early))
      (λ late.
        if_either (IsIn day)
          (leb 52 ((day - iso_week1_monday y) / 7) && leb (iso_week1_monday (y + 1)) day) _ _
          (λ over. next_year y day d le (ground arith))
          (λ within. record {
            year_in = (d.positive, le);
            from = ground arith;
            to = ground (arith, iso_week1_monday-suc y d.positive, add-one y);
            week_is = refl;
          }))

-- Day 1, 1 January of year 1, is a Monday.
abbrev pub IsMonday : ℕ → Type 0
IsMonday day = day % 7 ≡ 1

iso_week1_monday-IsMonday : (y : ℕ) → IsMonday (iso_week1_monday y)
unfolding iso_week1_monday ordinal
iso_week1_monday-IsMonday y = ground arith

-- The Monday of the ISO week of a day of year `y`, up to year 9999, is the last Monday up to it.
pub monday_of-iso_week :
    (y day : ℕ)
    → IsDayOfYear y day
    → y ≤ 9999
    → (monday : ℕ) × (monday_of (iso_week y day) ≡ ok monday)
      × (monday ≤ day)
      × (day < monday + 7)
      × IsMonday monday
monday_of-iso_week y day d le =
    let i = iso_week y day in
    let within = iso_week-IsIn y day d le in
    let weeks = (day - iso_week1_monday i.year) / 7 in
    (
      iso_week1_monday i.year + weeks * 7,
      ap (λ (week : ℕ). monday_of (record { year = i.year; week = week })) within.week_is
          ∙ monday_of-week i.year day within.year_in.0 within.year_in.1 within.from within.to,
      omega (arith, within.from),
      omega (arith, within.from),
      omega (arith, iso_week1_monday-IsMonday i.year),
    )
