-- ===== src/Python/Calendar.antt =====
-- What the source uses of Python's `datetime`, in UTC and in the proleptic Gregorian calendar. A
-- moment is a number of seconds: 86400 times the day's ordinal (1 January of year 1 is day 1)
-- plus the seconds of that day.
pub mod Weeks
pub mod Months
use lingo_async.Prelude.{
  ℕ, ◌+◌, ◌-◌, ◌*◌, ◌/◌, ◌%◌, String, ◌<>◌, ◌≡◌, refl, Bool, not, ◌&&◌, ◌||◌, ltb, leb, eqb,
  if◌then◌else◌,
}
use lingo_async.Prelude.Int.{ℤ, sub_ℕ}
use lingo_async.Python.Exn.{Result, ok, err, value_error, overflow_error}
use lingo_async.World.{DateTime}

unfoldable pub is_leap : ℕ → Bool
is_leap y = eqb (y % 4) 0 && (not (eqb (y % 100) 0) || eqb (y % 400) 0)

unfoldable pub days_before_year : ℕ → ℕ
days_before_year y = let p = y - 1 in p * 365 + p / 4 - p / 100 + p / 400

-- The days of a common year before the month.
abbrev month_offset : ℕ → ℕ
month_offset m =
    if leb m 1
    then 0
    else if eqb m 2
    then 31
    else if eqb m 3
    then 59
    else if eqb m 4
    then 90
    else if eqb m 5
    then 120
    else if eqb m 6
    then 151
    else if eqb m 7
    then 181
    else if eqb m 8
    then 212
    else if eqb m 9
    then 243
    else if eqb m 10
    then 273
    else if eqb m 11
    then 304
    else 334

unfoldable pub days_before_month : ℕ → ℕ → ℕ
unfolding is_leap
days_before_month y m = month_offset m + (if ltb 2 m && is_leap y then 1 else 0)

-- `date.toordinal`
unfoldable pub ordinal : ℕ → ℕ → ℕ → ℕ
unfolding days_before_year days_before_month
ordinal y m d = days_before_year y + days_before_month y m + d

-- The Monday with which the ISO year begins: that of the week of 4 January.
unfoldable pub iso_week1_monday : ℕ → ℕ
iso_week1_monday y =
    let first_day = ordinal y 1 1 in
    let first_weekday = (first_day + 6) % 7 in
    if ltb 3 first_weekday then first_day - first_weekday + 7 else first_day - first_weekday

pub record IsoWeek : Type 0 where
  pub year : ℕ
  pub week : ℕ

-- `isocalendar` of the day `today` of year `y`
unfoldable pub iso_week : ℕ → ℕ → IsoWeek
iso_week y today =
    let start = iso_week1_monday y in
    if ltb today start
    then record { year = y - 1; week = (today - iso_week1_monday (y - 1)) / 7 + 1 }
    else if leb 52 ((today - start) / 7) && leb (iso_week1_monday (y + 1)) today
    then record { year = y + 1; week = 1 }
    else record { year = y; week = (today - start) / 7 + 1 }

abbrev pub has_week_53 : ℕ → Bool
has_week_53 y = let w = ordinal y 1 1 % 7 in eqb w 4 || (eqb w 3 && is_leap y)

-- `datetime.fromisocalendar(year, week, 1)`, as a day's ordinal
unfoldable pub monday_of : IsoWeek → Result ℕ
monday_of i =
    if not (leb 1 i.year && leb i.year 9999)
    then err (value_error "year")
    else if (leb 1 i.week && ltb i.week 53) || (eqb i.week 53 && has_week_53 i.year)
    then ok (iso_week1_monday i.year + (i.week - 1) * 7)
    else err (value_error "week")

-- A moment past the year 9999 is an OverflowError.
abbrev pub in_range : ℕ → Result ℕ
in_range seconds = if ltb seconds 315537984000 then ok seconds else err overflow_error

abbrev pub seconds_of : DateTime → ℕ
seconds_of t = ordinal t.year t.month t.day * 86400 + t.hour * 3600 + t.minute * 60 + t.second

-- `timestamp()`, without the fraction of a second; 1 January 1970 is day 719163
abbrev pub timestamp : ℕ → ℤ
timestamp seconds = sub_ℕ seconds (719163 * 86400)

abbrev pub digit : ℕ → String
digit n =
    if eqb n 0
    then "0"
    else if eqb n 1
    then "1"
    else if eqb n 2
    then "2"
    else if eqb n 3
    then "3"
    else if eqb n 4
    then "4"
    else if eqb n 5
    then "5"
    else if eqb n 6
    then "6"
    else if eqb n 7
    then "7"
    else if eqb n 8
    then "8"
    else "9"

-- `{n:02d}` of a number below 100, and `{n:04d}` below 10000
unfoldable pub two_digits : ℕ → String
two_digits n = digit (n / 10 % 10) <> digit (n % 10)

unfoldable pub four_digits : ℕ → String
unfolding two_digits
four_digits n = two_digits (n / 100) <> two_digits (n % 100)

abbrev pub fraction : ℕ → String
fraction us = if eqb us 0 then "" else "." <> (two_digits (us / 10000) <> four_digits (us % 10000))

-- `isoformat()`
unfoldable pub isoformat : DateTime → String
unfolding two_digits four_digits
isoformat t =
    four_digits t.year
    <> "-"
    <> two_digits t.month
    <> "-"
    <> two_digits t.day
    <> "T"
    <> two_digits t.hour
    <> ":"
    <> two_digits t.minute
    <> ":"
    <> two_digits t.second
    <> fraction t.microsecond
    <> "+00:00"

iso_week_examples :
    (iso_week 2024 (ordinal 2024 12 30) ≡ record { year = 2025; week = 1 })
    × (iso_week 2021 (ordinal 2021 1 3) ≡ record { year = 2020; week = 53 })
    × (iso_week 2026 (ordinal 2026 9 16) ≡ record { year = 2026; week = 38 })
unfolding iso_week iso_week1_monday ordinal
iso_week_examples = (refl, refl, refl)
