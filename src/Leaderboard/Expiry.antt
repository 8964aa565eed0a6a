-- ===== src/Leaderboard/Expiry.antt =====
-- How long the rows that app/leaderboard/updater.py writes live.
use lingo_async.Prelude.{
  ℕ, ◌⊎◌, inl, inr, ◌+◌, ◌-◌, ◌*◌, ◌≤◌, ◌<◌, String, ◌≡◌, refl, arith, eqb, ltb, lt→ltb, if_either,
}
use lingo_async.Python.Exn.{Result, ok}
use lingo_async.Python.Calendar.{days_before_year, ordinal, in_range, timestamp}
use lingo_async.Python.Calendar.Weeks.{new_year, IsDayOfYear, monday_of-iso_week, IsMonday}
use lingo_async.Python.Calendar.Months.{
  IsClock, today, today-IsDayOfYear, next_month_range, next_year_range,
}
use lingo_async.World.{DateTime}
use lingo_async.Leaderboard.{
  ttl_grace, Bucket, named, expiry, week_of, week_name, weekly_from, weekly_bucket, month_name,
  monthly_from, first_of_next_month, monthly_bucket,
}

-- The first Monday after the day.
abbrev pub IsNextMonday : DateTime → ℕ → Type 0
IsNextMonday t next = (today t < next) × (next ≤ today t + 7) × IsMonday next

-- The first day of the month after the day's.
abbrev pub IsNextMonth : DateTime → ℕ → Type 0
IsNextMonth t next =
    ((t.month ≡ 12) × (next ≡ ordinal (t.year + 1) 1 1))
    ⊎ ((t.month < 12) × (next ≡ ordinal t.year (t.month + 1) 1))

-- The bucket exists, and it expires 30 days after the last second before the day `next`.
pub record Outlives (IsNext : ℕ → Type 0) (r : Result Bucket) : Type 0 where
  pub bucket : Bucket
  pub made : r ≡ ok bucket
  pub next : ℕ
  pub is_next : IsNext next
  pub expires : bucket.ttl ≡ timestamp (next * 86400 - 1 + 30 * 86400)

-- A day before year 9999 comes before its first.
early : (y day : ℕ) → IsDayOfYear y day → y ≤ 9998 → day < 3651695
unfolding new_year days_before_year
early y day d le = omega (arith, d.before)

-- A period that ends with the day before `next`.
module _ (t : DateTime) (c : IsClock t) (year_le : t.year ≤ 9998) (next : ℕ)
    (later : today t < next) (month : next ≤ today t + 31) (IsNext : ℕ → Type 0)
    (is_next : IsNext next) (name : String) where
  in_time : next * 86400 - 1 + ttl_grace < 315537984000
  in_time = omega (arith, early t.year (today t) (today-IsDayOfYear t c) year_le)

  fits : in_range (next * 86400 - 1 + ttl_grace) ≡ ok (next * 86400 - 1 + ttl_grace)
  fits = rw (lt→ltb _ _ in_time) refl

  named-Outlives : Outlives IsNext (named name (expiry (next * 86400)))
  named-Outlives = record {
    bucket = record { name = name; ttl = timestamp (next * 86400 - 1 + ttl_grace) };
    made = rw (fits, expiry) refl;
    next = next;
    is_next = is_next;
    expires = refl;
  }

-- At a date of the calendar up to year 9998, the weekly bucket exists and expires 30 days after
-- the end of its ISO week.
pub weekly_bucket-Outlives :
    (lang : String) (t : DateTime)
    → IsClock t
    → t.year ≤ 9998
    → Outlives (IsNextMonday t) (weekly_bucket lang t)
unfolding weekly_bucket
weekly_bucket-Outlives lang t c le =
    let (monday, e, lo, hi, first) =
      monday_of-iso_week t.year (today t) (today-IsDayOfYear t c) (omega arith) in
    rw (e, weekly_from)
      (named-Outlives t c le (monday + 7) (omega arith) (omega arith) (IsNextMonday t)
        (omega arith, omega arith, omega (arith, first)) (week_name lang (week_of t)))

pub monthly_bucket-Outlives :
    (lang : String) (t : DateTime)
    → IsClock t
    → t.year ≤ 9998
    → Outlives (IsNextMonth t) (monthly_bucket lang t)
unfolding monthly_bucket first_of_next_month
monthly_bucket-Outlives lang t c le =
    let P = λ (r : Result ℕ). Outlives (IsNextMonth t) (monthly_from (month_name lang t) r) in
    let ends = λ (next : ℕ) (range : (today t < next) × (next ≤ today t + 31)).
      λ (is_next : IsNextMonth t next).
        named-Outlives t c le next range.0 range.1 (IsNextMonth t) is_next (month_name lang t) in
    if_either P (eqb t.month 12) _ _
      (λ last.
        if_either P (ltb t.year 9999) _ _
          (λ _.
            ends (ordinal (t.year + 1) 1 1) (next_year_range t c (ground arith))
              (inl (ground arith, refl)))
          (λ over. absurd (ground arith)))
      (λ other.
        ends (ordinal t.year (t.month + 1) 1) (next_month_range t c (ground (arith, c.month_in.1)))
          (inr (ground (arith, c.month_in.1), refl)))

-- At a time of the calendar up to year 9998, both buckets exist; the rows of the weekly one expire
-- 30 days after the last second before the first Monday that follows the day, and those of the
-- monthly one 30 days after the last second before the first day of the next month.
pub buckets-Outlive :
    (lang : String) (t : DateTime)
    → IsClock t
    → t.year ≤ 9998
    → Outlives (IsNextMonday t) (weekly_bucket lang t)
      × Outlives (IsNextMonth t) (monthly_bucket lang t)
buckets-Outlive lang t c le =
    (weekly_bucket-Outlives lang t c le, monthly_bucket-Outlives lang t c le)
