-- ===== src/Leaderboard.antt =====
-- app/leaderboard/updater.py
pub mod Frame
pub mod Health
pub mod Keeps
pub mod Writes
pub mod Expiry
pub mod Doubling
use lingo_async.Prelude.{
  ℕ, ◌+◌, ◌-◌, ◌*◌, String, ◌<>◌, not, List, [], ◌∷◌, eqb, ltb, if◌then◌else◌, or_default,
}
use lingo_async.Prelude.Int.{ℤ, pos, leb_ℤ}
use lingo_async.Python.Exn.{Result, ok, err, value_error}
use lingo_async.Python.Text.{strip, is_empty}
use lingo_async.Python.Calendar.{
  ordinal, IsoWeek, iso_week, monday_of, in_range, timestamp, two_digits, four_digits,
}
use lingo_async.Settings.{social_leaderboard_table_name}
use lingo_async.World.{
  Env, M, DateTime, XpUpdate, updated, update_failed, read_clock, emit, pure, lift, ◌>>=◌, ◌>>◌,
}
use lingo_async.Contracts.Messages.{XpAwarded}

-- _TTL_GRACE, in seconds
abbrev pub ttl_grace : ℕ
ttl_grace = 30 * 86400

pub data Scope : Type 0 where
  weekly monthly : Scope

pub record BucketAction : Type 0 where
  pub bucket : String
  pub xp_added : ℤ
  pub scope : Scope

pub record Bucket : Type 0 where
  pub name : String
  pub ttl : ℤ

-- `_now`
unfoldable pub now : Env → M DateTime
now env w = (ok (env.utc_now w.trace), emit read_clock w)

abbrev pub week_of : DateTime → IsoWeek
week_of t = iso_week t.year (ordinal t.year t.month t.day)

-- The end of the period plus the grace time, as a timestamp; `first_of_next` is the first moment
-- after the period.
abbrev pub expiry : ℕ → Result ℤ
expiry first_of_next = elim (in_range (first_of_next - 1 + ttl_grace)) [
  | ok seconds ↦ ok (timestamp seconds)
  | err e ↦ err e
]

abbrev pub named : String → Result ℤ → Result Bucket
named name (ok ttl) = ok (record { name = name; ttl = ttl })
named name (err e) = err e

abbrev pub week_name : String → IsoWeek → String
week_name lang iso = lang <> ("#" <> (four_digits iso.year <> ("-W" <> two_digits iso.week)))

abbrev pub weekly_from : String → Result ℕ → Result Bucket
weekly_from name (ok monday) = named name (expiry ((monday + 7) * 86400))
weekly_from name (err e) = err e

unfoldable pub weekly_bucket : String → DateTime → Result Bucket
weekly_bucket lang t = let iso = week_of t in weekly_from (week_name lang iso) (monday_of iso)

abbrev pub month_name : String → DateTime → String
month_name lang t = lang <> ("#" <> (four_digits t.year <> ("-" <> two_digits t.month)))

-- The ordinal of the first day of the next month; `datetime` refuses the year 10000.
unfoldable pub first_of_next_month : DateTime → Result ℕ
first_of_next_month t =
    if eqb t.month 12
    then (if ltb t.year 9999 then ok (ordinal (t.year + 1) 1 1) else err (value_error "year"))
    else ok (ordinal t.year (t.month + 1) 1)

abbrev pub monthly_from : String → Result ℕ → Result Bucket
monthly_from name (ok day) = named name (expiry (day * 86400))
monthly_from name (err e) = err e

unfoldable pub monthly_bucket : String → DateTime → Result Bucket
monthly_bucket lang t = monthly_from (month_name lang t) (first_of_next_month t)

abbrev pub row : Env → Bucket → String → ℤ → XpUpdate
row env b user_id amount = record {
  table = social_leaderboard_table_name env.settings;
  pk = "BUCKET#" <> b.name;
  sk = "USER#" <> user_id;
  amount = amount;
  ttl = b.ttl;
}

-- `table.update_item`; any exception is raised on.
unfoldable pub add_xp : Env → Bucket → String → ℤ → M (Unit {0})
add_xp env b user_id amount w =
    let item = row env b user_id amount in
    elim (env.update_item w.trace item) [
      | ok _ ↦ (ok tt, emit (updated item) w)
      | err e ↦ (err e, emit (update_failed item) w)
    ]

abbrev pub action : Bucket → ℤ → Scope → BucketAction
action b amount scope = record { bucket = b.name; xp_added = amount; scope = scope }

-- The part after the guards.
unfoldable pub write_buckets : Env → String → XpAwarded → M (List BucketAction)
write_buckets env lang m = do
  t ← now env
  week ← lift (weekly_bucket lang t)
  month ← lift (monthly_bucket lang t)
  add_xp env week m.user_id m.amount
  add_xp env month m.user_id m.amount
  pure (action week m.amount weekly ∷ action month m.amount monthly ∷ [])

abbrev pub language_of : XpAwarded → String
language_of m = strip (or_default m.learning_language_id "")

unfoldable pub update_leaderboard : Env → XpAwarded → M (List BucketAction)
update_leaderboard env m =
    if leb_ℤ m.amount (pos 0)
    then pure []
    else if not m.leaderboard_opt_in
    then pure []
    else if is_empty (language_of m)
    then pure []
    else write_buckets env (language_of m) m
