-- ===== src/Tests/Boards.antt =====
-- The leaderboard at concrete inputs: a write that fails after another went through.
use lingo_async.Prelude.{
  true, ◌+◌, ◌≤◌, ◌≡◌, refl, some, List, [], ◌∷◌, eqb, length, if◌then◌else◌, arith,
}
use lingo_async.Prelude.Int.{pos}
use lingo_async.Python.Exn.{ok, err, client_error}
use lingo_async.Python.Text.{strip}
use lingo_async.Python.Calendar.{monday_of, iso_week, ordinal, iso_week1_monday, four_digits}
use lingo_async.World.{Env, World}
use lingo_async.Contracts.Messages.{XpAwarded, quest}
use lingo_async.Leaderboard.{
  Bucket, BucketAction, action, weekly, monthly, language_of, weekly_bucket, monthly_bucket,
  first_of_next_month, add_xp, update_leaderboard, write_buckets, now,
}
use lingo_async.Leaderboard.Doubling.{Breaks, additions, weekly_twice}
use lingo_async.Tests.Fixtures.{up, fresh, noon}

abbrev award : XpAwarded
award = record {
  user_id = "u1";
  amount = pos 10;
  source = quest;
  learning_language_id = some "de";
  leaderboard_opt_in = true;
}

-- The third effect of a run, its monthly write, fails in the first run only.
abbrev throttled : Env
throttled = record up {
  update_item = λ t _. if eqb (length t) 2 then err (client_error "throttled") else ok tt;
}

abbrev w38 : Bucket
w38 = record { name = "de#2026-W38"; ttl = pos 1792540799 }

week_made : weekly_bucket (language_of award) noon ≡ ok w38
unfolding weekly_bucket monday_of iso_week ordinal iso_week1_monday four_digits strip
week_made = refl

abbrev september : Bucket
september = record { name = "de#2026-09"; ttl = pos 1793404799 }

month_made : monthly_bucket (language_of award) noon ≡ ok september
unfolding monthly_bucket first_of_next_month ordinal four_digits strip
month_made = refl

abbrev after_throttle : World
after_throttle = (update_leaderboard throttled award fresh).1

award-Breaks : Breaks throttled award w38 (client_error "throttled") fresh
unfolding add_xp
award-Breaks = record {
  month = september;
  weekly_is = week_made;
  monthly_is = month_made;
  added = refl;
  refused = refl;
}

abbrev both_actions : List BucketAction
both_actions = action w38 (pos 10) weekly ∷ action september (pos 10) monthly ∷ []

second_returns : (update_leaderboard throttled award after_throttle).0 ≡ ok both_actions
unfolding update_leaderboard write_buckets now add_xp weekly_bucket monday_of iso_week ordinal
    iso_week1_monday four_digits strip monthly_bucket first_of_next_month
second_returns = refl

weekly_twice_example :
    ((update_leaderboard throttled award fresh).0 ≡ err (client_error "throttled"))
    × (2 + 0 ≤ additions throttled award w38 (update_leaderboard throttled award after_throttle).1)
unfolding strip
weekly_twice_example =
    weekly_twice throttled award w38 september (client_error "throttled") fresh after_throttle
      both_actions refl award-Breaks (omega arith) week_made month_made second_returns
