-- ===== src/Tests/Outages.antt =====
-- What an outage of lingo-core leaves alone, and how long leaderboard rows live, at concrete inputs.
use lingo_async.Prelude.{◌≡◌, refl, true, some, none, [], ◌∷◌, arith}
use lingo_async.Prelude.Int.{pos}
use lingo_async.Python.Calendar.Months.{IsClock}
use lingo_async.World.{Env}
use lingo_async.Client.Counts.{sends}
use lingo_async.Python.Json.{lookup}
use lingo_async.Contracts.Messages.{XpAwarded, xp_awarded, quest}
use lingo_async.Contracts.Literals.{◌>>=◌, check}
use lingo_async.Contracts.Validate.{
  validate, validate_tagged, validate_ad_watched, validate_xp_awarded,
}
use lingo_async.Contracts.Envelope.{unwrap_kombu_envelope, envelope_of, try_kombu_envelope}
use lingo_async.Contracts.Parse.{parsed, parse_event}
use lingo_async.Leaderboard.{weekly_bucket, monthly_bucket}
use lingo_async.Leaderboard.Expiry.{Outlives, IsNextMonday, IsNextMonth, buckets-Outlive}
use lingo_async.EventLog.Sqlite.{Table, sqlite_repo}
use lingo_async.Worker.{State, lambda_handler}
use lingo_async.Worker.Batch.{parse_record}
use lingo_async.Worker.Outage.{Reports, due_ids, outage_batch}
use lingo_async.Tests.Fixtures.{connected, noon, up, fresh, tripped_breaker, host, message}

pub noon-IsClock : IsClock noon
noon-IsClock = record {
  year_in = (omega arith, omega arith);
  month_in = (omega arith, omega arith);
  day_in = (omega arith, omega arith);
  hour_in = omega arith;
  minute_in = omega arith;
  second_in = omega arith;
}

buckets-Outlive_example :
    Outlives (IsNextMonday noon) (weekly_bucket "en" noon)
    × Outlives (IsNextMonth noon) (monthly_bucket "en" noon)
buckets-Outlive_example = buckets-Outlive "en" noon noon-IsClock (omega arith)

abbrev pub xp : XpAwarded
xp = record {
  user_id = "u1";
  amount = pos 10;
  source = quest;
  learning_language_id = none;
  leaderboard_opt_in = true;
}

-- The clock stands still, so that no cooldown ends.
abbrev stopped : Env
stopped = record up { monotonic = λ _. 0 }

abbrev cut_off : State Table
cut_off = record { world = record fresh { breaker = tripped_breaker }; log = [] }

xp_parses : parse_record host (message "m4" "xp") ≡ parsed (xp_awarded xp)
unfolding parse_event unwrap_kombu_envelope try_kombu_envelope envelope_of validate validate_tagged
    validate_xp_awarded lookup ◌>>=◌ check
xp_parses = refl

outage_batch_example :
    let rs = message "m1" "ad" ∷ message "m4" "xp" ∷ [] in
    let out = lambda_handler stopped host (some (sqlite_repo connected)) rs cut_off in
    (sends out.1.world.trace ≡ 0)
    × (out.1.world.breaker ≡ tripped_breaker)
    × Reports (due_ids host rs) out.0
outage_batch_example =
    outage_batch stopped tripped_breaker refl (λ _. omega arith) host (some (sqlite_repo connected))
      (message "m1" "ad" ∷ message "m4" "xp" ∷ []) cut_off refl

one_due : due_ids host (message "m1" "ad" ∷ message "m4" "xp" ∷ []) ≡ "m4" ∷ []
unfolding due_ids parse_event unwrap_kombu_envelope try_kombu_envelope envelope_of validate
    validate_tagged validate_ad_watched validate_xp_awarded lookup ◌>>=◌ check
one_due = refl
