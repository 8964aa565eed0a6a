-- ===== src/Settings.antt =====
-- app/config.py. Durations are whole milliseconds: the defaults 0.2, 2.0 and 30.0 seconds are
-- 200, 2000 and 30000. pydantic-settings fills the fields from the environment, so a value of the
-- record is any configuration; `defaults` holds the ones of the class body.
use lingo_async.Prelude.{ℕ, String, ◌<>◌, Bool, false}
use lingo_async.Prelude.Int.{ℤ, pos}

pub record Settings : Type 0 where
  pub aws_region : String
  pub dynamodb_table_prefix : String
  pub log_level : String
  pub event_log_backend : String
  pub event_log_sqlite_path : String
  pub lingo_core_url : String
  pub internal_service_token : String
  pub core_client_max_retries : ℤ
  pub core_client_backoff_base : ℕ
  pub core_client_backoff_max : ℕ
  pub core_client_breaker_threshold : ℤ
  pub core_client_breaker_cooldown : ℕ
  pub leaderboard_enabled : Bool

abbrev pub defaults : Settings
defaults = record {
  aws_region = "us-west-1";
  dynamodb_table_prefix = "lingo_";
  log_level = "INFO";
  event_log_backend = "";
  event_log_sqlite_path = "/tmp/lingo-events.sqlite";
  lingo_core_url = "http://localhost:8000";
  internal_service_token = "";
  core_client_max_retries = pos 2;
  core_client_backoff_base = 200;
  core_client_backoff_max = 2000;
  core_client_breaker_threshold = pos 5;
  core_client_breaker_cooldown = 30000;
  leaderboard_enabled = false;
}

abbrev pub users_table_name : Settings → String
users_table_name s = s.dynamodb_table_prefix <> "users"

abbrev pub social_leaderboard_table_name : Settings → String
social_leaderboard_table_name s = s.dynamodb_table_prefix <> "social_leaderboard"

abbrev pub quests_table_name : Settings → String
quests_table_name s = s.dynamodb_table_prefix <> "quests"
