-- ===== src/Container.antt =====
-- A Lambda container: the import of app/handler.py with its boot probe, then one batch after
-- another over the module-level state.
pub mod Soundness
use lingo_async.Prelude.{false, none, Option, List, [], ◌≡◌}
use lingo_async.Python.Exn.{ok}
use lingo_async.Settings.{Settings}
use lingo_async.Breaker
use lingo_async.World.{Env, World}
use lingo_async.Boot.{Log, verify_internal_token_on_boot}
use lingo_async.EventLog.Provider.{Logs, Drivers}
use lingo_async.Worker.{SqsRecord, Host}
use lingo_async.Worker.Entry.{invoke}

-- The module-level state as the imports leave it: `_breaker`, `_quests_surface_unmounted` and
-- `_cached_token`.
abbrev pub imported : Settings → World
imported s = record {
  breaker = Breaker.new s.core_client_breaker_threshold s.core_client_breaker_cooldown;
  quests_surface_unmounted = false;
  cached_token = none;
  trace = [];
}

-- The worlds that a container can reach. An import that raises starts no container; what the log
-- holds when a batch begins is arbitrary, since others write it too.
pub data Reachable (env : Env) (h : Host) (d : Drivers) : World → Type 0 where
  booted :
      (log : Log)
      → (verify_internal_token_on_boot env (imported env.settings)).0 ≡ ok log
      → Reachable env h d (verify_internal_token_on_boot env (imported env.settings)).1
  invoked :
      {w : World}
      → (records : Option (List SqsRecord)) (logs : Logs) → Reachable env h d w
      → Reachable env h d (invoke env h d records (record { world = w; log = logs })).1.world
