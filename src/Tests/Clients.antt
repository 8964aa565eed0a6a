-- ===== src/Tests/Clients.antt =====
-- The theorems on app/http/lingo_core_client.py at concrete inputs.
use lingo_async.Prelude.{◌+◌, ◌≡◌, refl, true, [], ◌∷◌, arith}
use lingo_async.Python.Exn.{Exn, err, ok, http_status}
use lingo_async.Python.Json.{null, dict, end}
use lingo_async.Breaker.{open_state, half_open, allow}
use lingo_async.Breaker.Laws.{asks_many, all_true}
use lingo_async.World.{World, opened, sent, slept}
use lingo_async.World
use lingo_async.Client.{is_transient, try_call, after_failure, attempts, request}
use lingo_async.Client.Counts.{sends}
use lingo_async.Client.Bounds.{admitted}
use lingo_async.Client.Recovery.{Blip, request-Blip}
use lingo_async.Client.Probe.{Down, request_down_gives_up, probe_is_retried, probe_undecided}
use lingo_async.Tests.Fixtures.{up, down, forbidding, fresh, cooled, tripped_breaker, listing}

-- Three rounds against a core that answers 503, with the two backoffs of the default settings.
down_trace :
    (request down "list" listing fresh).1.trace
    ≡ World.closed
      ∷ sent listing
      ∷ opened
      ∷ World.closed
      ∷ slept 400
      ∷ sent listing
      ∷ opened
      ∷ World.closed
      ∷ slept 200
      ∷ sent listing
      ∷ opened
      ∷ []
unfolding request attempts try_call after_failure allow
down_trace = refl

abbrev tripped : World
tripped = record fresh { breaker = tripped_breaker }

up_answer : (request up "list" listing cooled).0 ≡ ok (dict end)
unfolding request attempts try_call after_failure allow
up_answer = refl

allowed : (allow 0 fresh.breaker).0 ≡ true
unfolding allow
allowed = refl

up_at_once : Blip up listing 0 0 (admitted up listing fresh) (dict end)
unfolding try_call allow
up_at_once = refl

request-Blip_example :
    ((request up "list" listing fresh).0 ≡ ok (dict end))
    × (sends (request up "list" listing fresh).1.trace ≡ 0 + 0 + 1)
request-Blip_example =
    request-Blip up listing "list" 0 fresh (dict end) allowed (omega arith) up_at_once

is_down : Down down listing
is_down t = (refl, refl)

request_down_gives_up_example :
    ((x : Exn) × ((request down "list" listing fresh).0 ≡ err x) × (is_transient x ≡ true))
    × (sends (request down "list" listing fresh).1.trace ≡ 0 + 3)
request_down_gives_up_example = request_down_gives_up down listing "list" fresh allowed is_down

probe_is_retried_example :
    (sends (request down "list" listing cooled).1.trace ≡ 0 + 3)
    × ((request down "list" listing cooled).1.breaker.state ≡ open_state)
probe_is_retried_example = probe_is_retried down listing "list" cooled refl (omega arith) is_down

probe_undecided_example :
    let r = request forbidding "list" listing cooled in
    (r.0 ≡ err (http_status 403))
    × (sends r.1.trace ≡ 0 + 1)
    × (r.1.breaker.state ≡ half_open)
    × (asks_many (1 ∷ 2 ∷ []) r.1.breaker ≡ all_true (1 ∷ 2 ∷ []))
probe_undecided_example =
    probe_undecided forbidding listing "list" cooled (record { status_code = 403; json = ok null })
      refl (omega arith) refl refl refl (1 ∷ 2 ∷ [])
