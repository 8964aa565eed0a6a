-- ===== src/Tests/Healthy.antt =====
-- A published message while everything outside is up, at a concrete input.
use lingo_async.Prelude.{refl, arith}
use lingo_async.Prelude.Int.{pos}
use lingo_async.Python.Exn.{ok}
use lingo_async.Python.Json.{Json, Fields, int, str, arr, dict, nil, cons, field, end, lookup}
use lingo_async.World.{Env, Payload, user, progress, xp}
use lingo_async.Client.Health.{IsHealthy, Fits, HasProgress}
use lingo_async.Tests.Fixtures.{up, response}
use lingo_async.Tests.Outages.{noon-IsClock}

abbrev progress_fields : Fields
progress_fields = field "unit" (str "XP") (field "current" (int (pos 3)) end)

abbrev quest_fields : Fields
quest_fields =
    field "id" (str "q1")
      (field "status" (str "active") (field "progress" (dict progress_fields) end))

abbrev listing_fields : Fields
listing_fields = field "items" (arr (cons (dict quest_fields) nil)) end

abbrev body_for : Payload → Json
body_for (user _) = dict listing_fields
body_for (progress _ _) = dict quest_fields
body_for (xp _ _ _ _) = dict end

-- lingo-core lists one quest and takes every bump and every credit.
abbrev pub healthy : Env
healthy = record up { http = λ _ req. response 200 (body_for req.payload) }

quest-HasProgress : HasProgress quest_fields
unfolding lookup
quest-HasProgress = record { progress = progress_fields; found = refl; current = tt }

body-Fits : (p : Payload) → Fits p (body_for p)
unfolding lookup
body-Fits (user _) = record {
  items = cons (dict quest_fields) nil;
  found = refl;
  quests = (record { id = str "q1"; id_found = refl; progress = quest-HasProgress }, tt);
}
body-Fits (progress _ _) = quest-HasProgress
body-Fits (xp _ _ _ _) = tt

pub healthy-IsHealthy : IsHealthy healthy
healthy-IsHealthy = record {
  answers = λ t req. record {
    response = record { status_code = 200; json = ok (body_for req.payload) };
    answered = refl;
    success = refl;
    body = body_for req.payload;
    decoded = refl;
    fits = body-Fits req.payload;
  };
  writes = λ _ _. refl;
  clock = λ _. noon-IsClock;
  year = λ _. omega arith;
}
