-- ===== src/Client/Counts.antt =====
-- What the trace of a call into lingo-core counts.
use lingo_async.Prelude.{ℕ, ◌+◌, Bool, true, false, [], ◌∷◌, count}
use lingo_async.World.{Effect, opened, closed, sent, slept, Trace}

abbrev pub is_opened : Effect → Bool
is_opened opened = true
is_opened _ = false

abbrev pub is_closed : Effect → Bool
is_closed closed = true
is_closed _ = false

abbrev pub is_sent : Effect → Bool
is_sent (sent _) = true
is_sent _ = false

abbrev pub sends : Trace → ℕ
sends = count is_sent

abbrev pub slept_for : Effect → ℕ
slept_for (slept d) = d
slept_for _ = 0

-- The milliseconds spent in `time.sleep`.
abbrev pub sleep_time : Trace → ℕ
sleep_time [] = 0
sleep_time (e ∷ t) = slept_for e + sleep_time t
