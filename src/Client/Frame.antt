-- ===== src/Client/Frame.antt =====
-- What the steps keep that the handlers are made of.
use lingo_async.Prelude.{String, true}
use lingo_async.World.{Env, World, HttpRequest, XpUpdate, updated, update_failed, read_clock, emit}
use lingo_async.World.Preserves.{Preserves}
use lingo_async.Client.{request}
use lingo_async.Client

-- What the steps of a handler keep: a client's construction, a call of lingo-core, a reading of the
-- clock, a write to the leaderboard, and the setting of the quests' latch.
pub record Frame (env : Env) (I : World → Type 0) : Type 0 where
  pub client : (w : World) → I w → I (Client.new env w).1
  pub asking : (label : String) (req : HttpRequest) → Preserves I (request env label req)
  pub clock : (w : World) → I w → I (emit read_clock w)
  pub written : (item : XpUpdate) (w : World) → I w → I (emit (updated item) w)
  pub unwritten : (item : XpUpdate) (w : World) → I w → I (emit (update_failed item) w)
  pub latch : (w : World) → I w → I (record w { quests_surface_unmounted = true })
