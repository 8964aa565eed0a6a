-- ===== src/Container/Soundness.antt =====
-- What holds of every world that a container can reach.
use lingo_async.Prelude.{◌≡◌, ◌⊎◌, some, [], ◌∷◌, String, count}
use lingo_async.Breaker.Laws.{IsValid}
use lingo_async.World.{Env, World}
use lingo_async.World.Preserves.{Preserves}
use lingo_async.Token.Precedence.{answers, asked}
use lingo_async.Client.Counts.{is_opened, is_closed}
use lingo_async.Client.Frame.{Frame}

-- SSM has not been asked, or it has been asked once and what it answered is the cached token.
abbrev pub AskedOnce : Env → World → Type 0
AskedOnce env w =
    (answers env w.trace ≡ [])
    ⊎ ((token : String) × (answers env w.trace ≡ token ∷ []) × (w.cached_token ≡ some token))

-- The breaker satisfies its invariant, every HTTP client that was opened has been closed, and SSM
-- has been asked at most once, its answer being the cached token.
pub record IsSound (env : Env) (w : World) : Type 0 where
  pub breaker : IsValid w.breaker
  pub balanced : count is_opened w.trace ≡ count is_closed w.trace
  pub asked : AskedOnce env w
