-- ===== src/Client/Rounds.antt =====
-- The loop of `_request`, one round at a time: what a round changes, and an induction rule.
use lingo_async.Prelude.{
  ℕ, zero, suc, ◌+◌, ◌≡◌, inl, inr, true, false, Option, some, ◌∷◌, arith, Bool-cases, or_default,
}
use lingo_async.Python.Exn.{Exn, Result, ok, err, assertion_error, Result-cases}
use lingo_async.Python.Json.{Json}
use lingo_async.World.{Env, World, HttpRequest, opened, closed, sent, emit}
use lingo_async.Client.{is_transient, try_call, after_failure, attempts}

abbrev pub tried : Env → HttpRequest → World → Result Json × World
tried env req w = try_call env req (emit opened w)

-- A try sends one request.
pub trace-try_call :
    (env : Env) (req : HttpRequest) (w : World) → (try_call env req w).1.trace ≡ sent req ∷ w.trace
unfolding try_call
trace-try_call env req w = ground arith

-- The world in which the next round starts.
abbrev pub failed_round : Env → HttpRequest → ℕ → World → World
failed_round env req attempt w = emit closed (after_failure env attempt (tried env req w).1)

module _ {ℓ} (env : Env) (req : HttpRequest)
    (P : ℕ → ℕ → Option Exn → World → Result Json × World → Type ℓ)
    (over : (attempt : ℕ) (last : Option Exn) (w : World)
      → P 0 attempt last w (err (or_default last assertion_error), w))
    (answered : (left attempt : ℕ) (last : Option Exn) (w : World) (v : Json)
      → (tried env req w).0 ≡ ok v
      → P (suc left) attempt last w (ok v, emit closed (tried env req w).1))
    (refused : (left attempt : ℕ) (last : Option Exn) (w : World) (e : Exn)
      → (tried env req w).0 ≡ err e
      → is_transient e ≡ false
      → P (suc left) attempt last w (err e, emit closed (tried env req w).1))
    (failed : (left attempt : ℕ) (last : Option Exn) (w : World) (e : Exn)
      → (tried env req w).0 ≡ err e
      → is_transient e ≡ true
      → P left
          (attempt + 1)
          (some e)
          (failed_round env req attempt w)
          (attempts env req left (attempt + 1) (some e) (failed_round env req attempt w))
      → P
          (suc left)
          attempt
          last
          w
          (attempts env req left (attempt + 1) (some e) (failed_round env req attempt w))) where
  pub attempts_induction :
      (left attempt : ℕ) (last : Option Exn) (w : World)
      → P left attempt last w (attempts env req left attempt last w)
  unfolding attempts
  attempts_induction zero attempt last w = over attempt last w
  attempts_induction (suc left) attempt last w = elim (Result-cases (tried env req w).0) [
    | inl (v, e) ↦ rw (e, attempts) (answered left attempt last w v e)
    | inr (x, e) ↦ elim (Bool-cases (is_transient x)) [
      | inl t ↦
          rw (e, attempts)
            (rw (t, attempts)
              (failed left attempt last w x e t
                (attempts_induction left (attempt + 1) (some x) (failed_round env req attempt w))))
      | inr t ↦ rw (e, attempts) (rw (t, attempts) (refused left attempt last w x e t))
    ]
  ]
