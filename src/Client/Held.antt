-- ===== src/Client/Held.antt =====
-- What a call of lingo-core keeps: the breaker's invariant, the cached token, and SSM's answers.
use lingo_async.Prelude.{ℕ, List, ◌∙◌, false, refl, ◌+◌, ◌≡◌, Option, none, String, if_either, ltb}
use lingo_async.Python.Exn.{Exn, Result}
use lingo_async.Python.Json.{Json}
use lingo_async.Breaker.{allow}
use lingo_async.Breaker.Laws.{
  IsValid, allow-IsValid, record_success-IsValid, record_failure-IsValid,
}
use lingo_async.World.{Env, World, HttpRequest, Effect, opened, closed, emit, sent}
use lingo_async.World.Preserves.{Preserves, Preserves-bind, Preserves-lift}
use lingo_async.Token.Precedence.{is_ssm_read, answers, answers-other}
use lingo_async.Client.{
  max_attempts, send, raise_for_status, note_success, note_failure, try_call, after_failure,
  attempts, request,
}
use lingo_async.Client.Rounds.{tried, attempts_induction}
use lingo_async.Client.Bounds.{admitted}

module _ (env : Env) where
  -- The breaker satisfies its invariant, and the cached token and SSM's answers are those given.
  pub record Held (token : Option String) (found : List String) (w : World) : Type 0 where
    pub valid : IsValid w.breaker
    pub kept : w.cached_token ≡ token
    pub answered : answers env w.trace ≡ found

  module _ (token : Option String) (found : List String) where
    emit-Held :
        (e : Effect) (w : World)
        → is_ssm_read e ≡ false
        → Held token found w
        → Held token found (emit e w)
    emit-Held e w other h = record {
      valid = h.valid;
      kept = h.kept;
      answered = answers-other env e w.trace other ∙ h.answered;
    }

    send-Held : (req : HttpRequest) → Preserves (Held token found) (send env req)
    unfolding Preserves send
    send-Held req w h = emit-Held (sent req) w refl h

    note_success-Held : Preserves (Held token found) note_success
    unfolding Preserves
    note_success-Held w h = record {
      valid = record_success-IsValid w.breaker h.valid;
      kept = h.kept;
      answered = h.answered;
    }

    try_call-Held : (req : HttpRequest) → Preserves (Held token found) (try_call env req)
    unfolding try_call
    try_call-Held req = Preserves-bind (Held token found) _ _ (send-Held req) λ resp.
        Preserves-bind (Held token found) _ _
          (Preserves-lift (Held token found) (raise_for_status env resp))
          λ _.
            Preserves-bind (Held token found) _ _ note_success-Held
              λ _. Preserves-lift (Held token found) resp.json

    tried-Held :
        (req : HttpRequest) (w : World) → Held token found w → Held token found (tried env req w).1
    unfolding Preserves
    tried-Held req w h = try_call-Held req (emit opened w) (emit-Held opened w refl h)

    after_failure-Held :
        (attempt : ℕ) (w : World)
        → Held token found w
        → Held token found (after_failure env attempt w)
    unfolding after_failure
    after_failure-Held attempt w h =
        let noted : Held token found (note_failure env w) = record {
          valid = record_failure-IsValid (env.monotonic w.trace) w.breaker h.valid;
          kept = h.kept;
          answered = h.answered;
        } in
        if_either (Held token found) (ltb (attempt + 1) (max_attempts env.settings)) _ _
          (λ _. emit-Held _ (note_failure env w) refl noted) (λ _. noted)

    attempts-Held :
        (req : HttpRequest) (left attempt : ℕ) (last : Option Exn) (w : World)
        → Held token found w
        → Held token found (attempts env req left attempt last w).1
    attempts-Held req =
        attempts_induction env req (λ _ _ _ w r. Held token found w → Held token found r.1)
          (λ attempt last w h. h)
          (λ left attempt last w v e h. emit-Held closed _ refl (tried-Held req w h))
          (λ left attempt last w x e t h. emit-Held closed _ refl (tried-Held req w h))
          (λ left attempt last w x e t ih h.
            ih (emit-Held closed _ refl (after_failure-Held attempt _ (tried-Held req w h))))

    pub request-Held :
        (label : String) (req : HttpRequest) → Preserves (Held token found) (request env label req)
    unfolding Preserves request
    request-Held label req w h =
        let asked : Held token found (admitted env req w) = record {
          valid = allow-IsValid (env.monotonic w.trace) w.breaker h.valid;
          kept = h.kept;
          answered = h.answered;
        } in
        if_either (λ (r : Result Json × World). Held token found r.1)
          (allow (env.monotonic w.trace) w.breaker).0 _ _
          (λ _. attempts-Held req (max_attempts env.settings) 0 none (admitted env req w) asked)
          (λ _. asked)
