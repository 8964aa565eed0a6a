-- ===== src/Token/Precedence.antt =====
-- Which source the token of app/http/internal_token.py comes from, and how often SSM is asked.
use lingo_async.Prelude.{
  ℕ, zero, suc, ◌+◌, ◌≤◌, String, ◌≡◌, refl, ap, ◌∙◌, inl, inr, Bool, true, false, Option, none,
  some, List, [], ◌∷◌, arith, count, Bool-cases,
}
use lingo_async.Python.Text.{is_empty}
use lingo_async.World.{
  Env, World, Trace, Effect, opened, closed, sent, slept, updated, update_failed, read_clock,
  read_ssm, emit,
}
use lingo_async.Token.{ssm_parameter_name, ssm_value, resolve_internal_service_token}

-- A token that is set in the environment is used as it is: SSM is not asked, and the cache is
-- neither read nor written.
pub resolve-env :
    (env : Env) (w : World)
    → is_empty env.settings.internal_service_token ≡ false
    → resolve_internal_service_token env w ≡ (env.settings.internal_service_token, w)
unfolding resolve_internal_service_token
resolve-env env w h = rw h

abbrev pub ssm_answer : Env → World → String
ssm_answer env w = ssm_value (env.get_parameter w.trace ssm_parameter_name)

abbrev pub asked : Env → World → World
asked env w = record (emit (read_ssm ssm_parameter_name) w) {
  cached_token = some (ssm_answer env w);
}

-- With no token in the environment and nothing cached, SSM is asked once, its answer (the empty
-- text after any exception) is the token, and that answer is cached.
pub resolve-ssm :
    (env : Env) (w : World)
    → is_empty env.settings.internal_service_token ≡ true
    → w.cached_token ≡ none
    → resolve_internal_service_token env w ≡ (ssm_answer env w, asked env w)
unfolding resolve_internal_service_token
resolve-ssm env w h c = ground arith

abbrev pub is_ssm_read : Effect → Bool
is_ssm_read (read_ssm _) = true
is_ssm_read _ = false

-- What SSM had answered at each time it was asked, newest first: the parameter's value, and the
-- empty text after any exception.
unfoldable pub answers : Env → Trace → List String
answers env [] = []
answers env (read_ssm name ∷ t) = ssm_value (env.get_parameter t name) ∷ answers env t
answers env (opened ∷ t) = answers env t
answers env (closed ∷ t) = answers env t
answers env (sent _ ∷ t) = answers env t
answers env (slept _ ∷ t) = answers env t
answers env (updated _ ∷ t) = answers env t
answers env (update_failed _ ∷ t) = answers env t
answers env (read_clock ∷ t) = answers env t

pub answers-other :
    (env : Env) (e : Effect) (t : Trace)
    → is_ssm_read e ≡ false
    → answers env (e ∷ t) ≡ answers env t
unfolding answers
answers-other env (read_ssm name) t n = absurd cc
answers-other env opened t n = refl
answers-other env closed t n = refl
answers-other env (sent _) t n = refl
answers-other env (slept _) t n = refl
answers-other env (updated _) t n = refl
answers-other env (update_failed _) t n = refl
answers-other env read_clock t n = refl

abbrev pub ssm_reads : World → ℕ
ssm_reads w = count is_ssm_read w.trace

-- What `n` resolutions in a row leave behind.
unfoldable pub resolutions : Env → ℕ → World → World
resolutions env zero w = w
resolutions env (suc n) w = resolutions env n (resolve_internal_service_token env w).1

abbrev pub IsCached : World → Type 0
IsCached w = (token : String) × (w.cached_token ≡ some token)

pub resolve-cached :
    (env : Env) (w : World) → IsCached w → (resolve_internal_service_token env w).1 ≡ w
unfolding resolve_internal_service_token
resolve-cached env w (token, c) = ground arith

resolutions-cached : (env : Env) (n : ℕ) (w : World) → IsCached w → resolutions env n w ≡ w
unfolding resolutions
resolutions-cached env zero w c = refl
resolutions-cached env (suc n) w c = rw (resolve-cached env w c) (resolutions-cached env n w c)

resolutions-env :
    (env : Env) (n : ℕ) (w : World)
    → is_empty env.settings.internal_service_token ≡ false
    → resolutions env n w ≡ w
unfolding resolutions
resolutions-env env zero w h = refl
resolutions-env env (suc n) w h = rw (resolve-env env w h) (resolutions-env env n w h)

answered :
    (env : Env) (n : ℕ) (w : World)
    → is_empty env.settings.internal_service_token ≡ true
    → w.cached_token ≡ none
    → resolutions env (suc n) w ≡ asked env w
unfolding resolutions
answered env n w h e =
    ap (λ (r : String × World). resolutions env n r.1) (resolve-ssm env w h e)
    ∙ resolutions-cached env n (asked env w) (ssm_answer env w, refl)

resolutions-ssm :
    (env : Env) (n : ℕ) (w : World) (c : Option String)
    → is_empty env.settings.internal_service_token ≡ true
    → w.cached_token ≡ c
    → ssm_reads (resolutions env n w) ≤ ssm_reads w + 1
unfolding resolutions
resolutions-ssm env zero w c h e = omega arith
resolutions-ssm env (suc n) w (some t) h e =
    rw (resolutions-cached env (suc n) w (t, e)) (omega arith)
resolutions-ssm env (suc n) w none h e = rw (answered env n w h e) (omega arith)

-- However often the token is resolved in a container, SSM is asked at most once.
pub resolutions_ask_once :
    (env : Env) (n : ℕ) (w : World) → ssm_reads (resolutions env n w) ≤ ssm_reads w + 1
resolutions_ask_once env n w = elim (Bool-cases (is_empty env.settings.internal_service_token)) [
  | inl h ↦ resolutions-ssm env n w w.cached_token h refl
  | inr h ↦ rw (resolutions-env env n w h) (omega arith)
]
