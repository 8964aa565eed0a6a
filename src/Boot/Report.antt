-- ===== src/Boot/Report.antt =====
-- What the boot probe of app/handler.py logs, and that it does not raise.
use lingo_async.Prelude.{
  ◌≡◌, ◌∙◌, refl, sym, subst, inl, inr, true, false, ◌||◌, eqb, arith, ◌∷◌, if_either,
}
use lingo_async.Python.Exn.{
  Exn, Result, ok, err, http_status, transport, http_other, circuit_open, client_error, value_error,
  other, key_error, attribute_error, type_error, overflow_error, assertion_error, Result-cases,
  ◌>>=◌,
}
use lingo_async.Python.Text.{is_empty}
use lingo_async.World.{Env, World, Response, HttpRequest, Trace, opened}
use lingo_async.Token.{resolve_internal_service_token, fetch_from_ssm}
use lingo_async.Client.{
  LingoCoreClient, list_call, new, send, raise_for_status, verify_internal_token,
}
use lingo_async.Boot.{
  Log, unresolved, verified, unreachable, mismatch, unexpected_status, report,
  verify_internal_token_on_boot,
}

-- An exception of httpx's HTTPError family.
abbrev pub IsHttpError : Exn → Type 0
IsHttpError (http_status _) = Unit {0}
IsHttpError (transport _) = Unit {0}
IsHttpError (http_other _) = Unit {0}
IsHttpError _ = ⊥

ok-err : {e : Exn} → ok (tt {0}) ≡ err e → ⊥
ok-err h = cc

module _ (env : Env) where
  resolve-breaker : (w : World) → (resolve_internal_service_token env w).1.breaker ≡ w.breaker
  unfolding resolve_internal_service_token fetch_from_ssm
  resolve-breaker w = ground arith

  new-breaker : (w : World) → (new env w).1.breaker ≡ w.breaker
  unfolding new
  new-breaker w = ground (arith, resolve-breaker w)

  verify-breaker :
      (c : LingoCoreClient) (w : World) → (verify_internal_token env c w).1.breaker ≡ w.breaker
  unfolding verify_internal_token send
  verify-breaker c w = ground arith

  verify-ok :
      (c : LingoCoreClient) (w : World) (resp : Response)
      → env.http (opened ∷ w.trace) (list_call c "__token_self_check__") ≡ ok resp
      → (verify_internal_token env c w).0 ≡ raise_for_status env resp
  unfolding verify_internal_token send
  verify-ok c w resp a = ground arith

  verify-err :
      (c : LingoCoreClient) (w : World) (e : Exn)
      → env.http (opened ∷ w.trace) (list_call c "__token_self_check__") ≡ err e
      → (verify_internal_token env c w).0 ≡ err e
  unfolding verify_internal_token send
  verify-err c w e a = ground arith

  -- The answer that the probe's request gets.
  abbrev pub probe_answer : World → Result Response
  probe_answer w =
      let w1 = (resolve_internal_service_token env w).1 in
      let (client, w2) = new env w1 in
      env.http (opened ∷ w2.trace) (list_call client "__token_self_check__")

  -- What the call of the probe returns or raises.
  abbrev pub probe_result : World → Result (Unit {0})
  probe_result w = do resp ← probe_answer w; raise_for_status env resp

  -- The error of a response's status.
  abbrev pub IsStatusError : Exn → Type 0
  IsStatusError (http_status _) = Unit {0}
  IsStatusError _ = ⊥

  -- What each line of the log says of the world in which the probe began.
  abbrev pub Means : World → Log → Type 0
  Means w unresolved = is_empty (resolve_internal_service_token env w).0 ≡ true
  Means w verified = probe_result w ≡ ok tt
  Means w (mismatch code) =
      (probe_result w ≡ err (http_status code)) × (eqb code 401 || eqb code 403 ≡ true)
  Means w (unexpected_status code) =
      (probe_result w ≡ err (http_status code)) × (eqb code 401 || eqb code 403 ≡ false)
  Means w unreachable = (e : Exn) × (probe_result w ≡ err e) × ¬ IsStatusError e

  abbrev Reports : World → Result (Unit {0}) → Type 0
  Reports w r = (log : Log) × (report r ≡ ok log) × Means w log

  report-Means :
      (w : World) (r : Result (Unit {0}))
      → probe_result w ≡ r
      → ((e : Exn) → r ≡ err e → IsHttpError e)
      → Reports w r
  report-Means w (ok tt) p h = (verified, refl, p)
  report-Means w (err (http_status code)) p h =
      if_either (λ (x : Result Log). (log : Log) × (x ≡ ok log) × Means w log)
        (eqb code 401 || eqb code 403) _ _ (λ yes. (mismatch code, refl, (p, yes)))
        (λ no. (unexpected_status code, refl, (p, no)))
  report-Means w (err (transport x)) p h = (unreachable, refl, (transport x, p, λ n. n))
  report-Means w (err (http_other x)) p h = (unreachable, refl, (http_other x, p, λ n. n))
  report-Means w (err (circuit_open x)) p h = absurd (h _ refl)
  report-Means w (err (client_error x)) p h = absurd (h _ refl)
  report-Means w (err (value_error x)) p h = absurd (h _ refl)
  report-Means w (err (other x)) p h = absurd (h _ refl)
  report-Means w (err (key_error x)) p h = absurd (h _ refl)
  report-Means w (err attribute_error) p h = absurd (h _ refl)
  report-Means w (err type_error) p h = absurd (h _ refl)
  report-Means w (err overflow_error) p h = absurd (h _ refl)
  report-Means w (err assertion_error) p h = absurd (h _ refl)

  verify-result :
      (c : LingoCoreClient) (w : World)
      → (verify_internal_token env c w).0 ≡ (do
        resp ← env.http (opened ∷ w.trace) (list_call c "__token_self_check__")
        raise_for_status env resp)
  verify-result c w =
      elim (Result-cases (env.http (opened ∷ w.trace) (list_call c "__token_self_check__"))) [
        | inl (resp, a) ↦ rw (a) (verify-ok c w resp a)
        | inr (e, a) ↦ rw (a) (verify-err c w e a)
      ]

  raise_for_status-IsHttpError :
      (resp : Response) (e : Exn) → raise_for_status env resp ≡ err e → IsHttpError e
  raise_for_status-IsHttpError resp e h =
      if_either (λ (r : Result (Unit {0})). r ≡ err e → IsHttpError e)
        (env.is_success resp.status_code) _ _ (λ _ h. absurd (ok-err h))
        (λ _ h. let same : http_status resp.status_code ≡ e = cc in subst IsHttpError same tt) h

  probe_error :
      (w : World)
      → ((t : Trace) (req : HttpRequest) (e : Exn) → env.http t req ≡ err e → IsHttpError e)
      → (e : Exn) → probe_result w ≡ err e
      → IsHttpError e
  probe_error w h e p = elim (Result-cases (probe_answer w)) [
    | inl (resp, a) ↦ raise_for_status-IsHttpError resp e (rw (a) at p)
    | inr (x, a) ↦
        let q : err x ≡ err e = rw (a) at p in
        let same : x ≡ e = cc in subst IsHttpError same (h _ _ x a)
  ]

  -- If httpx raises nothing but its HTTPErrors, the boot probe does not raise, leaves the breaker
  -- as it was, and logs one of five lines, each true: no token was found, the call succeeded, it
  -- failed with status 401 or 403 or with another status, or it failed without one.
  pub boot_reports :
      (w : World)
      → ((t : Trace) (req : HttpRequest) (e : Exn) → env.http t req ≡ err e → IsHttpError e)
      → ((log : Log) × ((verify_internal_token_on_boot env w).0 ≡ ok log) × Means w log)
        × ((verify_internal_token_on_boot env w).1.breaker ≡ w.breaker)
  unfolding verify_internal_token_on_boot
  boot_reports w h =
      let w1 = (resolve_internal_service_token env w).1 in
      let (client, w2) = new env w1 in
      let called = sym (verify-result client w2) in
      if_either
        (λ (x : Result Log × World).
          ((log : Log) × (x.0 ≡ ok log) × Means w log) × (x.1.breaker ≡ w.breaker))
        (is_empty (resolve_internal_service_token env w).0) _ _
        (λ empty. ((unresolved, refl, empty), resolve-breaker w))
        (λ _. (
          report-Means w (verify_internal_token env client w2).0 called
              (λ e q. probe_error w h e (called ∙ q)),
          verify-breaker client w2 ∙ new-breaker w1 ∙ resolve-breaker w,
        ))
