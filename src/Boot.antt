-- ===== src/Boot.antt =====
-- `_verify_internal_token_on_boot` of app/handler.py. Its outcome is the line that it logs.
pub mod Report
use lingo_async.Prelude.{ℕ, String, ◌||◌, eqb, if◌then◌else◌}
use lingo_async.Python.Exn.{Exn, Result, ok, err, http_status, transport, http_other}
use lingo_async.Python.Text.{is_empty}
use lingo_async.World.{Env, M}
use lingo_async.Token.{resolve_internal_service_token}
use lingo_async.Client.{new, verify_internal_token}

pub data Log : Type 0 where
  unresolved verified unreachable : Log
  mismatch unexpected_status : ℕ → Log

-- The `except` clauses; any other exception is raised on.
abbrev pub report : Result (Unit {0}) → Result Log
report (ok _) = ok verified
report (err (http_status code)) =
    if eqb code 401 || eqb code 403 then ok (mismatch code) else ok (unexpected_status code)
report (err (transport _)) = ok unreachable
report (err (http_other _)) = ok unreachable
report (err e) = err e

unfoldable pub verify_internal_token_on_boot : Env → M Log
verify_internal_token_on_boot env w =
    let (token, w1) = resolve_internal_service_token env w in
    if is_empty token
    then (ok unresolved, w1)
    else let (client, w2) = new env w1 in
      let (r, w3) = verify_internal_token env client w2 in (report r, w3)
