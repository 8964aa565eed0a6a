-- ===== src/Token.antt =====
-- app/http/internal_token.py: the bearer token for the callbacks to lingo-core.
pub mod Precedence
use lingo_async.Prelude.{String, Option, none, some, if◌then◌else◌}
use lingo_async.Python.Exn.{Result, ok, err}
use lingo_async.Python.Text.{is_empty}
use lingo_async.World.{Env, World, read_ssm, emit}

abbrev pub ssm_parameter_name : String
ssm_parameter_name = "/lingo/internal-service-token"

-- resp.get("Parameter", {}).get("Value", ""), and "" after any exception
abbrev pub ssm_value : Result (Option (Option String)) → String
ssm_value (ok (some (some value))) = value
ssm_value (ok (some none)) = ""
ssm_value (ok none) = ""
ssm_value (err e) = ""

unfoldable pub fetch_from_ssm : Env → World → String × World
fetch_from_ssm env w =
    (ssm_value (env.get_parameter w.trace ssm_parameter_name), emit (read_ssm ssm_parameter_name) w)

abbrev from_cache : Env → Option String → World → String × World
from_cache env (some token) w = (token, w)
from_cache env none w =
    let (token, w') = fetch_from_ssm env w in (token, record w' { cached_token = some token })

unfoldable pub resolve_internal_service_token : Env → World → String × World
unfolding fetch_from_ssm
resolve_internal_service_token env w =
    if is_empty env.settings.internal_service_token
    then from_cache env w.cached_token w
    else (env.settings.internal_service_token, w)

unfoldable pub reset_cache : World → World
reset_cache w = record w { cached_token = none }
