-- ===== src/Tests/Handling.antt =====
-- The theorems on the handlers and on the quest evaluator at concrete inputs.
use lingo_async.Prelude.{◌+◌, ◌≤◌, String, ◌≡◌, refl, true, none, some, List, [], ◌∷◌, arith}
use lingo_async.Prelude.Int.{pos}
use lingo_async.Python.Exn.{Result, ok, err, http_status}
use lingo_async.Python.Json.{
  Json, null, int, str, arr, dict, nil, cons, end, field, get, lookup, or_else, is_truthy, iterate,
  to_int, is_text,
}
use lingo_async.Breaker.{allow, record_success}
use lingo_async.World.{Env, user, progress, xp, Response}
use lingo_async.World.Keeps.{counted}
use lingo_async.Token.{resolve_internal_service_token}
use lingo_async.Client.{new, send, try_call, attempts, request, list_quests, bump_progress, add_xp}
use lingo_async.Contracts.Messages.{
  EventMessage, XpAwarded, XpAwarded, lesson, manual, xp_awarded, friend_added,
}
use lingo_async.Quests.{
  QuestAction, event_unit_and_delta, quests_of, bump, advance_quest, advance_quests, run_quests,
  evaluate_quests_for,
}
use lingo_async.Quests.Latch.{evaluations, unmounted_once}
use lingo_async.Quests.Progress.{AreBumpsOf, AreSent, evaluate-AreBumpsOf}
use lingo_async.Handlers.{
  Outcome, user_xp, credit, credit_if_needed, leaderboard_step, handle_xp_awarded, dispatch,
}
use lingo_async.Handlers.Credit.{credits, no_credit_unless_due, delivery_credits}
use lingo_async.Handlers.Fanout.{is_fanout, failed_credit_stops, credited_again}
use lingo_async.Tests.Fixtures.{
  closed-open, env_with, settings, response, up, down, forbidding, fresh,
}

-- A core with its own answers to the list, to a bump and to a credit.
abbrev core : Result Response → Result Response → Result Response → Env
core listed bumped credited = record (env_with settings listed) {
  http =
      λ _ req. elim req.payload [ user _ ↦ listed | progress _ _ ↦ bumped | xp _ _ _ _ ↦ credited ];
}

abbrev quest : String → String → Json
quest status unit = dict (
    field "id" (str "q1") (
      field "status" (str status) (
        field "progress" (dict (field "current" (int (pos 1)) (field "unit" (str unit) end))) end)))

-- Of the two listed quests the first is active and counts friends.
abbrev two_quests : List Json
two_quests = quest "active" "friends" ∷ quest "done" "friends" ∷ []

abbrev listing_two : Json
listing_two =
    dict (
      field "items" (arr (cons (quest "active" "friends") (cons (quest "done" "friends") nil))) end)

abbrev questing : Env
questing =
    core (response 200 listing_two) (response 200 (quest "active" "friends"))
      (response 200 (dict end))

abbrev unmounted : Env
unmounted = core (response 404 null) (response 404 null) (response 200 (dict end))

abbrev no_quests : Env
no_quests = core (response 403 null) (response 403 null) (response 200 (dict end))

abbrev friend : EventMessage
friend = friend_added (record { user_id = "u1"; friend_id = "u2" })

abbrev award : XpAwarded
award = record {
  user_id = "u1";
  amount = pos 10;
  source = manual;
  learning_language_id = some "de";
  leaderboard_opt_in = true;
}

no_credit_unless_due_example :
    credits (dispatch up (xp_awarded (record award { source = lesson })) fresh).1 ≡ 0
no_credit_unless_due_example =
    no_credit_unless_due up (xp_awarded (record award { source = lesson })) fresh refl

delivery_credits_example :
    (1 + 0 ≤ credits (handle_xp_awarded down award fresh).1)
    × (credits (handle_xp_awarded down award fresh).1 ≤ 3 + 0)
delivery_credits_example = delivery_credits down award fresh refl closed-open

rejected_credit : (credit forbidding award fresh).0 ≡ err (http_status 403)
unfolding credit add_xp new resolve_internal_service_token request attempts try_call send allow
rejected_credit = refl

failed_credit_stops_example :
    ((handle_xp_awarded forbidding award fresh).0 ≡ err (http_status 403))
    × (counted is_fanout (handle_xp_awarded forbidding award fresh).1 ≡ 0)
failed_credit_stops_example =
    failed_credit_stops forbidding award fresh (http_status 403) refl rejected_credit

-- The credit of `award` where lingo-core takes it and refuses the list of quests.
abbrev credited : List Outcome
credited = record { handler = "user_xp"; actions = user_xp "u1" (pos 10) none manual ∷ [] } ∷ []

credited_again_example :
    ((handle_xp_awarded no_quests award fresh).0 ≡ err (http_status 403))
    × (2 + 0
        ≤ credits (handle_xp_awarded no_quests award (handle_xp_awarded no_quests award fresh).1).1)
unfolding credit_if_needed credit add_xp new resolve_internal_service_token request attempts
    try_call send allow handle_xp_awarded leaderboard_step evaluate_quests_for run_quests
    list_quests event_unit_and_delta record_success get lookup
credited_again_example =
    credited_again no_quests award fresh (handle_xp_awarded no_quests award fresh).1 credited
      (http_status 403) refl closed-open refl refl closed-open (omega arith)

unmounted_once_example :
    let (r, w) = evaluate_quests_for unmounted "u1" friend fresh in
    (r ≡ ok []) × (evaluations unmounted (("u2", friend) ∷ []) w ≡ w)
unfolding event_unit_and_delta list_quests new resolve_internal_service_token request attempts
    try_call send allow
unmounted_once_example =
    unmounted_once unmounted "u1" friend "friends" (pos 1) fresh (("u2", friend) ∷ []) refl refl
      refl refl

abbrev advanced : QuestAction
advanced = record {
  quest_id = str "q1";
  unit = "friends";
  delta = pos 1;
  progress_before = pos 1;
  progress_after = pos 1;
  status_before = str "active";
  status_after = str "active";
}

evaluate-AreBumpsOf_example :
    AreBumpsOf "friends" (pos 1) two_quests (advanced ∷ [])
    × AreSent questing "u1" "friends"
        (pos 1)
        fresh
        (evaluate_quests_for questing "u1" friend fresh).1
        (advanced ∷ [])
unfolding event_unit_and_delta list_quests new resolve_internal_service_token request attempts
    try_call send allow evaluate_quests_for run_quests quests_of advance_quests advance_quest bump
    bump_progress get lookup or_else is_truthy iterate to_int is_text
evaluate-AreBumpsOf_example =
    evaluate-AreBumpsOf questing "u1" friend "friends" (pos 1) fresh listing_two two_quests
      (advanced ∷ []) refl refl refl refl refl refl
