-- ===== src/Lib.antt =====
-- lingo-async: the SQS-driven worker of Open Lingo.
--
-- The program is a Lambda function. `lambda_handler` (app/handler.py) takes a batch of SQS records,
-- parses each body (app/contracts/messages.py), writes an event log (app/db), dispatches the
-- message to its handler (app/handlers), which calls lingo-core over HTTP (app/http), writes the
-- leaderboard (app/leaderboard) and advances quests (app/quests), and reports the failed messages
-- back to SQS.
--
-- Which file models what:
--   Prelude, Python     shared names and lemmas; what the source uses of Python itself: exceptions,
--                       `str` methods, JSON values, `datetime`.
--   Settings            app/config.py.
--   World               everything outside as a parameter, `Env`, and the worker's own state,
--                       `World`: the breaker, the quest latch, the cached token and the trace of
--                       effects, newest first. Each answer of the outside is an arbitrary function
--                       of the trace so far. A method that may raise is an action `M`, which keeps
--                       what was changed before the raise.
--   Breaker, Token, Client
--                       app/http/circuit_breaker.py, internal_token.py and lingo_core_client.py:
--                       `allow`, `record_success`, `record_failure`; `resolve_internal_service_token`;
--                       `request` is `_request`, `attempts` its loop, `try_call` the `try` body and
--                       `after_failure` the rest of a failed round.
--   Contracts           app/contracts/messages.py: the classes (Messages), their validation
--                       (Literals, Validate), kombu's envelope (Envelope) and `parse_event` (Parse).
--                       Wire says what a producer's object of a message holds.
--   Leaderboard, Quests, Handlers
--                       app/leaderboard/updater.py, app/quests/evaluator.py, app/handlers/*.py, and
--                       `_dispatch` of app/handler.py.
--   EventLog            app/db: the write interface, its SQLite and DynamoDB implementations, and
--                       `get_events_repo` (Provider) over the state of both.
--   Worker              `lambda_handler` and its helpers in app/handler.py: `lambda_handler` is the
--                       loop with a store given, and `invoke` (Worker/Entry) constructs the store.
--   Boot                `_verify_internal_token_on_boot` of app/handler.py; its outcome is its log line.
--   Container           the life of a Lambda container: the module-level state after the imports,
--                       the boot probe, and one batch after another.
--   Queue               the life of a message between SQS and `invoke`: the records that are pending,
--                       deleted or dead, as a step relation in which SQS may deliver any batch at
--                       any time.
--   LocalConsumer       `LocalConsumer.handle` of app/local_consumer.py, and (LocalConsumer/Main) `main`
--                       of app/run_local.py around the consumer's run.
--   Replay              `replay` of scripts/dlq-replay.py: `rounds` is its outer loop, `take_messages`
--                       the inner one; `main` (Replay/Main) is the whole of `main` on a parsed command
--                       line, and `passes` what it does without the printing.
--   Tests               concrete environments and messages, and the theorems applied to them.
--
-- Bounds. The loop of `_request` recurs on the rounds left, which are `max_attempts`, so it needs no
-- fuel. The outer loop of the DLQ replay recurs on fuel, since it may not end. All other loops recur
-- on lists. Python's integers are unbounded, as the model's are.
-- Durations are whole milliseconds, and the clock's fractions below that are not modelled. Clocks
-- are taken to stand after 1970.
--
-- Parameters: httpx, boto3, DynamoDB, SQS, kombu's run of a consumer, the file system, pydantic's
-- conversions of single values and its JSON parser, `json`, `base64` and `bytes.decode`, Python's
-- `str` and `repr` of values, and `json.dumps` of the outcomes. Logging has no effect on the
-- program and is left out elsewhere.
--
-- Not modelled: argparse and the end of the operator's input in scripts/dlq-replay.py, the
-- configuration of the consumer's queue and its connection to the broker, boto3's construction of
-- clients, and SQLite's journal mode and indexes. `int()` of a text reads ASCII digits only, and
-- `lower()` is compared with ASCII names only.
pub mod Prelude
pub mod Python
pub mod Settings
pub mod Breaker
pub mod World
pub mod Token
pub mod Client
pub mod Contracts
pub mod Leaderboard
pub mod Quests
pub mod Handlers
pub mod EventLog
pub mod Worker
pub mod Boot
pub mod Container
pub mod LocalConsumer
pub mod Replay
pub mod Tests
pub mod Queue
