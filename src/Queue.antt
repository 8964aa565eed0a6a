-- ===== src/Queue.antt =====
-- The queue in front of `lambda_handler` of app/handler.py, as its docstring and AWS describe it:
-- a batch leaves SQS but for the records in `batchItemFailures`, and an invocation that raises
-- leaves all of it. Which records make up a batch, in what order and how often a record comes, in
-- which container it runs and what the log holds by then is up to the outside.
pub mod Handled
pub mod Accounts
pub mod Poison
pub mod Drain
use lingo_async.Prelude.{
  String, Bool, true, false, ◌||◌, ◌==◌, ◌≡◌, Option, some, List, [], ◌∷◌, ◌++◌, map, if◌then◌else◌,
}
use lingo_async.Prelude.Permutations.{Perm}
use lingo_async.Python.Exn.{Result, ok, err}
use lingo_async.World.{Env}
use lingo_async.EventLog.Provider.{Logs, Drivers}
use lingo_async.Worker.{SqsRecord, Host, State, Failures, id_of}
use lingo_async.Worker.Entry.{invoke}

-- A record that an invocation has made SQS delete, with the batch and the state of that invocation.
pub record Deletion : Type 0 where
  pub gone : SqsRecord
  pub batch : List SqsRecord
  pub state : State Logs

-- All that was ever sent to the queue, and where each of it is: SQS may deliver it, its delivery
-- has been deleted, or it is in the dead-letter queue.
pub record Queue : Type 0 where
  pub published : List SqsRecord
  pub pending : List SqsRecord
  pub completed : List Deletion
  pub dead : List SqsRecord

abbrev pub empty : Queue
empty = record { published = []; pending = []; completed = []; dead = [] }

abbrev pub is_among : String → List String → Bool
is_among id [] = false
is_among id (x ∷ xs) = (id == x) || is_among id xs

-- The records of a batch that the answer reports.
unfoldable pub kept : List String → List SqsRecord → List SqsRecord
kept ids [] = []
kept ids (r ∷ rs) = let rest = kept ids rs in if is_among (id_of r) ids then r ∷ rest else rest

-- The records of a batch that the answer does not report.
unfoldable pub deleted : List String → List SqsRecord → List SqsRecord
deleted ids [] = []
deleted ids (r ∷ rs) =
    let rest = deleted ids rs in if is_among (id_of r) ids then rest else r ∷ rest

abbrev pub deletions : List String → List SqsRecord → State Logs → List Deletion
deletions ids rs s = map (λ r. record { gone = r; batch = rs; state = s }) (deleted ids rs)

-- What an invocation with a batch, in this state, leaves of the queue.
abbrev pub answered : Result Failures → List SqsRecord → State Logs → List SqsRecord → Queue → Queue
answered (ok ids) rs s rest q = record q {
  pending = kept ids rs ++ rest;
  completed = deletions ids rs s ++ q.completed;
}
answered (err e) rs s rest q = record q { pending = rs ++ rest }

pub data Step (env : Env) (h : Host) (d : Drivers) (q : Queue) : Queue → Type 0 where
  publish :
      (r : SqsRecord)
      → Step env h d q (record q { published = r ∷ q.published; pending = r ∷ q.pending })
  hand_over :
      (rs rest : List SqsRecord) (s : State Logs)
      → Perm q.pending (rs ++ rest)
      → Step env h d q (answered (invoke env h d (some rs) s).0 rs s rest q)
  give_up :
      (r : SqsRecord) (rest : List SqsRecord)
      → Perm q.pending (r ∷ rest)
      → Step env h d q (record q { pending = rest; dead = r ∷ q.dead })

pub data Reachable (env : Env) (h : Host) (d : Drivers) : Queue → Type 0 where
  start : Reachable env h d empty
  later : {q p : Queue} → Reachable env h d q → Step env h d q p → Reachable env h d p
