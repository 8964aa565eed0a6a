-- ===== src/Worker/Writes.antt =====
-- What a record of app/handler.py can write to the event log: a row under its own id, received at a
-- reading of the clock, and the status of that id.
use lingo_async.Prelude.{String, ◌≡◌, refl, Option, some, none, List}
use lingo_async.Python.Exn.{Result, ok, err}
use lingo_async.Python.Calendar.{isoformat}
use lingo_async.World.{Env, DateTime}
use lingo_async.Contracts.Parse.{Parsed, parsed, invalid, raised}
use lingo_async.Handlers.{Outcome, dispatch}
use lingo_async.EventLog.{SaveArgs, StatusArgs, Repo}
use lingo_async.Worker.{
  SqsRecord, Host, State, id_of, body_of, read_time, safe_save, update_with, safe_update_status,
  settle, reject, process_event, process_parsed, process_record,
}
use lingo_async.Worker.Batch.{parse_record}

-- A property of the log that the writes under an id keep.
pub record Kept {R : Type 0} (repo : Repo R) (id : String) (P : R → Type 0) : Type 0 where
  pub saves :
      (a : SaveArgs) (t : DateTime) (log : R)
      → a.id ≡ id
      → a.received_at ≡ isoformat t
      → P log
      → P (repo.save a log).1
  pub updates : (u : StatusArgs) (log : R) → u.id ≡ id → P log → P (repo.update_status u log).1

module _ {R : Type 0} (env : Env) (h : Host) (repo : Repo R) (P : R → Type 0) where
  update_with-Kept :
      (id status : String) (error_msg : Option String) (json : Result String) (log : R)
      → Kept repo id P
      → P log
      → P (update_with repo id status error_msg json log)
  update_with-Kept id status error_msg (ok json) log k p = k.updates _ log refl p
  update_with-Kept id status error_msg (err e) log k p = p

  settle-Kept :
      (id : String) (r : Result (List Outcome)) (log : R)
      → Kept repo id P
      → P log
      → P (settle env h (some repo) id r log)
  unfolding settle safe_update_status
  settle-Kept id (ok outcomes) log k p = update_with-Kept id "ok" none (h.dumps outcomes) log k p
  settle-Kept id (err e) log k p = update_with-Kept id "failed" (some (h.repr e)) _ log k p

  process_parsed-Kept :
      (id payload : String) (t1 t2 : DateTime) (p : Parsed) (s : State R)
      → Kept repo id P
      → P s.log
      → P (process_parsed env h (some repo) id payload t1 t2 p s).1.log
  unfolding process_event reject safe_save safe_update_status
  process_parsed-Kept id payload t1 t2 (parsed m) s k p =
      settle-Kept id (dispatch env m s.world).0 _ k (k.saves _ t1 s.log refl refl p)
  process_parsed-Kept id payload t1 t2 invalid s k p =
      update_with-Kept id "failed" (some (h.errors_of payload)) _ _ k
        (k.saves _ t1 s.log refl refl p)
  process_parsed-Kept id payload t1 t2 (raised e) s k p = p

  -- A record keeps what the writes under its id keep.
  pub process_record-Kept :
      (r : SqsRecord) (s : State R)
      → Kept repo (id_of r) P
      → P s.log
      → P (process_record env h (some repo) r s).1.log
  unfolding process_record
  process_record-Kept r s k p =
      let (t1, w1) = read_time env s.world in
      let (t2, w2) = read_time env w1 in
      process_parsed-Kept (id_of r) (body_of r) t1 t2 (parse_record h r) (record s { world = w2 }) k
        p
