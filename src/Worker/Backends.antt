-- ===== src/Worker/Backends.antt =====
-- One record of app/handler.py with the DynamoDB log and with the SQLite log.
use lingo_async.Prelude.{String, ◌≡◌, refl, false, Option, none, some, List, []}
use lingo_async.Python.Exn.{Result, ok, err}
use lingo_async.Python.Calendar.{isoformat}
use lingo_async.World.{Env, World}
use lingo_async.Contracts.Messages.{type_of, user_of}
use lingo_async.Contracts.Parse.{parsed, invalid, raised}
use lingo_async.Handlers.{Outcome, dispatch}
use lingo_async.EventLog.{SaveArgs}
use lingo_async.EventLog.Sqlite
use lingo_async.EventLog.Sqlite.{served_repo}
use lingo_async.EventLog.Dynamo
use lingo_async.EventLog.Dynamo.{Dynamo, dynamo_repo, pk_of, sk_of}
use lingo_async.EventLog.Dynamo.Lookup.{find_item, holds}
use lingo_async.EventLog.Agreement.{Mirrors, Serves, IsNew, save-Mirrors, delivery-Mirrors}
use lingo_async.Worker.{
  SqsRecord, Host, id_of, body_of, save_args, safe_save, safe_update_status, update_with, read_time,
  settle, reject, process_event, process_parsed, process_record,
}
use lingo_async.Worker.Batch.{parse_record}

-- The record's id and its keys at this reading of the clock, of whatever user, are in no item.
pub record IsUnseen (env : Env) (r : SqsRecord) (w : World) (items : Dynamo.Table) : Type 0 where
  pub id_new : find_item (id_of r) items ≡ none
  pub keys_new :
      (user_id : String)
      → holds (pk_of user_id) (sk_of (isoformat (env.utc_now w.trace)) (id_of r)) items ≡ false

module _ (env : Env) (h : Host) (d : Dynamo) (serves : Serves d) where
  updated-Mirrors :
      (a : SaveArgs) (status : String) (error_msg : Option String) (json : Result String)
      (items : Dynamo.Table) (rows : Sqlite.Table)
      → Mirrors items rows
      → IsNew a items
      → Mirrors
          (update_with (dynamo_repo d) a.id status error_msg json (Dynamo.save d a items).1)
          (update_with served_repo a.id status error_msg json (Sqlite.save a rows).1)
  updated-Mirrors a status error_msg (ok json) items rows m new =
      delivery-Mirrors d serves a
        (record { id = a.id; status = status; error_msg = error_msg; outcomes_json = json }) items
        rows refl m new
  updated-Mirrors a status error_msg (err e) items rows m new =
      save-Mirrors d serves a items rows m new

  settled-Mirrors :
      (a : SaveArgs) (r : Result (List Outcome)) (items : Dynamo.Table) (rows : Sqlite.Table)
      → Mirrors items rows
      → IsNew a items
      → Mirrors
          (settle env h (some (dynamo_repo d)) a.id r (safe_save (some (dynamo_repo d)) a items))
          (settle env h (some served_repo) a.id r (safe_save (some served_repo) a rows))
  unfolding settle safe_save safe_update_status
  settled-Mirrors a (ok outcomes) items rows m new =
      updated-Mirrors a "ok" none (h.dumps outcomes) items rows m new
  settled-Mirrors a (err e) items rows m new =
      updated-Mirrors a "failed" (some (h.repr e)) (h.dumps []) items rows m new

  -- If the DynamoDB log and the SQLite log show the same row under each id, DynamoDB serves every
  -- call and its index is up to date, and a record's id and keys are new, then the two logs show
  -- the same rows after the record too, whether it parses, is invalid, raises, or its outcomes do
  -- not encode.
  pub backends_agree :
      (r : SqsRecord) (w : World) (items : Dynamo.Table) (rows : Sqlite.Table)
      → Mirrors items rows
      → IsUnseen env r w items
      → Mirrors
          (process_record env h (some (dynamo_repo d)) r (record { world = w; log = items })).1.log
          (process_record env h (some served_repo) r (record { world = w; log = rows })).1.log
  unfolding process_record process_event reject safe_save safe_update_status
  backends_agree r w items rows m new =
      let (t1, w1) = read_time env w in
      let (t2, w2) = read_time env w1 in
      let args =
        λ (user_id event_type : String). save_args (id_of r) user_id event_type (body_of r) t1 t2 in
      let is_new : (user_id event_type : String) → IsNew (args user_id event_type) items =
        λ user_id event_type. record { id_new = new.id_new; key_new = new.keys_new user_id } in
      elim (parse_record h r)
        as (λ p.
          Mirrors
            (process_parsed env h (some (dynamo_repo d)) (id_of r) (body_of r) t1 t2 p
              (record { world = w2; log = items })).1.log
            (process_parsed env h (some served_repo) (id_of r) (body_of r) t1 t2 p
              (record { world = w2; log = rows })).1.log) [
                | parsed e ↦
                    settled-Mirrors (args (user_of e) (type_of e)) (dispatch env e w2).0 items rows
                      m (is_new (user_of e) (type_of e))
                | invalid ↦
                    updated-Mirrors (args "<unparsed>" "<unparsed>") "failed"
                      (some (h.errors_of (body_of r))) (h.dumps []) items rows m
                      (is_new "<unparsed>" "<unparsed>")
                | raised x ↦ m
              ]
