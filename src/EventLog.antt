-- ===== src/EventLog.antt =====
-- app/db/protocols/events.py: the write side of the event log, as an interface over the state `R`
-- of a store. A method may raise; what it wrote before that stays written.
pub mod Sqlite
pub mod Dynamo
pub mod Provider
pub mod Agreement
use lingo_async.Prelude.{String, Option}
use lingo_async.Prelude.Int.{ℤ}
use lingo_async.Python.Exn.{Result}

pub record SaveArgs : Type 0 where
  pub id : String
  pub user_id : String
  pub event_type : String
  pub payload_json : String
  pub received_at : String
  pub ttl_epoch : ℤ

pub record StatusArgs : Type 0 where
  pub id : String
  pub status : String
  pub error_msg : Option String
  pub outcomes_json : String

pub record Repo (R : Type 0) : Type 0 where
  pub save : SaveArgs → R → Result (Unit {0}) × R
  pub update_status : StatusArgs → R → Result (Unit {0}) × R
