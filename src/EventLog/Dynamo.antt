-- ===== src/EventLog/Dynamo.antt =====
-- app/db/dynamo/events.py. DynamoDB is a parameter: which calls fail, and which item a query of
-- the id index returns. What a call writes is the source's.
pub mod Lookup
pub mod Keys
pub mod Naming
use lingo_async.Prelude.{
  String, ◌<>◌, Bool, ◌&&◌, Option, none, some, List, [], ◌∷◌, ◌==◌, if◌then◌else◌,
}
use lingo_async.Prelude.Int.{ℤ}
use lingo_async.Python.Exn.{Result, ok, err}
use lingo_async.Settings.{Settings}
use lingo_async.EventLog.{SaveArgs, StatusArgs, Repo}

-- `error_msg` is none while the attribute is absent.
pub record Item : Type 0 where
  pub pk : String
  pub sk : String
  pub id : String
  pub user_id : String
  pub event_type : String
  pub payload_json : String
  pub received_at : String
  pub status : String
  pub error_msg : Option (Option String)
  pub outcomes_json : String
  pub ttl_epoch : ℤ

abbrev pub Table : Type 0
Table = List Item

-- Of each call: whether it raises, and what `query` with `Limit=1` returns.
pub record Dynamo : Type 0 where
  pub put_item : Item → Table → Result (Unit {0})
  pub query : String → Table → Result (Option Item)
  pub update_item : String → String → Table → Result (Unit {0})

abbrev pub events_table_name : Settings → String
events_table_name s = s.dynamodb_table_prefix <> "events_log"

-- `_pk`
abbrev pub pk_of : String → String
pk_of user_id = "USER#" <> user_id

-- `_sk`
abbrev pub sk_of : String → String → String
sk_of received_at id = "EVENT#" <> (received_at <> ("#" <> id))

abbrev pub new_item : SaveArgs → Item
new_item a = record {
  pk = pk_of a.user_id;
  sk = sk_of a.received_at a.id;
  id = a.id;
  user_id = a.user_id;
  event_type = a.event_type;
  payload_json = a.payload_json;
  received_at = a.received_at;
  status = "received";
  error_msg = none;
  outcomes_json = "[]";
  ttl_epoch = a.ttl_epoch;
}

abbrev pub has_key : String → String → Item → Bool
has_key pk sk item = item.pk == pk && item.sk == sk

-- A put replaces the item that has the same key.
unfoldable pub put : Item → Table → Table
put item [] = item ∷ []
put item (other ∷ items) =
    if has_key item.pk item.sk other then item ∷ items else other ∷ put item items

unfoldable pub save : Dynamo → SaveArgs → Table → Result (Unit {0}) × Table
unfolding put
save d a items = elim (d.put_item (new_item a) items) [
  | ok _ ↦ (ok tt, put (new_item a) items)
  | err e ↦ (err e, items)
]

abbrev pub with_status : StatusArgs → Item → Item
with_status a item = record item {
  status = a.status;
  outcomes_json = a.outcomes_json;
  error_msg = some a.error_msg;
}

unfoldable pub update_at : StatusArgs → String → String → Table → Table
update_at a pk sk [] = []
update_at a pk sk (item ∷ items) =
    if has_key pk sk item then with_status a item ∷ items else item ∷ update_at a pk sk items

abbrev pub update_base : Dynamo → StatusArgs → Table → Option Item → Result (Unit {0}) × Table
update_base d a items none = (ok tt, items)
update_base d a items (some base) = elim (d.update_item base.pk base.sk items) [
  | ok _ ↦ (ok tt, update_at a base.pk base.sk items)
  | err e ↦ (err e, items)
]

-- The base item is looked up by the id index; without one nothing is written.
unfoldable pub update_status : Dynamo → StatusArgs → Table → Result (Unit {0}) × Table
unfolding update_at
update_status d a items = elim (d.query a.id items) [
  | ok base ↦ update_base d a items base
  | err e ↦ (err e, items)
]

abbrev pub dynamo_repo : Dynamo → Repo Table
dynamo_repo d = record { save = save d; update_status = update_status d }
