-- ===== src/EventLog/Dynamo/Naming.antt =====
-- The two writes of app/db/dynamo/events.py keep the sort keys named.
use lingo_async.Prelude.{Option, none, some, inl, inr}
use lingo_async.Python.Exn.{Result-cases}
use lingo_async.EventLog.{SaveArgs, StatusArgs}
use lingo_async.EventLog.Dynamo
use lingo_async.EventLog.Dynamo.{Dynamo, Item, new_item, update_base}
use lingo_async.EventLog.Dynamo.Keys.{
  NoHash, Named, Named-put, Named-update_at, new_item-NamesItsId,
}

pub save-Named :
    (d : Dynamo) (a : SaveArgs) (items : Dynamo.Table)
    → NoHash a.received_at
    → Named items
    → Named (Dynamo.save d a items).1
unfolding Dynamo.save
save-Named d a items plain p = elim (Result-cases (d.put_item (new_item a) items)) [
  | inl (_, e) ↦ rw (e, Dynamo.save) (Named-put (new_item a) items (new_item-NamesItsId a plain) p)
  | inr (_, e) ↦ rw (e, Dynamo.save) p
]

update_base-Named :
    (d : Dynamo) (u : StatusArgs) (items : Dynamo.Table) (base : Option Item)
    → Named items
    → Named (update_base d u items base).1
update_base-Named d u items none p = p
update_base-Named d u items (some base) p =
    elim (Result-cases (d.update_item base.pk base.sk items)) [
      | inl (_, e) ↦ rw (e, update_base) (Named-update_at u base.pk base.sk items p)
      | inr (_, e) ↦ rw (e, update_base) p
    ]

pub update_status-Named :
    (d : Dynamo) (u : StatusArgs) (items : Dynamo.Table)
    → Named items
    → Named (Dynamo.update_status d u items).1
unfolding Dynamo.update_status
update_status-Named d u items p = elim (Result-cases (d.query u.id items)) [
  | inl (base, e) ↦ rw (e, Dynamo.update_status) (update_base-Named d u items base p)
  | inr (_, e) ↦ rw (e, Dynamo.update_status) p
]
