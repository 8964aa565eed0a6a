-- ===== src/Worker/Agreement.antt =====
-- A batch of app/handler.py with the DynamoDB log and with the SQLite log.
use lingo_async.Prelude.{
  String, ◌≡◌, refl, sym, ap, subst, inl, inr, ◌∙◌, false, Option, none, some, List, [], ◌∷◌, All,
  ◌==◌,
}
use lingo_async.Python.Exn.{Result, ok, err, Result-cases}
use lingo_async.Python.Calendar.{isoformat}
use lingo_async.World.{Env, World}
use lingo_async.EventLog.{StatusArgs}
use lingo_async.EventLog.Sqlite
use lingo_async.EventLog.Sqlite.{Row, find, served_repo, sqlite_repo, Connects, sqlite_repo-served}
use lingo_async.EventLog.Sqlite.Lookup.{find-save, find-update_rows, found_or, updated_if}
use lingo_async.EventLog.Dynamo
use lingo_async.EventLog.Dynamo.{Dynamo, Item, dynamo_repo, pk_of, sk_of}
use lingo_async.EventLog.Dynamo.Lookup.{find_item}
use lingo_async.EventLog.Dynamo.Keys.{Named, NoHash-isoformat, after_hash-sk, key_is_new}
use lingo_async.EventLog.Dynamo.Naming.{save-Named, update_status-Named}
use lingo_async.EventLog.Agreement.{Mirrors, Serves, as_row}
use lingo_async.Worker.{
  SqsRecord, Host, State, id_of, process_record, lambda_handler, prepend, Failures,
}
use lingo_async.Worker.Batch.{seen, process_record-deliver}
use lingo_async.Worker.Writes.{Kept, process_record-Kept}
use lingo_async.Worker.Backends.{IsUnseen, backends_agree}

-- The SQLite log has no row under the id of any record, and no two records have the same id.
abbrev pub AreNew : List SqsRecord → Sqlite.Table → Type 0
AreNew [] rows = Unit
AreNew (r ∷ rs) rows =
    (find (id_of r) rows ≡ none) × All (λ o. (id_of r == id_of o) ≡ false) rs × AreNew rs rows

as_row-none : (o : Option Item) → as_row o ≡ none → o ≡ none
as_row-none none e = refl
as_row-none (some item) e = absurd cc

-- The logs show the same rows, and the sort keys of the items name their ids.
pub record Agree (items : Dynamo.Table) (rows : Sqlite.Table) : Type 0 where
  pub mirrors : Mirrors items rows
  pub named : Named items

unseen :
    (env : Env) (r : SqsRecord) (w : World) (items : Dynamo.Table) (rows : Sqlite.Table)
    → Agree items rows
    → find (id_of r) rows ≡ none
    → IsUnseen env r w items
unseen env r w items rows a new =
    let absent = as_row-none (find_item (id_of r) items) (a.mirrors.same (id_of r) ∙ new) in
    record {
      id_new = absent;
      keys_new = λ user_id.
          key_is_new (pk_of user_id) (sk_of (isoformat (env.utc_now w.trace)) (id_of r)) (id_of r)
            items a.named
            (after_hash-sk (isoformat (env.utc_now w.trace)) (id_of r)
              (NoHash-isoformat (env.utc_now w.trace)))
            absent;
    }

found_or-none : (o : Option Row) → found_or o none ≡ o
found_or-none none = refl
found_or-none (some row) = refl

updated_if-false : (u : StatusArgs) (o : Option Row) → updated_if false u o ≡ o
updated_if-false u none = refl
updated_if-false u (some row) = refl

-- Writes under one id keep what is found under another.
others-Kept :
    (id j : String) (o : Option Row)
    → (id == j) ≡ false
    → Kept served_repo id (λ rows. find j rows ≡ o)
unfolding Sqlite.update_status
others-Kept id j o other = record {
  saves = λ a t rows e _ p.
      let elsewhere : (a.id == j) ≡ false = rw (e) other in
      rw (find-save a j rows, elsewhere) (found_or-none (find j rows) ∙ p);
  updates = λ u rows e p.
      let elsewhere : (u.id == j) ≡ false = rw (e) other in
      rw (find-update_rows u j rows, elsewhere) (updated_if-false u (find j rows) ∙ p);
}

Named-Kept : (d : Dynamo) (id : String) → Kept (dynamo_repo d) id Named
Named-Kept d id = record {
  saves = λ a t items _ at p. save-Named d a items (rw (at) (NoHash-isoformat t)) p;
  updates = λ u items _ p. update_status-Named d u items p;
}

-- What is left of the records is new to the log after one of them.
AreNew-after :
    (id : String) (rs : List SqsRecord) (rows rows' : Sqlite.Table)
    → ((j : String) → (id == j) ≡ false → find j rows' ≡ find j rows)
    → All (λ o. (id == id_of o) ≡ false) rs
    → AreNew rs rows
    → AreNew rs rows'
AreNew-after id [] rows rows' same others new = tt
AreNew-after id (r ∷ rs) rows rows' same others new =
    (same (id_of r) others.0 ∙ new.0, new.1, AreNew-after id rs rows rows' same others.1 new.2)

prepend-state :
    {R : Type 0} (fs : Failures) (z : Result Failures × State R) → (prepend fs z).1 ≡ z.1
prepend-state fs (ok gs, s) = refl
prepend-state fs (err e, s) = refl

module _ (env : Env) (h : Host) (d : Dynamo) (serves : Serves d) where
  abbrev with_dynamo : SqsRecord → State Dynamo.Table → Result Failures × State Dynamo.Table
  with_dynamo = process_record env h (some (dynamo_repo d))

  abbrev with_sqlite : SqsRecord → State Sqlite.Table → Result Failures × State Sqlite.Table
  with_sqlite = process_record env h (some served_repo)

  record_agrees :
      (r : SqsRecord) (x : State Dynamo.Table) (y : State Sqlite.Table)
      → x.world ≡ y.world
      → Agree x.log y.log
      → find (id_of r) y.log ≡ none
      → Agree (with_dynamo r x).1.log (with_sqlite r y).1.log
  record_agrees r x y e a new = record {
    mirrors =
        subst
          (λ w.
            Mirrors (with_dynamo r x).1.log
              (with_sqlite r (record { world = w; log = y.log })).1.log)
          e
          (backends_agree env h d serves r x.world x.log y.log a.mirrors
            (unseen env r x.world x.log y.log a new));
    named = process_record-Kept env h (dynamo_repo d) Named r x (Named-Kept d (id_of r)) a.named;
  }

  same_seen :
      (r : SqsRecord) (x : State Dynamo.Table) (y : State Sqlite.Table)
      → x.world ≡ y.world
      → seen env h (some (dynamo_repo d)) (with_dynamo r x)
        ≡ seen env h (some served_repo) (with_sqlite r y)
  same_seen r x y e =
      process_record-deliver env h (some (dynamo_repo d)) r x
      ∙ rw (e) (sym (process_record-deliver env h (some served_repo) r y))

  rest_is_new :
      (r : SqsRecord) (rs : List SqsRecord) (y : State Sqlite.Table)
      → AreNew (r ∷ rs) y.log
      → AreNew rs (with_sqlite r y).1.log
  rest_is_new r rs y new =
      AreNew-after (id_of r) rs y.log (with_sqlite r y).1.log
        (λ j other.
          process_record-Kept env h served_repo (λ rows. find j rows ≡ find j y.log) r y
            (others-Kept (id_of r) j (find j y.log) other) refl)
        new.1 new.2

  served_agrees :
      (rs : List SqsRecord) (x : State Dynamo.Table) (y : State Sqlite.Table)
      → x.world ≡ y.world
      → Agree x.log y.log
      → AreNew rs y.log
      → Agree
          (lambda_handler env h (some (dynamo_repo d)) rs x).1.log
          (lambda_handler env h (some served_repo) rs y).1.log
  unfolding lambda_handler
  served_agrees [] x y e a new = a
  served_agrees (r ∷ rs) x y e a new =
      let same = same_seen r x y e in
      let agree = record_agrees r x y e a new.0 in
      elim (Result-cases (with_dynamo r x).0) [
        | inl (fs, known) ↦
            let other : (with_sqlite r y).0 ≡ ok fs = sym (ap (λ o. o.0) same) ∙ known in
            rw
              (
                lambda_handler,
                known,
                other,
                prepend-state fs
                    (lambda_handler env h (some (dynamo_repo d)) rs (with_dynamo r x).1),
                prepend-state fs (lambda_handler env h (some served_repo) rs (with_sqlite r y).1),
              )
              (served_agrees rs (with_dynamo r x).1 (with_sqlite r y).1 (ap (λ o. o.1) same) agree
                (rest_is_new r rs y new))
        | inr (err_x, known) ↦
            let other : (with_sqlite r y).0 ≡ err err_x = sym (ap (λ o. o.0) same) ∙ known in
            rw (lambda_handler, known, other) agree
      ]

  -- If the DynamoDB log and the SQLite log show the same rows, the sort keys of the items name
  -- their ids as the worker writes them, SQLite serves every connection, DynamoDB serves every call
  -- with an index that is up to date, and the records of a batch have ids that differ from each
  -- other and from those in the logs, then `lambda_handler` leaves the two logs showing the same
  -- rows, with the sort keys still naming their ids.
  pub batch_agrees :
      (connect : Sqlite.Table → Result (Unit {0})) (rs : List SqsRecord) (x : State Dynamo.Table)
      (y : State Sqlite.Table)
      → Connects connect
      → x.world ≡ y.world
      → Agree x.log y.log
      → AreNew rs y.log
      → Agree
          (lambda_handler env h (some (dynamo_repo d)) rs x).1.log
          (lambda_handler env h (some (sqlite_repo connect)) rs y).1.log
  batch_agrees connect rs x y c e a new =
      subst
        (λ repo.
          Agree (lambda_handler env h (some (dynamo_repo d)) rs x).1.log
            (lambda_handler env h (some repo) rs y).1.log)
        (sqlite_repo-served connect c) (served_agrees rs x y e a new)
