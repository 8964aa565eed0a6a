-- ===== src/Queue/Handled.antt =====
-- Why a record has left the queue: its message's handler has returned.
use lingo_async.Prelude.{
  String, ◌≡◌, refl, true, false, Bool-cases, map, Option, some, List, [], ◌∷◌, ◌++◌, append_assoc,
  All, All-imp, inl, inr, if_either, arith, eq_refl, ap, sym, ◌∙◌,
}
use lingo_async.Python.Exn.{Result, ok, err, Result-cases, ok-injective, err-ok}
use lingo_async.World.{Env, World}
use lingo_async.Contracts.Messages.{EventMessage}
use lingo_async.Contracts.Parse.{Parsed, parsed, invalid, raised}
use lingo_async.Handlers.{Outcome, dispatch}
use lingo_async.EventLog.{Repo}
use lingo_async.EventLog.Provider.{Logs, Drivers, get_events_repo}
use lingo_async.Worker.{SqsRecord, Host, State, Failures, id_of}
use lingo_async.Worker.Batch.{
  done, failed, crashed, clocked, parse_record, deliver, deliver_parsed, batch, add_failure,
}
use lingo_async.Worker.Entry.{invoke, batch_unless, invoke-batch}
use lingo_async.Queue.{Deletion, is_among, deleted, deletions}

-- The record stands in this batch, it is a valid message, and its handler returned in the world of
-- its turn: that which the records before it leave of the world at the start.
pub record IsHandledIn (env : Env) (h : Host) (rs : List SqsRecord) (start : World) (r : SqsRecord)
    : Type 0 where
  pub before : List SqsRecord
  pub after : List SqsRecord
  pub batch_is : rs ≡ before ++ r ∷ after
  pub message : EventMessage
  pub validated : parse_record h r ≡ parsed message
  pub outcomes : List Outcome
  pub returned : (dispatch env message (clocked (batch env h before start).1)).0 ≡ ok outcomes

-- The invocation that deleted the record returned without reporting it, and handled it.
pub record IsHandled (env : Env) (h : Host) (d : Drivers) (x : Deletion) : Type 0 where
  pub ids : Failures
  pub answer : (invoke env h d (some x.batch) x.state).0 ≡ ok ids
  pub unreported : is_among (id_of x.gone) ids ≡ false
  pub handled : IsHandledIn env h x.batch x.state.world x.gone

is_among-append : (id : String) (xs ys : List String) → is_among id (xs ++ id ∷ ys) ≡ true
is_among-append id [] ys = rw (eq_refl id) refl
is_among-append id (x ∷ xs) ys = ground (arith, is_among-append id xs ys)

All-map {ℓ} :
    {A B : Type ℓ} (P : A → Type 0) (Q : B → Type 0) (f : A → B)
    → ((x : A) → P x → Q (f x))
    → (xs : List A) → All P xs
    → All Q (map f xs)
All-map P Q f g [] a = tt
All-map P Q f g (x ∷ xs) a = (g x a.0, All-map P Q f g xs a.1)

-- A deleted record is not among those reported.
deleted-unreported :
    (P : SqsRecord → Type 0) (ids : List String) (rs : List SqsRecord)
    → All P (deleted ids rs)
    → All (λ r. (is_among (id_of r) ids ≡ false) × P r) (deleted ids rs)
unfolding deleted
deleted-unreported P ids [] a = tt
deleted-unreported P ids (r ∷ rs) a = elim (Bool-cases (is_among (id_of r) ids)) [
  | inl reported ↦
      rw (reported, deleted) (deleted-unreported P ids rs (rw (reported, deleted) at a))
  | inr left ↦
      let both : All P (r ∷ deleted ids rs) = rw (left, deleted) at a in
      rw (left, deleted) ((left, both.0), deleted-unreported P ids rs both.1)
]

module _ (env : Env) (h : Host) where
  parsed-returns :
      (r : SqsRecord) (p : Parsed) (w : World)
      → parse_record h r ≡ p
      → (deliver_parsed env p w).0 ≡ done
      → (m : EventMessage) × (os : List Outcome) × (parse_record h r ≡ parsed m)
        × ((dispatch env m w).0 ≡ ok os)
  parsed-returns r (parsed m) w known e = elim (Result-cases (dispatch env m w).0) [
    | inl (os, returned) ↦ (m, os, known, returned)
    | inr (x, returned) ↦ absurd (ground arith)
  ]
  parsed-returns r invalid w known e = absurd cc
  parsed-returns r (raised x) w known e = absurd cc

  deliver-IsHandledIn :
      (r : SqsRecord) (rs : List SqsRecord) (w : World)
      → (deliver env h r w).0 ≡ done
      → IsHandledIn env h (r ∷ rs) w r
  unfolding deliver batch
  deliver-IsHandledIn r rs w e =
      let (m, os, known, returned) = parsed-returns r (parse_record h r) (clocked w) refl e in
      record {
        before = [];
        after = rs;
        batch_is = refl;
        message = m;
        validated = known;
        outcomes = os;
        returned = returned;
      }

  -- The turn of a record is the same when a record that does not raise comes before the batch.
  shifted :
      (q : SqsRecord) (rs : List SqsRecord) (w : World) (r : SqsRecord)
      → ((before : List SqsRecord)
          → (batch env h (q ∷ before) w).1 ≡ (batch env h before (deliver env h q w).1).1)
      → IsHandledIn env h rs (deliver env h q w).1 r
      → IsHandledIn env h (q ∷ rs) w r
  shifted q rs w r same x = record {
    before = q ∷ x.before;
    after = x.after;
    batch_is = ap (λ l. q ∷ l) x.batch_is;
    message = x.message;
    validated = x.validated;
    outcomes = x.outcomes;
    returned = ap (λ v. (dispatch env x.message (clocked v)).0) (same x.before) ∙ x.returned;
  }

  add_failure-world :
      (id : String) (out : Result (List String) × World) → (add_failure id out).1 ≡ out.1
  add_failure-world id (ok ids, w) = refl
  add_failure-world id (err e, w) = refl

  done-world :
      (q : SqsRecord) (w : World)
      → (deliver env h q w).0 ≡ done
      → (before : List SqsRecord)
      → (batch env h (q ∷ before) w).1 ≡ (batch env h before (deliver env h q w).1).1
  unfolding batch
  done-world q w e before = rw (e, batch) refl

  failed-world :
      (q : SqsRecord) (w : World)
      → (deliver env h q w).0 ≡ failed
      → (before : List SqsRecord)
      → (batch env h (q ∷ before) w).1 ≡ (batch env h before (deliver env h q w).1).1
  unfolding batch
  failed-world q w e before =
      rw (e, batch) (add_failure-world (id_of q) (batch env h before (deliver env h q w).1))

  failed-ok :
      (id : String) (rest : Result (List String) × World) (ids : List String)
      → (add_failure id rest).0 ≡ ok ids
      → (others : List String) × (rest.0 ≡ ok others) × (ids ≡ id ∷ others)
  failed-ok id (ok others, w) ids e = (others, refl, sym (ok-injective e))
  failed-ok id (err x, w) ids e = absurd cc

  unreported-cons :
      (r : SqsRecord) (rs : List SqsRecord) (w : World) (ids : List String)
      → IsHandledIn env h (r ∷ rs) w r
      → All (IsHandledIn env h (r ∷ rs) w) (deleted ids rs)
      → All (IsHandledIn env h (r ∷ rs) w) (deleted ids (r ∷ rs))
  unfolding deleted
  unreported-cons r rs w ids one others =
      if_either (All (IsHandledIn env h (r ∷ rs) w)) (is_among (id_of r) ids) _ _ (λ _. others)
        (λ _. (one, others))

  reported-cons :
      (r : SqsRecord) (rs : List SqsRecord) (w : World) (pre ids : List String)
      → All (IsHandledIn env h (r ∷ rs) w) (deleted (pre ++ id_of r ∷ ids) rs)
      → All (IsHandledIn env h (r ∷ rs) w) (deleted (pre ++ id_of r ∷ ids) (r ∷ rs))
  unfolding deleted
  reported-cons r rs w pre ids others = rw (is_among-append (id_of r) pre ids) others

  none_deleted : (ids : List String) (w : World) → All (IsHandledIn env h [] w) (deleted ids [])
  unfolding deleted
  none_deleted ids w = tt

  -- The records that a batch does not report, also of those that more reports leave.
  batch-handled :
      (rs : List SqsRecord) (w : World) (pre ids : List String)
      → (batch env h rs w).0 ≡ ok ids
      → All (IsHandledIn env h rs w) (deleted (pre ++ ids) rs)
  unfolding batch
  batch-handled [] w pre ids e = none_deleted (pre ++ ids) w
  batch-handled (r ∷ rs) w pre ids e =
      let w' = (deliver env h r w).1 in
      let shift =
        λ (same : (before : List SqsRecord)
              → (batch env h (r ∷ before) w).1 ≡ (batch env h before w').1)
            (kept_ids : List String).
          All-imp (IsHandledIn env h rs w') (IsHandledIn env h (r ∷ rs) w)
            (λ x. shifted r rs w x same) (deleted kept_ids rs) in
      elim (deliver env h r w).0
          as (λ v.
            (deliver env h r w).0 ≡ v
            → All (IsHandledIn env h (r ∷ rs) w) (deleted (pre ++ ids) (r ∷ rs))) [
              | done ↦ λ known.
                  let others =
                    shift (done-world r w known) (pre ++ ids)
                      (batch-handled rs w' pre ids (rw (known, batch) at e)) in
                  unreported-cons r rs w (pre ++ ids) (deliver-IsHandledIn r rs w known) others
              | failed ↦ λ known.
                  let (others, rest, same) =
                    failed-ok (id_of r) (batch env h rs w') ids (rw (known, batch) at e) in
                  rw (same) (
                    reported-cons r rs w pre others (
                      shift (failed-world r w known) (pre ++ id_of r ∷ others) (
                        rw (← append_assoc pre (id_of r ∷ []) others)
                          (batch-handled rs w' (pre ++ id_of r ∷ []) others rest))))
              | crashed x ↦ λ known. absurd (err-ok (rw (known, batch) at e))
            ]
        refl

  batch_unless-handled :
      (rs : List SqsRecord) (w : World) (opened : Result (Option (Repo Logs))) (ids : List String)
      → (batch_unless env h rs w opened).0 ≡ ok ids
      → All (IsHandledIn env h rs w) (deleted ids rs)
  batch_unless-handled rs w (ok repo) ids e = batch-handled rs w [] ids e
  batch_unless-handled rs w (err x) ids e = absurd (err-ok e)

  pub invoke-handled :
      (d : Drivers) (rs : List SqsRecord) (s : State Logs) (ids : List String)
      → (invoke env h d (some rs) s).0 ≡ ok ids
      → All (IsHandled env h d) (deletions ids rs s)
  invoke-handled d rs s ids e =
      let same = ap (λ (x : Result Failures × World). x.0) (invoke-batch env h d (some rs) s) in
      let turns =
        batch_unless-handled rs s.world (get_events_repo env.settings d s.log).0 ids
          (sym same ∙ e) in
      All-map (λ r. (is_among (id_of r) ids ≡ false) × IsHandledIn env h rs s.world r)
        (IsHandled env h d) (λ r. record { gone = r; batch = rs; state = s })
        (λ r x. record { ids = ids; answer = e; unreported = x.0; handled = x.1 }) (deleted ids rs)
        (deleted-unreported (IsHandledIn env h rs s.world) ids rs turns)
