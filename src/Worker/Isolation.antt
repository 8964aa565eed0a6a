-- ===== src/Worker/Isolation.antt =====
-- How far one message of a batch reaches into the others (`lambda_handler` of app/handler.py).
use lingo_async.Prelude.{
  String, ◌≡◌, ◌≢◌, refl, sym, inl, inr, Option, List, [], ◌∷◌, ◌++◌, arith, ◌∙◌, append_assoc, All,
}
use lingo_async.Python.Exn.{Exn, Result, ok, err, Result-cases}
use lingo_async.World.{Env, World}
use lingo_async.Contracts.Parse.{Parsed, parsed, invalid, raised}
use lingo_async.Handlers.{Outcome, dispatch}
use lingo_async.EventLog.{Repo}
use lingo_async.Worker.{SqsRecord, Host, id_of, State, process_record, lambda_handler, prepend}
use lingo_async.Worker.Batch.{
  Verdict, failed, crashed, clocked, parse_record, deliver, batch, deliver_parsed, verdict_of, seen,
  lambda_handler-batch,
}

-- `parse_event` returns or raises ValidationError, and nothing else.
abbrev pub Validates : Host → SqsRecord → Type 0
Validates h r = (e : Exn) → parse_record h r ≢ raised e

-- The world after every record has been delivered, whatever became of it.
unfoldable pub deliver_all : Env → Host → List SqsRecord → World → World
deliver_all env h [] w = w
deliver_all env h (r ∷ rs) w = deliver_all env h rs (deliver env h r w).1

-- The identifiers of the records whose delivery failed, in order.
unfoldable pub failed_ids : Env → Host → List SqsRecord → World → List String
failed_ids env h [] w = []
failed_ids env h (r ∷ rs) w =
    let rest = failed_ids env h rs (deliver env h r w).1 in
    elim (deliver env h r w).0 [ failed ↦ id_of r ∷ rest | _ ↦ rest ]

abbrev NotCrashed : Verdict → Type 0
NotCrashed (crashed _) = ⊥
NotCrashed _ = Unit {0}

verdict_of-NotCrashed : (r : Result (List Outcome)) → NotCrashed (verdict_of r)
verdict_of-NotCrashed (ok _) = tt
verdict_of-NotCrashed (err _) = tt

deliver_parsed-NotCrashed :
    (env : Env) (p : Parsed) (w : World)
    → ((e : Exn) → p ≢ raised e)
    → NotCrashed (deliver_parsed env p w).0
deliver_parsed-NotCrashed env (parsed m) w v = verdict_of-NotCrashed (dispatch env m w).0
deliver_parsed-NotCrashed env invalid w v = tt
deliver_parsed-NotCrashed env (raised e) w v = v e refl

deliver-NotCrashed :
    (env : Env) (h : Host) (r : SqsRecord) (w : World)
    → Validates h r
    → NotCrashed (deliver env h r w).0
unfolding deliver
deliver-NotCrashed env h r w v = deliver_parsed-NotCrashed env (parse_record h r) (clocked w) v

batch-isolated :
    (env : Env) (h : Host) (rs : List SqsRecord) (w : World)
    → All (Validates h) rs
    → batch env h rs w ≡ (ok (failed_ids env h rs w), deliver_all env h rs w)
unfolding batch failed_ids deliver_all
batch-isolated env h [] w v = refl
batch-isolated env h (r ∷ rs) w v =
    ground
      (arith, batch-isolated env h rs (deliver env h r w).1 v.1, deliver-NotCrashed env h r w v.0)

-- If `parse_event` raises nothing but ValidationError on the records of a batch, every record is
-- delivered, `lambda_handler` returns, and it reports exactly the records whose own validation or
-- handler failed.
pub lambda_handler_isolated :
    {R : Type 0} (env : Env) (h : Host) (repo : Option (Repo R)) (rs : List SqsRecord) (s : State R)
    → All (Validates h) rs
    → seen env h repo (lambda_handler env h repo rs s)
      ≡ (ok (failed_ids env h rs s.world), deliver_all env h rs s.world)
lambda_handler_isolated env h repo rs s v =
    lambda_handler-batch env h repo rs s ∙ batch-isolated env h rs s.world v

module _ {R : Type 0} (env : Env) (h : Host) (repo : Option (Repo R)) where
  abbrev continue_with :
      List SqsRecord → Result (List String) × State R → Result (List String) × State R
  continue_with post (ok fs, s) = prepend fs (lambda_handler env h repo post s)
  continue_with post (err e, s) = (err e, s)

  prepend-nil : (x : Result (List String) × State R) → prepend [] x ≡ x
  prepend-nil (ok fs, s) = refl
  prepend-nil (err e, s) = refl

  prepend-prepend :
      (fs gs : List String) (x : Result (List String) × State R)
      → prepend fs (prepend gs x) ≡ prepend (fs ++ gs) x
  prepend-prepend fs gs (ok hs, s) = rw append_assoc
  prepend-prepend fs gs (err e, s) = refl

  prepend-continue :
      (fs : List String) (post : List SqsRecord) (x : Result (List String) × State R)
      → prepend fs (continue_with post x) ≡ continue_with post (prepend fs x)
  prepend-continue fs post (ok gs, s) = prepend-prepend fs gs (lambda_handler env h repo post s)
  prepend-continue fs post (err e, s) = refl

  lambda_handler-append :
      (pre post : List SqsRecord) (s : State R)
      → lambda_handler env h repo (pre ++ post) s
        ≡ continue_with post (lambda_handler env h repo pre s)
  unfolding lambda_handler
  lambda_handler-append [] post s = sym (prepend-nil (lambda_handler env h repo post s))
  lambda_handler-append (r ∷ rs) post s = elim (Result-cases (process_record env h repo r s).0) [
    | inl (fs, e) ↦
        rw (e, lambda_handler)
          (rw (lambda_handler-append rs post (process_record env h repo r s).1) (
            prepend-continue fs post
              (lambda_handler env h repo rs (process_record env h repo r s).1)))
    | inr (x, e) ↦ rw (e, lambda_handler)
  ]

  -- An exception other than ValidationError in `parse_event` ends the whole batch: the records
  -- before it have had their effects, their failures are not reported, and the records after it are
  -- not delivered.
  pub uncaught_parse_error :
      (pre post : List SqsRecord) (r : SqsRecord) (s : State R) (fs : List String) (e : Exn)
      → (lambda_handler env h repo pre s).0 ≡ ok fs
      → parse_record h r ≡ raised e
      → let after = (lambda_handler env h repo pre s).1 in
        lambda_handler env h repo (pre ++ r ∷ post) s
        ≡ (err e, record after { world = clocked after.world })
  unfolding lambda_handler process_record
  uncaught_parse_error pre post r s fs e p q =
      rw (lambda_handler-append pre (r ∷ post) s) (ground arith)
