-- ===== src/Queue/Accounts.antt =====
-- Where the records of the queue are.
use mathlib.Core.List.Perm
use mathlib.Core.List.{perm_middle}
use lingo_async.Prelude.{
  String, ◌≡◌, refl, ap, map, some, List, [], ◌∷◌, ◌++◌, append_assoc, All, All-append, inl, inr,
  Bool-cases,
}
use lingo_async.Prelude.Permutations.{Perm, perm_move}
use lingo_async.Python.Exn.{Result, ok, err}
use lingo_async.World.{Env}
use lingo_async.EventLog.Provider.{Logs, Drivers}
use lingo_async.Worker.{SqsRecord, Host, State, Failures, id_of}
use lingo_async.Worker.Entry.{invoke}
use lingo_async.Queue.{
  Queue, Deletion, deletions, is_among, kept, deleted, answered, Step, publish, hand_over, give_up,
  Reachable, start, later,
}
use lingo_async.Queue.Handled.{IsHandled, invoke-handled}

abbrev pub gone_records : List Deletion → List SqsRecord
gone_records xs = map (λ x. x.gone) xs

pub record IsAccounted (env : Env) (h : Host) (d : Drivers) (q : Queue) : Type 0 where
  pub conserved : Perm q.published (q.pending ++ (gone_records q.completed ++ q.dead))
  pub handled : All (IsHandled env h d) q.completed

give_up-Perm :
    (pending : List SqsRecord) (r : SqsRecord) (rest completed dead : List SqsRecord)
    → Perm pending (r ∷ rest)
    → Perm (pending ++ (completed ++ dead)) (rest ++ (completed ++ r ∷ dead))
give_up-Perm pending r rest completed dead p =
    rw (← append_assoc rest completed (r ∷ dead), ← append_assoc pending completed dead)
      (Perm.trans
        (rw (append_assoc pending completed dead, append_assoc rest completed dead)
          (Perm.append_right (completed ++ dead) p))
        (Perm.symm (perm_middle (rest ++ completed) dead)))

kept-deleted : (ids : List String) (rs : List SqsRecord) → Perm rs (kept ids rs ++ deleted ids rs)
unfolding kept deleted
kept-deleted ids [] = Perm.nil
kept-deleted ids (r ∷ rs) = elim (Bool-cases (is_among (id_of r) ids)) [
  | inl reported ↦ rw (reported) (Perm.cons r (kept-deleted ids rs))
  | inr unreported ↦ rw (unreported) (
      Perm.trans (Perm.cons r (kept-deleted ids rs))
        (Perm.symm (perm_middle (kept ids rs) (deleted ids rs))))
]

reported-Perm :
    (ids : List String) (rs pending rest completed dead : List SqsRecord)
    → Perm pending (rs ++ rest)
    → Perm
        (pending ++ (completed ++ dead))
        ((kept ids rs ++ rest) ++ ((deleted ids rs ++ completed) ++ dead))
reported-Perm ids rs pending rest completed dead p =
    rw (append_assoc (deleted ids rs) completed dead) (
      Perm.trans (Perm.append_right (completed ++ dead) p) (
        perm_move rs (kept ids rs) (deleted ids rs) rest (completed ++ dead) (kept-deleted ids rs)))

-- The records of the deletions after an answer.
gone_records-deletions :
    (rs : List SqsRecord) (s : State Logs) (xs : List SqsRecord) (completed : List Deletion)
    → gone_records (map (λ r. record { gone = r; batch = rs; state = s }) xs ++ completed)
      ≡ xs ++ gone_records completed
gone_records-deletions rs s [] completed = refl
gone_records-deletions rs s (x ∷ xs) completed =
    ap (λ l. x ∷ l) (gone_records-deletions rs s xs completed)

module _ (env : Env) (h : Host) (d : Drivers) where
  answered-IsAccounted :
      (q : Queue) (rs rest : List SqsRecord) (s : State Logs) (out : Result Failures)
      → ((ids : List String) → out ≡ ok ids → All (IsHandled env h d) (deletions ids rs s))
      → Perm q.pending (rs ++ rest)
      → IsAccounted env h d q
      → IsAccounted env h d (answered out rs s rest q)
  answered-IsAccounted q rs rest s (ok ids) good p a = record {
    conserved = rw (gone_records-deletions rs s (deleted ids rs) q.completed) (
        Perm.trans a.conserved
          (reported-Perm ids rs q.pending rest (gone_records q.completed) q.dead p));
    handled =
        All-append (IsHandled env h d) (deletions ids rs s) q.completed (good ids refl) a.handled;
  }
  answered-IsAccounted q rs rest s (err x) good p a = record {
    conserved = Perm.trans a.conserved (Perm.append_right (gone_records q.completed ++ q.dead) p);
    handled = a.handled;
  }

  Step-IsAccounted :
      {q p : Queue} → Step env h d q p → IsAccounted env h d q → IsAccounted env h d p
  Step-IsAccounted (publish r) a = record {
    conserved = Perm.cons r a.conserved;
    handled = a.handled;
  }
  Step-IsAccounted {q} (hand_over rs rest s p) a =
      answered-IsAccounted q rs rest s (invoke env h d (some rs) s).0 (invoke-handled env h d rs s)
        p a
  Step-IsAccounted {q} (give_up r rest p) a = record {
    conserved =
        Perm.trans a.conserved (give_up-Perm q.pending r rest (gone_records q.completed) q.dead p);
    handled = a.handled;
  }

  -- Whatever SQS delivers, in whatever batches and order and how often, in whatever containers, and
  -- whatever everything outside answers, each record that was sent to the queue is pending, deleted
  -- after a delivery or in the dead-letter queue, no record is lost or doubled, and each one that
  -- is deleted was in the batch of an invocation that returned without reporting it, and that
  -- handed it, at its turn in that batch, as a valid message to its handler, which returned.
  pub Reachable-IsAccounted : (q : Queue) → Reachable env h d q → IsAccounted env h d q
  Reachable-IsAccounted _ start = record { conserved = Perm.nil; handled = tt }
  Reachable-IsAccounted q (later r st) = Step-IsAccounted st (Reachable-IsAccounted _ r)
