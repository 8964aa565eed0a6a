-- ===== src/Worker/Outage.antt =====
-- A batch of app/handler.py while the breaker of the lingo-core client is open and cooling down.
use lingo_async.Prelude.{
  ℕ, ◌+◌, ◌<◌, ◌≡◌, ◌∙◌, ◌⊎◌, inl, inr, refl, sym, ap, subst, String, Option, Bool, true, false,
  Bool-cases, All, if_either, if◌then◌else◌, List, [], ◌∷◌, arith,
}
use lingo_async.Python.Exn.{Exn, Result, ok, err, circuit_open}
use lingo_async.Breaker.{Breaker, open_state}
use lingo_async.World.{Env, World, Trace}
use lingo_async.Client.Counts.{sends}
use lingo_async.Contracts.Messages.{
  XpAwarded, xp_awarded, lesson_completed, review_completed, friend_added, ad_watched,
  subscription_changed,
}
use lingo_async.Contracts.Parse.{Parsed, parsed, invalid, raised}
use lingo_async.Handlers.{Outcome, needs_credit, dispatch}
use lingo_async.Handlers.Credit.{is_due, due-needs_credit}
use lingo_async.Handlers.Fanout.{dispatch-routed}
use lingo_async.Handlers.Outage.{Cut, Cut-Frame, handle_xp_awarded_refused}
use lingo_async.EventLog.{Repo}
use lingo_async.Worker.{SqsRecord, Host, id_of, State, lambda_handler}
use lingo_async.Worker.Batch.{
  done, failed, crashed, clocked, parse_record, deliver, batch, add_failure, lambda_handler-batch,
}
use lingo_async.Client.Frame.{Frame}
use lingo_async.Worker.Frame.{clocked-kept, deliver-kept, batch-kept}

abbrev pub Among : String → List String → Type 0
Among id [] = ⊥
Among id (x ∷ xs) = (x ≡ id) ⊎ Among id xs

abbrev pub is_due_parsed : Parsed → Bool
is_due_parsed (parsed event) = is_due event
is_due_parsed _ = false

-- The record parses as an event whose XP is left for the worker to credit.
abbrev pub is_due_record : Host → SqsRecord → Bool
is_due_record h r = is_due_parsed (parse_record h r)

unfoldable pub due_ids : Host → List SqsRecord → List String
due_ids h [] = []
due_ids h (r ∷ rs) = let rest = due_ids h rs in if is_due_record h r then id_of r ∷ rest else rest

-- What a batch returns has all of these identifiers; an exception says nothing.
abbrev pub Reports : List String → Result (List String) → Type 0
Reports due (ok ids) = All (λ id. Among id ids) due
Reports due (err _) = Unit

Reports-ok :
    (due : List String) (out : Result (List String))
    → ((ids : List String) → out ≡ ok ids → All (λ id. Among id ids) due)
    → Reports due out
Reports-ok due (ok ids) f = f ids refl
Reports-ok due (err e) f = tt

Among-cons :
    (q : String) (ids due : List String)
    → All (λ id. Among id ids) due
    → All (λ id. Among id (q ∷ ids)) due
Among-cons q ids [] a = tt
Among-cons q ids (id ∷ due) a = (inr a.0, Among-cons q ids due a.1)

due-parsed :
    (p : Parsed)
    → is_due_parsed p ≡ true
    → (m : XpAwarded) × (p ≡ parsed (xp_awarded m)) × (needs_credit m ≡ true)
due-parsed (parsed (xp_awarded m)) due = (m, refl, sym (due-needs_credit m) ∙ due)
due-parsed (parsed (lesson_completed m)) due = absurd cc
due-parsed (parsed (review_completed m)) due = absurd cc
due-parsed (parsed (friend_added m)) due = absurd cc
due-parsed (parsed (ad_watched m)) due = absurd cc
due-parsed (parsed (subscription_changed m)) due = absurd cc
due-parsed invalid due = absurd cc
due-parsed (raised x) due = absurd cc

failed-done : failed ≡ done → ⊥
failed-done e = cc

err-ok {ℓ} : {A : Type ℓ} {x : Exn} {a : A} → err x ≡ ok a → ⊥
err-ok e = cc

add_failure-ok :
    (id : String) (x : Result (List String) × World) (ids : List String)
    → (add_failure id x).0 ≡ ok ids
    → (rest : List String) × (x.0 ≡ ok rest) × (id ∷ rest ≡ ids)
add_failure-ok id (ok rest, w) ids e = (rest, refl, cc)
add_failure-ok id (err x, w) ids e = absurd (err-ok e)

module _ (env : Env) (b : Breaker) (opened : b.state ≡ open_state)
    (cooling : (t : Trace) → env.monotonic t < b.opened_at + b.cooldown) (h : Host) where
  abbrev frame : (n : ℕ) → Frame env (Cut env b opened cooling n)
  frame = Cut-Frame env b opened cooling

  dispatch-due :
      (n : ℕ) (m : XpAwarded) (w : World)
      → needs_credit m ≡ true
      → Cut env b opened cooling n w
      → (dispatch env (xp_awarded m) w).0 ≡ err (circuit_open "add_xp")
  dispatch-due n m w due c = rw (dispatch-routed env (xp_awarded m)) (
      ap (λ (x : Result (List Outcome) × World). x.0)
        (handle_xp_awarded_refused env b opened cooling n m w due c))

  deliver-failed :
      (n : ℕ) (r : SqsRecord) (m : XpAwarded) (w : World)
      → parse_record h r ≡ parsed (xp_awarded m)
      → needs_credit m ≡ true
      → Cut env b opened cooling n w
      → (deliver env h r w).0 ≡ failed
  unfolding deliver
  deliver-failed n r m w p due c =
      ground (arith, dispatch-due n m (clocked w) due (clocked-kept env _ (frame n) h w c))

  due_ids-cons :
      (r : SqsRecord) (rs : List SqsRecord) (ids : List String)
      → All (λ id. Among id ids) (due_ids h rs)
      → All (λ id. Among id (id_of r ∷ ids)) (due_ids h (r ∷ rs))
  unfolding due_ids
  due_ids-cons r rs ids a =
      let more = Among-cons (id_of r) ids (due_ids h rs) a in
      if_either (All (λ id. Among id (id_of r ∷ ids))) (is_due_record h r) _ _
        (λ _. (inl refl, more)) (λ _. more)

  deliver-due :
      (n : ℕ) (r : SqsRecord) (w : World)
      → is_due_record h r ≡ true
      → Cut env b opened cooling n w
      → (deliver env h r w).0 ≡ failed
  deliver-due n r w due c =
      let (m, p, needed) = due-parsed (parse_record h r) due in deliver-failed n r m w p needed c

  batch-Reports :
      (n : ℕ) (rs : List SqsRecord) (w : World) (ids : List String)
      → Cut env b opened cooling n w
      → (batch env h rs w).0 ≡ ok ids
      → All (λ id. Among id ids) (due_ids h rs)
  unfolding batch due_ids
  batch-Reports n [] w ids c e = tt
  batch-Reports n (r ∷ rs) w ids c e =
      let w' = (deliver env h r w).1 in
      let later =
        λ (rest : List String). batch-Reports n rs w' rest (deliver-kept env _ (frame n) h r w c) in
      elim (deliver env h r w).0
          as (λ v. (deliver env h r w).0 ≡ v → All (λ id. Among id ids) (due_ids h (r ∷ rs))) [
            | done ↦ λ v. elim (Bool-cases (is_due_record h r)) [
              | inl due ↦ absurd (failed-done (sym (deliver-due n r w due c) ∙ v))
              | inr other ↦ rw (other, due_ids) (later ids (rw (v, batch) at e))
            ]
            | failed ↦ λ v.
                let (rest, known, same) =
                  add_failure-ok (id_of r) (batch env h rs w') ids (rw (v, batch) at e) in
                subst (λ l. All (λ id. Among id l) (due_ids h (r ∷ rs))) same
                  (due_ids-cons r rs rest (later rest known))
            | crashed x ↦ λ v. absurd (err-ok (rw (v, batch) at e))
          ]
        refl

  module _ {R : Type 0} (repo : Option (Repo R)) where
    -- If the breaker is open when a batch begins and the clock, however often it is read, stays
    -- before the end of the cooldown, the batch, whatever it returns or raises, sends nothing to
    -- lingo-core and leaves the breaker as it is, and if it returns, it reports each record that
    -- parses as an event due for a credit.
    pub outage_batch :
        (rs : List SqsRecord) (s : State R)
        → s.world.breaker ≡ b
        → let out = lambda_handler env h repo rs s in
          (sends out.1.world.trace ≡ sends s.world.trace)
          × (out.1.world.breaker ≡ b)
          × Reports (due_ids h rs) out.0
    outage_batch rs s same =
        let n = sends s.world.trace in
        let c : Cut env b opened cooling n s.world = record { breaker = same; sent = refl } in
        let run = lambda_handler-batch env h repo rs s in
        let cut = batch-kept env _ (frame n) h rs s.world c in
        let same_world = ap (λ (x : Result (List String) × World). x.1) run in
        let same_result = ap (λ (x : Result (List String) × World). x.0) run in
        (
          rw (same_world) cut.sent,
          rw (same_world) cut.breaker,
          Reports-ok (due_ids h rs) (lambda_handler env h repo rs s).0
              λ ids e. batch-Reports n rs s.world ids c (sym same_result ∙ e),
        )
