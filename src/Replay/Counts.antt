-- ===== src/Replay/Counts.antt =====
-- What a run of the replay adds up to, and that it deletes nothing it has not sent.
use lingo_async.Prelude.{
  suc, ◌+◌, ◌≤◌, min, String, ◌≡◌, refl, inl, inr, Bool, true, false, Option, none, some, List, [],
  ◌∷◌, ◌++◌, length, arith, count, if_either, if◌then◌else◌, length-append,
}
use lingo_async.Python.Exn.{Result, ok, Result-cases}
use lingo_async.Replay.{
  Message, Call, receive, send, delete, Sqs, Options, Run, matches, message_body, log_call,
  skip_one, matched_one, moved_one, delete_of, move, take_message,
}

abbrev pub is_send : Call → Bool
is_send (send _) = true
is_send _ = false

abbrev pub is_delete : Call → Bool
is_delete (delete _) = true
is_delete _ = false

module _ (sqs : Sqs) where
  -- The answer to the last receive has this message.
  abbrev pub IsReceived : Message → List Call → Type 0
  IsReceived m [] = ⊥
  IsReceived m (receive n v ∷ calls) =
      (pre : List Message) × (post : List Message) × (sqs.receive_message calls n v
        ≡ ok (pre ++ m ∷ post))
  IsReceived m (send _ ∷ calls) = IsReceived m calls
  IsReceived m (delete _ ∷ calls) = IsReceived m calls

  -- The last call sent the body of a message with this receipt handle that the last receive has
  -- returned.
  abbrev FollowsSend : String → List Call → Type 0
  FollowsSend handle (send body ∷ calls) =
      (m : Message) × (m.receipt_handle ≡ some handle)
      × (message_body m ≡ body)
      × IsReceived m calls
  FollowsSend handle _ = ⊥

  -- Each message that is deleted has been sent right before.
  abbrev pub SentBeforeDeleted : List Call → Type 0
  SentBeforeDeleted [] = Unit {0}
  SentBeforeDeleted (delete handle ∷ calls) = FollowsSend handle calls × SentBeforeDeleted calls
  SentBeforeDeleted (_ ∷ calls) = SentBeforeDeleted calls

pub record IsSound (sqs : Sqs) (o : Options) (r : Run) : Type 0 where
  pub scans : r.result.scanned ≡ r.result.matched + r.result.skipped_filter
  pub previews : length r.result.previews ≡ min r.result.matched o.preview_limit
  pub moves : r.result.moved ≤ count is_delete r.calls
  pub deletes : count is_delete r.calls ≤ count is_send r.calls
  pub sends : count is_send r.calls ≤ (if o.apply then r.result.matched else 0)
  pub order : SentBeforeDeleted sqs r.calls

module _ (sqs : Sqs) (o : Options) where
  matched_one-length :
      (m : Message) (r : Run)
      → length r.result.previews ≡ min r.result.matched o.preview_limit
      → length (matched_one o m r).result.previews
        ≡ min (matched_one o m r).result.matched o.preview_limit
  matched_one-length m r e = ground (
    arith,
    length-append r.result.previews
        (record { message_id = m.message_id; body = message_body m } ∷ []),
  )

  -- One more message has matched than the previews and the sends know of.
  matched_one-IsSound :
      (m : Message) (r : Run)
      → IsSound sqs o r
      → IsSound sqs o (matched_one o m r)
        × (suc (count is_send r.calls) ≤ (matched_one o m r).result.matched)
  matched_one-IsSound m r s = (
    record {
      scans = omega (arith, s.scans);
      previews = matched_one-length m r s.previews;
      moves = s.moves;
      deletes = s.deletes;
      sends = ground (arith, s.sends);
      order = s.order;
    },
    ground (arith, s.sends),
  )

  skip_one-IsSound : (r : Run) → IsSound sqs o r → IsSound sqs o (skip_one r)
  skip_one-IsSound r s = record {
    scans = omega (arith, s.scans);
    previews = s.previews;
    moves = s.moves;
    deletes = s.deletes;
    sends = s.sends;
    order = s.order;
  }

  module _ (applies : o.apply ≡ true) (m : Message) (r : Run) (s : IsSound sqs o r)
      (room : suc (count is_send r.calls) ≤ r.result.matched)
      (known_m : IsReceived sqs m r.calls) where
    abbrev sent : Run
    sent = log_call (send (message_body m)) r

    sent-IsSound : IsSound sqs o sent
    sent-IsSound = record {
      scans = s.scans;
      previews = s.previews;
      moves = s.moves;
      deletes = omega (arith, s.deletes);
      sends = ground arith;
      order = s.order;
    }

    deleted-IsSound :
        (handle : String)
        → m.receipt_handle ≡ some handle
        → IsSound sqs o (log_call (delete handle) sent)
    deleted-IsSound handle known = record {
      scans = s.scans;
      previews = s.previews;
      moves = omega (arith, s.moves);
      deletes = omega (arith, s.deletes);
      sends = ground arith;
      order = ((m, known, refl, known_m), s.order);
    }

    moved-IsSound :
        (handle : String)
        → m.receipt_handle ≡ some handle
        → IsSound sqs o (moved_one (log_call (delete handle) sent))
    moved-IsSound handle known = record {
      scans = s.scans;
      previews = s.previews;
      moves = omega (arith, s.moves);
      deletes = omega (arith, s.deletes);
      sends = ground arith;
      order = ((m, known, refl, known_m), s.order);
    }

    delete_of-IsSound :
        (handle : Option String)
        → m.receipt_handle ≡ handle
        → IsSound sqs o (delete_of sqs handle sent).1
    delete_of-IsSound none known = sent-IsSound
    delete_of-IsSound (some handle) known =
        elim (Result-cases (sqs.delete_message sent.calls handle)) [
          | inl (_, e) ↦ rw (e, delete_of) (moved-IsSound handle known)
          | inr (_, e) ↦ rw (e, delete_of) (deleted-IsSound handle known)
        ]

    move-IsSound : IsSound sqs o (move sqs m r).1
    unfolding move
    move-IsSound = elim (Result-cases (sqs.send_message r.calls (message_body m))) [
      | inl (_, e) ↦ rw (e, move) (delete_of-IsSound m.receipt_handle refl)
      | inr (_, e) ↦ rw (e, move) sent-IsSound
    ]

  pub take_message-IsSound :
      (m : Message) (r : Run)
      → IsSound sqs o r
      → IsReceived sqs m r.calls
      → IsSound sqs o (take_message sqs o m r).1
  unfolding take_message
  take_message-IsSound m r s known =
      let (s', room) = matched_one-IsSound m r s in
      if_either (λ (out : Result (Unit {0}) × Run). IsSound sqs o out.1)
        (matches o.body_filter (message_body m)) _ _
        (λ _.
          if_either (λ (out : Result (Unit {0}) × Run). IsSound sqs o out.1) o.apply _ _
            (λ applies. move-IsSound applies m (matched_one o m r) s' room known) (λ _. s'))
        (λ _. skip_one-IsSound r s)

  delete_of-IsReceived :
      (x : Message) (handle : Option String) (r : Run)
      → IsReceived sqs x r.calls
      → IsReceived sqs x (delete_of sqs handle r).1.calls
  delete_of-IsReceived x none r known = known
  delete_of-IsReceived x (some handle) r known =
      elim (Result-cases (sqs.delete_message r.calls handle)) [
        | inl (_, e) ↦ rw (e, delete_of) known
        | inr (_, e) ↦ rw (e, delete_of) known
      ]

  move-IsReceived :
      (x m : Message) (r : Run) → IsReceived sqs x r.calls → IsReceived sqs x (move sqs m r).1.calls
  unfolding move
  move-IsReceived x m r known = elim (Result-cases (sqs.send_message r.calls (message_body m))) [
    | inl (_, e) ↦
        rw (e, move)
          (delete_of-IsReceived x m.receipt_handle (log_call (send (message_body m)) r) known)
    | inr (_, e) ↦ rw (e, move) known
  ]

  -- What the last receive has returned stays so while messages are taken.
  pub take_message-IsReceived :
      (x m : Message) (r : Run)
      → IsReceived sqs x r.calls
      → IsReceived sqs x (take_message sqs o m r).1.calls
  unfolding take_message
  take_message-IsReceived x m r known =
      let P = λ (out : Result (Unit {0}) × Run). IsReceived sqs x out.1.calls in
      if_either P (matches o.body_filter (message_body m)) _ _
        (λ _.
          if_either P o.apply _ _ (λ _. move-IsReceived x m (matched_one o m r) known) (λ _. known))
        (λ _. known)

  delete_of-matched :
      (handle : Option String) (r : Run)
      → (delete_of sqs handle r).1.result.matched ≡ r.result.matched
  delete_of-matched none r = refl
  delete_of-matched (some handle) r = elim (Result-cases (sqs.delete_message r.calls handle)) [
    | inl (_, e) ↦ rw (e, delete_of) refl
    | inr (_, e) ↦ rw (e, delete_of) refl
  ]

  move-matched : (m : Message) (r : Run) → (move sqs m r).1.result.matched ≡ r.result.matched
  unfolding move
  move-matched m r = elim (Result-cases (sqs.send_message r.calls (message_body m))) [
    | inl (_, e) ↦
        rw (e, move) (delete_of-matched m.receipt_handle (log_call (send (message_body m)) r))
    | inr (_, e) ↦ rw (e, move) refl
  ]

  -- Just a message that matches is counted as matched.
  pub take_message-matched :
      (m : Message) (r : Run)
      → (take_message sqs o m r).1.result.matched ≡ (
          if matches o.body_filter (message_body m) then suc r.result.matched else r.result.matched)
  unfolding take_message
  take_message-matched m r = ground (arith, move-matched m (matched_one o m r))
