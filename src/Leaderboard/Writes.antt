-- ===== src/Leaderboard/Writes.antt =====
-- How many writes `update_leaderboard` of app/leaderboard/updater.py leaves behind.
use lingo_async.Prelude.{
  subst, sym, ℕ, String, ◌≡◌, ◌≤◌, ◌+◌, ◌⊎◌, inl, inr, Bool, true, false, arith, List, [], ◌∷◌,
  length, not, if_either,
}
use lingo_async.Prelude.Int.{ℤ, pos, leb_ℤ}
use lingo_async.Python.Exn.{Exn, Result, ok, err, Result-cases}
use lingo_async.Python.Text.{is_empty}
use lingo_async.World.{Env, World, M, Effect, updated, pure, ◌>>=◌, ◌>>◌}
use lingo_async.World.Keeps.{counted}
use lingo_async.Contracts.Messages.{XpAwarded}
use lingo_async.Leaderboard.{
  Bucket, BucketAction, action, weekly, monthly, now, row, add_xp, weekly_bucket, monthly_bucket,
  write_buckets, language_of, update_leaderboard,
}

abbrev pub is_write : Effect → Bool
is_write (updated _) = true
is_write _ = false

abbrev pub writes : World → ℕ
writes = counted is_write

module _ (env : Env) where
  -- An answer accounts for the writes made since `n`: one for each action, and at most one if it is
  -- an exception.
  abbrev pub Accounts : ℕ → Result (List BucketAction) × World → Type 0
  Accounts n (ok actions, w) = writes w ≡ length actions + n
  Accounts n (err _, w) = (n ≤ writes w) × (writes w ≤ 1 + n)

  add_xp-writes :
      (b : Bucket) (u : String) (amount : ℤ) (w : World)
      → ((add_xp env b u amount w).0 ≡ ok tt) × (writes (add_xp env b u amount w).1 ≡ 1 + writes w)
        ⊎ ((e : Exn) × ((add_xp env b u amount w).0 ≡ err e)
            × (writes (add_xp env b u amount w).1 ≡ writes w))
  unfolding add_xp
  add_xp-writes b u amount w = elim (Result-cases (env.update_item w.trace (row env b u amount))) [
    | inl (_, e) ↦ inl (ground arith)
    | inr (x, e) ↦ inr (x, ground arith, ground arith)
  ]

  -- The two writes of one update, in their order.
  abbrev pub both : Bucket → Bucket → XpAwarded → M (List BucketAction)
  both week month m = do
    add_xp env week m.user_id m.amount
    add_xp env month m.user_id m.amount
    pure (action week m.amount weekly ∷ action month m.amount monthly ∷ [])

  abbrev pub second : Bucket → Bucket → XpAwarded → World → Result (Unit {0}) × World
  second week month m w =
      add_xp env month m.user_id m.amount (add_xp env week m.user_id m.amount w).1

  pub ends_first :
      (week month : Bucket) (m : XpAwarded) (w : World) (x : Exn)
      → (add_xp env week m.user_id m.amount w).0 ≡ err x
      → both week month m w ≡ (err x, (add_xp env week m.user_id m.amount w).1)
  ends_first week month m w x e = ground (arith, e)

  pub ends_err :
      (week month : Bucket) (m : XpAwarded) (w : World) (x : Exn)
      → (add_xp env week m.user_id m.amount w).0 ≡ ok tt
      → (second week month m w).0 ≡ err x
      → both week month m w ≡ (err x, (second week month m w).1)
  ends_err week month m w x e f = ground (arith, e, f)

  pub ends_ok :
      (week month : Bucket) (m : XpAwarded) (w : World)
      → (add_xp env week m.user_id m.amount w).0 ≡ ok tt
      → (second week month m w).0 ≡ ok tt
      → both week month m w ≡ (
        ok (action week m.amount weekly ∷ action month m.amount monthly ∷ []),
        (second week month m w).1,
      )
  ends_ok week month m w e f = ground (arith, e, f)

  both-Accounts :
      (week month : Bucket) (m : XpAwarded) (w : World) → Accounts (writes w) (both week month m w)
  both-Accounts week month m w = elim (add_xp-writes week m.user_id m.amount w) [
    | inr (x, e, same) ↦
        subst (Accounts (writes w)) (sym (ends_first week month m w x e))
          (omega (arith, same), omega (arith, same))
    | inl (e, more) ↦
        let w1 = (add_xp env week m.user_id m.amount w).1 in
        elim (add_xp-writes month m.user_id m.amount w1) [
          | inr (x, f, same) ↦
              subst (Accounts (writes w)) (sym (ends_err week month m w x e f))
                (omega (arith, same, more), omega (arith, same, more))
          | inl (f, again) ↦
              subst (Accounts (writes w)) (sym (ends_ok week month m w e f))
                (omega (arith, again, more))
        ]
  ]

  write_buckets-Accounts :
      (lang : String) (m : XpAwarded) (w : World) → Accounts (writes w) (write_buckets env lang m w)
  unfolding write_buckets now
  write_buckets-Accounts lang m w =
      let t = env.utc_now w.trace in
      elim (Result-cases (weekly_bucket lang t)) [
        | inr (x, e) ↦ rw (e, ◌>>=◌) (omega arith, omega arith)
        | inl (week, e) ↦
            rw (e, ◌>>=◌)
              (elim (Result-cases (monthly_bucket lang t)) [
                | inr (x, f) ↦ rw (f, ◌>>=◌) (omega arith, omega arith)
                | inl (month, f) ↦ rw (f, ◌>>=◌) (both-Accounts week month m (now env w).1)
              ])
      ]

  -- When `update_leaderboard` returns, it has made as many successful writes as it reports actions;
  -- when it raises, it has made at most one.
  update_leaderboard-writes :
      (m : XpAwarded) (w : World) → Accounts (writes w) (update_leaderboard env m w)
  unfolding update_leaderboard
  update_leaderboard-writes m w =
      if_either (λ (f : M (List BucketAction)). Accounts (writes w) (f w)) (leb_ℤ m.amount (pos 0))
        _ _ (λ _. omega arith)
        (λ _.
          if_either (λ (f : M (List BucketAction)). Accounts (writes w) (f w))
            (not m.leaderboard_opt_in) _ _ (λ _. omega arith)
            (λ _.
              if_either (λ (f : M (List BucketAction)). Accounts (writes w) (f w))
                (is_empty (language_of m)) _ _ (λ _. omega arith)
                (λ _. write_buckets-Accounts (language_of m) m w)))
