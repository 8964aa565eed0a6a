-- ===== src/Leaderboard/Keeps.antt =====
-- What `update_leaderboard` leaves uncounted: effects that are not its writes.
use lingo_async.Prelude.{String, ◌≡◌, inl, inr, Bool, false, arith, not}
use lingo_async.Prelude.Int.{ℤ, pos, leb_ℤ}
use lingo_async.Python.Exn.{Result-cases}
use lingo_async.Python.Text.{is_empty}
use lingo_async.World.{Env, Effect, XpUpdate, updated, update_failed}
use lingo_async.World.Keeps.{IsQuiet, Keeps, Keeps-lift, Keeps-pure, Keeps-bind, Keeps-if}
use lingo_async.Contracts.Messages.{XpAwarded}
use lingo_async.Leaderboard.{
  Bucket, now, weekly_bucket, monthly_bucket, row, add_xp, write_buckets, language_of,
  update_leaderboard,
}

module _ (p : Effect → Bool) (quiet : IsQuiet p) (env : Env)
    (no_write : (item : XpUpdate)
      → (p (updated item) ≡ false) × (p (update_failed item) ≡ false)) where
  now-Keeps : Keeps p (now env)
  unfolding Keeps now
  now-Keeps w = ground (arith, quiet.clock)

  add_xp-Keeps : (b : Bucket) (u : String) (amount : ℤ) → Keeps p (add_xp env b u amount)
  unfolding Keeps add_xp
  add_xp-Keeps b u amount w = elim (Result-cases (env.update_item w.trace (row env b u amount))) [
    | inl (_, e) ↦ rw (e, add_xp) (ground (arith, no_write (row env b u amount)))
    | inr (_, e) ↦ rw (e, add_xp) (ground (arith, no_write (row env b u amount)))
  ]

  write_buckets-Keeps : (lang : String) (m : XpAwarded) → Keeps p (write_buckets env lang m)
  unfolding write_buckets
  write_buckets-Keeps lang m = Keeps-bind p _ _ now-Keeps λ t.
      Keeps-bind p _ _ (Keeps-lift p (weekly_bucket lang t)) λ week.
        Keeps-bind p _ _ (Keeps-lift p (monthly_bucket lang t)) λ month.
          Keeps-bind p _ _ (add_xp-Keeps week m.user_id m.amount)
            λ _. Keeps-bind p _ _ (add_xp-Keeps month m.user_id m.amount) λ _. Keeps-pure p _

  pub update_leaderboard-Keeps : (m : XpAwarded) → Keeps p (update_leaderboard env m)
  unfolding update_leaderboard
  update_leaderboard-Keeps m = Keeps-if p (leb_ℤ m.amount (pos 0)) _ _ (Keeps-pure p _) (
      Keeps-if p (not m.leaderboard_opt_in) _ _ (Keeps-pure p _) (
        Keeps-if p (is_empty (language_of m)) _ _ (Keeps-pure p _)
          (write_buckets-Keeps (language_of m) m)))
