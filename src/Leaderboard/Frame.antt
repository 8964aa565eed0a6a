-- ===== src/Leaderboard/Frame.antt =====
-- What app/leaderboard/updater.py keeps if its steps do.
use lingo_async.Prelude.{String, inl, inr, List, [], not}
use lingo_async.Prelude.Int.{ℤ, pos, leb_ℤ}
use lingo_async.Python.Exn.{Result-cases}
use lingo_async.Python.Text.{is_empty}
use lingo_async.World.{Env, World}
use lingo_async.World.Preserves.{
  Preserves, Preserves-pure, Preserves-lift, Preserves-bind, Preserves-if,
}
use lingo_async.Contracts.Messages.{XpAwarded}
use lingo_async.Leaderboard
use lingo_async.Leaderboard.{
  Bucket, BucketAction, row, now, weekly_bucket, monthly_bucket, write_buckets, language_of,
  update_leaderboard,
}
use lingo_async.Client.Frame.{Frame}

module _ (env : Env) (I : World → Type 0) (f : Frame env I) where
  now-Preserves : Preserves I (now env)
  unfolding Preserves now
  now-Preserves = f.clock

  add_xp-Preserves :
      (b : Bucket) (u : String) (amount : ℤ) → Preserves I (Leaderboard.add_xp env b u amount)
  unfolding Preserves Leaderboard.add_xp
  add_xp-Preserves b u amount w h =
      elim (Result-cases (env.update_item w.trace (row env b u amount))) [
        | inl (_, e) ↦ rw (e, Leaderboard.add_xp) (f.written (row env b u amount) w h)
        | inr (_, e) ↦ rw (e, Leaderboard.add_xp) (f.unwritten (row env b u amount) w h)
      ]

  write_buckets-Preserves : (lang : String) (m : XpAwarded) → Preserves I (write_buckets env lang m)
  unfolding write_buckets
  write_buckets-Preserves lang m = Preserves-bind I _ _ now-Preserves λ t.
      Preserves-bind I _ _ (Preserves-lift I (weekly_bucket lang t)) λ week.
        Preserves-bind I _ _ (Preserves-lift I (monthly_bucket lang t)) λ month.
          Preserves-bind I _ _ (add_xp-Preserves week m.user_id m.amount) λ _.
            Preserves-bind I _ _ (add_xp-Preserves month m.user_id m.amount) λ _. Preserves-pure I _

  pub update_leaderboard-Preserves : (m : XpAwarded) → Preserves I (update_leaderboard env m)
  unfolding update_leaderboard
  update_leaderboard-Preserves m =
      let nothing = Preserves-pure I {A = List BucketAction} [] in
      Preserves-if I (leb_ℤ m.amount (pos 0)) _ _ nothing (
        Preserves-if I (not m.leaderboard_opt_in) _ _ nothing (
          Preserves-if I (is_empty (language_of m)) _ _ nothing
            (write_buckets-Preserves (language_of m) m)))
