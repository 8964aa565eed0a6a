-- ===== src/Leaderboard/Doubling.antt =====
-- What a redelivery adds to the leaderboard of app/leaderboard/updater.py: its writes are additions,
-- and nothing marks those that an event has already made.
use lingo_async.Prelude.{
  ℕ, ◌+◌, ◌≤◌, ◌<>◌, ◌≡◌, sym, ap, ◌∙◌, Bool, true, false, not, ◌&&◌, arith, List, ◌==◌, eq_refl,
  inl, inr,
}
use lingo_async.Prelude.Int.{pos, leb_ℤ, same_number, same_number_refl}
use lingo_async.Python.Exn.{Exn, ok, err, Result-cases, err-ok}
use lingo_async.Python.Text.{is_empty}
use lingo_async.Settings.{social_leaderboard_table_name}
use lingo_async.World.{Env, World, Effect, updated, read_clock, emit}
use lingo_async.World.Keeps.{counted}
use lingo_async.Contracts.Messages.{XpAwarded}
use lingo_async.Leaderboard.{
  Bucket, BucketAction, now, row, add_xp, weekly_bucket, monthly_bucket, write_buckets, language_of,
  update_leaderboard,
}
use lingo_async.Leaderboard.Writes.{both, second, ends_first, ends_err, ends_ok}

-- The event passes the guards of `update_leaderboard`.
abbrev pub scores : XpAwarded → Bool
scores m = not (leb_ℤ m.amount (pos 0)) && (m.leaderboard_opt_in && not (is_empty (language_of m)))

module _ (env : Env) (m : XpAwarded) where
  -- An addition of the event's amount to its user's row of a bucket.
  abbrev pub is_addition : Bucket → Effect → Bool
  is_addition b (updated item) =
      (item.table == social_leaderboard_table_name env.settings)
      && ((item.pk == ("BUCKET#" <> b.name))
          && ((item.sk == ("USER#" <> m.user_id)) && same_number item.amount m.amount))
  is_addition b _ = false

  abbrev pub additions : Bucket → World → ℕ
  additions b = counted (is_addition b)

  update-write : scores m ≡ true → update_leaderboard env m ≡ write_buckets env (language_of m) m
  unfolding update_leaderboard
  update-write s = ground (arith, s)

  -- From `w` the weekly addition goes through and the monthly one raises.
  pub record Breaks (week : Bucket) (x : Exn) (w : World) : Type 0 where
    pub month : Bucket
    pub weekly_is : weekly_bucket (language_of m) (env.utc_now w.trace) ≡ ok week
    pub monthly_is : monthly_bucket (language_of m) (env.utc_now w.trace) ≡ ok month
    pub added : (add_xp env week m.user_id m.amount (emit read_clock w)).0 ≡ ok tt
    pub refused : (second env week month m (emit read_clock w)).0 ≡ err x

  add_xp-additions :
      (b week : Bucket) (w : World)
      → additions week w ≤ additions week (add_xp env b m.user_id m.amount w).1
  unfolding add_xp
  add_xp-additions b week w =
      elim (Result-cases (env.update_item w.trace (row env b m.user_id m.amount))) [
        | inl (_, e) ↦ ground (arith, e)
        | inr (_, e) ↦ ground (arith, e)
      ]

  added_once :
      (week : Bucket) (w : World)
      → (add_xp env week m.user_id m.amount w).0 ≡ ok tt
      → 1 + additions week w ≤ additions week (add_xp env week m.user_id m.amount w).1
  unfolding add_xp
  added_once week w done =
      elim (Result-cases (env.update_item w.trace (row env week m.user_id m.amount))) [
        | inl (_, e) ↦ ground (
          arith,
          e,
          eq_refl (social_leaderboard_table_name env.settings),
          eq_refl ("BUCKET#" <> week.name),
          eq_refl ("USER#" <> m.user_id),
          same_number_refl m.amount,
        )
        | inr (x, e) ↦ absurd (err-ok (rw (add_xp, e) at done))
      ]

  -- Whatever becomes of the monthly addition, the weekly one counts once it went through.
  both-adds :
      (week month : Bucket) (w : World)
      → (add_xp env week m.user_id m.amount w).0 ≡ ok tt
      → 1 + additions week w ≤ additions week (both env week month m w).1
  both-adds week month w done =
      let w1 = (add_xp env week m.user_id m.amount w).1 in
      elim (Result-cases (second env week month m w).0) [
        | inl (_, e) ↦
            rw (ends_ok env week month m w done e)
              (omega (arith, added_once week w done, add_xp-additions month week w1))
        | inr (x, e) ↦
            rw (ends_err env week month m w x done e)
              (omega (arith, added_once week w done, add_xp-additions month week w1))
      ]

  writes_both :
      (week month : Bucket) (w : World)
      → scores m ≡ true
      → weekly_bucket (language_of m) (env.utc_now w.trace) ≡ ok week
      → monthly_bucket (language_of m) (env.utc_now w.trace) ≡ ok month
      → update_leaderboard env m w ≡ both env week month m (emit read_clock w)
  unfolding write_buckets now
  writes_both week month w s e f = rw (update-write s) (ground (arith, e, f))

  broken :
      (week : Bucket) (x : Exn) (w : World)
      → scores m ≡ true
      → Breaks week x w
      → ((update_leaderboard env m w).0 ≡ err x)
        × (1 + additions week w ≤ additions week (update_leaderboard env m w).1)
  broken week x w s b =
      let start = emit read_clock w in
      rw (writes_both week b.month w s b.weekly_is b.monthly_is) (
        ap (λ o. o.0) (ends_err env week b.month m start x b.added b.refused),
        both-adds week b.month start b.added,
      )

  -- If the weekly addition of an event that passes the guards goes through and the monthly one
  -- raises, `update_leaderboard` raises, so that SQS delivers the event again; a later run in the
  -- same week that returns adds the amount to the weekly row once more, so that the row holds it
  -- twice.
  pub weekly_twice :
      (week month : Bucket) (x : Exn) (w v : World) (actions : List BucketAction)
      → scores m ≡ true
      → Breaks week x w
      → additions week (update_leaderboard env m w).1 ≤ additions week v
      → weekly_bucket (language_of m) (env.utc_now v.trace) ≡ ok week
      → monthly_bucket (language_of m) (env.utc_now v.trace) ≡ ok month
      → (update_leaderboard env m v).0 ≡ ok actions
      → ((update_leaderboard env m w).0 ≡ err x)
        × (2 + additions week w ≤ additions week (update_leaderboard env m v).1)
  weekly_twice week month x w v actions s b before e f returned =
      let (raised, once) = broken week x w s b in
      let again = writes_both week month v s e f in
      let start = emit read_clock v in
      elim (Result-cases (add_xp env week m.user_id m.amount start).0) [
        | inl (_, done) ↦
            (raised, rw (again) (omega (arith, both-adds week month start done, once, before)))
        | inr (y, fails) ↦ absurd (
            err-ok
              (sym (ap (λ o. o.0) (again ∙ ends_first env week month m start y fails)) ∙ returned))
      ]
