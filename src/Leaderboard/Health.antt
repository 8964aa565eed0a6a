-- ===== src/Leaderboard/Health.antt =====
-- app/leaderboard/updater.py while its table takes every write and the clock reads a calendar time.
use lingo_async.Prelude.{◌≡◌, refl, String, not, List, [], ◌∷◌, arith}
use lingo_async.Prelude.Int.{ℤ, pos, leb_ℤ}
use lingo_async.Python.Exn.{ok}
use lingo_async.Python.Text.{is_empty}
use lingo_async.World.{Env, M, DateTime, pure, lift, ◌>>=◌, ◌>>◌}
use lingo_async.World.Succeeds.{
  Succeeds, Succeeds-pure, Succeeds-lift, Succeeds-bind, Succeeds-if, Any,
}
use lingo_async.Client.Health.{IsHealthy, IsUp}
use lingo_async.Contracts.Messages.{XpAwarded}
use lingo_async.Leaderboard.{
  Bucket, BucketAction, action, weekly, monthly, row, now, weekly_bucket, monthly_bucket,
  write_buckets, add_xp, language_of, update_leaderboard,
}
use lingo_async.Leaderboard.Expiry.{weekly_bucket-Outlives, monthly_bucket-Outlives}

-- Both buckets can be made at the time.
record HasBuckets (lang : String) (t : DateTime) : Type 0 where
  pub week : Bucket
  pub week_made : weekly_bucket lang t ≡ ok week
  pub month : Bucket
  pub month_made : monthly_bucket lang t ≡ ok month

module _ (env : Env) (healthy : IsHealthy env) where
  now-Succeeds : (lang : String) → Succeeds IsUp (HasBuckets lang) (now env)
  unfolding Succeeds now
  now-Succeeds lang w up =
      let t = env.utc_now w.trace in
      let week = weekly_bucket-Outlives lang t (healthy.clock w.trace) (healthy.year w.trace) in
      let month = monthly_bucket-Outlives lang t (healthy.clock w.trace) (healthy.year w.trace) in
      record {
        value = t;
        returned = refl;
        good = record {
          week = week.bucket;
          week_made = week.made;
          month = month.bucket;
          month_made = month.made;
        };
        after = up;
      }

  add_xp-Succeeds :
      (b : Bucket) (u : String) (amount : ℤ) → Succeeds IsUp Any (add_xp env b u amount)
  unfolding Succeeds add_xp
  add_xp-Succeeds b u amount w up =
      let wrote = healthy.writes w.trace (row env b u amount) in
      let same : (add_xp env b u amount w).1.breaker ≡ w.breaker = ground arith in
      record { value = tt; returned = ground (arith, wrote); good = tt; after = rw (same) up }

  abbrev written : XpAwarded → Bucket → Bucket → List BucketAction
  written m week month = action week m.amount weekly ∷ action month m.amount monthly ∷ []

  abbrev write_both : XpAwarded → Bucket → Bucket → M (List BucketAction)
  write_both m week month = do
    add_xp env week m.user_id m.amount
    add_xp env month m.user_id m.amount
    pure (written m week month)

  write_both-Succeeds :
      (m : XpAwarded) (week month : Bucket) → Succeeds IsUp Any (write_both m week month)
  write_both-Succeeds m week month =
      Succeeds-bind IsUp Any Any _ _ (add_xp-Succeeds week m.user_id m.amount) λ _ _.
        Succeeds-bind IsUp Any Any _ _ (add_xp-Succeeds month m.user_id m.amount)
          λ _ _. Succeeds-pure IsUp Any (written m week month) tt

  abbrev write_at : String → XpAwarded → DateTime → M (List BucketAction)
  write_at lang m t = do
    week ← lift (weekly_bucket lang t)
    month ← lift (monthly_bucket lang t)
    write_both m week month

  write_at-Succeeds :
      (lang : String) (m : XpAwarded) (t : DateTime)
      → HasBuckets lang t
      → Succeeds IsUp Any (write_at lang m t)
  write_at-Succeeds lang m t b =
      Succeeds-bind IsUp Any Any _ _
        (Succeeds-lift IsUp Any (weekly_bucket lang t) b.week b.week_made tt)
        λ week _.
          Succeeds-bind IsUp Any Any _ (write_both m week)
            (Succeeds-lift IsUp Any (monthly_bucket lang t) b.month b.month_made tt)
            λ month _. write_both-Succeeds m week month

  write_buckets-Succeeds :
      (lang : String) (m : XpAwarded) → Succeeds IsUp Any (write_buckets env lang m)
  unfolding write_buckets
  write_buckets-Succeeds lang m =
      Succeeds-bind IsUp Any (HasBuckets lang) _ (write_at lang m) (now-Succeeds lang)
        (write_at-Succeeds lang m)

  pub update_leaderboard-Succeeds : (m : XpAwarded) → Succeeds IsUp Any (update_leaderboard env m)
  unfolding update_leaderboard
  update_leaderboard-Succeeds m =
      let nothing = Succeeds-pure IsUp {A = List BucketAction} Any [] tt in
      Succeeds-if IsUp Any (leb_ℤ m.amount (pos 0)) _ _ (λ _. nothing)
        (λ _.
          Succeeds-if IsUp Any (not m.leaderboard_opt_in) _ _ (λ _. nothing)
            (λ _.
              Succeeds-if IsUp Any (is_empty (language_of m)) _ _ (λ _. nothing)
                (λ _. write_buckets-Succeeds (language_of m) m)))
