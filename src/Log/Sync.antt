-- ===== src/Log/Sync.antt =====
-- sync1 of project3_filesystem/log.c: what it commits, and the state for the next transaction.
use ele3021_os.Prelude.{
  inr, ==_iff, inl, arith, ap, Bool-cases, ◌==◌, ltb, ◌∙◌, refl, ◌<◌, some, true, sym, ℕ, [], false,
  ◌≡◌,
}
use ele3021_os.Outcome.{Returns, returns, Returns-bind}
use ele3021_os.Log.{Log, commit, sync1}
use ele3021_os.Log.Crash.{is_home, logged, Transaction, IsTransaction}
use ele3021_os.Log.Commit.{IsPending, IsDone, commit-IsDone}

-- The empty transaction on top of `x`.
abbrev pub emptied : Transaction → Log → Transaction
emptied x t = record {
  start = x.start;
  size = x.size;
  n = 0;
  blk = t.block;
  old = x.new;
  new = x.new;
}

-- The pending transaction has been committed, and an empty one is pending.
pub record Synced (x : Transaction) (t : Log) : Type 0 where
  pub pending : IsPending (emptied x t) t
  pub idle : t.committing ≡ false

module _ (x : Transaction) (s : Log) (valid : IsTransaction x) (pending : IsPending x s)
    (from : s.disks ≡ []) where
  -- Without a logged block the new contents are the old ones.
  nothing : x.n ≡ 0 → (b : ℕ) → is_home x.start x.size b ≡ true → s.disk b ≡ x.new b
  unfolding logged
  nothing none_ b home =
      pending.clean.home b home ∙ sym (valid.kept b home (ap (λ n. logged n x.blk b) none_))

  Synced-nothing : s.n ≡ 0 → Synced x (record s { committing = false })
  Synced-nothing e = record {
    pending = record {
      frame = record { start = pending.frame.start; number = e; blocks = λ i lt. refl };
      clean = record { empty = pending.clean.empty; home = nothing (sym pending.frame.number ∙ e) };
      cached = pending.cached;
    };
    idle = refl;
  }

  Synced-done : (t : Log) → IsDone x t → Synced x (record t { committing = false })
  Synced-done t done = record {
    pending = record {
      frame = record { start = done.start; number = done.empty; blocks = λ i lt. refl };
      clean = record { empty = done.clean.empty; home = done.clean.home };
      cached = done.cached;
    };
    idle = refl;
  }

  started : IsPending x (record s { committing = true })
  started = record {
    frame = record {
      start = pending.frame.start;
      number = pending.frame.number;
      blocks = pending.frame.blocks;
    };
    clean = pending.clean;
    cached = pending.cached;
  }

  idle : s.n ≡ 0 → Returns (λ r t. (r ≡ some x.n) × Synced x t) (sync1 s)
  unfolding commit sync1
  idle e =
      let low : ltb 0 s.n ≡ false = ground arith in
      let zero_ : (s.n == 0) ≡ true = ground arith in
      simp (low, zero_) (returns (ap some pending.frame.number, Synced-nothing e))

  busy : 0 < x.n → Returns (λ r t. (r ≡ some x.n) × Synced x t) (sync1 s)
  unfolding sync1
  busy some_ =
      Returns-bind (commit (record s { committing = true })) _
        (commit-IsDone x valid (record s { committing = true }) some_ started from refl)
        (λ _ t done.
          let zero_ : (t.n == 0) ≡ true = ground (arith, done.empty) in
          rw zero_ (returns (ap some pending.frame.number, Synced-done t done)))

  -- sync1 returns the number of blocks that were logged, and leaves an empty transaction pending on
  -- a disk that holds the new contents, with no commit in progress.
  pub sync1-Synced : Returns (λ r t. (r ≡ some x.n) × Synced x t) (sync1 s)
  sync1-Synced = elim (Bool-cases (s.n == 0)) [
    | inl e ↦ idle ((==_iff s.n 0).0 e)
    | inr e ↦ busy (ground (arith, pending.frame.number))
  ]
