-- ===== src/Log/Commit.antt =====
-- commit of project3_filesystem/log.c: the log, its header, the homes, and the header again.
use ele3021_os.Prelude.{
  [], refl, sym, lt→ltb, subst, ◌∙◌, false, ltb, arith, ap, ◌==◌, All, update, ◌+◌, true, ◌<◌, ◌≡◌,
  ℕ,
}
use native.Mathlib.Numerals.{add-one}
use ele3021_os.Outcome.{
  modify, Returns-bind, returns, gets, Returns-mono, Cmd, ◌>>=◌, ◌>>◌, Returns, each-Returns,
}
use ele3021_os.Log.{
  bwrite, install_trans, set_data, bread, head_words, Block, Disk, Log, write_log, write_head,
  commit,
}
use ele3021_os.Log.Crash.{
  after, within, before, IsSafe, is_home, logged, Transaction, IsTransaction, IsCommitted, IsClean,
  Frame,
}
use ele3021_os.Log.Install.{Installing, install_trans-Installing, Installing-new}

-- Before the commit: the transaction is in memory and in the buffers, and the disk is old.
pub record IsPending (x : Transaction) (s : Log) : Type 0 where
  pub frame : Frame x s
  pub clean : IsClean x x.old s.disk
  pub cached : (b : ℕ) → is_home x.start x.size b ≡ true → s.cache b ≡ x.new b

-- After it: the log is empty, the disk and the buffers are new, and every disk on the way was safe.
pub record IsDone (x : Transaction) (t : Log) : Type 0 where
  pub empty : t.n ≡ 0
  pub start : t.start ≡ x.start
  pub clean : IsClean x x.new t.disk
  pub cached : (b : ℕ) → is_home x.start x.size b ≡ true → t.cache b ≡ x.new b
  pub safe : All (IsSafe x) t.disks

module _ (x : Transaction) (valid : IsTransaction x) where
  -- The first `i` blocks have been copied to the log.
  record Writing (i : ℕ) (s : Log) : Type 0 where
    pub pending : IsPending x s
    pub safe : All (IsSafe x) s.disks
    pub data_ :
        (j : ℕ)
        → j < i
        → (s.disk (x.start + j + 1) ≡ x.new (x.blk j))
          × (s.cache (x.start + j + 1) ≡ x.new (x.blk j))

  abbrev body : ℕ → Cmd Log Unit
  body tail = do
    start ← gets (λ s. s.start)
    home ← gets (λ s. s.block tail)
    data_ ← bread home
    set_data (start + tail + 1) data_
    bwrite (start + tail + 1)

  -- A write into the log behind the header leaves a disk clean.
  IsClean-log :
      (v d : Disk) (b : ℕ) (w : Block)
      → IsClean x v d
      → (b == x.start) ≡ false
      → is_home x.start x.size b ≡ false
      → IsClean x v (update d b w)
  IsClean-log v d b w c apart away = record {
    empty = ground (arith, c.empty);
    home = λ e h. ground (arith, c.home e h);
  }

  step : (i : ℕ) (s : Log) → i < x.n → Writing i s → Returns (λ _. Writing (i + 1)) (body i s)
  step i s lt k =
      let fits = valid.fits in
      let p = k.pending in
      let start : s.start ≡ x.start = p.frame.start in
      let value : s.cache (s.block i) ≡ x.new (x.blk i) =
        ap s.cache (p.frame.blocks i lt) ∙ p.cached (x.blk i) (valid.homes i lt) in
      let clean : IsClean x x.old (
          update s.disk (s.start + i + 1)
            (update s.cache (s.start + i + 1) (s.cache (s.block i)) (s.start + i + 1))) =
        IsClean-log x.old s.disk _ _ p.clean (ground arith) (ground arith) in
      returns (record {
        pending = record {
          frame = record { start = start; number = p.frame.number; blocks = p.frame.blocks };
          clean = clean;
          cached = λ b h. ground (arith, p.cached b h);
        };
        safe = (before clean, k.safe);
        data_ = λ j lt'. ground (arith, k.data_ j);
      })

  write_log-Writing : (s : Log) → Writing 0 s → Returns (λ _. Writing x.n) (write_log s)
  unfolding write_log
  write_log-Writing s k =
      let number : s.n ≡ x.n = k.pending.frame.number in
      Returns-mono
        (each-Returns Writing s.n body (λ i t lt. step i t (omega arith)) s.n 0 s (omega arith) k)
        (λ _ t done. subst (λ m. Writing m t) number done)

  -- What writing the buffer of `a` leaves there.
  pub write_at : (d c : Disk) (a b : ℕ) (w : Block) → b ≡ a → update d a (update c a w a) b ≡ w
  write_at d c a b w e = ground arith

  head_words-block :
      (n : ℕ) (block : ℕ → ℕ) (buf : Block) (i : ℕ)
      → i < n
      → head_words n block buf (i + 1) ≡ block i
  head_words-block n block buf i lt = rw (add-one i, lt→ltb i n lt) refl

  -- The header is what commits.
  write_head-Installing :
      (s : Log) → Writing x.n s → Returns (λ _. Installing x valid 0) (write_head s)
  unfolding write_head logged
  write_head-Installing s k =
      let fits = valid.fits in
      let p = k.pending in
      let start : s.start ≡ x.start = p.frame.start in
      let number : s.n ≡ x.n = p.frame.number in
      let head = head_words s.n s.block (s.cache s.start) in
      let at = write_at s.disk s.cache s.start x.start head (sym start) in
      let whole : IsCommitted x (
          update s.disk s.start
            (update s.cache s.start (head_words s.n s.block (s.cache s.start)) s.start)) =
        record {
          number = ap (λ f. f 0) at ∙ number;
          blocks = λ i lt.
              ap (λ f. f (i + 1)) at
              ∙ head_words-block s.n s.block (s.cache s.start) i (omega arith)
              ∙ p.frame.blocks i lt;
          data_ = λ i lt. ground (arith, k.data_ i lt);
          rest = λ b h l. ground (arith, p.clean.home b h, valid.kept b h l);
        } in
      returns (record {
        frame = record { start = start; number = number; blocks = p.frame.blocks };
        safe = (within whole, k.safe);
        whole = whole;
        data_ = λ j lt. ground (arith, k.data_ j lt);
        done = λ b l. absurd (ground arith);
        same = λ b h l. ground (arith, p.cached b h);
      })

  pub write_head-IsDone :
      (s : Log)
      → Installing x valid x.n s
      → Returns (λ _. IsDone x) (write_head (record s { n = 0 }))
  unfolding write_head
  write_head-IsDone s k =
      let fits = valid.fits in
      let start : s.start ≡ x.start = k.frame.start in
      let clean : IsClean x x.new (
          update s.disk s.start
            (update s.cache s.start (head_words 0 s.block (s.cache s.start)) s.start)) =
        record {
          empty =
              ap (λ f. f 0)
                (write_at s.disk s.cache s.start x.start (head_words 0 s.block (s.cache s.start))
                  (sym start));
          home = λ b h. ground (arith, Installing-new x valid s k b h);
        } in
      returns (record {
        empty = refl;
        start = start;
        clean = clean;
        cached = λ b h. ground (arith, Installing-new x valid s k b h);
        safe = (after clean, k.safe);
      })

  -- A commit of a pending transaction makes the disk new and empties the log; every disk on the way
  -- holds the old contents, the whole transaction in the log, or the new contents.
  pub commit-IsDone :
      (s : Log)
      → 0 < x.n
      → IsPending x s
      → s.disks ≡ []
      → s.committing ≡ true
      → Returns (λ _. IsDone x) (commit s)
  unfolding commit
  commit-IsDone s some_ pending from committing =
      let number : s.n ≡ x.n = pending.frame.number in
      let busy : ltb 0 s.n ≡ true = ground arith in
      let run =
        Returns-bind (write_log s)
          (λ _. do write_head; install_trans; modify (λ k. record k { n = 0 }); write_head)
          (write_log-Writing s (record {
            pending = pending;
            safe = subst (All (IsSafe x)) (sym from) tt;
            data_ = λ j lt. absurd (omega arith);
          }))
          (λ _ t k.
            Returns-bind {Q = λ _. IsDone x} (write_head t) _ (write_head-Installing t k) (λ _ u i.
              Returns-bind {Q = λ _. IsDone x} (install_trans u) _
                (install_trans-Installing x valid u i) (λ _ w j. write_head-IsDone w j))) in
      simp (committing, busy) run
