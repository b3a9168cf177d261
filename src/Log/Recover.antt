-- ===== src/Log/Recover.antt =====
-- recover_from_log of project3_filesystem/log.c after a crash: all of a transaction or nothing of it.
use ele3021_os.Prelude.{
  inl, refl, arith, ap, ◌∷◌, inr, sym, update, ◌+◌, pos, true, All, subst, ◌⊎◌, [], ◌<◌, List, ◌∙◌,
  ℕ, ◌≡◌, false,
}
use ele3021_os.Outcome.{
  returns, modify, Returns-mono, each, Returns-bind, ◌>>◌, Returns, each-Returns,
}
use ele3021_os.Log.{
  head_words, Disk, Log, read_head, write_head, install_trans, recover_from_log, commit,
}
use ele3021_os.Log.Crash.{
  before, within, after, logged, Transaction, IsTransaction, IsCommitted, IsClean, IsSafe,
}
use ele3021_os.Log.Install.{Installing, install_trans-Installing}
use ele3021_os.Log.Commit.{write_at, IsPending, write_head-IsDone, commit-IsDone}

-- The machine at boot, when initlog has read the place of the log from the superblock of `d`.
abbrev pub boot : Transaction → Disk → Log
boot x d = record {
  disk = d;
  cache = d;
  dirty = λ b. false;
  disks = [];
  start = x.start;
  size = x.size;
  n = 0;
  block = λ i. 0;
  outstanding = pos 0;
  committing = false;
}

-- The log is empty, home holds all of the old or all of the new contents, and a crash on the way
-- would have left a safe disk again.
pub record IsRecovered (x : Transaction) (t : Log) : Type 0 where
  pub empty : t.n ≡ 0
  pub clean : IsClean x x.old t.disk ⊎ IsClean x x.new t.disk
  pub safe : All (IsSafe x) t.disks

module _ (x : Transaction) (valid : IsTransaction x) (d : Disk) where
  -- The first `i` block numbers have been read.
  record Reading (i : ℕ) (s : Log) : Type 0 where
    pub disk : s.disk ≡ d
    pub cache : s.cache ≡ d
    pub start : s.start ≡ x.start
    pub number : s.n ≡ x.n
    pub disks : s.disks ≡ []
    pub blocks : (j : ℕ) → j < i → s.block j ≡ d x.start (j + 1)

  read_head-Reading : d x.start 0 ≡ x.n → Returns (λ _. Reading x.n) (read_head (boot x d))
  unfolding read_head
  read_head-Reading number =
      let start : Log = record (boot x d) { n = d x.start 0 } in
      Returns-mono
        (each-Returns Reading (d x.start 0)
          (λ i. modify (λ s. record s { block = update s.block i (d x.start (i + 1)) }))
          (λ i t lt k. returns (record {
            disk = k.disk;
            cache = k.cache;
            start = k.start;
            number = k.number;
            disks = k.disks;
            blocks = λ j lt'. ground (arith, k.blocks j);
          }))
          (d x.start 0) 0 start (omega arith)
          (record {
            disk = refl;
            cache = refl;
            start = refl;
            number = number;
            disks = refl;
            blocks = λ j lt. absurd (omega arith);
          }))
        (λ _ t k. subst (λ m. Reading m t) number k)

  Reading-Installing : IsCommitted x d → (s : Log) → Reading x.n s → Installing x valid 0 s
  unfolding logged
  Reading-Installing w s k = record {
    frame = record {
      start = k.start;
      number = k.number;
      blocks = λ i lt. k.blocks i lt ∙ w.blocks i lt;
    };
    safe = subst (All (IsSafe x)) (sym k.disks) tt;
    whole = subst (IsCommitted x) (sym k.disk) w;
    data_ = λ j lt. ap (λ f. f (x.start + j + 1)) k.cache ∙ w.data_ j lt;
    done = λ b l. absurd (ground arith);
    same = λ b h l. ap (λ f. f b) k.cache ∙ w.rest b h l;
  }

  recover_whole : IsCommitted x d → Returns (λ _. IsRecovered x) (recover_from_log (boot x d))
  unfolding recover_from_log
  recover_whole w =
      Returns-bind {Q = λ _. IsRecovered x} (read_head (boot x d))
        (λ _. do install_trans; modify (λ s. record s { n = 0 }); write_head)
        (read_head-Reading w.number)
        (λ _ t k.
          Returns-bind {Q = λ _. IsRecovered x} (install_trans t) _
            (install_trans-Installing x valid t (Reading-Installing w t k))
            (λ _ u i. Returns-mono (write_head-IsDone x valid u i) (λ _ v done. record {
              empty = done.empty;
              clean = inr done.clean;
              safe = done.safe;
            })))

  -- With an empty log only the header is written.
  recover_clean :
      (v : Disk)
      → IsClean x v d
      → ((e : Disk) → IsClean x v e → IsSafe x e × (IsClean x x.old e ⊎ IsClean x x.new e))
      → Returns (λ _. IsRecovered x) (recover_from_log (boot x d))
  unfolding recover_from_log read_head install_trans write_head each
  recover_clean v c safe =
      let head = head_words 0 (λ i. 0) (d x.start) in
      let fits = valid.fits in
      let clean : IsClean x v (update d x.start (update d x.start head x.start)) = record {
        empty = ap (λ f. f 0) (write_at x valid d d x.start x.start head refl);
        home = λ b h. ground (arith, c.home b h);
      } in
      rw c.empty
        (returns (record { empty = refl; clean = (safe _ clean).1; safe = ((safe _ clean).0, tt) }))

  -- Recovery of a safe disk ends with an empty log and all of the transaction or nothing of it at
  -- home, and goes through safe disks only.
  pub recover_from_log-IsRecovered :
      IsSafe x d → Returns (λ _. IsRecovered x) (recover_from_log (boot x d))
  recover_from_log-IsRecovered (before c) = recover_clean x.old c (λ e k. (before k, inl k))
  recover_from_log-IsRecovered (within w) = recover_whole w
  recover_from_log-IsRecovered (after c) = recover_clean x.new c (λ e k. (after k, inr k))

-- After a crash with this disk recovery ends with all of the transaction or nothing of it.
abbrev pub Recovers : Transaction → Disk → Type 0
Recovers x d = Returns (λ _. IsRecovered x) (recover_from_log (boot x d))

All-recover :
    (x : Transaction) → IsTransaction x → (ds : List Disk) → All (IsSafe x) ds → All (Recovers x) ds
All-recover x valid [] h = tt
All-recover x valid (d ∷ ds) h =
    (recover_from_log-IsRecovered x valid d h.0, All-recover x valid ds h.1)

-- A commit of a pending transaction, `disks` counting from its start, returns, with an empty log and the new contents at home; and
-- from every disk that it has gone through, recovery after a crash ends with the old contents at
-- home, or with all of the new ones.
pub commit_crash :
    (x : Transaction) (s : Log)
    → IsTransaction x
    → 0 < x.n
    → IsPending x s
    → s.disks ≡ []
    → s.committing ≡ true
    → Returns (λ _ t. (t.n ≡ 0) × IsClean x x.new t.disk × All (Recovers x) t.disks) (commit s)
commit_crash x s valid some_ pending from committing =
    Returns-mono (commit-IsDone x valid s some_ pending from committing)
      (λ _ t done. (done.empty, done.clean, All-recover x valid t.disks done.safe))
