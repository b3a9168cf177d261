-- ===== src/Log/Install.antt =====
-- install_trans of project3_filesystem/log.c, on a disk whose log holds a whole transaction.
use ele3021_os.Prelude.{
  All, false, inr, inl, ◌∙◌, Bool-cases, ap, update, subst, true, ◌+◌, ◌≡◌, arith, ◌<◌, ℕ,
}
use ele3021_os.Outcome.{returns, gets, Cmd, Returns-mono, ◌>>=◌, ◌>>◌, Returns, each-Returns}
use ele3021_os.Log.{bwrite, set_data, bread, Block, Disk, Log, install_trans}
use ele3021_os.Log.Crash.{
  IsSafe, logged_step, within, is_home, logged, Transaction, IsTransaction, IsCommitted, Frame,
}

module _ (x : Transaction) (valid : IsTransaction x) where
  -- The first `i` blocks have been installed.
  pub record Installing (i : ℕ) (s : Log) : Type 0 where
    pub frame : Frame x s
    pub safe : All (IsSafe x) s.disks
    pub whole : IsCommitted x s.disk
    pub data_ : (j : ℕ) → j < x.n → s.cache (x.start + j + 1) ≡ x.new (x.blk j)
    pub done : (b : ℕ) → logged i x.blk b ≡ true → (s.disk b ≡ x.new b) × (s.cache b ≡ x.new b)
    pub same :
        (b : ℕ) → is_home x.start x.size b ≡ true → logged x.n x.blk b ≡ false → s.cache b ≡ x.new b

  IsCommitted-install :
      (d : Disk) (b : ℕ) (v : Block)
      → IsCommitted x d
      → is_home x.start x.size b ≡ true
      → v ≡ x.new b
      → IsCommitted x (update d b v)
  IsCommitted-install d b v w home e =
      let fits = valid.fits in
      record {
        number = ground (arith, w.number);
        blocks = λ i lt. ground (arith, w.blocks i lt);
        data_ = λ i lt. ground (arith, w.data_ i lt);
        rest = λ c h l. ground (arith, w.rest c h l);
      }

  abbrev body : ℕ → Cmd Log Unit
  body tail = do
    start ← gets (λ s. s.start)
    home ← gets (λ s. s.block tail)
    data_ ← bread (start + tail + 1)
    set_data home data_
    bwrite home

  step : (i : ℕ) (s : Log) → i < x.n → Installing i s → Returns (λ _. Installing (i + 1)) (body i s)
  step i s lt k =
      let fits = valid.fits in
      let b : ℕ = s.block i in
      let at : s.block i ≡ x.blk i = k.frame.blocks i lt in
      let home = valid.homes i lt in
      let v : Block = s.cache (s.start + i + 1) in
      let value : v ≡ x.new (x.blk i) =
        ap (λ a. s.cache (a + i + 1)) k.frame.start ∙ k.data_ i lt in
      let whole : IsCommitted x (update s.disk b (update s.cache b v b)) =
        IsCommitted-install s.disk b _ k.whole (ground arith) (ground arith) in
      returns (record {
        frame = record { start = k.frame.start; number = k.frame.number; blocks = k.frame.blocks };
        safe = (within whole, k.safe);
        whole = whole;
        data_ = λ j lt'. ground (arith, k.data_ j lt');
        done = λ c l. ground (arith, k.done c, logged_step i x.blk c);
        same = λ c h l. ground (arith, k.same c h l);
      })

  -- install_trans brings the whole transaction home, through disks that hold it in the log.
  pub install_trans-Installing :
      (s : Log) → Installing 0 s → Returns (λ _. Installing x.n) (install_trans s)
  unfolding install_trans
  install_trans-Installing s k =
      Returns-mono
        (each-Returns Installing s.n body (λ i t lt. step i t (omega (arith, k.frame.number))) s.n 0
          s (omega arith) k)
        (λ _ t done. subst (λ m. Installing m t) k.frame.number done)

  -- Then everything at home is new, on the disk and in the buffers.
  pub Installing-new :
      (s : Log)
      → Installing x.n s
      → (b : ℕ) → is_home x.start x.size b ≡ true
      → (s.disk b ≡ x.new b) × (s.cache b ≡ x.new b)
  Installing-new s k b home = elim (Bool-cases (logged x.n x.blk b)) [
    | inl e ↦ k.done b e
    | inr e ↦ (k.whole.rest b home e, k.same b home e)
  ]
