-- ===== src/Log.antt =====
-- project3_filesystem/log.c: the redo log of disk blocks, over a disk and the contents of the buffer
-- cache. A block is read as BSIZE / 4 words. `disks` are the contents that the disk has gone
-- through, the last first, so that a crash can be placed between any two writes.
pub mod Crash
pub mod Install
pub mod Commit
pub mod Recover
pub mod Write
pub mod Sync
pub mod Examples
use ele3021_os.Outcome.{◌>>=◌, ◌>>◌, pure, halt, gets, modify, Cmd, each}
use ele3021_os.Prelude.{
  none, some, ◌||◌, false, ℤ, leb, ◌==◌, true, pos, ◌+ℤ◌, not, ltb, ◌∷◌, List, Option, ◌-ℤ◌,
  if◌then◌else◌, ◌+◌, update, Bool, suc, ℕ, zero,
}

abbrev pub Block : Type 0
Block = ℕ → ℕ

abbrev pub Disk : Type 0
Disk = ℕ → Block

-- LOGSIZE of param.h
abbrev pub logsize : ℕ
logsize = 52

-- `struct log` with its header, the disk, and the buffers: `cache b` is what bread(b) returns, and
-- `dirty b` says whether B_DIRTY keeps it there.
pub record Log : Type 0 where
  pub disk : Disk
  pub cache : Disk
  pub dirty : ℕ → Bool
  pub disks : List Disk
  pub start : ℕ
  pub size : ℕ
  pub n : ℕ
  pub block : ℕ → ℕ
  pub outstanding : ℤ
  pub committing : Bool

abbrev pub bread : ℕ → Cmd Log Block
bread b = gets (λ s. s.cache b)

-- A write into the data of the buffer of `b`.
abbrev pub set_data : ℕ → Block → Cmd Log Unit
set_data b v = modify (λ s. record s { cache = update s.cache b v })

-- bwrite of bio.c: iderw writes the buffer and clears B_DIRTY.
abbrev pub bwrite : ℕ → Cmd Log Unit
bwrite b = modify (λ s. record s {
  disk = update s.disk b (s.cache b);
  disks = update s.disk b (s.cache b) ∷ s.disks;
  dirty = update s.dirty b false;
})

unfoldable pub install_trans : Cmd Log Unit
install_trans = do
  n ← gets (λ s. s.n)
  each n 0 (λ tail. do
    start ← gets (λ s. s.start)
    home ← gets (λ s. s.block tail)
    data_ ← bread (start + tail + 1)
    set_data home data_
    bwrite home)

unfoldable pub read_head : Cmd Log Unit
read_head = do
  start ← gets (λ s. s.start)
  head ← bread start
  modify (λ s. record s { n = head 0 })
  n ← gets (λ s. s.n)
  each n 0 (λ i. modify (λ s. record s { block = update s.block i (head (i + 1)) }))

-- The header as words: the number of blocks, then the blocks.
abbrev pub head_words : ℕ → (ℕ → ℕ) → Block → Block
head_words n block buf zero = n
head_words n block buf (suc i) = if ltb i n then block i else buf (suc i)

unfoldable pub write_head : Cmd Log Unit
write_head = do
  start ← gets (λ s. s.start)
  buf ← bread start
  n ← gets (λ s. s.n)
  block ← gets (λ s. s.block)
  set_data start (head_words n block buf)
  bwrite start

unfoldable pub recover_from_log : Cmd Log Unit
recover_from_log = do read_head; install_trans; modify (λ s. record s { n = 0 }); write_head

unfoldable pub write_log : Cmd Log Unit
write_log = do
  n ← gets (λ s. s.n)
  each n 0 (λ tail. do
    start ← gets (λ s. s.start)
    home ← gets (λ s. s.block tail)
    data_ ← bread home
    set_data (start + tail + 1) data_
    bwrite (start + tail + 1))

unfoldable pub commit : Cmd Log Unit
commit = do
  committing ← gets (λ s. s.committing)
  n ← gets (λ s. s.n)
  if not committing
      then halt "in commit, log.committing 0"
      else if ltb 0 n
      then (do write_log; write_head; install_trans; modify (λ s. record s { n = 0 }); write_head)
      else pure tt

-- What an attempt comes to where it may have to sleep on the log.
pub data Entered : Type 0 where
  entered : Entered
  sleeps : Entered

unfoldable pub begin_op : Cmd Log Entered
begin_op = do
  committing ← gets (λ s. s.committing)
  if committing
      then pure sleeps
      else do modify (λ s. record s { outstanding = s.outstanding +ℤ pos 1 }); pure entered

-- Up to the first sleep: a commit in progress is waited for.
unfoldable pub end_op : Cmd Log Entered
end_op = do
  modify (λ s. record s { outstanding = s.outstanding -ℤ pos 1 })
  committing ← gets (λ s. s.committing)
  pure (if committing then sleeps else entered)

-- The branch `check` of sync1, which bget takes in any case, and sys_sync when no commit is in
-- progress; -1 is `none`.
unfoldable pub sync1 : Cmd Log (Option ℕ)
sync1 = do
  modify (λ s. record s { committing = true })
  n ← gets (λ s. s.n)
  commit
  modify (λ s. record s { committing = false })
  left ← gets (λ s. s.n)
  pure (if left == 0 then some n else none)

-- The position of a block among the logged ones, or their number.
unfoldable pub absorb : ℕ → ℕ → (ℕ → ℕ) → ℕ → ℕ
absorb zero i block b = i
absorb (suc k) i block b = let rest = absorb k (i + 1) block b in if block i == b then i else rest

unfoldable pub log_write : ℕ → Cmd Log Unit
log_write b = do
  n ← gets (λ s. s.n)
  size ← gets (λ s. s.size)
  if leb logsize n || leb size (n + 1) then halt "too big a transaction" else do
    i ← gets (λ s. absorb n 0 s.block b)
    modify (λ s. record s {
      block = update s.block i b;
      n = if i == n then n + 1 else n;
      dirty = update s.dirty b true;
    })
