-- ===== src/Fs/Map.antt =====
-- The block map of project3_filesystem/fs.c: bmap and bmapstep.
pub mod Paths
pub mod Tree
pub mod Step
pub mod Grow
pub mod Chain
pub mod Bmap
pub mod Block
use ele3021_os.Prelude.{◌%◌, ◌/◌, ◌-◌, update, ltb, ◌==◌, if◌then◌else◌, ℕ}
use ele3021_os.Outcome.{Cmd, gets, pure, halt, each, ◌>>=◌, ◌>>◌}
use ele3021_os.Fs.State.{
  FileSystem, Inode, ndirect, nindirect, word_at, with_word, set_block, set_inode, log_block,
}
use ele3021_os.Fs.Bitmap.{balloc, bfree}

abbrev pub ndouble : ℕ
ndouble = 16384

abbrev pub ntriple : ℕ
ntriple = 2097152

-- The roots of the map of an inode: its `addrs`, then D_addr and T_addr.
abbrev pub root_of : Inode → ℕ → ℕ
root_of n r = if r == 11 then n.d_addr else if r == 12 then n.t_addr else n.addrs r

abbrev pub with_root : ℕ → ℕ → Inode → Inode
with_root r v n =
    if r == 11
    then record n { d_addr = v }
    else if r == 12
    then record n { t_addr = v }
    else record n { addrs = update n.addrs r v }

-- `a[idx] = v; log_write(bp)` in the buffer of `addr`
abbrev pub put_word : ℕ → ℕ → ℕ → Cmd FileSystem Unit
put_word addr idx v = do
  d ← gets (λ s. s.blocks addr)
  set_block addr (with_word d idx v)
  log_block addr

unfoldable pub bmapstep : ℕ → ℕ → Cmd FileSystem ℕ
bmapstep addr idx = do
  v ← gets (λ s. word_at (s.blocks addr) idx)
  if v == 0 then (do new ← balloc; put_word addr idx new; pure new) else pure v

-- `if ((addr = *root) == 0) *root = addr = balloc(ip->dev)`
unfoldable pub ensure_root : ℕ → ℕ → Cmd FileSystem ℕ
ensure_root ip r = do
  v ← gets (λ s. root_of (s.inodes ip) r)
  if v == 0 then (do new ← balloc; set_inode ip (with_root r new); pure new) else pure v

unfoldable pub bmap : ℕ → ℕ → Cmd FileSystem ℕ
bmap ip bn =
    if ltb bn ndirect
    then ensure_root ip bn
    else if ltb (bn - 10) nindirect
    then (do addr ← ensure_root ip 10; bmapstep addr (bn - 10))
    else if ltb (bn - 138) ndouble
    then (do
      addr ← ensure_root ip 11
      addr ← bmapstep addr ((bn - 138) / nindirect)
      bmapstep addr ((bn - 138) % nindirect))
    else if ltb (bn - 16522) ntriple
    then (do
      addr ← ensure_root ip 12
      addr ← bmapstep addr ((bn - 16522) / ndouble)
      addr ← bmapstep addr ((bn - 16522) % ndouble / nindirect)
      bmapstep addr ((bn - 16522) % ndouble % nindirect))
    else halt "bmap: out of range"
