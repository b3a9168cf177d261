-- ===== src/Fs/Inodes.antt =====
-- Inodes on disk and in memory: ialloc, iupdate, iget, idup and ilock of project3_filesystem/fs.c. A
-- short is its 16 bits. Inodes are named by their index in icache.inode, so never NULL.
pub mod Words
pub mod Dinode
pub mod Update
pub mod Get
pub mod Create
use ele3021_os.Fs.State.{
  log_block, word_at, set_block, with_word, set_inode, Inode, Bytes, FileSystem,
}
use ele3021_os.Mlfq.Kernel.{scan}
use ele3021_os.Prelude.{
  true, ltb, zero, none, ◌&&◌, ◌%◌, not, ◌==◌, ◌+◌, suc, some, ◌-◌, false, Bool, if◌then◌else◌, ◌*◌,
  ◌/◌, ℕ,
}
use ele3021_os.Outcome.{panic, pure, halt, gets, Cmd, ◌>>=◌, ◌>>◌}

abbrev pub ninode : ℕ
ninode = 50

-- IPB
abbrev pub ipb : ℕ
ipb = 8

-- IBLOCK
abbrev pub iblock : FileSystem → ℕ → ℕ
iblock s i = i / ipb + s.inodestart

-- `((ushort*)data)[k]`
abbrev pub half_at : Bytes → ℕ → ℕ
half_at d k = d (2 * k) + 256 * d (2 * k + 1)

abbrev pub with_half : Bytes → ℕ → ℕ → Bytes
with_half d k v j = if j == 2 * k then v % 256 else if j == 2 * k + 1 then v / 256 % 256 else d j

-- `memmove((uint*)data + w, f, n * sizeof(uint))`
unfoldable pub with_words : Bytes → ℕ → ℕ → (ℕ → ℕ) → Bytes
with_words d w zero f = d
with_words d w (suc n) f = with_word (with_words d w n f) (w + n) (f n)

-- The 16 words of the struct dinode of a slot, from an inode and into one.
unfoldable pub put_dinode : Bytes → ℕ → Inode → Bytes
put_dinode d slot n =
    let halves =
      with_half
        (with_half (with_half (with_half d (32 * slot) n.kind) (32 * slot + 1) n.major)
          (32 * slot + 2) n.minor)
        (32 * slot + 3) n.nlink in
    let addrs = with_words (with_word halves (16 * slot + 2) n.size) (16 * slot + 3) 11 n.addrs in
    with_word (with_word addrs (16 * slot + 14) n.d_addr) (16 * slot + 15) n.t_addr

abbrev pub get_dinode : Bytes → ℕ → Inode → Inode
get_dinode d slot n = record n {
  kind = half_at d (32 * slot);
  major = half_at d (32 * slot + 1);
  minor = half_at d (32 * slot + 2);
  nlink = half_at d (32 * slot + 3);
  size = word_at d (16 * slot + 2);
  addrs = λ i. if ltb i 11 then word_at d (16 * slot + 3 + i) else n.addrs i;
  d_addr = word_at d (16 * slot + 14);
  t_addr = word_at d (16 * slot + 15);
}

unfoldable pub iupdate : ℕ → Cmd FileSystem Unit
iupdate ip = do
  n ← gets (λ s. s.inodes ip)
  b ← gets (λ s. iblock s n.inum)
  d ← gets (λ s. s.blocks b)
  set_block b (put_dinode d (n.inum % ipb) n)
  log_block b

unfoldable pub ilock : ℕ → Cmd FileSystem Unit
ilock ip = do
  n ← gets (λ s. s.inodes ip)
  if n.ref == 0 then halt "ilock" else if n.valid then pure tt else (do
    d ← gets (λ s. s.blocks (iblock s n.inum))
    set_inode ip (λ n. record (get_dinode d (n.inum % ipb) n) { valid = true })
    kind ← gets (λ s. (s.inodes ip).kind)
    if kind == 0 then halt "ilock: no type" else pure tt)

abbrev pub is_cached : FileSystem → ℕ → ℕ → Bool
is_cached s inum i = not ((s.inodes i).ref == 0) && ((s.inodes i).inum == inum)

abbrev pub claimed : ℕ → Inode → Inode
claimed inum n = record n { inum = inum; ref = 1; valid = false }

unfoldable pub iget : ℕ → Cmd FileSystem ℕ
iget inum s = elim (scan ninode 0 (is_cached s inum)) [
  | some i ↦ (do set_inode i (λ n. record n { ref = n.ref + 1 }); pure i) s
  | none ↦ elim (scan ninode 0 (λ i. (s.inodes i).ref == 0)) [
    | none ↦ panic "iget: no inodes"
    | some i ↦ (do set_inode i (claimed inum); pure i) s
  ]
]

unfoldable pub idup : ℕ → Cmd FileSystem ℕ
idup ip = do set_inode ip (λ n. record n { ref = n.ref + 1 }); pure ip

-- `memset(dip, 0, sizeof(*dip))`
abbrev pub zero_dinode : Bytes → ℕ → Bytes
zero_dinode d slot j = if j / 64 == slot then 0 else d j

unfoldable pub ialloc : ℕ → Cmd FileSystem ℕ
ialloc kind s =
    elim (scan (s.ninodes - 1) 1 (λ i. half_at (s.blocks (iblock s i)) (32 * (i % ipb)) == 0)) [
      | none ↦ panic "ialloc: no inodes"
      | some inum ↦
          (do
            d ← gets (λ s. s.blocks (iblock s inum))
            set_block (iblock s inum)
                (with_half (zero_dinode d (inum % ipb)) (32 * (inum % ipb)) kind)
            log_block (iblock s inum)
            iget inum)
            s
    ]
