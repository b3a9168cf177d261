-- ===== src/Fs/Map/Block.antt =====
-- bmap of project3_filesystem/fs.c seen from the blocks of a file.
use ele3021_os.Fs.Map.Chain.{same_place-eq, IsOther}
use ele3021_os.Fs.Bitmap.{is_used}
use ele3021_os.Outcome.{Returns-mono, Returns, panic}
use ele3021_os.Fs.Map.Bmap.{bmap-At, OthersKept, At}
use ele3021_os.Fs.Map.Paths.{
  block_places, same_place, full_block, IsPlace-block, indices_of_block, root_of_block, address,
  maxfile,
}
use ele3021_os.Fs.Map.Tree.{free_count, IsTree}
use ele3021_os.Fs.Map.{ntriple, ndouble, bmap}
use ele3021_os.Fs.State.{nindirect, ndirect, Inode, FileSystem}
use ele3021_os.Prelude.{
  length, inl, inr, refl, Bool-cases, ◌+◌, ◌-◌, arith, ◌∙◌, sym, true, ltb, false, ◌==◌, ◌≤◌, ◌≡◌,
  ◌<◌, ℕ,
}

-- The disk block that holds block `bn` of the file, 0 if none does.
abbrev pub block_address : FileSystem → Inode → ℕ → ℕ
block_address s n bn = address s n (root_of_block bn) (indices_of_block bn)

-- What bmap does for block `bn` of the file of inode `ip`: it returns `a`.
pub record Mapped (s : FileSystem) (ip bn a : ℕ) (t : FileSystem) : Type 0 where
  pub tree : IsTree t (t.inodes ip)
  pub mapped : block_address t (t.inodes ip) bn ≡ a
  pub real : (a == 0) ≡ false
  pub kept : (block_address s (s.inodes ip) bn == 0) ≡ false → a ≡ block_address s (s.inodes ip) bn
  pub fresh : (block_address s (s.inodes ip) bn == 0) ≡ true → is_used s a ≡ false
  pub others :
      (bm : ℕ)
      → bm < maxfile
      → (bm == bn) ≡ false
      → block_address t (t.inodes ip) bm ≡ block_address s (s.inodes ip) bm
  pub blocks : (c : ℕ) → IsOther s (s.inodes ip) c → t.blocks c ≡ s.blocks c
  pub inodes : OthersKept ip s t
  pub free : free_count s ≤ free_count t + 4

At-Mapped :
    (s : FileSystem) (ip bn a : ℕ) (t : FileSystem)
    → bn < maxfile
    → At s ip (root_of_block bn) (indices_of_block bn) a t
    → Mapped s ip bn a t
At-Mapped s ip bn a t lt (g, others) = record {
  tree = g.tree;
  mapped = g.here;
  real = g.real;
  kept = λ real.
      sym g.here ∙ g.kept (root_of_block bn) (indices_of_block bn) (IsPlace-block bn lt) real;
  fresh = g.fresh;
  others = λ bm lt' off.
      g.leaves (root_of_block bm) (indices_of_block bm) (IsPlace-block bm lt') (full_block bm lt')
        (elim (Bool-cases (
          same_place (root_of_block bm) (indices_of_block bm) (root_of_block bn)
            (indices_of_block bn))) [
              | inr e ↦ e
              | inl e ↦
                  let (er, ei) =
                    same_place-eq (root_of_block bm) (indices_of_block bm) (root_of_block bn)
                      (indices_of_block bn) e in
                  let same : bm ≡ bn = block_places bm bn lt' lt er ei in
                  absurd (ground (arith, same, off))
            ]);
  blocks = g.blocks;
  inodes = others;
  free = let few : length (indices_of_block bn) ≤ 3 = ground arith in omega (arith, g.free, few);
}

module _ (s : FileSystem) (ip : ℕ) (tree : IsTree s (s.inodes ip)) (room : 4 ≤ free_count s)
    (bn : ℕ) where
  -- When no block of the file of inode `ip` is at two places, four blocks are free and `bn` is below
  -- MAXFILE, bmap returns the disk block of block `bn`: the one it had, else one that was free. The
  -- file's map stays a tree without sharing, each other block of the file keeps its address, and
  -- the other inodes and every block in use but those of the free map and of the file's addresses
  -- keep their contents.
  pub bmap-Mapped : bn < maxfile → Returns (Mapped s ip bn) (bmap ip bn s)
  bmap-Mapped lt = Returns-mono (bmap-At s ip tree room bn lt) (λ a t g. At-Mapped s ip bn a t lt g)

-- bmap panics on a block at or past MAXFILE.
pub bmap_range :
    (s : FileSystem) (ip bn : ℕ) → maxfile ≤ bn → bmap ip bn s ≡ panic "bmap: out of range"
unfolding bmap
bmap_range s ip bn le =
    let a : ltb bn ndirect ≡ false = ground arith in
    let b : ltb (bn - 10) nindirect ≡ false = ground arith in
    let c : ltb (bn - 138) ndouble ≡ false = ground arith in
    let d : ltb (bn - 16522) ntriple ≡ false = ground arith in rw (a, b, c, d) refl
