-- ===== src/Fs/Examples.antt =====
-- A disk of twelve blocks for the functions of project3_filesystem/fs.c: block 2 is the free map,
-- blocks 0 to 3 are in use, and block 3 is the first block of the file of inode 1.
pub mod Inodes
pub mod Content
use ele3021_os.Fs.Bitmap.Alloc.{balloc-Allocated, Allocated, balloc_full}
use ele3021_os.Fs.Map.Block.{bmap_range, bmap-Mapped, Mapped}
use ele3021_os.Fs.Bitmap.Free.{bfree-balloc, bfree-Freed, Freed}
use ele3021_os.Fs.Map.Tree.{free_count, IsTree}
use ele3021_os.Fs.Map.{bmap}
use ele3021_os.Outcome.{◌>>=◌, panic, Returns}
use ele3021_os.Fs.Map.Paths.{IsPlace, address}
use ele3021_os.Fs.Bitmap.{bfree, zeros, is_used, bblock, balloc, IsFormatted}
use ele3021_os.Fs.State.{FileSystem, Inode, Bytes}
use ele3021_os.Prelude.{
  count, inl, ◌∙◌, inr, sym, zero, ap, Bool-cases, ◌∷◌, refl, suc, ◌≤◌, false, ◌≡◌, length, ◌==◌,
  arith, [], true, if◌then◌else◌, List, ◌<◌, ℕ,
}

abbrev map_bytes : Bytes
map_bytes i = if i == 0 then 15 else 0

abbrev disk : ℕ → Bytes
disk b = if b == 2 then map_bytes else zeros

abbrev pub file_inode : Inode
file_inode = record {
  inum = 1;
  ref = 1;
  valid = true;
  kind = 2;
  major = 0;
  minor = 0;
  nlink = 1;
  size = 512;
  addrs = λ i. if i == 0 then 3 else 0;
  d_addr = 0;
  t_addr = 0;
}

-- An entry that nobody refers to.
abbrev pub free_inode : Inode
free_inode = record file_inode { inum = 0; ref = 0; valid = false }

abbrev pub small_disk : FileSystem
small_disk = record {
  blocks = disk;
  written = [];
  inodes = λ i. if i == 1 then file_inode else free_inode;
  size = 12;
  ninodes = 20;
  inodestart = 1;
  bmapstart = 2;
}

pub one_map : (b : ℕ) → b < 12 → bblock small_disk b ≡ 2
one_map b lt = omega arith

small_disk-IsFormatted : IsFormatted small_disk
small_disk-IsFormatted = record {
  bytes = λ b i. ground arith;
  boot = refl;
  maps = λ b lt. rw (one_map b lt) (omega arith, refl);
}

-- The file has the direct block 0 only.
no_address : (r : ℕ) (p : List ℕ) → (r == 0) ≡ false → address small_disk file_inode r p ≡ 0
unfolding address
no_address r [] off = ground arith
no_address r (i ∷ p) off = rw (no_address r p off) refl

no_indices : (p : List ℕ) → length p ≤ 0 → p ≡ []
no_indices [] le = refl
no_indices (i ∷ p) le = absurd (omega arith)

only_block :
    (r : ℕ) (p : List ℕ)
    → IsPlace r p
    → (address small_disk file_inode r p == 0) ≡ false
    → (r ≡ 0) × (p ≡ [])
unfolding address
only_block r p is real = elim (Bool-cases (r == 0)) [
  | inr off ↦ let none_ = no_address r p off in absurd (ground (arith, none_))
  | inl on ↦ (ground arith, no_indices p (ground (arith, is.1)))
]

pub small_disk-IsTree : IsTree small_disk file_inode
unfolding address
small_disk-IsTree = record {
  formatted = small_disk-IsFormatted;
  words = omega arith;
  used = λ r p is real. let (er, ep) = only_block r p is real in rw (er, ep) (omega arith, refl);
  data_ =
      λ r p c is real lt. let (er, ep) = only_block r p is real in rw (er, ep, one_map c lt) refl;
  unique = λ r p q p' is is' real e.
      let (er, ep) = only_block r p is real in
      let real' : (address small_disk file_inode q p' == 0) ≡ false =
        ap (λ a. a == 0) (sym e) ∙ real in
      let (eq, ep') = only_block q p' is' real' in rw (er, ep, eq, ep') refl;
}

bfree-balloc_example :
    Returns
      (λ _ t. (c : ℕ) → c < small_disk.size → is_used t c ≡ is_used small_disk c)
      ((balloc >>= bfree) small_disk)
bfree-balloc_example = bfree-balloc small_disk 5 small_disk-IsFormatted (omega arith) refl

some_free : free_count small_disk ≡ 8
unfolding count
some_free = refl

bmap-Mapped_example : Returns (Mapped small_disk 1 139) (bmap 1 139 small_disk)
bmap-Mapped_example =
    bmap-Mapped small_disk 1 small_disk-IsTree (omega (arith, some_free)) 139 (omega arith)
