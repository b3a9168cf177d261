-- ===== src/Fs/Trunc/Whole.antt =====
-- itrunc of project3_filesystem/fs.c on a whole file.
use ele3021_os.Fs.Map.Bmap.{OthersKept}
use ele3021_os.Fs.Trunc.{drop_roots, itrunc}
use ele3021_os.Fs.Trunc.Roots.{drop_roots-Upto, Upto, Dropped}
use ele3021_os.Fs.Map.Paths.{address, IsPlace}
use ele3021_os.Fs.Inodes.{ipb, iupdate, iblock}
use ele3021_os.Fs.Inodes.Update.{iupdate-Updated, Updated, stored}
use ele3021_os.Fs.Bitmap.{is_clear, is_used, bblock}
use ele3021_os.Fs.Inodes.Dinode.{SameFile, FitsDisk}
use ele3021_os.Fs.Map.{root_of}
use ele3021_os.Fs.Map.Tree.{IsTree}
use ele3021_os.Prelude.{
  ◌%◌, not, sym, subst, ◌+◌, ◌/◌, refl, ◌∙◌, ap, ==_refl, update, arith, false, List, ◌==◌, ◌≡◌,
  ◌<◌, ℕ,
}
use ele3021_os.Fs.State.{Bytes, bpb, Inode, FileSystem}
use ele3021_os.Outcome.{Returns-mono, Returns-bind, Returns}

-- From `s`, the file of inode `ip` is empty, in memory and on disk, and exactly its blocks are freed.
pub record Truncated (s : FileSystem) (ip : ℕ) (t : FileSystem) : Type 0 where
  pub roots : (r : ℕ) → r < 13 → root_of (t.inodes ip) r ≡ 0
  pub empty : (t.inodes ip).size ≡ 0
  pub kind : (t.inodes ip).kind ≡ (s.inodes ip).kind
  pub nlink : (t.inodes ip).nlink ≡ (s.inodes ip).nlink
  pub on_disk : (m : Inode) → SameFile (t.inodes ip) (stored t (s.inodes ip).inum m)
  pub freed :
      (r : ℕ) (p : List ℕ)
      → IsPlace r p
      → (address s (s.inodes ip) r p == 0) ≡ false
      → is_used t (address s (s.inodes ip) r p) ≡ false
  pub kept :
      (c : ℕ)
      → c < s.size
      → ((r : ℕ) (p : List ℕ)
          → IsPlace r p
          → (address s (s.inodes ip) r p == 0) ≡ false
          → (address s (s.inodes ip) r p == c) ≡ false)
      → is_used t c ≡ is_used s c
  pub blocks :
      (c : ℕ)
      → ((d : ℕ) → d < s.size → (bblock s d == c) ≡ false)
      → (c == iblock s (s.inodes ip).inum) ≡ false
      → t.blocks c ≡ s.blocks c
  pub others : OthersKept ip s t

module _ (s : FileSystem) (ip : ℕ) (tree : IsTree s (s.inodes ip)) (fits : FitsDisk (s.inodes ip))
    (short : (s.inodes ip).t_addr ≡ 0)
    (apart : (d : ℕ) → d < s.size → (bblock s d == iblock s (s.inodes ip).inum) ≡ false) where
  abbrev n : Inode
  n = s.inodes ip

  FitsDisk-Dropped : (m : Inode) → Dropped n 13 m → FitsDisk (record m { size = 0 })
  FitsDisk-Dropped m d = record {
    kind = omega (arith, d.kind, fits.kind);
    major = omega (arith, d.major, fits.major);
    minor = omega (arith, d.minor, fits.minor);
    nlink = omega (arith, d.nlink, fits.nlink);
    size = omega arith;
    addrs = λ i lt. let none_ = d.zeros i (omega arith) in ground arith;
    d_addr = let none_ = d.zeros 11 (omega arith) in omega (arith, none_);
    t_addr = let none_ = d.zeros 12 (omega arith) in omega (arith, none_);
  }

  module _ (u : FileSystem) (up : Upto s ip tree 13 u) where
    abbrev sized : FileSystem
    sized = record u { inodes = update u.inodes ip (record (u.inodes ip) { size = 0 }) }

    sized_file : sized.inodes ip ≡ record (u.inodes ip) { size = 0 }
    sized_file = rw (==_refl ip) refl

    file_number : (sized.inodes ip).inum ≡ n.inum
    file_number = ap (λ (m : Inode). m.inum) sized_file ∙ up.1.inum

    Truncated-Updated : (t : FileSystem) → Updated sized (sized.inodes ip) t → Truncated s ip t
    Truncated-Updated t e =
        let c = up.0 in
        let file : t.inodes ip ≡ record (u.inodes ip) { size = 0 } =
          ap (λ (f : ℕ → Inode). f ip) e.inodes ∙ sized_file in
        let block : iblock sized (sized.inodes ip).inum ≡ iblock s n.inum =
          ap (λ k. k / ipb + u.inodestart) file_number ∙ ap (λ k. n.inum / ipb + k) c.inodestart in
        let bmap : (d : ℕ) → bblock u d ≡ bblock s d = λ d. ap (λ k. d / bpb + k) c.bmapstart in
        let bmap' : (d : ℕ) → bblock t d ≡ bblock u d = λ d. ap (λ k. d / bpb + k) e.bmapstart in
        let used : (d : ℕ) → d < s.size → is_used t d ≡ is_used u d = λ d lt.
          ap (λ b. not (is_clear (t.blocks b) (d % bpb))) (bmap' d)
          ∙ ap (λ (k : Bytes). not (is_clear k (d % bpb)))
              (e.blocks (bblock u d) (rw (bmap d, block) (apart d lt))) in
        record {
          roots = λ r lt. ap (λ (m : Inode). root_of m r) file ∙ up.1.zeros r lt;
          empty = ap (λ (m : Inode). m.size) file;
          kind = ap (λ (m : Inode). m.kind) file ∙ up.1.kind;
          nlink = ap (λ (m : Inode). m.nlink) file ∙ up.1.nlink;
          on_disk = λ m.
              subst (λ k. SameFile k (stored t n.inum m))
                (ap (λ (f : ℕ → Inode). f ip) (sym e.inodes))
                (subst (λ k. SameFile (sized.inodes ip) (stored t k m)) file_number (e.here m));
          freed = λ r p is real.
              used (address s n r p) (tree.used r p is real).0
              ∙ c.freed r p is (ground (arith, is.0)) real;
          kept = λ b lt away. used b lt ∙ c.kept b lt (λ r p is on real. away r p is real);
          blocks = λ b away off. e.blocks b (rw block off) ∙ c.blocks b away;
          others = λ j off. ap (λ (f : ℕ → Inode). f j) e.inodes ∙ rw off (up.2 j off);
        }

    finish_Truncated : Returns (λ _. Truncated s ip) (iupdate ip sized)
    finish_Truncated =
        Returns-mono
          (iupdate-Updated sized ip
            (subst FitsDisk (sym sized_file) (FitsDisk-Dropped (u.inodes ip) up.1)))
          (λ _ t e. Truncated-Updated t e)

  -- When no block of the file of inode `ip` is at two places, its fields have the widths of the disk,
  -- it has no triple indirect block, and the block of the inode is none of the free map, itrunc
  -- returns. The file is then empty, in memory and on disk; each of its blocks, those of addresses
  -- included, is free, and no other block has changed its use. The other inodes in memory and all
  -- blocks but those of the free map and the block of the inode are as before.
  pub itrunc-Truncated : Returns (λ _. Truncated s ip) (itrunc ip s)
  unfolding itrunc
  itrunc-Truncated =
      Returns-bind (drop_roots ip s) _ (drop_roots-Upto s ip tree short)
        (λ _ u up. finish_Truncated u up)
