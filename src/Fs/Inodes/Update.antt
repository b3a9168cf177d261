-- ===== src/Fs/Inodes/Update.antt =====
-- iupdate and ilock of project3_filesystem/fs.c: what the disk says of an inode.
use ele3021_os.Fs.Inodes.Dinode.{get-put_off, get-put, FitsDisk, SameFile}
use ele3021_os.Fs.Inodes.{put_dinode, ipb, iupdate, iblock, get_dinode, ilock}
use ele3021_os.Fs.State.{Bytes, Inode, FileSystem}
use ele3021_os.Outcome.{Returns-bind, ok, returns, Returns, ◌>>◌}
use ele3021_os.Prelude.{
  arith, ==_iff, inl, sym, inr, subst, ◌∙◌, Bool-cases, ap, ==_refl, ◌∷◌, false, refl, true, update,
  ◌≡◌, ◌%◌, ◌==◌, ℕ,
}

-- The inode of a number as the disk has it; `m` gives the fields that are in memory only.
abbrev pub stored : FileSystem → ℕ → Inode → Inode
stored s inum m = get_dinode (s.blocks (iblock s inum)) (inum % ipb) m

-- The disk has `n` at its number, and every other inode is there as before.
pub record Updated (s : FileSystem) (n : Inode) (t : FileSystem) : Type 0 where
  pub here : (m : Inode) → SameFile n (stored t n.inum m)
  pub others : (i : ℕ) (m : Inode) → (i == n.inum) ≡ false → SameFile (stored s i m) (stored t i m)
  pub blocks : (c : ℕ) → (c == iblock s n.inum) ≡ false → t.blocks c ≡ s.blocks c
  pub inodes : t.inodes ≡ s.inodes
  pub inodestart : t.inodestart ≡ s.inodestart
  pub bmapstart : t.bmapstart ≡ s.bmapstart

pub SameFile-refl : (n : Inode) → SameFile n n
SameFile-refl n = record {
  kind = refl;
  major = refl;
  minor = refl;
  nlink = refl;
  size = refl;
  addrs = λ i lt. refl;
  d_addr = refl;
  t_addr = refl;
}

module _ (s : FileSystem) (ip : ℕ) where
  abbrev updated : FileSystem
  updated =
      let n = s.inodes ip in
      let b = iblock s n.inum in
      record s {
        blocks = update s.blocks b (put_dinode (s.blocks b) (n.inum % ipb) n);
        written = b ∷ s.written;
      }

  updated-Updated : FitsDisk (s.inodes ip) → Updated s (s.inodes ip) updated
  updated-Updated fits =
      let n : Inode = s.inodes ip in
      let b : ℕ = iblock s n.inum in
      let written : Bytes = put_dinode (s.blocks b) (n.inum % ipb) n in
      record {
        here = λ m. rw (==_refl b) (get-put (s.blocks b) (n.inum % ipb) n fits m);
        others = λ i m off. elim (Bool-cases (iblock s i == b)) [
          | inr e ↦ rw e (SameFile-refl (stored s i m))
          | inl e ↦
              let at : iblock s i ≡ b = (==_iff (iblock s i) b).0 e in
              let apart : (i % ipb == n.inum % ipb) ≡ false = ground arith in
              rw (e, at) (get-put_off (s.blocks b) (n.inum % ipb) n fits (i % ipb) m apart)
        ];
        blocks = λ c off. rw off refl;
        inodes = refl;
        inodestart = refl;
        bmapstart = refl;
      }

  -- iupdate of an inode whose fields have the widths of the disk returns: the disk then has the
  -- inode at its number and every other inode as before, and only that block has changed.
  pub iupdate-Updated :
      FitsDisk (s.inodes ip) → Returns (λ _. Updated s (s.inodes ip)) (iupdate ip s)
  unfolding iupdate
  iupdate-Updated fits = returns (updated-Updated fits)

-- Marking an inode as read leaves its fields.
read_same : {n m : Inode} → SameFile n m → SameFile n (record m { valid = true })
read_same same = record {
  kind = same.kind;
  major = same.major;
  minor = same.minor;
  nlink = same.nlink;
  size = same.size;
  addrs = same.addrs;
  d_addr = same.d_addr;
  t_addr = same.t_addr;
}

-- ilock of an entry that is referenced and not read yet reads the inode of its number from the disk,
-- if the disk has a type for it.
ilock_read :
    (t : FileSystem) (jp : ℕ)
    → ((t.inodes jp).ref == 0) ≡ false
    → (t.inodes jp).valid ≡ false
    → ((stored t (t.inodes jp).inum (t.inodes jp)).kind == 0) ≡ false
    → ilock jp t
      ≡ ok tt (record t {
        inodes =
            update t.inodes jp
              (record (stored t (t.inodes jp).inum (t.inodes jp)) { valid = true });
      })
unfolding ilock
ilock_read t jp held unread typed = rw (held, unread, ==_refl jp, typed) refl

-- When iupdate writes an inode of a type other than 0 whose fields have the widths of the disk, ilock
-- of an entry for the same number that is not read yet comes to the same inode.
pub ilock-iupdate :
    (s : FileSystem) (ip jp : ℕ)
    → FitsDisk (s.inodes ip)
    → ((s.inodes ip).kind == 0) ≡ false
    → (s.inodes jp).inum ≡ (s.inodes ip).inum
    → ((s.inodes jp).ref == 0) ≡ false
    → (s.inodes jp).valid ≡ false
    → Returns
        (λ _ t. SameFile (s.inodes ip) (t.inodes jp) × ((t.inodes jp).valid ≡ true))
        ((iupdate ip >> ilock jp) s)
ilock-iupdate s ip jp fits typed same held unread =
    Returns-bind (iupdate ip s) (λ _. ilock jp) (iupdate-Updated s ip fits)
      (λ _ t u.
        let at : t.inodes jp ≡ s.inodes jp = ap (λ (f : ℕ → Inode). f jp) u.inodes in
        let number : (t.inodes jp).inum ≡ (s.inodes ip).inum =
          ap (λ (m : Inode). m.inum) at ∙ same in
        let m : Inode = t.inodes jp in
        let read : SameFile (s.inodes ip) (stored t m.inum m) =
          subst (λ k. SameFile (s.inodes ip) (stored t k m)) (sym number) (u.here m) in
        subst (Returns _)
          (sym (
            ilock_read t jp (ap (λ (m : Inode). m.ref == 0) at ∙ held)
              (ap (λ (m : Inode). m.valid) at ∙ unread) (ap (λ k. k == 0) (sym read.kind) ∙ typed)))
          (returns (rw (==_refl jp) (read_same read, refl))))
