-- ===== src/Fs/Inodes/Get.antt =====
-- iget of project3_filesystem/fs.c: one entry of the cache for each inode.
use ele3021_os.Mlfq.Scan.{scan-none, scan_sound}
use ele3021_os.Mlfq.Kernel.{scan}
use ele3021_os.Fs.Inodes.{claimed, is_cached, ninode, iget}
use ele3021_os.Prelude.{
  refl, inr, inl, Option-cases, ==_refl, arith, Bool-cases, ◌||◌, true, false, ◌+◌, ◌==◌, ◌≡◌,
  update, ◌<◌, ℕ,
}
use ele3021_os.Fs.State.{Inode, FileSystem}
use ele3021_os.Outcome.{panic, returns, Returns}

-- No two entries that are referenced are for the same inode.
abbrev pub IsCache : FileSystem → Type 0
IsCache s =
    (i j : ℕ)
    → i < ninode
    → j < ninode
    → ((s.inodes i).ref == 0) ≡ false
    → ((s.inodes j).ref == 0) ≡ false
    → (s.inodes i).inum ≡ (s.inodes j).inum
    → i ≡ j

-- `iget` of a number returns the entry `i`, with one more reference.
pub record Got (s : FileSystem) (inum i : ℕ) (t : FileSystem) : Type 0 where
  pub small : i < ninode
  pub number : (t.inodes i).inum ≡ inum
  pub counted : (t.inodes i).ref ≡ (s.inodes i).ref + 1
  pub cached :
      is_cached s inum i ≡ true → t.inodes i ≡ record (s.inodes i) { ref = (s.inodes i).ref + 1 }
  pub unread : is_cached s inum i ≡ false → (t.inodes i).valid ≡ false
  pub claims :
      is_cached s inum i ≡ false
      → (((s.inodes i).ref == 0) ≡ true)
        × ((j : ℕ) → j < ninode → is_cached s inum j ≡ false)
        × (t.inodes i ≡ claimed inum (s.inodes i))
  pub others : (j : ℕ) → (j == i) ≡ false → t.inodes j ≡ s.inodes j
  pub cache : IsCache t
  pub blocks : t.blocks ≡ s.blocks
  pub inodestart : t.inodestart ≡ s.inodestart

abbrev with_entry : FileSystem → ℕ → Inode → FileSystem
with_entry s i n = record s { inodes = update s.inodes i n }

module _ (s : FileSystem) (inum : ℕ) where
  -- An entry for a number that no other referenced entry is for.
  IsCache-after :
      (i : ℕ) (n : Inode)
      → IsCache s
      → n.inum ≡ inum
      → ((j : ℕ) → j < ninode → (j == i) ≡ false → is_cached s inum j ≡ false)
      → IsCache (with_entry s i n)
  IsCache-after i n cache number alone a b lt lt' held held' same = elim (Bool-cases (a == i)) [
    | inl e ↦ elim (Bool-cases (b == i)) [
      | inl e' ↦ ground arith
      | inr e' ↦
          let other : is_cached s inum b ≡ false = alone b lt' e' in
          let same' : n.inum ≡ (s.inodes b).inum = rw (e, e') at same in
          let ref : ((s.inodes b).ref == 0) ≡ false = rw e' at held' in
          absurd (ground (arith, number))
    ]
    | inr e ↦ elim (Bool-cases (b == i)) [
      | inl e' ↦
          let other : is_cached s inum a ≡ false = alone a lt e in
          let same' : (s.inodes a).inum ≡ n.inum = rw (e, e') at same in
          let ref : ((s.inodes a).ref == 0) ≡ false = rw e at held in
          absurd (ground (arith, number))
      | inr e' ↦ cache a b lt lt' (rw e at held) (rw e' at held') (rw (e, e') at same)
    ]
  ]

  found_Got :
      (i : ℕ)
      → IsCache s
      → i < ninode
      → is_cached s inum i ≡ true
      → Got s inum i (with_entry s i (record (s.inodes i) { ref = (s.inodes i).ref + 1 }))
  found_Got i cache small hit =
      let number : (s.inodes i).inum ≡ inum = ground arith in
      let held : ((s.inodes i).ref == 0) ≡ false = ground arith in
      record {
        small = small;
        number = rw (==_refl i) number;
        counted = rw (==_refl i) refl;
        cached = λ _. rw (==_refl i) refl;
        unread = λ miss. cc (miss, hit);
        claims = λ miss. cc (miss, hit);
        others = λ j off. rw off refl;
        cache = IsCache-after i _ cache number (λ j lt off. elim (Bool-cases (is_cached s inum j)) [
          | inr e ↦ e
          | inl e ↦
              let ref : ((s.inodes j).ref == 0) ≡ false = ground arith in
              let same : (s.inodes j).inum ≡ (s.inodes i).inum = ground (arith, number) in
              let at : j ≡ i = cache j i lt small ref held same in absurd (ground arith)
        ]);
        blocks = refl;
        inodestart = refl;
      }

  new_Got :
      (i : ℕ)
      → IsCache s
      → i < ninode
      → ((s.inodes i).ref == 0) ≡ true
      → ((j : ℕ) → j < ninode → is_cached s inum j ≡ false)
      → Got s inum i (with_entry s i (claimed inum (s.inodes i)))
  new_Got i cache small empty missing =
      let none_ : (s.inodes i).ref ≡ 0 = ground arith in
      record {
        small = small;
        number = rw (==_refl i) refl;
        counted = rw (==_refl i) (omega (arith, none_));
        cached = λ hit. cc (hit, missing i small);
        unread = λ _. rw (==_refl i) refl;
        claims = λ _. (empty, missing, rw (==_refl i) refl);
        others = λ j off. rw off refl;
        cache = IsCache-after i _ cache refl (λ j lt off. missing j lt);
        blocks = refl;
        inodestart = refl;
      }

  -- When no inode has two entries, and an entry is for the number or free, iget returns an entry for
  -- the number with one more reference: the one that it had, else one that was free, not read yet;
  -- the other entries and the blocks are as before, and still no inode has two entries.
  pub iget-Got :
      (f : ℕ)
      → IsCache s
      → f < ninode
      → (is_cached s inum f || (s.inodes f).ref == 0) ≡ true
      → Returns (Got s inum) (iget inum s)
  unfolding iget
  iget-Got f cache small room = elim (Option-cases (scan ninode 0 (is_cached s inum))) [
    | inr (i, e) ↦
        let (hit, lt) = scan_sound ninode 0 _ i e in
        rw (iget, e) (returns (found_Got i cache lt hit))
    | inl e ↦
        let missing = scan-none ninode 0 (is_cached s inum) e in
        elim (Option-cases (scan ninode 0 (λ i. (s.inodes i).ref == 0))) [
          | inr (i, e') ↦
              let (empty, lt) = scan_sound ninode 0 _ i e' in
              rw (iget, e, e')
                (returns (new_Got i cache lt empty (λ j lt'. missing j (omega arith) lt')))
          | inl e' ↦
              let held = scan-none ninode 0 (λ i. (s.inodes i).ref == 0) e' f (omega arith) small in
              let miss = missing f (omega arith) small in absurd (ground (arith, room, held, miss))
        ]
  ]

  -- iget panics when every entry is referenced and none of them is for the number.
  pub iget_full :
      ((i : ℕ)
        → i < ninode
        → (((s.inodes i).ref == 0) ≡ false) × (((s.inodes i).inum == inum) ≡ false))
      → iget inum s ≡ panic "iget: no inodes"
  unfolding iget
  iget_full full = elim (Option-cases (scan ninode 0 (is_cached s inum))) [
    | inr (i, e) ↦
        let (hit, lt) = scan_sound ninode 0 _ i e in absurd (ground (arith, (full i lt).1))
    | inl e ↦ elim (Option-cases (scan ninode 0 (λ i. (s.inodes i).ref == 0))) [
      | inr (i, e') ↦
          let (empty, lt) = scan_sound ninode 0 _ i e' in absurd (cc (empty, (full i lt).0))
      | inl e' ↦ rw (iget, e, e') refl
    ]
  ]
