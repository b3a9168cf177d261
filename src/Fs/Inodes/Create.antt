-- ===== src/Fs/Inodes/Create.antt =====
-- ialloc of project3_filesystem/fs.c: a new inode on disk, with an entry in memory.
use ele3021_os.Mlfq.Scan.{scan_first, scan_above, scan_sound, scan-none}
use ele3021_os.Mlfq.Kernel.{scan}
use ele3021_os.Outcome.{Returns-mono, Returns}
use ele3021_os.Fs.Inodes.Get.{iget-Got, Got, IsCache}
use ele3021_os.Fs.Inodes.Words.{word-with_half}
use ele3021_os.Fs.Inodes.Dinode.{SameFile}
use ele3021_os.Fs.Map.{root_of}
use ele3021_os.Fs.Inodes.Update.{SameFile-refl, stored}
use ele3021_os.Fs.Inodes.{ipb, iblock, ialloc, get_dinode, ninode, half_at, zero_dinode, with_half}
use ele3021_os.Prelude.{
  refl, ◌-◌, subst, Option-cases, ==_refl, ==_iff, ◌∷◌, Bool, ltb, inl, inr, ◌%◌, sym, true, update,
  Bool-cases, ap, ◌^◌, ◌/◌, ◌∙◌, arith, ◌+◌, false, ◌*◌, ◌≡◌, ◌==◌, ◌<◌, ℕ,
}
use ele3021_os.Fs.State.{word_at, Inode, Bytes, FileSystem}

-- `ialloc` of `kind` returns the entry `i` for a number that was free.
pub record Created (s : FileSystem) (kind i : ℕ) (t : FileSystem) : Type 0 where
  pub number : ℕ
  pub valid_number : (0 < number) × (number < s.ninodes)
  pub was_free : (m : Inode) → (stored s number m).kind ≡ 0
  pub first : (j : ℕ) (m : Inode) → 0 < j → j < number → ((stored s j m).kind == 0) ≡ false
  pub kind_there : (m : Inode) → (stored t number m).kind ≡ kind
  pub empty : (m : Inode) → ((stored t number m).size ≡ 0) × ((stored t number m).nlink ≡ 0)
  pub no_blocks : (m : Inode) (r : ℕ) → r < 13 → root_of (stored t number m) r ≡ 0
  pub others : (j : ℕ) (m : Inode) → (j == number) ≡ false → SameFile (stored s j m) (stored t j m)
  pub small : i < ninode
  pub entry : (t.inodes i).inum ≡ number
  pub counted : (t.inodes i).ref ≡ (s.inodes i).ref + 1
  pub entries : (j : ℕ) → (j == i) ≡ false → t.inodes j ≡ s.inodes j
  pub cache : IsCache t

module _ (d : Bytes) (slot kind : ℕ) where
  abbrev fresh : Bytes
  fresh = with_half (zero_dinode d slot) (32 * slot) kind

  word_fresh : (k : ℕ) → 0 < k → k < 16 → word_at fresh (16 * slot + k) ≡ 0
  word_fresh k more lt =
      word-with_half (zero_dinode d slot) (32 * slot) kind (16 * slot + k) (ground arith)
      ∙ (let at : (c : ℕ) → c < 4 → (4 * (16 * slot + k) + c) / 64 ≡ slot = λ c lt'. omega arith in
          ground (arith, at 0, at 1, at 2, at 3))

  word_off :
      (o k : ℕ) → (o == slot) ≡ false → k < 16 → word_at fresh (16 * o + k) ≡ word_at d (16 * o + k)
  word_off o k off lt =
      word-with_half (zero_dinode d slot) (32 * slot) kind (16 * o + k) (ground arith)
      ∙ (let at : (c : ℕ) → c < 4 → (4 * (16 * o + k) + c) / 64 ≡ o = λ c lt'. omega arith in
          ground (arith, at 0, at 1, at 2, at 3))

  half_off :
      (o k : ℕ) → (o == slot) ≡ false → k < 4 → half_at fresh (32 * o + k) ≡ half_at d (32 * o + k)
  half_off o k off lt = ground arith

  half_fresh : (k : ℕ) → 0 < k → k < 4 → half_at fresh (32 * slot + k) ≡ 0
  half_fresh k more lt = ground arith

  kind_fresh : kind < 2 ^ 16 → half_at fresh (32 * slot) ≡ kind
  kind_fresh lt = ground arith

  get_off :
      (o : ℕ) (m : Inode) → (o == slot) ≡ false → SameFile (get_dinode d o m) (get_dinode fresh o m)
  get_off o m off = record {
    kind =
        let at : 32 * o ≡ 32 * o + 0 = omega arith in
        ap (λ j. half_at d j) at
        ∙ sym (half_off o 0 off (omega arith))
        ∙ ap (λ j. half_at fresh j) (sym at);
    major = sym (half_off o 1 off (omega arith));
    minor = sym (half_off o 2 off (omega arith));
    nlink = sym (half_off o 3 off (omega arith));
    size = sym (word_off o 2 off (omega arith));
    addrs = λ i lt.
        let at : 16 * o + 3 + i ≡ 16 * o + (3 + i) = omega arith in
        let lt' : ltb i 11 ≡ true = ground arith in
        rw (lt', at) (sym (word_off o (3 + i) off (omega arith)));
    d_addr = sym (word_off o 14 off (omega arith));
    t_addr = sym (word_off o 15 off (omega arith));
  }

  root_fresh : (m : Inode) (r : ℕ) → r < 13 → root_of (get_dinode fresh slot m) r ≡ 0
  root_fresh m r lt = elim (Bool-cases (r == 11)) [
    | inl e ↦ rw e (word_fresh 14 (omega arith) (omega arith))
    | inr e ↦ elim (Bool-cases (r == 12)) [
      | inl f ↦ rw (e, f) (word_fresh 15 (omega arith) (omega arith))
      | inr f ↦
          let at : 16 * slot + 3 + r ≡ 16 * slot + (3 + r) = omega arith in
          let lt' : ltb r 11 ≡ true = ground arith in
          rw (e, f, lt', at) (word_fresh (3 + r) (omega arith) (omega arith))
    ]
  ]

module _ (s : FileSystem) (kind : ℕ) (width : kind < 2 ^ 16) (number : ℕ) where
  abbrev block : ℕ
  block = iblock s number

  abbrev made : FileSystem
  made = record s {
    blocks = update s.blocks block (fresh (s.blocks block) (number % ipb) kind);
    written = block ∷ s.written;
  }

  made_others :
      (j : ℕ) (m : Inode) → (j == number) ≡ false → SameFile (stored s j m) (stored made j m)
  made_others j m off = elim (Bool-cases (iblock s j == block)) [
    | inr e ↦ rw e (SameFile-refl (stored s j m))
    | inl e ↦
        let at : iblock s j ≡ block = (==_iff (iblock s j) block).0 e in
        let apart : (j % ipb == number % ipb) ≡ false = ground arith in
        rw (e, at) (get_off (s.blocks block) (number % ipb) kind (j % ipb) m apart)
  ]

  made-Created :
      (0 < number) × (number < s.ninodes)
      → ((m : Inode) → (stored s number m).kind ≡ 0)
      → ((j : ℕ) (m : Inode) → 0 < j → j < number → ((stored s j m).kind == 0) ≡ false)
      → (i : ℕ) (t : FileSystem) → Got made number i t
      → Created s kind i t
  made-Created valid free first i t g =
      let start = g.inodestart in
      let there : (m : Inode)
          → stored t number m
            ≡ get_dinode (fresh (s.blocks block) (number % ipb) kind) (number % ipb) m =
        λ m.
          ap (λ (f : ℕ → Bytes). get_dinode (f (iblock t number)) (number % ipb) m) g.blocks
          ∙ ap (λ k. get_dinode (made.blocks (number / ipb + k)) (number % ipb) m) start
          ∙ rw (==_refl block) refl in
      record {
        number = number;
        valid_number = valid;
        was_free = free;
        first = first;
        kind_there = λ m.
            ap (λ (n : Inode). n.kind) (there m)
            ∙ kind_fresh (s.blocks block) (number % ipb) kind width;
        empty = λ m. (
          ap (λ (n : Inode). n.size) (there m)
              ∙ word_fresh (s.blocks block) (number % ipb) kind 2 (omega arith) (omega arith),
          ap (λ (n : Inode). n.nlink) (there m)
              ∙ half_fresh (s.blocks block) (number % ipb) kind 3 (omega arith) (omega arith),
        );
        no_blocks = λ m r lt.
            ap (λ (n : Inode). root_of n r) (there m)
            ∙ root_fresh (s.blocks block) (number % ipb) kind m r lt;
        others = λ j m off.
            subst (λ k. SameFile (stored s j m) k)
              (sym (
                ap (λ (f : ℕ → Bytes). get_dinode (f (iblock t j)) (j % ipb) m) g.blocks
                ∙ ap (λ k. get_dinode (made.blocks (j / ipb + k)) (j % ipb) m) start))
              (made_others j m off);
        small = g.small;
        entry = g.number;
        counted = g.counted;
        entries = g.others;
        cache = g.cache;
      }

-- When no inode has two entries, there is a free entry that a new inode can take and a free inode on
-- disk, ialloc of a type returns an entry for the first free inode: on disk it has the type, no
-- links, no bytes and no blocks, the other inodes are as before, and in memory only that entry has
-- changed, with one more reference.
pub ialloc-Created :
    (s : FileSystem) (kind f e : ℕ)
    → kind < 2 ^ 16
    → IsCache s
    → e < ninode
    → ((s.inodes e).ref == 0) ≡ true
    → 0 < f
    → f < s.ninodes
    → (stored s f (s.inodes e)).kind ≡ 0
    → Returns (Created s kind) (ialloc kind s)
unfolding ialloc
ialloc-Created s kind f e width cache small unused more valid free =
    let test : ℕ → Bool = λ i. half_at (s.blocks (iblock s i)) (32 * (i % ipb)) == 0 in
    elim (Option-cases (scan (s.ninodes - 1) 1 test)) [
      | inl none_ ↦
          let busy = scan-none (s.ninodes - 1) 1 test none_ f (omega arith) (omega arith) in
          absurd (ground (arith, busy, free))
      | inr (number, found) ↦
          let (zero_, lt) = scan_sound (s.ninodes - 1) 1 test number found in
          let above = scan_above (s.ninodes - 1) 1 test number found in
          rw (ialloc, found)
            (Returns-mono
              (iget-Got (made s kind width number) number e cache small (ground (arith, unused)))
              (λ i t g.
                made-Created s kind width number (omega (arith, above), omega (arith, lt, valid))
                  (λ m.
                    (==_iff (half_at (s.blocks (iblock s number)) (32 * (number % ipb))) 0).0 zero_)
                  (λ j m low high.
                    scan_first (s.ninodes - 1) 1 test number found j (omega arith) high)
                  i t g))
    ]
