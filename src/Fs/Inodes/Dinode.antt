-- ===== src/Fs/Inodes/Dinode.antt =====
-- An inode of project3_filesystem/fs.c written to its slot of a block and read back.
use ele3021_os.Fs.Inodes.{get_dinode, put_dinode, half_at, with_words, with_half}
use ele3021_os.Fs.State.{word-with_word, word_at, with_word, Bytes, Inode}
use ele3021_os.Fs.Inodes.Words.{
  word-with_words, word-with_half, half-with_words, half-with_word, half-with_half,
}
use ele3021_os.Prelude.{
  ◌≤◌, inr, inl, Bool-cases, true, ◌-◌, refl, ◌∙◌, ltb, arith, ◌+◌, false, sym, ◌/◌, if◌then◌else◌,
  ◌*◌, ◌^◌, ◌==◌, ◌≡◌, ◌<◌, ℕ,
}

-- Every field has the width it has on disk.
pub record FitsDisk (n : Inode) : Type 0 where
  pub kind : n.kind < 2 ^ 16
  pub major : n.major < 2 ^ 16
  pub minor : n.minor < 2 ^ 16
  pub nlink : n.nlink < 2 ^ 16
  pub size : n.size < 2 ^ 32
  pub addrs : (i : ℕ) → i < 11 → n.addrs i < 2 ^ 32
  pub d_addr : n.d_addr < 2 ^ 32
  pub t_addr : n.t_addr < 2 ^ 32

-- The fields that stand on disk agree.
pub record SameFile (n m : Inode) : Type 0 where
  pub kind : n.kind ≡ m.kind
  pub major : n.major ≡ m.major
  pub minor : n.minor ≡ m.minor
  pub nlink : n.nlink ≡ m.nlink
  pub size : n.size ≡ m.size
  pub addrs : (i : ℕ) → i < 11 → n.addrs i ≡ m.addrs i
  pub d_addr : n.d_addr ≡ m.d_addr
  pub t_addr : n.t_addr ≡ m.t_addr

module _ (d : Bytes) (slot : ℕ) (n : Inode) (fits : FitsDisk n) where
  abbrev halves : Bytes
  halves =
      with_half
        (with_half (with_half (with_half d (32 * slot) n.kind) (32 * slot + 1) n.major)
          (32 * slot + 2) n.minor)
        (32 * slot + 3) n.nlink

  abbrev sized : Bytes
  sized = with_word halves (16 * slot + 2) n.size

  abbrev placed : Bytes
  placed = with_words sized (16 * slot + 3) 11 n.addrs

  -- What each short of the block is.
  half-halves :
      (j : ℕ)
      → half_at halves j ≡ (
          if j == 32 * slot + 3
          then n.nlink
          else if j == 32 * slot + 2
          then n.minor
          else if j == 32 * slot + 1
          then n.major
          else if j == 32 * slot
          then n.kind
          else half_at d j)
  half-halves j =
      rw
        (
          half-with_half
              (with_half (with_half (with_half d (32 * slot) n.kind) (32 * slot + 1) n.major)
                (32 * slot + 2) n.minor)
              (32 * slot + 3) n.nlink j fits.nlink,
          half-with_half (with_half (with_half d (32 * slot) n.kind) (32 * slot + 1) n.major)
              (32 * slot + 2) n.minor j fits.minor,
          half-with_half (with_half d (32 * slot) n.kind) (32 * slot + 1) n.major j fits.major,
          half-with_half d (32 * slot) n.kind j fits.kind,
        )
        refl

  half-put :
      (j : ℕ)
      → ((i : ℕ) → i < 14 → (j / 2 == 16 * slot + 2 + i) ≡ false)
      → half_at (put_dinode d slot n) j ≡ half_at halves j
  unfolding put_dinode
  half-put j off =
      half-with_word (with_word placed (16 * slot + 14) n.d_addr) (16 * slot + 15) n.t_addr j
        (ground (arith, off 13 (omega arith)))
      ∙ half-with_word placed (16 * slot + 14) n.d_addr j (ground (arith, off 12 (omega arith)))
      ∙ half-with_words sized (16 * slot + 3) n.addrs 11 j
          (λ i lt. let e = off (i + 1) (omega arith) in ground (arith, e))
      ∙ half-with_word halves (16 * slot + 2) n.size j (ground (arith, off 0 (omega arith)))

  -- What each word is, from the third of the slot on or out of it.
  word-put :
      (j : ℕ)
      → (j == 16 * slot) ≡ false
      → (j == 16 * slot + 1) ≡ false
      → word_at (put_dinode d slot n) j ≡ (
          if j == 16 * slot + 15
          then n.t_addr
          else if j == 16 * slot + 14
          then n.d_addr
          else if ltb j (16 * slot + 3)
          then (if j == 16 * slot + 2 then n.size else word_at d j)
          else if ltb j (16 * slot + 14)
          then n.addrs (j - (16 * slot + 3))
          else word_at d j)
  unfolding put_dinode
  word-put j off off' =
      let base : word_at halves j ≡ word_at d j =
        word-with_half
          (with_half (with_half (with_half d (32 * slot) n.kind) (32 * slot + 1) n.major)
            (32 * slot + 2) n.minor)
          (32 * slot + 3) n.nlink j (ground arith)
        ∙ word-with_half (with_half (with_half d (32 * slot) n.kind) (32 * slot + 1) n.major)
            (32 * slot + 2) n.minor j (ground arith)
        ∙ word-with_half (with_half d (32 * slot) n.kind) (32 * slot + 1) n.major j (ground arith)
        ∙ word-with_half d (32 * slot) n.kind j (ground arith) in
      let size : word_at sized j ≡ (if j == 16 * slot + 2 then n.size else word_at halves j) =
        word-with_word halves (16 * slot + 2) n.size j fits.size in
      let addrs = word-with_words sized (16 * slot + 3) n.addrs 11 j fits.addrs in
      let off2 : ltb j (16 * slot + 3) ≡ false → (j == 16 * slot + 2) ≡ false = λ e. ground arith in
      word-with_word (with_word placed (16 * slot + 14) n.d_addr) (16 * slot + 15) n.t_addr j
        fits.t_addr
      ∙ rw (word-with_word placed (16 * slot + 14) n.d_addr j fits.d_addr, addrs, size, base)
          (elim (Bool-cases (ltb j (16 * slot + 3))) [
            | inl e ↦ rw e refl
            | inr e ↦ rw (e, off2 e) (ground arith)
          ])

  -- A slot reads back what was put there.
  pub get-put : (m : Inode) → SameFile n (get_dinode (put_dinode d slot n) slot m)
  get-put m = record {
    kind =
        sym (half-put (32 * slot) (λ i lt. ground arith) ∙ half-halves (32 * slot) ∙ ground arith);
    major = sym (
        half-put (32 * slot + 1) (λ i lt. ground arith)
        ∙ half-halves (32 * slot + 1)
        ∙ ground arith);
    minor = sym (
        half-put (32 * slot + 2) (λ i lt. ground arith)
        ∙ half-halves (32 * slot + 2)
        ∙ ground arith);
    nlink = sym (
        half-put (32 * slot + 3) (λ i lt. ground arith)
        ∙ half-halves (32 * slot + 3)
        ∙ ground arith);
    size = sym (word-put (16 * slot + 2) (ground arith) (ground arith) ∙ ground arith);
    addrs = λ i lt.
        let same : 16 * slot + 3 + i - (16 * slot + 3) ≡ i = omega arith in
        let a : (16 * slot + 3 + i == 16 * slot + 15) ≡ false = ground arith in
        let b : (16 * slot + 3 + i == 16 * slot + 14) ≡ false = ground arith in
        let c : ltb (16 * slot + 3 + i) (16 * slot + 3) ≡ false = ground arith in
        let e : ltb (16 * slot + 3 + i) (16 * slot + 14) ≡ true = ground arith in
        let lt' : ltb i 11 ≡ true = ground arith in
        rw lt' (
          sym (
            word-put (16 * slot + 3 + i) (ground arith) (ground arith)
            ∙ rw (a, b, c, e, same) refl));
    d_addr = sym (word-put (16 * slot + 14) (ground arith) (ground arith) ∙ ground arith);
    t_addr = sym (word-put (16 * slot + 15) (ground arith) (ground arith) ∙ ground arith);
  }

  half-put_off :
      (o j : ℕ)
      → (o == slot) ≡ false
      → 32 * o ≤ j
      → j < 32 * o + 4
      → half_at (put_dinode d slot n) j ≡ half_at d j
  half-put_off o j off le lt =
      half-put j (λ i small. ground arith)
      ∙ half-halves j
      ∙ (let a : (j == 32 * slot + 3) ≡ false = ground arith in
          let b : (j == 32 * slot + 2) ≡ false = ground arith in
          let c : (j == 32 * slot + 1) ≡ false = ground arith in
          let e : (j == 32 * slot) ≡ false = ground arith in rw (a, b, c, e) refl)

  word-put_off :
      (o k : ℕ)
      → (o == slot) ≡ false
      → k < 16
      → word_at (put_dinode d slot n) (16 * o + k) ≡ word_at d (16 * o + k)
  word-put_off o k off lt =
      word-put (16 * o + k) (ground arith) (ground arith)
      ∙ (let a : (16 * o + k == 16 * slot + 15) ≡ false = ground arith in
          let b : (16 * o + k == 16 * slot + 14) ≡ false = ground arith in
          let c : (16 * o + k == 16 * slot + 2) ≡ false = ground arith in
          rw (a, b, c) (ground arith))

  -- The other slots of the block are as before.
  pub get-put_off :
      (o : ℕ) (m : Inode)
      → (o == slot) ≡ false
      → SameFile (get_dinode d o m) (get_dinode (put_dinode d slot n) o m)
  get-put_off o m off = record {
    kind = sym (half-put_off o (32 * o) off (omega arith) (omega arith));
    major = sym (half-put_off o (32 * o + 1) off (omega arith) (omega arith));
    minor = sym (half-put_off o (32 * o + 2) off (omega arith) (omega arith));
    nlink = sym (half-put_off o (32 * o + 3) off (omega arith) (omega arith));
    size = sym (word-put_off o 2 off (omega arith));
    addrs = λ i lt.
        let at : 16 * o + 3 + i ≡ 16 * o + (3 + i) = omega arith in
        let lt' : ltb i 11 ≡ true = ground arith in
        rw (lt', at) (sym (word-put_off o (3 + i) off (omega arith)));
    d_addr = sym (word-put_off o 14 off (omega arith));
    t_addr = sym (word-put_off o 15 off (omega arith));
  }
