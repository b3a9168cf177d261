-- ===== src/Fs/Bitmap/Free.antt =====
-- What bfree of project3_filesystem/fs.c promises, and what it undoes.
use ele3021_os.Prelude.{
  sym, ap, ==_iff, inl, inr, Bool-cases, refl, ◌&&◌, ◌∙◌, arith, ◌∷◌, ◌==◌, false, true, ◌%◌, ◌/◌,
  not, ◌<◌, update, ◌≡◌, ℕ,
}
use ele3021_os.Outcome.{panic, Returns, returns, Returns-bind, Returns-mono, ◌>>=◌}
use ele3021_os.Fs.State.{FileSystem, Bytes, bpb}
use ele3021_os.Fs.Bits.{without_bit, without_bit-lt, has_bit-without_bit}
use ele3021_os.Fs.Bitmap.{bblock, is_used, is_clear, IsFormatted, balloc, bfree}
use ele3021_os.Fs.Bitmap.Alloc.{balloc-Allocated}

-- `b` is free, and no block but that of the map has changed.
pub record Freed (s : FileSystem) (b : ℕ) (t : FileSystem) : Type 0 where
  pub used : (c : ℕ) → is_used t c ≡ (not (c == b) && is_used s c)
  pub kept : (c : ℕ) → (c == bblock s b) ≡ false → t.blocks c ≡ s.blocks c
  pub bytes : (c i : ℕ) → t.blocks c i < 256
  pub inodes : t.inodes ≡ s.inodes
  pub size : t.size ≡ s.size
  pub bmapstart : t.bmapstart ≡ s.bmapstart
  pub inodestart : t.inodestart ≡ s.inodestart

abbrev unmarked : Bytes → ℕ → Bytes
unmarked d bi = update d (bi / 8) (without_bit (d (bi / 8)) (bi % 8))

is_clear-unmarked :
    (d : Bytes) (bi x : ℕ)
    → ((i : ℕ) → d i < 256)
    → bi < bpb
    → x < bpb
    → not (is_clear (unmarked d bi) x) ≡ (not (x == bi) && not (is_clear d x))
is_clear-unmarked d bi x bytes lt lt' = elim (Bool-cases (x / 8 == bi / 8)) [
  | inr far ↦ let off : (x == bi) ≡ false = ground arith in rw (far, off) refl
  | inl near ↦
      let near' : x / 8 ≡ bi / 8 = (==_iff (x / 8) (bi / 8)).0 near in
      let bit : (x % 8 == bi % 8) ≡ (x == bi) = ground arith in
      rw
        (
          near,
          near',
          has_bit-without_bit (d (bi / 8)) (bi % 8) (bytes (bi / 8)) (omega arith) (x % 8)
              (omega arith),
          bit,
        )
        (ground arith)
]

module _ (s : FileSystem) (bytes : (c i : ℕ) → s.blocks c i < 256) (b : ℕ) where
  abbrev released : FileSystem
  released = record s {
    blocks = update s.blocks (bblock s b) (unmarked (s.blocks (bblock s b)) (b % bpb));
    written = bblock s b ∷ s.written;
  }

  used_after : (c : ℕ) → is_used released c ≡ (not (c == b) && is_used s c)
  used_after c = elim (Bool-cases (bblock s c == bblock s b)) [
    | inr e ↦ let off : (c == b) ≡ false = ground arith in rw (e, off) refl
    | inl e ↦
        let at : bblock s c ≡ bblock s b = (==_iff (bblock s c) (bblock s b)).0 e in
        let same : released.blocks (bblock s c) ≡ unmarked (s.blocks (bblock s b)) (b % bpb) =
          rw e refl in
        let bit : (c % bpb == b % bpb) ≡ (c == b) = ground arith in
        ap (λ (d : Bytes). not (is_clear d (c % bpb))) same
        ∙ is_clear-unmarked (s.blocks (bblock s b)) (b % bpb) (c % bpb) (bytes (bblock s b))
            (omega arith) (omega arith)
        ∙ ap (λ t. not t && not (is_clear (s.blocks (bblock s b)) (c % bpb))) bit
        ∙ ap (λ m. not (c == b) && not (is_clear (s.blocks m) (c % bpb))) (sym at)
  ]

  released-Freed : Freed s b released
  released-Freed = record {
    used = used_after;
    kept = λ c e. rw e refl;
    bytes = λ c i.
        let byte =
          without_bit-lt (s.blocks (bblock s b) (b % bpb / 8)) (b % bpb % 8)
            (bytes (bblock s b) (b % bpb / 8)) (omega arith) in
        ground (arith, bytes c i, bytes (bblock s b) i);
    inodes = refl;
    size = refl;
    bmapstart = refl;
    inodestart = refl;
  }

  -- On blocks of bytes, bfree of a block in use returns: that block is then free, all others are as
  -- before, and only the block of the map that speaks of it has changed.
  pub bfree-Freed : is_used s b ≡ true → Returns (λ _. Freed s b) (bfree b s)
  unfolding bfree
  bfree-Freed used =
      let busy : is_clear (s.blocks (bblock s b)) (b % bpb) ≡ false = ground arith in
      rw busy (returns released-Freed)

  -- bfree of a free block panics.
  pub bfree_free : is_used s b ≡ false → bfree b s ≡ panic "freeing free block"
  unfolding bfree
  bfree_free free =
      let clear : is_clear (s.blocks (bblock s b)) (b % bpb) ≡ true = ground arith in rw clear refl

-- On a formatted disk with a free block, bfree of the block that balloc returns brings the free map
-- back to what it said of each block.
pub bfree-balloc :
    (s : FileSystem) (f : ℕ)
    → IsFormatted s
    → f < s.size
    → is_used s f ≡ false
    → Returns (λ _ t. (c : ℕ) → c < s.size → is_used t c ≡ is_used s c) ((balloc >>= bfree) s)
bfree-balloc s f is small free =
    Returns-bind (balloc s) bfree (balloc-Allocated s is f small free) (λ b t a.
      Returns-mono (bfree-Freed t a.formatted.bytes b (a.used b a.small ∙ ground arith))
        (λ _ u r c lt. r.used c ∙ ground (arith, a.used c lt, a.free)))
