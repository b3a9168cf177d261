-- ===== src/Fs/Bitmap/Alloc.antt =====
-- What balloc of project3_filesystem/fs.c promises.
use ele3021_os.Mlfq.Kernel.{scan}
use ele3021_os.Prelude.{
  zero, Option-cases, ltb→lt, ◌-◌, ltb, ◌≤◌, suc, some, none, ◌*◌, sym, ap, ==_refl, ◌∙◌,
  if◌then◌else◌, not, subst, ==_iff, inl, inr, refl, Bool-cases, ◌∷◌, ◌||◌, arith, ◌==◌, true, ◌+◌,
  ◌/◌, false, update, ◌≡◌, ◌%◌, ◌<◌, ℕ,
}
use ele3021_os.Outcome.{panic, Returns, returns}
use ele3021_os.Mlfq.Scan.{scan_sound, scan-none, scan_first}
use ele3021_os.Fs.State.{Bytes, FileSystem, bpb}
use ele3021_os.Fs.Bits.{with_bit, has_bit-with_bit, with_bit-lt}
use ele3021_os.Fs.Bitmap.{
  zeros, bblock, is_used, is_clear, bits_left, IsFormatted, balloc, balloc_from,
}

-- `b` was the first free block; now it is in use and zero, and no other block but that of the map
-- has changed.
pub record Allocated (s : FileSystem) (b : ℕ) (t : FileSystem) : Type 0 where
  pub small : b < s.size
  pub free : is_used s b ≡ false
  pub first : (c : ℕ) → c < b → is_used s c ≡ true
  pub used : (c : ℕ) → c < s.size → is_used t c ≡ ((c == b) || is_used s c)
  pub zeroed : (i : ℕ) → t.blocks b i ≡ 0
  pub kept : (c : ℕ) → (c == b) ≡ false → (c == bblock s b) ≡ false → t.blocks c ≡ s.blocks c
  pub formatted : IsFormatted t
  pub inodes : t.inodes ≡ s.inodes
  pub size : t.size ≡ s.size
  pub bmapstart : t.bmapstart ≡ s.bmapstart
  pub ninodes : t.ninodes ≡ s.ninodes
  pub inodestart : t.inodestart ≡ s.inodestart

abbrev marked : Bytes → ℕ → Bytes
marked d bi = update d (bi / 8) (with_bit (d (bi / 8)) (bi % 8))

is_clear-marked :
    (d : Bytes) (bi x : ℕ)
    → ((i : ℕ) → d i < 256)
    → bi < bpb
    → x < bpb
    → not (is_clear (marked d bi) x) ≡ ((x == bi) || not (is_clear d x))
is_clear-marked d bi x bytes lt lt' = elim (Bool-cases (x / 8 == bi / 8)) [
  | inr far ↦ let off : (x == bi) ≡ false = ground arith in rw (far, off) refl
  | inl near ↦
      let near' : x / 8 ≡ bi / 8 = (==_iff (x / 8) (bi / 8)).0 near in
      let bit : (x % 8 == bi % 8) ≡ (x == bi) = ground arith in
      rw
        (
          near,
          near',
          has_bit-with_bit (d (bi / 8)) (bi % 8) (bytes (bi / 8)) (omega arith) (x % 8)
              (omega arith),
          bit,
        )
        (ground arith)
]

-- The state after the bit `bi` of the map for the blocks from `b` has been set.
abbrev taken : FileSystem → ℕ → ℕ → FileSystem
taken s b bi =
    let m : ℕ = bblock s b in
    record s {
      blocks = update (update s.blocks m (marked (s.blocks m) bi)) (b + bi) zeros;
      written = (b + bi) ∷ m ∷ s.written;
    }

module _ (s : FileSystem) (is : IsFormatted s) (b bi : ℕ) (round : b % bpb ≡ 0) (in_map : bi < bpb)
    (small : b + bi < s.size) (clear : is_clear (s.blocks (bblock s b)) bi ≡ true) where
  same_map : bblock s (b + bi) ≡ bblock s b
  same_map = omega arith

  free_bit : is_used s (b + bi) ≡ false
  free_bit = let here : (b + bi) % bpb ≡ bi = omega arith in rw (same_map, here, clear) refl

  -- The block found is no block of the map.
  apart : (c : ℕ) → c < s.size → (bblock s c == b + bi) ≡ false
  apart c lt = elim (Bool-cases (bblock s c == b + bi)) [
    | inr e ↦ e
    | inl e ↦
        let at : bblock s c ≡ b + bi = (==_iff (bblock s c) (b + bi)).0 e in
        let used : is_used s (b + bi) ≡ true =
          subst (λ k. is_used s k ≡ true) at (is.maps c lt).1 in
        cc (free_bit, used)
  ]

  blocks_after :
      (c : ℕ)
      → c < s.size
      → (taken s b bi).blocks (bblock s c) ≡ (
          if bblock s c == bblock s b
          then marked (s.blocks (bblock s b)) bi
          else s.blocks (bblock s c))
  blocks_after c lt = rw (apart c lt) refl

  used_after : (c : ℕ) → c < s.size → is_used (taken s b bi) c ≡ ((c == b + bi) || is_used s c)
  used_after c lt = elim (Bool-cases (bblock s c == bblock s b)) [
    | inr e ↦
        let off : (c == b + bi) ≡ false = ground (arith, same_map) in
        let same : (taken s b bi).blocks (bblock s c) ≡ s.blocks (bblock s c) =
          blocks_after c lt ∙ rw e refl in
        ap (λ (d : Bytes). not (is_clear d (c % bpb))) same ∙ rw off refl
    | inl e ↦
        let at : bblock s c ≡ bblock s b = (==_iff (bblock s c) (bblock s b)).0 e in
        let same : (taken s b bi).blocks (bblock s c) ≡ marked (s.blocks (bblock s b)) bi =
          blocks_after c lt ∙ rw e refl in
        let bit : (c % bpb == bi) ≡ (c == b + bi) = ground arith in
        ap (λ (d : Bytes). not (is_clear d (c % bpb))) same
        ∙ is_clear-marked (s.blocks (bblock s b)) bi (c % bpb) (is.bytes (bblock s b)) in_map
            (omega arith)
        ∙ ap (λ t. t || not (is_clear (s.blocks (bblock s b)) (c % bpb))) bit
        ∙ ap (λ m. (c == b + bi) || not (is_clear (s.blocks m) (c % bpb))) (sym at)
  ]

  taken-Allocated :
      ((c : ℕ) → c < b + bi → is_used s c ≡ true) → Allocated s (b + bi) (taken s b bi)
  taken-Allocated before = record {
    small = small;
    free = free_bit;
    first = before;
    used = used_after;
    zeroed = λ i. rw (==_refl (b + bi)) refl;
    kept = λ c e m.
        let m' : (c == bblock s b) ≡ false = ap (λ k. c == k) (sym same_map) ∙ m in rw (e, m') refl;
    formatted = record {
      bytes = λ c i.
          let byte =
            with_bit-lt (s.blocks (bblock s b) (bi / 8)) (bi % 8) (is.bytes (bblock s b) (bi / 8))
              (omega arith) in
          ground (arith, is.bytes c i, is.bytes (bblock s b) i);
      boot = used_after 0 (omega arith) ∙ rw is.boot (ground arith);
      maps = λ c lt.
          let (lt', used) = is.maps c lt in
          (lt', used_after (bblock s c) lt' ∙ rw used (ground arith));
    };
    inodes = refl;
    size = refl;
    bmapstart = refl;
    ninodes = refl;
    inodestart = refl;
  }

module _ (s : FileSystem) (is : IsFormatted s) where
  -- A round that finds no clear bit has seen blocks in use only.
  round_used :
      (b : ℕ)
      → b % bpb ≡ 0
      → scan (bits_left s b) 0 (is_clear (s.blocks (bblock s b))) ≡ none
      → (c : ℕ) → b ≤ c
      → c < b + bpb
      → c < s.size
      → is_used s c ≡ true
  round_used b round e c low high small =
      let here : bblock s c ≡ bblock s b = omega arith in
      let bit : c % bpb ≡ c - b = omega arith in
      let clear =
        scan-none (bits_left s b) 0 (is_clear (s.blocks (bblock s b))) e (c - b) (omega arith)
          (ground arith) in
      rw (here, bit, clear) refl

  balloc_found :
      (b bi : ℕ)
      → b % bpb ≡ 0
      → ((c : ℕ) → c < b → c < s.size → is_used s c ≡ true)
      → scan (bits_left s b) 0 (is_clear (s.blocks (bblock s b))) ≡ some bi
      → Allocated s (b + bi) (taken s b bi)
  balloc_found b bi round before e =
      let (clear, lt) = scan_sound (bits_left s b) 0 (is_clear (s.blocks (bblock s b))) bi e in
      let in_map : bi < bpb = ground arith in
      let small : b + bi < s.size = ground arith in
      taken-Allocated s is b bi round in_map small clear (λ c lt'. elim (Bool-cases (ltb c b)) [
        | inl low ↦ before c (ltb→lt c b low) (omega arith)
        | inr high ↦
            let here : bblock s c ≡ bblock s b = ground arith in
            let bit : c % bpb ≡ c - b = ground arith in
            let set =
              scan_first (bits_left s b) 0 (is_clear (s.blocks (bblock s b))) bi e (c - b)
                (omega arith) (ground arith) in
            rw (here, bit, set) refl
      ])

  alloc_by :
      (fuel b f : ℕ)
      → b % bpb ≡ 0
      → s.size < b + fuel * bpb
      → ((c : ℕ) → c < b → c < s.size → is_used s c ≡ true)
      → f < s.size
      → is_used s f ≡ false
      → Returns (Allocated s) (balloc_from fuel b s)
  unfolding balloc_from
  alloc_by zero b f round enough before small free =
      absurd (cc (before f (omega arith) small, free))
  alloc_by (suc fuel) b f round enough before small free = elim (Bool-cases (ltb b s.size)) [
    | inr over ↦ absurd (cc (before f (ground arith) small, free))
    | inl under ↦ elim (Option-cases (scan (bits_left s b) 0 (is_clear (s.blocks (bblock s b))))) [
      | inl e ↦
          rw (under, e)
            (alloc_by fuel (b + bpb) f (omega arith) (omega arith)
              (λ c lt lt'. elim (Bool-cases (ltb c b)) [
                | inl low ↦ before c (ltb→lt c b low) lt'
                | inr high ↦ round_used b round e c (ground arith) lt lt'
              ])
              small free)
      | inr (bi, e) ↦ rw (under, e) (returns (balloc_found b bi round before e))
    ]
  ]

  full_by :
      (fuel b : ℕ)
      → b % bpb ≡ 0
      → s.size + bpb < b + fuel * bpb
      → b < s.size + bpb
      → ((c : ℕ) → c < s.size → is_used s c ≡ true)
      → balloc_from fuel b s ≡ panic "balloc: out of blocks"
  unfolding balloc_from
  full_by zero b round enough near full = absurd (omega arith)
  full_by (suc fuel) b round enough near full = elim (Bool-cases (ltb b s.size)) [
    | inr over ↦ rw over refl
    | inl under ↦ elim (Option-cases (scan (bits_left s b) 0 (is_clear (s.blocks (bblock s b))))) [
      | inl e ↦
          rw (under, e) (full_by fuel (b + bpb) (omega arith) (omega arith) (ground arith) full)
      | inr (bi, e) ↦
          let a = balloc_found b bi round (λ c lt. full c) e in
          absurd (cc (full (b + bi) a.small, a.free))
    ]
  ]

  -- On a formatted disk with a free block balloc returns the first free block, now in use and zeroed;
  -- the other blocks, those of the map aside, and the uses of other blocks are as before.
  pub balloc-Allocated :
      (f : ℕ) → f < s.size → is_used s f ≡ false → Returns (Allocated s) (balloc s)
  unfolding balloc
  balloc-Allocated f small free =
      alloc_by (s.size / bpb + 2) 0 f refl (omega arith) (λ c lt. absurd (omega arith)) small free

  -- On a formatted disk without a free block balloc panics.
  pub balloc_full :
      ((c : ℕ) → c < s.size → is_used s c ≡ true) → balloc s ≡ panic "balloc: out of blocks"
  unfolding balloc
  balloc_full full = full_by (s.size / bpb + 2) 0 refl (omega arith) (omega arith) full
