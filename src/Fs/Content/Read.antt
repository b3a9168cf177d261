-- ===== src/Fs/Content/Read.antt =====
-- readi of project3_filesystem/fs.c against the bytes of a file.
use ele3021_os.Fs.Content.{min_of, read_file, read_from, bytes_of}
use ele3021_os.Fs.Map.Paths.{maxfile, address}
use ele3021_os.Fs.Map.{ntriple, ndouble, root_of, bmap, bmapstep, ensure_root}
use ele3021_os.Fs.Map.Block.{block_address}
use ele3021_os.Prelude.{
  some, none, not, ◌||◌, subst, ◌^◌, ◌*◌, if◌then◌else◌, ◌≤◌, ◌++◌, ◌∙◌, true, sym, ap, ◌-◌, inr,
  arith, inl, ltb, refl, Bool-cases, zero, false, ◌≡◌, ◌+◌, ◌%◌, suc, ◌==◌, ◌<◌, ◌∷◌, [], ◌/◌, List,
  ℕ,
}
use ele3021_os.Fs.State.{nindirect, word_at, bsize, Inode, FileSystem}
use ele3021_os.Outcome.{ok, ◌>>=◌}

-- Byte `i` of a file, and `k` bytes from `i` on.
abbrev pub file_byte : FileSystem → Inode → ℕ → ℕ
file_byte s n i = s.blocks (block_address s n (i / bsize)) (i % bsize)

unfoldable pub file_bytes : FileSystem → Inode → ℕ → ℕ → List ℕ
file_bytes s n i zero = []
file_bytes s n i (suc k) = file_byte s n i ∷ file_bytes s n (i + 1) k

module _ (s : FileSystem) (ip : ℕ) where
  abbrev n : Inode
  n = s.inodes ip

  ensure_root_here : (r : ℕ) → (root_of n r == 0) ≡ false → ensure_root ip r s ≡ ok (root_of n r) s
  unfolding ensure_root
  ensure_root_here r real = rw real refl

  step_here :
      (r : ℕ) (p : List ℕ) (i : ℕ)
      → (address s n r (i ∷ p) == 0) ≡ false
      → ((address s n r p == 0) ≡ false)
        × (bmapstep (address s n r p) i s ≡ ok (address s n r (i ∷ p)) s)
  unfolding bmapstep address
  step_here r p i real = elim (Bool-cases (address s n r p == 0)) [
    | inl none_ ↦
        let zero_ : address s n r (i ∷ p) ≡ 0 = rw none_ refl in absurd (ground (arith, zero_))
    | inr some_ ↦
        let at : address s n r (i ∷ p) ≡ word_at (s.blocks (address s n r p)) i = rw some_ refl in
        let real' : (word_at (s.blocks (address s n r p)) i == 0) ≡ false =
          ap (λ a. a == 0) (sym at) ∙ real in
        (some_, rw (some_, real') refl)
  ]

  root_here :
      (r : ℕ) → (address s n r [] == 0) ≡ false → ensure_root ip r s ≡ ok (address s n r []) s
  unfolding address
  root_here r real = ensure_root_here r real

  two_here :
      (r i : ℕ)
      → (address s n r (i ∷ []) == 0) ≡ false
      → (ensure_root ip r >>= λ a. bmapstep a i) s ≡ ok (address s n r (i ∷ [])) s
  two_here r i real = let (up, e) = step_here r [] i real in rw (root_here r up) e

  three_here :
      (r i j : ℕ)
      → (address s n r (j ∷ i ∷ []) == 0) ≡ false
      → (ensure_root ip r >>= λ a. bmapstep a i >>= λ b. bmapstep b j) s
        ≡ ok (address s n r (j ∷ i ∷ [])) s
  three_here r i j real =
      let (up, e) = step_here r (i ∷ []) j real in
      let (top, e') = step_here r [] i up in rw (root_here r top, e') e

  four_here :
      (r i j k : ℕ)
      → (address s n r (k ∷ j ∷ i ∷ []) == 0) ≡ false
      → (ensure_root ip r >>= λ a. bmapstep a i >>= λ b. bmapstep b j >>= λ c. bmapstep c k) s
        ≡ ok (address s n r (k ∷ j ∷ i ∷ [])) s
  four_here r i j k real =
      let (up, e) = step_here r (j ∷ i ∷ []) k real in
      let (mid, e') = step_here r (i ∷ []) j up in
      let (top, e'') = step_here r [] i mid in rw (root_here r top, e'', e') e

  -- bmap of a block that the file has returns it and changes nothing.
  pub bmap_here :
      (bn : ℕ)
      → bn < maxfile
      → (block_address s n bn == 0) ≡ false
      → bmap ip bn s ≡ ok (block_address s n bn) s
  unfolding bmap
  bmap_here bn lt real = elim (Bool-cases (ltb bn 10)) [
    | inl e ↦ rw e (root_here bn (rw e at real))
    | inr e ↦ elim (Bool-cases (ltb bn 138)) [
      | inl f ↦
          let f' : ltb (bn - 10) nindirect ≡ true = ground arith in
          rw (e, f, f') (two_here 10 (bn - 10) (rw (e, f) at real))
      | inr f ↦
          let f' : ltb (bn - 10) nindirect ≡ false = ground arith in
          elim (Bool-cases (ltb bn 16522)) [
            | inl g ↦
                let g' : ltb (bn - 138) ndouble ≡ true = ground arith in
                rw (e, f, f', g, g')
                  (three_here 11 ((bn - 138) / 128) ((bn - 138) % 128) (rw (e, f, g) at real))
            | inr g ↦
                let g' : ltb (bn - 138) ndouble ≡ false = ground arith in
                let h : ltb (bn - 16522) ntriple ≡ true = ground arith in
                rw (e, f, f', g, g', h)
                  (four_here 12 ((bn - 16522) / 16384) ((bn - 16522) % 16384 / 128)
                    ((bn - 16522) % 16384 % 128) (rw (e, f, g) at real))
          ]
    ]
  ]

  file_bytes-append :
      (i m k : ℕ) → file_bytes s n i (m + k) ≡ file_bytes s n i m ++ file_bytes s n (i + m) k
  unfolding file_bytes
  file_bytes-append i zero k =
      let at : i + 0 ≡ i = omega arith in let none_ : 0 + k ≡ k = omega arith in rw (none_, at) refl
  file_bytes-append i (suc m) k =
      let at : i + 1 + m ≡ i + suc m = omega arith in
      let total : suc m + k ≡ suc (m + k) = omega arith in
      rw total (ap (λ l. file_byte s n i ∷ l) (file_bytes-append (i + 1) m k ∙ rw at refl))

  -- Bytes of one block.
  file_bytes-block :
      (q o m : ℕ)
      → o + m ≤ bsize
      → file_bytes s n (512 * q + o) m ≡ bytes_of (s.blocks (block_address s n q)) o m
  unfolding file_bytes bytes_of
  file_bytes-block q o zero le = refl
  file_bytes-block q o (suc m) le =
      let block : (512 * q + o) / 512 ≡ q = omega arith in
      let place : (512 * q + o) % 512 ≡ o = omega arith in
      let at : 512 * q + o + 1 ≡ 512 * q + (o + 1) = omega arith in
      let rest = file_bytes-block q (o + 1) m (omega arith) in
      let byte : file_byte s n (512 * q + o) ≡ s.blocks (block_address s n q) o =
        ap (λ b. s.blocks (block_address s n b) ((512 * q + o) % 512)) block
        ∙ ap (λ j. s.blocks (block_address s n q) j) place in
      ap (λ c. c ∷ file_bytes s n (512 * q + o + 1) m) byte
      ∙ ap (λ l. s.blocks (block_address s n q) o ∷ l) (ap (λ j. file_bytes s n j m) at ∙ rest)

  -- The file has every block of the range.
  abbrev pub IsThere : ℕ → ℕ → Type 0
  IsThere off k =
      (bn : ℕ)
      → off / bsize ≤ bn
      → bn * bsize < off + k
      → (bn < maxfile) × ((block_address s n bn == 0) ≡ false)

  read_from-file_bytes :
      (fuel off k : ℕ)
      → k < fuel
      → IsThere off k
      → read_from fuel ip off k s ≡ ok (file_bytes s n off k) s
  unfolding read_from file_bytes
  read_from-file_bytes zero off k lt there = absurd (omega arith)
  read_from-file_bytes (suc fuel) off zero lt there = refl
  read_from-file_bytes (suc fuel) off (suc k) lt there =
      let m : ℕ = min_of (suc k) (512 - off % 512) in
      let bound : (0 < m) × (m ≤ suc k) × (off % 512 + m ≤ 512) = ground arith in
      let (here, real) = there (off / 512) (omega arith) (omega arith) in
      let first = bmap_here (off / 512) here real in
      let rest =
        read_from-file_bytes fuel (off + m) (suc k - m) (omega (arith, bound.0))
          (λ bn le lt'. there bn (omega (arith, le)) (omega (arith, lt', bound.1))) in
      let whole : 512 * (off / 512) + off % 512 ≡ off = omega arith in
      let block : file_bytes s n off m
          ≡ bytes_of (s.blocks (block_address s n (off / 512))) (off % 512) m =
        subst
          (λ i.
            file_bytes s n i m ≡ bytes_of (s.blocks (block_address s n (off / 512))) (off % 512) m)
          whole (file_bytes-block (off / 512) (off % 512) m bound.2) in
      let split : m + (suc k - m) ≡ suc k = omega (arith, bound.1) in
      let joined : file_bytes s n off (suc k)
          ≡ file_bytes s n off m ++ file_bytes s n (off + m) (suc k - m) =
        ap (λ j. file_bytes s n off j) (sym split) ∙ file_bytes-append off m (suc k - m) in
      let more : (suc k == 0) ≡ false = ground arith in
      rw (more, first, rest)
        (ap (λ l. ok l s)
          (sym (joined ∙ ap (λ l. l ++ file_bytes s n (off + m) (suc k - m)) block)))

-- How many bytes of a file of `size` bytes a read of `k` bytes from `off` on gets.
abbrev pub available : ℕ → ℕ → ℕ → ℕ
available size off k = if ltb size (off + k) then size - off else k

-- For an offset and a length that are words, in a file that has every block of the range that is
-- read, read_file changes nothing; it returns -1 when the offset is past the end or the sum overflows a
-- word, and else the bytes of the file from the offset on, up to the end of the file.
pub read_file-file_bytes :
    (s : FileSystem) (ip off k : ℕ)
    → off < 2 ^ 32
    → k < 2 ^ 32
    → IsThere s ip off (available (s.inodes ip).size off k)
    → read_file ip off k s
      ≡ ok
          (if ltb (s.inodes ip).size off || not (ltb (off + k) (2 ^ 32))
            then none
            else some (file_bytes s (s.inodes ip) off (available (s.inodes ip).size off k)))
          s
unfolding read_file
read_file-file_bytes s ip off k lt lt' there =
    let size : ℕ = (s.inodes ip).size in
    let overflow : ltb ((off + k) % 2 ^ 32) off ≡ not (ltb (off + k) (2 ^ 32)) = ground arith in
    rw overflow (elim (Bool-cases (ltb size off || not (ltb (off + k) (2 ^ 32)))) [
      | inl e ↦ rw e refl
      | inr e ↦
          let few : available size off k < k + 1 = ground (arith, e) in
          rw (e, read_from-file_bytes s ip (k + 1) off (available size off k) few there) refl
    ])
