-- ===== src/Fs/Content/Rewrite.antt =====
-- writei and then readi of project3_filesystem/fs.c.
use ele3021_os.Fs.Map.Block.{block_address}
use ele3021_os.Fs.Content.Copy.{within, nth}
use ele3021_os.Fs.Content.{write_from, read_file, write_file}
use ele3021_os.Fs.Content.Write.{write_from-Stored, IsPresent, Stored, Held}
use ele3021_os.Fs.Map.Paths.{IsPlace-block, indices_of_block, root_of_block, maxfile}
use ele3021_os.Fs.Map.Tree.{IsTree}
use ele3021_os.Prelude.{
  ◌&&◌, not, ◌∙◌, ◌/◌, refl, ◌-◌, [], sym, ◌%◌, true, suc, false, arith, ◌==◌, subst, ltb, ap, ◌∷◌,
  ◌*◌, some, ◌≡◌, ◌^◌, length, Option, ◌≤◌, ◌<◌, ◌+◌, List, ℕ,
}
use ele3021_os.Fs.State.{bsize, Inode, FileSystem}
use ele3021_os.Fs.Content.Read.{read_file-file_bytes, IsThere, available, file_byte, file_bytes}
use ele3021_os.Outcome.{Returns-mono, returns, Returns-bind, ok, Returns}

file_bytes_of :
    (t : FileSystem) (n : Inode) (src : List ℕ) (off : ℕ)
    → ((i : ℕ) → i < length src → file_byte t n (off + i) ≡ nth src i)
    → file_bytes t n off (length src) ≡ src
unfolding file_bytes
file_bytes_of t n [] off same = refl
file_bytes_of t n (b ∷ bs) off same =
    let first : file_byte t n off ≡ b =
      subst (λ k. file_byte t n k ≡ b) (omega arith) (same 0 (omega arith)) in
    let rest = file_bytes_of t n bs (off + 1) (λ i lt.
      subst (λ k. file_byte t n k ≡ nth bs i) (omega arith) (same (suc i) (omega arith))) in
    rw (first, rest) refl

-- The range lies in the file, which has all its blocks.
pub record InFile (s : FileSystem) (ip off k : ℕ) : Type 0 where
  pub small : off + k ≤ (s.inodes ip).size
  pub words : (s.inodes ip).size < 2 ^ 32
  pub most : (s.inodes ip).size ≤ maxfile * bsize
  pub blocks :
      (bn : ℕ) → bn * bsize < (s.inodes ip).size → (block_address s (s.inodes ip) bn == 0) ≡ false

-- What writei of `src` at `off` does inside a file.
pub record Rewritten (s : FileSystem) (ip off : ℕ) (src : List ℕ) (r : Option ℕ) (t : FileSystem)
    : Type 0 where
  pub count : r ≡ some (length src)
  pub read : read_file ip off (length src) t ≡ ok (some src) t
  pub others :
      (j : ℕ)
      → j < (s.inodes ip).size
      → within off (length src) j ≡ false
      → file_byte t (s.inodes ip) j ≡ file_byte s (s.inodes ip) j
  pub inodes : t.inodes ≡ s.inodes

module _ (s : FileSystem) (ip off : ℕ) (src : List ℕ) (tree : IsTree s (s.inodes ip))
    (range : InFile s ip off (length src)) where
  abbrev file : Inode
  file = s.inodes ip

  present : (bn : ℕ) → bn * bsize < file.size → IsPresent s ip tree bn
  present bn lt = (omega (arith, range.most), range.blocks bn lt)

  pub Held-Rewritten :
      (t : FileSystem)
      → Held s ip tree t
      → Stored s ip tree off src s t
      → Rewritten s ip off src (some (length src)) t
  Held-Rewritten t h st =
      let same : t.inodes ip ≡ file = ap (λ (f : ℕ → Inode). f ip) h.inodes in
      let size : (t.inodes ip).size ≡ file.size = ap (λ (m : Inode). m.size) same in
      let short : ltb (t.inodes ip).size (off + length src) ≡ false =
        ground (arith, size, range.small) in
      let before : ltb (t.inodes ip).size off ≡ false = ground (arith, size, range.small) in
      let word : ltb (off + length src) (2 ^ 32) ≡ true =
        ground (arith, range.small, range.words) in
      let bytes : file_bytes t (t.inodes ip) off (length src) ≡ src =
        subst (λ m. file_bytes t m off (length src) ≡ src) (sym same)
          (file_bytes_of t file src off (λ i lt.
            let on : within off (length src) (off + i) ≡ true = ground (arith, lt) in
            let place : off + i - off ≡ i = omega arith in
            st (off + i) (present ((off + i) / bsize) (omega (arith, range.small)))
            ∙ rw (on, place) refl)) in
      let whole : available (t.inodes ip).size off (length src) ≡ length src = rw short refl in
      let there : IsThere t ip off (available (t.inodes ip).size off (length src)) = λ bn le lt.
        let (few, real) = present bn (omega (arith, range.small, whole)) in
        (
          few,
          ap (λ m. block_address t m bn == 0) same
              ∙ ap (λ a. a == 0)
                  (h.places (root_of_block bn) (indices_of_block bn) (IsPlace-block bn few))
              ∙ real,
        ) in
      record {
        count = refl;
        read =
            read_file-file_bytes t ip off (length src) (omega (arith, range.small, range.words))
              (omega (arith, range.small, range.words)) there
            ∙ rw (before, word, whole, bytes) refl;
        others = λ j lt out_. st j (present (j / bsize) (omega arith)) ∙ rw out_ refl;
        inodes = h.inodes;
      }

  -- A write inside the file, where its map is still that of `s`.
  pub write_file-Stored :
      (t : FileSystem)
      → Held s ip tree t
      → Returns
          (λ r u. (r ≡ some (length src)) × Held s ip tree u × Stored s ip tree off src t u)
          (write_file ip off src t)
  unfolding write_file
  write_file-Stored t held =
      let same : (t.inodes ip).size ≡ file.size = ap (λ (f : ℕ → Inode). (f ip).size) held.inodes in
      let before : ltb file.size off ≡ false = ground (arith, range.small) in
      let word : ltb ((off + length src) % 2 ^ 32) off ≡ false =
        ground (arith, range.small, range.words) in
      let most : ltb (maxfile * bsize) (off + length src) ≡ false =
        ground (arith, range.small, range.most) in
      rw (same, before, word, most)
        (Returns-bind (write_from (length src + 1) ip off src t) _
          (write_from-Stored s ip tree (length src + 1) off src t (omega arith) held
            (λ bn le lt. present bn (omega (arith, range.small))))
          (λ _ u (h, st).
            let kept : ltb file.size (off + length src) ≡ false = ground (arith, range.small) in
            let idle : (not (length src == 0) && false) ≡ false = ground arith in
            rw (kept, idle) (returns (refl, h, st))))

  -- When no block of the file of inode `ip` is at two places, and the range lies in the file, which has
  -- all its blocks, write_file of `src` returns the count: a read of the range then returns `src`, and the
  -- other bytes of the file and the inodes are as before.
  pub write_file-Rewritten : Returns (Rewritten s ip off src) (write_file ip off src s)
  write_file-Rewritten =
      Returns-mono (write_file-Stored s (record { places = λ q p is. refl; inodes = refl }))
        (λ r t (e, h, st). subst (λ c. Rewritten s ip off src c t) (sym e) (Held-Rewritten t h st))
