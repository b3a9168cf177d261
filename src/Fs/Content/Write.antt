-- ===== src/Fs/Content/Write.antt =====
-- The loop of writei of project3_filesystem/fs.c over blocks that the file has.
use ele3021_os.Fs.Content.{min_of, overwrite, write_from}
use ele3021_os.Fs.Map.{bmap}
use ele3021_os.Fs.Map.Chain.{same_place-eq}
use ele3021_os.Fs.Content.Read.{bmap_here, file_byte}
use ele3021_os.Fs.Map.Block.{block_address}
use ele3021_os.Fs.Map.Paths.{
  full_block, block_places, IsPlace-block, indices_of_block, root_of_block, address, maxfile,
  IsPlace,
}
use ele3021_os.Fs.Map.Tree.{IsTree}
use ele3021_os.Prelude.{
  take, drop, zero, suc, ◌*◌, ◌+◌, ◌≤◌, ◌-◌, refl, [], length, true, ◌∙◌, sym, ap, ==_iff, inl, inr,
  ◌%◌, Bool-cases, if◌then◌else◌, arith, false, ◌∷◌, ◌==◌, ◌≡◌, update, ◌/◌, ◌<◌, List, ℕ,
}
use ele3021_os.Fs.State.{word_at, bsize, Bytes, Inode, FileSystem}
use ele3021_os.Fs.Content.Copy.{
  nth-take, nth-drop, length-drop, overwrite_lem, length-take, within, nth,
}
use ele3021_os.Outcome.{Returns-mono, returns, Returns, ok}

module _ (s : FileSystem) (ip : ℕ) (tree : IsTree s (s.inodes ip)) where
  abbrev file : Inode
  file = s.inodes ip

  -- The map of the file and the inodes are as in `s`.
  pub record Held (t : FileSystem) : Type 0 where
    pub places : (q : ℕ) (p : List ℕ) → IsPlace q p → address t file q p ≡ address s file q p
    pub inodes : t.inodes ≡ s.inodes

  -- The file has the block.
  abbrev pub IsPresent : ℕ → Type 0
  IsPresent bn = (bn < maxfile) × ((block_address s file bn == 0) ≡ false)

  -- Byte `j` of the file is that of `src`, written from `off` on, or that of `t`.
  abbrev pub Stored : ℕ → List ℕ → FileSystem → FileSystem → Type 0
  Stored off src t u =
      (j : ℕ)
      → IsPresent (j / bsize)
      → file_byte u file j
        ≡ (if within off (length src) j then nth src (j - off) else file_byte t file j)

  module _ (bn : ℕ) (present : IsPresent bn) (t : FileSystem) (h : Held t) (d : Bytes) where
    abbrev a : ℕ
    a = block_address s file bn

    abbrev written : FileSystem
    written = record t { blocks = update t.blocks a d; written = a ∷ t.written }

    -- No address stands in a block of data.
    not_inner :
        (q i : ℕ) (p : List ℕ)
        → IsPlace q (i ∷ p)
        → (address s file q p == 0) ≡ false
        → (address s file q p == a) ≡ false
    not_inner q i p is real = elim (Bool-cases (address s file q p == a)) [
      | inr e ↦ e
      | inl e ↦
          let at : address s file q p ≡ a = (==_iff (address s file q p) a).0 e in
          let above : IsPlace q p = (is.0, omega (arith, is.1), is.2.1) in
          let same =
            tree.unique q p (root_of_block bn) (indices_of_block bn) above
              (IsPlace-block bn present.0) real at in
          let (eq, ep) = same_place-eq q p (root_of_block bn) (indices_of_block bn) same in
          let long : length p ≡ length (indices_of_block bn) = ap length ep in
          let full = full_block bn present.0 in absurd (omega (arith, is.1, long, full, eq))
    ]

    places_after :
        (q : ℕ) (p : List ℕ) → IsPlace q p → address written file q p ≡ address s file q p
    unfolding address
    places_after q [] is = refl
    places_after q (i ∷ p) is =
        let above : IsPlace q p = (is.0, omega (arith, is.1), is.2.1) in
        let up = places_after q p above in
        let up' = h.places q p above in
        let last = h.places q (i ∷ p) is in
        elim (Bool-cases (address s file q p == 0)) [
          | inl none_ ↦ rw (up, none_) refl
          | inr some_ ↦
              let off = not_inner q i p is some_ in
              let read : address t file q (i ∷ p) ≡ word_at (t.blocks (address s file q p)) i =
                rw (up', some_) refl in
              rw (up, off)
                (ap (λ v. if address s file q p == 0 then 0 else v) (sym read ∙ last)
                  ∙ rw some_ refl)
        ]

    Held-written : Held written
    Held-written = record { places = places_after; inodes = h.inodes }

    -- The bytes of the block are new, the others as before.
    byte_after :
        (j : ℕ)
        → IsPresent (j / bsize)
        → file_byte written file j ≡ (if j / bsize == bn then d (j % bsize) else file_byte t file j)
    byte_after j (lt, real) =
        let b : ℕ = j / bsize in
        let at = places_after (root_of_block b) (indices_of_block b) (IsPlace-block b lt) in
        let at' = h.places (root_of_block b) (indices_of_block b) (IsPlace-block b lt) in
        elim (Bool-cases (b == bn)) [
          | inl e ↦
              let same : b ≡ bn = (==_iff b bn).0 e in
              let here : (block_address s file b == a) ≡ true =
                (==_iff (block_address s file b) a).1 (ap (λ k. block_address s file k) same) in
              rw (at, e, here) refl
          | inr e ↦
              let other : (block_address s file b == a) ≡ false =
                elim (Bool-cases (block_address s file b == a)) [
                  | inr off ↦ off
                  | inl on ↦
                      let both = (==_iff (block_address s file b) a).0 on in
                      let place =
                        tree.unique (root_of_block b) (indices_of_block b) (root_of_block bn)
                          (indices_of_block bn) (IsPlace-block b lt) (IsPlace-block bn present.0)
                          real both in
                      let (er, ei) =
                        same_place-eq (root_of_block b) (indices_of_block b) (root_of_block bn)
                          (indices_of_block bn) place in
                      let same : b ≡ bn = block_places b bn lt present.0 er ei in
                      absurd (ground (arith, same, e))
                ] in
              rw (at, e, other) (ap (λ x. t.blocks x (j % bsize)) (sym at'))
        ]

  bmap-Held :
      (t : FileSystem)
      → Held t
      → (bn : ℕ) → IsPresent bn
      → bmap ip bn t ≡ ok (block_address s file bn) t
  bmap-Held t h bn (lt, real) =
      let same : t.inodes ip ≡ file = ap (λ (f : ℕ → Inode). f ip) h.inodes in
      let at : block_address t (t.inodes ip) bn ≡ block_address s file bn =
        ap (λ k. block_address t k bn) same
        ∙ h.places (root_of_block bn) (indices_of_block bn) (IsPlace-block bn lt) in
      bmap_here t ip bn lt (ap (λ k. k == 0) at ∙ real) ∙ ap (λ k. ok k t) at

  -- One round of the loop, and then the rest.
  module _ (off : ℕ) (src : List ℕ) (t : FileSystem) (h : Held t)
      (present : IsPresent (off / bsize)) (m : ℕ) (few : m ≤ length src)
      (fits : off % bsize + m ≤ bsize) where
    abbrev round : FileSystem
    round =
        written (off / bsize) present t h
          (overwrite (t.blocks (block_address s file (off / bsize))) (off % bsize) (take m src))

    round-Stored : Stored off (take m src) t round
    round-Stored j is =
        let b : ℕ = off / bsize in
        let count = length-take m src few in
        let at =
          byte_after b present t h
            (overwrite (t.blocks (block_address s file b)) (off % bsize) (take m src)) j is in
        at ∙ elim (Bool-cases (j / bsize == b)) [
          | inr e ↦
              let off' : within off (length (take m src)) j ≡ false = ground (arith, count) in
              rw (e, off') refl
          | inl e ↦
              let same : j / bsize ≡ b = (==_iff (j / bsize) b).0 e in
              let byte =
                overwrite_lem (t.blocks (block_address s file b)) (off % bsize) (take m src)
                  (j % bsize) in
              let inside : within (off % bsize) (length (take m src)) (j % bsize)
                  ≡ within off (length (take m src)) j =
                ground (arith, count, same) in
              let place : within off (length (take m src)) j ≡ true
                  → j % bsize - off % bsize ≡ j - off =
                λ on. ground (arith, same) in
              let before : t.blocks (block_address s file b) (j % bsize) ≡ file_byte t file j =
                ap (λ x. t.blocks x (j % bsize))
                  (ap (λ k. block_address s file k) (sym same)
                    ∙ sym (
                        h.places (root_of_block (j / bsize)) (indices_of_block (j / bsize))
                          (IsPlace-block (j / bsize) is.0))) in
              rw e (
                byte
                ∙ rw (inside, before)
                    (elim (Bool-cases (within off (length (take m src)) j)) [
                      | inl on ↦ rw (on, place on) refl
                      | inr none_ ↦ rw none_ refl
                    ]))
        ]

  -- One write after the other.
  pub Stored-join :
      (off : ℕ) (src : List ℕ) (m : ℕ) (few : m ≤ length src) (t v u : FileSystem)
      → Stored off (take m src) t v
      → Stored (off + m) (drop m src) v u
      → Stored off src t u
  Stored-join off src m few t v u first rest j is =
      let count = length-take m src few in
      let left = length-drop m src few in
      rest j is
      ∙ rw (first j is) (elim (Bool-cases (within (off + m) (length (drop m src)) j)) [
        | inl on ↦
            let on' : within off (length src) j ≡ true = ground (arith, left) in
            let place : m + (j - (off + m)) ≡ j - off = ground arith in
            rw (on, on') (nth-drop m src (j - (off + m)) ∙ rw place refl)
        | inr out_ ↦ elim (Bool-cases (within off (length (take m src)) j)) [
          | inl on ↦
              let on' : within off (length src) j ≡ true = ground (arith, count) in
              let small : j - off < m = ground (arith, count) in
              rw (out_, on, on') (nth-take m src (j - off) small)
          | inr out' ↦
              let off' : within off (length src) j ≡ false = ground (arith, count, left) in
              rw (out_, out', off') refl
        ]
      ])

  pub write_from-Stored :
      (fuel off : ℕ) (src : List ℕ) (t : FileSystem)
      → length src < fuel
      → Held t
      → ((bn : ℕ) → off / bsize ≤ bn → bn * bsize < off + length src → IsPresent bn)
      → Returns (λ _ u. Held u × Stored off src t u) (write_from fuel ip off src t)
  unfolding write_from
  write_from-Stored zero off src t lt h there = absurd (omega arith)
  write_from-Stored (suc fuel) off [] t lt h there =
      returns (h, λ j is. let out_ : within off 0 j ≡ false = ground arith in rw out_ refl)
  write_from-Stored (suc fuel) off (b ∷ bs) t lt h there =
      let src : List ℕ = b ∷ bs in
      let m : ℕ = min_of (length src) (512 - off % 512) in
      let bound : (0 < m) × (m ≤ length src) × (off % 512 + m ≤ 512) = ground arith in
      let here : IsPresent (off / 512) = there (off / 512) (omega arith) (omega arith) in
      let first = bmap-Held t h (off / 512) here in
      let more : (length src == 0) ≡ false = ground arith in
      let left = length-drop m src bound.1 in
      let held =
        Held-written (off / 512) here t h
          (overwrite (t.blocks (block_address s file (off / 512))) (off % 512) (take m src)) in
      let rest =
        write_from-Stored fuel (off + m) (drop m src) (round off src t h here m bound.1 bound.2)
          (omega (arith, left, bound.0)) held
          (λ bn le lt'. there bn (omega (arith, le)) (omega (arith, lt', left))) in
      rw (more, first)
        (Returns-mono rest (λ _ u (h', st). (
          h',
          Stored-join off src m bound.1 t (round off src t h here m bound.1 bound.2) u
              (round-Stored off src t h here m bound.1 bound.2) st,
        )))
