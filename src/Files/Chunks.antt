-- ===== src/Files/Chunks.antt =====
-- filewrite of project3_filesystem/file.c: a long write goes to the file in chunks.
use ele3021_os.Fs.Content.Copy.{within, length-take, length-drop}
use ele3021_os.Fs.Map.Tree.{IsTree}
use ele3021_os.Fs.State.{Inode, FileSystem}
use ele3021_os.Files.{Files, File, write_chunks, lift_fs}
use ele3021_os.Fs.Content.{write_file, min_of}
use ele3021_os.Fs.Content.Write.{Held, Stored, Stored-join}
use ele3021_os.Fs.Content.Rewrite.{InFile, write_file-Stored}
use ele3021_os.Fs.Inodes.{ilock}
use ele3021_os.Outcome.{and_then, Outcome, ok, Cmd, Returns-mono, Returns, returns}
use ele3021_os.Prelude.{
  ==_refl, ◌^◌, ◌%◌, update, ==_iff, drop, [], zero, take, ◌∙◌, ap, ◌≤◌, ◌∷◌, suc, arith, ◌<◌,
  length, ◌+◌, refl, List, true, false, ◌≡◌, ◌==◌, ℕ,
}

-- A run of fs.c inside a run on the files.
pub lift_fs-Returns :
    {A B : Type 0} {P : A → FileSystem → Type 0} {Q : B → Files → Type 0} (o : Outcome FileSystem A)
    (s : Files) (k : A → Cmd Files B)
    → Returns P o
    → ((a : A) (u : FileSystem) → P a u → Returns Q (k a (record s { fs = u })))
    → Returns Q (and_then (lift_fs o s) k)
lift_fs-Returns o s k (returns h) next = next _ _ h

-- An inode that ilock need not read.
pub ilock_ready :
    (s : FileSystem) (ip : ℕ)
    → ((s.inodes ip).ref == 0) ≡ false
    → (s.inodes ip).valid ≡ true
    → ilock ip s ≡ ok tt s
unfolding ilock
ilock_ready s ip used valid = rw (used, valid) refl

module _ (s : FileSystem) (ip : ℕ) (tree : IsTree s (s.inodes ip))
    (used : ((s.inodes ip).ref == 0) ≡ false) (valid : (s.inodes ip).valid ≡ true) (f : ℕ) where
  -- What the chunks leave.
  pub record Chunked (off : ℕ) (src : List ℕ) (t u : Files) : Type 0 where
    pub held : Held s ip tree u.fs
    pub stored : Stored s ip tree off src t.fs u.fs
    pub offset : u.file f ≡ record (t.file f) { off = off + length src }
    pub others : (g : ℕ) → (g == f) ≡ false → u.file g ≡ t.file g
    pub pipes : u.pipes ≡ t.pipes

  pub write_chunks-Chunked :
      (fuel off : ℕ) (src : List ℕ) (t : Files)
      → length src < fuel
      → Held s ip tree t.fs
      → InFile s ip off (length src)
      → (t.file f).off ≡ off
      → Returns (λ r u. (r ≡ true) × Chunked off src t u) (write_chunks fuel f ip src t)
  unfolding write_chunks
  write_chunks-Chunked zero off src t lt held range at = absurd (omega arith)
  write_chunks-Chunked (suc fuel) off [] t lt held range at = returns (
    refl,
    record {
      held = held;
      stored = λ j is. let out_ : within off 0 j ≡ false = ground arith in rw out_ refl;
      offset = let none_ : off + 0 ≡ (t.file f).off = omega (arith, at) in rw none_ refl;
      others = λ g e. refl;
      pipes = refl;
    },
  )
  write_chunks-Chunked (suc fuel) off (b ∷ bs) t lt held range at =
      let src : List ℕ = b ∷ bs in
      let m : ℕ = min_of (length src) 1536 in
      let bound : (0 < m) × (m ≤ length src) = ground arith in
      let more : (length src == 0) ≡ false = ground arith in
      let same : t.fs.inodes ip ≡ s.inodes ip = ap (λ (g : ℕ → Inode). g ip) held.inodes in
      let lock =
        ilock_ready t.fs ip (ap (λ (n : Inode). n.ref == 0) same ∙ used)
          (ap (λ (n : Inode). n.valid) same ∙ valid) in
      let count = length-take m src bound.1 in
      let left = length-drop m src bound.1 in
      let part : InFile s ip off (length (take m src)) = record {
        small = omega (arith, range.small, count, bound.1);
        words = range.words;
        most = range.most;
        blocks = range.blocks;
      } in
      let rest : InFile s ip (off + m) (length (drop m src)) = record {
        small = omega (arith, range.small, left);
        words = range.words;
        most = range.most;
        blocks = range.blocks;
      } in
      let whole : (length (take m src) == m) ≡ true = (==_iff (length (take m src)) m).1 count in
      rw (more, lock, at)
        (lift_fs-Returns (write_file ip off (take m src) t.fs) t _
          (write_file-Stored s ip off (take m src) tree part t.fs held)
          (λ r u (e, h, st).
            let v : Files = record t {
              fs = u;
              file =
                  update t.file f
                    (record (t.file f) { off = ((t.file f).off + length (take m src)) % 2 ^ 32 });
            } in
            let moved : (v.file f).off ≡ off + m =
              rw (==_refl f) (omega (arith, at, count, range.small, range.words, bound.1)) in
            let here : v.file f ≡ record (t.file f) { off = off + m } = rw (==_refl f) (
              ap (λ o. record (t.file f) { off = o })
                (omega (arith, at, count, range.small, range.words, bound.1))) in
            rw (e, whole)
              (Returns-mono
                (write_chunks-Chunked fuel (off + m) (drop m src) v
                  (omega (arith, left, bound.0, lt)) h rest moved)
                (λ r' w (e', c). (
                  e',
                  record {
                    held = c.held;
                    stored = Stored-join s ip tree off src m bound.1 t.fs u w.fs st c.stored;
                    offset =
                        c.offset
                        ∙ ap (λ (r : File). record r { off = off + m + length (drop m src) }) here
                        ∙ ap (λ o. record (t.file f) { off = o }) (omega (arith, left));
                    others = λ g out_. c.others g out_ ∙ rw out_ refl;
                    pipes = c.pipes;
                  },
                )))))
