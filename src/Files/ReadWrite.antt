-- ===== src/Files/ReadWrite.antt =====
-- filewrite and then fileread of project3_filesystem/file.c.
use ele3021_os.Fs.State.{Inode}
use ele3021_os.Fs.Map.Tree.{IsTree}
use ele3021_os.Files.{Files, File, write_chunks, filewrite, fileread, fd_inode, update}
use ele3021_os.Files.Chunks.{write_chunks-Chunked, ilock_ready}
use ele3021_os.Fs.Content.Rewrite.{InFile, Rewritten, Held-Rewritten}
use ele3021_os.Pipe.{done, Turn}
use ele3021_os.Outcome.{ok, Returns-bind, Returns-mono, Returns, returns}
use ele3021_os.Prelude.{
  ◌^◌, ◌%◌, refl, ◌∙◌, ap, arith, Bool, ◌+◌, some, false, true, length, ◌==◌, List, ◌≡◌, ℕ,
}

-- A file that is open on an inode in memory.
pub record IsOpen (s : Files) (f : ℕ) : Type 0 where
  pub kind : (s.file f).kind ≡ fd_inode
  pub used : ((s.fs.inodes (s.file f).ip).ref == 0) ≡ false
  pub valid : (s.fs.inodes (s.file f).ip).valid ≡ true

-- What filewrite of `src` inside a file leaves.
pub record Wrote (s : Files) (f : ℕ) (src : List ℕ) (r : Turn) (t : Files) : Type 0 where
  pub count : r ≡ done (length src)
  pub contents : Rewritten s.fs (s.file f).ip (s.file f).off src (some (length src)) t.fs
  pub offset : t.file f ≡ record (s.file f) { off = (s.file f).off + length src }
  pub others : (g : ℕ) → (g == f) ≡ false → t.file g ≡ s.file g
  pub pipes : t.pipes ≡ s.pipes

module _ (s : Files) (f : ℕ) (src : List ℕ) (open_ : IsOpen s f)
    (writable : (s.file f).writable ≡ true) (tree : IsTree s.fs (s.fs.inodes (s.file f).ip))
    (range : InFile s.fs (s.file f).ip (s.file f).off (length src)) where
  pub filewrite-Wrote : (killed : Bool) → Returns (Wrote s f src) (filewrite killed f src s)
  unfolding filewrite
  filewrite-Wrote killed =
      simp (writable, open_.kind)
        (Returns-bind (write_chunks (length src + 1) f (s.file f).ip src s) _
          (write_chunks-Chunked s.fs (s.file f).ip tree open_.used open_.valid f (length src + 1)
            (s.file f).off src s (omega arith) (record { places = λ q p is. refl; inodes = refl })
            range refl)
          (λ r t (e, c). rw e (
            returns (record {
              count = refl;
              contents =
                  Held-Rewritten s.fs (s.file f).ip (s.file f).off src tree range t.fs c.held
                    c.stored;
              offset = c.offset;
              others = c.others;
              pipes = c.pipes;
            }))))

  -- When one file is open for writing and another for reading at the same offset of one inode in
  -- memory, none of whose blocks is at two places, and the range lies in it with all its blocks,
  -- filewrite of some bytes to the one returns, and fileread of as many from the other then returns
  -- these bytes and moves its offset behind them.
  pub fileread-filewrite :
      (g : ℕ) (killed killed' : Bool)
      → (g == f) ≡ false
      → (s.file g).readable ≡ true
      → (s.file g).kind ≡ fd_inode
      → (s.file g).ip ≡ (s.file f).ip
      → (s.file g).off ≡ (s.file f).off
      → Returns
          (λ _ t.
            fileread killed' g (length src) t
            ≡ ok
                (done (length src), src)
                (record t {
                  file = update t.file g (record (s.file g) { off = (s.file f).off + length src });
                }))
          (filewrite killed f src s)
  unfolding fileread
  fileread-filewrite g killed killed' other readable kind same at =
      Returns-mono (filewrite-Wrote killed) (λ r t w.
        let here : t.file g ≡ s.file g = w.others g other in
        let inode = ap (λ (h : ℕ → Inode). h (s.file f).ip) w.contents.inodes in
        let lock =
          ilock_ready t.fs (s.file f).ip (ap (λ (n : Inode). n.ref == 0) inode ∙ open_.used)
            (ap (λ (n : Inode). n.valid) inode ∙ open_.valid) in
        let sum : ((s.file f).off + length src) % 2 ^ 32 ≡ (s.file f).off + length src =
          omega (arith, range.small, range.words) in
        let q : File = record (s.file g) { kind = fd_inode; readable = true; ip = (s.file f).ip } in
        simp (here, readable, kind, same, lock, at, w.contents.read)
          (ap
            (λ o.
              ok (done (length src), src)
                (record t { file = update t.file g (record q { off = o }) }))
            sum))
