-- ===== src/Fs/Content.antt =====
-- The contents of a file: the parts of readi and writei of project3_filesystem/fs.c that a file which
-- is neither a symbolic link nor a device goes through.
use ele3021_os.Fs.Inodes.{iupdate}
use ele3021_os.Fs.Map.Paths.{maxfile}
use ele3021_os.Fs.Map.{bmap}
use ele3021_os.Prelude.{
  take, drop, ◌&&◌, not, ◌*◌, length, update, ◌++◌, some, ◌/◌, none, ◌^◌, ◌==◌, zero, ◌%◌, ◌||◌,
  ◌-◌, ◌+◌, ◌∷◌, suc, Option, ltb, [], if◌then◌else◌, List, ℕ,
}
use ele3021_os.Fs.State.{set_inode, log_block, set_block, bsize, FileSystem, Bytes}
pub mod Read
pub mod Copy
pub mod Write
pub mod Rewrite
use ele3021_os.Outcome.{◌>>◌, pure, gets, out_of_fuel, Cmd, ◌>>=◌, ◌>>◌}

-- `memmove(dst, data + i, m)`
unfoldable pub bytes_of : Bytes → ℕ → ℕ → List ℕ
bytes_of d i zero = []
bytes_of d i (suc m) = d i ∷ bytes_of d (i + 1) m

abbrev pub min_of : ℕ → ℕ → ℕ
min_of a b = if ltb a b then a else b

-- The loop: `n` bytes from `off` on.
unfoldable pub read_from : ℕ → ℕ → ℕ → ℕ → Cmd FileSystem (List ℕ)
read_from zero ip off n = λ s. out_of_fuel
read_from (suc fuel) ip off n =
    let m : ℕ = min_of n (bsize - off % bsize) in
    let next = read_from fuel ip (off + m) (n - m) in
    if n == 0 then pure [] else (do
      a ← bmap ip (off / bsize)
      d ← gets (λ s. s.blocks a)
      rest ← next
      pure (bytes_of d (off % bsize) m ++ rest))

-- The bytes, or -1. Each round reads a byte at least, so n rounds and one more are enough.
unfoldable pub read_file : ℕ → ℕ → ℕ → Cmd FileSystem (Option (List ℕ))
read_file ip off n = do
  size ← gets (λ s. (s.inodes ip).size)
  if ltb size off || ltb ((off + n) % 2 ^ 32) off then pure none else (do
    bytes ← read_from (n + 1) ip off (if ltb size (off + n) then size - off else n)
    pure (some bytes))

-- `memmove(data + i, src, n)`
unfoldable pub overwrite : Bytes → ℕ → List ℕ → Bytes
overwrite d i [] = d
overwrite d i (b ∷ bs) = update (overwrite d (i + 1) bs) i b

-- The loop: all of `src` from `off` on.
unfoldable pub write_from : ℕ → ℕ → ℕ → List ℕ → Cmd FileSystem Unit
write_from zero ip off src = λ s. out_of_fuel
write_from (suc fuel) ip off src =
    let m : ℕ = min_of (length src) (bsize - off % bsize) in
    let next = write_from fuel ip (off + m) (drop m src) in
    if length src == 0 then pure tt else (do
      a ← bmap ip (off / bsize)
      d ← gets (λ s. s.blocks a)
      set_block a (overwrite d (off % bsize) (take m src))
      log_block a
      next)

-- The part of writei that a file which is neither a symbolic link nor a device goes through: the
-- count, or -1.
unfoldable pub write_file : ℕ → ℕ → List ℕ → Cmd FileSystem (Option ℕ)
write_file ip off src = do
  size ← gets (λ s. (s.inodes ip).size)
  if ltb size off || ltb ((off + length src) % 2 ^ 32) off
      then pure none
      else if ltb (maxfile * bsize) (off + length src)
      then pure none
      else (do
        write_from (length src + 1) ip off src
        if not (length src == 0) && ltb size (off + length src)
            then (do set_inode ip (λ n. record n { size = off + length src }); iupdate ip)
            else pure tt
        pure (some (length src)))
