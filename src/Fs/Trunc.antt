-- ===== src/Fs/Trunc.antt =====
-- Truncation and the end of an inode: freeDouble, itrunc and iput of project3_filesystem/fs.c. `ref`
-- is above 0 where iput is called, and stops at 0 here.
pub mod Put
pub mod Clear
pub mod Levels
pub mod Branches
pub mod Roots
pub mod Whole
use ele3021_os.Fs.Inodes.{iupdate}
use ele3021_os.Fs.Map.{with_root, root_of}
use ele3021_os.Fs.Bitmap.{bfree}
use ele3021_os.Fs.State.{set_inode, word_at, ndirect, nindirect, FileSystem}
use ele3021_os.Prelude.{◌-◌, false, ◌&&◌, ◌==◌, if◌then◌else◌, ℕ}
use ele3021_os.Outcome.{pure, gets, each, Cmd, ◌>>=◌, ◌>>◌}

-- for(j = 0; j < NINDIRECT; j++) if(a[j]) free(a[j])
abbrev pub each_word : (ℕ → Cmd FileSystem Unit) → ℕ → Cmd FileSystem Unit
each_word free addr =
    each nindirect 0
      (λ j. do v ← gets (λ s. word_at (s.blocks addr) j); if v == 0 then pure tt else free v)

-- `if(a[i]) { … }` of the loop of freeDouble
abbrev pub free_below : ℕ → ℕ → Cmd FileSystem Unit
free_below addr i = do
  v ← gets (λ s. word_at (s.blocks addr) i)
  if v == 0
      then pure tt
      else (do each_word bfree v; v ← gets (λ s. word_at (s.blocks addr) i); bfree v)

unfoldable pub free_double : ℕ → ℕ → Cmd FileSystem Unit
free_double ip addr = do
  each nindirect 0 (free_below addr)
  d ← gets (λ s. (s.inodes ip).d_addr)
  bfree d

-- `if(*root) { free(*root); *root = 0; }`
abbrev pub drop_root : ℕ → ℕ → (ℕ → Cmd FileSystem Unit) → Cmd FileSystem Unit
drop_root ip r free = do
  v ← gets (λ s. root_of (s.inodes ip) r)
  if v == 0 then pure tt else (do free v; set_inode ip (with_root r 0))

-- The blocks of the file, root by root.
unfoldable pub drop_roots : ℕ → Cmd FileSystem Unit
drop_roots ip = do
  each ndirect 0 (λ i. drop_root ip i bfree)
  drop_root ip 10 (λ v. do each_word bfree v; bfree v)
  drop_root ip 11 (free_double ip)
  drop_root ip 12 (λ v. do each_word (free_double ip) v; bfree v)

unfoldable pub itrunc : ℕ → Cmd FileSystem Unit
itrunc ip = do drop_roots ip; set_inode ip (λ n. record n { size = 0 }); iupdate ip

unfoldable pub iput : ℕ → Cmd FileSystem Unit
iput ip = do
  n ← gets (λ s. s.inodes ip)
  if n.valid && (n.nlink == 0 && n.ref == 1)
      then (do
        itrunc ip
        set_inode ip (λ n. record n { kind = 0 })
        iupdate ip
        set_inode ip (λ n. record n { valid = false }))
      else pure tt
  set_inode ip (λ n. record n { ref = n.ref - 1 })
