-- ===== src/Fs/Examples/Content.antt =====
-- A path, and reading the file of the disk of twelve blocks, in project3_filesystem/fs.c.
use ele3021_os.Fs.Content.Rewrite.{write_file-Rewritten, Rewritten, InFile}
use ele3021_os.Fs.Content.Read.{read_file-file_bytes, file_bytes}
use ele3021_os.Fs.Map.Block.{block_address}
use ele3021_os.Outcome.{Returns, ok}
use ele3021_os.Fs.Examples.{small_disk-IsTree, file_inode, small_disk}
use ele3021_os.Fs.Content.{write_file, read_file}
use ele3021_os.Fs.Map.Paths.{maxfile, address}
use ele3021_os.Prelude.{refl, arith, false, ◌==◌, some, ◌<◌, [], ◌≡◌, ◌∷◌, List, ℕ}

-- "//a/bc"
abbrev slashes_path : List ℕ
slashes_path = 47 ∷ 47 ∷ 97 ∷ 47 ∷ 98 ∷ 99 ∷ []

first_block :
    (bn : ℕ) → bn ≡ 0 → (bn < maxfile) × ((block_address small_disk file_inode bn == 0) ≡ false)
unfolding address
first_block bn e = rw e (omega arith, refl)

read_file-file_bytes_example :
    read_file 1 100 1000 small_disk
    ≡ ok (some (file_bytes small_disk file_inode 100 412)) small_disk
read_file-file_bytes_example =
    read_file-file_bytes small_disk 1 100 1000 (omega arith) (omega arith)
      (λ bn le lt. first_block bn (omega (arith, lt)))

pub small_disk-InFile : InFile small_disk 1 100 3
small_disk-InFile = record {
  small = omega arith;
  words = omega arith;
  most = omega arith;
  blocks = λ bn lt. (first_block bn (omega (arith, lt))).1;
}

write_file-Rewritten_example :
    Returns
      (Rewritten small_disk 1 100 (7 ∷ 8 ∷ 9 ∷ []))
      (write_file 1 100 (7 ∷ 8 ∷ 9 ∷ []) small_disk)
write_file-Rewritten_example =
    write_file-Rewritten small_disk 1 100 (7 ∷ 8 ∷ 9 ∷ []) small_disk-IsTree small_disk-InFile
