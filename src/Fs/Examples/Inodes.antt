-- ===== src/Fs/Examples/Inodes.antt =====
-- The inodes of the disk of twelve blocks, and their truncation in project3_filesystem/fs.c.
use ele3021_os.Fs.Inodes.Create.{ialloc-Created, Created}
use ele3021_os.Fs.Trunc.Whole.{itrunc-Truncated, Truncated}
use ele3021_os.Prelude.{false, refl, ◌==◌, true, arith, if◌then◌else◌, ◌≡◌}
use ele3021_os.Fs.Inodes.Update.{ilock-iupdate}
use ele3021_os.Fs.Examples.{one_map, small_disk-IsTree, file_inode, small_disk}
use ele3021_os.Fs.Trunc.{itrunc}
use ele3021_os.Fs.Inodes.{ialloc, ilock, iupdate, iget}
use ele3021_os.Fs.Inodes.Get.{iget-Got, Got, IsCache}
use ele3021_os.Fs.Inodes.Dinode.{SameFile, FitsDisk}
use ele3021_os.Fs.State.{FileSystem}
use ele3021_os.Outcome.{Returns, ◌>>◌}

-- Entry 2 is for the same inode as entry 1, and not read.
abbrev two_entries : FileSystem
two_entries = record small_disk {
  inodes = λ i. if i == 2 then record file_inode { valid = false; size = 0 } else file_inode;
}

file_inode-FitsDisk : FitsDisk file_inode
file_inode-FitsDisk = record {
  kind = omega arith;
  major = omega arith;
  minor = omega arith;
  nlink = omega arith;
  size = omega arith;
  addrs = λ i lt. ground arith;
  d_addr = omega arith;
  t_addr = omega arith;
}

small_disk-IsCache : IsCache small_disk
small_disk-IsCache i j lt lt' held held' same = ground arith

ilock-iupdate_example :
    Returns
      (λ _ t. SameFile file_inode (t.inodes 2) × ((t.inodes 2).valid ≡ true))
      ((iupdate 1 >> ilock 2) two_entries)
ilock-iupdate_example = ilock-iupdate two_entries 1 2 file_inode-FitsDisk refl refl refl refl

iget-Got_example : Returns (Got small_disk 5) (iget 5 small_disk)
iget-Got_example = iget-Got small_disk 5 9 small_disk-IsCache (omega arith) refl

itrunc-Truncated_example : Returns (λ _. Truncated small_disk 1) (itrunc 1 small_disk)
itrunc-Truncated_example =
    itrunc-Truncated small_disk 1 small_disk-IsTree file_inode-FitsDisk refl
      (λ d lt. let at = one_map d lt in ground (arith, at))

ialloc-Created_example : Returns (Created small_disk 2) (ialloc 2 small_disk)
ialloc-Created_example =
    ialloc-Created small_disk 2 3 9 (omega arith) small_disk-IsCache (omega arith) refl
      (omega arith) (omega arith) refl
