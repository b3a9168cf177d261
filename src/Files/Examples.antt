-- ===== src/Files/Examples.antt =====
-- A table of files: 0 and 1 are open on the file of the disk of twelve blocks, the others are free.
use ele3021_os.Files.Close.{IsTidy}
use ele3021_os.Files.{Files, File, fd_none, fd_inode, filewrite, fileread, pipealloc}
use ele3021_os.Files.ReadWrite.{fileread-filewrite}
use ele3021_os.Files.PipeAlloc.{pipealloc-Restored, Restored, close_ends}
use ele3021_os.Fs.Examples.{small_disk-IsTree, small_disk}
use ele3021_os.Fs.Examples.Content.{small_disk-InFile}
use ele3021_os.Outcome.{◌>>=◌, ok, Returns}
use ele3021_os.Pipe.{done}
use ele3021_os.Prelude.{
  inr, update, [], ◌==◌, inl, ◌∷◌, none, refl, ◌≡◌, Bool-cases, ltb, some, false, if◌then◌else◌,
  true,
}

abbrev open_file : File
open_file = record {
  kind = fd_inode;
  ref = 1;
  readable = true;
  writable = true;
  pipe = 0;
  ip = 1;
  off = 100;
}

abbrev two_files : Files
two_files = record {
  file = λ f. if ltb f 2 then open_file else record open_file { kind = fd_none; ref = 0 };
  pipes = λ p. none;
  fs = small_disk;
}

two_files-IsTidy : IsTidy two_files
two_files-IsTidy f e = elim (Bool-cases (ltb f 2)) [
  | inl on ↦ let used : (1 == 0) ≡ true = rw on at e in cc
  | inr off ↦ rw off refl
]

fileread-filewrite_example :
    Returns
      (λ _ t.
        fileread false 1 3 t
        ≡ ok
            (done 3, 7 ∷ 8 ∷ 9 ∷ [])
            (record t { file = update t.file 1 (record (two_files.file 1) { off = 103 }) }))
      (filewrite false 0 (7 ∷ 8 ∷ 9 ∷ []) two_files)
fileread-filewrite_example =
    fileread-filewrite two_files 0 (7 ∷ 8 ∷ 9 ∷ [])
      (record { kind = refl; used = refl; valid = refl }) refl small_disk-IsTree small_disk-InFile 1
      false false refl refl refl refl refl

pipealloc-Restored_example :
    Returns (λ _. Restored two_files) ((pipealloc (some 5) >>= close_ends) two_files)
pipealloc-Restored_example = pipealloc-Restored two_files two_files-IsTidy (some 5) (λ p e. refl)
