-- ===== src/Files.antt =====
-- The table of open files of project3_filesystem/file.c, the same file in each project, with the pipes
-- and the inodes that the files lead to. A pointer is an index. A pipe that has been freed is `none`.
-- begin_op, end_op and the sleep locks of inodes are not in this state, and the pipe ends a call where
-- it sleeps.
use ele3021_os.Mlfq.Kernel.{scan}
use ele3021_os.Fs.State.{FileSystem}
pub mod Chunks
pub mod ReadWrite
pub mod Close
pub mod PipeAlloc
pub mod Examples
use ele3021_os.Prelude.{
  zero, take, ◌^◌, false, drop, ◌%◌, true, length, [], ◌-◌, ◌+◌, ◌==◌, suc, not, some, ltb, none,
  List, if◌then◌else◌, update, Option, Bool, ℕ,
}
use ele3021_os.Outcome.{
  Outcome, Cmd, gets, modify, pure, halt, crash, ok, panic, fault, out_of_fuel, ◌>>=◌, ◌>>◌,
}
use ele3021_os.Fs.Content.{read_file, write_file, min_of}
use ele3021_os.Fs.Inodes.{ilock}
use ele3021_os.Fs.Trunc.{iput}
use ele3021_os.Pipe.{done, failed, asleep, Turn, Pipe, pipewrite, piperead, pipeclose}

-- NFILE of param.h
abbrev pub nfile : ℕ
nfile = 100

pub data FileKind : Type 0 where
  fd_none : FileKind
  fd_pipe : FileKind
  fd_inode : FileKind

pub record File : Type 0 where
  pub kind : FileKind
  pub ref : ℕ
  pub readable : Bool
  pub writable : Bool
  pub pipe : ℕ
  pub ip : ℕ
  pub off : ℕ

pub record Files : Type 0 where
  pub file : ℕ → File
  pub pipes : ℕ → Option Pipe
  pub fs : FileSystem

abbrev pub set_file : ℕ → (File → File) → Cmd Files Unit
set_file f g = modify (λ s. record s { file = update s.file f (g (s.file f)) })

abbrev pub set_pipe : ℕ → Option Pipe → Cmd Files Unit
set_pipe p v = modify (λ s. record s { pipes = update s.pipes p v })

abbrev pub lift_fs : {A : Type 0} → Outcome FileSystem A → Files → Outcome Files A
lift_fs (ok a t) s = ok a (record s { fs = t })
lift_fs (panic message) s = panic message
lift_fs fault s = fault
lift_fs out_of_fuel s = out_of_fuel

-- A call of fs.c.
abbrev pub on_fs : {A : Type 0} → Cmd FileSystem A → Cmd Files A
on_fs c s = lift_fs (c s.fs) s

-- A call of pipe.c.
abbrev pub on_pipe : {A : Type 0} → ℕ → (Pipe → Cmd Files A) → Cmd Files A
on_pipe p k = do found ← gets (λ s. s.pipes p); elim found [ none ↦ crash | some v ↦ k v ]

unfoldable pub filealloc : Cmd Files (Option ℕ)
filealloc = do
  found ← gets (λ s. scan nfile 0 (λ f. (s.file f).ref == 0))
  elim found [
    | none ↦ pure none
    | some f ↦ (do set_file f (λ r. record r { ref = 1 }); pure (some f))
  ]

unfoldable pub filedup : ℕ → Cmd Files ℕ
filedup f = do
  r ← gets (λ s. s.file f)
  if ltb r.ref 1
      then halt "filedup"
      else (do set_file f (λ r. record r { ref = r.ref + 1 }); pure f)

abbrev pub close_pipe : ℕ → Bool → Cmd Files Unit
close_pipe p writable =
    on_pipe p
      (λ v. set_pipe p (let (freed, q) = pipeclose writable v in if freed then none else some q))

-- What the file `ff` leads to is given up.
abbrev pub let_go : File → Cmd Files Unit
let_go ff = elim ff.kind [
  | fd_none ↦ pure tt
  | fd_pipe ↦ close_pipe ff.pipe ff.writable
  | fd_inode ↦ on_fs (iput ff.ip)
]

unfoldable pub fileclose : ℕ → Cmd Files Unit
fileclose f = do
  r ← gets (λ s. s.file f)
  if ltb r.ref 1 then halt "fileclose" else (do
    set_file f (λ r. record r { ref = r.ref - 1 })
    ff ← gets (λ s. s.file f)
    if ltb 0 ff.ref
        then pure tt
        else (do set_file f (λ r. record r { ref = 0; kind = fd_none }); let_go ff))

-- The count with the bytes, -1, or sleep.
unfoldable pub fileread : Bool → ℕ → ℕ → Cmd Files (Turn × List ℕ)
fileread killed f n = do
  r ← gets (λ s. s.file f)
  if not r.readable then pure (failed, []) else elim r.kind [
    | fd_none ↦ halt "fileread"
    | fd_pipe ↦ on_pipe r.pipe (λ v. (do
      set_pipe r.pipe (some (piperead killed n v).2)
      pure ((piperead killed n v).0, (piperead killed n v).1)))
    | fd_inode ↦ (do
      on_fs (ilock r.ip)
      bytes ← on_fs (read_file r.ip r.off n)
      elim bytes [
        | none ↦ pure (failed, [])
        | some bs ↦ (do
          set_file f (λ r. record r { off = (r.off + length bs) % 2 ^ 32 })
          pure (done (length bs), bs))
      ])
  ]

-- `((MAXOPBLOCKS-1-1-2) / 2) * 512`
abbrev pub chunk : ℕ
chunk = 1536

-- The loop of filewrite over what is left of the bytes; whether all are written.
unfoldable pub write_chunks : ℕ → ℕ → ℕ → List ℕ → Cmd Files Bool
write_chunks zero f ip src = λ s. out_of_fuel
write_chunks (suc fuel) f ip src =
    let m : ℕ = min_of (length src) chunk in
    let next = write_chunks fuel f ip (drop m src) in
    if length src == 0 then pure true else (do
      on_fs (ilock ip)
      off ← gets (λ s. (s.file f).off)
      r ← on_fs (write_file ip off (take m src))
      elim r [
        | none ↦ pure false
        | some k ↦ (do
          set_file f (λ r. record r { off = (r.off + k) % 2 ^ 32 })
          if k == m then next else halt "short filewrite")
      ])

-- Each round writes a byte at least.
unfoldable pub filewrite : Bool → ℕ → List ℕ → Cmd Files Turn
filewrite killed f src = do
  r ← gets (λ s. s.file f)
  if not r.writable then pure failed else elim r.kind [
    | fd_none ↦ halt "filewrite"
    | fd_pipe ↦ on_pipe r.pipe (λ v. (do
      set_pipe r.pipe (some (pipewrite killed src v).1)
      pure (pipewrite killed src v).0))
    | fd_inode ↦ (do
      whole ← write_chunks (length src + 1) f r.ip src
      if whole then pure (done (length src)) else pure failed)
  ]

-- fileclose in the exit of pipealloc.
abbrev pub close_some : Option ℕ → Cmd Files Unit
close_some none = pure tt
close_some (some f) = fileclose f

-- The two files, or -1; `kalloc` is the place of a free page, if there is one.
unfoldable pub pipealloc : Option ℕ → Cmd Files (Option (ℕ × ℕ))
pipealloc kalloc = do
  f0 ← filealloc
  elim f0 [
    | none ↦ pure none
    | some a ↦ (do
      f1 ← filealloc
      elim f1 [
        | none ↦ (do close_some (some a); pure none)
        | some b ↦ elim kalloc [
          | none ↦ (do close_some (some a); close_some (some b); pure none)
          | some p ↦ (do
            set_pipe p (
                some (record {
                  data_ = λ i. 0;
                  nread = 0;
                  nwrite = 0;
                  readopen = true;
                  writeopen = true;
                  woken = [];
                }))
            set_file a
                (λ r. record r { kind = fd_pipe; readable = true; writable = false; pipe = p })
            set_file b
                (λ r. record r { kind = fd_pipe; readable = false; writable = true; pipe = p })
            pure (some (a, b)))
        ]
      ])
  ]
