-- ===== src/Pipe.antt =====
-- Pipes: piperead, pipewrite and pipeclose of project3_filesystem/pipe.c, the same file in each
-- project. A call runs until it returns or sleeps; `killed` says whether the process has been killed,
-- and `woken` lists the ends that were woken, the last first. nread and nwrite wrap around at 2^32.
pub mod Contents
pub mod Fifo
pub mod Examples
use ele3021_os.Prelude.{
  zero, length, ◌||◌, suc, false, ◌&&◌, not, ◌^◌, [], if◌then◌else◌, ◌==◌, ◌%◌, List, update, ◌∷◌,
  ◌+◌, Bool, ℕ,
}

abbrev pub pipesize : ℕ
pipesize = 512

pub data End : Type 0 where
  readers : End
  writers : End

pub record Pipe : Type 0 where
  pub data_ : ℕ → ℕ
  pub nread : ℕ
  pub nwrite : ℕ
  pub readopen : Bool
  pub writeopen : Bool
  pub woken : List End

-- How a call ends: it returns a count, it returns -1, or it sleeps with so many bytes moved.
pub data Turn : Type 0 where
  done : ℕ → Turn
  failed : Turn
  asleep : ℕ → Turn

abbrev pub next : ℕ → ℕ
next k = (k + 1) % 2 ^ 32

abbrev pub wake : End → Pipe → Pipe
wake e p = record p { woken = e ∷ p.woken }

abbrev pub is_full : Pipe → Bool
is_full p = p.nwrite == (p.nread + pipesize) % 2 ^ 32

abbrev pub is_empty : Pipe → Bool
is_empty p = p.nread == p.nwrite

-- `p->data[p->nwrite++ % PIPESIZE] = b`
abbrev pub put : ℕ → Pipe → Pipe
put b p = record p { data_ = update p.data_ (p.nwrite % pipesize) b; nwrite = next p.nwrite }

-- The loop of pipewrite from byte `i` on.
unfoldable pub pipewrite_from : Bool → List ℕ → ℕ → Pipe → Turn × Pipe
pipewrite_from killed [] i p = (done i, wake readers p)
pipewrite_from killed (b ∷ bs) i p =
    let rest = pipewrite_from killed bs (i + 1) (put b p) in
    if is_full p
    then (if not p.readopen || killed then (failed, p) else (asleep i, wake readers p))
    else rest

unfoldable pub pipewrite : Bool → List ℕ → Pipe → Turn × Pipe
pipewrite killed bytes p = pipewrite_from killed bytes 0 p

-- The loop of piperead: the bytes it copies, and the pipe after it.
unfoldable pub copy_out : ℕ → Pipe → List ℕ × Pipe
copy_out zero p = ([], p)
copy_out (suc n) p =
    let rest = copy_out n (record p { nread = next p.nread }) in
    if is_empty p then ([], p) else (p.data_ (p.nread % pipesize) ∷ rest.0, rest.1)

unfoldable pub piperead : Bool → ℕ → Pipe → Turn × List ℕ × Pipe
piperead killed n p =
    if is_empty p && p.writeopen
    then (if killed then (failed, [], p) else (asleep 0, [], p))
    else (let (bytes, q) = copy_out n p in (done (length bytes), bytes, wake writers q))

-- Whether the page of the pipe is freed, and the pipe.
unfoldable pub pipeclose : Bool → Pipe → Bool × Pipe
pipeclose writable p =
    let q =
      if writable
      then wake readers (record p { writeopen = false })
      else wake writers (record p { readopen = false }) in
    (not q.readopen && not q.writeopen, q)
