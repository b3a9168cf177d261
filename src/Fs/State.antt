-- ===== src/Fs/State.antt =====
-- The blocks that fs.c of project3_filesystem works on, and the inodes in memory. A block is its
-- bytes as bread gives them, and a word is four bytes, the lowest first. `written` lists the blocks
-- that log_write was called for, the last first. There is one device, and locks are not in this state.
use ele3021_os.Prelude.{
  ◌≢◌, inr, arith, ==_iff, inl, Bool-cases, ◌/◌, ◌≡◌, ◌%◌, ◌^◌, ◌==◌, ◌+◌, ◌<◌, ◌∷◌, update, Bool,
  if◌then◌else◌, ◌*◌, ℕ, List,
}
use ele3021_os.Outcome.{Cmd, modify}

-- BSIZE of fs.h, and the bits and the words of a block
abbrev pub bsize : ℕ
bsize = 512

abbrev pub bpb : ℕ
bpb = 4096

abbrev pub ndirect : ℕ
ndirect = 10

abbrev pub nindirect : ℕ
nindirect = 128

abbrev pub Bytes : Type 0
Bytes = ℕ → ℕ

-- `((uint*)data)[i]`
abbrev pub word_at : Bytes → ℕ → ℕ
word_at d i = d (4 * i) + 256 * d (4 * i + 1) + 65536 * d (4 * i + 2) + 16777216 * d (4 * i + 3)

-- `((uint*)data)[i] = v`
abbrev pub with_word : Bytes → ℕ → ℕ → Bytes
with_word d i v j =
    if j == 4 * i
    then v % 256
    else if j == 4 * i + 1
    then v / 256 % 256
    else if j == 4 * i + 2
    then v / 65536 % 256
    else if j == 4 * i + 3
    then v / 16777216 % 256
    else d j

pub record Inode : Type 0 where
  pub inum : ℕ
  pub ref : ℕ
  pub valid : Bool
  pub kind : ℕ
  pub major : ℕ
  pub minor : ℕ
  pub nlink : ℕ
  pub size : ℕ
  pub addrs : ℕ → ℕ
  pub d_addr : ℕ
  pub t_addr : ℕ

-- With the fields of the superblock that the functions read.
pub record FileSystem : Type 0 where
  pub blocks : ℕ → Bytes
  pub written : List ℕ
  pub inodes : ℕ → Inode
  pub size : ℕ
  pub ninodes : ℕ
  pub inodestart : ℕ
  pub bmapstart : ℕ

abbrev pub set_block : ℕ → Bytes → Cmd FileSystem Unit
set_block b d = modify (λ s. record s { blocks = update s.blocks b d })

abbrev pub set_inode : ℕ → (Inode → Inode) → Cmd FileSystem Unit
set_inode i f = modify (λ s. record s { inodes = update s.inodes i (f (s.inodes i)) })

abbrev pub log_block : ℕ → Cmd FileSystem Unit
log_block b = modify (λ s. record s { written = b ∷ s.written })

pub word-with_word :
    (d : Bytes) (i v j : ℕ)
    → v < 2 ^ 32
    → word_at (with_word d i v) j ≡ (if j == i then v else word_at d j)
word-with_word d i v j lt = elim (Bool-cases (j == i)) [
  | inl e ↦ let at : j ≡ i = (==_iff j i).0 e in rw (e, at) (ground arith)
  | inr e ↦ let off : j ≢ i = ground arith in rw e (ground arith)
]
