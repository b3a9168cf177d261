-- ===== src/Buffers.antt =====
-- The buffer cache of project3_filesystem/bio.c: the buffers with their list, and the disk behind
-- them. A pointer to a buffer is its index, and `head` stands for bcache.head. A call of bget
-- that makes room with sync1(0) of log.c stops there with the answer `syncs`, and bget_synced is what
-- it does when sync1 has returned. A disk request is taken as alone in the queue of the disk, and as
-- done when iderw returns; disk 1 is taken as present, and bcache.lock is not in this state.
pub mod Walk
pub mod Ring
pub mod Find
pub mod Coherent
pub mod Get
pub mod Read
pub mod Serve
pub mod Release
pub mod Write
pub mod Boot
pub mod Examples
use ele3021_os.Prelude.{
  ltb, ◌-◌, zero, false, none, some, leb, true, not, suc, ◌+◌, if◌then◌else◌, ◌&&◌, update, ◌==◌,
  Option, Bool, ℕ,
}
use ele3021_os.Outcome.{halt, ok, pure, out_of_fuel, each, gets, modify, Cmd, ◌>>=◌, ◌>>◌}

-- NBUF and NRESBUF of param.h
abbrev pub nbuf : ℕ
nbuf = 50

abbrev pub nresbuf : ℕ
nresbuf = 2

-- FSSIZE of param.h, in blocks
abbrev pub fssize : ℕ
fssize = 1000000

abbrev pub head : ℕ
head = 50

abbrev pub Block : Type 0
Block = ℕ → ℕ

pub record Buffer : Type 0 where
  pub valid : Bool
  pub dirty : Bool
  pub dev : ℕ
  pub blockno : ℕ
  pub held : Bool
  pub refcnt : ℕ
  pub prev : ℕ
  pub next : ℕ
  pub bytes : Block

pub record Cache : Type 0 where
  pub buf : ℕ → Buffer
  pub disk : ℕ → ℕ → Block
  pub synchronizing : Bool

-- What a call comes to where it may have to sleep on the lock of a buffer, or to call sync1(0).
pub data Access : Type 0 where
  locks : ℕ → Access
  waits : ℕ → Access
  syncs : Access

abbrev pub set_buf : ℕ → (Buffer → Buffer) → Cmd Cache Unit
set_buf b f = modify (λ s. record s { buf = update s.buf b (f (s.buf b)) })

abbrev pub set_next : ℕ → ℕ → Cmd Cache Unit
set_next b v = set_buf b (λ r. record r { next = v })

abbrev pub set_prev : ℕ → ℕ → Cmd Cache Unit
set_prev b v = set_buf b (λ r. record r { prev = v })

-- `b->next->prev = b->prev; b->prev->next = b->next;`
abbrev pub unlink : ℕ → Cmd Cache Unit
unlink b = do
  r ← gets (λ s. s.buf b)
  set_prev r.next r.prev
  r ← gets (λ s. s.buf b)
  set_next r.prev r.next

-- Behind bcache.head: the last four lines of binit's loop and of brelse.
abbrev pub push_front : ℕ → Cmd Cache Unit
push_front b = do
  first ← gets (λ s. (s.buf head).next)
  set_next b first
  set_prev b head
  first ← gets (λ s. (s.buf head).next)
  set_prev first b
  set_next head b

unfoldable pub binit : Cmd Cache Unit
binit = do set_prev head head; set_next head head; each nbuf 0 push_front

-- for(b = cur; b != &bcache.head; b = step(b)) if(test(b)) …
unfoldable pub find_buf : ℕ → (Buffer → ℕ) → (Buffer → Bool) → ℕ → Cmd Cache (Option ℕ)
find_buf zero step test cur s = out_of_fuel
find_buf (suc fuel) step test cur s =
    let rest = find_buf fuel step test (step (s.buf cur)) s in
    if cur == head then ok none s else if test (s.buf cur) then ok (some cur) s else rest

abbrev pub is_usable : Buffer → Bool
is_usable b = b.refcnt == 0 && not b.dirty

abbrev pub is_for : ℕ → ℕ → Buffer → Bool
is_for dev blockno b = b.dev == dev && b.blockno == blockno

unfoldable pub count_usable : ℕ → ℕ → ℕ → Cmd Cache ℕ
count_usable zero cur cnt s = out_of_fuel
count_usable (suc fuel) cur cnt s =
    let rest =
      count_usable fuel (s.buf cur).prev (if is_usable (s.buf cur) then cnt + 1 else cnt) s in
    if cur == head then ok cnt s else rest

unfoldable pub acquiresleep : ℕ → Cmd Cache Access
acquiresleep b = do
  held ← gets (λ s. (s.buf b).held)
  if held then pure (waits b) else (do set_buf b (λ r. record r { held = true }); pure (locks b))

-- The walks get NBUF + 1 rounds.
unfoldable pub bget_locked : ℕ → ℕ → Cmd Cache Access
bget_locked dev blockno = do
  first ← gets (λ s. (s.buf head).next)
  hit ← find_buf (nbuf + 1) (λ r. r.next) (is_for dev blockno) first
  elim hit [
    | some b ↦ (do set_buf b (λ r. record r { refcnt = r.refcnt + 1 }); acquiresleep b)
    | none ↦ (do
      last ← gets (λ s. (s.buf head).prev)
      old ← find_buf (nbuf + 1) (λ r. r.prev) is_usable last
      elim old [
        | none ↦ halt "bget: no buffers"
        | some b ↦ (do
          set_buf b (λ r. record r {
            dev = dev;
            blockno = blockno;
            valid = false;
            dirty = false;
            refcnt = 1;
          })
          acquiresleep b)
      ])
  ]

unfoldable pub bget : ℕ → ℕ → Cmd Cache Access
bget dev blockno = do
  last ← gets (λ s. (s.buf head).prev)
  cnt ← count_usable (nbuf + 1) last 0
  busy ← gets (λ s. s.synchronizing)
  if leb cnt nresbuf && not busy
      then (do modify (λ s. record s { synchronizing = true }); pure syncs)
      else bget_locked dev blockno

-- bget from the return of sync1 on.
unfoldable pub bget_synced : ℕ → ℕ → Cmd Cache Access
bget_synced dev blockno = do
  modify (λ s. record s { synchronizing = false })
  bget_locked dev blockno

unfoldable pub iderw : ℕ → Cmd Cache Unit
iderw b = do
  r ← gets (λ s. s.buf b)
  if not r.held
      then halt "iderw: buf not locked"
      else if r.valid && not r.dirty
      then halt "iderw: nothing to do"
      else if not (ltb r.blockno fssize)
      then halt "incorrect blockno"
      else (do
        if r.dirty
            then modify (λ s. record s {
              disk = update s.disk r.dev (update (s.disk r.dev) r.blockno r.bytes);
            })
            else (do
              d ← gets (λ s. s.disk r.dev r.blockno)
              set_buf b (λ r. record r { bytes = d }))
        set_buf b (λ r. record r { valid = true; dirty = false }))

-- bread for a buffer that bget has locked.
abbrev pub fill : Access → Cmd Cache Access
fill (waits b) = pure (waits b)
fill syncs = pure syncs
fill (locks b) = do
  valid ← gets (λ s. (s.buf b).valid)
  if valid then pure tt else iderw b
  pure (locks b)

unfoldable pub bread : ℕ → ℕ → Cmd Cache Access
bread dev blockno = do b ← bget dev blockno; fill b

-- bread from the return of sync1 on.
unfoldable pub bread_synced : ℕ → ℕ → Cmd Cache Access
bread_synced dev blockno = do b ← bget_synced dev blockno; fill b

unfoldable pub bwrite : ℕ → Cmd Cache Unit
bwrite b = do
  held ← gets (λ s. (s.buf b).held)
  if not held then halt "bwrite" else (do set_buf b (λ r. record r { dirty = true }); iderw b)

unfoldable pub brelse : ℕ → Cmd Cache Unit
brelse b = do
  held ← gets (λ s. (s.buf b).held)
  if not held then halt "brelse" else (do
    set_buf b (λ r. record r { held = false })
    set_buf b (λ r. record r { refcnt = r.refcnt - 1 })
    left ← gets (λ s. (s.buf b).refcnt)
    if left == 0 then (do unlink b; push_front b) else pure tt)
