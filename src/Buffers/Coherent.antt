-- ===== src/Buffers/Coherent.antt =====
-- What the buffers of project3_filesystem/bio.c hold, and the contents of a block as bread shows it.
use ele3021_os.Buffers.Walk.{Walk-frame}
use ele3021_os.Buffers.Ring.{IsRing}
use ele3021_os.Buffers.{head, is_for, nbuf, Block, Cache}
use mathlib.Core.List.{reverse}
use ele3021_os.Prelude.{
  arith, length-le_of_bound, false, true, ltb, ◌+◌, ◌≡◌, mem, length, ◌==◌, ◌<◌, List, ℕ,
}

-- The buffers stand in the order `l`, the last used first, a block of a device has one buffer at most,
-- and a buffer that nobody uses and that is not dirty agrees with the disk.
pub record IsCoherent (s : Cache) (l : List ℕ) : Type 0 where
  pub ring : IsRing s l
  pub members : (b : ℕ) → mem b l ≡ ltb b nbuf
  pub single :
      (b c : ℕ)
      → b < nbuf
      → c < nbuf
      → ((s.buf b).dev == 0) ≡ false
      → is_for (s.buf b).dev (s.buf b).blockno (s.buf c) ≡ true
      → c ≡ b
  pub clean :
      (b : ℕ)
      → b < nbuf
      → ((s.buf b).refcnt == 0) ≡ true
      → (s.buf b).valid ≡ true
      → (s.buf b).dirty ≡ false
      → (s.buf b).bytes ≡ s.disk (s.buf b).dev (s.buf b).blockno
  pub counted : (b : ℕ) → b < nbuf → (s.buf b).held ≡ true → ((s.buf b).refcnt == 0) ≡ false
  pub read_first : (b : ℕ) → b < nbuf → (s.buf b).dirty ≡ true → (s.buf b).valid ≡ true

-- The contents of a block: those of its buffer if that has been read, else those of the disk.
pub record Latest (s : Cache) (dev blockno : ℕ) (v : Block) : Type 0 where
  pub cached :
      (b : ℕ)
      → b < nbuf
      → is_for dev blockno (s.buf b) ≡ true
      → (s.buf b).valid ≡ true
      → (s.buf b).bytes ≡ v
  pub on_disk :
      ((b : ℕ) → b < nbuf → is_for dev blockno (s.buf b) ≡ true → (s.buf b).valid ≡ false)
      → s.disk dev blockno ≡ v

abbrev pub SameLatest : Cache → Cache → Type 0
SameLatest s t =
    (dev blockno : ℕ) (v : Block)
    → (dev == 0) ≡ false
    → Latest s dev blockno v
    → Latest t dev blockno v

-- Nobody holds the lock of the buffer of a block.
abbrev pub IsUnlocked : Cache → ℕ → ℕ → Type 0
IsUnlocked s dev blockno =
    (b : ℕ) → b < nbuf → is_for dev blockno (s.buf b) ≡ true → (s.buf b).held ≡ false

-- The ring of a state whose buffers have the same pointers.
pub IsRing-same :
    (s t : Cache) (l : List ℕ)
    → IsRing s l
    → ((x : ℕ) → ((t.buf x).next ≡ (s.buf x).next) × ((t.buf x).prev ≡ (s.buf x).prev))
    → IsRing t l
IsRing-same s t l ring same = record {
  forward =
      Walk-frame (λ x. (s.buf x).next) (λ x. (t.buf x).next) head l head ring.forward
        (λ x m. (same x).0);
  backward =
      Walk-frame (λ x. (s.buf x).prev) (λ x. (t.buf x).prev) head (reverse l) head ring.backward
        (λ x m. (same x).1);
  distinct = ring.distinct;
}

-- How long the list is.
pub short : (s : Cache) (l : List ℕ) → IsCoherent s l → length l < nbuf + 1
short s l h =
    let le = length-le_of_bound nbuf l h.ring.distinct.1 (λ b m. ground (arith, h.members b)) in
    omega (arith, le)
