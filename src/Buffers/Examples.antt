-- ===== src/Buffers/Examples.antt =====
-- Tests of the buffer cache on a disk whose blocks all hold 7.
use ele3021_os.Buffers.Walk.{mem-reverse}
use mathlib.Core.List.{reverse}
use ele3021_os.Buffers.Find.{usable_in-mem, usable_in}
use ele3021_os.Buffers.Read.{Read}
use ele3021_os.Buffers.Write.{bwrite-Written, Written}
use ele3021_os.Buffers.Get.{bget_locked-Fetched, hit-Fetched, with_buf, Fetched, Locks}
use ele3021_os.Buffers.Coherent.{IsRing-same, IsCoherent, IsUnlocked}
use ele3021_os.Buffers.Boot.{mem-down, down, Booted}
use ele3021_os.Prelude.{
  ◌<◌, Bool, ◌+◌, sym, ◌∙◌, fun_ext, refl, ◌≡◌, arith, ◌==◌, not, if◌then◌else◌, ℕ, true, ap, false,
}
use ele3021_os.Outcome.{Outcome, panic, fault, out_of_fuel, ok, returns, Returns}
use ele3021_os.Buffers.{
  bread_synced, brelse, bwrite, bget_locked, Block, nbuf, Buffer, Cache, binit, bread,
}
use ele3021_os.Buffers.Boot.{binit-Booted}
use ele3021_os.Buffers.Serve.{bread_synced-Read, IsCoherent-flagged, flagged, bread-Served, Served}
use ele3021_os.Buffers.Release.{Released, brelse-Released}

abbrev zeroes : Cache
zeroes = record {
  buf = λ x. record {
    valid = false;
    dirty = false;
    dev = 0;
    blockno = 0;
    held = false;
    refcnt = 0;
    prev = 0;
    next = 0;
    bytes = λ i. 0;
  };
  disk = λ d n i. 7;
  synchronizing = false;
}

-- What a call leaves; a call that does not return leaves the zeroed state.
abbrev left : {A : Type 0} → Outcome Cache A → Cache
left (ok a t) = t
left (panic message) = zeroes
left fault = zeroes
left out_of_fuel = zeroes

left-Returns :
    {A : Type 0} (P : Cache → Type 0) (r : Outcome Cache A) → Returns (λ _. P) r → P (left r)
left-Returns P r (returns h) = h

abbrev booted : Cache
booted = left (binit zeroes)

booted-Booted : Booted zeroes booted
booted-Booted =
    left-Returns (Booted zeroes) (binit zeroes)
      (binit-Booted zeroes (λ x. record { valid = refl; dirty = refl; dev = refl; held = refl }))

booted-IsUnlocked : IsUnlocked booted 1 9
booted-IsUnlocked b lt e = ap (λ (r : Buffer). r.held) (booted-Booted.rest b)

-- A cache that is full of changed blocks: but for buffer 0, every buffer is dirty.
abbrev crowded : Cache
crowded = record booted {
  buf = λ x. record (booted.buf x) {
    valid = true;
    dirty = not (x == 0);
    dev = 1;
    blockno = x;
    bytes = λ i. if x == 0 then 7 else x;
  };
  synchronizing = false;
}

crowded-IsCoherent : IsCoherent crowded (down nbuf)
crowded-IsCoherent = record {
  ring = IsRing-same booted crowded (down nbuf) booted-Booted.cache.ring (λ x. (refl, refl));
  members = booted-Booted.cache.members;
  single = λ b c lt lt' real e. ground arith;
  clean = λ b lt e v d.
      let clean : (b == 0) ≡ true = ground arith in
      let seven : (λ (i : ℕ). if b == 0 then 7 else b) ≡ (λ i. 7) = fun_ext (λ i. rw clean refl) in
      seven ∙ ap (λ (f : ℕ → ℕ → Block). f 1 b) (sym booted-Booted.disk);
  counted = λ b lt e. let off = ap (λ (r : Buffer). r.held) (booted-Booted.rest b) in cc (off, e);
  read_first = λ b lt e. refl;
}

crowded-IsUnlocked : (d n : ℕ) → IsUnlocked crowded d n
crowded-IsUnlocked d n b lt e = ap (λ (r : Buffer). r.held) (booted-Booted.rest b)

abbrev syncing : Cache
syncing = flagged crowded true

one_usable : (flag : Bool) → 0 < usable_in (flagged crowded flag) (reverse (down nbuf))
one_usable flag =
    usable_in-mem (flagged crowded flag) 0 (reverse (down nbuf))
      (mem-reverse 0 (down nbuf) ∙ mem-down 0 nbuf)
      (let used = ap (λ (r : Buffer). r.refcnt == 0) (booted-Booted.rest 0) in rw used refl)

-- Only buffer 0 can be used, so that bread goes to sync1; with its flag set it takes that buffer.
bread-Served_example : Returns (Served syncing (down nbuf) 1 60) (bread 1 60 syncing)
bread-Served_example =
    bread-Served syncing (down nbuf)
      (IsCoherent-flagged crowded true (down nbuf) crowded-IsCoherent) 1 60 refl (omega arith)
      (crowded-IsUnlocked 1 60) (λ e. one_usable true)

bread_synced-Read_example :
    Returns (Locks (Read (flagged syncing false) (down nbuf) 1 60)) (bread_synced 1 60 syncing)
bread_synced-Read_example =
    bread_synced-Read syncing (down nbuf)
      (IsCoherent-flagged crowded true (down nbuf) crowded-IsCoherent) 1 60 refl (omega arith)
      (crowded-IsUnlocked 1 60) (one_usable false)

bget_locked-Fetched_example :
    Returns (Locks (Fetched crowded (down nbuf) 1 60)) (bget_locked 1 60 crowded)
bget_locked-Fetched_example =
    bget_locked-Fetched crowded (down nbuf) crowded-IsCoherent 1 60 refl 0 (omega arith)
      (let used = ap (λ (r : Buffer). r.refcnt == 0) (booted-Booted.rest 0) in rw used refl)
      (crowded-IsUnlocked 1 60)

-- Buffer 3 in use.
abbrev busy : Cache
busy =
    with_buf crowded 3 (record (crowded.buf 3) { refcnt = (crowded.buf 3).refcnt + 1; held = true })

busy-Fetched : Fetched crowded (down nbuf) 1 3 3 busy
busy-Fetched = hit-Fetched crowded (down nbuf) crowded-IsCoherent 1 3 refl 3 (omega arith) refl

bwrite-Written_example : Returns (λ _. Written busy (down nbuf) 3) (bwrite 3 busy)
bwrite-Written_example =
    bwrite-Written busy (down nbuf) busy-Fetched.cache 3 (omega arith) refl refl (omega arith)

brelse-Released_example : Returns (λ _. Released busy (down nbuf) 3) (brelse 3 busy)
brelse-Released_example =
    brelse-Released busy (down nbuf) busy-Fetched.cache 3 (omega arith) refl (λ e v d. cc)

binit-Booted_example : Returns (λ _. Booted zeroes) (binit zeroes)
binit-Booted_example =
    binit-Booted zeroes (λ x. record { valid = refl; dirty = refl; dev = refl; held = refl })
