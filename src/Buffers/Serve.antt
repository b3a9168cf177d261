-- ===== src/Buffers/Serve.antt =====
-- bread of project3_filesystem/bio.c, up to a call of sync1 that makes room and from its return on.
use ele3021_os.Outcome.{Returns-bind, returns, Returns-mono, Returns}
use ele3021_os.Prelude.{
  inl, inr, Bool-cases, arith, ◌∙◌, ◌+◌, not, ◌&&◌, ◌<◌, true, false, ◌≡◌, leb, refl, ◌==◌, ℕ, List,
  Bool,
}
use ele3021_os.Buffers.{
  fill, head, nbuf, bget_synced, bget, bget_locked, bread_synced, bread, fssize, syncs, nresbuf,
  Access, Cache,
}
use ele3021_os.Buffers.Walk.{length-reverse, mem-reverse}
use mathlib.Core.List.{reverse}
use ele3021_os.Buffers.Find.{usable_in-pos, count_usable-usable_in, usable_in}
use ele3021_os.Buffers.Get.{bget_locked-Fetched, Fetched, Locks}
use ele3021_os.Buffers.Read.{fill-Read, Read}
use ele3021_os.Buffers.{locks, waits}
use ele3021_os.Outcome.{◌>>=◌}
use ele3021_os.Buffers.Coherent.{short, IsUnlocked, IsRing-same, IsCoherent}

-- The flag of bget is no part of the contents.
module _ (s : Cache) (flag : Bool) where
  abbrev pub flagged : Cache
  flagged = record s { synchronizing = flag }

  pub IsCoherent-flagged : (l : List ℕ) → IsCoherent s l → IsCoherent flagged l
  IsCoherent-flagged l h = record {
    ring = IsRing-same s flagged l h.ring (λ x. (refl, refl));
    members = h.members;
    single = h.single;
    clean = h.clean;
    counted = h.counted;
    read_first = h.read_first;
  }

-- What a call of bread comes to: with NRESBUF usable buffers or fewer, and no synchronization under
-- way, it goes to sync1; else it has read the block.
pub data Served (s : Cache) (l : List ℕ) (dev blockno : ℕ) (a : Access) (t : Cache) : Type 0 where
  asks :
      leb (usable_in s (reverse l)) nresbuf ≡ true
      → s.synchronizing ≡ false
      → a ≡ syncs
      → t ≡ flagged s true
      → Served s l dev blockno a t
  reads :
      (leb (usable_in s (reverse l)) nresbuf && not s.synchronizing) ≡ false
      → Locks (Read s l dev blockno) a t
      → Served s l dev blockno a t

module _ (s : Cache) (l : List ℕ) (h : IsCoherent s l) (dev blockno : ℕ) (real : (dev == 0) ≡ false)
    (in_fs : blockno < fssize) (unlocked : IsUnlocked s dev blockno) where
  locked-Read :
      0 < usable_in s (reverse l)
      → Returns (Locks (Read s l dev blockno)) ((bget_locked dev blockno >>= fill) s)
  locked-Read some_ =
      let (c, m, usable) = usable_in-pos s (reverse l) some_ in
      let small : c < nbuf = ground (arith, h.members c, mem-reverse c l) in
      Returns-bind (bget_locked dev blockno s) fill
        (bget_locked-Fetched s l h dev blockno real c small (ground arith) unlocked) after
    where
      after :
          (a : Access) (t : Cache)
          → Locks (Fetched s l dev blockno) a t
          → Returns (Locks (Read s l dev blockno)) (fill a t)
      after (locks b) t g = fill-Read s l h dev blockno real b t g in_fs
      after (waits b) t g = absurd g
      after syncs t g = absurd g

  -- From coherent buffers, for a block below FSSIZE of a device other than 0 whose buffer nobody
  -- holds, if a buffer can be used in case a synchronization is under way: bread returns. With
  -- NRESBUF usable buffers or fewer and no synchronization under way it goes to sync1 and has set
  -- only its flag. Else it gives a locked and valid buffer of the block with its latest contents and
  -- one reference more: the one it had, or the last usable one of the list. The buffers are coherent
  -- in the same order, the latest contents of every block of a real device, the other buffers and
  -- the disk are as before.
  pub bread-Served :
      (s.synchronizing ≡ true → 0 < usable_in s (reverse l))
      → Returns (Served s l dev blockno) (bread dev blockno s)
  unfolding bread bget
  bread-Served room =
      let cnt = 0 + usable_in s (reverse l) in
      let counted =
        count_usable-usable_in s (nbuf + 1) head 0 (reverse l) h.ring.backward
          (mem-reverse head l ∙ h.ring.distinct.0)
          (let le = short s l h in omega (arith, le, length-reverse l)) in
      elim (Bool-cases (leb cnt nresbuf)) [
        | inr many ↦
            rw (counted, many)
              (Returns-mono (locked-Read (ground arith)) (λ a t k. reads (ground (arith, many)) k))
        | inl few ↦
            let few' : leb (usable_in s (reverse l)) nresbuf ≡ true = ground arith in
            elim (Bool-cases s.synchronizing) [
              | inr idle ↦ simp (counted, few, idle) (returns (asks few' idle refl refl))
              | inl busy ↦
                  simp (counted, few, busy)
                    (Returns-mono (locked-Read (room busy))
                      (λ a t k. reads (ground (arith, busy)) k))
            ]
      ]

module _ (s : Cache) (l : List ℕ) (h : IsCoherent s l) (dev blockno : ℕ) (real : (dev == 0) ≡ false)
    (in_fs : blockno < fssize) (unlocked : IsUnlocked s dev blockno) where
  -- From coherent buffers, for a block below FSSIZE of a device other than 0 whose buffer nobody
  -- holds, if a buffer can be used: once sync1 has returned, bread clears its flag and returns a
  -- locked and valid buffer of the block with its latest contents and one reference more: the one it
  -- had, or the last usable one of the list. The buffers are coherent in the same order, the latest
  -- contents of every block of a real device, the other buffers and the disk are as before.
  pub bread_synced-Read :
      0 < usable_in (flagged s false) (reverse l)
      → Returns (Locks (Read (flagged s false) l dev blockno)) (bread_synced dev blockno s)
  unfolding bread_synced bget_synced
  bread_synced-Read some_ =
      locked-Read (flagged s false) l (IsCoherent-flagged s false l h) dev blockno real in_fs
        unlocked some_
