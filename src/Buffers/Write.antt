-- ===== src/Buffers/Write.antt =====
-- bwrite of project3_filesystem/bio.c.
use ele3021_os.Buffers.Coherent.{IsRing-same, Latest, IsCoherent}
use ele3021_os.Prelude.{
  ltb, ap, fun_ext, subst, ==_iff, sym, ◌∙◌, inl, inr, refl, Bool-cases, arith, ==_refl, update,
  ◌==◌, false, true, ◌<◌, ◌≡◌, ℕ, List,
}
use ele3021_os.Outcome.{ok, returns, Returns}
use ele3021_os.Buffers.{fssize, Buffer, Block, is_for, nbuf, Cache, bwrite, iderw}

-- What `bwrite` leaves: the contents of the buffer on the disk, and no other change.
pub record Written (s : Cache) (l : List ℕ) (b : ℕ) (t : Cache) : Type 0 where
  pub cache : IsCoherent t l
  pub buffer : t.buf b ≡ record (s.buf b) { valid = true; dirty = false }
  pub others : (x : ℕ) → (x == b) ≡ false → t.buf x ≡ s.buf x
  pub disk : t.disk (s.buf b).dev (s.buf b).blockno ≡ (s.buf b).bytes
  pub kept : (d n : ℕ) → is_for d n (s.buf b) ≡ false → t.disk d n ≡ s.disk d n
  pub latest : Latest t (s.buf b).dev (s.buf b).blockno (s.buf b).bytes
  pub rest : (d n : ℕ) (v : Block) → is_for d n (s.buf b) ≡ false → Latest s d n v → Latest t d n v

iderw_dirty :
    (b : ℕ) (u : Cache) (r : Buffer)
    → u.buf b ≡ r
    → r.held ≡ true
    → r.dirty ≡ true
    → r.blockno < fssize
    → iderw b u
      ≡ ok tt (record u {
        buf = update u.buf b (record r { valid = true; dirty = false });
        disk = update u.disk r.dev (update (u.disk r.dev) r.blockno r.bytes);
      })
unfolding iderw
iderw_dirty b u r at held dirty in_fs =
    let on_device : ltb r.blockno fssize ≡ true = ground arith in
    elim (Bool-cases r.valid) [
      | inl v ↦ simp (at, held, v, dirty, on_device) refl
      | inr v ↦ simp (at, held, v, dirty, on_device) refl
    ]

module _ (s : Cache) (l : List ℕ) (h : IsCoherent s l) (b : ℕ) (small : b < nbuf)
    (held : (s.buf b).held ≡ true) (real : ((s.buf b).dev == 0) ≡ false) where
  abbrev written : Cache
  written = record s {
    buf = update s.buf b (record (s.buf b) { valid = true; dirty = false });
    disk =
        update s.disk (s.buf b).dev
          (update (s.disk (s.buf b).dev) (s.buf b).blockno (s.buf b).bytes);
  }

  on_disk : written.disk (s.buf b).dev (s.buf b).blockno ≡ (s.buf b).bytes
  on_disk = rw (==_refl (s.buf b).dev, ==_refl (s.buf b).blockno) refl

  elsewhere : (d n : ℕ) → is_for d n (s.buf b) ≡ false → written.disk d n ≡ s.disk d n
  elsewhere d n off = ground arith

  -- No other buffer is for the block.
  alone : (x : ℕ) → x < nbuf → is_for (s.buf b).dev (s.buf b).blockno (s.buf x) ≡ true → x ≡ b
  alone x lt e = h.single b x small lt real e

  IsCoherent-written : IsCoherent written l
  IsCoherent-written = record {
    ring = IsRing-same s written l h.ring (λ x. ground arith);
    members = h.members;
    single = λ x y lt lt' e k. h.single x y lt lt' (ground arith) (ground arith);
    clean = λ x lt e v d. elim (Bool-cases (x == b)) [
      | inl on ↦ rw on (sym on_disk)
      | inr away ↦
          let c = h.clean x lt (rw away at e) (rw away at v) (rw away at d) in
          rw away (c ∙ sym (elsewhere (s.buf x).dev (s.buf x).blockno (off x lt away)))
    ];
    counted = λ x lt e. let k = h.counted x lt in ground arith;
    read_first = λ x lt e. let k = h.read_first x lt in ground arith;
  }
    where
      off :
          (x : ℕ)
          → x < nbuf
          → (x == b) ≡ false
          → is_for (s.buf x).dev (s.buf x).blockno (s.buf b) ≡ false
      off x lt away = elim (Bool-cases (is_for (s.buf x).dev (s.buf x).blockno (s.buf b))) [
        | inr e ↦ e
        | inl e ↦ let at = alone x lt (ground arith) in absurd (ground arith)
      ]

  written-Written : Written s l b written
  written-Written = record {
    cache = IsCoherent-written;
    buffer = rw (==_refl b) refl;
    others = λ x e. rw e refl;
    disk = on_disk;
    kept = elsewhere;
    latest = record {
      cached = λ x lt e k. let at : x ≡ b = alone x lt (ground arith) in rw (at, ==_refl b) refl;
      on_disk = λ unread. on_disk;
    };
    rest = λ d n v off was. record {
      cached = λ x lt e k. elim (Bool-cases (x == b)) [
        | inl on ↦ absurd (ground arith)
        | inr away ↦ rw away (was.cached x lt (rw away at e) (rw away at k))
      ];
      on_disk = λ unread.
          elsewhere d n off
          ∙ was.on_disk (λ x lt e.
            let k = unread x lt in
            elim (Bool-cases (x == b)) [
              | inl on ↦
                  let at : x ≡ b = (==_iff x b).0 on in
                  cc (off, subst (λ j. is_for d n (s.buf j) ≡ true) at e)
              | inr away ↦ ground arith
            ]);
    };
  }

  bwrite_run : (s.buf b).blockno < fssize → bwrite b s ≡ ok tt written
  unfolding bwrite
  bwrite_run in_fs =
      let r : Buffer = record (s.buf b) { dirty = true; held = true } in
      let twice : update (update s.buf b r) b (record r { valid = true; dirty = false })
          ≡ update s.buf b (record r { valid = true; dirty = false }) =
        fun_ext (λ x. ground arith) in
      simp held (
        iderw_dirty b (record s { buf = update s.buf b r }) r (rw (==_refl b) refl) refl refl in_fs
        ∙ ap (λ f. ok tt (record written { buf = f })) twice)

  -- From coherent buffers, for a locked buffer of a block below FSSIZE of a device other than 0,
  -- bwrite returns with the contents of the buffer in its block on the disk: the buffer is valid and
  -- not dirty, these contents are the latest of the block, the buffers are coherent, and the other
  -- buffers, the rest of the disk and the contents of the other blocks are as before.
  pub bwrite-Written : (s.buf b).blockno < fssize → Returns (λ _. Written s l b) (bwrite b s)
  bwrite-Written in_fs = rw (bwrite_run in_fs) (returns written-Written)
