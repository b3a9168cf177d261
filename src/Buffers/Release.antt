-- ===== src/Buffers/Release.antt =====
-- brelse of project3_filesystem/bio.c.
use ele3021_os.Buffers.Get.{with_buf}
use ele3021_os.Buffers.Ring.{IsRing-push, IsRing-unlink, strip, IsRing}
use ele3021_os.Buffers.Coherent.{IsRing-same, SameLatest, IsCoherent}
use ele3021_os.Prelude.{
  update, ltb, refl, fun_ext, ==_refl, mem-erase, subst, ◌++◌, inr, mem-split, ==_iff, sym, inl,
  arith, Bool-cases, ap, ◌-◌, ◌∙◌, false, true, erase, ◌≡◌, ◌∷◌, mem, ◌==◌, ◌<◌, if◌then◌else◌, ℕ,
  List,
}
use ele3021_os.Outcome.{pure, ◌>>◌, Cmd, returns, Returns, Returns-bind, Returns-mono}
use ele3021_os.Buffers.{head, Block, push_front, Buffer, brelse, unlink, is_for, nbuf, Cache}

-- What `brelse` leaves: one use less, no lock, and after the last use the buffer comes first.
pub record Released (s : Cache) (l : List ℕ) (b : ℕ) (t : Cache) : Type 0 where
  pub cache : IsCoherent t (if (s.buf b).refcnt == 1 then b ∷ erase b l else l)
  pub here :
      strip (t.buf b) ≡ strip (record (s.buf b) { held = false; refcnt = (s.buf b).refcnt - 1 })
  pub others : (x : ℕ) → (x == b) ≡ false → strip (t.buf x) ≡ strip (s.buf x)
  pub latest : SameLatest s t

-- The same buffers in another order.
module _ (s t : Cache) (l m : List ℕ) (h : IsCoherent s l) (ring : IsRing t m)
    (members : (b : ℕ) → mem b m ≡ mem b l) (same : (x : ℕ) → strip (t.buf x) ≡ strip (s.buf x))
    (disk : t.disk ≡ s.disk) where
  tests : (dev blockno x : ℕ) → is_for dev blockno (t.buf x) ≡ is_for dev blockno (s.buf x)
  tests dev blockno x = ap (is_for dev blockno) (same x)

  IsCoherent-moved : IsCoherent t m
  IsCoherent-moved = record {
    ring = ring;
    members = λ b. members b ∙ h.members b;
    single = λ b c lt lt' e k.
        h.single b c lt lt' (ap (λ (r : Buffer). r.dev == 0) (sym (same b)) ∙ e) (
          sym (tests (s.buf b).dev (s.buf b).blockno c)
          ∙ ap (λ (r : Buffer). is_for r.dev r.blockno (t.buf c)) (sym (same b))
          ∙ k);
    clean = λ b lt e v d.
        ap (λ (r : Buffer). r.bytes) (same b)
        ∙ h.clean b lt (ap (λ (r : Buffer). r.refcnt == 0) (sym (same b)) ∙ e)
            (ap (λ (r : Buffer). r.valid) (sym (same b)) ∙ v)
            (ap (λ (r : Buffer). r.dirty) (sym (same b)) ∙ d)
        ∙ ap (λ (r : Buffer). s.disk r.dev r.blockno) (sym (same b))
        ∙ ap (λ (f : ℕ → ℕ → Block). f (t.buf b).dev (t.buf b).blockno) (sym disk);
    counted = λ b lt e.
        ap (λ (r : Buffer). r.refcnt == 0) (same b)
        ∙ h.counted b lt (ap (λ (r : Buffer). r.held) (sym (same b)) ∙ e);
    read_first = λ b lt e.
        ap (λ (r : Buffer). r.valid) (same b)
        ∙ h.read_first b lt (ap (λ (r : Buffer). r.dirty) (sym (same b)) ∙ e);
  }

  SameLatest-moved : SameLatest s t
  SameLatest-moved d n v real was = record {
    cached = λ b lt e k.
        ap (λ (r : Buffer). r.bytes) (same b)
        ∙ was.cached b lt (sym (tests d n b) ∙ e) (ap (λ (r : Buffer). r.valid) (sym (same b)) ∙ k);
    on_disk = λ unread.
        ap (λ (f : ℕ → ℕ → Block). f d n) disk
        ∙ was.on_disk
            (λ b lt e. ap (λ (r : Buffer). r.valid) (sym (same b)) ∙ unread b lt (tests d n b ∙ e));
  }

module _ (s : Cache) (l : List ℕ) (h : IsCoherent s l) (b : ℕ) (small : b < nbuf)
    (held : (s.buf b).held ≡ true)
    (agrees : ((s.buf b).refcnt == 1) ≡ true
      → (s.buf b).valid ≡ true
      → (s.buf b).dirty ≡ false
      → (s.buf b).bytes ≡ s.disk (s.buf b).dev (s.buf b).blockno) where
  abbrev lowered : Cache
  lowered = with_buf s b (record (s.buf b) { held = false; refcnt = (s.buf b).refcnt - 1 })

  IsCoherent-lowered : IsCoherent lowered l
  IsCoherent-lowered = record {
    ring = IsRing-same s lowered l h.ring (λ x. ground arith);
    members = h.members;
    single = λ x y lt lt' e k. h.single x y lt lt' (ground arith) (ground arith);
    clean = λ x lt e v d. elim (Bool-cases (x == b)) [
      | inl on ↦
          let used = h.counted b small held in
          let last : (s.buf b).refcnt - 1 ≡ 0 =
            let k : ((s.buf b).refcnt - 1 == 0) ≡ true = rw on at e in ground arith in
          rw on (agrees (ground (arith, used)) (rw on at v) (rw on at d))
      | inr away ↦ rw away (h.clean x lt (rw away at e) (rw away at v) (rw away at d))
    ];
    counted = λ x lt e. let k = h.counted x lt in ground arith;
    read_first = λ x lt e. let k = h.read_first x lt in ground arith;
  }

  SameLatest-lowered : SameLatest s lowered
  SameLatest-lowered d n v real was = record {
    cached = λ x lt e k. elim (Bool-cases (x == b)) [
      | inl on ↦
          let at : x ≡ b = (==_iff x b).0 on in rw on (was.cached b small (rw on at e) (rw on at k))
      | inr away ↦ rw away (was.cached x lt (rw away at e) (rw away at k))
    ];
    on_disk = λ unread. was.on_disk (λ x lt e. let k = unread x lt in ground arith);
  }

  -- The last use puts the buffer in front.
  relink :
      Returns
        (λ _ t.
          IsRing t (b ∷ erase b l)
          × ((x : ℕ) → strip (t.buf x) ≡ strip (lowered.buf x))
          × (t.disk ≡ s.disk))
        ((unlink b >> push_front b) lowered)
  relink =
      let (ys, zs, whole, rest) = mem-split b l (h.members b ∙ ground arith) in
      let ring : IsRing lowered (ys ++ b ∷ zs) =
        subst (IsRing lowered) whole IsCoherent-lowered.ring in
      let new : mem b (head ∷ ys ++ zs) ≡ false =
        subst (λ k. mem b (head ∷ k) ≡ false) rest
          (let off = mem-erase b b l h.ring.distinct.1 in ground arith) in
      subst
        (λ k.
          Returns
            (λ _ t.
              IsRing t (b ∷ k)
              × ((x : ℕ) → strip (t.buf x) ≡ strip (lowered.buf x))
              × (t.disk ≡ s.disk))
            ((unlink b >> push_front b) lowered))
        (sym rest)
        (Returns-bind (unlink b lowered) (λ _. push_front b) (IsRing-unlink lowered ys b zs ring)
          (λ _ u (r, same).
            Returns-mono (IsRing-push u b (ys ++ zs) r new)
              (λ _ t (r', same'). (r', (λ x. same'.0 x ∙ same.0 x), same'.1 ∙ same.1))))

  members_front : (x : ℕ) → mem x (b ∷ erase b l) ≡ mem x l
  members_front x =
      let here = h.members b in
      let there = mem-erase x b l h.ring.distinct.1 in
      elim (Bool-cases (b == x)) [
        | inl on ↦
            let at : b ≡ x = (==_iff b x).0 on in
            ground (arith, subst (λ k. mem k l ≡ ltb k nbuf) at here)
        | inr off ↦ ground arith
      ]

  finish : Cmd Cache Unit
  finish u = (if (u.buf b).refcnt == 0 then (unlink b >> push_front b) else pure tt) u

  brelse_run : brelse b s ≡ finish lowered
  unfolding brelse finish
  brelse_run =
      let f = update s.buf b (record (s.buf b) { held = false }) in
      let twice : update f b (record (f b) { refcnt = (f b).refcnt - 1 }) ≡ lowered.buf =
        fun_ext (λ x. ground arith) in
      simp held (
        ap
          (λ g.
            (if (g b).refcnt == 0 then (unlink b >> push_front b) else pure tt)
              (record s { buf = g }))
          twice)

  -- From coherent buffers, for a locked buffer that agrees with the disk on its last use, unless it
  -- is dirty or not valid, brelse returns: the lock is free and there is one use less, after the
  -- last use the buffer comes first in the list, the buffers are coherent, and the other buffers and
  -- the contents of the blocks are as before.
  pub brelse-Released : Returns (λ _. Released s l b) (brelse b s)
  unfolding finish
  brelse-Released = elim (Bool-cases ((s.buf b).refcnt - 1 == 0)) [
    | inl last ↦
        let one : ((s.buf b).refcnt == 1) ≡ true =
          let used = h.counted b small held in ground (arith, used) in
        rw (brelse_run, ==_refl b, last)
          (Returns-mono relink (λ _ t (r, same, disk). record {
            cache = rw one (
                IsCoherent-moved lowered t l (b ∷ erase b l) IsCoherent-lowered r members_front same
                  disk);
            here = same b ∙ rw (==_refl b) refl;
            others = λ x e. same x ∙ rw e refl;
            latest = λ d n v real was.
                SameLatest-moved lowered t l (b ∷ erase b l) IsCoherent-lowered r members_front same
                  disk d n v real (SameLatest-lowered d n v real was);
          }))
    | inr more ↦
        let many : ((s.buf b).refcnt == 1) ≡ false = ground arith in
        rw (brelse_run, ==_refl b, more)
          (returns (record {
            cache = rw many IsCoherent-lowered;
            here = rw (==_refl b) refl;
            others = λ x e. rw e refl;
            latest = SameLatest-lowered;
          }))
  ]
