-- ===== src/Buffers/Get.antt =====
-- bget of project3_filesystem/bio.c, once it has looked after the free buffers.
use ele3021_os.Buffers.Walk.{length-reverse, mem-reverse}
use ele3021_os.Buffers.Find.{find_list-none, find_list-some, find_buf-find_list, find_list}
use ele3021_os.Prelude.{
  sym, subst, Option-cases, refl, ◌∙◌, inr, inl, fun_ext, ap, Bool-cases, ==_refl, arith, some,
  ◌||◌, ◌+◌, true, false, ◌≡◌, ◌==◌, ◌<◌, update, List, ℕ,
}
use ele3021_os.Buffers.{
  head, is_usable, bget_locked, acquiresleep, is_for, nbuf, locks, waits, syncs,
}
use ele3021_os.Buffers.Coherent.{IsCoherent, IsUnlocked, IsRing-same, short}
use ele3021_os.Buffers.{Buffer, Access, Cache}
use mathlib.Core.List.{reverse}
use ele3021_os.Outcome.{returns, Returns, ok}

-- `bget` returns the buffer `b`, locked.
pub record Fetched (s : Cache) (l : List ℕ) (dev blockno b : ℕ) (t : Cache) : Type 0 where
  pub cache : IsCoherent t l
  pub small : b < nbuf
  pub right : is_for dev blockno (t.buf b) ≡ true
  pub held : (t.buf b).held ≡ true
  pub counted : (t.buf b).refcnt ≡ (s.buf b).refcnt + 1
  pub hit :
      is_for dev blockno (s.buf b) ≡ true
      → ((t.buf b).valid ≡ (s.buf b).valid)
        × ((t.buf b).dirty ≡ (s.buf b).dirty)
        × ((t.buf b).bytes ≡ (s.buf b).bytes)
  pub miss :
      is_for dev blockno (s.buf b) ≡ false
      → (find_list s is_usable (reverse l) ≡ some b)
        × ((t.buf b).valid ≡ false)
        × ((t.buf b).dirty ≡ false)
        × ((c : ℕ) → c < nbuf → is_for dev blockno (s.buf c) ≡ false)
  pub others : (x : ℕ) → (x == b) ≡ false → t.buf x ≡ s.buf x
  pub disk : t.disk ≡ s.disk
  pub flag : t.synchronizing ≡ s.synchronizing

-- The buffer in an answer, which is locked.
abbrev pub Locks : (ℕ → Cache → Type 0) → Access → Cache → Type 0
Locks P (locks b) t = P b t
Locks P (waits b) t = ⊥
Locks P syncs t = ⊥

abbrev pub with_buf : Cache → ℕ → Buffer → Cache
with_buf s b r = record s { buf = update s.buf b r }

module _ (s : Cache) (l : List ℕ) (h : IsCoherent s l) (dev blockno : ℕ)
    (real : (dev == 0) ≡ false) where
  pub hit-Fetched :
      (b : ℕ)
      → b < nbuf
      → is_for dev blockno (s.buf b) ≡ true
      → Fetched s l dev blockno b
          (with_buf s b (record (s.buf b) { refcnt = (s.buf b).refcnt + 1; held = true }))
  hit-Fetched b small right =
      let r : Buffer = record (s.buf b) { refcnt = (s.buf b).refcnt + 1; held = true } in
      let t : Cache = with_buf s b r in
      record {
        cache = record {
          ring = IsRing-same s t l h.ring (λ x. ground arith);
          members = h.members;
          single = λ x y lt lt' e k. h.single x y lt lt' (ground arith) (ground arith);
          clean = λ x lt e v d. elim (Bool-cases (x == b)) [
            | inl on ↦ absurd (ground arith)
            | inr off ↦ rw off (h.clean x lt (rw off at e) (rw off at v) (rw off at d))
          ];
          counted = λ x lt e. let k = h.counted x lt in ground arith;
          read_first = λ x lt e. let k = h.read_first x lt in ground arith;
        };
        small = small;
        right = ground arith;
        held = ground arith;
        counted = ground arith;
        hit = λ _. ground arith;
        miss = λ off. cc (off, right);
        others = λ x off. rw off refl;
        disk = refl;
        flag = refl;
      }

  miss-Fetched :
      (b : ℕ)
      → b < nbuf
      → find_list s is_usable (reverse l) ≡ some b
      → is_usable (s.buf b) ≡ true
      → ((c : ℕ) → c < nbuf → is_for dev blockno (s.buf c) ≡ false)
      → Fetched s l dev blockno b (
          with_buf s b (record (s.buf b) {
            dev = dev;
            blockno = blockno;
            valid = false;
            dirty = false;
            refcnt = 1;
            held = true;
          }))
  miss-Fetched b small found usable none_ =
      let r : Buffer = record (s.buf b) {
        dev = dev;
        blockno = blockno;
        valid = false;
        dirty = false;
        refcnt = 1;
        held = true;
      } in
      let t : Cache = with_buf s b r in
      record {
        cache = record {
          ring = IsRing-same s t l h.ring (λ x. ground arith);
          members = h.members;
          single = λ x y lt lt' e k. elim (Bool-cases (x == b)) [
            | inl on ↦ elim (Bool-cases (y == b)) [
              | inl on' ↦ ground arith
              | inr off' ↦ let off = none_ y lt' in absurd (ground arith)
            ]
            | inr off ↦ elim (Bool-cases (y == b)) [
              | inl on' ↦ let no_ = none_ x lt in absurd (ground arith)
              | inr off' ↦ h.single x y lt lt' (rw off at e) (rw (off, off') at k)
            ]
          ];
          clean = λ x lt e v d. elim (Bool-cases (x == b)) [
            | inl on ↦ absurd (ground arith)
            | inr off ↦ rw off (h.clean x lt (rw off at e) (rw off at v) (rw off at d))
          ];
          counted = λ x lt e. let k = h.counted x lt in ground arith;
          read_first = λ x lt e. let k = h.read_first x lt in ground arith;
        };
        small = small;
        right = ground arith;
        held = ground arith;
        counted = ground arith;
        hit = λ on. let off = none_ b small in cc;
        miss = λ off. (found, ground arith, ground arith, none_);
        others = λ x off. rw off refl;
        disk = refl;
        flag = refl;
      }

  acquire_free :
      (b : ℕ) (r : Buffer)
      → r.held ≡ false
      → acquiresleep b (with_buf s b r) ≡ ok (locks b) (with_buf s b (record r { held = true }))
  unfolding acquiresleep
  acquire_free b r off =
      rw (==_refl b, off)
        (ap (λ f. ok (locks b) (record s { buf = f })) (fun_ext (λ x. ground arith)))

  -- From coherent buffers, for a device other than 0, when some buffer is for the block or can be
  -- used and nobody holds the buffer of the block, bget returns, once the room has been looked
  -- after, a locked buffer for the block with one use more: the one of the block with its contents,
  -- if there is one, else the last of the list that is unused and not dirty, which is then not
  -- valid. The other buffers, the list and the disk are as before.
  pub bget_locked-Fetched :
      (c : ℕ)
      → c < nbuf
      → (is_for dev blockno (s.buf c) || is_usable (s.buf c)) ≡ true
      → IsUnlocked s dev blockno
      → Returns (Locks (Fetched s l dev blockno)) (bget_locked dev blockno s)
  unfolding bget_locked
  bget_locked-Fetched c lt room unlocked =
      let long = short s l h in
      let first =
        find_buf-find_list s (λ r. r.next) (is_for dev blockno) (nbuf + 1) head l h.ring.forward
          h.ring.distinct.0 long in
      let last =
        find_buf-find_list s (λ r. r.prev) is_usable (nbuf + 1) head (reverse l) h.ring.backward
          (mem-reverse head l ∙ h.ring.distinct.0) (omega (arith, long, length-reverse l)) in
      elim (Option-cases (find_list s (is_for dev blockno) l)) [
        | inr (b, e) ↦
            let (m, right) = find_list-some s (is_for dev blockno) l b e in
            let small : b < nbuf = ground (arith, h.members b) in
            rw (first, e)
              (subst (Returns (Locks (Fetched s l dev blockno)))
                (sym (
                  acquire_free b (record (s.buf b) { refcnt = (s.buf b).refcnt + 1 })
                    (unlocked b small right)))
                (returns (hit-Fetched b small right)))
        | inl e ↦
            let none_ : (x : ℕ) → x < nbuf → is_for dev blockno (s.buf x) ≡ false =
              λ x lt'. find_list-none s (is_for dev blockno) l e x (h.members x ∙ ground arith) in
            elim (Option-cases (find_list s is_usable (reverse l))) [
              | inr (b, e') ↦
                  let (m, usable) = find_list-some s is_usable (reverse l) b e' in
                  let small : b < nbuf = ground (arith, h.members b, mem-reverse b l) in
                  let free : (s.buf b).held ≡ false = elim (Bool-cases (s.buf b).held) [
                    | inr off ↦ off
                    | inl on ↦ let k = h.counted b small on in absurd (ground arith)
                  ] in
                  rw (first, e, last, e')
                    (subst (Returns (Locks (Fetched s l dev blockno)))
                      (sym (
                        acquire_free b
                          (record (s.buf b) {
                            dev = dev;
                            blockno = blockno;
                            valid = false;
                            dirty = false;
                            refcnt = 1;
                          })
                          free))
                      (returns (miss-Fetched b small e' usable none_)))
              | inl e' ↦
                  let no_ = none_ c lt in
                  let full =
                    find_list-none s is_usable (reverse l) e' c
                      (mem-reverse c l ∙ h.members c ∙ ground arith) in
                  absurd (ground arith)
            ]
      ]
