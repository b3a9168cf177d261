-- ===== src/Buffers/Read.antt =====
-- bread of project3_filesystem/bio.c: whoever reads a block gets its latest contents.
use ele3021_os.Outcome.{ok, returns, Returns}
use ele3021_os.Buffers.Get.{with_buf, Locks, Fetched}
use ele3021_os.Buffers.Find.{find_list-some, find_list}
use ele3021_os.Buffers.Coherent.{IsRing-same, SameLatest, Latest, IsCoherent}
use ele3021_os.Prelude.{
  ltb, refl, fun_ext, ==_refl, ◌&&◌, subst, ==_iff, inl, sym, ◌∙◌, ap, inr, Bool-cases, some, ◌+◌,
  false, ◌==◌, ◌<◌, arith, true, ◌≡◌, List, ℕ,
}
use mathlib.Core.List.{reverse}
use ele3021_os.Buffers.{fssize, locks, fill, iderw, is_usable, Block, nbuf, is_for, Buffer, Cache}

-- `bread` returns the buffer `b`, locked, with the contents of the block.
pub record Read (s : Cache) (l : List ℕ) (dev blockno b : ℕ) (t : Cache) : Type 0 where
  pub cache : IsCoherent t l
  pub small : b < nbuf
  pub right : is_for dev blockno (t.buf b) ≡ true
  pub held : (t.buf b).held ≡ true
  pub counted : (t.buf b).refcnt ≡ (s.buf b).refcnt + 1
  pub contents : (v : Block) → Latest s dev blockno v → (t.buf b).bytes ≡ v
  pub valid : (t.buf b).valid ≡ true
  pub latest : SameLatest s t
  pub recycled : is_for dev blockno (s.buf b) ≡ false → find_list s is_usable (reverse l) ≡ some b
  pub others : (x : ℕ) → (x == b) ≡ false → t.buf x ≡ s.buf x
  pub disk : t.disk ≡ s.disk
  pub flag : t.synchronizing ≡ s.synchronizing

is_for-same :
    (dev blockno d n : ℕ) (r : Buffer)
    → is_for dev blockno r ≡ true
    → is_for d n r ≡ true
    → (d ≡ dev) × (n ≡ blockno)
is_for-same dev blockno d n r e k = ground arith

module _ (s : Cache) (l : List ℕ) (h : IsCoherent s l) (dev blockno : ℕ)
    (real : (dev == 0) ≡ false) where
  Fetched-Latest : (b : ℕ) (t : Cache) → Fetched s l dev blockno b t → SameLatest s t
  Fetched-Latest b t g d n v real' was = record {
    cached = λ c lt e k. elim (Bool-cases (c == b)) [
      | inr off ↦
          let at : t.buf c ≡ s.buf c = g.others c off in
          ap (λ (r : Buffer). r.bytes) at
          ∙ was.cached c lt (ap (λ (r : Buffer). is_for d n r) (sym at) ∙ e)
              (ap (λ (r : Buffer). r.valid) (sym at) ∙ k)
      | inl on ↦
          let at : c ≡ b = (==_iff c b).0 on in
          let e' : is_for d n (t.buf b) ≡ true = subst (λ x. is_for d n (t.buf x) ≡ true) at e in
          let k' : (t.buf b).valid ≡ true = subst (λ x. (t.buf x).valid ≡ true) at k in
          let (ed, en) = is_for-same dev blockno d n (t.buf b) g.right e' in
          elim (Bool-cases (is_for dev blockno (s.buf b))) [
            | inl here ↦
                let (gv, gd, gb) = g.hit here in
                rw at (gb ∙ was.cached b g.small (rw (ed, en) here) (sym gv ∙ k'))
            | inr away ↦ let m = g.miss away in cc (m.1, k')
          ]
    ];
    on_disk = λ none_.
        ap (λ (f : ℕ → ℕ → Block). f d n) g.disk
        ∙ elim (Bool-cases (is_for d n (s.buf b) && (s.buf b).valid)) [
          | inl on ↦
              let here : is_for d n (s.buf b) ≡ true = ground arith in
              let there : (s.buf b).valid ≡ true = ground arith in
              elim (Bool-cases (is_for dev blockno (s.buf b))) [
                | inl hit ↦
                    let (gv, gd, gb) = g.hit hit in
                    let (ed, en) = is_for-same dev blockno d n (s.buf b) hit here in
                    let gone = none_ b g.small (rw (ed, en) g.right) in cc (gv, gone, there)
                | inr miss ↦
                    let m = g.miss miss in
                    let (k, usable) = find_list-some s is_usable (reverse l) b m.0 in
                    let clean = h.clean b g.small (ground arith) there (ground arith) in
                    let (ed, en) =
                      is_for-same (s.buf b).dev (s.buf b).blockno d n (s.buf b) (ground arith)
                        here in
                    rw (ed, en) (sym clean) ∙ was.cached b g.small here there
              ]
          | inr off ↦ was.on_disk (λ c lt e. elim (Bool-cases (c == b)) [
            | inl on ↦
                let at : c ≡ b = (==_iff c b).0 on in
                let e' : is_for d n (s.buf b) ≡ true =
                  subst (λ x. is_for d n (s.buf x) ≡ true) at e in
                rw at (ground arith)
            | inr away ↦
                let at : t.buf c ≡ s.buf c = g.others c away in
                ap (λ (r : Buffer). r.valid) (sym at)
                ∙ none_ c lt (ap (λ (r : Buffer). is_for d n r) at ∙ e)
          ])
        ];
  }

  -- A buffer that has been read is left; another one gets the contents of the disk.
  module _ (b : ℕ) (t : Cache) (g : Fetched s l dev blockno b t) where
    fill_valid : (t.buf b).valid ≡ true → Read s l dev blockno b t
    fill_valid valid = record {
      cache = g.cache;
      small = g.small;
      right = g.right;
      held = g.held;
      counted = g.counted;
      contents =
          λ v was. (Fetched-Latest b t g dev blockno v real was).cached b g.small g.right valid;
      valid = valid;
      latest = Fetched-Latest b t g;
      recycled = λ off. (g.miss off).0;
      others = g.others;
      disk = g.disk;
      flag = g.flag;
    }

    abbrev filled : Cache
    filled = with_buf t b (record (t.buf b) {
      bytes = t.disk (t.buf b).dev (t.buf b).blockno;
      valid = true;
      dirty = false;
    })

    -- Another buffer is for another block.
    alone : (c : ℕ) → c < nbuf → is_for dev blockno (t.buf c) ≡ true → c ≡ b
    alone c lt e = g.cache.single b c g.small lt (ground (arith, g.right)) (ground (arith, g.right))

    filled-Latest : (t.buf b).valid ≡ false → SameLatest t filled
    filled-Latest off d n v real' was = record {
      cached = λ c lt e k. elim (Bool-cases (c == b)) [
        | inr away ↦ rw away (was.cached c lt (rw away at e) (rw away at k))
        | inl on ↦
            let here : is_for d n (t.buf b) ≡ true = rw on at e in
            let (ed, en) =
              is_for-same (t.buf b).dev (t.buf b).blockno d n (t.buf b) (ground arith) here in
            rw on (
              rw (← ed, ← en)
                (was.on_disk (λ x lt' e'. elim (Bool-cases (x == b)) [
                  | inl same ↦ let at : x ≡ b = (==_iff x b).0 same in rw at off
                  | inr other ↦
                      let (rd, rn) = is_for-same dev blockno d n (t.buf b) g.right here in
                      let at : x ≡ b = alone x lt' (ground arith) in absurd (ground arith)
                ])))
      ];
      on_disk = λ none_. was.on_disk (λ c lt e. elim (Bool-cases (c == b)) [
        | inr away ↦ let k = none_ c lt (rw away e) in rw away at k
        | inl on ↦ let at : c ≡ b = (==_iff c b).0 on in rw at off
      ]);
    }

    filled-Read : (t.buf b).valid ≡ false → Read s l dev blockno b filled
    filled-Read off =
        let h' = g.cache in
        let later = filled-Latest off in
        record {
          cache = record {
            ring = IsRing-same t filled l h'.ring (λ x. ground arith);
            members = h'.members;
            single = λ x y lt lt' e k. h'.single x y lt lt' (ground arith) (ground arith);
            clean = λ x lt e v d. elim (Bool-cases (x == b)) [
              | inl on ↦ rw on refl
              | inr away ↦ rw away (h'.clean x lt (rw away at e) (rw away at v) (rw away at d))
            ];
            counted = λ x lt e. let k = h'.counted x lt in ground arith;
            read_first = λ x lt e. let k = h'.read_first x lt in ground arith;
          };
          small = g.small;
          right = rw (==_refl b) g.right;
          held = rw (==_refl b) g.held;
          counted = rw (==_refl b) g.counted;
          contents = λ v was.
              (later dev blockno v real (Fetched-Latest b t g dev blockno v real was)).cached b
                g.small (rw (==_refl b) g.right) (rw (==_refl b) refl);
          valid = rw (==_refl b) refl;
          latest = λ d n v real' was. later d n v real' (Fetched-Latest b t g d n v real' was);
          recycled = λ e. (g.miss e).0;
          others = λ x e. rw e (g.others x e);
          disk = g.disk;
          flag = g.flag;
        }

    iderw_run :
        (t.buf b).valid ≡ false
        → (t.buf b).dirty ≡ false
        → blockno < fssize
        → iderw b t ≡ ok tt filled
    unfolding iderw
    iderw_run off fresh in_fs =
        let on_device : ltb (t.buf b).blockno fssize ≡ true = ground (arith, g.right) in
        rw (g.held, off, fresh, on_device)
          (ap (λ f. ok tt (record t { buf = f })) (fun_ext (λ x. ground arith)))

    pub fill-Read : blockno < fssize → Returns (Locks (Read s l dev blockno)) (fill (locks b) t)
    fill-Read in_fs = elim (Bool-cases (t.buf b).valid) [
      | inl on ↦ rw on (returns (fill_valid on))
      | inr off ↦
          let fresh : (t.buf b).dirty ≡ false = elim (Bool-cases (t.buf b).dirty) [
            | inr e ↦ e
            | inl e ↦ let k = g.cache.read_first b g.small e in cc (k, off)
          ] in
          rw (off, iderw_run off fresh in_fs) (returns (filled-Read off))
    ]
