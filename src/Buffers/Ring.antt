-- ===== src/Buffers/Ring.antt =====
-- The list of buffers of project3_filesystem/bio.c as a ring through bcache.head.
use ele3021_os.Buffers.Walk.{
  Walk-snoc, last_or-reverse, Walk-cons, Walk-remove, first_or-reverse, Distinct-reverse,
  Walk-first, last_or, Walk-at, mem-reverse, first_or, Walk,
}
use ele3021_os.Buffers.{push_front, unlink, head, Buffer, Cache}
use mathlib.Core.List.{reverse, reverse-append, reverse-cons, append_assoc}
use ele3021_os.Prelude.{
  sym, ==_iff, inl, ==_refl, inr, Distinct-join, ap, [], Distinct-append, subst, ◌∙◌, Bool-cases,
  ◌++◌, true, refl, arith, mem, if◌then◌else◌, ◌∷◌, Distinct, false, ◌==◌, ◌≡◌, List, ℕ,
}
use ele3021_os.Outcome.{Returns-mono, returns, Returns}

-- From bcache.head the pointers lead through `l` and back, in both directions.
pub record IsRing (s : Cache) (l : List ℕ) : Type 0 where
  pub forward : Walk (λ x. (s.buf x).next) head l head
  pub backward : Walk (λ x. (s.buf x).prev) head (reverse l) head
  pub distinct : Distinct (head ∷ l)

-- A buffer without its place in the list.
abbrev pub strip : Buffer → Buffer
strip r = record r { prev = 0; next = 0 }

-- Only pointers have changed, to `next` and `prev`.
pub record Relinked (s : Cache) (next prev : ℕ → ℕ) (t : Cache) : Type 0 where
  pub nexts : (x : ℕ) → (t.buf x).next ≡ next x
  pub prevs : (x : ℕ) → (t.buf x).prev ≡ prev x
  pub rest : (x : ℕ) → strip (t.buf x) ≡ strip (s.buf x)
  pub disk : t.disk ≡ s.disk
  pub synchronizing : t.synchronizing ≡ s.synchronizing

module _ (s : Cache) (b : ℕ) where
  unlink_run :
      ((s.buf b).next == b) ≡ false
      → Returns
          (λ _.
            Relinked s
              (λ x. if x == (s.buf b).prev then (s.buf b).next else (s.buf x).next)
              (λ x. if x == (s.buf b).next then (s.buf b).prev else (s.buf x).prev))
          (unlink b s)
  unlink_run off =
      let off' : (b == (s.buf b).next) ≡ false = ground arith in
      rw off' (
        returns (record {
          nexts = λ x. ground arith;
          prevs = λ x. ground arith;
          rest = λ x. ground arith;
          disk = refl;
          synchronizing = refl;
        }))

  push_run :
      (b == head) ≡ false
      → Returns
          (λ _.
            Relinked s
              (λ x. if x == head then b else if x == b then (s.buf head).next else (s.buf x).next)
              (λ x. if x == (s.buf head).next then b else if x == b then head else (s.buf x).prev))
          (push_front b s)
  push_run off =
      let off' : (head == b) ≡ false = ground arith in
      rw off' (
        returns (record {
          nexts = λ x. ground arith;
          prevs = λ x. ground arith;
          rest = λ x. ground arith;
          disk = refl;
          synchronizing = refl;
        }))

not_in : (x b : ℕ) (l : List ℕ) → mem x l ≡ true → mem b l ≡ false → (x == b) ≡ false
not_in x b l m off = elim (Bool-cases (x == b)) [
  | inr e ↦ e
  | inl e ↦ let at : x ≡ b = (==_iff x b).0 e in cc (off, subst (λ k. mem k l ≡ true) at m)
]

first_apart : (b : ℕ) (ys : List ℕ) → mem b (head ∷ ys) ≡ false → (b == first_or head ys) ≡ false
first_apart b [] off = ground arith
first_apart b (y ∷ ys) off = ground arith

reverse-middle :
    (xs : List ℕ) (b : ℕ) (ys : List ℕ) → reverse (xs ++ b ∷ ys) ≡ reverse ys ++ b ∷ reverse xs
reverse-middle xs b ys =
    reverse-append xs (b ∷ ys)
    ∙ ap (λ l. l ++ reverse xs) (reverse-cons b ys)
    ∙ append_assoc (reverse ys) (b ∷ []) (reverse xs)

Distinct-reversed : (l : List ℕ) → Distinct (head ∷ l) → Distinct (head ∷ reverse l)
Distinct-reversed l d = (mem-reverse head l ∙ d.0, Distinct-reverse l d.1)

module _ (s : Cache) (xs : List ℕ) (b : ℕ) (ys : List ℕ) (ring : IsRing s (xs ++ b ∷ ys)) where
  back-Walk : Walk (λ x. (s.buf x).prev) head (reverse ys ++ b ∷ reverse xs) head
  back-Walk =
      subst (λ l. Walk (λ x. (s.buf x).prev) head l head) (reverse-middle xs b ys) ring.backward

  next_is : (s.buf b).next ≡ first_or head ys
  next_is = Walk-at (λ x. (s.buf x).next) head xs b ys head ring.forward

  prev_is : (s.buf b).prev ≡ last_or head xs
  prev_is =
      Walk-at (λ x. (s.buf x).prev) head (reverse ys) b (reverse xs) head back-Walk
      ∙ first_or-reverse head xs

  whole : Distinct ((head ∷ xs) ++ b ∷ ys)
  whole = ring.distinct

  -- `b` stands once.
  apart : (mem b (head ∷ xs) ≡ false) × (mem b ys ≡ false)
  apart =
      let (d, e, off) = Distinct-append (head ∷ xs) (b ∷ ys) whole in
      (
        elim (Bool-cases (mem b (head ∷ xs))) [
          | inr f ↦ f
          | inl f ↦ let g = off b f in absurd (ground (arith, g))
        ],
        e.0,
      )

  less : Distinct (head ∷ xs ++ ys)
  less =
      let (d, e, off) = Distinct-append (head ∷ xs) (b ∷ ys) whole in
      Distinct-join (head ∷ xs) ys d e.1 (λ a m. let g = off a m in ground (arith, g))

  pub IsRing-unlink :
      Returns
        (λ _ t.
          IsRing t (xs ++ ys)
          × (((x : ℕ) → strip (t.buf x) ≡ strip (s.buf x))
              × (t.disk ≡ s.disk)
              × (t.synchronizing ≡ s.synchronizing)))
        (unlink b s)
  IsRing-unlink =
      let far : (b == first_or head ys) ≡ false = first_apart b ys (ground (arith, apart)) in
      let off : ((s.buf b).next == b) ≡ false = ground (arith, next_is) in
      Returns-mono (unlink_run s b off) (λ _ t r. (
        record {
          forward =
              Walk-remove (λ x. (s.buf x).next) (λ x. (t.buf x).next) head xs b ys head ring.forward
                less (r.nexts (last_or head xs) ∙ rw (prev_is, ==_refl (last_or head xs)) next_is)
                (λ x m e. r.nexts x ∙ rw (prev_is, e) refl);
          backward =
              subst (λ l. Walk (λ x. (t.buf x).prev) head l head) (sym (reverse-append xs ys))
                (Walk-remove (λ x. (s.buf x).prev) (λ x. (t.buf x).prev) head (reverse ys) b
                  (reverse xs) head back-Walk
                  (subst (λ l. Distinct (head ∷ l)) (reverse-append xs ys)
                    (Distinct-reversed (xs ++ ys) less))
                  (ap (λ k. (t.buf k).prev) (last_or-reverse head ys)
                    ∙ r.prevs (first_or head ys)
                    ∙ rw (next_is, ==_refl (first_or head ys))
                        (prev_is ∙ sym (first_or-reverse head xs)))
                  (λ x m e.
                    r.prevs x
                    ∙ (let e' : (x == first_or head ys) ≡ false =
                          ap (λ k. x == k) (sym (last_or-reverse head ys)) ∙ e in
                        rw (next_is, e') refl)));
          distinct = less;
        },
        (r.rest, r.disk, r.synchronizing),
      ))

module _ (s : Cache) (b : ℕ) (m : List ℕ) (ring : IsRing s m) (new : mem b (head ∷ m) ≡ false) where
  pub IsRing-push :
      Returns
        (λ _ t.
          IsRing t (b ∷ m)
          × (((x : ℕ) → strip (t.buf x) ≡ strip (s.buf x))
              × (t.disk ≡ s.disk)
              × (t.synchronizing ≡ s.synchronizing)))
        (push_front b s)
  IsRing-push =
      let off : (b == head) ≡ false = ground arith in
      let first : (s.buf head).next ≡ first_or head m =
        Walk-first (λ x. (s.buf x).next) head m head ring.forward in
      Returns-mono (push_run s b off) (λ _ t r. (
        record {
          forward =
              Walk-cons (λ x. (s.buf x).next) (λ x. (t.buf x).next) head b m head ring.forward
                ring.distinct.0 (r.nexts head ∙ refl) (r.nexts b ∙ rw (off, ==_refl b) refl)
                (λ x k. let (h, e) = elsewhere x k in r.nexts x ∙ rw (h, e) refl);
          backward =
              subst (λ l. Walk (λ x. (t.buf x).prev) head l head) (sym (reverse-cons b m))
                (Walk-snoc (λ x. (s.buf x).prev) (λ x. (t.buf x).prev) head (reverse m) b head
                  ring.backward (Distinct-reversed m ring.distinct)
                  (ap (λ k. (t.buf k).prev) (last_or-reverse head m)
                    ∙ r.prevs (first_or head m)
                    ∙ rw (first, ==_refl (first_or head m)) refl)
                  (r.prevs b
                    ∙ (let far : (b == first_or head m) ≡ false = first_apart b m new in
                        rw (first, far, ==_refl b) refl))
                  (λ x k e.
                    let e' : (x == first_or head m) ≡ false =
                      ap (λ j. x == j) (sym (last_or-reverse head m)) ∙ e in
                    let e'' : (x == b) ≡ false = back_elsewhere x k in
                    r.prevs x ∙ rw (first, e', e'') refl));
          distinct = (ground (arith, ring.distinct.0), (ground arith, ring.distinct.1));
        },
        (r.rest, r.disk, r.synchronizing),
      ))
    where
      elsewhere : (x : ℕ) → mem x m ≡ true → ((x == head) ≡ false) × ((x == b) ≡ false)
      elsewhere x k = (not_in x head m k ring.distinct.0, not_in x b m k (ground arith))

      back_elsewhere : (x : ℕ) → mem x (head ∷ reverse m) ≡ true → (x == b) ≡ false
      back_elsewhere x k = not_in x b (head ∷ m) (ground (arith, mem-reverse x m)) new
