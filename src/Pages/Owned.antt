-- ===== src/Pages/Owned.antt =====
-- Who owns the pages of kalloc.c: the free list, or a caller that kalloc has given it to.
use ele3021_os.Pages.{frees, count_free, Pages, kfree, kalloc, is_page}
use ele3021_os.Outcome.{ok, ◌>>◌, ◌>>=◌, Cmd, Returns-bind, Cmd, pure, Returns, returns}
use ele3021_os.Prelude.{
  zero, suc, ap, ◌∙◌, ◌+◌, length, inr, ==_iff, inl, if◌then◌else◌, Bool-cases, mem-erase,
  Distinct-erase, sym, refl, ==_refl, subst, arith, [], erase, ◌||◌, update, true, ◌&&◌, false, ◌∷◌,
  ◌==◌, Distinct, mem, ◌≡◌, ◌<◌, Bool, List, ℕ,
}

-- From `a` on, the free pages are those of the list.
abbrev pub Chain : (ℕ → ℕ) → ℕ → List ℕ → Type 0
Chain next a [] = a ≡ 0
Chain next a (x ∷ xs) = (a ≡ x) × ((x == 0) ≡ false) × Chain next (next x) xs

pub Chain-update :
    (next : ℕ → ℕ) (v w a : ℕ) (xs : List ℕ)
    → mem v xs ≡ false
    → Chain next a xs
    → Chain (update next v w) a xs
Chain-update next v w a [] off c = c
Chain-update next v w a (x ∷ xs) off c =
    let apart : (x == v) ≡ false = ground arith in
    let at : update next v w x ≡ next x = rw apart refl in
    (
      c.0,
      c.1,
      subst (λ k. Chain (update next v w) k xs) (sym at)
          (Chain-update next v w (next x) xs (ground arith) c.2),
    )

-- `used` are the pages that callers own, `pages` are all pages there are.
pub record Owned (kernel_end : ℕ) (pages : ℕ → Bool) (used : List ℕ) (s : Pages) : Type 0 where
  pub free : List ℕ
  pub chain : Chain s.next s.freelist free
  pub once : Distinct free
  pub used_once : Distinct used
  pub apart : (v : ℕ) → (mem v used && mem v free) ≡ false
  pub all : (v : ℕ) → (mem v used || mem v free) ≡ pages v
  pub good : (v : ℕ) → pages v ≡ true → is_page kernel_end v ≡ true

module _ (kernel_end : ℕ) (above : 0 < kernel_end) (pages : ℕ → Bool) (used : List ℕ)
    (s : Pages) where
  -- What kalloc comes to: a page that nobody owned and that its caller now owns, or 0 when callers own all.
  pub data Allocated (v : ℕ) (t : Pages) : Type 0 where
    page :
        (v == 0) ≡ false
        → mem v used ≡ false
        → pages v ≡ true
        → Owned kernel_end pages (v ∷ used) t
        → Allocated v t
    full : v ≡ 0 → t ≡ s → ((w : ℕ) → mem w used ≡ pages w) → Allocated v t

  pub kalloc-Allocated : Owned kernel_end pages used s → Returns Allocated (kalloc s)
  unfolding kalloc
  kalloc-Allocated h = from h.free h.chain h.once h.apart h.all
    where
      from :
          (free : List ℕ)
          → Chain s.next s.freelist free
          → Distinct free
          → ((v : ℕ) → (mem v used && mem v free) ≡ false)
          → ((v : ℕ) → (mem v used || mem v free) ≡ pages v)
          → Returns Allocated (kalloc s)
      from [] c d apart all = rw c (returns (full refl refl (λ w. ground (arith, all w))))
      from (x ∷ xs) c d apart all =
          rw (c.0, c.1)
            (returns (
              page c.1 (ground (arith, apart x)) (ground (arith, all x)) (record {
                free = xs;
                chain = c.2;
                once = d.1;
                used_once = (ground (arith, apart x), h.used_once);
                apart = λ v. ground (arith, apart v, d.0);
                all = λ v. ground (arith, all v);
                good = h.good;
              })))

  -- A page that a caller owns is free again.
  pub kfree-Owned :
      (v : ℕ)
      → mem v used ≡ true
      → Owned kernel_end pages used s
      → Returns (λ _. Owned kernel_end pages (erase v used)) (kfree kernel_end v s)
  unfolding kfree
  kfree-Owned v own h =
      let good : is_page kernel_end v ≡ true = h.good v (let k = h.all v in ground arith) in
      let new : mem v h.free ≡ false = let k = h.apart v in ground arith in
      let real : (v == 0) ≡ false = ground (arith, above) in
      rw good (
        returns (record {
          free = v ∷ h.free;
          chain = (
            refl,
            real,
            rw (==_refl v) (Chain-update s.next v s.freelist s.freelist h.free new h.chain),
          );
          once = (new, h.once);
          used_once = Distinct-erase v used h.used_once;
          apart = λ w. let k = h.apart w in let e = mem-erase w v used h.used_once in ground arith;
          all = λ w.
              let k = h.all w in
              let e = mem-erase w v used h.used_once in
              elim (Bool-cases (w == v)) [
                | inl on ↦
                    let at : w ≡ v = (==_iff w v).0 on in
                    let own' : mem w used ≡ true = subst (λ x. mem x used ≡ true) (sym at) own in
                    ground arith
                | inr off ↦ ground arith
              ];
          good = h.good;
        }))

count_free-Chain :
    (s : Pages) (fuel cur cnt : ℕ) (xs : List ℕ)
    → Chain s.next cur xs
    → length xs < fuel
    → count_free fuel cur cnt s ≡ ok (cnt + length xs) s
unfolding count_free
count_free-Chain s zero cur cnt xs c lt = absurd (omega arith)
count_free-Chain s (suc fuel) cur cnt [] c lt = rw c (ap (λ k. ok k s) (omega arith))
count_free-Chain s (suc fuel) cur cnt (x ∷ xs) c lt =
    rw (c.0, c.1)
      (count_free-Chain s fuel (s.next x) (cnt + 1) xs c.2 (omega (arith, lt))
        ∙ ap (λ k. ok k s) (omega arith))

-- frees counts the pages that no caller owns.
pub frees-Owned :
    (kernel_end : ℕ) (pages : ℕ → Bool) (used : List ℕ) (s : Pages)
    (h : Owned kernel_end pages used s) (fuel : ℕ)
    → length h.free < fuel
    → frees fuel s ≡ ok (length h.free) s
unfolding frees
frees-Owned kernel_end pages used s h fuel lt =
    count_free-Chain s fuel s.freelist 0 h.free h.chain lt ∙ ap (λ k. ok k s) (omega arith)

-- What callers do: one asks for a page, or one gives the page `v` back.
pub data Call : Type 0 where
  allocate : Call
  give_back : ℕ → Call

-- The calls one after the other; a caller only gives back what it owns.
abbrev pub run : ℕ → List Call → List ℕ → Cmd Pages (List ℕ)
run kernel_end [] used = pure used
run kernel_end (allocate ∷ cs) used = do
  v ← kalloc
  if v == 0 then run kernel_end cs used else run kernel_end cs (v ∷ used)
run kernel_end (give_back v ∷ cs) used =
    if mem v used
    then (kfree kernel_end v >> run kernel_end cs (erase v used))
    else run kernel_end cs used

module _ (kernel_end : ℕ) (above : 0 < kernel_end) (pages : ℕ → Bool) where
  -- When the kernel ends above address 0, and each page is owned once, by a caller or by the free
  -- list, and passes the test of kfree, any calls of kalloc, and of kfree on pages that a caller
  -- owns, return, and the same pages are again owned once each, by a caller or by the free list.
  pub run-Owned :
      (cs : List Call) (used : List ℕ) (s : Pages)
      → Owned kernel_end pages used s
      → Returns (Owned kernel_end pages) (run kernel_end cs used s)
  run-Owned [] used s h = returns h
  run-Owned (allocate ∷ cs) used s h =
      Returns-bind (kalloc s)
        (λ v. if v == 0 then run kernel_end cs used else run kernel_end cs (v ∷ used))
        (kalloc-Allocated kernel_end above pages used s h) (λ v t a. next (run-Owned cs) v t a)
    where
      next :
          ((used' : List ℕ) (t : Pages)
            → Owned kernel_end pages used' t
            → Returns (Owned kernel_end pages) (run kernel_end cs used' t))
          → (v : ℕ) (t : Pages) → Allocated kernel_end above pages used s v t
          → Returns
              (Owned kernel_end pages)
              ((if v == 0 then run kernel_end cs used else run kernel_end cs (v ∷ used)) t)
      next rest v t (page real new in_ own) = rw real (rest (v ∷ used) t own)
      next rest v t (full e same all) = rw (e, same) (rest used s h)
  run-Owned (give_back v ∷ cs) used s h = elim (Bool-cases (mem v used)) [
    | inl own ↦ rw own (
        Returns-bind (kfree kernel_end v s) (λ _. run kernel_end cs (erase v used))
          (kfree-Owned kernel_end above pages used s v own h)
          (λ _ t k. run-Owned cs (erase v used) t k))
    | inr off ↦ rw off (run-Owned cs used s h)
  ]
