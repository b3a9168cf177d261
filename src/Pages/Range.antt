-- ===== src/Pages/Range.antt =====
-- freerange of kalloc.c: the pages that the allocator starts with.
use ele3021_os.Lwp.Create.{pgroundup}
use ele3021_os.Lwp.State.{pgsize}
use ele3021_os.Pages.{Pages, kfree, freerange, freerange_from, is_page, kernbase, phystop}
use ele3021_os.Pages.Owned.{Owned, Chain, Chain-update}
use ele3021_os.Outcome.{Returns, returns, Returns-mono, Returns-bind}
use ele3021_os.Prelude.{
  subst, ◌/◌, [], ◌^◌, zero, ==_iff, inr, inl, suc, Bool-cases, refl, ==_refl, ◌∷◌, ◌∙◌, false, ◌⊎◌,
  mem, ◌*◌, arith, Distinct, ◌<◌, true, List, ◌+◌, leb, ◌≤◌, ◌&&◌, ◌≡◌, ◌==◌, ◌%◌, Bool, ℕ,
}

-- A page from `a` on that ends at `e` or before.
abbrev pub in_range : ℕ → ℕ → ℕ → Bool
in_range a e v = v % pgsize == 0 && (leb a v && leb (v + pgsize) e)

module _ (kernel_end a vend : ℕ) (aligned : a % pgsize ≡ 0) (kernel : kernbase ≤ kernel_end)
    (after : kernel_end ≤ a) (top : vend ≤ kernbase + phystop) where
  -- The pages up to `p` are free.
  record Freed (p : ℕ) (s : Pages) : Type 0 where
    free : List ℕ
    chain : Chain s.next s.freelist free
    once : Distinct free
    all : (v : ℕ) → mem v free ≡ in_range a p v

  is_page_in : (v : ℕ) → in_range a vend v ≡ true → is_page kernel_end v ≡ true
  is_page_in v e = ground (arith, kernel, after, top)

  free_next :
      (p : ℕ) (s : Pages)
      → p % pgsize ≡ 0
      → a ≤ p
      → p + pgsize ≤ vend
      → Freed p s
      → Returns (λ _. Freed (p + pgsize)) (kfree kernel_end p s)
  unfolding kfree
  free_next p s even le fits h =
      let good : is_page kernel_end p ≡ true = is_page_in p (ground (arith, even, le, fits)) in
      let new : mem p h.free ≡ false = h.all p ∙ ground arith in
      rw good (
        returns (record {
          free = p ∷ h.free;
          chain = (
            refl,
            ground (arith, le, after, kernel),
            rw (==_refl p) (Chain-update s.next p s.freelist s.freelist h.free new h.chain),
          );
          once = (new, h.once);
          all = λ v.
              let k = h.all v in
              elim (Bool-cases (v == p)) [
                | inl on ↦ let at : v ≡ p = (==_iff v p).0 on in ground (arith, even, le)
                | inr off ↦ ground (arith, even, k)
              ];
        }))

  -- No page begins between `p` and the end.
  ended :
      (p : ℕ) (s : Pages)
      → p % pgsize ≡ 0
      → a ≤ p
      → (p ≡ a) ⊎ (p ≤ vend)
      → leb (p + pgsize) vend ≡ false
      → Freed p s
      → Freed vend s
  ended p s even le within_ stop h = record {
    free = h.free;
    chain = h.chain;
    once = h.once;
    all = λ v. let k = h.all v in k ∙ same v;
  }
    where
      same : (v : ℕ) → in_range a p v ≡ in_range a vend v
      same v = elim within_ [
        | inl first ↦ ground (arith, even, first, stop)
        | inr below ↦ ground (arith, even, below, stop)
      ]

  loop :
      (fuel p : ℕ) (s : Pages)
      → vend < p + fuel * pgsize + pgsize
      → p % pgsize ≡ 0
      → a ≤ p
      → (p ≡ a) ⊎ (p ≤ vend)
      → Freed p s
      → Returns (λ _. Freed vend) (freerange_from (suc fuel) kernel_end p vend s)
  unfolding freerange_from
  loop zero p s enough even le within_ h =
      let stop : leb (p + pgsize) vend ≡ false = ground arith in
      rw stop (returns (ended p s even le within_ stop h))
  loop (suc fuel) p s enough even le within_ h = elim (Bool-cases (leb (p + pgsize) vend)) [
    | inr stop ↦ rw stop (returns (ended p s even le within_ stop h))
    | inl more ↦
        let fits : p + pgsize ≤ vend = ground arith in
        rw more (
          Returns-bind (kfree kernel_end p s) _ (free_next p s even le fits h) (λ _ t k.
            loop fuel (p + pgsize) t (omega arith) (omega arith) (omega arith) (inr fits) k))
  ]

-- On an empty free list, for a kernel that ends at KERNBASE or above, a start that is not before
-- that and a page below 2^32 at least, and an end at most PHYSTOP above KERNBASE, freerange returns:
-- exactly the whole pages of the range are then free, each once, and pass the test of kfree.
pub freerange-Owned :
    (kernel_end vstart vend : ℕ) (s : Pages)
    → s.freelist ≡ 0
    → kernbase ≤ kernel_end
    → kernel_end ≤ vstart
    → vstart + pgsize ≤ 2 ^ 32
    → vend ≤ kernbase + phystop
    → Returns
        (λ _. Owned kernel_end (in_range (pgroundup vstart) vend) [])
        (freerange kernel_end vstart vend s)
unfolding freerange
freerange-Owned kernel_end vstart vend s empty kernel after word top =
    let a : ℕ = pgroundup vstart in
    let even : a % pgsize ≡ 0 = omega (arith) in
    let above : vstart ≤ a = omega (arith, word) in
    let first : Freed kernel_end a vend even kernel (omega (arith, above, after)) top a s = record {
      free = [];
      chain = empty;
      once = tt;
      all = λ v. ground arith;
    } in
    let rounds : suc (vend / pgsize) ≡ vend / pgsize + 1 = omega arith in
    subst
      (λ k.
        Returns (λ _. Owned kernel_end (in_range a vend) []) (freerange_from k kernel_end a vend s))
      rounds
      (Returns-mono
        (loop kernel_end a vend even kernel (omega (arith, above, after)) top (vend / pgsize) a s
          (omega (arith)) even (omega arith) (inl refl) first)
        (λ _ t h. record {
          free = h.free;
          chain = h.chain;
          once = h.once;
          used_once = tt;
          apart = λ v. refl;
          all = h.all;
          good = is_page_in kernel_end a vend even kernel (omega (arith, above, after)) top;
        }))
