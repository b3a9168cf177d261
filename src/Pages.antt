-- ===== src/Pages.antt =====
-- The allocator of pages of project2_LWP/kalloc.c; but for frees() the file is the same in each
-- project. Memory is what
-- `next` of a free page holds; kmem.lock and the junk that kfree fills a page with are not in this
-- state. The end of the kernel, which the linker sets, is an argument.
pub mod Owned
pub mod Range
pub mod Examples
use ele3021_os.Lwp.State.{pgsize}
use ele3021_os.Lwp.Create.{pgroundup}
use ele3021_os.Outcome.{Cmd, gets, modify, pure, halt, out_of_fuel, ok, ◌>>=◌, ◌>>◌}
use ele3021_os.Prelude.{
  zero, ltb, leb, update, ◌&&◌, ◌-◌, ◌==◌, not, ◌%◌, ◌^◌, suc, ◌/◌, if◌then◌else◌, Bool, ◌+◌, ℕ,
}

-- KERNBASE and PHYSTOP of memlayout.h
abbrev pub kernbase : ℕ
kernbase = 2147483648

abbrev pub phystop : ℕ
phystop = 234881024

-- `next` is the word at the start of a page, `freelist` the first free page or 0.
pub record Pages : Type 0 where
  pub next : ℕ → ℕ
  pub freelist : ℕ

abbrev pub v2p : ℕ → ℕ
v2p v = (v + 2 ^ 32 - kernbase) % 2 ^ 32

-- The condition on which kfree does not panic.
abbrev pub is_page : ℕ → ℕ → Bool
is_page kernel_end v = v % pgsize == 0 && (not (ltb v kernel_end) && ltb (v2p v) phystop)

unfoldable pub kfree : ℕ → ℕ → Cmd Pages Unit
kfree kernel_end v = if not (is_page kernel_end v) then halt "kfree" else (do
  first ← gets (λ s. s.freelist)
  modify (λ s. record s { next = update s.next v first })
  modify (λ s. record s { freelist = v }))

-- 0 if there is no page.
unfoldable pub kalloc : Cmd Pages ℕ
kalloc = do
  r ← gets (λ s. s.freelist)
  if r == 0 then pure tt else modify (λ s. record s { freelist = s.next r })
  pure r

-- The loop from `p` on.
unfoldable pub freerange_from : ℕ → ℕ → ℕ → ℕ → Cmd Pages Unit
freerange_from zero kernel_end p vend = λ s. out_of_fuel
freerange_from (suc fuel) kernel_end p vend =
    let rest = freerange_from fuel kernel_end (p + pgsize) vend in
    if not (leb (p + pgsize) vend) then pure tt else (kfree kernel_end p >> rest)

-- The pages below `vend` are at most vend / PGSIZE.
unfoldable pub freerange : ℕ → ℕ → ℕ → Cmd Pages Unit
freerange kernel_end vstart vend =
    freerange_from (vend / pgsize + 1) kernel_end (pgroundup vstart) vend

-- for (r = cur; r; r = r->next) cnt++;
unfoldable pub count_free : ℕ → ℕ → ℕ → Cmd Pages ℕ
count_free zero cur cnt s = out_of_fuel
count_free (suc fuel) cur cnt s =
    let rest = count_free fuel (s.next cur) (cnt + 1) s in if cur == 0 then ok cnt s else rest

-- The walk gets the rounds that it is given.
unfoldable pub frees : ℕ → Cmd Pages ℕ
frees fuel s = count_free fuel s.freelist 0 s
