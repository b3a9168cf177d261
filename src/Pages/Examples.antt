-- ===== src/Pages/Examples.antt =====
-- A kernel that ends at 0x80100000, and two free pages behind it.
use ele3021_os.Lwp.Create.{pgroundup}
use ele3021_os.Pages.{Pages, freerange}
use ele3021_os.Pages.Owned.{Owned, run, run-Owned, allocate, give_back, Call}
use ele3021_os.Pages.Range.{freerange-Owned, in_range}
use ele3021_os.Outcome.{Returns}
use ele3021_os.Prelude.{refl, arith, ◌+◌, [], ◌∷◌, ◌==◌, mem, List, if◌then◌else◌, ℕ}

abbrev kernel_end : ℕ
kernel_end = 2148532224

abbrev two_pages : Pages
two_pages = record {
  next = λ p. if p == kernel_end then kernel_end + 4096 else 0;
  freelist = kernel_end;
}

abbrev page_list : List ℕ
page_list = kernel_end ∷ (kernel_end + 4096) ∷ []

two_pages-Owned : Owned kernel_end (λ v. mem v page_list) [] two_pages
two_pages-Owned = record {
  free = page_list;
  chain = (refl, refl, (refl, refl, refl));
  once = (refl, (refl, tt));
  used_once = tt;
  apart = λ v. refl;
  all = λ v. refl;
  good = λ v e. ground arith;
}

-- Three callers ask, the third in vain, and one gives its page back for a fourth.
abbrev calls : List Call
calls = allocate ∷ allocate ∷ allocate ∷ give_back kernel_end ∷ allocate ∷ []

run-Owned_example :
    Returns (Owned kernel_end (λ v. mem v page_list)) (run kernel_end calls [] two_pages)
run-Owned_example =
    run-Owned kernel_end (omega arith) (λ v. mem v page_list) calls [] two_pages two_pages-Owned

freerange-Owned_example :
    Returns
      (λ _. Owned kernel_end (in_range (pgroundup 2148532225) 2148544512) [])
      (freerange kernel_end 2148532225 2148544512 (record { next = λ p. 0; freelist = 0 }))
freerange-Owned_example =
    freerange-Owned kernel_end 2148532225 2148544512 (record { next = λ p. 0; freelist = 0 }) refl
      (omega arith) (omega arith) (omega arith) (omega arith)
