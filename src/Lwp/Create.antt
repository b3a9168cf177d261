-- ===== src/Lwp/Create.antt =====
-- thread_create of project2_LWP/proc.c. The answers of kalloc, allocuvm and copyout are arguments, 0
-- for a failure of the first two. clearpteu, freevm and what is written into the new stacks and the
-- trap frame are not in the state.
use ele3021_os.Mlfq.Kernel.{runnable, unused}
use ele3021_os.Outcome.{gets, pure, deref, ◌>>=◌, ◌>>◌, Cmd}
use ele3021_os.Lwp.Thread.{allocth}
use ele3021_os.Lwp.State.{
  Process, kstacksize, pgsize, Machine, acquire, release, set_thread, set_process,
}
use ele3021_os.Prelude.{
  ◌*◌, ◌/◌, update, ◌^◌, some, ◌==◌, not, ◌%◌, none, if◌then◌else◌, ◌-◌, Option, Bool, ◌+◌, ℕ,
}

-- PGROUNDUP(a) of mmu.h
abbrev pub pgroundup : ℕ → ℕ
pgroundup a = (a + pgsize - 1) % 2 ^ 32 / pgsize * pgsize

-- The size of the process with a stack more.
abbrev pub new_top : (ℕ → ℕ → ℕ) → Process → ℕ
new_top allocuvm r =
    allocuvm (pgroundup r.sz) ((pgroundup r.sz + (1 + r.stacksize) * pgsize) % 2 ^ 32)

-- `sz` and `sp`: a stack that a thread of this index has left, or new pages; `none` is `goto bad`.
unfoldable pub find_stack : (ℕ → ℕ → ℕ) → ℕ → ℕ → Cmd Machine (Option (ℕ × ℕ))
find_stack allocuvm p i = do
  proc ← gets (λ s. s.procs p)
  if not (proc.freedustack i == 0)
      then (do
        set_process p (λ r. record r { freedustack = update r.freedustack i 0 })
        pure (some (pgroundup proc.sz, proc.freedustack i)))
      else (if new_top allocuvm proc == 0
          then pure none
          else pure (some (new_top allocuvm proc, new_top allocuvm proc)))

-- From copyout on.
unfoldable pub launch : (ℕ → Bool) → ℕ → ℕ → ℕ → ℕ → Cmd Machine (Option ℕ)
launch copyout p i sz sp = if not (copyout ((sp + 2 ^ 32 - 8) % 2 ^ 32)) then pure none else (do
  set_process p (λ r. record r { sz = sz })
  set_thread p i (λ th. record th { ustack = sp })
  set_thread p i (λ th. record th { state = runnable })
  release
  tid ← gets (λ s. ((s.procs p).thread i).tid)
  pure (some tid))

-- From kalloc on; a trap frame takes 76 bytes, a context 20.
unfoldable pub build : ℕ → (ℕ → ℕ → ℕ) → (ℕ → Bool) → ℕ → ℕ → Cmd Machine (Option ℕ)
build kalloc allocuvm copyout p i = do
  set_thread p i (λ th. record th { kstack = kalloc })
  if kalloc == 0 then (do set_thread p i (λ th. record th { state = unused }); pure none) else (do
    set_thread p i (λ th. record th { tf = kalloc + kstacksize - 76 })
    set_thread p i (λ th. record th { context = kalloc + kstacksize - 76 - 4 - 20 })
    found ← find_stack allocuvm p i
    elim found [ none ↦ pure none | some stack ↦ launch copyout p i stack.0 stack.1 ])

-- The result is the number of the new thread, `none` where the code returns -1.
unfoldable pub thread_create : ℕ → (ℕ → ℕ → ℕ) → (ℕ → Bool) → Cmd Machine (Option ℕ)
thread_create kalloc allocuvm copyout = do
  me ← gets (λ s. s.current)
  deref me (λ p. do
    acquire
    slot ← allocth p
    elim slot [ none ↦ pure none | some i ↦ build kalloc allocuvm copyout p i ])
