-- ===== src/Mlfq/Process.antt =====
-- project1_scheduler/proc.c: creation, end, sleep and wakeup of processes. `mem` and `copied` say
-- whether kalloc() and copyuvm() succeed. Files, the working directory, the trap frame and the page
-- table are not in this state.
use ele3021_os.Prelude.{
  ◌||◌, not, true, some, ◌+◌, negsuc, ◌==◌, eq_ℤ, ◌&&◌, pos, same_ptr, false, Option, ℤ, none,
  if◌then◌else◌, Bool, ℕ,
}
use ele3021_os.Outcome.{each, Cmd, pure, halt, gets, modify, deref, ◌>>=◌, ◌>>◌}
use ele3021_os.Mlfq.State.{nproc, set_next, set_prev}
use ele3021_os.Mlfq.Queue.{pushqueue}
use ele3021_os.Mlfq.Kernel.{
  unused, embryo, sleeping, runnable, running, zombie, same_state, Chan, on_proc, waits_on, Kernel,
  on_queues, set_proc, scan,
}
use ele3021_os.Mlfq.Sched.{password, scheduler_unlock, erase_proc}

-- What allocproc does with the free entry that it found.
unfoldable pub claim : Bool → ℕ → Cmd Kernel (Option ℕ)
claim mem p = do
  pid ← gets (λ s. s.nextpid)
  set_proc p (λ r. record r { state = embryo; pid = pid; priority = pos 3; tq = pos 0 })
  modify (λ s. record s { nextpid = pid + 1 })
  on_queues (do set_prev (some p) none; set_next (some p) none)
  on_queues (pushqueue (some 0) (some p))
  if mem
      then (set_proc p (λ r. record r { kstack = true }) >> pure (some p))
      else (set_proc p (λ r. record r { state = unused; kstack = false }) >> pure none)

unfoldable pub allocproc : Bool → Cmd Kernel (Option ℕ)
unfolding claim
allocproc mem = do
  found ← gets (λ s. scan nproc 0 (λ i. same_state (s.procs i).state unused))
  elim found [ none ↦ pure none | some p ↦ claim mem p ]

-- -1 is `none`.
unfoldable pub fork : Bool → Bool → Cmd Kernel (Option ℕ)
unfolding allocproc
fork mem copied = do
  me ← gets (λ s. s.current)
  child ← allocproc mem
  elim child [
    | none ↦ pure none
    | some p ↦
        if not copied
        then (set_proc p (λ r. record r { kstack = false; state = unused }) >> pure none)
        else (do
          set_proc p (λ r. record r { parent = me })
          pid ← gets (λ s. (s.procs p).pid)
          set_proc p (λ r. record r { state = runnable })
          pure (some pid))
  ]

unfoldable pub wakeup1 : Chan → Cmd Kernel Unit
wakeup1 chan = each nproc 0 (λ p. do
  proc ← gets (λ s. s.procs p)
  if same_state proc.state sleeping && waits_on proc.chan chan
      then set_proc p (λ r. record r { state = runnable })
      else pure tt)

-- The code switches to the scheduler, which resets the CPU's process.
unfoldable pub sched : Cmd Kernel Unit
sched = do
  me ← gets (λ s. s.current)
  deref me (λ p. do
    proc ← gets (λ s. s.procs p)
    if same_state proc.state running then halt "sched running" else pure tt)

unfoldable pub yield : Cmd Kernel Unit
unfolding sched
yield = do
  me ← gets (λ s. s.current)
  deref me (λ p. set_proc p (λ r. record r { state = runnable }))
  sched

-- Up to the switch; `p->chan = 0` follows when the process runs again.
unfoldable pub sleep : Chan → Cmd Kernel Unit
unfolding sched
sleep chan = do
  me ← gets (λ s. s.current)
  elim me [
    | none ↦ halt "sleep"
    | some p ↦ set_proc p (λ r. record r { chan = some chan; state = sleeping }) >> sched
  ]

unfoldable pub after_sleep : ℕ → Cmd Kernel Unit
after_sleep p = set_proc p (λ r. record r { chan = none })

-- 0 is `true`, -1 is `false`.
unfoldable pub kill : ℤ → Cmd Kernel Bool
kill pid = do
  found ← gets (λ s. scan nproc 0 (λ i. eq_ℤ (pos (s.procs i).pid) pid))
  elim found [
    | none ↦ pure false
    | some p ↦ (do
      proc ← gets (λ s. s.procs p)
      set_proc p (λ r. record r {
        killed = true;
        state = if same_state proc.state sleeping then runnable else proc.state;
      })
      pure true)
  ]

-- wakeup1(parent); nothing sleeps on NULL.
abbrev wake_parent : Option ℕ → Cmd Kernel Unit
wake_parent none = pure tt
wake_parent (some p) = wakeup1 (on_proc p)

-- Up to the switch to the scheduler, which never comes back.
unfoldable pub exit : Cmd Kernel Unit
unfolding wakeup1 sched
exit = do
  me ← gets (λ s. s.current)
  init ← gets (λ s. s.initproc)
  if same_ptr me init
      then halt "init exiting"
      else deref me (λ cur. do
        self ← gets (λ s. s.procs cur)
        lockpid ← gets (λ s. s.lockpid)
        if lockpid == self.pid then scheduler_unlock password else pure tt
        wake_parent self.parent
        each nproc 0 (λ p. do
          proc ← gets (λ s. s.procs p)
          if same_ptr proc.parent (some cur)
              then (do
                set_proc p (λ r. record r { parent = init })
                if same_state proc.state zombie then wake_parent init else pure tt)
              else pure tt)
        set_proc cur (λ r. record r { state = zombie })
        sched)

-- What one scan of wait() comes to.
pub data Waited : Type 0 where
  reaped : ℕ → Waited
  failed : Waited
  asleep : Waited

unfoldable pub reap : ℕ → Cmd Kernel ℕ
reap p = do
  erase_proc p
  pid ← gets (λ s. (s.procs p).pid)
  set_proc p (λ r. record r {
    kstack = false;
    pid = 0;
    parent = none;
    killed = false;
    state = unused;
    priority = negsuc 0;
    tq = negsuc 0;
  })
  pure pid

-- One turn of the loop of wait(): a zombie child is reaped; -1 without children or when killed; else
-- the process sleeps on itself, and the loop begins again when it is woken.
unfoldable pub wait : Cmd Kernel Waited
unfolding reap sleep
wait = do
  me ← gets (λ s. s.current)
  deref me (λ cur. do
    dead ← gets (λ s.
        scan nproc 0 (λ i. same_ptr (s.procs i).parent me && same_state (s.procs i).state zombie))
    elim dead [
      | some p ↦ (do pid ← reap p; pure (reaped pid))
      | none ↦ (do
        child ← gets (λ s. scan nproc 0 (λ i. same_ptr (s.procs i).parent me))
        self ← gets (λ s. s.procs cur)
        if same_ptr child none || self.killed
            then pure failed
            else (sleep (on_proc cur) >> pure asleep))
    ])
