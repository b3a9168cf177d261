-- ===== src/Lwp/Process.antt =====
-- Creation and end of processes in project2_LWP/proc.c. `stack` is what kalloc() returns and `copied`
-- whether copyuvm() succeeds.
use ele3021_os.Mlfq.State.{nproc}
use ele3021_os.Mlfq.Kernel.{sleeping, runnable, embryo, zombie, unused, same_state, ProcState, scan}
use ele3021_os.Prelude.{
  true, ◌||◌, update, ◌+◌, ◌==◌, ◌&&◌, not, some, false, same_ptr, none, if◌then◌else◌, Bool,
  Option, ℕ,
}
use ele3021_os.Outcome.{◌>>=◌, ◌>>◌, Cmd, gets, pure, halt, crash, deref, modify, each}
use ele3021_os.Lwp.State.{Thread, Machine, set_process, set_thread, acquire, release, on_process}
use ele3021_os.Lwp.Thread.{allocth, copyprocth, wakeup1, sched, sleep}

-- `p->thread[i].state = v`, where allocth may have returned -1.
abbrev mark_thread : ℕ → Option ℕ → ProcState → Cmd Machine Unit
mark_thread p none v = crash
mark_thread p (some i) v = set_thread p i (λ th. record th { state = v })

-- The trap frame takes 76 bytes of the kernel stack, the return address 4, the context 20.
unfoldable pub allocproc : ℕ → Cmd Machine (Option ℕ)
allocproc stack = do
  acquire
  found ← gets (λ s. scan nproc 0 (λ p. same_state (s.procs p).state unused))
  elim found [
    | none ↦ release >> pure none
    | some p ↦ (do
      thidx ← allocth p
      pid ← gets (λ s. s.nextpid)
      modify (λ s. record s { nextpid = pid + 1 })
      set_process p (λ r. record r { state = embryo; pid = pid; limit = 0 })
      release
      set_process p (λ r. record r { kstack = stack })
      if stack == 0
          then (do
            set_process p (λ r. record r { state = unused })
            mark_thread p thidx unused
            pure none)
          else (do
            set_process p (λ r. record r { tf = stack + 4020; context = stack + 3996 })
            pure (some p)))
  ]

-- -1 is `none`.
unfoldable pub fork : ℕ → Bool → Cmd Machine (Option ℕ)
fork stack copied = do
  me ← gets (λ s. s.current)
  deref me (λ cur. do
    child ← allocproc stack
    elim child [
      | none ↦ pure none
      | some p ↦
          if not copied
          then (do
            set_process p (λ r. record r { kstack = 0; state = unused })
            i ← gets (λ s. (s.procs p).thidx)
            set_thread p i (λ th. record th { state = unused })
            pure none)
          else (do
            parent ← gets (λ s. s.procs cur)
            set_process p (λ r. record r {
              sz = parent.sz;
              parent = some cur;
              limit = parent.limit;
              stacksize = parent.stacksize;
              freedustack = λ i.
                  if parent.freedustack i == 0
                  then (parent.thread i).ustack
                  else parent.freedustack i;
            })
            i ← gets (λ s. (s.procs p).thidx)
            set_process p (λ r. record r { freedustack = update r.freedustack i 0 })
            set_thread p i (λ th. record th { ustack = (parent.thread parent.thidx).ustack })
            pid ← gets (λ s. (s.procs p).pid)
            acquire
            set_process p (λ r. record r { state = runnable })
            set_thread p i (λ th. record th { state = runnable })
            copyprocth p i
            release
            pure (some pid))
    ])

-- wakeup1 of a process; nothing sleeps on NULL.
abbrev wake_process : Option ℕ → Cmd Machine Unit
wake_process none = pure tt
wake_process (some p) = wakeup1 (on_process p)

-- Up to the switch to the scheduler.
unfoldable pub exit : Cmd Machine Unit
exit = do
  me ← gets (λ s. s.current)
  init ← gets (λ s. s.initproc)
  if same_ptr me init
      then halt "init exiting"
      else deref me (λ cur. do
        acquire
        parent ← gets (λ s. (s.procs cur).parent)
        wake_process parent
        each nproc 0 (λ p. do
          proc ← gets (λ s. s.procs p)
          if same_ptr proc.parent (some cur)
              then (do
                set_process p (λ r. record r { parent = init })
                if same_state proc.state zombie then wake_process init else pure tt)
              else pure tt)
        set_process cur (λ r. record r { state = zombie })
        sched)

-- The entry of a thread after its process has been reaped.
abbrev cleared_thread : Thread → Thread
cleared_thread th =
    if same_state th.state unused
    then th
    else record th { tid = 0; kstack = 0; state = unused; tf = 0; context = 0; chan = none }

unfoldable pub reap : ℕ → Cmd Machine ℕ
reap p = do
  pid ← gets (λ s. (s.procs p).pid)
  set_process p (λ r. record r {
    kstack = 0;
    pid = 0;
    parent = none;
    killed = false;
    state = unused;
    limit = 0;
    freedustack = λ i. 0;
    thread = λ i. cleared_thread (r.thread i);
  })
  pure pid

-- What one turn of the loop of wait() comes to.
pub data WaitTurn : Type 0 where
  reaped_child : ℕ → WaitTurn
  no_child : WaitTurn
  waits_for_child : WaitTurn

-- One turn, under the lock, for the process `cur`.
unfoldable pub wait_turn : ℕ → Cmd Machine WaitTurn
wait_turn cur = do
  dead ← gets (λ s.
      scan nproc 0
        (λ p. same_ptr (s.procs p).parent (some cur) && same_state (s.procs p).state zombie))
  elim dead [
    | some p ↦ (do pid ← reap p; release; pure (reaped_child pid))
    | none ↦ (do
      child ← gets (λ s. scan nproc 0 (λ p. same_ptr (s.procs p).parent (some cur)))
      killed ← gets (λ s. (s.procs cur).killed)
      if same_ptr child none || killed
          then (release >> pure no_child)
          else (sleep (on_process cur) >> pure waits_for_child))
  ]

-- 0 is `true`, -1 is `false`.
unfoldable pub kill : ℕ → Cmd Machine Bool
kill pid = do
  acquire
  found ← gets (λ s. scan nproc 0 (λ p. (s.procs p).pid == pid))
  elim found [
    | none ↦ release >> pure false
    | some p ↦ (do
      set_process p (λ r. record r { killed = true })
      i ← gets (λ s. (s.procs p).thidx)
      set_thread p i
          (λ th. record th { state = if same_state th.state sleeping then runnable else th.state })
      release
      pure true)
  ]
