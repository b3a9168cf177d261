-- ===== src/Mlfq/Sched.antt =====
-- project1_scheduler/proc.c: the functions of the scheduler. The table lock is held throughout, and
-- where the code releases it to call schedulerUnlock nothing else runs (one CPU, no interrupt).
use ele3021_os.Prelude.{
  zero, suc, pos_part, ◌-ℤ◌, ◌||◌, false, ◌&&◌, ◌*ℤ◌, ltb_ℤ, negsuc, ◌+ℤ◌, ◌+◌, ◌==◌, not, Bool,
  true, some, eq_ℤ, pos, none, leb, if◌then◌else◌, Option, ℕ, ℤ,
}
use ele3021_os.Outcome.{each, Cmd, out_of_fuel, ok, pure, gets, modify, deref, ◌>>=◌, ◌>>◌}
use ele3021_os.Mlfq.State.{nproc}
use ele3021_os.Mlfq.Queue.{erasequeue, pushqueue, pushfrontqueue, frontqueue}
use ele3021_os.Mlfq.Kernel.{
  unused, runnable, running, same_state, Kernel, on_queues, set_proc, queue_of, level_of, scan,
}

abbrev pub password : ℤ
password = pos 2020002960

unfoldable pub get_time_quantum : ℤ → ℤ
get_time_quantum i = pos 2 *ℤ i +ℤ pos 4

unfoldable pub get_proc : ℤ → Cmd Kernel (Option ℕ)
get_proc pid = gets (λ s.
    scan nproc 0 (λ i. eq_ℤ (pos (s.procs i).pid) pid && not (same_state (s.procs i).state unused)))

-- erasequeue(p->queue, p)
abbrev pub erase_proc : ℕ → Cmd Kernel Unit
erase_proc p s = on_queues (erasequeue (queue_of s p) (some p)) s

unfoldable pub clear_proc : Option ℕ → Cmd Kernel Unit
clear_proc none = pure tt
clear_proc (some p) = do
  proc ← gets (λ s. s.procs p)
  if same_state proc.state unused then pure tt else do
    set_proc p (λ r. record r { priority = pos 3; tq = pos 0 })
    erase_proc p
    on_queues (pushqueue (some 0) (some p))

abbrev kill_proc : Option ℕ → Cmd Kernel Unit
kill_proc p = deref p (λ i. set_proc i (λ r. record r { killed = true }))

-- The last part of schedulerUnlock; in the scheduler's own context there is no current process.
abbrev release_lock : Option ℕ → Cmd Kernel Unit
release_lock none = modify (λ s. record s { lockpid = 0 })
release_lock (some p) = do
  erase_proc p
  on_queues (pushfrontqueue (some 0) (some p))
  set_proc p (λ r. record r { priority = pos 3; tq = pos 0 })
  modify (λ s. record s { lockpid = 0 })

-- `p && p->pid != ptable.lockpid`
abbrev is_stranger : Kernel → Option ℕ → Bool
is_stranger s none = false
is_stranger s (some p) = not ((s.procs p).pid == s.lockpid)

unfoldable pub scheduler_unlock : ℤ → Cmd Kernel Unit
scheduler_unlock given = do
  me ← gets (λ s. s.current)
  if not (eq_ℤ given password) then kill_proc me else do
    lockpid ← gets (λ s. s.lockpid)
    if lockpid == 0 then pure tt else do
      stranger ← gets (λ s. is_stranger s me)
      if stranger then pure tt else release_lock me

unfoldable pub scheduler_lock : ℤ → Cmd Kernel Unit
scheduler_lock given = do
  me ← gets (λ s. s.current)
  if not (eq_ℤ given password)
      then kill_proc me
      else deref me (λ p. do
        pid ← gets (λ s. (s.procs p).pid)
        lockpid ← gets (λ s. s.lockpid)
        if lockpid == pid || lockpid == 0
            then modify (λ s. record s { lockpid = pid; ticks = 0 })
            else set_proc p (λ r. record r { killed = true }))

-- Every entry of the table is cleared, NPROC times over.
unfoldable pub boost_priority : Cmd Kernel Unit
boost_priority = do
  modify (λ s. record s { ticks = 0 })
  lockpid ← gets (λ s. s.lockpid)
  if lockpid == 0 then pure tt else scheduler_unlock password
  each nproc 0 (λ _. each nproc 0 (λ p. do
    proc ← gets (λ s. s.procs p)
    if same_state proc.state unused then pure tt else clear_proc (some p)))

-- for (p = cur; p; p = p->next) if (p->state == RUNNABLE) return p;
unfoldable pub first_runnable : ℕ → Option ℕ → Cmd Kernel (Option ℕ)
first_runnable zero cur s = out_of_fuel
first_runnable (suc fuel) none s = ok none s
first_runnable (suc fuel) (some p) s =
    let rest = first_runnable fuel (s.qs.links p).next s in
    if same_state (s.procs p).state runnable then ok (some p) s else rest

-- The loop over the last queue: the first of the runnable processes of least priority value.
unfoldable pub least : ℕ → Option ℕ → Option ℕ → ℤ → Cmd Kernel (Option ℕ)
least zero cur best bound s = out_of_fuel
least (suc fuel) none best bound s = ok best s
least (suc fuel) (some p) best bound s =
    let better = same_state (s.procs p).state runnable && ltb_ℤ (s.procs p).priority bound in
    least fuel (s.qs.links p).next (if better then some p else best)
      (if better then (s.procs p).priority else bound) s

-- The queues in order; each walk is given NPROC + 1 rounds.
unfoldable pub choose : Cmd Kernel (Option ℕ)
choose = do
  front0 ← on_queues (frontqueue 0)
  p0 ← first_runnable (nproc + 1) front0
  elim p0 [
    | some p ↦ pure (some p)
    | none ↦ do
      front1 ← on_queues (frontqueue 1)
      p1 ← first_runnable (nproc + 1) front1
      elim p1 [
        | some p ↦ pure (some p)
        | none ↦ do front2 ← on_queues (frontqueue 2); least (nproc + 1) front2 none (pos 4)
      ]
  ]

unfoldable pub get_process_to_run : Cmd Kernel (Option ℕ)
get_process_to_run = do
  lockpid ← gets (λ s. s.lockpid)
  if lockpid == 0 then choose else do
    owner ← get_proc (pos lockpid)
    deref owner (λ p. do
      proc ← gets (λ s. s.procs p)
      if same_state proc.state runnable
          then pure (some p)
          else (scheduler_unlock password >> choose))

-- `pushqueue(tmpq + 1, p)`; behind a NULL pointer there is no queue.
abbrev pub push_below : Option ℕ → ℕ → Cmd Kernel Unit
push_below queue p = deref queue (λ q. on_queues (pushqueue (some (q + 1)) (some p)))

unfoldable pub expire_time_quantum : ℕ → Cmd Kernel Unit
expire_time_quantum p = do
  set_proc p (λ r. record r { tq = pos 0 })
  level ← gets (λ s. level_of s p)
  if ltb_ℤ level (pos 2)
      then (do queue ← gets (λ s. queue_of s p); erase_proc p; push_below queue p)
      else (do
        proc ← gets (λ s. s.procs p)
        if eq_ℤ proc.priority (pos 0)
            then pure tt
            else set_proc p (λ r. record r { priority = r.priority -ℤ pos 1 }))

-- The inner loop of scheduler(): choose, and expire time quanta, until a process may run.
abbrev pub run_or_expire : Cmd Kernel (Option ℕ) → Option ℕ → Cmd Kernel (Option ℕ)
run_or_expire again none = pure none
run_or_expire again (some p) = do
  proc ← gets (λ s. s.procs p)
  level ← gets (λ s. level_of s p)
  if eq_ℤ proc.tq (get_time_quantum level) then (expire_time_quantum p >> again) else pure (some p)

unfoldable pub pick : ℕ → Cmd Kernel (Option ℕ)
pick zero = λ s. out_of_fuel
pick (suc fuel) = get_process_to_run >>= run_or_expire (pick fuel)

-- From the choice to the context switch: one tick is charged, in L0 and L1 the process goes to the
-- back of its queue, and it is the running process of the CPU.
unfoldable pub dispatch : ℕ → Cmd Kernel Unit
dispatch p = do
  set_proc p (λ r. record r { tq = r.tq +ℤ pos 1 })
  level ← gets (λ s. level_of s p)
  queue ← gets (λ s. queue_of s p)
  if ltb_ℤ level (pos 2) then (do erase_proc p; on_queues (pushqueue queue (some p))) else pure tt
  modify (λ s. record s { current = some p })
  set_proc p (λ r. record r { state = running })

-- `if (xticks >= 100) boostPriority()`
unfoldable pub boost_if_due : Cmd Kernel Unit
boost_if_due = do due ← gets (λ s. leb 100 s.ticks); if due then boost_priority else pure tt

-- One round of scheduler() up to the context switch; `none` is a round without a runnable process.
unfoldable pub schedule : Cmd Kernel (Option ℕ)
schedule = pick (nproc + 1) >>= λ chosen. elim chosen [
  | none ↦ boost_if_due >> pure none
  | some p ↦ dispatch p >> pure (some p)
]

-- The rest of the round, when the process has switched back.
unfoldable pub after_switch : Cmd Kernel Unit
after_switch = do modify (λ s. record s { current = none }); boost_if_due

unfoldable pub get_level : Cmd Kernel ℤ
get_level s = elim s.current [
  | none ↦ ok (negsuc 0) s
  | some p ↦
      let level = level_of s p in
      if ltb_ℤ level (pos 0) || not (ltb_ℤ level (pos 3)) then ok (negsuc 0) s else ok level s
]

unfoldable pub set_priority : ℤ → ℤ → Cmd Kernel Unit
set_priority pid priority = if ltb_ℤ priority (pos 0) || ltb_ℤ (pos 3) priority then pure tt else do
  found ← get_proc pid
  elim found [ none ↦ pure tt | some p ↦ set_proc p (λ r. record r { priority = priority }) ]

-- Level 3 passes the test.
unfoldable pub set_level : ℤ → ℤ → Cmd Kernel Unit
set_level pid level = if ltb_ℤ level (pos 0) || ltb_ℤ (pos 3) level then pure tt else do
  found ← get_proc pid
  elim found [
    | none ↦ pure tt
    | some p ↦ (do erase_proc p; on_queues (pushqueue (some (pos_part level)) (some p)))
  ]
