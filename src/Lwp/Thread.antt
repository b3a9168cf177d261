-- ===== src/Lwp/Thread.antt =====
-- The functions of project2_LWP/proc.c on the threads of a process.
use ele3021_os.Mlfq.State.{nproc}
use ele3021_os.Mlfq.Kernel.{
  sleeping, embryo, zombie, running, unused, runnable, same_state, scan, ProcState,
}
use ele3021_os.Prelude.{
  pos_part, ltb, pos, ltb_ℤ, true, ◌||◌, false, ◌&&◌, update, same_ptr, ◌%◌, ℤ, not, ◌==◌, ◌+◌, ℕ,
  zero, suc, Option, none, some, Bool, if◌then◌else◌,
}
use ele3021_os.Outcome.{Cmd, gets, modify, pure, halt, deref, each, out_of_fuel, ok, ◌>>=◌, ◌>>◌}
use ele3021_os.Lwp.State.{
  on_thread, sleeps_on, release, set_thread, with_thread, acquire, Channel, set_process, nthread,
  Machine, Process,
}

-- NEXTTH
abbrev pub nextth : ℕ → ℕ
nextth i = (i + 1) % nthread

abbrev pub state_of : Process → ℕ → ProcState
state_of p i = (p.thread i).state

-- The loop of thidxtorun from `i` on.
unfoldable pub next_runnable : ℕ → Process → ℕ → Cmd Machine ℕ
next_runnable zero p i s = out_of_fuel
next_runnable (suc fuel) p i s =
    let rest = next_runnable fuel p (nextth i) s in
    if i == p.thidx
    then ok p.thidx s
    else if same_state (state_of p i) runnable
    then ok i s
    else rest

-- The walk is given NTHREAD rounds.
unfoldable pub thidxtorun : ℕ → Cmd Machine ℕ
thidxtorun p = do proc ← gets (λ s. s.procs p); next_runnable nthread proc (nextth proc.thidx)

unfoldable pub copythproc : ℕ → ℕ → Cmd Machine Unit
copythproc p i = set_process p (λ r. record r {
  kstack = (r.thread i).kstack;
  tf = (r.thread i).tf;
  context = (r.thread i).context;
  chan = (r.thread i).chan;
  thidx = i;
})

unfoldable pub existrunnable : ℕ → Cmd Machine Bool
existrunnable p =
    gets (λ s.
      not (same_ptr (scan nthread 0 (λ i. same_state (state_of (s.procs p) i) runnable)) none))

unfoldable pub copyprocth : ℕ → ℕ → Cmd Machine Unit
copyprocth p i = set_process p (λ r.
    with_thread i
      (λ th. record th { kstack = r.kstack; tf = r.tf; context = r.context; chan = r.chan }) r)

-- -1 is `none`.
unfoldable pub allocth : ℕ → Cmd Machine (Option ℕ)
allocth p = do
  found ← gets (λ s. scan nthread 0 (λ i. same_state (state_of (s.procs p) i) unused))
  elim found [
    | none ↦ pure none
    | some i ↦ (do
      tid ← gets (λ s. s.nexttid)
      modify (λ s. record s { nexttid = tid + 1 })
      set_thread p i (λ th. record th { tid = tid; state = embryo })
      pure (some i))
  ]

abbrev pub is_alive : Process → ℕ → Bool
is_alive p i = not (same_state (state_of p i) unused) && not (same_state (state_of p i) zombie)

-- How many of the first `n` threads of a process are alive.
unfoldable pub count_alive : ℕ → Process → ℕ
count_alive zero p = 0
count_alive (suc n) p = count_alive n p + (if is_alive p n then 1 else 0)

abbrev pub countth : ℕ → Cmd Machine ℕ
countth p = gets (λ s. count_alive nthread (s.procs p))

unfoldable pub freeustack : ℕ → ℕ → Cmd Machine Unit
freeustack p i = do
  set_process p (λ r. record r { freedustack = update r.freedustack i (r.thread i).ustack })
  set_thread p i (λ th. record th { ustack = 0 })

unfoldable pub wakeup1 : Channel → Cmd Machine Unit
wakeup1 chan = each nproc 0 (λ p. do
  proc ← gets (λ s. s.procs p)
  if not (same_state proc.state runnable) && not (same_state proc.state running)
      then pure tt
      else each nthread 0 (λ i. do
        th ← gets (λ s. (s.procs p).thread i)
        if same_state th.state sleeping && sleeps_on th.chan chan
            then set_thread p i (λ t. record t { state = runnable })
            else pure tt))

-- Up to the switch to the scheduler.
unfoldable pub sched : Cmd Machine Unit
sched = do
  me ← gets (λ s. s.current)
  locked ← gets (λ s. s.locked)
  if not locked
      then halt "sched ptable.lock"
      else deref me (λ p. do
        proc ← gets (λ s. s.procs p)
        if same_state proc.state running then halt "sched running" else copythproc p proc.thidx)

-- sleep(chan, &ptable.lock), up to the switch.
unfoldable pub sleep : Channel → Cmd Machine Unit
sleep chan = do
  me ← gets (λ s. s.current)
  elim me [
    | none ↦ halt "sleep"
    | some p ↦ (do
      proc ← gets (λ s. s.procs p)
      set_thread p proc.thidx (λ th. record th { chan = some chan; state = sleeping })
      set_process p (λ r. record r { state = runnable })
      sched)
  ]

-- The turn of the loop of scheduler() for the process `p`, up to the switch; `none` is a process that
-- is passed over.
unfoldable pub schedule_process : ℕ → Cmd Machine (Option ℕ)
schedule_process p = do
  proc ← gets (λ s. s.procs p)
  some_ ← existrunnable p
  if not (same_state proc.state runnable) || not some_ then pure none else do
    i ← thidxtorun p
    copythproc p i
    modify (λ s. record s { current = some p })
    set_process p (λ r. record r { state = running })
    set_thread p i (λ th. record th { state = running })
    pure (some i)

-- After the switch back to scheduler().
unfoldable pub switch_back : ℕ → ℕ → Cmd Machine Unit
switch_back p i = do copyprocth p i; modify (λ s. record s { current = none })

-- Up to the switch.
unfoldable pub yield : Cmd Machine Unit
yield = do
  acquire
  me ← gets (λ s. s.current)
  deref me (λ p. do
    set_process p (λ r. record r { state = runnable })
    i ← gets (λ s. (s.procs p).thidx)
    set_thread p i (λ th. record th { state = runnable })
    sched)

unfoldable pub thread_exit : ℕ → Cmd Machine Unit
thread_exit retval = do
  me ← gets (λ s. s.current)
  deref me (λ p. do
    acquire
    i ← gets (λ s. (s.procs p).thidx)
    set_thread p i (λ th. record th { state = zombie })
    left ← countth p
    if left == 0
        then (do
          set_process p (λ r. record r { killed = true; state = runnable })
          set_thread p i (λ th. record th { state = runnable }))
        else pure tt
    set_thread p i (λ th. record th { retval = retval })
    set_process p (λ r. record r { retval = retval })
    wakeup1 (on_thread p i)
    set_process p (λ r. record r { state = runnable })
    sched)

-- What one turn of thread_join comes to: the value of the thread that has ended, -1, or sleep.
pub data JoinTurn : Type 0 where
  joined : ℕ → JoinTurn
  fails : JoinTurn
  waits : JoinTurn

-- The turn of the loop of thread_join, under the lock, for the thread `i`; after a sleep the loop
-- comes back here.
unfoldable pub join_turn : ℕ → ℕ → Cmd Machine JoinTurn
join_turn p i = do
  th ← gets (λ s. (s.procs p).thread i)
  if same_state th.state zombie
      then (do
        set_thread p i (λ t. record t {
          tid = 0;
          kstack = 0;
          state = unused;
          tf = 0;
          context = 0;
          chan = none;
        })
        freeustack p i
        set_thread p i (λ t. record t { retval = 0 })
        release
        pure (joined th.retval))
      else (do
        killed ← gets (λ s. (s.procs p).killed)
        if killed then (release >> pure fails) else (sleep (on_thread p i) >> pure waits))

unfoldable pub thread_join : ℕ → Cmd Machine JoinTurn
thread_join tid = do
  me ← gets (λ s. s.current)
  deref me (λ p. do
    acquire
    found ← gets (λ s. scan nthread 0 (λ i.
        ((s.procs p).thread i).tid == tid && not (same_state (state_of (s.procs p) i) unused)))
    elim found [ none ↦ release >> pure fails | some i ↦ join_turn p i ])

unfoldable pub find_process : ℕ → Cmd Machine (Option ℕ)
find_process pid = do
  acquire
  found ←
      gets (λ s.
        scan nproc 0 (λ p. (s.procs p).pid == pid && not (same_state (s.procs p).state unused)))
  release
  pure found

-- The result is whether the limit has been set: 0 or -1. `limit` is an int; `p->sz > limit` compares
-- it as unsigned once it is not negative.
unfoldable pub setmemorylimit : ℕ → ℤ → Cmd Machine Bool
setmemorylimit pid limit = do
  found ← find_process pid
  elim found [
    | none ↦ pure false
    | some p ↦ if ltb_ℤ limit (pos 0) then pure false else do
      sz ← gets (λ s. (s.procs p).sz)
      if ltb (pos_part limit) sz
          then pure false
          else do set_process p (λ r. record r { limit = pos_part limit }); pure true
  ]
