-- ===== src/Lwp/Join.antt =====
-- thread_join of project2_LWP/proc.c, on each of its branches.
use ele3021_os.Mlfq.Scan.{scan_sound, scan-none}
use ele3021_os.Mlfq.Kernel.{scan, running, runnable, sleeping, unused, zombie, same_state}
use ele3021_os.Prelude.{
  Option-cases, ◌<◌, none, sym, if◌then◌else◌, subst, Option, ◌∙◌, update, refl, ==_refl, inr,
  arith, inl, false, Bool-cases, true, not, some, ◌&&◌, ◌≡◌, ◌==◌, Bool, ℕ,
}
use ele3021_os.Outcome.{
  deref, halt, gets, Cmd, Returns-mono, pure, Returns-bind, Returns, returns, ◌>>=◌, ◌>>◌,
}
use ele3021_os.Lwp.State.{nthread, set_process, set_thread, Channel, Machine, on_thread}
use ele3021_os.Lwp.Thread.{
  thread_join, copythproc, JoinTurn, state_of, sched, sleep, freeustack, join_turn, joined, fails,
  waits,
}

-- The thread with this number, in use.
abbrev pub has_tid : Machine → ℕ → ℕ → ℕ → Bool
has_tid s p tid i =
    ((s.procs p).thread i).tid == tid && not (same_state (state_of (s.procs p) i) unused)

-- The processes but `p` are as before.
abbrev pub SameProcesses : Machine → ℕ → Machine → Type 0
SameProcesses s p t = (q : ℕ) → (q == p) ≡ false → t.procs q ≡ s.procs q

-- The current thread of `p` sleeps on `c`, and the others are as before.
abbrev pub SleepsOn : Machine → ℕ → Channel → Machine → Type 0
SleepsOn s p c t =
    ((t.procs p).thread
      ≡ update (s.procs p).thread (s.procs p).thidx
          (record ((s.procs p).thread (s.procs p).thidx) { chan = some c; state = sleeping }))
    × ((t.procs p).state ≡ runnable)
    × (t.locked ≡ true)
    × SameProcesses s p t

-- What a turn for the thread `i` of the process `p` comes to.
pub data Turned (s : Machine) (p i : ℕ) (r : JoinTurn) (t : Machine) : Type 0 where
  -- It has ended: its value is handed over, its entry and its user stack are free.
  reaped :
      same_state (state_of (s.procs p) i) zombie ≡ true
      → r ≡ joined ((s.procs p).thread i).retval
      → (state_of (t.procs p) i ≡ unused)
        × (((t.procs p).thread i).tid ≡ 0)
        × ((t.procs p).freedustack i ≡ ((s.procs p).thread i).ustack)
        × (((t.procs p).thread i).ustack ≡ 0)
        × (t.locked ≡ false)
      → ((j : ℕ) → (j == i) ≡ false → (t.procs p).thread j ≡ (s.procs p).thread j)
      → SameProcesses s p t
      → Turned s p i r t
  -- The process has been killed.
  given_up :
      same_state (state_of (s.procs p) i) zombie ≡ false
      → (s.procs p).killed ≡ true
      → r ≡ fails
      → (t.procs ≡ s.procs) × (t.locked ≡ false)
      → Turned s p i r t
  -- The current thread sleeps until thread_exit wakes it.
  asleep :
      same_state (state_of (s.procs p) i) zombie ≡ false
      → (s.procs p).killed ≡ false
      → r ≡ waits
      → SleepsOn s p (on_thread p i) t
      → Turned s p i r t

abbrev switch : ℕ → Cmd Machine Unit
switch p = do
  proc ← gets (λ s. s.procs p)
  if same_state proc.state running then halt "sched running" else copythproc p proc.thidx

-- The switch to the scheduler keeps the threads of the process.
pub sched_keeps :
    (t : Machine) (p : ℕ)
    → t.current ≡ some p
    → t.locked ≡ true
    → same_state (t.procs p).state running ≡ false
    → Returns
        (λ _ u.
          ((u.procs p).thread ≡ (t.procs p).thread)
          × ((u.procs p).state ≡ (t.procs p).state)
          × (u.locked ≡ t.locked)
          × ((u.procs p).killed ≡ (t.procs p).killed)
          × ((u.procs p).retval ≡ (t.procs p).retval)
          × SameProcesses t p u)
        (sched t)
unfolding sched copythproc
sched_keeps t p me locked ready =
    let Q : Unit → Machine → Type 0 = λ _ u.
      ((u.procs p).thread ≡ (t.procs p).thread)
      × ((u.procs p).state ≡ (t.procs p).state)
      × (u.locked ≡ t.locked)
      × ((u.procs p).killed ≡ (t.procs p).killed)
      × ((u.procs p).retval ≡ (t.procs p).retval)
      × SameProcesses t p u in
    subst (λ b. Returns Q ((if not b then halt "sched ptable.lock" else deref t.current switch) t))
      (sym locked)
      (subst (λ o. Returns Q (deref o switch t)) (sym me)
        (subst
          (λ b. Returns Q ((if b then halt "sched running" else copythproc p (t.procs p).thidx) t))
          (sym ready)
          (returns (
            simp (==_refl p) refl,
            simp (==_refl p) refl,
            refl,
            simp (==_refl p) refl,
            simp (==_refl p) refl,
            λ q off. rw off refl,
          ))))

abbrev fall_asleep : Channel → Option ℕ → Cmd Machine Unit
fall_asleep c none = halt "sleep"
fall_asleep c (some p) = do
  proc ← gets (λ s. s.procs p)
  set_thread p proc.thidx (λ th. record th { chan = some c; state = sleeping })
  set_process p (λ r. record r { state = runnable })
  sched

sleep-SleepsOn :
    (s : Machine) (p : ℕ) (c : Channel)
    → s.current ≡ some p
    → s.locked ≡ true
    → Returns (λ _. SleepsOn s p c) (sleep c s)
unfolding sleep
sleep-SleepsOn s p c me locked =
    subst (λ o. Returns (λ _. SleepsOn s p c) (fall_asleep c o s)) (sym me)
      (Returns-mono (sched_keeps _ p me locked (simp (==_refl p) refl))
        (λ _ u (threads, state, held, killed, value, others). (
          threads ∙ simp (==_refl p) refl,
          state ∙ simp (==_refl p) refl,
          held ∙ locked,
          λ q off. others q off ∙ rw off refl,
        )))

-- What a call comes to: no thread has the number, or one has.
pub data Joined (s : Machine) (p tid : ℕ) (r : JoinTurn) (t : Machine) : Type 0 where
  unknown :
      ((i : ℕ) → i < nthread → has_tid s p tid i ≡ false)
      → r ≡ fails
      → (t.procs ≡ s.procs) × (t.locked ≡ false)
      → Joined s p tid r t
  found : (i : ℕ) → i < nthread → has_tid s p tid i ≡ true → Turned s p i r t → Joined s p tid r t

join_turn-Turned :
    (s : Machine) (p i : ℕ)
    → s.current ≡ some p
    → s.locked ≡ true
    → Returns (Turned s p i) (join_turn p i s)
unfolding join_turn freeustack
join_turn-Turned s p i me locked = elim (Bool-cases (same_state (state_of (s.procs p) i) zombie)) [
  | inl e ↦
      simp (e, locked)
        (returns (
          reaped e refl (ground arith, ground arith, ground arith, ground arith, refl)
            (λ j k. ground arith) (λ q off. rw off refl)))
  | inr e ↦ elim (Bool-cases (s.procs p).killed) [
    | inl dead ↦ simp (e, dead, locked) (returns (given_up e dead refl (refl, refl)))
    | inr live ↦
        simp (e, live)
          (Returns-bind (sleep (on_thread p i) s) (λ _. pure waits)
            (sleep-SleepsOn s p (on_thread p i) me locked)
            (λ _ t h. returns (asleep e live refl h)))
  ]
]

-- For a current process and with the lock free, thread_join returns or sleeps. Without a thread in
-- use of this number it returns -1. A thread of the number that has ended hands its value over: its
-- entry and its user stack are free for the next thread. Else it returns -1 if the process has been
-- killed; in these cases the lock is free. Else the current thread sleeps on the other one, with the
-- lock held. The other threads of the process and the other processes are as before.
pub thread_join-Joined :
    (s : Machine) (p tid : ℕ)
    → s.current ≡ some p
    → s.locked ≡ false
    → Returns (Joined s p tid) (thread_join tid s)
unfolding thread_join
thread_join-Joined s p tid me free =
    simp (me, free)
      (elim (Option-cases (scan nthread 0 (has_tid s p tid))) [
        | inl e ↦ rw e (
            returns (
              unknown
                (λ i lt. scan-none nthread 0 (has_tid s p tid) e i (omega arith) (omega arith)) refl
                (refl, refl)))
        | inr (i, e) ↦
            let (on, lt) = scan_sound nthread 0 (has_tid s p tid) i e in
            rw e (
              Returns-mono
                (join_turn-Turned (record s { locked = true; current = some p }) p i refl refl)
                (λ r t h. found i lt on (Turned-unlocked r t i h)))
      ])
  where
    -- The lock is no part of what a turn keeps.
    Turned-unlocked :
        (r : JoinTurn) (t : Machine) (i : ℕ)
        → Turned (record s { locked = true; current = some p }) p i r t
        → Turned s p i r t
    Turned-unlocked r t i (reaped a b c d e) = reaped a b c d e
    Turned-unlocked r t i (given_up a b c d) = given_up a b c d
    Turned-unlocked r t i (asleep a b c d) = asleep a b c d
