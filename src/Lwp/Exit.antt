-- ===== src/Lwp/Exit.antt =====
-- thread_exit of project2_LWP/proc.c, up to the switch.
use ele3021_os.Mlfq.Kernel.{running, sleeping, zombie, same_state, runnable}
use ele3021_os.Prelude.{
  sym, ap, ==_refl, ◌∙◌, inr, subst, ==_iff, inl, refl, zero, Bool-cases, suc, arith, some, update,
  ◌==◌, true, false, ◌<◌, ◌≡◌, ℕ,
}
use ele3021_os.Lwp.State.{
  Thread, Channel, set_process, with_thread, on_thread, set_thread, nthread, Process, Machine,
}
use ele3021_os.Lwp.Thread.{thread_exit, sched, wakeup1, state_of, is_alive, count_alive}
use ele3021_os.Outcome.{Returns-mono, Returns-bind, Returns, Cmd, ◌>>◌}
use ele3021_os.Mlfq.State.{nproc}
use ele3021_os.Lwp.Wakeup.{wakeup1-WokenTo, is_awake, wake}
use ele3021_os.Lwp.Join.{sched_keeps}

count-zero : (n : ℕ) (r : Process) → ((j : ℕ) → j < n → is_alive r j ≡ false) → count_alive n r ≡ 0
unfolding count_alive
count-zero zero r idle = refl
count-zero (suc n) r idle =
    let last = idle n (omega arith) in rw (count-zero n r (λ j lt. idle j (omega arith)), last) refl

count-pos :
    (n : ℕ) (r : Process) (j : ℕ) → j < n → is_alive r j ≡ true → (count_alive n r == 0) ≡ false
unfolding count_alive
count-pos zero r j lt alive = absurd (omega arith)
count-pos (suc n) r j lt alive = elim (Bool-cases (j == n)) [
  | inl e ↦
      let at : j ≡ n = (==_iff j n).0 e in
      let alive' : is_alive r n ≡ true = subst (λ k. is_alive r k ≡ true) at alive in
      rw alive' (ground arith)
  | inr e ↦ let more = count-pos n r j (ground arith) alive in ground (arith, more)
]

-- What the current thread leaves when it has ended with the value `v`.
pub record Exited (s : Machine) (p v : ℕ) (t : Machine) : Type 0 where
  pub value : ((t.procs p).thread (s.procs p).thidx).retval ≡ v
  pub tid : ((t.procs p).thread (s.procs p).thidx).tid ≡ ((s.procs p).thread (s.procs p).thidx).tid
  pub process_value : (t.procs p).retval ≡ v
  pub ready : (t.procs p).state ≡ runnable
  pub locked : t.locked ≡ true
  pub ended :
      (j : ℕ)
      → j < nthread
      → (j == (s.procs p).thidx) ≡ false
      → is_alive (s.procs p) j ≡ true
      → (state_of (t.procs p) (s.procs p).thidx ≡ zombie)
        × ((t.procs p).killed ≡ (s.procs p).killed)
  pub last :
      ((j : ℕ) → j < nthread → (j == (s.procs p).thidx) ≡ false → is_alive (s.procs p) j ≡ false)
      → (state_of (t.procs p) (s.procs p).thidx ≡ runnable) × ((t.procs p).killed ≡ true)
  pub woken :
      (j : ℕ)
      → j < nthread
      → (j == (s.procs p).thidx) ≡ false
      → (t.procs p).thread j ≡ wake (on_thread p (s.procs p).thidx) ((s.procs p).thread j)

module _ (p i v : ℕ) (lt : i < nthread) where
  -- What follows the look at the other threads.
  abbrev finish : Cmd Machine Unit
  finish = do
    set_thread p i (λ th. record th { retval = v })
    set_process p (λ r. record r { retval = v })
    wakeup1 (on_thread p i)
    set_process p (λ r. record r { state = runnable })
    sched

  record Finished (u t : Machine) : Type 0 where
    mine : (t.procs p).thread i ≡ record ((u.procs p).thread i) { retval = v }
    woken :
        (j : ℕ)
        → j < nthread
        → (j == i) ≡ false
        → (t.procs p).thread j ≡ wake (on_thread p i) ((u.procs p).thread j)
    value : (t.procs p).retval ≡ v
    killed : (t.procs p).killed ≡ (u.procs p).killed
    ready : (t.procs p).state ≡ runnable
    locked : t.locked ≡ true

  abbrev valued : Machine → Machine
  valued u = record u {
    procs =
        update u.procs p
          (record (with_thread i (λ th. record th { retval = v }) (u.procs p)) { retval = v });
  }

  finish_lem :
      (u : Machine)
      → u.current ≡ some p
      → u.locked ≡ true
      → p < nproc
      → is_awake (u.procs p) ≡ true
      → same_state (state_of (u.procs p) i) sleeping ≡ false
      → Returns (λ _. Finished u) (finish u)
  finish_lem u me held small awake off =
      let c : Channel = on_thread p i in
      let u1 : Machine = record u {
        procs = update u.procs p (with_thread i (λ th. record th { retval = v }) (u.procs p));
      } in
      let u2 : Machine = record u1 {
        procs = update u1.procs p (record (u1.procs p) { retval = v });
      } in
      Returns-bind (wakeup1 c u2) (λ _. set_process p (λ r. record r { state = runnable }) >> sched)
        (wakeup1-WokenTo c u2)
        (λ _ w h.
          Returns-mono
            (sched_keeps _ p (h.same.current ∙ me) (h.same.locked ∙ held) (rw (==_refl p) refl))
            (λ _ t (threads, state, locked, killed, value, others).
              let at : (j : ℕ)
                  → j < nthread
                  → (t.procs p).thread j ≡ wake c ((u2.procs p).thread j) =
                λ j lt'.
                  ap (λ (f : ℕ → Thread). f j) threads
                  ∙ rw (==_refl p) (h.done p j small lt' ∙ rw (==_refl p, awake) refl) in
              record {
                mine = at i lt ∙ rw (==_refl p, ==_refl i, off) refl;
                woken = λ j lt' away. at j lt' ∙ rw (==_refl p, away) refl;
                value =
                    value
                    ∙ rw (==_refl p)
                        (ap (λ (r : Process). r.retval) (h.same.procs p) ∙ rw (==_refl p) refl);
                killed =
                    killed
                    ∙ rw (==_refl p)
                        (ap (λ (r : Process). r.killed) (h.same.procs p) ∙ rw (==_refl p) refl);
                ready = state ∙ rw (==_refl p) refl;
                locked = locked ∙ h.same.locked ∙ held;
              }))

module _ (s : Machine) (p v : ℕ) (small : p < nproc) (lt : (s.procs p).thidx < nthread)
    (me : s.current ≡ some p) (free : s.locked ≡ false)
    (running_ : same_state (s.procs p).state running ≡ true) where
  -- The current thread has ended, the others are as before.
  abbrev gone : Process
  gone = with_thread (s.procs p).thidx (λ th. record th { state = zombie }) (s.procs p)

  gone-alive : (j : ℕ) → (j == (s.procs p).thidx) ≡ false → is_alive gone j ≡ is_alive (s.procs p) j
  gone-alive j off = ground arith

  gone-dead : (j : ℕ) → (j == (s.procs p).thidx) ≡ true → is_alive gone j ≡ false
  gone-dead j on = ground arith

  abbrev marked : Machine
  marked = record s { procs = update s.procs p gone; locked = true; current = some p }

  -- The process with no other thread is killed, and the thread can run again.
  abbrev killed_ : Machine
  killed_ = record marked {
    procs = update marked.procs p (record (marked.procs p) { killed = true; state = runnable });
  }

  abbrev revived : Machine
  revived = record killed_ {
    procs =
        update killed_.procs p
          (with_thread (s.procs p).thidx (λ th. record th { state = runnable }) (killed_.procs p));
  }

  same_count : count_alive nthread (marked.procs p) ≡ count_alive nthread gone
  same_count = rw (==_refl p) refl

  revived-runnable : state_of (revived.procs p) (s.procs p).thidx ≡ runnable
  revived-runnable = rw (==_refl p, state_of, with_thread, ==_refl (s.procs p).thidx) refl

  marked-zombie : state_of (marked.procs p) (s.procs p).thidx ≡ zombie
  marked-zombie = rw (==_refl p, state_of, with_thread, ==_refl (s.procs p).thidx) refl

  last-Exited :
      (count_alive nthread gone == 0) ≡ true
      → (t : Machine) → Finished p (s.procs p).thidx v lt revived t
      → Exited s p v t
  last-Exited none_ t k = record {
    value = ap (λ (th : Thread). th.retval) k.mine;
    tid = ap (λ (th : Thread). th.tid) k.mine ∙ rw (==_refl p, ==_refl (s.procs p).thidx) refl;
    process_value = k.value;
    ready = k.ready;
    locked = k.locked;
    ended = λ j lt' off alive.
        let some_ = count-pos nthread gone j lt' (gone-alive j off ∙ alive) in cc (none_, some_);
    last = λ idle.
        (ap (λ (th : Thread). th.state) k.mine ∙ revived-runnable, k.killed ∙ rw (==_refl p) refl);
    woken = λ j lt' off. k.woken j lt' off ∙ rw (==_refl p, off) refl;
  }

  ended-Exited :
      (count_alive nthread gone == 0) ≡ false
      → (t : Machine) → Finished p (s.procs p).thidx v lt marked t
      → Exited s p v t
  ended-Exited some_ t k = record {
    value = ap (λ (th : Thread). th.retval) k.mine;
    tid = ap (λ (th : Thread). th.tid) k.mine ∙ rw (==_refl p, ==_refl (s.procs p).thidx) refl;
    process_value = k.value;
    ready = k.ready;
    locked = k.locked;
    ended = λ j lt' off alive.
        (ap (λ (th : Thread). th.state) k.mine ∙ marked-zombie, k.killed ∙ rw (==_refl p) refl);
    last = λ idle.
        let none_ = count-zero nthread gone (λ j lt'. elim (Bool-cases (j == (s.procs p).thidx)) [
          | inl on ↦ gone-dead j on
          | inr off ↦ gone-alive j off ∙ idle j lt' off
        ]) in
        absurd (ground (arith, none_, some_));
    woken = λ j lt' off. k.woken j lt' off ∙ rw (==_refl p, off) refl;
  }

  -- For a current process of the table that is running, whose current thread is an entry of its
  -- table, with the lock free, thread_exit goes to the scheduler with the lock held and the process
  -- runnable; the thread and the process hold the value. If another thread is alive, the thread is a
  -- zombie, and the process is killed only if it was before; if none is, the process is killed and
  -- the thread can run again. Of the other threads exactly those that sleep on this one are made
  -- runnable, and nothing else of them changes.
  pub thread_exit-Exited : Returns (λ _. Exited s p v) (thread_exit v s)
  unfolding thread_exit
  thread_exit-Exited =
      simp (me, free)
        (elim (Bool-cases (count_alive nthread (marked.procs p) == 0)) [
          | inl none_ ↦ rw none_ (
              Returns-mono
                (finish_lem p (s.procs p).thidx v lt revived refl refl small (rw (==_refl p) refl)
                  (ap (λ k. same_state k sleeping) revived-runnable))
                (λ _ t k. last-Exited (ap (λ n. n == 0) (sym same_count) ∙ none_) t k))
          | inr some_ ↦ rw some_ (
              Returns-mono
                (finish_lem p (s.procs p).thidx v lt marked refl refl small
                  (rw (==_refl p) (ground arith)) (ap (λ k. same_state k sleeping) marked-zombie))
                (λ _ t k. ended-Exited (ap (λ n. n == 0) (sym same_count) ∙ some_) t k))
        ])
