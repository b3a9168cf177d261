-- ===== src/Mlfq/Lock.antt =====
-- schedulerLock, schedulerUnlock and setLevel of project1_scheduler/proc.c.
use ele3021_os.Mlfq.Queue.Chain.{IsQueues}
use ele3021_os.Prelude.{
  ◌≡◌, none, refl, inr, ◌||◌, not, ==_iff, inl, ◌&&◌, if◌then◌else◌, eq_ℤ, Bool-cases, ℤ, ap, ◌∙◌,
  arith, true, some, ◌==◌, false, pos, ◌∷◌, ◌<◌, update, List, ℕ,
}
use ele3021_os.Outcome.{
  Returns-eq, modify, ◌>>◌, ok, fault, Returns, returns, Returns-bind, Returns-mono,
}
use ele3021_os.Mlfq.State.{nproc, nqueue}
use ele3021_os.Mlfq.Queue.{pushqueue, pushfrontqueue}
use ele3021_os.Mlfq.Queue.Front.{pushfrontqueue-cons}
use ele3021_os.Mlfq.Kernel.{set_proc, Proc, Kernel, queue_of, on_queues}
use ele3021_os.Mlfq.Sched.{
  password, get_proc, erase_proc, scheduler_lock, scheduler_unlock, set_level,
}
use ele3021_os.Mlfq.Invariant.{SameProcs-trans, IsScheduled, is_free, SameProcs, on_queues-Returns}
use ele3021_os.Mlfq.Requeue.{Out, removed, erase_proc-Out}

abbrev pub to_front : (ℕ → List ℕ) → ℕ → ℕ → ℕ → List ℕ
to_front lists p q = update (removed lists p q) 0 (p ∷ removed lists p q 0)

-- After the owner `p` of the lock, which stood in `q`, has unlocked the scheduler.
pub record Unlocked (s : Kernel) (lists : ℕ → List ℕ) (p q : ℕ) (t : Kernel) : Type 0 where
  pub inv : IsScheduled t (to_front lists p q)
  pub proc : t.procs p ≡ record (s.procs p) { priority = pos 3; tq = pos 0 }
  pub procs : (x : ℕ) → (x == p) ≡ false → t.procs x ≡ s.procs x
  pub lockpid : t.lockpid ≡ 0
  pub ticks : t.ticks ≡ s.ticks

module _ (s : Kernel) (lists : ℕ → List ℕ) (inv : IsScheduled s lists) (p q : ℕ) (small : p < nproc)
    (in_range : q < nqueue) (used : is_free s p ≡ false) (home : queue_of s p ≡ some q) where
  abbrev Fronted : Kernel → Type 0
  Fronted t =
      IsQueues t.qs (to_front lists p q)
      × (queue_of t p ≡ some 0)
      × ((x : ℕ) → (x == p) ≡ false → queue_of t x ≡ queue_of s x)
      × SameProcs s t

  push_front :
      (t : Kernel)
      → Out s lists p q 0 inv.queued small in_range (omega arith) home t
      → Returns (λ _. Fronted) (on_queues (pushfrontqueue (some 0) (some p)) t)
  push_front t (out, same) =
      Returns-mono
        (on_queues-Returns t (pushfrontqueue (some 0) (some p) t.qs) (
          pushfrontqueue-cons t.qs (removed lists p q) 0 p out.holds (omega arith) small out.moved))
        (λ _ u (front, same'). (
          front.holds,
          front.moved,
          (λ x e. front.local.queues x e ∙ out.local.queues x e),
          SameProcs-trans same same',
        ))

  finish :
      (u : Kernel)
      → Fronted u
      → Unlocked s lists p q (record u {
        procs = update u.procs p (record (u.procs p) { priority = pos 3; tq = pos 0 });
        lockpid = 0;
      })
  finish u (held, at, others, same) =
      let procs : (x : ℕ) → u.procs x ≡ s.procs x = λ x. ap (λ (f : ℕ → Proc). f x) same.procs in
      record {
        inv = record {
          queued = held;
          live = λ x lt busy. elim (Bool-cases (x == p)) [
            | inl e ↦ let here : x ≡ p = (==_iff x p).0 e in (0, omega arith, rw here at)
            | inr e ↦
                let (r, r_lt, r_home) = inv.live x lt (ground (arith, procs x)) in
                (r, r_lt, others x e ∙ r_home)
          ];
          free = λ x lt idle. elim (Bool-cases (x == p)) [
            | inl e ↦ let here : x ≡ p = (==_iff x p).0 e in absurd (ground (arith, procs p))
            | inr e ↦ others x e ∙ inv.free x lt (ground (arith, procs x))
          ];
        };
        proc = ground (arith, procs p);
        procs = λ x e. ground (arith, procs x);
        lockpid = refl;
        ticks = same.ticks;
      }

  -- The process that holds the lock unlocks it with the password: it becomes the first process of the
  -- first queue, with priority 3 and an unused quantum, and no other process changes.
  pub scheduler_unlock-Unlocked :
      s.current ≡ some p
      → s.lockpid ≡ (s.procs p).pid
      → (s.lockpid == 0) ≡ false
      → Returns (λ _. Unlocked s lists p q) (scheduler_unlock password s)
  unfolding scheduler_unlock
  scheduler_unlock-Unlocked me owns locked =
      let owner : ((s.procs p).pid == s.lockpid) ≡ true = ground arith in
      let run =
        Returns-bind (erase_proc p s)
          (λ _. do
            on_queues (pushfrontqueue (some 0) (some p))
            set_proc p (λ r. record r { priority = pos 3; tq = pos 0 })
            modify (λ k. record k { lockpid = 0 }))
          (erase_proc-Out s lists p q 0 inv.queued small in_range (omega arith) home)
          (λ _ t out.
            Returns-bind {Q = λ _. Unlocked s lists p q}
              (on_queues (pushfrontqueue (some 0) (some p)) t) _ (push_front t out)
              (λ _ u held. returns (finish u held))) in
      simp (locked, me, owner) run

-- What schedulerUnlock does not do: with a wrong password it kills the caller, and where there is no
-- lock or the caller is not its owner it changes nothing.
pub scheduler_unlock_refused :
    (s : Kernel) (p : ℕ) (given : ℤ)
    → s.current ≡ some p
    → (eq_ℤ given password && not (s.lockpid == 0) && ((s.procs p).pid == s.lockpid)) ≡ false
    → scheduler_unlock given s
      ≡ ok tt (
          if eq_ℤ given password
          then s
          else record s { procs = update s.procs p (record (s.procs p) { killed = true }) })
unfolding scheduler_unlock
scheduler_unlock_refused s p given me h = ground arith

-- schedulerLock with the right password takes a free lock, and the ticks start again; it kills a
-- caller that gives a wrong one, or that finds the lock taken by another process.
pub scheduler_lock_lem :
    (s : Kernel) (p : ℕ) (given : ℤ)
    → s.current ≡ some p
    → scheduler_lock given s
      ≡ ok tt (
          if eq_ℤ given password && (s.lockpid == (s.procs p).pid || s.lockpid == 0)
          then record s { lockpid = (s.procs p).pid; ticks = 0 }
          else record s { procs = update s.procs p (record (s.procs p) { killed = true }) })
unfolding scheduler_lock
scheduler_lock_lem s p given me = ground arith

push_outside :
    (t : Kernel) (p : ℕ) → queue_of t p ≡ none → on_queues (pushqueue (some 3) (some p)) t ≡ fault
unfolding pushqueue
push_outside t p loose = simp loose

-- setLevel lets level 3 pass, for which there is no queue: the kernel leaves the array.
pub set_level_three :
    (s : Kernel) (lists : ℕ → List ℕ) (pid : ℤ) (p q : ℕ)
    → IsScheduled s lists
    → p < nproc
    → q < nqueue
    → queue_of s p ≡ some q
    → get_proc pid s ≡ ok (some p) s
    → set_level pid (pos 3) s ≡ fault
unfolding set_level
set_level_three s lists pid p q inv small in_range home found = rw found (
    Returns-eq (erase_proc p s) (λ _. on_queues (pushqueue (some 3) (some p))) fault
      (erase_proc-Out s lists p q 0 inv.queued small in_range (omega arith) home)
      (λ _ t (out, same). push_outside t p out.moved))
