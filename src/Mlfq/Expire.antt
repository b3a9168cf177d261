-- ===== src/Mlfq/Expire.antt =====
-- expireTimeQuantum of project1_scheduler/proc.c: one queue down, or one priority better in the last.
use ele3021_os.Prelude.{
  sym, refl, inr, inl, Bool-cases, ==_refl, subst, ap, ltb→lt, ◌-ℤ◌, ltb_ℤ, true, eq_ℤ, false, some,
  ◌==◌, ◌||◌, ◌+◌, arith, ◌<◌, pos, ◌≡◌, ltb, update, ℤ, if◌then◌else◌, List, ℕ,
}
use ele3021_os.Outcome.{◌>>◌, Returns, returns, Returns-mono}
use ele3021_os.Mlfq.State.{nproc, nqueue}
use ele3021_os.Mlfq.Kernel.{Proc, Kernel, queue_of, level_of}
use ele3021_os.Mlfq.Sched.{push_below, erase_proc, expire_time_quantum}
use ele3021_os.Mlfq.Invariant.{IsScheduled, is_free}
use ele3021_os.Mlfq.Requeue.{moved, Requeued, Requeued-IsScheduled, requeue}

-- The lists, the level and the priority after the quantum of `p`, in the queue `q`, has expired.
abbrev pub expired_lists : (ℕ → List ℕ) → ℕ → ℕ → ℕ → List ℕ
expired_lists lists p q = if ltb q 2 then moved lists p q (q + 1) else lists

abbrev pub expired_level : ℕ → ℕ
expired_level q = if ltb q 2 then q + 1 else q

abbrev pub expired_priority : ℕ → ℤ → ℤ
expired_priority q priority =
    if ltb q 2 || eq_ℤ priority (pos 0) then priority else priority -ℤ pos 1

pub record Expired (s : Kernel) (lists : ℕ → List ℕ) (p q : ℕ) (t : Kernel) : Type 0 where
  pub inv : IsScheduled t (expired_lists lists p q)
  pub level : level_of t p ≡ pos (expired_level q)
  pub proc :
      t.procs p
      ≡ record (s.procs p) { tq = pos 0; priority = expired_priority q (s.procs p).priority }
  pub procs : (x : ℕ) → (x == p) ≡ false → t.procs x ≡ s.procs x
  pub levels : (x : ℕ) → (x == p) ≡ false → level_of t x ≡ level_of s x
  pub lockpid : t.lockpid ≡ s.lockpid
  pub current : t.current ≡ s.current
  pub ticks : t.ticks ≡ s.ticks
  pub nextpid : t.nextpid ≡ s.nextpid
  pub initproc : t.initproc ≡ s.initproc

abbrev quiet : Kernel → ℕ → Kernel
quiet s p = record s { procs = update s.procs p (record (s.procs p) { tq = pos 0 }) }

module _ (s : Kernel) (lists : ℕ → List ℕ) (inv : IsScheduled s lists) where
  -- The stored level is the index of the queue.
  pub level_of_member : (p q : ℕ) → q < nqueue → queue_of s p ≡ some q → level_of s p ≡ pos q
  level_of_member p q lt home = let is = inv.queued q lt in is.ranked p (ground (arith, is.owner p))

  quiet-IsScheduled : (p : ℕ) → IsScheduled (quiet s p) lists
  quiet-IsScheduled p = record {
    queued = inv.queued;
    live = λ x lt used. inv.live x lt (ground arith);
    free = λ x lt idle. inv.free x lt (ground arith);
  }

  module _ (p q : ℕ) (small : p < nproc) (in_range : q < nqueue) (used : is_free s p ≡ false)
      (home : queue_of s p ≡ some q) where
    Requeued-Expired :
        ltb q 2 ≡ true
        → (t : Kernel) → Requeued (quiet s p) (moved lists p q (q + 1)) p (q + 1) t
        → Expired s lists p q t
    Requeued-Expired upper t re =
        let at : (x : ℕ) → t.procs x ≡ (quiet s p).procs x =
          λ x. ap (λ (f : ℕ → Proc). f x) re.same.procs in
        let inv' : IsScheduled t (moved lists p q (q + 1)) =
          Requeued-IsScheduled (quiet s p) t lists (moved lists p q (q + 1)) p (q + 1)
            (quiet-IsScheduled p) re (omega (arith, ltb→lt q 2 upper)) (ground arith) in
        record {
          inv = rw upper inv';
          level = rw upper re.level;
          proc = rw upper (ground (arith, at p));
          procs = λ x e. ground (arith, at x);
          levels = re.levels;
          lockpid = re.same.lockpid;
          current = re.same.current;
          ticks = re.same.ticks;
          nextpid = re.same.nextpid;
          initproc = re.same.initproc;
        }

    demote : ltb q 2 ≡ true → Returns (λ _. Expired s lists p q) (expire_time_quantum p s)
    unfolding expire_time_quantum
    demote upper =
        let level = level_of_member p q in_range home in
        let low : ltb_ℤ (level_of s p) (pos 2) ≡ true = ground arith in
        rw low (
          Returns-mono
            (subst
              (λ o.
                Returns (λ _. Requeued (quiet s p) (moved lists p q (q + 1)) p (q + 1))
                  ((erase_proc p >> push_below o p) (quiet s p)))
              (sym home)
              (requeue (quiet s p) lists p q (q + 1) inv.queued small in_range
                (omega (arith, ltb→lt q 2 upper)) home))
            (λ _ t. Requeued-Expired upper t))

    promote : ltb q 2 ≡ false → Returns (λ _. Expired s lists p q) (expire_time_quantum p s)
    unfolding expire_time_quantum
    promote last =
        let level = level_of_member p q in_range home in
        let high : ltb_ℤ (level_of s p) (pos 2) ≡ false = ground arith in
        rw (high, ==_refl p)
          (elim (Bool-cases (eq_ℤ (s.procs p).priority (pos 0))) [
            | inl e ↦ rw e (
                returns (record {
                  inv = rw last (quiet-IsScheduled p);
                  level = rw last level;
                  proc = rw (last, e) (ground arith);
                  procs = λ x k. ground arith;
                  levels = λ x k. refl;
                  lockpid = refl;
                  current = refl;
                  ticks = refl;
                  nextpid = refl;
                  initproc = refl;
                }))
            | inr e ↦ rw e (
                returns (record {
                  inv = rw last (record {
                    queued = inv.queued;
                    live = λ x lt busy. inv.live x lt (ground arith);
                    free = λ x lt idle. inv.free x lt (ground arith);
                  });
                  level = rw last level;
                  proc = rw (last, e) (ground arith);
                  procs = λ x k. ground arith;
                  levels = λ x k. refl;
                  lockpid = refl;
                  current = refl;
                  ticks = refl;
                  nextpid = refl;
                  initproc = refl;
                }))
          ])

    pub expire_time_quantum-Expired : Returns (λ _. Expired s lists p q) (expire_time_quantum p s)
    expire_time_quantum-Expired = elim (Bool-cases (ltb q 2)) [
      | inl e ↦ demote e
      | inr e ↦ promote e
    ]
