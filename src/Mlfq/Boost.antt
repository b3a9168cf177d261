-- ===== src/Mlfq/Boost.antt =====
-- boostPriority of project1_scheduler/proc.c: every process ends in the first queue, in table order.
use ele3021_os.Mlfq.Boost.Step.{SameButRank, step, lives, Boosting}
pub mod Step
use ele3021_os.Outcome.{
  each-Returns, each, ok, gets, ◌>>=◌, Returns-mono, returns, pure, Returns, Cmd,
}
use ele3021_os.Mlfq.Sched.{password, scheduler_unlock, boost_priority, clear_proc}
use mathlib.Core.List.{append_assoc, append-nil}
use ele3021_os.Mlfq.Requeue.{requeue, Requeued-IsScheduled, moved, Requeued, removed}
use native.Mathlib.Numerals.{add-one}
use ele3021_os.Prelude.{
  Distinct-append, mem-erase, subst, Distinct, inr, ==_iff, inl, Bool-cases, update, sym, some,
  none, ◌||◌, same_ptr, pos, refl, mem-append, ◌==◌, ◌∙◌, erase, arith, ◌≤◌, ◌∷◌, ap, false,
  if◌then◌else◌, true, ◌++◌, [], ◌<◌, ◌+◌, mem, ◌≡◌, List, ℕ, zero, suc,
}
use ele3021_os.Mlfq.State.{nproc, nqueue}
use ele3021_os.Mlfq.Kernel.{Proc, Kernel, unused, same_state, queue_of}
use ele3021_os.Mlfq.Invariant.{IsScheduled, is_free}

abbrev body : ℕ → Cmd Kernel Unit
body p = do
  proc ← gets (λ s. s.procs p)
  if same_state proc.state unused then pure tt else clear_proc (some p)

pass : (s0 s : Kernel) → Boosting s0 0 s → Returns (λ _. Boosting s0 nproc) (each nproc 0 body s)
pass s0 s b =
    each-Returns (Boosting s0) nproc body (λ i t lt k. step s0 i t lt k) nproc 0 s (omega arith) b

-- After a pass another one can begin.
again : (s0 s : Kernel) (i : ℕ) → Boosting s0 i s → Boosting s0 0 s
unfolding lives
again s0 s i b = record {
  lists = b.lists;
  rest = b.lists 0;
  inv = b.inv;
  first = sym (append-nil (b.lists 0));
  rest_above = λ a m. omega arith;
  others_above = λ q a lt e m. omega arith;
  same = b.same;
  reset = λ p lt used. absurd (omega arith);
  lockpid = b.lockpid;
  ticks = b.ticks;
  current = b.current;
}

abbrev Passes : Kernel → ℕ → Kernel → Type 0
Passes s0 k s = Boosting s0 0 s × (0 < k → Boosting s0 nproc s)

passes :
    (s0 s : Kernel)
    → Boosting s0 0 s
    → Returns (λ _. Boosting s0 nproc) (each nproc 0 (λ _. each nproc 0 body) s)
passes s0 s b =
    Returns-mono
      (each-Returns (Passes s0) nproc (λ _. each nproc 0 body)
        (λ i t lt k. Returns-mono (pass s0 t k.0) (λ _ u c. (again s0 u nproc c, λ _. c))) nproc 0 s
        (omega arith) (b, λ lt. absurd (omega arith)))
      (λ _ t k. k.1 (omega arith))

-- The table after a boost: the first queue holds the entries in use, in table order, the others are
-- empty; priority 3, no ticks used, the scheduler unlocked and the tick count zero.
pub record Boosted (s t : Kernel) : Type 0 where
  pub lists : ℕ → List ℕ
  pub inv : IsScheduled t lists
  pub first : lists 0 ≡ lives s nproc
  pub second : lists 1 ≡ []
  pub third : lists 2 ≡ []
  pub same : (p : ℕ) → SameButRank (s.procs p) (t.procs p)
  pub reset :
      (p : ℕ)
      → p < nproc
      → is_free s p ≡ false
      → ((t.procs p).priority ≡ pos 3) × ((t.procs p).tq ≡ pos 0)
  pub lockpid : t.lockpid ≡ 0
  pub ticks : t.ticks ≡ 0

eq-nil_of_bounds :
    (n : ℕ) (xs : List ℕ)
    → ((a : ℕ) → mem a xs ≡ true → n ≤ a)
    → ((a : ℕ) → mem a xs ≡ true → a < n)
    → xs ≡ []
eq-nil_of_bounds n [] low high = refl
eq-nil_of_bounds n (x ∷ xs) low high = absurd (ground (arith, low x, high x))

finish : (s0 s : Kernel) → s0.lockpid ≡ 0 → s0.ticks ≡ 0 → Boosting s0 nproc s → Boosted s0 s
finish s0 s unlocked reset b =
    let none_left : b.rest ≡ [] = eq-nil_of_bounds nproc b.rest b.rest_above (λ a m.
      (b.inv.queued 0 (omega arith)).bounded a
        (ap (mem a) b.first ∙ ground (arith, mem-append a b.rest (lives s0 nproc)))) in
    record {
      lists = b.lists;
      inv = b.inv;
      first = b.first ∙ ap (λ l. l ++ lives s0 nproc) none_left;
      second =
          eq-nil_of_bounds nproc (b.lists 1) (λ a. b.others_above 1 a (omega arith) refl)
            (b.inv.queued 1 (omega arith)).bounded;
      third =
          eq-nil_of_bounds nproc (b.lists 2) (λ a. b.others_above 2 a (omega arith) refl)
            (b.inv.queued 2 (omega arith)).bounded;
      same = b.same;
      reset = b.reset;
      lockpid = b.lockpid ∙ unlocked;
      ticks = b.ticks ∙ reset;
    }

start : (s : Kernel) (lists : ℕ → List ℕ) → IsScheduled s lists → Boosting s 0 s
unfolding lives
start s lists inv = record {
  lists = lists;
  rest = lists 0;
  inv = inv;
  first = sym (append-nil (lists 0));
  rest_above = λ a m. omega arith;
  others_above = λ q a lt e m. omega arith;
  same = λ p. refl;
  reset = λ p lt used. absurd (omega arith);
  lockpid = refl;
  ticks = refl;
  current = refl;
}

lives-congr : (s t : Kernel) (n : ℕ) → t.procs ≡ s.procs → lives t n ≡ lives s n
unfolding lives
lives-congr s t zero e = refl
lives-congr s t (suc n) e = ground (arith, lives-congr s t n e, ap (λ (f : ℕ → Proc). f n) e)

-- The loops of boostPriority, from a state `u` that differs from `s` in the lock and the ticks.
loops :
    (s u : Kernel) (lists : ℕ → List ℕ)
    → IsScheduled u lists
    → u.procs ≡ s.procs
    → u.lockpid ≡ 0
    → u.ticks ≡ 0
    → Returns (λ _. Boosted s) (each nproc 0 (λ _. each nproc 0 body) u)
loops s u lists inv e unlocked reset = Returns-mono (passes u u (start u lists inv)) (λ _ t b.
    let c = finish u t unlocked reset b in
    let at : (p : ℕ) → u.procs p ≡ s.procs p = λ p. ap (λ (f : ℕ → Proc). f p) e in
    record {
      lists = c.lists;
      inv = c.inv;
      first = c.first ∙ lives-congr s u nproc e;
      second = c.second;
      third = c.third;
      same = λ p. ground (arith, at p, c.same p);
      reset = λ p lt used. c.reset p lt (ground (arith, at p));
      lockpid = c.lockpid;
      ticks = c.ticks;
    })

-- The scheduler itself may always unlock.
pub scheduler_unlock_idle :
    (s : Kernel)
    → (s.lockpid == 0) ≡ false
    → s.current ≡ none
    → scheduler_unlock password s ≡ ok tt (record s { lockpid = 0 })
unfolding scheduler_unlock
scheduler_unlock_idle s locked idle = simp (locked, idle)

-- In the scheduler's context, from a scheduled table, boostPriority returns, and the first queue
-- then holds every process in table order, each with priority 3 and an unused quantum.
pub boost_priority-Boosted :
    (s : Kernel) (lists : ℕ → List ℕ)
    → IsScheduled s lists
    → s.current ≡ none
    → Returns (λ _. Boosted s) (boost_priority s)
unfolding boost_priority
boost_priority-Boosted s lists inv idle =
    let inv' : (pid : ℕ) → IsScheduled (record s { ticks = 0; lockpid = pid }) lists =
      λ pid. record { queued = inv.queued; live = inv.live; free = inv.free } in
    elim (Bool-cases (s.lockpid == 0)) [
      | inl e ↦
          rw e (loops s (record s { ticks = 0 }) lists (inv' s.lockpid) refl (ground arith) refl)
      | inr e ↦ rw e (
          rw (scheduler_unlock_idle (record s { ticks = 0 }) e idle)
            (loops s (record s { ticks = 0; lockpid = 0 }) lists (inv' 0) refl refl refl))
    ]
