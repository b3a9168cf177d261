-- ===== src/Mlfq/Pick.antt =====
-- The inner loop of scheduler() in project1_scheduler/proc.c ends, with a process whose quantum is
-- not used up.
use ele3021_os.Prelude.{
  count-le, count_cleared, count, none, ap, ◌∙◌, inr, ==_iff, refl, inl, zero, ◌==◌, false,
  Bool-cases, some, true, arith, ◌+◌, suc, ◌≡◌, eq_ℤ, ◌<◌, List, Bool, Option, ℕ,
}
use ele3021_os.Outcome.{ok, Cmd, Returns, returns, Returns-bind, Returns-mono}
use ele3021_os.Mlfq.State.{nproc, nqueue}
use ele3021_os.Mlfq.Kernel.{Kernel, level_of}
use ele3021_os.Mlfq.Sched.{
  run_or_expire, get_time_quantum, expire_time_quantum, get_process_to_run, pick,
}
use ele3021_os.Mlfq.Boost.Step.{SameButRank}
use ele3021_os.Mlfq.Expire.{Expired, expired_lists, expire_time_quantum-Expired}
use ele3021_os.Mlfq.Choose.{choose-eq-chosen}
use ele3021_os.Mlfq.Choose.Spec.{chosen, Chosen, InRange, chosen-Chosen}
use ele3021_os.Mlfq.Invariant.{IsScheduled}

abbrev pub is_spent : Kernel → ℕ → Bool
is_spent s p = eq_ℤ (s.procs p).tq (get_time_quantum (level_of s p))

abbrev pub spent : Kernel → ℕ
spent s = count nproc (is_spent s)

-- What the loop ends with: the best process of a table in which only priorities, quanta and queues
-- have changed, and its quantum is not used up.
pub record Picked (s : Kernel) (r : Option ℕ) (t : Kernel) : Type 0 where
  pub lists : ℕ → List ℕ
  pub inv : IsScheduled t lists
  pub ranks : InRange t
  pub best : Chosen t r
  pub fresh : (p : ℕ) → r ≡ some p → is_spent t p ≡ false
  pub same : (x : ℕ) → SameButRank (s.procs x) (t.procs x)
  pub lockpid : t.lockpid ≡ s.lockpid
  pub current : t.current ≡ s.current
  pub ticks : t.ticks ≡ s.ticks
  pub nextpid : t.nextpid ≡ s.nextpid
  pub initproc : t.initproc ≡ s.initproc

module _ (s : Kernel) (lists : ℕ → List ℕ) (inv : IsScheduled s lists) (ranks : InRange s) where
  pub get_process_to_run_unlocked :
      (s.lockpid == 0) ≡ true → get_process_to_run s ≡ ok (chosen s lists) s
  unfolding get_process_to_run
  get_process_to_run_unlocked unlocked = rw unlocked (choose-eq-chosen s lists inv)

module _ (s t : Kernel) (lists : ℕ → List ℕ) (p q : ℕ) (small : p < nproc) (in_range : q < nqueue)
    (ex : Expired s lists p q t) where
  expired_spent : is_spent s p ≡ true → spent t + 1 ≡ spent s
  unfolding get_time_quantum
  expired_spent on =
      count_cleared nproc p (is_spent s) (is_spent t) small on (ground (arith, ex.proc, ex.level))
        (λ x _ e. ground (arith, ex.procs x e, ex.levels x e))

  expired_same : (x : ℕ) → SameButRank (s.procs x) (t.procs x)
  expired_same x = elim (Bool-cases (x == p)) [
    | inl e ↦ let here : x ≡ p = (==_iff x p).0 e in rw here (ground (arith, ex.proc))
    | inr e ↦ ground (arith, ex.procs x e)
  ]

  expired_ranks : InRange s → InRange t
  expired_ranks ranks x lt ready = elim (Bool-cases (x == p)) [
    | inl e ↦ let here : x ≡ p = (==_iff x p).0 e in ground (arith, ranks x lt, ex.proc)
    | inr e ↦ ground (arith, ranks x lt, ex.procs x e)
  ]

turn_over :
    (s : Kernel) (lists : ℕ → List ℕ) (p : ℕ)
    → IsScheduled s lists
    → Chosen s (some p)
    → Returns (λ _ t. (q : ℕ) × (q < nqueue) × Expired s lists p q t) (expire_time_quantum p s)
turn_over s lists p inv best =
    let (small, ready, place) = best in
    let (q, lt, home, first, least) = place in
    Returns-mono (expire_time_quantum-Expired s lists inv p q small lt (ground arith) home)
      (λ _ t ex. (q, lt, ex))

Picked-after :
    (s t : Kernel)
    → ((x : ℕ) → SameButRank (s.procs x) (t.procs x))
    → t.lockpid ≡ s.lockpid
    → t.current ≡ s.current
    → (t.ticks ≡ s.ticks) × (t.nextpid ≡ s.nextpid) × (t.initproc ≡ s.initproc)
    → (r : Option ℕ) (u : Kernel) → Picked t r u
    → Picked s r u
Picked-after s t same lock cur (ticks, pid, init) r u pk = record {
  lists = pk.lists;
  inv = pk.inv;
  ranks = pk.ranks;
  best = pk.best;
  fresh = pk.fresh;
  same = λ x. ground (arith, same x, pk.same x);
  lockpid = pk.lockpid ∙ lock;
  current = pk.current ∙ cur;
  ticks = pk.ticks ∙ ticks;
  nextpid = pk.nextpid ∙ pid;
  initproc = pk.initproc ∙ init;
}

-- One turn, given that the turns after it end well.
turn :
    (again : Cmd Kernel (Option ℕ)) (s : Kernel) (lists : ℕ → List ℕ) (o : Option ℕ)
    → IsScheduled s lists
    → InRange s
    → Chosen s o
    → ((t : Kernel) (lists' : ℕ → List ℕ)
        → IsScheduled t lists'
        → InRange t
        → (t.lockpid == 0) ≡ (s.lockpid == 0)
        → spent t + 1 ≡ spent s
        → Returns (Picked t) (again t))
    → Returns (Picked s) (run_or_expire again o s)
turn again s lists none inv ranks best later = returns (record {
  lists = lists;
  inv = inv;
  ranks = ranks;
  best = best;
  fresh = λ p. cc;
  same = λ x. refl;
  lockpid = refl;
  current = refl;
  ticks = refl;
  nextpid = refl;
  initproc = refl;
})
turn again s lists (some p) inv ranks best later = elim (Bool-cases (is_spent s p)) [
  | inr e ↦ rw e (
      returns (record {
        lists = lists;
        inv = inv;
        ranks = ranks;
        best = best;
        fresh = λ r k. ground (arith, e);
        same = λ x. refl;
        lockpid = refl;
        current = refl;
        ticks = refl;
        nextpid = refl;
        initproc = refl;
      }))
  | inl e ↦ rw e (
      Returns-bind (expire_time_quantum p s) (λ _. again) (turn_over s lists p inv best)
        (λ _ t (q, lt, ex).
          Returns-mono
            (later t (expired_lists lists p q) ex.inv
              (expired_ranks s t lists p q best.0 lt ex ranks) (ap (λ l. l == 0) ex.lockpid)
              (expired_spent s t lists p q best.0 lt ex e))
            (Picked-after s t (expired_same s t lists p q best.0 lt ex) ex.lockpid ex.current
              (ex.ticks, ex.nextpid, ex.initproc))))
]

pick_by :
    (fuel : ℕ) (s : Kernel) (lists : ℕ → List ℕ)
    → IsScheduled s lists
    → InRange s
    → (s.lockpid == 0) ≡ true
    → spent s < fuel
    → Returns (Picked s) (pick fuel s)
unfolding pick
pick_by zero s lists inv ranks free enough = absurd (omega arith)
pick_by (suc fuel) s lists inv ranks free enough =
    rw (get_process_to_run_unlocked s lists inv ranks free) (
      turn (pick fuel) s lists (chosen s lists) inv ranks (chosen-Chosen s lists inv ranks)
        (λ t lists' inv' ranks' lock less.
          pick_by fuel t lists' inv' ranks' (lock ∙ free) (omega arith)))

-- From a scheduled table whose ready processes have a priority of at most 3, while the scheduler is
-- unlocked, the inner loop of scheduler() ends within NPROC + 1 turns. It ends with the best
-- process, if any is ready, whose quantum is not used up; on the way only queues, priorities and
-- quanta have changed.
pub pick-Picked :
    (s : Kernel) (lists : ℕ → List ℕ)
    → IsScheduled s lists
    → InRange s
    → s.lockpid ≡ 0
    → Returns (Picked s) (pick (nproc + 1) s)
pick-Picked s lists inv ranks free =
    let few = count-le nproc (is_spent s) in
    pick_by (nproc + 1) s lists inv ranks ((==_iff s.lockpid 0).1 free) (omega arith)
