-- ===== src/Lwp/Yield.antt =====
-- Threads of project2_LWP that give up the CPU with yield() of proc.c, in turns of scheduler().
use ele3021_os.Lwp.State.{Thread, with_thread, release, nthread, Machine}
use ele3021_os.Prelude.{
  ltb, ◌%◌, ◌-◌, ◌+◌, mem, subst, update, ◌∙◌, sym, ap, ==_iff, false, inr, inl, Bool-cases, refl,
  arith, ==_refl, zero, ◌==◌, if◌then◌else◌, ◌∷◌, suc, some, none, true, [], ◌≡◌, Bool, ◌<◌, List,
  Option, ℕ,
}
use ele3021_os.Lwp.RoundRobin.{ahead, IsNext}
use ele3021_os.Lwp.Dispatch.{Started, schedule_process-Started}
use ele3021_os.Mlfq.Kernel.{ProcState, runnable, same_state}
use ele3021_os.Lwp.Thread.{
  state_of, yield, switch_back, schedule_process, copyprocth, copythproc, sched,
}
use ele3021_os.Outcome.{Returns-mono, pure, ◌>>=◌, ◌>>◌, Cmd, Returns-bind, Returns, returns}

-- A turn of scheduler() for `p` whose thread comes back from sched() with the lock, gives the lock up
-- and yields.
abbrev pub turn : ℕ → Cmd Machine (Option ℕ)
turn p = do
  started ← schedule_process p
  elim started [ none ↦ pure none | some i ↦ (do release; yield; switch_back p i; pure (some i)) ]

-- The threads that `n` turns for `p` start.
abbrev pub turns : ℕ → ℕ → Cmd Machine (List ℕ)
turns zero p = pure []
turns (suc n) p = do
  started ← turn p
  rest ← turns n p
  elim started [ none ↦ pure rest | some i ↦ pure (i ∷ rest) ]

-- The process takes part in the turns.
pub record IsReady (s : Machine) (p : ℕ) : Type 0 where
  pub small : (s.procs p).thidx < nthread
  pub state : (s.procs p).state ≡ runnable
  pub locked : s.locked ≡ true

abbrev pub is_runnable : Machine → ℕ → ℕ → Bool
is_runnable s p i = same_state (state_of (s.procs p) i) runnable

-- What a turn that starts the thread `i` leaves.
record Took (s : Machine) (p i : ℕ) (t : Machine) : Type 0 where
  ready : IsReady t p
  next : IsNext (s.procs p) i
  small : i < nthread
  thidx : (t.procs p).thidx ≡ i
  states : (k : ℕ) → is_runnable t p k ≡ is_runnable s p k

-- What comes after the switch to the thread `i`.
abbrev back : ℕ → ℕ → Cmd Machine (Option ℕ)
back p i = do release; yield; switch_back p i; pure (some i)

-- The lock is held, and the threads are in the states given.
record Resumes (p i : ℕ) (f : ℕ → ProcState) (u : Machine) : Type 0 where
  locked : u.locked ≡ true
  thidx : (u.procs p).thidx ≡ i
  state : (u.procs p).state ≡ runnable
  states : (k : ℕ) → state_of (u.procs p) k ≡ f k

yield_lem :
    (p i : ℕ) (t : Machine)
    → t.locked ≡ false
    → t.current ≡ some p
    → (t.procs p).thidx ≡ i
    → Returns
        (λ _. Resumes p i (λ k. if k == i then runnable else state_of (t.procs p) k))
        (yield t)
unfolding yield copythproc sched
yield_lem p i t locked current idx =
    simp (locked, current, idx, ==_refl p)
      (returns (record {
        locked = refl;
        thidx = rw (==_refl p) refl;
        state = rw (==_refl p) refl;
        states = λ k. elim (Bool-cases (k == i)) [
          | inl e ↦ rw (==_refl p, state_of, with_thread, update, e) refl
          | inr e ↦ rw (==_refl p, state_of, with_thread, update, e) refl
        ];
      }))

switch_back_lem :
    (p i : ℕ) (states : ℕ → ProcState) (u : Machine)
    → Resumes p i states u
    → Returns (λ _. Resumes p i states) (switch_back p i u)
unfolding switch_back copyprocth
switch_back_lem p i states u h = returns (record {
  locked = h.locked;
  thidx = rw (==_refl p) h.thidx;
  state = rw (==_refl p) h.state;
  states = λ k. elim (Bool-cases (k == i)) [
    | inl e ↦
        let at : k ≡ i = (==_iff k i).0 e in
        rw (==_refl p, state_of, with_thread, update, e)
          (ap (λ j. state_of (u.procs p) j) (sym at) ∙ h.states k)
    | inr e ↦ rw (==_refl p, state_of, with_thread, update, e) (h.states k)
  ];
})

back_lem :
    (p i : ℕ) (t : Machine)
    → t.locked ≡ true
    → t.current ≡ some p
    → (t.procs p).thidx ≡ i
    → Returns
        (λ r u.
          (r ≡ some i) × Resumes p i (λ k. if k == i then runnable else state_of (t.procs p) k) u)
        (back p i t)
back_lem p i t locked current idx = rw locked (
    Returns-bind (yield (record t { locked = false })) (λ _. switch_back p i >> pure (some i))
      (yield_lem p i (record t { locked = false }) refl current idx)
      (λ _ u h.
        Returns-bind (switch_back p i u) (λ _. pure (some i)) (switch_back_lem p i _ u h)
          (λ _ v k. returns (refl, k))))

module _ (s : Machine) (p : ℕ) (ready : IsReady s p) where
  -- A turn in which some thread is runnable starts the next one.
  turn-Took :
      (r : ℕ)
      → r < nthread
      → is_runnable s p r ≡ true
      → Returns (λ o t. (i : ℕ) × (o ≡ some i) × Took s p i t) (turn p s)
  turn-Took r lt on =
      Returns-bind (schedule_process p s) _ (schedule_process-Started s p ready.small)
        (λ o t h. after o t h)
    where
      kept :
          (i x : ℕ) (c d : ProcState)
          → d ≡ (if x == i then runnable else c)
          → is_runnable s p i ≡ true
          → ((x == i) ≡ false → same_state c runnable ≡ is_runnable s p x)
          → same_state d runnable ≡ is_runnable s p x
      kept i x c d e on same = elim (Bool-cases (x == i)) [
        | inl here ↦
            let at : x ≡ i = (==_iff x i).0 here in
            ap (λ c. same_state c runnable) e ∙ (rw here (sym (ap (is_runnable s p) at ∙ on)))
        | inr away ↦ ap (λ c. same_state c runnable) e ∙ (rw away (same away))
      ]

      rest : Option ℕ → Cmd Machine (Option ℕ)
      rest none = pure none
      rest (some i) = back p i

      after :
          (o : Option ℕ) (t : Machine)
          → Started s p o t
          → Returns (λ o' u. (i : ℕ) × (o' ≡ some i) × Took s p i u) (rest o t)
      after none t h =
          let off = (h.passed refl).1 (rw ready.state refl) r lt in absurd (cc (on, off))
      after (some i) t h =
          let k = h.thread i refl in
          let (i_lt, i_on, i_running, idx, state, current, context, others, next, able) = k in
          Returns-mono (back_lem p i t (h.locked ∙ ready.locked) current idx) (λ o' u (e, g). (
            i,
            e,
            record {
              ready = record {
                small = subst (λ x. x < nthread) (sym g.thidx) i_lt;
                state = g.state;
                locked = g.locked;
              };
              next = next;
              small = i_lt;
              thidx = g.thidx;
              states = λ x.
                  kept i x (state_of (t.procs p) x) _ (g.states x) i_on
                    (λ off. ap (λ (th : Thread). same_state th.state runnable) (others x off));
            },
          ))

module _ (p j : ℕ) (lt : j < nthread) where
  -- The walk to the next runnable thread does not pass `j`.
  reached :
      (s : Machine)
      → is_runnable s p j ≡ true
      → (i : ℕ) (next : IsNext (s.procs p) i) (d : ℕ) → j ≡ ahead (s.procs p).thidx (d + 1)
      → (i == j) ≡ false
      → next.steps < d
  reached s on i next d at other = elim (Bool-cases (ltb next.steps d)) [
    | inl e ↦ ground arith
    | inr e ↦ elim (Bool-cases (ltb d next.steps)) [
      | inl past ↦ let off = next.passed d (ground arith) in absurd (cc (on, off, at))
      | inr stop ↦
          let same : next.steps ≡ d = ground arith in
          let here : i ≡ j = next.turn ∙ rw same (sym at) in absurd (ground arith)
    ]
  ]

  fair :
      (n : ℕ) (s : Machine)
      → IsReady s p
      → is_runnable s p j ≡ true
      → Returns
          (λ l t. (d : ℕ) → j ≡ ahead (s.procs p).thidx (d + 1) → d < n → mem j l ≡ true)
          (turns n p s)
  fair zero s ready on = returns (λ d e less. absurd (omega arith))
  fair (suc n) s ready on =
      Returns-bind (turn p s) _ (turn-Took s p ready j lt on) (λ o t (i, e, h).
        Returns-bind (turns n p t) _ (fair n t h.ready (h.states j ∙ on)) (λ l u k. rw e (
          returns (λ d at less. elim (Bool-cases (i == j)) [
            | inl same ↦ ground arith
            | inr other ↦
                let before : h.next.steps < d = reached s on i h.next d at other in
                let place : j ≡ ahead (t.procs p).thidx (d - h.next.steps - 1 + 1) =
                  omega (arith, at, before, h.next.turn, h.thidx) in
                let rest = k (d - h.next.steps - 1) place (omega (arith, before)) in
                ground (arith, rest)
          ]))))

  -- When a process is runnable and the scheduler holds the lock, a thread of it that is runnable is
  -- started within NTHREAD turns of the process, whatever its other threads are, if each thread that
  -- is started yields.
  pub turns_start :
      (s : Machine)
      → IsReady s p
      → is_runnable s p j ≡ true
      → Returns (λ l _. mem j l ≡ true) (turns nthread p s)
  turns_start s ready on = Returns-mono (fair nthread s ready on) (λ l _ h.
      h ((j + 63 - (s.procs p).thidx) % 64) (let small = ready.small in omega arith) (omega arith))
