-- ===== src/Lwp/Wakeup.antt =====
-- wakeup1 of project2_LWP/proc.c, over every thread of every process.
use ele3021_os.Mlfq.State.{nproc}
use ele3021_os.Lwp.Thread.{wakeup1}
use ele3021_os.Mlfq.Kernel.{running, sleeping, runnable, same_state}
use ele3021_os.Prelude.{
  not, refl, sym, subst, ◌∙◌, true, inr, update, ap, ==_refl, ==_iff, inl, ◌≤◌, ◌&&◌, ◌||◌,
  Bool-cases, ◌<◌, arith, false, ◌+◌, ◌==◌, ◌≡◌, if◌then◌else◌, Bool, ℕ,
}
use ele3021_os.Outcome.{each-Returns, each, Returns-mono, Cmd, Returns, returns, gets, pure, ◌>>=◌}
use ele3021_os.Lwp.State.{nthread, Machine, Process, Thread, Channel, sleeps_on, set_thread}

abbrev pub is_awake : Process → Bool
is_awake p = same_state p.state runnable || same_state p.state running

-- A thread after a wakeup on `c`.
abbrev pub wake : Channel → Thread → Thread
wake c th =
    if same_state th.state sleeping && sleeps_on th.chan c
    then record th { state = runnable }
    else th

-- `t` is `s` but for the states of threads.
pub record SameButThreads (s t : Machine) : Type 0 where
  pub procs : (q : ℕ) → t.procs q ≡ record (s.procs q) { thread = (t.procs q).thread }
  pub locked : t.locked ≡ s.locked
  pub current : t.current ≡ s.current
  pub nextpid : t.nextpid ≡ s.nextpid
  pub nexttid : t.nexttid ≡ s.nexttid
  pub initproc : t.initproc ≡ s.initproc

module _ (c : Channel) where
  -- The first `k` threads of `p` have been looked at.
  record Inner (s : Machine) (p k : ℕ) (t : Machine) : Type 0 where
    pub same : SameButThreads s t
    pub others : (q : ℕ) → (q == p) ≡ false → t.procs q ≡ s.procs q
    pub done : (i : ℕ) → i < k → (t.procs p).thread i ≡ wake c ((s.procs p).thread i)
    pub left : (i : ℕ) → k ≤ i → (t.procs p).thread i ≡ (s.procs p).thread i

  abbrev inner_body : ℕ → ℕ → Cmd Machine Unit
  inner_body p i = do
    th ← gets (λ s. (s.procs p).thread i)
    if same_state th.state sleeping && sleeps_on th.chan c
        then set_thread p i (λ t. record t { state = runnable })
        else pure tt

  abbrev awakened : ℕ → ℕ → Machine → Machine
  awakened p i t = record t {
    procs = update t.procs p (record (t.procs p) {
      thread = update (t.procs p).thread i (record ((t.procs p).thread i) { state = runnable });
    });
  }

  thread_wakes :
      (s : Machine) (p i : ℕ) (t : Machine)
      → Inner s p i t
      → (same_state ((t.procs p).thread i).state sleeping
          && sleeps_on ((t.procs p).thread i).chan c)
        ≡ true
      → Inner s p (i + 1) (awakened p i t)
  thread_wakes s p i t k e =
      let here : (t.procs p).thread i ≡ (s.procs p).thread i = k.left i (omega arith) in
      let woken : record ((t.procs p).thread i) { state = runnable }
          ≡ wake c ((s.procs p).thread i) =
        subst (λ th. record ((t.procs p).thread i) { state = runnable } ≡ wake c th) here
          (rw e refl) in
      record {
        same = record {
          procs = λ q. elim (Bool-cases (q == p)) [
            | inl at ↦
                let at' : q ≡ p = (==_iff q p).0 at in
                rw at' (
                  simp (==_refl p) (
                    ap
                      (λ (r : Process). record r {
                        thread =
                            update (t.procs p).thread i
                              (record ((t.procs p).thread i) { state = runnable });
                      })
                      (k.same.procs p)))
            | inr off ↦ rw off (k.same.procs q)
          ];
          locked = k.same.locked;
          current = k.same.current;
          nextpid = k.same.nextpid;
          nexttid = k.same.nexttid;
          initproc = k.same.initproc;
        };
        others = λ q off. rw off (k.others q off);
        done = λ j lt. elim (Bool-cases (j == i)) [
          | inl at ↦
              let at' : j ≡ i = (==_iff j i).0 at in rw at' (simp (==_refl p, ==_refl i) woken)
          | inr off ↦ simp (==_refl p, off) (k.done j (ground arith))
        ];
        left = λ j le.
            let off : (j == i) ≡ false = ground arith in
            simp (==_refl p, off) (k.left j (omega arith));
      }

  thread_step :
      (s : Machine) (p i : ℕ) (t : Machine)
      → Inner s p i t
      → Returns (λ _. Inner s p (i + 1)) (inner_body p i t)
  thread_step s p i t k =
      let here : (t.procs p).thread i ≡ (s.procs p).thread i = k.left i (omega arith) in
      elim (Bool-cases (
        same_state ((t.procs p).thread i).state sleeping
        && sleeps_on ((t.procs p).thread i).chan c)) [
          | inl e ↦ rw e (returns (thread_wakes s p i t k e))
          | inr e ↦ rw e (
              returns (record {
                same = k.same;
                others = k.others;
                done = λ j lt. elim (Bool-cases (j == i)) [
                  | inl at ↦
                      let at' : j ≡ i = (==_iff j i).0 at in
                      rw at' (
                        here
                        ∙ subst (λ th. (s.procs p).thread i ≡ wake c th) here (rw e (sym here)))
                  | inr off ↦ k.done j (ground arith)
                ];
                left = λ j le. k.left j (omega arith);
              }))
        ]

  inner : (s : Machine) (p : ℕ) → Returns (λ _. Inner s p nthread) (each nthread 0 (inner_body p) s)
  inner s p =
      each-Returns (Inner s p) nthread (inner_body p) (λ i t _ k. thread_step s p i t k) nthread 0 s
        refl
        (record {
          same = record {
            procs = λ q. refl;
            locked = refl;
            current = refl;
            nextpid = refl;
            nexttid = refl;
            initproc = refl;
          };
          others = λ q off. refl;
          done = λ i lt. absurd (omega arith);
          left = λ i le. refl;
        })

  -- The first `k` processes have been looked at.
  pub record WokenTo (s : Machine) (k : ℕ) (t : Machine) : Type 0 where
    pub same : SameButThreads s t
    pub done :
        (p i : ℕ)
        → p < k
        → i < nthread
        → (t.procs p).thread i
          ≡ (if is_awake (s.procs p) then wake c ((s.procs p).thread i) else (s.procs p).thread i)
    pub left : (p : ℕ) → k ≤ p → t.procs p ≡ s.procs p

  SameButThreads-trans :
      (s t u : Machine) → SameButThreads s t → SameButThreads t u → SameButThreads s u
  SameButThreads-trans s t u a b = record {
    procs =
        λ q. b.procs q ∙ ap (λ (r : Process). record r { thread = (u.procs q).thread }) (a.procs q);
    locked = b.locked ∙ a.locked;
    current = b.current ∙ a.current;
    nextpid = b.nextpid ∙ a.nextpid;
    nexttid = b.nexttid ∙ a.nexttid;
    initproc = b.initproc ∙ a.initproc;
  }

  abbrev outer_body : ℕ → Cmd Machine Unit
  outer_body p = do
    proc ← gets (λ s. s.procs p)
    if not (same_state proc.state runnable) && not (same_state proc.state running)
        then pure tt
        else each nthread 0 (inner_body p)

  asleep_or_not :
      (p : Process)
      → is_awake p ≡ false
      → (not (same_state p.state runnable) && not (same_state p.state running)) ≡ true
  asleep_or_not p h = ground arith

  awake_or_not :
      (p : Process)
      → is_awake p ≡ true
      → (not (same_state p.state runnable) && not (same_state p.state running)) ≡ false
  awake_or_not p h = ground arith

  outer_step :
      (s : Machine) (p : ℕ) (t : Machine)
      → WokenTo s p t
      → Returns (λ _. WokenTo s (p + 1)) (outer_body p t)
  outer_step s p t k =
      let here : t.procs p ≡ s.procs p = k.left p (omega arith) in
      elim (Bool-cases (is_awake (t.procs p))) [
        | inr e ↦ rw (asleep_or_not (t.procs p) e) (
            returns (record {
              same = k.same;
              done = λ q i lt small. elim (Bool-cases (q == p)) [
                | inl at ↦
                    let at' : q ≡ p = (==_iff q p).0 at in
                    rw at' (
                      subst
                        (λ (r : Process).
                          (t.procs p).thread i
                          ≡ (if is_awake r then wake c (r.thread i) else r.thread i))
                        here (rw e refl))
                | inr off ↦ k.done q i (ground arith) small
              ];
              left = λ q le. k.left q (omega arith);
            }))
        | inl e ↦ rw (awake_or_not (t.procs p) e) (
            Returns-mono (inner t p) (λ _ u h. record {
              same = SameButThreads-trans s t u k.same h.same;
              done = λ q i lt small. elim (Bool-cases (q == p)) [
                | inl at ↦
                    let at' : q ≡ p = (==_iff q p).0 at in
                    rw at' (
                      h.done i small
                      ∙ subst
                          (λ (r : Process).
                            wake c ((t.procs p).thread i)
                            ≡ (if is_awake r then wake c (r.thread i) else r.thread i))
                          here (rw e refl))
                | inr off ↦
                    ap (λ (r : Process). r.thread i) (h.others q off)
                    ∙ k.done q i (ground arith) small
              ];
              left = λ q le. h.others q (ground arith) ∙ k.left q (omega arith);
            }))
      ]

  -- A wakeup makes exactly those threads runnable that sleep on the channel in a process that is
  -- runnable or running; nothing else changes.
  pub wakeup1-WokenTo : (s : Machine) → Returns (λ _. WokenTo s nproc) (wakeup1 c s)
  unfolding wakeup1
  wakeup1-WokenTo s =
      each-Returns (WokenTo s) nproc outer_body (λ p t _ k. outer_step s p t k) nproc 0 s refl
        (record {
          same = record {
            procs = λ q. refl;
            locked = refl;
            current = refl;
            nextpid = refl;
            nexttid = refl;
            initproc = refl;
          };
          done = λ p i lt small. absurd (omega arith);
          left = λ p le. refl;
        })
