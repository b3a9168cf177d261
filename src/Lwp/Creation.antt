-- ===== src/Lwp/Creation.antt =====
-- thread_create of project2_LWP/proc.c on each of its branches.
use ele3021_os.Mlfq.Scan.{scan_sound, scan-none}
use ele3021_os.Mlfq.Kernel.{scan, same_state, embryo, runnable, unused, ProcState}
use ele3021_os.Outcome.{Returns-mono, returns, Returns, gets, pure, ◌>>=◌, ◌>>◌, Cmd}
use ele3021_os.Lwp.Thread.{allocth, state_of}
use ele3021_os.Lwp.State.{
  nthread, with_thread, Thread, Process, kstacksize, Machine, release, set_thread, set_process,
}
use ele3021_os.Prelude.{
  if◌then◌else◌, ◌&&◌, not, arith, Option-cases, sym, inr, inl, Bool-cases, ◌<◌, true, refl, ap,
  ◌∙◌, ==_refl, false, update, ◌^◌, some, ◌==◌, ◌%◌, none, ◌≡◌, ◌-◌, Option, Bool, ◌+◌, ℕ,
}
use ele3021_os.Lwp.Create.{new_top, pgroundup, thread_create, build, launch, find_stack}

-- What the calls leave: the entry of the new thread, and all else of the table.
pub record Entry (s : Machine) (p i : ℕ) (state : ProcState) (tid : ℕ) (locked : Bool) (t : Machine)
    : Type 0 where
  pub here : state_of (t.procs p) i ≡ state
  pub number : ((t.procs p).thread i).tid ≡ tid
  pub others : (j : ℕ) → (j == i) ≡ false → (t.procs p).thread j ≡ (s.procs p).thread j
  pub processes : (q : ℕ) → (q == p) ≡ false → t.procs q ≡ s.procs q
  pub lock : t.locked ≡ locked

-- The user stack of the new thread: one that a thread of this index has left, else new pages.
pub record Stacked (allocuvm : ℕ → ℕ → ℕ) (r : Process) (i : ℕ) (r' : Process) : Type 0 where
  pub reused :
      (r.freedustack i == 0) ≡ false
      → ((r'.thread i).ustack ≡ r.freedustack i) × (r'.freedustack i ≡ 0) × (r'.sz ≡ pgroundup r.sz)
  pub fresh :
      (r.freedustack i == 0) ≡ true
      → ((new_top allocuvm r == 0) ≡ false)
        × ((r'.thread i).ustack ≡ new_top allocuvm r)
        × (r'.sz ≡ new_top allocuvm r)

-- The address at which the stack of a thread of this index ends, 0 where allocuvm has failed.
abbrev stack_top : (ℕ → ℕ → ℕ) → Process → ℕ → ℕ
stack_top allocuvm r i = if not (r.freedustack i == 0) then r.freedustack i else new_top allocuvm r

-- There is a stack, and the two words at its end can be copied to it.
abbrev pub can_start : (ℕ → ℕ → ℕ) → (ℕ → Bool) → Process → ℕ → Bool
can_start allocuvm copyout r i =
    not (stack_top allocuvm r i == 0) && copyout ((stack_top allocuvm r i + 2 ^ 32 - 8) % 2 ^ 32)

-- What comes after allocth has taken the entry `i`.
pub data Built (s : Machine) (p i kalloc : ℕ) (allocuvm : ℕ → ℕ → ℕ) (copyout : ℕ → Bool)
    (r : Option ℕ) (t : Machine) : Type 0 where
  built :
      (kalloc == 0) ≡ false
      → can_start allocuvm copyout (s.procs p) i ≡ true
      → r ≡ some s.nexttid
      → Entry s p i runnable s.nexttid false t
      → Stacked allocuvm (s.procs p) i (t.procs p)
      → Built s p i kalloc allocuvm copyout r t
  no_memory :
      (kalloc == 0) ≡ true
      → r ≡ none
      → Entry s p i unused s.nexttid true t
      → Built s p i kalloc allocuvm copyout r t
  bad :
      (kalloc == 0) ≡ false
      → can_start allocuvm copyout (s.procs p) i ≡ false
      → r ≡ none
      → Entry s p i embryo s.nexttid true t
      → Built s p i kalloc allocuvm copyout r t

-- What a call comes to: the process has no unused thread, or it has.
pub data Created (s : Machine) (p kalloc : ℕ) (allocuvm : ℕ → ℕ → ℕ) (copyout : ℕ → Bool)
    (r : Option ℕ) (t : Machine) : Type 0 where
  full :
      ((i : ℕ) → i < nthread → same_state (state_of (s.procs p) i) unused ≡ false)
      → r ≡ none
      → t.procs ≡ s.procs
      → t.locked ≡ true
      → Created s p kalloc allocuvm copyout r t
  slot :
      (i : ℕ)
      → i < nthread
      → same_state (state_of (s.procs p) i) unused ≡ true
      → Built s p i kalloc allocuvm copyout r t
      → Created s p kalloc allocuvm copyout r t

record SameSizes (r r' : Process) : Type 0 where
  sz : r'.sz ≡ r.sz
  stacksize : r'.stacksize ≡ r.stacksize
  freedustack : r'.freedustack ≡ r.freedustack

module _ (s : Machine) (p i : ℕ) where
  module _ (u : Machine) (state : ProcState) (tid : ℕ) (locked : Bool)
      (h : Entry s p i state tid locked u) where
    Entry-thread :
        (f : Thread → Thread)
        → (f ((u.procs p).thread i)).tid ≡ ((u.procs p).thread i).tid
        → (state' : ProcState) → (f ((u.procs p).thread i)).state ≡ state'
        → Entry s p i state' tid locked
            (record u { procs = update u.procs p (with_thread i f (u.procs p)) })
    Entry-thread f same state' e = record {
      here = rw (==_refl p, state_of, with_thread, ==_refl i) e;
      number = rw (==_refl p, with_thread, ==_refl i) (same ∙ h.number);
      others = λ j e. rw (==_refl p, with_thread, e) (h.others j e);
      processes = λ q e. rw e (h.processes q e);
      lock = h.lock;
    }

    Entry-process :
        (g : Process → Process)
        → (g (u.procs p)).thread ≡ (u.procs p).thread
        → Entry s p i state tid locked (record u { procs = update u.procs p (g (u.procs p)) })
    Entry-process g same = record {
      here = rw (==_refl p) (ap (λ (f : ℕ → Thread). (f i).state) same ∙ h.here);
      number = rw (==_refl p) (ap (λ (f : ℕ → Thread). (f i).tid) same ∙ h.number);
      others = λ j e. rw (==_refl p) (ap (λ (f : ℕ → Thread). f j) same ∙ h.others j e);
      processes = λ q e. rw e (h.processes q e);
      lock = h.lock;
    }

  module _ (tid : ℕ) (u : Machine) (h : Entry s p i embryo tid true u) where
    launched : (sz sp : ℕ) → Cmd Machine (Option ℕ)
    launched sz sp = do
      set_process p (λ r. record r { sz = sz })
      set_thread p i (λ th. record th { ustack = sp })
      set_thread p i (λ th. record th { state = runnable })
      release
      tid ← gets (λ s. ((s.procs p).thread i).tid)
      pure (some tid)

    launched_lem :
        (sz sp : ℕ)
        → Returns
            (λ r t.
              (r ≡ some tid)
              × Entry s p i runnable tid false t
              × ((t.procs p).sz ≡ sz)
              × (((t.procs p).thread i).ustack ≡ sp)
              × ((t.procs p).freedustack ≡ (u.procs p).freedustack))
            (launched sz sp u)
    unfolding launched
    launched_lem sz sp =
        let u1 : Machine = record u { procs = update u.procs p (record (u.procs p) { sz = sz }) } in
        let e1 : Entry s p i embryo tid true u1 =
          Entry-process u embryo tid true h (λ r. record r { sz = sz }) refl in
        let u2 : Machine = record u1 {
          procs = update u1.procs p (with_thread i (λ th. record th { ustack = sp }) (u1.procs p));
        } in
        let e2 : Entry s p i embryo tid true u2 =
          Entry-thread u1 embryo tid true e1 (λ th. record th { ustack = sp }) refl embryo
            e1.here in
        let e3 =
          Entry-thread u2 embryo tid true e2 (λ th. record th { state = runnable }) refl runnable
            refl in
        rw h.lock (
          returns (
            ap some e3.number,
            record {
              here = e3.here;
              number = e3.number;
              others = e3.others;
              processes = e3.processes;
              lock = refl;
            },
            rw (==_refl p) refl,
            rw (==_refl p, with_thread, ==_refl i) refl,
            rw (==_refl p) refl,
          ))

  module _ (kalloc : ℕ) (allocuvm : ℕ → ℕ → ℕ) (copyout : ℕ → Bool)
      (some_memory : (kalloc == 0) ≡ false) where
    launch_lem :
        (u : Machine)
        → Entry s p i embryo s.nexttid true u
        → (sz sp : ℕ) → (sp == 0) ≡ false
        → sp ≡ stack_top allocuvm (s.procs p) i
        → ((t : Machine)
            → (t.procs p).sz ≡ sz
            → ((t.procs p).thread i).ustack ≡ sp
            → (t.procs p).freedustack ≡ (u.procs p).freedustack
            → Stacked allocuvm (s.procs p) i (t.procs p))
        → Returns (Built s p i kalloc allocuvm copyout) (launch copyout p i sz sp u)
    unfolding launch launched
    launch_lem u h sz sp real top stacked =
        elim (Bool-cases (copyout ((sp + 2 ^ 32 - 8) % 2 ^ 32))) [
          | inl good ↦ rw good (
              Returns-mono (launched_lem s.nexttid u h sz sp) (λ r t (e, k, es, eu, ef).
                built some_memory (rw (← top, real, good) refl) e k (stacked t es eu ef)))
          | inr wrong ↦ rw wrong (returns (bad some_memory (rw (← top, real, wrong) refl) refl h))
        ]

    rest_lem :
        (u : Machine)
        → Entry s p i embryo s.nexttid true u
        → SameSizes (s.procs p) (u.procs p)
        → Returns (Built s p i kalloc allocuvm copyout) (
            (find_stack allocuvm p i >>= (λ found. elim found [
              | none ↦ pure none
              | some stack ↦ launch copyout p i stack.0 stack.1
            ]))
              u)
    unfolding find_stack
    rest_lem u h same =
        let top : new_top allocuvm (s.procs p) ≡ new_top allocuvm (u.procs p) =
          rw (same.sz, same.stacksize) refl in
        let no_old : ((u.procs p).freedustack i == 0) ≡ true
            → ((s.procs p).freedustack i == 0) ≡ true =
          λ e. ap (λ (f : ℕ → ℕ). f i == 0) (sym same.freedustack) ∙ e in
        elim (Bool-cases ((u.procs p).freedustack i == 0)) [
          | inr old ↦
              let g : Process → Process =
                λ r. record r { freedustack = update r.freedustack i 0 } in
              rw old (
                launch_lem (record u { procs = update u.procs p (g (u.procs p)) })
                  (Entry-process u embryo s.nexttid true h g refl) (pgroundup (u.procs p).sz)
                  ((u.procs p).freedustack i) old
                  (let off = ap (λ (f : ℕ → ℕ). f i == 0) (sym same.freedustack) ∙ old in
                    rw off (ap (λ (f : ℕ → ℕ). f i) same.freedustack))
                  (λ t es eu ef. record {
                    reused = λ _. (
                      eu ∙ ap (λ (f : ℕ → ℕ). f i) same.freedustack,
                      ap (λ (f : ℕ → ℕ). f i) ef ∙ rw (==_refl p, ==_refl i) refl,
                      es ∙ ap pgroundup same.sz,
                    );
                    fresh = λ on.
                        let on' = ap (λ (f : ℕ → ℕ). f i == 0) same.freedustack ∙ on in
                        cc (old, on');
                  }))
          | inl new ↦ elim (Bool-cases (new_top allocuvm (u.procs p) == 0)) [
            | inl over ↦
                rw (new, over) (returns (bad some_memory (rw (no_old new, top, over) refl) refl h))
            | inr room ↦
                rw (new, room)
                  (launch_lem u h (new_top allocuvm (u.procs p)) (new_top allocuvm (u.procs p)) room
                    (rw (no_old new) (sym top))
                    (λ t es eu ef. record {
                      reused = λ off.
                          let off' = ap (λ (f : ℕ → ℕ). f i == 0) same.freedustack ∙ off in
                          cc (new, off');
                      fresh = λ _. (ap (λ a. a == 0) top ∙ room, eu ∙ sym top, es ∙ sym top);
                    }))
          ]
        ]

  build_lem :
      (kalloc : ℕ) (allocuvm : ℕ → ℕ → ℕ) (copyout : ℕ → Bool) (u : Machine)
      → Entry s p i embryo s.nexttid true u
      → SameSizes (s.procs p) (u.procs p)
      → Returns (Built s p i kalloc allocuvm copyout) (build kalloc allocuvm copyout p i u)
  unfolding build
  build_lem kalloc allocuvm copyout u h same =
      let at : Machine → (Thread → Thread) → Machine =
        λ v f. record v { procs = update v.procs p (with_thread i f (v.procs p)) } in
      let u1 = at u (λ th. record th { kstack = kalloc }) in
      let e1 : Entry s p i embryo s.nexttid true u1 =
        Entry-thread u embryo s.nexttid true h (λ th. record th { kstack = kalloc }) refl embryo
          h.here in
      elim (Bool-cases (kalloc == 0)) [
        | inl gone ↦ rw gone (
            returns (
              no_memory gone refl (
                Entry-thread u1 embryo s.nexttid true e1 (λ th. record th { state = unused }) refl
                  unused refl)))
        | inr got ↦
            let f : Thread → Thread = λ th. record th { tf = kalloc + kstacksize - 76 } in
            let g : Thread → Thread =
              λ th. record th { context = kalloc + kstacksize - 76 - 4 - 20 } in
            let e2 : Entry s p i embryo s.nexttid true (at u1 f) =
              Entry-thread u1 embryo s.nexttid true e1 f refl embryo e1.here in
            let e3 : Entry s p i embryo s.nexttid true (at (at u1 f) g) =
              Entry-thread (at u1 f) embryo s.nexttid true e2 g refl embryo e2.here in
            rw got (
              rest_lem kalloc allocuvm copyout got (at (at u1 f) g) e3 (record {
                sz = rw (==_refl p) same.sz;
                stacksize = rw (==_refl p) same.stacksize;
                freedustack = rw (==_refl p) same.freedustack;
              }))
      ]

-- For a current process and with the lock free, thread_create returns. Without an unused thread it
-- returns -1 and changes no process, when kalloc() fails -1 with the entry unused again, when there
-- is no stack or copyout to its last two words fails -1 with the entry an embryo; each time the lock
-- is still held. When none of these fails it returns the next thread number, and the lock is free:
-- an entry that was unused is runnable, on the stack that a thread of its index has left, if there
-- is one, else on new pages. The other threads of the process and the other processes are as before.
pub thread_create-Created :
    (s : Machine) (p kalloc : ℕ) (allocuvm : ℕ → ℕ → ℕ) (copyout : ℕ → Bool)
    → s.current ≡ some p
    → s.locked ≡ false
    → Returns (Created s p kalloc allocuvm copyout) (thread_create kalloc allocuvm copyout s)
unfolding thread_create allocth
thread_create-Created s p kalloc allocuvm copyout me free =
    let is_unused : ℕ → Bool = λ i. same_state (state_of (s.procs p) i) unused in
    simp (me, free)
      (elim (Option-cases (scan nthread 0 is_unused)) [
        | inl e ↦ rw e (
            returns (
              full (λ i lt. scan-none nthread 0 is_unused e i (omega arith) (omega arith)) refl refl
                refl))
        | inr (i, e) ↦
            let (on, lt) = scan_sound nthread 0 is_unused i e in
            rw e (
              Returns-mono
                (build_lem s p i kalloc allocuvm copyout _
                  (record {
                    here = rw (==_refl p, state_of, with_thread, ==_refl i) refl;
                    number = rw (==_refl p, with_thread, ==_refl i) refl;
                    others = λ j off. rw (==_refl p, with_thread, off) refl;
                    processes = λ q off. rw off refl;
                    lock = refl;
                  })
                  (record {
                    sz = rw (==_refl p) refl;
                    stacksize = rw (==_refl p) refl;
                    freedustack = rw (==_refl p) refl;
                  }))
                (λ r t b. slot i lt on b))
      ])
