-- ===== src/Lwp/Dispatch.antt =====
-- The turn of scheduler() of project2_LWP/proc.c for one process.
use ele3021_os.Mlfq.Scan.{scan_sound, scan-none}
use ele3021_os.Lwp.RoundRobin.{IsNext, IsNext-runnable, thidxtorun-IsNext}
use ele3021_os.Mlfq.Kernel.{scan, running, runnable, same_state}
use ele3021_os.Prelude.{
  Option-cases, Bool, none, some, Option, subst, refl, inr, sym, inl, Bool-cases, true, arith, ◌==◌,
  false, ◌<◌, ◌≡◌, ℕ,
}
use ele3021_os.Outcome.{pure, modify, ◌>>◌, Cmd, Returns-bind, Returns, returns}
use ele3021_os.Lwp.State.{set_thread, set_process, nthread, Machine}
use ele3021_os.Lwp.Thread.{copythproc, existrunnable, schedule_process, thidxtorun, state_of}

-- scheduler() only ever starts a runnable thread: for a process that it does not pass over, the
-- thread that it starts was runnable, is the next one round the table, and is marked running, as is the
-- process.
pub record Started (s : Machine) (p : ℕ) (r : Option ℕ) (t : Machine) : Type 0 where
  pub thread :
      (i : ℕ)
      → r ≡ some i
      → (i < nthread)
        × (same_state (state_of (s.procs p) i) runnable ≡ true)
        × (state_of (t.procs p) i ≡ running)
        × ((t.procs p).thidx ≡ i)
        × ((t.procs p).state ≡ running)
        × (t.current ≡ some p)
        × ((t.procs p).context ≡ ((s.procs p).thread i).context)
        × ((j : ℕ) → (j == i) ≡ false → (t.procs p).thread j ≡ (s.procs p).thread j)
        × IsNext (s.procs p) i
        × (same_state (s.procs p).state runnable ≡ true)
  pub passed :
      r ≡ none
      → (t ≡ s)
        × ((same_state (s.procs p).state runnable ≡ true)
            → (i : ℕ) → i < nthread
            → same_state (state_of (s.procs p) i) runnable ≡ false)
  pub others : (q : ℕ) → (q == p) ≡ false → t.procs q ≡ s.procs q
  pub locked : t.locked ≡ s.locked

module _ (s : Machine) (p : ℕ) (small : (s.procs p).thidx < nthread) where
  abbrev ready : ℕ → Bool
  ready i = same_state (state_of (s.procs p) i) runnable

  passed_over :
      (same_state (s.procs p).state runnable ≡ true → (i : ℕ) → i < nthread → ready i ≡ false)
      → Started s p none s
  passed_over idle = record {
    thread = λ i e. cc;
    passed = λ e. (refl, idle);
    others = λ q e. refl;
    locked = refl;
  }

  started :
      (r i : ℕ)
      → r < nthread
      → ready r ≡ true
      → IsNext (s.procs p) i
      → same_state (s.procs p).state runnable ≡ true
      → (o : Option ℕ) (t : Machine) → o ≡ some i
      → t.current ≡ some p
      → t.locked ≡ s.locked
      → ((q : ℕ) → (q == p) ≡ false → t.procs q ≡ s.procs q)
      → (state_of (t.procs p) i ≡ running)
        × ((t.procs p).thidx ≡ i)
        × ((t.procs p).state ≡ running)
        × ((t.procs p).context ≡ ((s.procs p).thread i).context)
        × ((j : ℕ) → (j == i) ≡ false → (t.procs p).thread j ≡ (s.procs p).thread j)
      → Started s p o t
  started r i lt on next ready_ o t e cur lock others h =
      let (i_lt, i_on) = IsNext-runnable (s.procs p) i r small next lt on in
      let (h_thread, h_idx, h_state, h_context, h_rest) = h in
      record {
        thread = λ j k.
            let same : i ≡ j = ground (arith, e) in
            subst
              (λ m.
                (m < nthread)
                × (ready m ≡ true)
                × (state_of (t.procs p) m ≡ running)
                × ((t.procs p).thidx ≡ m)
                × ((t.procs p).state ≡ running)
                × (t.current ≡ some p)
                × ((t.procs p).context ≡ ((s.procs p).thread m).context)
                × ((l : ℕ) → (l == m) ≡ false → (t.procs p).thread l ≡ (s.procs p).thread l)
                × IsNext (s.procs p) m
                × (same_state (s.procs p).state runnable ≡ true))
              same (i_lt, i_on, h_thread, h_idx, h_state, cur, h_context, h_rest, next, ready_);
        passed = λ k. cc;
        others = others;
        locked = lock;
      }

  abbrev begin : ℕ → Cmd Machine (Option ℕ)
  begin i = do
    copythproc p i
    modify (λ t. record t { current = some p })
    set_process p (λ r. record r { state = running })
    set_thread p i (λ th. record th { state = running })
    pure (some i)

  begin_lem :
      (r i : ℕ)
      → r < nthread
      → ready r ≡ true
      → IsNext (s.procs p) i
      → same_state (s.procs p).state runnable ≡ true
      → Returns (Started s p) (begin i s)
  unfolding copythproc
  begin_lem r i lt on next ready_ = returns (
      started r i lt on next ready_ (some i) _ refl refl refl (λ q k. ground arith)
        (ground arith, ground arith, ground arith, ground arith, λ j k. ground arith))

  run_next :
      (r : ℕ)
      → scan nthread 0 ready ≡ some r
      → same_state (s.procs p).state runnable ≡ true
      → Returns (Started s p) (schedule_process p s)
  unfolding schedule_process existrunnable
  run_next r e on =
      let (r_on, lt) = scan_sound nthread 0 ready r e in
      rw (e, on)
        (Returns-bind (thidxtorun p s) begin (thidxtorun-IsNext s p small) (λ i t (next, same).
          subst (λ u. Returns (Started s p) (begin i u)) (sym same)
            (begin_lem r i lt r_on next on)))

  -- For a process whose last thread is an entry of its table, the turn of scheduler() returns. It
  -- passes the process over, and changes nothing, if it is not runnable or has no runnable thread;
  -- otherwise it starts the next runnable thread, and the other threads and processes are as before.
  pub schedule_process-Started : Returns (Started s p) (schedule_process p s)
  unfolding schedule_process existrunnable
  schedule_process-Started = elim (Bool-cases (same_state (s.procs p).state runnable)) [
    | inr off ↦ rw off (returns (passed_over (λ on. cc)))
    | inl on ↦ elim (Option-cases (scan nthread 0 ready)) [
      | inl e ↦
          rw (e, on)
            (returns
              (passed_over (λ _ i lt. scan-none nthread 0 ready e i (omega arith) (omega arith))))
      | inr (r, e) ↦ run_next r e on
    ]
  ]
