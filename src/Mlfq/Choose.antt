-- ===== src/Mlfq/Choose.antt =====
-- The choice of getProcessToRun in project1_scheduler/proc.c against a choice from lists.
use ele3021_os.Prelude.{
  refl, sym, subst, [], pos, zero, some, ◌∷◌, suc, length-le_of_bound, arith, ◌+◌, length, ◌≡◌, ◌<◌,
  ℤ, none, List, Option, ℕ,
}
pub mod Spec
use ele3021_os.Outcome.{ok, Returns, returns}
use ele3021_os.Mlfq.State.{nproc, nqueue, Link}
use ele3021_os.Mlfq.Queue.{frontqueue}
use ele3021_os.Mlfq.Queue.Chain.{Seg, IsQueue}
use ele3021_os.Mlfq.Kernel.{Kernel, runnable, same_state}
use ele3021_os.Mlfq.Sched.{first_runnable, least, choose}
use ele3021_os.Mlfq.Invariant.{IsScheduled}
use ele3021_os.Mlfq.Choose.Spec.{
  InRange, is_ready, find_ready, best_of, chosen, Chosen, chosen-Chosen,
}

first_runnable-eq :
    (s : Kernel) (fuel : ℕ) (prev cur : Option ℕ) (xs : List ℕ) (last : Option ℕ)
    → Seg s.qs.links prev cur xs last none
    → length xs < fuel
    → first_runnable fuel cur s ≡ ok (find_ready s xs) s
unfolding first_runnable find_ready
first_runnable-eq s zero prev cur xs last h enough = absurd (omega arith)
first_runnable-eq s (suc fuel) prev cur [] last h enough = rw h.0
first_runnable-eq s (suc fuel) prev cur (x ∷ xs) last h enough = rw h.0 (
    ground (arith, first_runnable-eq s fuel (some x) (s.qs.links x).next xs last h.2 (omega arith)))

least-eq :
    (s : Kernel) (fuel : ℕ) (prev cur : Option ℕ) (xs : List ℕ) (last best : Option ℕ) (bound : ℤ)
    → Seg s.qs.links prev cur xs last none
    → length xs < fuel
    → least fuel cur best bound s ≡ ok (best_of s xs best bound) s
unfolding least best_of
least-eq s zero prev cur xs last best bound h enough = absurd (omega arith)
least-eq s (suc fuel) prev cur [] last best bound h enough = rw h.0
least-eq s (suc fuel) prev cur (x ∷ xs) last best bound h enough =
    rw h.0 (least-eq s fuel (some x) (s.qs.links x).next xs last _ _ h.2 (omega arith))

module _ (s : Kernel) (lists : ℕ → List ℕ) (inv : IsScheduled s lists) where
  few : (q : ℕ) → q < nqueue → length (lists q) < nproc + 1
  few q lt =
      let is = inv.queued q lt in
      let fits = length-le_of_bound nproc (lists q) is.distinct is.bounded in omega arith

  find_in :
      (q : ℕ)
      → q < nqueue
      → first_runnable (nproc + 1) (s.qs.queues q).front s ≡ ok (find_ready s (lists q)) s
  find_in q lt =
      first_runnable-eq s (nproc + 1) none (s.qs.queues q).front (lists q) (s.qs.queues q).back
        (inv.queued q lt).chain (few q lt)

  -- The pointer walks choose as the lists do.
  pub choose-eq-chosen : choose s ≡ ok (chosen s lists) s
  unfolding choose frontqueue chosen
  choose-eq-chosen =
      let last : least (nproc + 1) (s.qs.queues 2).front none (pos 4) s
          ≡ ok (best_of s (lists 2) none (pos 4)) s =
        least-eq s (nproc + 1) none (s.qs.queues 2).front (lists 2) (s.qs.queues 2).back none
          (pos 4) (inv.queued 2 (omega arith)).chain (few 2 (omega arith)) in
      rw (find_in 0 (omega arith)) (ground (arith, find_in 1 (omega arith), last))

  -- If the ready processes have a priority from 0 to 3, getProcessToRun under no lock comes to a ready
  -- process of the first queue that has one, in the last queue with the least priority value of the
  -- ready, and to none only if no process is ready; it changes nothing.
  pub choose-Chosen : InRange s → Returns (λ r t. Chosen s r × (t ≡ s)) (choose s)
  choose-Chosen ranks =
      subst (Returns (λ r t. Chosen s r × (t ≡ s))) (sym choose-eq-chosen)
        (returns (chosen-Chosen s lists inv ranks, refl))
