-- ===== src/Mlfq/Requeue.antt =====
-- A process is taken out of its queue and pushed on another: the step that clearProc,
-- expireTimeQuantum, setLevel and the round robin of project1_scheduler/proc.c share.
use ele3021_os.Prelude.{
  sym, inr, ==_iff, inl, Bool-cases, ap, ◌-ℤ◌, none, mem-append, arith, ◌∙◌, pos, false, [], ◌==◌,
  ◌∷◌, some, ◌++◌, erase, ◌<◌, ◌≡◌, update, List, ℕ,
}
use ele3021_os.Outcome.{Returns, Returns-bind, Returns-mono, ◌>>◌}
use ele3021_os.Mlfq.State.{nproc, nqueue}
use ele3021_os.Mlfq.Queue.{erasequeue, pushqueue}
use ele3021_os.Mlfq.Queue.Chain.{IsQueues}
use ele3021_os.Mlfq.Queue.Effect.{Effect}
use ele3021_os.Mlfq.Queue.Erase.{erasequeue-erase}
use ele3021_os.Mlfq.Queue.Push.{pushqueue-append}
use ele3021_os.Mlfq.Kernel.{unused, same_state, Proc, Kernel, on_queues, queue_of, level_of}
use ele3021_os.Mlfq.Sched.{erase_proc}
use ele3021_os.Mlfq.Invariant.{is_free, IsScheduled, SameProcs-trans, SameProcs, on_queues-Returns}

-- The lists without `p`, which stood in `q`.
abbrev pub removed : (ℕ → List ℕ) → ℕ → ℕ → ℕ → List ℕ
removed lists p q = update lists q (erase p (lists q))

-- The lists when `p` has gone from `q` to the back of `r`.
abbrev pub moved : (ℕ → List ℕ) → ℕ → ℕ → ℕ → ℕ → List ℕ
moved lists p q r = update (removed lists p q) r (removed lists p q r ++ p ∷ [])

pub record Requeued (s : Kernel) (lists : ℕ → List ℕ) (p r : ℕ) (t : Kernel) : Type 0 where
  pub queued : IsQueues t.qs lists
  pub home : queue_of t p ≡ some r
  pub queues : (x : ℕ) → (x == p) ≡ false → queue_of t x ≡ queue_of s x
  pub levels : (x : ℕ) → (x == p) ≡ false → level_of t x ≡ level_of s x
  pub level : level_of t p ≡ pos r
  pub same : SameProcs s t

module _ (s : Kernel) (lists : ℕ → List ℕ) (p q r : ℕ) (all : IsQueues s.qs lists)
    (small : p < nproc) (in_range : q < nqueue) (r_in_range : r < nqueue)
    (member : queue_of s p ≡ some q) where
  -- What erasing `p` leaves of the lists.
  abbrev pub Out : Kernel → Type 0
  Out t =
      Effect s.qs lists q p (erase p (lists q)) none ((s.qs.queues q).size -ℤ pos 1) t.qs
      × SameProcs s t

  pub erase_proc-Out : Returns (λ _. Out) (erase_proc p s)
  erase_proc-Out = rw member (
      on_queues-Returns s (erasequeue (some q) (some p) s.qs)
        (erasequeue-erase s.qs lists q p all in_range member))

  push_back :
      (t : Kernel)
      → Out t
      → Returns
          (λ _. Requeued s (moved lists p q r) p r)
          (on_queues (pushqueue (some r) (some p)) t)
  push_back t (out, same) =
      Returns-mono
        (on_queues-Returns t (pushqueue (some r) (some p) t.qs)
          (pushqueue-append t.qs (removed lists p q) r p out.holds r_in_range small out.moved))
        (λ _ u (back, same').
          let is = back.holds r r_in_range in
          record {
            queued = back.holds;
            home = back.moved;
            queues = λ x e. back.local.queues x e ∙ out.local.queues x e;
            levels = λ x e. back.local.levels x e ∙ out.local.levels x e;
            level = is.ranked p (ground (arith, mem-append p (removed lists p q r) (p ∷ [])));
            same = SameProcs-trans same same';
          })

  -- Erased, and pushed on `r`.
  pub requeue :
      Returns
        (λ _. Requeued s (moved lists p q r) p r)
        ((erase_proc p >> on_queues (pushqueue (some r) (some p))) s)
  requeue =
      Returns-bind (erase_proc p s) (λ _. on_queues (pushqueue (some r) (some p))) erase_proc-Out
        (λ _ t out. push_back t out)

-- A process in use that changes queues leaves the table scheduled.
pub Requeued-IsScheduled :
    (s t : Kernel) (lists lists' : ℕ → List ℕ) (p r : ℕ)
    → IsScheduled s lists
    → Requeued s lists' p r t
    → r < nqueue
    → is_free s p ≡ false
    → IsScheduled t lists'
Requeued-IsScheduled s t lists lists' p r inv re r_in_range used =
    let same : (x : ℕ) → is_free t x ≡ is_free s x =
      λ x. ap (λ (f : ℕ → Proc). same_state (f x).state unused) re.same.procs in
    record {
      queued = re.queued;
      live = λ x small busy. elim (Bool-cases (x == p)) [
        | inl e ↦ (r, r_in_range, rw ((==_iff x p).0 e) re.home)
        | inr e ↦
            let (q, lt, at) = inv.live x small (sym (same x) ∙ busy) in (q, lt, re.queues x e ∙ at)
      ];
      free = λ x small idle. elim (Bool-cases (x == p)) [
        | inl e ↦ absurd (ground (arith, same x))
        | inr e ↦ re.queues x e ∙ inv.free x small (sym (same x) ∙ idle)
      ];
    }
