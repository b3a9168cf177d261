-- ===== src/Mlfq/Invariant.antt =====
-- The invariant of project1_scheduler's process table: who stands in which queue.
use ele3021_os.Prelude.{refl, ◌∙◌, none, true, some, false, ◌<◌, List, Bool, ◌≡◌, ℕ}
use ele3021_os.Outcome.{Outcome, Returns, returns}
use ele3021_os.Mlfq.State.{nproc, nqueue, Queues}
use ele3021_os.Mlfq.Queue.Chain.{IsQueues}
use ele3021_os.Mlfq.Kernel.{Kernel, unused, same_state, with_queues, queue_of}

abbrev pub is_free : Kernel → ℕ → Bool
is_free s p = same_state (s.procs p).state unused

-- The queues hold `lists`, and exactly the entries in use stand in one of them.
pub record IsScheduled (s : Kernel) (lists : ℕ → List ℕ) : Type 0 where
  pub queued : IsQueues s.qs lists
  pub live :
      (p : ℕ) → p < nproc → is_free s p ≡ false → (q : ℕ) × (q < nqueue) × (queue_of s p ≡ some q)
  pub free : (p : ℕ) → p < nproc → is_free s p ≡ true → queue_of s p ≡ none

-- `t` is `s` but for its queues.
pub record SameProcs (s t : Kernel) : Type 0 where
  pub procs : t.procs ≡ s.procs
  pub lockpid : t.lockpid ≡ s.lockpid
  pub ticks : t.ticks ≡ s.ticks
  pub nextpid : t.nextpid ≡ s.nextpid
  pub initproc : t.initproc ≡ s.initproc
  pub current : t.current ≡ s.current

pub SameProcs-trans : {s t u : Kernel} → SameProcs s t → SameProcs t u → SameProcs s u
SameProcs-trans a b = record {
  procs = b.procs ∙ a.procs;
  lockpid = b.lockpid ∙ a.lockpid;
  ticks = b.ticks ∙ a.ticks;
  nextpid = b.nextpid ∙ a.nextpid;
  initproc = b.initproc ∙ a.initproc;
  current = b.current ∙ a.current;
}

pub on_queues-Returns :
    {A : Type 0} {P : A → Queues → Type 0} (s : Kernel) (r : Outcome Queues A)
    → Returns P r
    → Returns (λ a t. P a t.qs × SameProcs s t) (with_queues s r)
on_queues-Returns s r (returns h) = returns (
  h,
  record {
    procs = refl;
    lockpid = refl;
    ticks = refl;
    nextpid = refl;
    initproc = refl;
    current = refl;
  },
)
