-- ===== src/Mlfq/Alloc.antt =====
-- allocproc of project1_scheduler/proc.c: a new process in the first queue; and what is left of one
-- when kalloc() fails.
use ele3021_os.Mlfq.Scan.{scan_sound}
use ele3021_os.Prelude.{
  sym, subst, ==_iff, refl, ap, Option, ◌∙◌, inr, inl, false, ◌+ℤ◌, ◌==◌, Bool-cases, if◌then◌else◌,
  [], true, ◌∷◌, arith, some, ◌<◌, ◌++◌, ◌+◌, none, ◌≡◌, pos, List, update, Bool, ℕ,
}
use ele3021_os.Outcome.{Returns, returns, Returns-bind, Returns-mono}
use ele3021_os.Mlfq.State.{nproc, Queues}
use ele3021_os.Mlfq.Queue.{pushqueue}
use ele3021_os.Mlfq.Queue.Chain.{IsQueues, Seg-frame}
use ele3021_os.Mlfq.Queue.Effect.{Effect}
use ele3021_os.Mlfq.Queue.Push.{pushqueue-append}
use ele3021_os.Mlfq.Kernel.{
  scan, scan, scan, scan, scan, scan, scan, scan, scan, scan, scan, scan, scan, scan, scan, scan,
  scan, scan, scan, scan, scan, scan, scan, scan, scan, scan, scan, scan, scan, Proc, Kernel,
  embryo, unused, queue_of, scan, on_queues,
}
use ele3021_os.Mlfq.Process.{claim, allocproc}
use ele3021_os.Mlfq.Invariant.{IsScheduled, is_free, SameProcs, on_queues-Returns}

-- `next = prev = NULL` of a process that is in no queue.
abbrev cleared : Queues → ℕ → Queues
cleared s p = record s {
  links =
      update (update s.links p (record (s.links p) { prev = none })) p
        (record (update s.links p (record (s.links p) { prev = none }) p) { next = none });
}

cleared-IsQueues :
    (s : Queues) (lists : ℕ → List ℕ) (p : ℕ)
    → IsQueues s lists
    → (s.links p).queue ≡ none
    → IsQueues (cleared s p) lists
cleared-IsQueues s lists p all loose q lt =
    let is = all q lt in
    record {
      chain =
          Seg-frame s.links (cleared s p).links none (s.queues q).front (lists q) (s.queues q).back
            none is.chain (λ z m. ground (arith, is.owner z));
      distinct = is.distinct;
      owner = λ z. ground (arith, is.owner z);
      bounded = is.bounded;
      ranked = λ z m. ground (arith, is.ranked z m);
      numbered = is.numbered;
    }

abbrev fresh_proc : Kernel → ℕ → Proc
fresh_proc s p = record (s.procs p) {
  state = embryo;
  pid = s.nextpid;
  priority = pos 3;
  tq = pos 0;
}

-- The state in which the new process is pushed.
abbrev prepared : Kernel → ℕ → Kernel
prepared s p = record s {
  procs = update s.procs p (fresh_proc s p);
  nextpid = s.nextpid + 1;
  qs = cleared s.qs p;
}

-- The entry `p` is in use and stands behind the others of the first queue.
pub record Allocated (s : Kernel) (lists : ℕ → List ℕ) (p : ℕ) (t : Kernel) : Type 0 where
  pub queued : IsQueues t.qs (update lists 0 (lists 0 ++ p ∷ []))
  pub home : queue_of t p ≡ some 0
  pub queues : (x : ℕ) → (x == p) ≡ false → queue_of t x ≡ queue_of s x
  pub nextpid : t.nextpid ≡ s.nextpid + 1
  pub procs : (x : ℕ) → (x == p) ≡ false → t.procs x ≡ s.procs x

module _ (s : Kernel) (lists : ℕ → List ℕ) (inv : IsScheduled s lists) (p : ℕ) (small : p < nproc)
    (idle : is_free s p ≡ true) where
  loose : queue_of s p ≡ none
  loose = inv.free p small idle

  pushed :
      Returns
        (λ _ t.
          Effect
            (cleared s.qs p)
            lists
            0
            p
            (lists 0 ++ p ∷ [])
            (some 0)
            (((cleared s.qs p).queues 0).size +ℤ pos 1)
            t.qs
          × SameProcs (prepared s p) t)
        (on_queues (pushqueue (some 0) (some p)) (prepared s p))
  pushed = on_queues-Returns (prepared s p) (pushqueue (some 0) (some p) (cleared s.qs p)) (
      pushqueue-append (cleared s.qs p) lists 0 p (cleared-IsQueues s.qs lists p inv.queued loose)
        (omega arith) small (ground (arith, loose)))

  claim-Allocated :
      (mem : Bool)
      → Returns
          (λ r t.
            Allocated s lists p t
            × (r ≡ (if mem then some p else none))
            × (t.procs p
                ≡ record (fresh_proc s p) { state = if mem then embryo else unused; kstack = mem }))
          (claim mem p s)
  unfolding claim
  claim-Allocated true =
      Returns-bind (on_queues (pushqueue (some 0) (some p)) (prepared s p)) _ pushed
        (λ _ t (back, same). returns (
          record {
            queued = back.holds;
            home = back.moved;
            queues = λ x e. back.local.queues x e ∙ ground (arith);
            nextpid = same.nextpid;
            procs = λ x e. ground (arith, ap (λ (f : ℕ → Proc). f x) same.procs);
          },
          refl,
          ground (arith, ap (λ (f : ℕ → Proc). f p) same.procs),
        ))
  claim-Allocated false =
      Returns-bind (on_queues (pushqueue (some 0) (some p)) (prepared s p)) _ pushed
        (λ _ t (back, same). returns (
          record {
            queued = back.holds;
            home = back.moved;
            queues = λ x e. back.local.queues x e ∙ ground (arith);
            nextpid = same.nextpid;
            procs = λ x e. ground (arith, ap (λ (f : ℕ → Proc). f x) same.procs);
          },
          refl,
          ground (arith, ap (λ (f : ℕ → Proc). f p) same.procs),
        ))

-- A full table, and a table with a free entry.
abbrev free_entry : Kernel → Option ℕ
free_entry s = scan nproc 0 (is_free s)

-- What allocproc promises: NULL and no change when the table is full, else the first free entry, in
-- use, with the next pid and priority 3, at the back of the first queue.
abbrev pub Alloc : Kernel → (ℕ → List ℕ) → Option ℕ → Kernel → Type 0
Alloc s lists none t = (scan nproc 0 (is_free s) ≡ none) × (t ≡ s)
Alloc s lists (some p) t =
    (scan nproc 0 (is_free s) ≡ some p)
    × IsScheduled t (update lists 0 (lists 0 ++ p ∷ []))
    × ((t.procs p).state ≡ embryo)
    × ((t.procs p).pid ≡ s.nextpid)
    × ((t.procs p).priority ≡ pos 3)
    × ((t.procs p).tq ≡ pos 0)
    × (t.nextpid ≡ s.nextpid + 1)
    × ((x : ℕ) → (x == p) ≡ false → t.procs x ≡ s.procs x)

allocated :
    (s t : Kernel) (lists : ℕ → List ℕ) (p : ℕ)
    → IsScheduled s lists
    → Allocated s lists p t
    → is_free t p ≡ false
    → IsScheduled t (update lists 0 (lists 0 ++ p ∷ []))
allocated s t lists p inv al used = record {
  queued = al.queued;
  live = λ x lt busy. elim (Bool-cases (x == p)) [
    | inl e ↦ let here : x ≡ p = (==_iff x p).0 e in (0, omega arith, rw here al.home)
    | inr e ↦
        let (q, in_range, home) = inv.live x lt (ground (arith, al.procs x e)) in
        (q, in_range, al.queues x e ∙ home)
  ];
  free = λ x lt idle. elim (Bool-cases (x == p)) [
    | inl e ↦ let here : x ≡ p = (==_iff x p).0 e in absurd (ground arith)
    | inr e ↦ al.queues x e ∙ inv.free x lt (ground (arith, al.procs x e))
  ];
}

Alloc-at :
    (s : Kernel) (lists : ℕ → List ℕ)
    → IsScheduled s lists
    → (o : Option ℕ) → scan nproc 0 (is_free s) ≡ o
    → Returns (Alloc s lists) (allocproc true s)
unfolding allocproc
Alloc-at s lists inv none e = rw e (returns (e, refl))
Alloc-at s lists inv (some p) e =
    let (idle, small) = scan_sound nproc 0 (is_free s) p e in
    rw e (
      Returns-mono (claim-Allocated s lists inv p small idle true) (λ r t (al, got, proc).
        subst (λ o. Alloc s lists o t) (sym got)
          (
            e,
            allocated s t lists p inv al (ground arith),
            ground arith,
            ground arith,
            ground arith,
            ground arith,
            al.nextpid,
            al.procs,
          )))

-- From a scheduled table, with memory for the stack, allocproc returns what it promises.
pub allocproc-Alloc :
    (s : Kernel) (lists : ℕ → List ℕ)
    → IsScheduled s lists
    → Returns (Alloc s lists) (allocproc true s)
allocproc-Alloc s lists inv = Alloc-at s lists inv (scan nproc 0 (is_free s)) refl
