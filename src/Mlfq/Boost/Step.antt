-- ===== src/Mlfq/Boost/Step.antt =====
-- One turn of the inner loop of boostPriority in project1_scheduler/proc.c.
use ele3021_os.Outcome.{Returns-mono, returns, pure, Returns}
use ele3021_os.Mlfq.Sched.{clear_proc}
use mathlib.Core.List.{append_assoc}
use ele3021_os.Mlfq.Requeue.{requeue, Requeued-IsScheduled, moved, Requeued, removed}
use native.Mathlib.Numerals.{add-one}
use ele3021_os.Prelude.{
  Distinct-append, mem-erase, subst, Distinct, inr, ==_iff, inl, Bool-cases, update, sym, some,
  none, ◌||◌, same_ptr, pos, refl, mem-append, ◌==◌, ◌∙◌, erase, arith, ◌≤◌, ◌∷◌, ap, false,
  if◌then◌else◌, true, ◌++◌, [], ◌<◌, ◌+◌, mem, ◌≡◌, List, ℕ, zero, suc,
}
use ele3021_os.Mlfq.State.{nproc, nqueue}
use ele3021_os.Mlfq.Kernel.{Proc, Kernel, unused, same_state, queue_of}
use ele3021_os.Mlfq.Invariant.{IsScheduled, is_free}

-- The entries in use among the first `i`, in table order.
unfoldable pub lives : Kernel → ℕ → List ℕ
lives s zero = []
lives s (suc i) = if is_free s i then lives s i else lives s i ++ i ∷ []

-- `r` is `p` but for priority and time quantum.
abbrev pub SameButRank : Proc → Proc → Type 0
SameButRank p r = r ≡ record p { priority = r.priority; tq = r.tq }

-- The first `i` entries have been cleared, since `s0`.
pub record Boosting (s0 : Kernel) (i : ℕ) (s : Kernel) : Type 0 where
  pub lists : ℕ → List ℕ
  pub rest : List ℕ
  pub inv : IsScheduled s lists
  pub first : lists 0 ≡ rest ++ lives s0 i
  pub rest_above : (a : ℕ) → mem a rest ≡ true → i ≤ a
  pub others_above : (q a : ℕ) → q < nqueue → (q == 0) ≡ false → mem a (lists q) ≡ true → i ≤ a
  pub same : (p : ℕ) → SameButRank (s0.procs p) (s.procs p)
  pub reset :
      (p : ℕ)
      → p < i
      → is_free s0 p ≡ false
      → ((s.procs p).priority ≡ pos 3) × ((s.procs p).tq ≡ pos 0)
  pub lockpid : s.lockpid ≡ s0.lockpid
  pub ticks : s.ticks ≡ s0.ticks
  pub current : s.current ≡ s0.current

mem-lives-lt : (s : Kernel) (i a : ℕ) → mem a (lives s i) ≡ true → a < i
unfolding lives
mem-lives-lt s zero a h = cc
mem-lives-lt s (suc i) a h = ground (arith, mem-lives-lt s i a, mem-append a (lives s i) (i ∷ []))

lives_step :
    (s : Kernel) (i : ℕ)
    → lives s (i + 1) ≡ (if is_free s i then lives s i else lives s i ++ i ∷ [])
unfolding lives
lives_step s i = rw (add-one i)

erase-append : (a : ℕ) (xs ys : List ℕ) → mem a xs ≡ true → erase a (xs ++ ys) ≡ erase a xs ++ ys
erase-append a [] ys h = cc
erase-append a (x ∷ xs) ys h = ground (arith, erase-append a xs ys)

erase_absent : (a : ℕ) (xs : List ℕ) → mem a xs ≡ false → erase a xs ≡ xs
erase_absent a [] h = refl
erase_absent a (x ∷ xs) h = ground (arith, erase_absent a xs)

free_of_same :
    (p r : Proc) → SameButRank p r → same_state r.state unused ≡ same_state p.state unused
free_of_same p r e = ap (λ (x : Proc). same_state x.state unused) e

module _ (s0 : Kernel) (i : ℕ) (s : Kernel) (small : i < nproc) (b : Boosting s0 i s) where
  is_free_same : is_free s i ≡ is_free s0 i
  is_free_same = free_of_same (s0.procs i) (s.procs i) (b.same i)

  -- A member of a queue that has not been cleared is `i` or comes after it.
  owner_of : (q a : ℕ) → q < nqueue → same_ptr (queue_of s a) (some q) ≡ mem a (b.lists q)
  owner_of q a lt = let is = b.inv.queued q lt in is.owner a

  mem_first : (a : ℕ) → mem a (b.lists 0) ≡ (mem a b.rest || mem a (lives s0 i))
  mem_first a = ap (mem a) b.first ∙ mem-append a b.rest (lives s0 i)

  -- A free entry is passed over.
  skip : is_free s0 i ≡ true → Boosting s0 (i + 1) s
  skip idle =
      let away : queue_of s i ≡ none = b.inv.free i small (is_free_same ∙ idle) in
      record {
        lists = b.lists;
        rest = b.rest;
        inv = b.inv;
        first =
            b.first
            ∙ ap (λ l. b.rest ++ l)
                (sym (
                  lives_step s0 i ∙ ap (λ t. if t then lives s0 i else lives s0 i ++ i ∷ []) idle));
        rest_above =
            λ a m. ground (arith, b.rest_above a m, owner_of 0 i (omega arith), mem_first i);
        others_above = λ q a lt e m. ground (arith, b.others_above q a lt e m, owner_of q i lt);
        same = b.same;
        reset = λ p lt used. ground (arith, b.reset p);
        lockpid = b.lockpid;
        ticks = b.ticks;
        current = b.current;
      }

  module _ (q : ℕ) (in_range : q < nqueue) (used : is_free s0 i ≡ false)
      (home : queue_of s i ≡ some q) where
    member : mem i (b.lists q) ≡ true
    member = ground (arith, owner_of q i in_range)

    removed_first : removed b.lists i q 0 ≡ erase i b.rest ++ lives s0 i
    removed_first = elim (Bool-cases (0 == q)) [
      | inl e ↦
          let here : 0 ≡ q = (==_iff 0 q).0 e in
          let in_rest : mem i b.rest ≡ true =
            ground (arith, member, mem_first i, mem-lives-lt s0 i i) in
          rw (← here) (rw (b.first) (erase-append i b.rest (lives s0 i) in_rest))
      | inr e ↦
          let absent : mem i (b.lists 0) ≡ false = ground (arith, owner_of 0 i (omega arith)) in
          rw e (
            b.first
            ∙ ap (λ l. l ++ lives s0 i) (sym (erase_absent i b.rest (ground (arith, mem_first i)))))
    ]

    rest_erase : (a : ℕ) → mem a (erase i b.rest) ≡ (if a == i then false else mem a b.rest)
    rest_erase a =
        let all : Distinct (b.rest ++ lives s0 i) =
          subst Distinct b.first (b.inv.queued 0 (omega arith)).distinct in
        mem-erase a i b.rest (Distinct-append b.rest (lives s0 i) all).0

    -- The entry `i` has been cleared and moved to the back of the first queue.
    advance :
        (s1 t : Kernel)
        → s1 ≡ record s {
          procs = update s.procs i (record (s.procs i) { priority = pos 3; tq = pos 0 });
        }
        → IsScheduled s1 b.lists
        → Requeued s1 (moved b.lists i q 0) i 0 t
        → Boosting s0 (i + 1) t
    advance s1 t e inv re =
        let procs : t.procs
            ≡ update s.procs i (record (s.procs i) { priority = pos 3; tq = pos 0 }) =
          re.same.procs ∙ ap (λ (k : Kernel). k.procs) e in
        let at : (p : ℕ)
            → t.procs p ≡ update s.procs i (record (s.procs i) { priority = pos 3; tq = pos 0 }) p =
          λ p. ap (λ (f : ℕ → Proc). f p) procs in
        let distinct = (b.inv.queued q in_range).distinct in
        record {
          lists = moved b.lists i q 0;
          rest = erase i b.rest;
          inv =
              Requeued-IsScheduled s1 t b.lists (moved b.lists i q 0) i 0 inv re (omega arith)
                (ap (λ (k : Kernel). is_free k i) e ∙ ground (arith, is_free_same));
          first =
              ap (λ l. l ++ i ∷ []) removed_first
              ∙ (append_assoc (erase i b.rest) (lives s0 i) (i ∷ [])
                  ∙ ap (λ l. erase i b.rest ++ l)
                      (sym (
                        lives_step s0 i
                        ∙ ap (λ t. if t then lives s0 i else lives s0 i ++ i ∷ []) used)));
          rest_above = λ a m. ground (arith, b.rest_above a, rest_erase a);
          others_above = λ r a lt ne m. ground (
            arith,
            b.others_above r a lt ne,
            mem-erase a i (b.lists q) distinct,
            owner_of r i lt,
          );
          same = λ p. ground (arith, at p, b.same p);
          reset = λ p lt busy. ground (arith, at p, b.reset p);
          lockpid = re.same.lockpid ∙ ap (λ (k : Kernel). k.lockpid) e ∙ b.lockpid;
          ticks = re.same.ticks ∙ ap (λ (k : Kernel). k.ticks) e ∙ b.ticks;
          current = re.same.current ∙ ap (λ (k : Kernel). k.current) e ∙ b.current;
        }

  -- One turn of the inner loop.
  pub step :
      Returns
        (λ _. Boosting s0 (i + 1))
        ((if same_state (s.procs i).state unused then pure tt else clear_proc (some i)) s)
  unfolding clear_proc
  step = elim (Bool-cases (is_free s i)) [
    | inl idle ↦ rw idle (returns (skip (sym is_free_same ∙ idle)))
    | inr busy ↦
        let (q, in_range, home) = b.inv.live i small busy in
        let s1 : Kernel = record s {
          procs = update s.procs i (record (s.procs i) { priority = pos 3; tq = pos 0 });
        } in
        let inv : IsScheduled s1 b.lists = record {
          queued = b.inv.queued;
          live = λ p lt used. b.inv.live p lt (ground arith);
          free = λ p lt idle. b.inv.free p lt (ground arith);
        } in
        rw busy (
          rw busy (
            Returns-mono (requeue s1 b.lists i q 0 b.inv.queued small in_range (omega arith) home)
              (λ _ t re. advance q in_range (sym is_free_same ∙ busy) home s1 t refl inv re)))
  ]
