-- ===== src/Mlfq/Queue/Effect.antt =====
-- What an operation of project1_scheduler/queue.c on the queue `q` and the process `n` leaves alone.
use ele3021_os.Prelude.{
  ℕ, ◌≡◌, ℤ, Option, none, some, true, false, ◌||◌, List, arith, ◌==◌, ==_iff, Bool-cases, inl, inr,
  same_ptr, update,
}
use ele3021_os.Mlfq.State.{Queues}
use ele3021_os.Mlfq.Queue.Chain.{IsQueue, IsQueues, Seg-frame}

-- Other queues and their nodes are untouched, and no other process changes queue or level.
pub record Local (q n : ℕ) (s t : Queues) : Type 0 where
  pub heads : (r : ℕ) → (r == q) ≡ false → t.queues r ≡ s.queues r
  pub nodes :
      (p : ℕ)
      → (p == n) ≡ false
      → same_ptr (s.links p).queue (some q) ≡ false
      → t.links p ≡ s.links p
  pub queues : (p : ℕ) → (p == n) ≡ false → (t.links p).queue ≡ (s.links p).queue
  pub levels : (p : ℕ) → (p == n) ≡ false → (t.links p).level ≡ (s.links p).level

-- In no queue, or in `q`.
abbrev pub AtHome : ℕ → Option ℕ → Type 0
AtHome q o = (same_ptr o none || same_ptr o (some q)) ≡ true

-- Of the three queues, `q` now holds `xs`, and counts `size`; `n` points to the queue `home`.
pub record Effect (s : Queues) (lists : ℕ → List ℕ) (q n : ℕ) (xs : List ℕ) (home : Option ℕ)
    (size : ℤ) (t : Queues) : Type 0 where
  pub holds : IsQueues t (update lists q xs)
  pub moved : (t.links n).queue ≡ home
  pub counts : (t.queues q).size ≡ size
  pub local : Local q n s t

module _ (s t : Queues) (lists : ℕ → List ℕ) (q n : ℕ) (before : AtHome q (s.links n).queue)
    (after : AtHome q (t.links n).queue) (local : Local q n s t) where
  other-IsQueue : (r : ℕ) → (r == q) ≡ false → (xs : List ℕ) → IsQueue s r xs → IsQueue t r xs
  other-IsQueue r ne xs is = record {
    chain = rw (local.heads r ne) (
        Seg-frame s.links t.links none (s.queues r).front xs (s.queues r).back none is.chain
          (λ z m. ground (arith, local.nodes z, is.owner z)));
    distinct = is.distinct;
    owner = λ p. ground (arith, is.owner p, local.queues p, local.nodes p);
    bounded = is.bounded;
    ranked = λ p m. ground (arith, is.ranked p m, is.owner p, local.levels p);
    numbered = rw (local.heads r ne) is.numbered;
  }

  pub IsQueues-local :
      IsQueues s lists → (xs : List ℕ) → IsQueue t q xs → IsQueues t (update lists q xs)
  IsQueues-local all xs is r small = elim (Bool-cases (r == q)) [
    | inl e ↦ rw e (rw ((==_iff r q).0 e) is)
    | inr e ↦ rw e (other-IsQueue r e (lists r) (all r small))
  ]
