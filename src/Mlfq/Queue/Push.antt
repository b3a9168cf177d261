-- ===== src/Mlfq/Queue/Push.antt =====
-- pushqueue of project1_scheduler/queue.c appends to the list that the queue stands for.
use ele3021_os.Prelude.{
  true, same_ptr, pos, ◌+ℤ◌, List, update, ◌∙◌, ℕ, ◌<◌, ◌≡◌, none, some, false, List, [], ◌∷◌, ◌++◌,
  arith, ◌==◌, lt→ltb, ==_refl, mem, mem-append, Distinct-snoc,
}
use ele3021_os.Outcome.{Returns, returns}
use ele3021_os.Mlfq.State.{nproc, nqueue, Queues}
use ele3021_os.Mlfq.Queue.{pushqueue}
use ele3021_os.Mlfq.Queue.Effect.{Local, Effect, IsQueues-local}
use ele3021_os.Mlfq.Queue.Chain.{IsQueue, IsQueues, Seg-last, Seg-snoc}

-- `t` is `s` but for a new node `n` behind the last node `y` of the queue.
pub IsQueue-snoc :
    (s t : Queues) (q n x : ℕ) (ys : List ℕ) (y : ℕ)
    → IsQueue s q (x ∷ ys)
    → (s.queues q).back ≡ some y
    → mem n (x ∷ ys) ≡ false
    → n < nproc
    → ((z : ℕ)
        → (z == n) ≡ false
        → t.links z ≡ update s.links y (record (s.links y) { next = some n }) z)
    → t.links n ≡ record { prev = some y; next = none; queue = some q; level = (s.queues q).level }
    → ((t.queues q).front ≡ (s.queues q).front)
      × ((t.queues q).back ≡ some n)
      × ((t.queues q).level ≡ (s.queues q).level)
    → IsQueue t q ((x ∷ ys) ++ n ∷ [])
IsQueue-snoc s t q n x ys y is e out small same new head = record {
  chain =
      Seg-snoc s.links t.links (s.queues q).front (t.queues q).front (t.queues q).back x ys y n
        is.distinct (rw e at is.chain) (λ z k. ground (arith, same z)) (ground arith) head.0 head.1;
  distinct = Distinct-snoc (x ∷ ys) n is.distinct out;
  owner = λ p. ground (arith, is.owner p, same p, mem-append p (x ∷ ys) (n ∷ []));
  bounded = λ p k. ground (arith, is.bounded p, mem-append p (x ∷ ys) (n ∷ []));
  ranked = λ p k. ground (arith, is.numbered, is.ranked p, same p, mem-append p (x ∷ ys) (n ∷ []));
  numbered = head.2 ∙ is.numbered;
}

module _ (s : Queues) (lists : ℕ → List ℕ) (q n : ℕ) (all : IsQueues s lists)
    (in_range : q < nqueue) (small : n < nproc) (loose : (s.links n).queue ≡ none) where
  abbrev Pushed : List ℕ → Queues → Type 0
  Pushed xs = Effect s lists q n (xs ++ n ∷ []) (some q) ((s.queues q).size +ℤ pos 1)

  push_nil : IsQueue s q [] → Returns (λ _. Pushed []) (pushqueue (some q) (some n) s)
  unfolding pushqueue
  push_nil is =
      simp (loose, lt→ltb q nqueue in_range, ==_refl q, is.chain.1)
        (returns (
          let there : IsQueue _ q (n ∷ []) = record {
            chain = ground arith;
            distinct = ground arith;
            owner = λ p. ground (arith, is.owner p);
            bounded = λ p m. ground arith;
            ranked = λ p m. ground (arith, is.numbered);
            numbered = ground (arith, is.numbered);
          } in
          let here : Local q n s _ = record {
            heads = λ r e. ground arith;
            nodes = λ p e o. ground arith;
            queues = λ p e. ground arith;
            levels = λ p e. ground arith;
          } in
          record {
            holds =
                IsQueues-local s _ lists q n (ground arith) (ground arith) here all (n ∷ []) there;
            moved = ground arith;
            counts = ground arith;
            local = here;
          }))

  push_cons :
      (x : ℕ) (ys : List ℕ)
      → IsQueue s q (x ∷ ys)
      → Returns (λ _. Pushed (x ∷ ys)) (pushqueue (some q) (some n) s)
  unfolding pushqueue
  push_cons x ys is =
      let (y, e, m) =
        Seg-last s.links none (s.queues q).front x ys (s.queues q).back none is.chain in
      let out : mem n (x ∷ ys) ≡ false = ground (arith, is.owner n) in
      let apart : (y == n) ≡ false = ground arith in
      let owned : same_ptr (s.links y).queue (some q) ≡ true = ground (arith, is.owner y) in
      simp (loose, lt→ltb q nqueue in_range, ==_refl q, ==_refl n, e, apart)
        (returns (
          let here : Local q n s _ = record {
            heads = λ r e. ground arith;
            nodes = λ p e o. ground arith;
            queues = λ p e. ground arith;
            levels = λ p e. ground arith;
          } in
          record {
            holds =
                IsQueues-local s _ lists q n (ground arith) (ground arith) here all
                  ((x ∷ ys) ++ n ∷ [])
                  (IsQueue-snoc s _ q n x ys y is e out small (λ z k. ground arith) (ground arith)
                    (ground arith));
            moved = ground arith;
            counts = ground arith;
            local = here;
          }))

  push_by :
      (xs : List ℕ) → IsQueue s q xs → Returns (λ _. Pushed xs) (pushqueue (some q) (some n) s)
  push_by [] is = push_nil is
  push_by (x ∷ ys) is = push_cons x ys is

  -- Pushing a process that is in no queue appends it to `q`, counts it, and leaves the rest alone.
  pub pushqueue-append : Returns (λ _. Pushed (lists q)) (pushqueue (some q) (some n) s)
  pushqueue-append = push_by (lists q) (all q in_range)
