-- ===== src/Mlfq/Queue/Front.antt =====
-- pushfrontqueue of project1_scheduler/queue.c puts a process before the list of the queue.
use ele3021_os.Outcome.{Returns, returns}
use ele3021_os.Mlfq.State.{nproc, nqueue, Queues}
use ele3021_os.Mlfq.Queue.{pushfrontqueue}
use ele3021_os.Mlfq.Queue.Effect.{Local, Effect, IsQueues-local}
use ele3021_os.Mlfq.Queue.Chain.{Seg, IsQueue, IsQueues, Seg-frame, Seg-last, Seg-set_prev}
use ele3021_os.Prelude.{
  true, same_ptr, ==_refl, ◌∙◌, arith, lt→ltb, update, [], some, ◌==◌, none, pos, false, ◌≡◌, ◌+ℤ◌,
  mem, ◌<◌, ◌∷◌, List, ℕ, ℤ,
}

-- `t` is `s` but for a new node `n` before the first node `x` of the queue.
IsQueue-cons :
    (s t : Queues) (q n x : ℕ) (ys : List ℕ)
    → IsQueue s q (x ∷ ys)
    → mem n (x ∷ ys) ≡ false
    → n < nproc
    → ((z : ℕ)
        → (z == n) ≡ false
        → t.links z ≡ update s.links x (record (s.links x) { prev = some n }) z)
    → t.links n ≡ record { prev = none; next = some x; queue = some q; level = (s.queues q).level }
    → ((t.queues q).front ≡ some n)
      × ((t.queues q).back ≡ (s.queues q).back)
      × ((t.queues q).level ≡ (s.queues q).level)
    → IsQueue t q (n ∷ x ∷ ys)
IsQueue-cons s t q n x ys is out small same new head =
    let moved =
      Seg-set_prev s.links none (s.queues q).front x ys (s.queues q).back none (some n) is.distinct
        is.chain in
    let tail : Seg t.links (some n) (s.queues q).front (x ∷ ys) (s.queues q).back none =
      Seg-frame (update s.links x (record (s.links x) { prev = some n })) t.links (some n)
        (s.queues q).front (x ∷ ys) (s.queues q).back none moved (λ z k. ground (arith, same z)) in
    let ahead : (t.links n).next ≡ (s.queues q).front = ground arith in
    record {
      chain = rw (head.1, ahead) (head.0, ground arith, tail);
      distinct = (out, is.distinct);
      owner = λ p. ground (arith, is.owner p, same p);
      bounded = λ p k. ground (arith, is.bounded p);
      ranked = λ p k. ground (arith, is.numbered, is.ranked p, same p);
      numbered = head.2 ∙ is.numbered;
    }

-- `size` after the call: an empty queue is not counted up.
abbrev pub front_size : List ℕ → ℤ → ℤ
front_size [] size = size
front_size (x ∷ xs) size = size +ℤ pos 1

module _ (s : Queues) (lists : ℕ → List ℕ) (q n : ℕ) (all : IsQueues s lists)
    (in_range : q < nqueue) (small : n < nproc) (loose : (s.links n).queue ≡ none) where
  abbrev Pushed : List ℕ → Queues → Type 0
  Pushed xs = Effect s lists q n (n ∷ xs) (some q) (front_size xs (s.queues q).size)

  front_nil : IsQueue s q [] → Returns (λ _. Pushed []) (pushfrontqueue (some q) (some n) s)
  unfolding pushfrontqueue
  front_nil is =
      simp (loose, lt→ltb q nqueue in_range, ==_refl q, is.chain.0)
        (returns (
          let there : IsQueue _ q (n ∷ []) = record {
            chain = ground arith;
            distinct = ground arith;
            owner = λ p. ground (arith, is.owner p);
            bounded = λ p m. ground arith;
            ranked = λ p m. ground (arith, is.numbered);
            numbered = ground (arith, is.numbered);
          } in
          let here : Local q n s _ = record {
            heads = λ r e. ground arith;
            nodes = λ p e o. ground arith;
            queues = λ p e. ground arith;
            levels = λ p e. ground arith;
          } in
          record {
            holds =
                IsQueues-local s _ lists q n (ground arith) (ground arith) here all (n ∷ []) there;
            moved = ground arith;
            counts = ground arith;
            local = here;
          }))

  -- The links of the result, whether the queue had one node or more.
  finish :
      (t : Queues) (x : ℕ) (ys : List ℕ)
      → IsQueue s q (x ∷ ys)
      → ((z : ℕ)
          → (z == n) ≡ false
          → t.links z ≡ update s.links x (record (s.links x) { prev = some n }) z)
      → t.links n
        ≡ record { prev = none; next = some x; queue = some q; level = (s.queues q).level }
      → ((r : ℕ) → (r == q) ≡ false → t.queues r ≡ s.queues r)
      → t.queues q ≡ record {
        front = some n;
        back = (s.queues q).back;
        level = (s.queues q).level;
        size = (s.queues q).size +ℤ pos 1;
      }
      → Pushed (x ∷ ys) t
  finish t x ys is same new heads head =
      let out : mem n (x ∷ ys) ≡ false = ground (arith, is.owner n) in
      let owned : same_ptr (s.links x).queue (some q) ≡ true = ground (arith, is.owner x) in
      let here : Local q n s t = record {
        heads = heads;
        nodes = λ p e o. ground (arith, same p);
        queues = λ p e. ground (arith, same p);
        levels = λ p e. ground (arith, same p);
      } in
      record {
        holds =
            IsQueues-local s t lists q n (ground arith) (ground arith) here all (n ∷ x ∷ ys)
              (IsQueue-cons s t q n x ys is out small same new (ground arith));
        moved = ground arith;
        counts = ground arith;
        local = here;
      }

  front_one :
      (x : ℕ)
      → IsQueue s q (x ∷ [])
      → Returns (λ _. Pushed (x ∷ [])) (pushfrontqueue (some q) (some n) s)
  unfolding pushfrontqueue
  front_one x is =
      let out : mem n (x ∷ []) ≡ false = ground (arith, is.owner n) in
      let apart : (x == n) ≡ false = ground arith in
      let apart' : (n == x) ≡ false = ground arith in
      let back : (s.queues q).back ≡ some x = is.chain.2.1 in
      let front : (s.queues q).front ≡ some x = is.chain.0 in
      simp (loose, lt→ltb q nqueue in_range, ==_refl q, front, back, ==_refl x, apart, apart')
        (returns (
          finish _ x [] is (λ z k. ground arith) (ground arith) (λ r e. ground arith)
            (ground arith)))

  front_more :
      (x y : ℕ) (ys : List ℕ)
      → IsQueue s q (x ∷ y ∷ ys)
      → Returns (λ _. Pushed (x ∷ y ∷ ys)) (pushfrontqueue (some q) (some n) s)
  unfolding pushfrontqueue
  front_more x y ys is =
      let (b, back, m) =
        Seg-last s.links (some x) (s.links x).next y ys (s.queues q).back none is.chain.2 in
      let out : mem n (x ∷ y ∷ ys) ≡ false = ground (arith, is.owner n) in
      let apart : (x == n) ≡ false = ground arith in
      let ends : (x == b) ≡ false = ground arith in
      let front : (s.queues q).front ≡ some x = is.chain.0 in
      simp (loose, lt→ltb q nqueue in_range, ==_refl q, front, back, ends, apart, ==_refl n)
        (returns (
          finish _ x (y ∷ ys) is (λ z k. ground arith) (ground arith) (λ r e. ground arith)
            (ground arith)))

  front_by :
      (xs : List ℕ) → IsQueue s q xs → Returns (λ _. Pushed xs) (pushfrontqueue (some q) (some n) s)
  front_by [] is = front_nil is
  front_by (x ∷ []) is = front_one x is
  front_by (x ∷ y ∷ ys) is = front_more x y ys is

  -- A process that is in no queue becomes the first of `q`.
  pub pushfrontqueue-cons : Returns (λ _. Pushed (lists q)) (pushfrontqueue (some q) (some n) s)
  pushfrontqueue-cons = front_by (lists q) (all q in_range)
