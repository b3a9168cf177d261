-- ===== src/Mlfq/Queue/Erase.antt =====
-- erasequeue of project1_scheduler/queue.c takes a process out of the list its queue stands for.
use mathlib.Core.List.{append-nil}
use ele3021_os.Prelude.{
  update, mem-append, Distinct-append, mem-split, ◌++◌, ◌==◌, ap, ℕ, zero, suc, ◌+◌, ◌<◌, ◌≡◌, ◌∙◌,
  pos, ◌-ℤ◌, Option, none, some, true, false, List, [], ◌∷◌, arith, mem, erase, Distinct, ==_refl,
  lt→ltb, same_ptr, length, length-le_of_bound, mem-erase, Distinct-erase, subst,
}
use ele3021_os.Outcome.{ok, Returns, returns}
use ele3021_os.Mlfq.State.{nproc, nqueue, Queues}
use ele3021_os.Mlfq.Queue.{walk, erasequeue}
use ele3021_os.Mlfq.Queue.Effect.{Local, Effect, IsQueues-local}
use ele3021_os.Mlfq.Queue.Chain.{SameLinks, Seg-split, Seg, IsChain, IsQueue, IsQueues, Seg-last}
use ele3021_os.Mlfq.Queue.Drop.{Seg-drop_middle, Seg-drop_back, Seg-drop_front}

-- Along a chain the loop finds exactly the members, with more rounds than there are nodes.
walk-eq-mem :
    (s : Queues) (p fuel : ℕ) (prev cur : Option ℕ) (xs : List ℕ) (last : Option ℕ)
    → Seg s.links prev cur xs last none
    → length xs < fuel
    → walk fuel cur p s ≡ ok (mem p xs) s
unfolding walk
walk-eq-mem s p zero prev cur xs last h enough = absurd (omega arith)
walk-eq-mem s p (suc fuel) prev cur [] last h enough = rw h.0
walk-eq-mem s p (suc fuel) prev cur (x ∷ xs) last h enough =
    rw h.0
      (ground (arith, walk-eq-mem s p fuel (some x) (s.links x).next xs last h.2 (omega arith)))

-- `t` is `s` with the pointers of the queue rebuilt without `p`.
IsQueue-erase :
    (s t : Queues) (q p : ℕ) (xs : List ℕ)
    → IsQueue s q xs
    → Seg t.links none (t.queues q).front (erase p xs) (t.queues q).back none
    → Local q p s t
    → (t.links p).queue ≡ none
    → (t.queues q).level ≡ (s.queues q).level
    → IsQueue t q (erase p xs)
IsQueue-erase s t q p xs is chain local gone level = record {
  chain = chain;
  distinct = Distinct-erase p xs is.distinct;
  owner = λ z. ground (arith, is.owner z, local.queues z, mem-erase z p xs is.distinct);
  bounded = λ z k. ground (arith, is.bounded z, mem-erase z p xs is.distinct);
  ranked = λ z k. ground (arith, is.ranked z, local.levels z, mem-erase z p xs is.distinct);
  numbered = level ∙ is.numbered;
}

module _ (s : Queues) (lists : ℕ → List ℕ) (q p : ℕ) (all : IsQueues s lists)
    (in_range : q < nqueue) (member : (s.links p).queue ≡ some q) where
  abbrev Erased : Queues → Type 0
  Erased = Effect s lists q p (erase p (lists q)) none ((s.queues q).size -ℤ pos 1)

  is : IsQueue s q (lists q)
  is = all q in_range

  found : walk (nproc + 1) (s.queues q).front p s ≡ ok true s
  found =
      let here : mem p (lists q) ≡ true = ground (arith, is.owner p) in
      let few = length-le_of_bound nproc (lists q) is.distinct is.bounded in
      walk-eq-mem s p (nproc + 1) none (s.queues q).front (lists q) (s.queues q).back is.chain
        (omega arith)
      ∙ ap (λ b. ok b s) here

  -- The effect, once the links of the result are known to be rebuilt as `left`, without `p`.
  effect :
      (t : Queues) (left : List ℕ)
      → erase p (lists q) ≡ left
      → IsChain t q left
      → Local q p s t
      → ((t.links p).queue ≡ none)
        × ((t.queues q).level ≡ (s.queues q).level)
        × ((t.queues q).size ≡ (s.queues q).size -ℤ pos 1)
      → Erased t
  effect t left e chain local rest = record {
    holds =
        IsQueues-local s t lists q p (ground arith) (ground arith) local all (erase p (lists q))
          (IsQueue-erase s t q p (lists q) is (rw e chain.seg) local rest.0 rest.1);
    moved = rest.0;
    counts = rest.2;
    local = local;
  }

  Local-by :
      (t : Queues)
      → ((r : ℕ) → (r == q) ≡ false → t.queues r ≡ s.queues r)
      → ((z : ℕ)
          → (z == p) ≡ false
          → same_ptr (s.links z).queue (some q) ≡ false
          → t.links z ≡ s.links z)
      → ((z : ℕ)
          → (z == p) ≡ false
          → ((t.links z).queue ≡ (s.links z).queue) × ((t.links z).level ≡ (s.links z).level))
      → Local q p s t
  Local-by t heads nodes stays = record {
    heads = heads;
    nodes = nodes;
    queues = λ z e. (stays z e).0;
    levels = λ z e. (stays z e).1;
  }

  Chain : List ℕ → Type 0
  Chain l = Seg s.links none (s.queues q).front l (s.queues q).back none

  Chain-of : (l : List ℕ) → lists q ≡ l → Chain l
  unfolding Chain
  Chain-of l e =
      subst (λ k. Seg s.links none (s.queues q).front k (s.queues q).back none) e is.chain

  owner_of : (l : List ℕ) → lists q ≡ l → (z : ℕ) → same_ptr (s.links z).queue (some q) ≡ mem z l
  owner_of l e z = is.owner z ∙ ap (mem z) e

  erase_only :
      lists q ≡ p ∷ []
      → erase p (lists q) ≡ []
      → Returns (λ _. Erased) (erasequeue (some q) (some p) s)
  unfolding erasequeue Chain
  erase_only e left =
      let chain = Chain-of (p ∷ []) e in
      simp (member, lt→ltb q nqueue in_range, ==_refl q, found)
        (simp (lt→ltb q nqueue in_range, ==_refl q, ==_refl p, chain.0, chain.2.1)
          (returns (
            effect _ [] left (record { seg = ground arith })
              (Local-by _ (λ r e. ground arith) (λ z e o. ground arith) (λ z e. ground arith))
              (ground arith))))

  erase_first :
      (z : ℕ) (zs : List ℕ)
      → lists q ≡ p ∷ z ∷ zs
      → erase p (lists q) ≡ z ∷ zs
      → Returns (λ _. Erased) (erasequeue (some q) (some p) s)
  unfolding erasequeue Chain
  erase_first z zs e left =
      let chain = Chain-of (p ∷ z ∷ zs) e in
      let distinct = subst Distinct e is.distinct in
      let (b, last, m) =
        Seg-last s.links (some p) (s.links p).next z zs (s.queues q).back none chain.2 in
      let apart : (p == b) ≡ false = ground arith in
      let owned : same_ptr (s.links z).queue (some q) ≡ true =
        ground (arith, owner_of (p ∷ z ∷ zs) e z) in
      simp (member, lt→ltb q nqueue in_range, ==_refl q, found)
        (simp (lt→ltb q nqueue in_range, ==_refl q, ==_refl p, chain.0, last, apart, chain.2.0)
          (returns (
            effect _ (z ∷ zs) left
              (Seg-drop_front s _ q p z zs distinct chain (λ x k. ground arith) (ground arith))
              (Local-by _ (λ r e. ground arith) (λ z e o. ground arith) (λ z e. ground arith))
              (ground arith))))

  -- The runs at a last node `p` behind `w`, and at a node between `w` and `z`.
  run_last :
      (y w : ℕ) (left : List ℕ)
      → erase p (lists q) ≡ left
      → (s.queues q).front ≡ some y
      → (s.queues q).back ≡ some p
      → (s.links p).prev ≡ some w
      → (y == p) ≡ false
      → (w == p) ≡ false
      → (p == w) ≡ false
      → same_ptr (s.links w).queue (some q) ≡ true
      → ((t : Queues)
          → ((x : ℕ)
              → (x == p) ≡ false
              → SameLinks (update s.links w (record (s.links w) { next = none })) t.links x)
          → ((t.queues q).front ≡ (s.queues q).front) × ((t.queues q).back ≡ some w)
          → IsChain t q left)
      → Returns (λ _. Erased) (erasequeue (some q) (some p) s)
  unfolding erasequeue
  run_last y w left gone front back before yp wp pw owned rebuilt =
      simp (member, lt→ltb q nqueue in_range, ==_refl q, found)
        (simp (front, back)
          (simp (yp, ==_refl p, before, ==_refl q, lt→ltb q nqueue in_range)
            (returns (
              effect _ left gone (rebuilt _ (λ x k. ground arith) (ground arith))
                (Local-by _ (λ r e. ground arith) (λ z e o. ground arith) (λ z e. ground arith))
                (ground arith)))))

  erase_last :
      (y : ℕ) (ys : List ℕ)
      → lists q ≡ (y ∷ ys) ++ p ∷ []
      → erase p (lists q) ≡ y ∷ ys
      → Returns (λ _. Erased) (erasequeue (some q) (some p) s)
  unfolding Chain
  erase_last y ys e left =
      let chain = Chain-of ((y ∷ ys) ++ p ∷ []) e in
      let distinct = subst Distinct e is.distinct in
      let (mid, next, front, rest) =
        Seg-split s.links none (s.queues q).front (y ∷ ys) (p ∷ []) (s.queues q).back none chain in
      let (w, e', m) = Seg-last s.links none (s.queues q).front y ys mid next front in
      let (dy, dz, others) = Distinct-append (y ∷ ys) (p ∷ []) distinct in
      let before : (s.links p).prev ≡ some w = rest.1 ∙ e' in
      let w_apart : (w == p) ≡ false = ground (arith, others w) in
      let owned : same_ptr (s.links w).queue (some q) ≡ true =
        ground (arith, owner_of ((y ∷ ys) ++ p ∷ []) e w, mem-append w (y ∷ ys) (p ∷ [])) in
      run_last y w (y ∷ ys) left chain.0 rest.2.1 before (ground (arith, others y)) w_apart
        (ground arith) owned
        (λ t same ends.
          Seg-drop_back s t q p y w ys distinct chain before
            (λ x k. same x (ground (arith, others x))) ends)

  run_middle :
      (y w z b : ℕ) (left : List ℕ)
      → erase p (lists q) ≡ left
      → (s.queues q).front ≡ some y
      → (s.queues q).back ≡ some b
      → (s.links p).prev ≡ some w
      → (s.links p).next ≡ some z
      → (y == b) ≡ false
      → (y == p) ≡ false
      → (b == p) ≡ false
      → (w == p) ≡ false
      → (p == w) ≡ false
      → (z == p) ≡ false
      → same_ptr (s.links w).queue (some q) ≡ true
      → same_ptr (s.links z).queue (some q) ≡ true
      → ((t : Queues)
          → ((x : ℕ)
              → (x == p) ≡ false
              → (x == z) ≡ false
              → SameLinks (update s.links w (record (s.links w) { next = some z })) t.links x)
          → ((x : ℕ)
              → (x == p) ≡ false
              → (x == w) ≡ false
              → SameLinks (update s.links z (record (s.links z) { prev = some w })) t.links x)
          → ((t.queues q).front ≡ (s.queues q).front) × ((t.queues q).back ≡ (s.queues q).back)
          → IsChain t q left)
      → Returns (λ _. Erased) (erasequeue (some q) (some p) s)
  unfolding erasequeue
  run_middle y w z b left gone front back before after yb yp bp wp pw zp owned_w owned_z rebuilt =
      simp (member, lt→ltb q nqueue in_range, ==_refl q, found)
        (simp (front, back)
          (simp (yb, yp, bp, ==_refl p, before, after)
            (simp (==_refl p, pw)
              (returns (
                effect _ left gone
                  (rebuilt _ (λ x k l. ground arith) (λ x k l. ground arith) (ground arith))
                  (Local-by _ (λ r e. ground arith) (λ x e o. ground arith) (λ x e. ground arith))
                  (ground arith))))))

  erase_middle :
      (y : ℕ) (ys : List ℕ) (z : ℕ) (zs : List ℕ)
      → lists q ≡ (y ∷ ys) ++ p ∷ z ∷ zs
      → erase p (lists q) ≡ (y ∷ ys) ++ z ∷ zs
      → Returns (λ _. Erased) (erasequeue (some q) (some p) s)
  unfolding Chain
  erase_middle y ys z zs e left =
      let l : List ℕ = (y ∷ ys) ++ p ∷ z ∷ zs in
      let chain = Chain-of l e in
      let distinct = subst Distinct e is.distinct in
      let (mid, next, front, rest) =
        Seg-split s.links none (s.queues q).front (y ∷ ys) (p ∷ z ∷ zs) (s.queues q).back none
          chain in
      let (w, e', m) = Seg-last s.links none (s.queues q).front y ys mid next front in
      let (b, last, mb) =
        Seg-last s.links (some p) (s.links p).next z zs (s.queues q).back none rest.2 in
      let (dy, dz, others) = Distinct-append (y ∷ ys) (p ∷ z ∷ zs) distinct in
      let before : (s.links p).prev ≡ some w = rest.1 ∙ e' in
      let w_apart : (w == p) ≡ false = ground (arith, others w) in
      let w_owned : same_ptr (s.links w).queue (some q) ≡ true =
        ground (arith, owner_of l e w, mem-append w (y ∷ ys) (p ∷ z ∷ zs)) in
      let z_owned : same_ptr (s.links z).queue (some q) ≡ true =
        ground (arith, owner_of l e z, mem-append z (y ∷ ys) (p ∷ z ∷ zs)) in
      run_middle y w z b ((y ∷ ys) ++ z ∷ zs) left chain.0 last before rest.2.0
        (ground (arith, others y)) (ground (arith, others y)) (ground arith) w_apart (ground arith)
        (ground arith) w_owned z_owned
        (λ t front_same back_same ends.
          Seg-drop_middle s t q p y w z ys zs distinct chain before
            (λ x k. front_same x (ground (arith, others x)) (ground (arith, others x)))
            (λ x k. back_same x (ground (arith, dz)) (ground (arith, others w))) ends)

  erase_at :
      (ys zs : List ℕ)
      → lists q ≡ ys ++ p ∷ zs
      → erase p (lists q) ≡ ys ++ zs
      → Returns (λ _. Erased) (erasequeue (some q) (some p) s)
  erase_at [] [] e left = erase_only e left
  erase_at [] (z ∷ zs) e left = erase_first z zs e left
  erase_at (y ∷ ys) [] e left = erase_last y ys e (left ∙ append-nil (y ∷ ys))
  erase_at (y ∷ ys) (z ∷ zs) e left = erase_middle y ys z zs e left

  -- Erasing a member of a queue, wherever it stands, leaves the others in order.
  pub erasequeue-erase : Returns (λ _. Erased) (erasequeue (some q) (some p) s)
  erasequeue-erase =
      let (ys, zs, e, left) = mem-split p (lists q) (ground (arith, is.owner p)) in
      erase_at ys zs e left
