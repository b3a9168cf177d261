-- ===== src/Mlfq/Choose/Spec.antt =====
-- Which process the multi-level feedback queue of project1_scheduler should run, told from the
-- lists that the queues stand for, and what this choice means.
use ele3021_os.Prelude.{
  zero, refl, suc, subst, [], ltb, same_ptr, inr, inl, Bool-cases, ◌≤◌, ltb_ℤ, arith, ◌&&◌,
  if◌then◌else◌, true, false, ◌⊎◌, mem, pos, ◌∷◌, some, ◌<◌, ◌≡◌, none, ℤ, Bool, Option, List, ℕ,
}
use ele3021_os.Mlfq.State.{nproc, nqueue}
use ele3021_os.Mlfq.Kernel.{Kernel, runnable, same_state, queue_of}
use ele3021_os.Mlfq.Invariant.{IsScheduled}

abbrev pub is_ready : Kernel → ℕ → Bool
is_ready s p = same_state (s.procs p).state runnable

abbrev pub priority_of : Kernel → ℕ → ℤ
priority_of s p = (s.procs p).priority

unfoldable pub find_ready : Kernel → List ℕ → Option ℕ
find_ready s [] = none
find_ready s (x ∷ xs) = if is_ready s x then some x else find_ready s xs

unfoldable pub best_of : Kernel → List ℕ → Option ℕ → ℤ → Option ℕ
best_of s [] best bound = best
best_of s (x ∷ xs) best bound =
    let better = is_ready s x && ltb_ℤ (priority_of s x) bound in
    best_of s xs (if better then some x else best) (if better then priority_of s x else bound)

abbrev or_else : Option ℕ → Option ℕ → Option ℕ
or_else none b = b
or_else (some a) b = some a

unfoldable pub chosen : Kernel → (ℕ → List ℕ) → Option ℕ
chosen s lists =
    or_else (find_ready s (lists 0))
      (or_else (find_ready s (lists 1)) (best_of s (lists 2) none (pos 4)))

find_ready-some :
    (s : Kernel) (xs : List ℕ) (p : ℕ)
    → find_ready s xs ≡ some p
    → (mem p xs ≡ true) × (is_ready s p ≡ true)
unfolding find_ready
find_ready-some s [] p h = cc
find_ready-some s (x ∷ xs) p h = ground (arith, find_ready-some s xs p)

find_ready-none :
    (s : Kernel) (xs : List ℕ) (x : ℕ)
    → find_ready s xs ≡ none
    → mem x xs ≡ true
    → is_ready s x ≡ false
unfolding find_ready
find_ready-none s [] x h m = cc
find_ready-none s (y ∷ xs) x h m = ground (arith, find_ready-none s xs x)

best_of-none :
    (s : Kernel) (xs : List ℕ) (best : Option ℕ) (bound : ℤ) (x : ℕ)
    → best_of s xs best bound ≡ none
    → (best ≡ none)
      × (mem x xs ≡ true → is_ready s x ≡ true → ltb_ℤ (priority_of s x) bound ≡ false)
unfolding best_of
best_of-none s [] best bound x h = (h, λ m. cc)
best_of-none s (y ∷ xs) best bound x h =
    elim (Bool-cases (is_ready s y && ltb_ℤ (priority_of s y) bound)) [
      | inl e ↦
          let ih = best_of-none s xs (some y) (priority_of s y) x (rw e at h) in
          absurd (ground arith)
      | inr e ↦
          let ih = best_of-none s xs best bound x (rw e at h) in (ih.0, λ m r. ground (arith, ih.1))
    ]

-- The best is the one handed in, or one of the list that beats the bound; nothing beats it.
best_of-some :
    (s : Kernel) (xs : List ℕ) (best : Option ℕ) (bound : ℤ) (p : ℕ)
    → ((b : ℕ) → best ≡ some b → priority_of s b ≡ bound)
    → best_of s xs best bound ≡ some p
    → ((best ≡ some p) ⊎ ((mem p xs ≡ true) × (is_ready s p ≡ true)))
      × (ltb_ℤ bound (priority_of s p) ≡ false)
      × ((x : ℕ)
          → mem x xs ≡ true
          → is_ready s x ≡ true
          → ltb_ℤ (priority_of s x) (priority_of s p) ≡ false)
unfolding best_of
best_of-some s [] best bound p ranked h = (inl h, ground (arith, ranked p h), λ x m r. cc)
best_of-some s (y ∷ xs) best bound p ranked h =
    elim (Bool-cases (is_ready s y && ltb_ℤ (priority_of s y) bound)) [
      | inl e ↦
          let ih =
            best_of-some s xs (some y) (priority_of s y) p (λ b k. ground arith) (rw e at h) in
          (ground (arith, ih.0), ground (arith, ih.1), λ x m r. ground (arith, ih.1, ih.2 x))
      | inr e ↦
          let ih = best_of-some s xs best bound p ranked (rw e at h) in
          (ground (arith, ih.0), ih.1, λ x m r. ground (arith, ih.1, ih.2 x))
    ]

-- What the choice promises: a ready process of the first queue that has one, in the last queue with
-- the least priority value among the ready; and none only if no process is ready.
abbrev pub Chosen : Kernel → Option ℕ → Type 0
Chosen s none = (x : ℕ) → x < nproc → is_ready s x ≡ false
Chosen s (some p) =
    (p < nproc)
    × (is_ready s p ≡ true)
    × ((q : ℕ) × (q < nqueue)
        × (queue_of s p ≡ some q)
        × ((x r : ℕ) → x < nproc → is_ready s x ≡ true → queue_of s x ≡ some r → q ≤ r)
        × (q ≡ 2
            → (x : ℕ) → x < nproc
            → is_ready s x ≡ true
            → ltb_ℤ (priority_of s x) (priority_of s p) ≡ false))

-- Ready processes have a priority of at most 3.
abbrev pub InRange : Kernel → Type 0
InRange s = (x : ℕ) → x < nproc → is_ready s x ≡ true → ltb_ℤ (priority_of s x) (pos 4) ≡ true

-- A statement about the three queues, one by one.
pub by_queue {ℓ} : (P : ℕ → Type ℓ) → P 0 → P 1 → P 2 → (q : ℕ) → q < nqueue → P q
by_queue P a b c zero h = a
by_queue P a b c (suc zero) h = b
by_queue P a b c (suc (suc zero)) h = c
by_queue P a b c (suc (suc (suc q))) h = absurd (omega arith)

module _ (s : Kernel) (lists : ℕ → List ℕ) (inv : IsScheduled s lists) (ranks : InRange s) where
  owner_of : (q x : ℕ) → q < nqueue → same_ptr (queue_of s x) (some q) ≡ mem x (lists q)
  owner_of q x lt = let is = inv.queued q lt in is.owner x

  -- A ready process stands in one of the lists.
  place_of :
      (x : ℕ)
      → x < nproc
      → is_ready s x ≡ true
      → (q : ℕ) × (q < nqueue) × (queue_of s x ≡ some q) × (mem x (lists q) ≡ true)
  place_of x lt ready =
      let (q, in_range, home) = inv.live x lt (ground arith) in
      (q, in_range, home, ground (arith, owner_of q x in_range))

  -- The first queue with a ready process decides.
  in_queue :
      (q p : ℕ)
      → q < nqueue
      → mem p (lists q) ≡ true
      → is_ready s p ≡ true
      → ((x r : ℕ) → r < q → mem x (lists r) ≡ true → is_ready s x ≡ false)
      → (q ≡ 2
          → (x : ℕ) → mem x (lists 2) ≡ true
          → is_ready s x ≡ true
          → ltb_ℤ (priority_of s x) (priority_of s p) ≡ false)
      → Chosen s (some p)
  in_queue q p lt m ready before least = (
    (inv.queued q lt).bounded p m,
    ready,
    (
      q,
      lt,
      ground (arith, owner_of q p lt),
      (λ x r small k home.
          let (r', lt', home', m') = place_of x small k in
          let same : r ≡ r' = ground arith in
          elim (Bool-cases (ltb r q)) [
            | inl e ↦ absurd (ground (arith, before x r, owner_of r x))
            | inr e ↦ ground arith
          ]),
      (λ e x small k.
          let (r', lt', home', m') = place_of x small k in
          elim (Bool-cases (ltb r' 2)) [
            | inl low ↦ absurd (ground (arith, before x r'))
            | inr high ↦
                let two : r' ≡ 2 = ground arith in
                least e x (subst (λ z. mem x (lists z) ≡ true) two m') k
          ]),
    ),
  )

  none_ready :
      find_ready s (lists 0) ≡ none
      → find_ready s (lists 1) ≡ none
      → best_of s (lists 2) none (pos 4) ≡ none
      → Chosen s none
  none_ready e0 e1 e2 x lt = elim (Bool-cases (is_ready s x)) [
    | inr e ↦ e
    | inl ready ↦
        let (q, in_range, home, m) = place_of x lt ready in
        let out : mem x (lists q) ≡ true → ⊥ =
          by_queue (λ r. mem x (lists r) ≡ true → ⊥) (λ k. cc (find_ready-none s (lists 0) x e0 k))
            (λ k. cc (find_ready-none s (lists 1) x e1 k))
            (λ k. cc ((best_of-none s (lists 2) none (pos 4) x e2).1 k ready, ranks x lt ready)) q
            in_range in
        absurd (out m)
  ]

  third :
      find_ready s (lists 0) ≡ none
      → find_ready s (lists 1) ≡ none
      → (o : Option ℕ) → best_of s (lists 2) none (pos 4) ≡ o
      → Chosen s o
  third e0 e1 none e = none_ready e0 e1 e
  third e0 e1 (some p) e =
      let (found, bound, least) = best_of-some s (lists 2) none (pos 4) p (λ b. cc) e in
      in_queue 2 p (omega arith) (ground (arith, found)) (ground (arith, found))
        (λ x r lt.
          by_queue (λ k. k < 2 → mem x (lists k) ≡ true → is_ready s x ≡ false)
            (λ _. find_ready-none s (lists 0) x e0) (λ _. find_ready-none s (lists 1) x e1)
            (λ h. absurd (omega arith)) r (omega arith) lt)
        (λ _. least)

  second :
      find_ready s (lists 0) ≡ none
      → (o : Option ℕ) → find_ready s (lists 1) ≡ o
      → Chosen s (or_else o (best_of s (lists 2) none (pos 4)))
  second e0 none e1 = third e0 e1 (best_of s (lists 2) none (pos 4)) refl
  second e0 (some p) e1 =
      let (m, ready) = find_ready-some s (lists 1) p e1 in
      in_queue 1 p (omega arith) m ready
        (λ x r lt.
          by_queue (λ k. k < 1 → mem x (lists k) ≡ true → is_ready s x ≡ false)
            (λ _. find_ready-none s (lists 0) x e0) (λ h. absurd (omega arith))
            (λ h. absurd (omega arith)) r (omega arith) lt)
        (λ e. absurd (omega arith))

  first :
      (o : Option ℕ)
      → find_ready s (lists 0) ≡ o
      → Chosen s (or_else o (or_else (find_ready s (lists 1)) (best_of s (lists 2) none (pos 4))))
  first none e0 = second e0 (find_ready s (lists 1)) refl
  first (some p) e0 =
      let (m, ready) = find_ready-some s (lists 0) p e0 in
      in_queue 0 p (omega arith) m ready (λ x r lt. absurd (omega arith))
        (λ e. absurd (omega arith))

  pub chosen-Chosen : Chosen s (chosen s lists)
  unfolding chosen
  chosen-Chosen = first (find_ready s (lists 0)) refl
