-- ===== src/Mlfq/Queue/Chain.antt =====
-- What the pointers of one queue of project1_scheduler/queue.c stand for: a list of table indices.
use ele3021_os.Prelude.{
  ℕ, ◌<◌, ◌≡◌, refl, ◌∙◌, pos, Option, none, some, true, false, List, [], ◌∷◌, ◌++◌, arith, ◌==◌,
  same_ptr, ==_refl, mem, Distinct, update,
}
use ele3021_os.Mlfq.State.{nproc, nqueue, Link, Queues}

-- From `cur`, with `prev` before it, the next pointers lead through `xs` to `stop`; the prev
-- pointers lead back, and `last` is the last node, or `prev` if there is none.
abbrev pub Seg : (ℕ → Link) → (prev cur : Option ℕ) → List ℕ → (last stop : Option ℕ) → Type 0
Seg f prev cur [] last stop = (cur ≡ stop) × (last ≡ prev)
Seg f prev cur (x ∷ xs) last stop =
    (cur ≡ some x) × ((f x).prev ≡ prev) × Seg f (some x) (f x).next xs last stop

-- The pointers of the queue `q`, by the name of the state.
pub record IsChain (s : Queues) (q : ℕ) (xs : List ℕ) : Type 0 where
  pub seg : Seg s.links none (s.queues q).front xs (s.queues q).back none

-- The queue `q` of `s` holds exactly `xs`, front to back.
pub record IsQueue (s : Queues) (q : ℕ) (xs : List ℕ) : Type 0 where
  pub chain : Seg s.links none (s.queues q).front xs (s.queues q).back none
  pub distinct : Distinct xs
  pub owner : (p : ℕ) → same_ptr (s.links p).queue (some q) ≡ mem p xs
  pub bounded : (p : ℕ) → mem p xs ≡ true → p < nproc
  pub ranked : (p : ℕ) → mem p xs ≡ true → (s.links p).level ≡ pos q
  pub numbered : (s.queues q).level ≡ pos q

-- The three queues hold the lists that `lists` gives.
abbrev pub IsQueues : Queues → (ℕ → List ℕ) → Type 0
IsQueues s lists = (q : ℕ) → q < nqueue → IsQueue s q (lists q)

abbrev pub SameLinks : (f g : ℕ → Link) → ℕ → Type 0
SameLinks f g x = ((g x).prev ≡ (f x).prev) × ((g x).next ≡ (f x).next)

pub Seg-frame :
    (f g : ℕ → Link) (prev cur : Option ℕ) (xs : List ℕ) (last stop : Option ℕ)
    → Seg f prev cur xs last stop
    → ((x : ℕ) → mem x xs ≡ true → SameLinks f g x)
    → Seg g prev cur xs last stop
Seg-frame f g prev cur [] last stop h same = h
Seg-frame f g prev cur (x ∷ xs) last stop h same =
    let here : SameLinks f g x = same x (ground arith) in
    (
      h.0,
      here.0 ∙ h.1,
      rw here.1 (Seg-frame f g (some x) (f x).next xs last stop h.2 (λ y m. same y (ground arith))),
    )

pub Seg-append :
    (f : ℕ → Link) (prev cur : Option ℕ) (xs : List ℕ) (mid next : Option ℕ) (ys : List ℕ)
    (last stop : Option ℕ)
    → Seg f prev cur xs mid next
    → Seg f mid next ys last stop
    → Seg f prev cur (xs ++ ys) last stop
Seg-append f prev cur [] mid next ys last stop h k = rw (h.0, ← h.1) k
Seg-append f prev cur (x ∷ xs) mid next ys last stop h k =
    (h.0, h.1, Seg-append f (some x) (f x).next xs mid next ys last stop h.2 k)

pub Seg-split :
    (f : ℕ → Link) (prev cur : Option ℕ) (xs ys : List ℕ) (last stop : Option ℕ)
    → Seg f prev cur (xs ++ ys) last stop
    → (mid : Option ℕ) × (next : Option ℕ) × Seg f prev cur xs mid next
      × Seg f mid next ys last stop
Seg-split f prev cur [] ys last stop h = (prev, cur, (refl, refl), h)
Seg-split f prev cur (x ∷ xs) ys last stop h =
    let (mid, next, front, back) = Seg-split f (some x) (f x).next xs ys last stop h.2 in
    (mid, next, (h.0, h.1, front), back)

-- The last node of a segment that is not empty lies in it.
pub Seg-last :
    (f : ℕ → Link) (prev cur : Option ℕ) (x : ℕ) (xs : List ℕ) (last stop : Option ℕ)
    → Seg f prev cur (x ∷ xs) last stop
    → (y : ℕ) × (last ≡ some y) × (mem y (x ∷ xs) ≡ true)
Seg-last f prev cur x [] last stop h = (x, h.2.1, ground arith)
Seg-last f prev cur x (z ∷ xs) last stop h =
    let (y, e, m) = Seg-last f (some x) (f x).next z xs last stop h.2 in (y, e, ground arith)

-- Writing the next pointer of the last node moves the end of the segment.
pub Seg-set_next :
    (f : ℕ → Link) (prev cur : Option ℕ) (x : ℕ) (xs : List ℕ) (y : ℕ) (stop v : Option ℕ)
    → Distinct (x ∷ xs)
    → Seg f prev cur (x ∷ xs) (some y) stop
    → Seg (update f y (record (f y) { next = v })) prev cur (x ∷ xs) (some y) v
Seg-set_next f prev cur x [] y stop v d h = ground arith
Seg-set_next f prev cur x (z ∷ xs) y stop v d h =
    let (w, e, m) = Seg-last f (some x) (f x).next z xs (some y) stop h.2 in
    let apart : (x == y) ≡ false = ground arith in
    (h.0, ground arith, rw apart (Seg-set_next f (some x) (f x).next z xs y stop v d.1 h.2))

-- Writing the prev pointer of the first node moves the start of the segment.
pub Seg-set_prev :
    (f : ℕ → Link) (prev cur : Option ℕ) (x : ℕ) (xs : List ℕ) (last stop v : Option ℕ)
    → Distinct (x ∷ xs)
    → Seg f prev cur (x ∷ xs) last stop
    → Seg (update f x (record (f x) { prev = v })) v cur (x ∷ xs) last stop
Seg-set_prev f prev cur x xs last stop v d h = (
  h.0,
  ground arith,
  rw (==_refl x) (
      Seg-frame f (update f x (record (f x) { prev = v })) (some x) (f x).next xs last stop h.2
        (λ y m. ground arith)),
)

-- The pointers of a queue may be replaced by equal ones.
pub Seg-cong :
    (f : ℕ → Link) (cur cur' : Option ℕ) (xs : List ℕ) (last last' : Option ℕ)
    → Seg f none cur xs last none
    → cur' ≡ cur
    → last' ≡ last
    → Seg f none cur' xs last' none
Seg-cong f cur cur' xs last last' h e k = rw (e, k) h

-- `g` is `f` but for the next pointer of the last node `y` and a new node `n` behind it.
pub Seg-snoc :
    (f g : ℕ → Link) (cur cur' last' : Option ℕ) (x : ℕ) (xs : List ℕ) (y n : ℕ)
    → Distinct (x ∷ xs)
    → Seg f none cur (x ∷ xs) (some y) none
    → ((z : ℕ)
        → mem z (x ∷ xs) ≡ true
        → ((g z).prev ≡ (f z).prev)
          × ((g z).next ≡ (update f y (record (f y) { next = some n }) z).next))
    → ((g n).prev ≡ some y) × ((g n).next ≡ none)
    → cur' ≡ cur
    → last' ≡ some n
    → Seg g none cur' ((x ∷ xs) ++ n ∷ []) last' none
Seg-snoc f g cur cur' last' x xs y n d h same new e k =
    let moved = Seg-set_next f none cur x xs y none (some n) d h in
    Seg-cong g cur cur' ((x ∷ xs) ++ n ∷ []) (some n) last'
      (Seg-append g none cur (x ∷ xs) (some y) (some n) (n ∷ []) (some n) none
        (Seg-frame (update f y (record (f y) { next = some n })) g none cur (x ∷ xs) (some y)
          (some n) moved (λ z m. (ground (arith, same z m), (same z m).1)))
        (refl, new.0, (new.1, refl)))
      e k
