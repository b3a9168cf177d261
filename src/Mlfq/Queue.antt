-- ===== src/Mlfq/Queue.antt =====
-- project1_scheduler/queue.c on the doubly linked queues of `ptable`.
pub mod Chain
pub mod Effect
pub mod Push
pub mod Drop
pub mod Erase
pub mod Front
use ele3021_os.Prelude.{
  ℕ, zero, suc, ◌+◌, pos, negsuc, ◌+ℤ◌, ◌-ℤ◌, Option, none, some, Bool, true, false, not, ◌||◌,
  ◌==◌, same_ptr, if◌then◌else◌,
}
use ele3021_os.Outcome.{Cmd, ok, out_of_fuel, pure, halt, crash, gets, ◌>>=◌, ◌>>◌}
use ele3021_os.Mlfq.State.{nproc, Queues, queue_at, set_queue, set_link, set_next, set_prev}

-- The loop of erasequeue that looks for `p` along the next pointers.
unfoldable pub walk : ℕ → Option ℕ → ℕ → Cmd Queues Bool
walk zero cur p s = out_of_fuel
walk (suc fuel) none p s = ok false s
walk (suc fuel) (some x) p s =
    let rest = walk fuel (s.links x).next p s in if x == p then ok true s else rest

abbrev is_null : Option ℕ → Bool
is_null p = same_ptr p none

-- The pointer surgery at the end of erasequeue.
unfoldable pub unlink : ℕ → ℕ → Cmd Queues Unit
unlink q p = do
  head ← queue_at q
  node ← gets (λ s. s.links p)
  let detach : Cmd Queues Unit = set_link p (λ l. record l { prev = none; next = none })
  if same_ptr head.front head.back
      then (do set_queue q (λ h. record h { front = none; back = none }); detach)
      else if same_ptr head.front (some p)
      then (do set_queue q (λ h. record h { front = node.next }); set_prev node.next none; detach)
      else if same_ptr head.back (some p)
      then (do set_queue q (λ h. record h { back = node.prev }); set_next node.prev none; detach)
      else if is_null node.prev || is_null node.next
      then halt "should have prev and next\n"
      else (do
        set_next node.prev node.next
        after ← gets (λ s. s.links p)
        set_prev after.next after.prev
        detach)

-- `p->queue` is read before the test of `q` and `p` against NULL. The walk is given NPROC + 1 rounds.
unfoldable pub erasequeue : Option ℕ → Option ℕ → Cmd Queues Unit
unfolding unlink
erasequeue q none = crash
erasequeue none (some p) = do
  node ← gets (λ s. s.links p)
  if is_null node.queue then pure tt else halt "erasequeue:"
erasequeue (some q) (some p) = do
  node ← gets (λ s. s.links p)
  if not (same_ptr node.queue (some q)) then halt "erasequeue:" else do
    head ← queue_at q
    found ← walk (nproc + 1) head.front p
    if not found then halt "not in queue\n" else do
      set_link p (λ l. record l { queue = none; level = negsuc 0 })
      set_queue q (λ h. record h { size = h.size -ℤ pos 1 })
      unlink q p

-- The part of pushqueue and pushfrontqueue that makes `n` a member of `q`.
abbrev adopt : ℕ → ℕ → Cmd Queues Unit
adopt q n = do head ← queue_at q; set_link n (λ l. record l { queue = some q; level = head.level })

unfoldable pub pushqueue : Option ℕ → Option ℕ → Cmd Queues Unit
pushqueue none n = pure tt
pushqueue (some q) none = pure tt
pushqueue (some q) (some n) = do
  node ← gets (λ s. s.links n)
  if not (is_null node.queue) then halt "pushqueue" else do
    adopt q n
    set_queue q (λ h. record h { size = h.size +ℤ pos 1 })
    head ← queue_at q
    set_link n (λ l. record l { prev = head.back })
    if is_null head.back
        then (do
          set_queue q (λ h. record h { front = some n; back = some n })
          set_link n (λ l. record l { prev = none; next = none }))
        else (do
          set_next head.back (some n)
          set_link n (λ l. record l { next = none })
          set_queue q (λ h. record h { back = some n }))

unfoldable pub popqueue : ℕ → Cmd Queues (Option ℕ)
popqueue q = do head ← queue_at q; pop_front head.front
  where
    pop_front : Option ℕ → Cmd Queues (Option ℕ)
    pop_front none = pure none
    pop_front (some r) = do
      set_link r (λ l. record l { queue = none; level = negsuc 0 })
      set_queue q (λ h. record h { size = h.size -ℤ pos 1 })
      head ← queue_at q
      let detach : Cmd Queues Unit = set_link r (λ l. record l { prev = none; next = none })
      if same_ptr head.front head.back
          then (do set_queue q (λ h. record h { front = none; back = none }); detach; pure (some r))
          else (do
            node ← gets (λ s. s.links r)
            set_queue q (λ h. record h { front = node.next })
            set_prev node.next none
            detach
            pure (some r))

unfoldable pub frontqueue : ℕ → Cmd Queues (Option ℕ)
frontqueue q = do head ← queue_at q; pure head.front

-- On an empty queue the code returns before it reaches `++q->size`.
unfoldable pub pushfrontqueue : Option ℕ → Option ℕ → Cmd Queues Unit
pushfrontqueue none p = pure tt
pushfrontqueue (some q) none = pure tt
pushfrontqueue (some q) (some p) = do
  node ← gets (λ s. s.links p)
  if not (is_null node.queue) then halt "pushfrontqueue" else do
    adopt q p
    head ← queue_at q
    if is_null head.front
        then (do
          set_queue q (λ h. record h { front = some p; back = some p })
          set_link p (λ l. record l { prev = none; next = none }))
        else (do
          set_queue q (λ h. record h { size = h.size +ℤ pos 1 })
          if same_ptr head.front head.back
              then (do
                set_queue q (λ h. record h { front = some p })
                set_link p (λ l. record l { next = head.back })
                set_prev head.back (some p)
                set_link p (λ l. record l { prev = none })
                set_next head.back none)
              else (do
                set_link p (λ l. record l { prev = none })
                set_link p (λ l. record l { next = head.front })
                set_queue q (λ h. record h { front = some p })
                set_prev head.front (some p)))
