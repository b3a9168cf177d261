-- ===== src/Mlfq/Examples.antt =====
-- A table of four processes of project1_scheduler on which the theorems about it are applied: 0 and
-- 1 stand in the first queue, 2 in the second and 3 in the last; the quantum of 0 is used up.
use ele3021_os.Mlfq.Choose.{choose-Chosen}
use ele3021_os.Mlfq.Queue.Erase.{erasequeue-erase}
use ele3021_os.Mlfq.Queue.Front.{pushfrontqueue-cons}
use ele3021_os.Mlfq.Process.{allocproc}
use ele3021_os.Mlfq.Queue.{erasequeue, pushfrontqueue}
use ele3021_os.Mlfq.Lock.{set_level_three, scheduler_unlock-Unlocked, Unlocked}
use ele3021_os.Mlfq.Alloc.{allocproc-Alloc, Alloc}
use ele3021_os.Mlfq.Boost.{boost_priority-Boosted, Boosted}
use ele3021_os.Mlfq.Pick.{pick-Picked, Picked}
use ele3021_os.Mlfq.Queue.Effect.{Effect}
use ele3021_os.Mlfq.Sched.{
  boost_priority, pick, password, set_level, get_proc, scheduler_unlock, choose,
}
use ele3021_os.Outcome.{fault, ok, Returns}
use ele3021_os.Mlfq.Invariant.{IsScheduled}
use ele3021_os.Mlfq.Queue.Chain.{IsQueue, IsQueues}
use ele3021_os.Prelude.{
  true, ◌≡◌, refl, false, negsuc, arith, ◌+◌, ◌∷◌, pos, Option, ltb, List, some, none, ℕ, ◌==◌,
  if◌then◌else◌, [],
}
use ele3021_os.Mlfq.State.{nproc, Link, Queue, Queues}
use ele3021_os.Mlfq.Kernel.{scan, Kernel, Proc, unused, runnable}
use ele3021_os.Mlfq.Choose.Spec.{Chosen, InRange, by_queue}

abbrev links : ℕ → Link
links p =
    if p == 0
    then record { prev = none; next = some 1; queue = some 0; level = pos 0 }
    else if p == 1
    then record { prev = some 0; next = none; queue = some 0; level = pos 0 }
    else if p == 2
    then record { prev = none; next = none; queue = some 1; level = pos 1 }
    else if p == 3
    then record { prev = none; next = none; queue = some 2; level = pos 2 }
    else record { prev = none; next = none; queue = none; level = negsuc 0 }

abbrev heads : ℕ → Queue
heads q =
    if q == 0
    then record { front = some 0; back = some 1; level = pos 0; size = pos 2 }
    else if q == 1
    then record { front = some 2; back = some 2; level = pos 1; size = pos 1 }
    else record { front = some 3; back = some 3; level = pos 2; size = pos 1 }

abbrev four_queues : Queues
four_queues = record { links = links; queues = heads }

abbrev four_lists : ℕ → List ℕ
four_lists q = if q == 0 then 0 ∷ 1 ∷ [] else if q == 1 then 2 ∷ [] else 3 ∷ []

abbrev proc_of : ℕ → Proc
proc_of p = record {
  state = if ltb p 4 then runnable else unused;
  pid = p + 1;
  parent = none;
  chan = none;
  killed = false;
  priority = pos 3;
  tq = if p == 0 then pos 4 else pos 0;
  kstack = ltb p 4;
}

abbrev table : ℕ → Option ℕ → Kernel
table lockpid current = record {
  qs = four_queues;
  procs = proc_of;
  lockpid = lockpid;
  ticks = 7;
  nextpid = 5;
  initproc = some 0;
  current = current;
}

four_queues-IsQueues : IsQueues four_queues four_lists
four_queues-IsQueues q lt =
    by_queue (λ r. IsQueue four_queues r (four_lists r))
      (record {
        chain = ground arith;
        distinct = ground arith;
        owner = λ p. ground arith;
        bounded = λ p m. ground arith;
        ranked = λ p m. ground arith;
        numbered = refl;
      })
      (record {
        chain = ground arith;
        distinct = ground arith;
        owner = λ p. ground arith;
        bounded = λ p m. ground arith;
        ranked = λ p m. ground arith;
        numbered = refl;
      })
      (record {
        chain = ground arith;
        distinct = ground arith;
        owner = λ p. ground arith;
        bounded = λ p m. ground arith;
        ranked = λ p m. ground arith;
        numbered = refl;
      })
      q lt

table-IsScheduled :
    (lockpid : ℕ) (current : Option ℕ) → IsScheduled (table lockpid current) four_lists
table-IsScheduled lockpid current = record {
  queued = four_queues-IsQueues;
  live = λ p lt used. (
    if p == 0 then 0 else if p == 1 then 0 else if p == 2 then 1 else 2,
    ground arith,
    ground arith,
  );
  free = λ p lt idle. ground arith;
}

table-InRange : (lockpid : ℕ) (current : Option ℕ) → InRange (table lockpid current)
table-InRange lockpid current x lt ready = refl

pushfrontqueue-cons_example :
    Returns
      (λ _. Effect four_queues four_lists 0 9 (9 ∷ 0 ∷ 1 ∷ []) (some 0) (pos 3))
      (pushfrontqueue (some 0) (some 9) four_queues)
pushfrontqueue-cons_example =
    pushfrontqueue-cons four_queues four_lists 0 9 four_queues-IsQueues (omega arith) (omega arith)
      refl

erasequeue-erase_example :
    Returns
      (λ _. Effect four_queues four_lists 0 1 (0 ∷ []) none (pos 1))
      (erasequeue (some 0) (some 1) four_queues)
erasequeue-erase_example =
    erasequeue-erase four_queues four_lists 0 1 four_queues-IsQueues (omega arith) refl

pick-Picked_example : Returns (Picked (table 0 none)) (pick (nproc + 1) (table 0 none))
pick-Picked_example =
    pick-Picked (table 0 none) four_lists (table-IsScheduled 0 none) (table-InRange 0 none) refl

boost_priority-Boosted_example :
    Returns (λ _. Boosted (table 2 none)) (boost_priority (table 2 none))
boost_priority-Boosted_example =
    boost_priority-Boosted (table 2 none) four_lists (table-IsScheduled 2 none) refl

choose-Chosen_example :
    Returns (λ r t. Chosen (table 0 none) r × (t ≡ table 0 none)) (choose (table 0 none))
choose-Chosen_example =
    choose-Chosen (table 0 none) four_lists (table-IsScheduled 0 none) (table-InRange 0 none)

allocproc-Alloc_example :
    Returns (Alloc (table 0 (some 0)) four_lists) (allocproc true (table 0 (some 0)))
allocproc-Alloc_example =
    allocproc-Alloc (table 0 (some 0)) four_lists (table-IsScheduled 0 (some 0))

scheduler_unlock-Unlocked_example :
    Returns
      (λ _. Unlocked (table 1 (some 0)) four_lists 0 0)
      (scheduler_unlock password (table 1 (some 0)))
scheduler_unlock-Unlocked_example =
    scheduler_unlock-Unlocked (table 1 (some 0)) four_lists (table-IsScheduled 1 (some 0)) 0 0
      (omega arith) (omega arith) refl refl refl refl refl

found_third : get_proc (pos 3) (table 0 (some 0)) ≡ ok (some 2) (table 0 (some 0))
unfolding get_proc scan
found_third = refl

set_level_three_example : set_level (pos 3) (pos 3) (table 0 (some 0)) ≡ fault
set_level_three_example =
    set_level_three (table 0 (some 0)) four_lists (pos 3) 2 1 (table-IsScheduled 0 (some 0))
      (omega arith) (omega arith) refl found_third
