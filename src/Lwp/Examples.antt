-- ===== src/Lwp/Examples.antt =====
-- A process of project2_LWP with two threads, of which thread 1 ran last.
use ele3021_os.Lwp.Create.{thread_create}
use ele3021_os.Lwp.Creation.{thread_create-Created, Created}
use ele3021_os.Lwp.Yield.{turns_start, turns}
use ele3021_os.Mlfq.State.{nproc}
use ele3021_os.Lwp.Wakeup.{wakeup1-WokenTo, WokenTo}
use ele3021_os.Lwp.Exit.{thread_exit-Exited, Exited}
use ele3021_os.Lwp.Thread.{thread_exit, wakeup1, thread_join, schedule_process}
use ele3021_os.Lwp.Join.{thread_join-Joined, Joined}
use ele3021_os.Lwp.Dispatch.{Started, schedule_process-Started}
use ele3021_os.Mlfq.Kernel.{sleeping, unused, zombie, running, runnable, ProcState}
use ele3021_os.Prelude.{
  mem, refl, arith, some, true, ◌≡◌, Option, false, ◌==◌, Bool, if◌then◌else◌, none, ℕ,
}
use ele3021_os.Outcome.{Returns}
use ele3021_os.Lwp.State.{nthread, on_other, Machine, Process, Thread}

abbrev thread_in : ProcState → ℕ → Thread
thread_in state tid = record {
  tid = tid;
  kstack = 4096;
  state = state;
  tf = 8000;
  context = 7000;
  chan = some (on_other 9);
  retval = 42;
  ustack = 12288;
}

-- Thread 0 is in the state given, thread 1 is running, the others are unused.
abbrev two_threads : ProcState → ℕ → Thread
two_threads state i =
    if i == 0 then thread_in state 5 else if i == 1 then thread_in running 6 else thread_in unused 0

abbrev process_with : ProcState → ProcState → Process
process_with own state = record {
  sz = 20480;
  pid = 3;
  parent = none;
  killed = false;
  stacksize = 1;
  limit = 0;
  freedustack = λ i. 0;
  thread = two_threads state;
  thidx = 1;
  kstack = 4096;
  state = own;
  tf = 8000;
  context = 7000;
  chan = none;
  retval = 0;
}

abbrev machine_with : ProcState → ProcState → Bool → Option ℕ → Machine
machine_with own state locked current = record {
  procs = λ p. process_with own state;
  locked = locked;
  nextpid = 4;
  nexttid = 7;
  current = current;
  initproc = some 0;
}

schedule_process-Started_example :
    Returns
      (Started (machine_with runnable runnable true none) 2)
      (schedule_process 2 (machine_with runnable runnable true none))
schedule_process-Started_example =
    schedule_process-Started (machine_with runnable runnable true none) 2 (omega arith)

thread_join-Joined_example :
    Returns
      (Joined (machine_with running zombie false (some 2)) 2 5)
      (thread_join 5 (machine_with running zombie false (some 2)))
thread_join-Joined_example =
    thread_join-Joined (machine_with running zombie false (some 2)) 2 5 refl refl

thread_exit-Exited_example :
    Returns
      (λ _. Exited (machine_with running sleeping false (some 2)) 2 42)
      (thread_exit 42 (machine_with running sleeping false (some 2)))
thread_exit-Exited_example =
    thread_exit-Exited (machine_with running sleeping false (some 2)) 2 42 (omega arith)
      (omega arith) refl refl refl

wakeup1-WokenTo_example :
    Returns
      (λ _. WokenTo (on_other 9) (machine_with runnable sleeping true none) nproc)
      (wakeup1 (on_other 9) (machine_with runnable sleeping true none))
wakeup1-WokenTo_example = wakeup1-WokenTo (on_other 9) (machine_with runnable sleeping true none)

turns_start_example :
    Returns (λ l _. mem 0 l ≡ true) (turns nthread 2 (machine_with runnable runnable true none))
turns_start_example =
    turns_start 2 0 (omega arith) (machine_with runnable runnable true none)
      (record { small = omega arith; state = refl; locked = refl }) refl

-- kalloc finds a page, and the pages of the new stack end at 28672.
thread_create-Created_example :
    Returns
      (Created (machine_with running unused false (some 2)) 2 8192 (λ old new. new) (λ sp. true))
      (thread_create 8192
        (λ old new. new)
        (λ sp. true)
        (machine_with running unused false (some 2)))
thread_create-Created_example =
    thread_create-Created (machine_with running unused false (some 2)) 2 8192 (λ old new. new)
      (λ sp. true) refl refl
