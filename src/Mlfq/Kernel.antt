-- ===== src/Mlfq/Kernel.antt =====
-- The kernel state that project1_scheduler/proc.c works on: `struct proc` of proc.h without the four
-- fields of `Link`, `ptable`, `ticks`, `nextpid`, `initproc` and the process on the one CPU.
use ele3021_os.Prelude.{
  ℕ, zero, suc, ◌+◌, ℤ, Option, none, some, Bool, true, false, ◌==◌, update, if◌then◌else◌,
}
use ele3021_os.Outcome.{Outcome, Cmd, ok, panic, fault, out_of_fuel, modify}
use ele3021_os.Mlfq.State.{Queues}

pub data ProcState : Type 0 where
  unused embryo sleeping runnable running zombie : ProcState

abbrev pub code : ProcState → ℕ
code unused = 0
code embryo = 1
code sleeping = 2
code runnable = 3
code running = 4
code zombie = 5

abbrev pub same_state : ProcState → ProcState → Bool
same_state a b = code a == code b

-- What a `void *chan` points to: a process, `ticks`, or some other kernel object.
pub data Chan : Type 0 where
  on_proc : ℕ → Chan
  on_ticks : Chan
  on_object : ℕ → Chan

abbrev pub same_chan : Chan → Chan → Bool
same_chan (on_proc a) (on_proc b) = a == b
same_chan on_ticks on_ticks = true
same_chan (on_object a) (on_object b) = a == b
same_chan _ _ = false

abbrev pub waits_on : Option Chan → Chan → Bool
waits_on none c = false
waits_on (some d) c = same_chan d c

pub record Proc : Type 0 where
  pub state : ProcState
  pub pid : ℕ
  pub parent : Option ℕ
  pub chan : Option Chan
  pub killed : Bool
  pub priority : ℤ
  pub tq : ℤ
  pub kstack : Bool

pub record Kernel : Type 0 where
  pub qs : Queues
  pub procs : ℕ → Proc
  pub lockpid : ℕ
  pub ticks : ℕ
  pub nextpid : ℕ
  pub initproc : Option ℕ
  pub current : Option ℕ

module _ {A : Type 0} where
  abbrev pub with_queues : Kernel → Outcome Queues A → Outcome Kernel A
  with_queues s (ok a qs) = ok a (record s { qs = qs })
  with_queues s (panic message) = panic message
  with_queues s fault = fault
  with_queues s out_of_fuel = out_of_fuel

  -- A function of queue.c, called on the kernel's queues.
  abbrev pub on_queues : Cmd Queues A → Cmd Kernel A
  on_queues m s = with_queues s (m s.qs)

abbrev pub set_proc : ℕ → (Proc → Proc) → Cmd Kernel Unit
set_proc p f = modify (λ s. record s { procs = update s.procs p (f (s.procs p)) })

abbrev pub queue_of : Kernel → ℕ → Option ℕ
queue_of s p = (s.qs.links p).queue

abbrev pub level_of : Kernel → ℕ → ℤ
level_of s p = (s.qs.links p).level

-- The first of `n` table entries from `i` on that passes the test.
unfoldable pub scan : ℕ → ℕ → (ℕ → Bool) → Option ℕ
scan zero i test = none
scan (suc n) i test = let rest = scan n (i + 1) test in if test i then some i else rest
