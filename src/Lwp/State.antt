-- ===== src/Lwp/State.antt =====
-- `struct thread` and `struct proc` of project2_LWP/proc.h and the table of proc.c. A thread is the
-- index of its process and its own. Pointers into memory are numbers with 0 for NULL; what trap
-- frames and contexts hold, page tables and files are not in this state. The states are those of
-- project1_scheduler, whose enum is the same.
use ele3021_os.Mlfq.Kernel.{ProcState}
use ele3021_os.Prelude.{none, ◌&&◌, some, update, ◌==◌, ℕ, Option, Bool, true, false, if◌then◌else◌}
use ele3021_os.Outcome.{Cmd, gets, halt, modify, ◌>>=◌}

abbrev pub nthread : ℕ
nthread = 64

-- KSTACKSIZE of param.h, PGSIZE of mmu.h
abbrev pub kstacksize : ℕ
kstacksize = 4096

abbrev pub pgsize : ℕ
pgsize = 4096

-- What a `void *chan` points to.
pub data Channel : Type 0 where
  on_thread : ℕ → ℕ → Channel
  on_process : ℕ → Channel
  on_other : ℕ → Channel

abbrev pub same_channel : Channel → Channel → Bool
same_channel (on_thread p i) (on_thread q j) = (p == q) && (i == j)
same_channel (on_process p) (on_process q) = p == q
same_channel (on_other a) (on_other b) = a == b
same_channel _ _ = false

abbrev pub sleeps_on : Option Channel → Channel → Bool
sleeps_on none c = false
sleeps_on (some d) c = same_channel d c

pub record Thread : Type 0 where
  pub tid : ℕ
  pub kstack : ℕ
  pub state : ProcState
  pub tf : ℕ
  pub context : ℕ
  pub chan : Option Channel
  pub retval : ℕ
  pub ustack : ℕ

pub record Process : Type 0 where
  pub sz : ℕ
  pub pid : ℕ
  pub parent : Option ℕ
  pub killed : Bool
  pub stacksize : ℕ
  pub limit : ℕ
  pub freedustack : ℕ → ℕ
  pub thread : ℕ → Thread
  pub thidx : ℕ
  pub kstack : ℕ
  pub state : ProcState
  pub tf : ℕ
  pub context : ℕ
  pub chan : Option Channel
  pub retval : ℕ

pub record Machine : Type 0 where
  pub procs : ℕ → Process
  pub locked : Bool
  pub nextpid : ℕ
  pub nexttid : ℕ
  pub current : Option ℕ
  pub initproc : Option ℕ

abbrev pub set_process : ℕ → (Process → Process) → Cmd Machine Unit
set_process p f = modify (λ s. record s { procs = update s.procs p (f (s.procs p)) })

abbrev pub with_thread : ℕ → (Thread → Thread) → Process → Process
with_thread i f r = record r { thread = update r.thread i (f (r.thread i)) }

abbrev pub set_thread : ℕ → ℕ → (Thread → Thread) → Cmd Machine Unit
set_thread p i f = set_process p (with_thread i f)

-- acquire(&ptable.lock) and release(&ptable.lock) of spinlock.c on the one CPU.
abbrev pub acquire : Cmd Machine Unit
acquire = do
  locked ← gets (λ s. s.locked)
  if locked then halt "acquire" else modify (λ s. record s { locked = true })

abbrev pub release : Cmd Machine Unit
release = do
  locked ← gets (λ s. s.locked)
  if locked then modify (λ s. record s { locked = false }) else halt "release"
