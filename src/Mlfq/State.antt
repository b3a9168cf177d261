-- ===== src/Mlfq/State.antt =====
-- project1_scheduler/proc.h, param.h and the `ptable` of proc.c. A `struct proc *` is an index of
-- `ptable.proc` and a `struct queue *` one of `ptable.queue`, `none` being NULL. The four fields of
-- `struct proc` that queue.c owns (prev, next, queue, level) are kept in a table of their own.
use ele3021_os.Prelude.{ℕ, ℤ, Option, ltb, update, if◌then◌else◌}
use ele3021_os.Outcome.{Cmd, crash, pure, modify, deref}

abbrev pub nproc : ℕ
nproc = 64

abbrev pub nqueue : ℕ
nqueue = 3

pub record Link : Type 0 where
  pub prev : Option ℕ
  pub next : Option ℕ
  pub queue : Option ℕ
  pub level : ℤ

pub record Queue : Type 0 where
  pub front : Option ℕ
  pub back : Option ℕ
  pub level : ℤ
  pub size : ℤ

-- What queue.c reads and writes.
pub record Queues : Type 0 where
  pub links : ℕ → Link
  pub queues : ℕ → Queue

-- `ptable.queue + q` is dereferenced: beyond the array this is a fault.
abbrev pub queue_at : ℕ → Cmd Queues Queue
queue_at q s = if ltb q nqueue then pure (s.queues q) s else crash s

abbrev pub set_queue : ℕ → (Queue → Queue) → Cmd Queues Unit
set_queue q f s =
    if ltb q nqueue
    then modify (λ t. record t { queues = update t.queues q (f (t.queues q)) }) s
    else crash s

abbrev pub set_link : ℕ → (Link → Link) → Cmd Queues Unit
set_link p f = modify (λ t. record t { links = update t.links p (f (t.links p)) })

-- `p->next = v` and `p->prev = v`
abbrev pub set_next : Option ℕ → Option ℕ → Cmd Queues Unit
set_next p v = deref p (λ i. set_link i (λ l. record l { next = v }))

abbrev pub set_prev : Option ℕ → Option ℕ → Cmd Queues Unit
set_prev p v = deref p (λ i. set_link i (λ l. record l { prev = v }))
