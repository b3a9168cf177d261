-- ===== src/Log/Examples.antt =====
-- A transaction of project3_filesystem/log.c that rewrites block 20, with the log in blocks 2 to 11.
use ele3021_os.Log.Sync.{sync1-Synced, Synced}
use ele3021_os.Log.Commit.{IsPending}
use ele3021_os.Log.Write.{log_write-Joined, Joined}
use ele3021_os.Log.Recover.{commit_crash, recover_from_log-IsRecovered, Recovers, boot, IsRecovered}
use ele3021_os.Log.Crash.{before, IsClean, IsTransaction, logged, Transaction}
use ele3021_os.Prelude.{
  true, refl, All, arith, pos, some, false, [], ◌≡◌, Bool, ◌==◌, if◌then◌else◌,
}
use ele3021_os.Outcome.{◌>>◌, Returns}
use ele3021_os.Log.{commit, sync1, log_write, set_data, recover_from_log, Disk, Block, Log}

abbrev sevens : Disk
sevens b i = if b == 20 then 7 else 0

abbrev nines : Disk
nines b i = if b == 20 then 9 else 0

abbrev rewrite : Transaction
rewrite = record { start = 2; size = 10; n = 1; blk = λ i. 20; old = sevens; new = nines }

abbrev logged_once : Bool → Log
logged_once committing = record {
  disk = sevens;
  cache = nines;
  dirty = λ b. b == 20;
  disks = [];
  start = 2;
  size = 10;
  n = 1;
  block = λ i. 20;
  outstanding = pos 1;
  committing = committing;
}

abbrev fives : Block
fives i = 5

rewrite-IsTransaction : IsTransaction rewrite
unfolding logged
rewrite-IsTransaction = record {
  fits = omega arith;
  homes = λ i lt. refl;
  kept = λ b h l. ground arith;
}

logged_once-IsPending : (committing : Bool) → IsPending rewrite (logged_once committing)
logged_once-IsPending committing = record {
  frame = record { start = refl; number = refl; blocks = λ i lt. refl };
  clean = record { empty = refl; home = λ b h. refl };
  cached = λ b h. refl;
}

commit_crash_example :
    Returns
      (λ _ t. (t.n ≡ 0) × IsClean rewrite nines t.disk × All (Recovers rewrite) t.disks)
      (commit (logged_once true))
commit_crash_example =
    commit_crash rewrite (logged_once true) rewrite-IsTransaction (omega arith)
      (logged_once-IsPending true) refl refl

recover_from_log-IsRecovered_example :
    Returns (λ _. IsRecovered rewrite) (recover_from_log (boot rewrite sevens))
recover_from_log-IsRecovered_example =
    recover_from_log-IsRecovered rewrite rewrite-IsTransaction sevens
      (before (record { empty = refl; home = λ b h. refl }))

log_write-Joined_example :
    Returns
      (λ _. Joined rewrite (logged_once false) 30 fives)
      ((set_data 30 fives >> log_write 30) (logged_once false))
log_write-Joined_example =
    log_write-Joined rewrite (logged_once false) 30 fives rewrite-IsTransaction
      (logged_once-IsPending false) refl refl refl

sync1-Synced_example : Returns (λ r t. (r ≡ some 1) × Synced rewrite t) (sync1 (logged_once false))
sync1-Synced_example =
    sync1-Synced rewrite (logged_once false) rewrite-IsTransaction (logged_once-IsPending false)
      refl
