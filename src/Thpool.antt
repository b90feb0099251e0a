-- ===== src/Thpool.antt =====
-- src/util/thpool.c: the job queue and its semaphore, the operations of the pool, and in Thpool/Worker and
-- Thpool/System the threads, interleaved. A critical section is one step, but for the last one of a
-- thread: `thpool_destroy` reads num_threads_alive without the lock, so the decrement and the unlock are two steps. The ring of jobs is the list of its entries from the head on.
pub mod Family
pub mod Worker
pub mod System
pub mod Invariant
pub mod Promises
pub mod Race
use nowra.Base.{
  ℕ, zero, suc, ◌+◌, ◌-◌, Bool, true, false, ◌||◌, not, Option, none, some, List, [], ◌∷◌, ◌++◌,
  ltb, ◌==◌, if◌then◌else◌, ℤ, pos, negsuc, Outcome, ok, abort, panic,
}

-- `THPOOL_JOB_T`: the addresses of the function and of its argument.
pub record Job : Type 0 where
  pub callback : ℕ
  pub context : ℕ

-- `THPOOL_T` with its `THPOOL_JOBQUEUE`, the `v` of its semaphore, the global `threads_keepalive`, and whether
-- `thcount_lock` is held by a thread that has decremented num_threads_alive and not yet unlocked.
-- Counts are natural: - stops at 0, and no count is decremented at 0 (Thpool/Invariant).
pub record Pool : Type 0 where
  pub queue : List Job
  pub len : ℕ
  pub v : ℕ
  pub num_threads_alive : ℕ
  pub num_threads_working : ℕ
  pub keepalive : Bool
  pub locked : Bool

-- `thpool_bsem_init`: the value that `v` gets.
unfoldable pub thpool_bsem_init : ℤ → Outcome ℕ
thpool_bsem_init (negsuc n) =
    abort (panic "thpool_bsem_init: Binary semaphore can take only values 1 or 0")
thpool_bsem_init (pos value) =
    if ltb 1 value
    then abort (panic "thpool_bsem_init: Binary semaphore can take only values 1 or 0")
    else ok value

-- `thpool_bsem_post` and `thpool_bsem_post_all`: a waiting thread is a step that `v` allows.
abbrev pub thpool_bsem_post : Pool → Pool
thpool_bsem_post tp = record tp { v = 1 }

abbrev pub thpool_bsem_post_all : Pool → Pool
thpool_bsem_post_all tp = record tp { v = 1 }

-- The end of `thpool_bsem_wait`, with `v` 1.
abbrev pub thpool_bsem_wait : Pool → Pool
thpool_bsem_wait tp = record tp { v = 0 }

-- The switch of `thpool_jobqueue_pull`.
unfoldable pub shrink : Pool → Pool
shrink tp =
    if tp.len == 0
    then tp
    else if tp.len == 1
    then record tp { len = 0 }
    else thpool_bsem_post (record tp { len = tp.len - 1 })

-- `thpool_jobqueue_pull`: the first entry is taken out of the ring before `len` is read. In an empty ring
-- that is the head itself: no job is there, and the memory before the head is taken for one (none).
unfoldable pub pull_from : List Job → Pool → Option Job × Pool
pull_from [] tp = (none, shrink tp)
pull_from (job ∷ rest) tp = (some job, shrink (record tp { queue = rest }))

unfoldable pub thpool_jobqueue_pull : Pool → Option Job × Pool
thpool_jobqueue_pull tp = pull_from tp.queue tp

-- `thpool_jobqueue_push`
unfoldable pub thpool_jobqueue_push : Job → Pool → Pool
thpool_jobqueue_push job tp =
    thpool_bsem_post (record tp { queue = tp.queue ++ job ∷ []; len = tp.len + 1 })

-- `thpool_jobqueue_clear`, whose loop takes `turns` turns at most; none if they are not enough.
unfoldable pub clear_loop : (turns : ℕ) → Pool → Option Pool
clear_loop zero tp = if tp.len == 0 then some tp else none
clear_loop (suc turns) tp =
    let rest = clear_loop turns (thpool_jobqueue_pull tp).1 in if tp.len == 0 then some tp else rest

unfoldable pub thpool_jobqueue_clear : (turns : ℕ) → Pool → Option Pool
thpool_jobqueue_clear turns tp = elim (clear_loop turns tp) [
  | none ↦ none
  | some cleared ↦ some (record cleared { v = 0; len = 0 })
]

-- `thpool_add_work`
unfoldable pub thpool_add_work : Job → Pool → Pool
thpool_add_work job tp = thpool_jobqueue_push job tp

-- `thpool_init`: how many threads are created, and the pool before any of them runs.
unfoldable pub threads_of : ℤ → ℕ
threads_of (negsuc n) = 1
threads_of (pos n) = if n == 0 then 1 else n

unfoldable pub new_pool : Pool
new_pool = record {
  queue = [];
  len = 0;
  v = 0;
  num_threads_alive = 0;
  num_threads_working = 0;
  keepalive = true;
  locked = false;
}

-- The condition on which `thpool_wait` goes on polling.
abbrev pub busy : Pool → Bool
busy tp = not (tp.len == 0) || not (tp.num_threads_working == 0)
