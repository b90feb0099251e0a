-- ===== src/Thpool/System.antt =====
-- `n` threads over one pool of src/util/thpool.c and the thread that made it, interleaved in any order.
use nowra.Base.{ℕ, ◌<◌, ◌≡◌, ◌≢◌, false, none, some, [], ◌∷◌, ◌++◌}
use nowra.Thpool.{
  Job, Pool, thpool_bsem_post_all, thpool_jobqueue_clear, thpool_add_work, thpool_jobqueue_pull,
  new_pool,
}
use nowra.Thpool.Family.{update}
use nowra.Thpool.Worker.{Shared, Pc, created, pulling, unlocking, Move}

-- Where the owner of the pool stands: in `thpool_init`, between the calls, in `thpool_destroy`, behind it;
-- or the behaviour of the program is undefined.
pub data Stage : Type 0 where
  starting : Stage
  serving : Stage
  stopping : Stage
  destroyed : Stage
  crashed : Stage

-- The pool is there, and the behaviour of the program is defined.
abbrev pub IsAlive : Stage → Type 0
IsAlive stage = (stage ≢ crashed) × (stage ≢ destroyed)

pub record System : Type 0 where
  pub shared : Shared
  pub pc : ℕ → Pc
  pub stage : Stage

abbrev pub init : System
init = record {
  shared = record {
    pool = new_pool;
    log = record { added = []; pulled = []; ran = []; dropped = [] };
  };
  pc = λ _. created;
  stage = starting;
}

pub data Step (n : ℕ) (s : System) : System → Type 0 where
  pick :
      (i : ℕ) {m : Shared} {p : Pc}
      → i < n
      → IsAlive s.stage
      → Move s.shared (s.pc i) m p
      → Step n s (record s { shared = m; pc = update s.pc i p })
  -- A thread pulls from an empty queue: it takes the memory before the head for a job and runs it.
  pull_empty :
      (i : ℕ) {pool : Pool}
      → i < n
      → IsAlive s.stage
      → s.pc i ≡ pulling
      → thpool_jobqueue_pull s.shared.pool ≡ (none, pool)
      → Step n s (record s { stage = crashed })
  -- A thread unlocks `thcount_lock` after the pool was freed.
  unlock_freed :
      (i : ℕ)
      → i < n
      → s.stage ≡ destroyed
      → s.pc i ≡ unlocking
      → Step n s (record s { stage = crashed })
  -- the end of the loop at the end of `thpool_init`
  started :
      s.stage ≡ starting
      → s.shared.pool.num_threads_alive ≡ n
      → Step n s (record s { stage = serving })
  add_work :
      (job : Job)
      → s.stage ≡ serving
      → Step n s (record s {
        shared = record {
          pool = thpool_add_work job s.shared.pool;
          log = record (s.shared.log) { added = s.shared.log.added ++ job ∷ [] };
        };
      })
  -- `thpool_destroy`, in three parts: its start, a turn of its loops, and the rest
  destroy :
      s.stage ≡ serving
      → Step n s (record s {
        shared = record (s.shared) { pool = record (s.shared.pool) { keepalive = false } };
        stage = stopping;
      })
  post_all :
      s.stage ≡ stopping
      → 0 < s.shared.pool.num_threads_alive
      → Step n s
          (record s { shared = record (s.shared) { pool = thpool_bsem_post_all s.shared.pool } })
  clean_up :
      {pool : Pool}
      → s.stage ≡ stopping
      → s.shared.pool.num_threads_alive ≡ 0
      → thpool_jobqueue_clear s.shared.pool.len s.shared.pool ≡ some pool
      → Step n s (record s {
        shared = record {
          pool = pool;
          log = record (s.shared.log) { dropped = s.shared.pool.queue };
        };
        stage = destroyed;
      })

pub data Reach (n : ℕ) : System → Type 0 where
  from_init : Reach n init
  later : {s t : System} → Reach n s → Step n s t → Reach n t
