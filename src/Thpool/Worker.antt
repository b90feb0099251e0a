-- ===== src/Thpool/Worker.antt =====
-- `thpool_thread_do` of src/util/thpool.c, a shared access at a time.
use nowra.Base.{◌+◌, ◌-◌, ◌≡◌, true, false, some, List, [], ◌∷◌, ◌++◌}
use nowra.Thpool.{Job, Pool, thpool_bsem_wait, thpool_jobqueue_pull}

-- The jobs that were added, pulled and run so far, and those that were freed with the queue. The code keeps no
-- such log.
pub record Log : Type 0 where
  pub added : List Job
  pub pulled : List Job
  pub ran : List Job
  pub dropped : List Job

pub record Shared : Type 0 where
  pub pool : Pool
  pub log : Log

-- Where a thread stands, with the job that it holds.
pub data Pc : Type 0 where
  created : Pc
  at_top : Pc  -- while(threads_keepalive)
  waiting : Pc  -- in thpool_bsem_wait
  woken : Pc  -- if (threads_keepalive)
  counting : Pc  -- before num_threads_working++
  pulling : Pc  -- before thpool_jobqueue_pull
  running : Job → Pc
  finished : Pc  -- before num_threads_working--
  leaving : Pc  -- before num_threads_alive--
  unlocking : Pc  -- before the last unlock of thcount_lock
  exited : Pc

-- One step of one thread. The pull from an empty queue is a step of the system.
pub data Move (m : Shared) : Pc → Shared → Pc → Type 0 where
  start :
      m.pool.locked ≡ false
      → Move m created
          (record m { pool = record (m.pool) { num_threads_alive = m.pool.num_threads_alive + 1 } })
          at_top
  stay : m.pool.keepalive ≡ true → Move m at_top m waiting
  stop : m.pool.keepalive ≡ false → Move m at_top m leaving
  wait : m.pool.v ≡ 1 → Move m waiting (record m { pool = thpool_bsem_wait m.pool }) woken
  go_on : m.pool.keepalive ≡ true → Move m woken m counting
  skip : m.pool.keepalive ≡ false → Move m woken m at_top
  count :
      m.pool.locked ≡ false
      → Move m counting
          (record m {
            pool = record (m.pool) { num_threads_working = m.pool.num_threads_working + 1 };
          })
          pulling
  pull :
      {job : Job} {pool : Pool}
      → thpool_jobqueue_pull m.pool ≡ (some job, pool)
      → Move m pulling
          (record { pool = pool; log = record (m.log) { pulled = m.log.pulled ++ job ∷ [] } })
          (running job)
  run :
      {job : Job}
      → Move m (running job) (record m { log = record (m.log) { ran = job ∷ m.log.ran } }) finished
  uncount :
      m.pool.locked ≡ false
      → Move m finished
          (record m {
            pool = record (m.pool) { num_threads_working = m.pool.num_threads_working - 1 };
          })
          at_top
  leave :
      m.pool.locked ≡ false
      → Move m leaving
          (record m {
            pool = record (m.pool) {
              num_threads_alive = m.pool.num_threads_alive - 1;
              locked = true;
            };
          })
          unlocking
  unlock : Move m unlocking (record m { pool = record (m.pool) { locked = false } }) exited
