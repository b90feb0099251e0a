-- ===== src/Thpool/Invariant.antt =====
-- What holds in every reachable state of a pool of src/util/thpool.c.
pub mod Queue
pub mod Moves
pub mod Steps
use nowra.Base.{
  ℕ, zero, suc, ◌+◌, ◌<◌, ◌≡◌, ◌≢◌, ◌⊎◌, Bool, true, false, List, [], ◌∷◌, ◌++◌, length, weight,
}
use nowra.Thpool.{Job, Pool}
use nowra.Thpool.Family.{total}
use nowra.Thpool.Worker.{
  Shared, Log, Pc, created, at_top, waiting, woken, counting, pulling, running, finished, leaving,
  unlocking, exited,
}
use nowra.Thpool.System.{System, Stage, starting, serving, stopping, destroyed, crashed}

-- counted in num_threads_alive
abbrev pub is_live : Pc → ℕ
is_live created = 0
is_live unlocking = 0
is_live exited = 0
is_live p = 1

-- counted in num_threads_working
abbrev pub is_working : Pc → ℕ
is_working pulling = 1
is_working (running job) = 1
is_working finished = 1
is_working p = 0

-- woken and on its way to the queue
abbrev pub is_awake : Pc → ℕ
is_awake woken = 1
is_awake counting = 1
is_awake pulling = 1
is_awake p = 0

abbrev pub is_created : Pc → ℕ
is_created created = 1
is_created p = 0

abbrev pub is_gone : Pc → ℕ
is_gone leaving = 1
is_gone unlocking = 1
is_gone exited = 1
is_gone p = 0

-- the weight of the job that a thread runs
abbrev pub in_hand : (Job → ℕ) → Pc → ℕ
in_hand w (running job) = w job
in_hand w p = 0

pub record Inv (n : ℕ) (m : Shared) (pc : ℕ → Pc) : Type 0 where
  pub counted : m.pool.len ≡ length m.pool.queue
  pub in_order : m.log.pulled ++ (m.pool.queue ++ m.log.dropped) ≡ m.log.added
  pub once : (w : Job → ℕ) → weight w m.log.ran + total (in_hand w) n pc ≡ weight w m.log.pulled
  pub live : m.pool.num_threads_alive ≡ total is_live n pc
  pub working : m.pool.num_threads_working ≡ total is_working n pc
  pub awake :
      (0 < m.pool.len) → m.pool.keepalive ≡ true → (m.pool.v ≡ 1) ⊎ (0 < total is_awake n pc)
  pub staying : m.pool.keepalive ≡ true → total is_gone n pc ≡ 0

-- What the stage adds.
abbrev pub AtStage : ℕ → Shared → (ℕ → Pc) → Stage → Type 0
AtStage n m pc starting = (m.pool.keepalive ≡ true) × (m.log.dropped ≡ [])
AtStage n m pc serving =
    (m.pool.keepalive ≡ true) × (m.log.dropped ≡ []) × (total is_created n pc ≡ 0)
AtStage n m pc stopping = (m.log.dropped ≡ []) × (total is_created n pc ≡ 0)
AtStage n m pc destroyed = (total is_created n pc ≡ 0) × (total is_live n pc ≡ 0)
AtStage n m pc crashed = Unit
