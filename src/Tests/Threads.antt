-- ===== src/Tests/Threads.antt =====
-- A pool of src/util/thpool.c with one thread and one job, from `thpool_init` to `thpool_destroy`.
use nowra.Base.{ℕ, ◌+◌, ◌<◌, ◌≡◌, ◌⊎◌, refl, [], ◌∷◌, ◌++◌, arith, weight, pos, negsuc, ok}
use nowra.Thpool.{
  Job, new_pool, thpool_add_work, thpool_jobqueue_push, thpool_jobqueue_pull, pull_from, shrink,
  clear_loop, thpool_jobqueue_clear, threads_of, thpool_bsem_init,
}
use nowra.Thpool.Family.{total}
use nowra.Thpool.Worker.{
  exited, unlocking, start, stay, stop, wait, go_on, count, pull, run, uncount, leave,
}
use nowra.Thpool.System.{
  System, starting, serving, stopping, crashed, destroyed, IsAlive, pick, started, add_work,
  destroy, clean_up, Reach, from_init, later,
}
use nowra.Thpool.Invariant.{is_awake, in_hand}
use nowra.Thpool.Promises.{Reach-in_order, not_busy-all_ran, queued-awake, destroyed-left}
use nowra.Thpool.Race.{late_unlock-crashed}

abbrev job : Job
job = record { callback = 7; context = 8 }

abbrev other_job : Job
other_job = record { callback = 9; context = 8 }

only : 0 < 1
only = omega arith

calm : IsAlive serving
calm = ((λ e. cc), (λ e. cc))

queued : (s : System) × Reach 1 s
unfolding new_pool
queued = (
  _,
  later
      (later
        (later from_init (
          pick 0 only ((λ (e : starting ≡ crashed). cc), (λ (e : starting ≡ destroyed). cc))
            (start refl)))
        (started refl refl))
      (add_work job refl),
)

-- The job is run.
quiet : (s : System) × Reach 1 s
unfolding new_pool queued thpool_add_work thpool_jobqueue_push thpool_jobqueue_pull pull_from shrink
quiet =
    let r0 = later queued.1 (pick 0 only calm (stay refl)) in
    let r1 = later r0 (pick 0 only calm (wait refl)) in
    let r2 = later r1 (pick 0 only calm (go_on refl)) in
    let r3 = later r2 (pick 0 only calm (count refl)) in
    let r4 = later r3 (pick 0 only calm (pull refl)) in
    let r5 = later r4 (pick 0 only calm run) in (_, later r5 (pick 0 only calm (uncount refl)))

-- The thread leaves, and the pool is freed.
freed : (s : System) × Reach 1 s
unfolding new_pool queued quiet thpool_add_work thpool_jobqueue_push thpool_jobqueue_pull pull_from
    shrink clear_loop thpool_jobqueue_clear
freed =
    let r0 = later quiet.1 (destroy refl) in
    let r1 = later r0 (
      pick 0 only ((λ (e : stopping ≡ crashed). cc), (λ (e : stopping ≡ destroyed). cc))
        (stop refl)) in
    let r2 = later r1 (
      pick 0 only ((λ (e : stopping ≡ crashed). cc), (λ (e : stopping ≡ destroyed). cc))
        (leave refl)) in
    (_, later r2 (clean_up refl refl refl))

Reach-in_order_example :
    (queued.0.shared.log.pulled ++ (queued.0.shared.pool.queue ++ queued.0.shared.log.dropped)
      ≡ queued.0.shared.log.added)
    × ((w : Job → ℕ)
        → weight w queued.0.shared.log.ran + total (in_hand w) 1 queued.0.pc
          ≡ weight w queued.0.shared.log.pulled)
Reach-in_order_example = Reach-in_order 1 queued.1

not_busy_example : weight (λ j. 1) quiet.0.shared.log.ran ≡ weight (λ j. 1) quiet.0.shared.log.added
unfolding new_pool queued quiet thpool_add_work thpool_jobqueue_push thpool_jobqueue_pull pull_from
    shrink
not_busy_example = not_busy-all_ran 1 quiet.1 refl refl (λ j. 1)

queued-awake_example :
    (queued.0.shared.pool.v ≡ 1) ⊎ ((i : ℕ) × (i < 1) × (0 < is_awake (queued.0.pc i)))
unfolding new_pool queued thpool_add_work thpool_jobqueue_push
queued-awake_example = queued-awake 1 queued.1 refl (omega arith)

destroyed_example : (freed.0.pc 0 ≡ exited) ⊎ (freed.0.pc 0 ≡ unlocking)
unfolding new_pool queued quiet freed thpool_add_work thpool_jobqueue_push thpool_jobqueue_pull
    pull_from shrink clear_loop thpool_jobqueue_clear
destroyed_example = destroyed-left 1 freed.1 refl 0 only

late_unlock_example : (s : System) × Reach 1 s × (s.shared.log.ran ≡ job ∷ []) × (s.stage ≡ crashed)
late_unlock_example = late_unlock-crashed job

one_thread_at_least : (threads_of (negsuc 4) ≡ 1) × (threads_of (pos 0) ≡ 1)
unfolding threads_of
one_thread_at_least = (refl, refl)

bsem_zero : thpool_bsem_init (pos 0) ≡ ok 0
unfolding thpool_bsem_init
bsem_zero = refl
