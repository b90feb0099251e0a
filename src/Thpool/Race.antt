-- ===== src/Thpool/Race.antt =====
-- A race in src/util/thpool.c: `thpool_jobqueue_pull` posts the semaphore for the jobs that are left even if
-- other threads have already been woken for them. And another one: `thpool_destroy` frees the pool before the last thread
-- has unlocked `thcount_lock`.
use nowra.Base.{◌<◌, ◌≡◌, refl, [], ◌∷◌, arith}
use nowra.Thpool.{
  Job, new_pool, thpool_add_work, thpool_jobqueue_push, thpool_jobqueue_pull, pull_from, shrink,
  clear_loop, thpool_jobqueue_clear,
}
use nowra.Thpool.Worker.{start, stay, wait, go_on, count, pull, run, uncount, stop, leave}
use nowra.Thpool.System.{
  System, starting, serving, crashed, pick, started, add_work, Reach, IsAlive, stopping, destroy,
  clean_up, unlock_freed, from_init, later,
}

module _ (a b : Job) where
  first : 0 < 2
  first = omega arith

  second : 1 < 2
  second = omega arith

  up : IsAlive starting
  up = ((λ e. cc), (λ e. cc))

  calm : IsAlive serving
  calm = ((λ e. cc), (λ e. cc))

  -- Both threads are alive, and the pool is in service.
  ready : (s : System) × Reach 2 s
  unfolding new_pool
  ready = (
    _,
    later (later (later from_init (pick 0 first up (start refl))) (pick 1 second up (start refl)))
        (started refl refl),
  )

  -- Two jobs are added, and each thread is woken before the other one pulls.
  both_woken : (s : System) × Reach 2 s
  unfolding new_pool ready thpool_add_work thpool_jobqueue_push
  both_woken =
      let r0 = later ready.1 (add_work a refl) in
      let r1 = later r0 (pick 0 first calm (stay refl)) in
      let r2 = later r1 (pick 0 first calm (wait refl)) in
      let r3 = later r2 (add_work b refl) in
      let r4 = later r3 (pick 1 second calm (stay refl)) in
      let r5 = later r4 (pick 1 second calm (wait refl)) in
      let r6 = later r5 (pick 0 first calm (go_on refl)) in
      let r7 = later r6 (pick 0 first calm (count refl)) in
      let r8 = later r7 (pick 1 second calm (go_on refl)) in
      (_, later r8 (pick 1 second calm (count refl)))

module _ (job : Job) where
  only : 0 < 1
  only = omega arith

  up_alone : IsAlive starting
  up_alone = ((λ e. cc), (λ e. cc))

  calm_alone : IsAlive serving
  calm_alone = ((λ e. cc), (λ e. cc))

  over : IsAlive stopping
  over = ((λ e. cc), (λ e. cc))

  -- The job is run.
  done : (s : System) × Reach 1 s
  unfolding new_pool thpool_add_work thpool_jobqueue_push thpool_jobqueue_pull pull_from shrink
  done =
      let r0 = later (later from_init (pick 0 only up_alone (start refl))) (started refl refl) in
      let r1 = later r0 (add_work job refl) in
      let r2 = later r1 (pick 0 only calm_alone (stay refl)) in
      let r3 = later r2 (pick 0 only calm_alone (wait refl)) in
      let r4 = later r3 (pick 0 only calm_alone (go_on refl)) in
      let r5 = later r4 (pick 0 only calm_alone (count refl)) in
      let r6 = later r5 (pick 0 only calm_alone (pull refl)) in
      let r7 = later r6 (pick 0 only calm_alone run) in
      (_, later r7 (pick 0 only calm_alone (uncount refl)))

  -- With one thread and any job there is an order of steps in which the job is run, `thpool_destroy` frees the pool, and the
  -- thread then unlocks a lock in it.
  pub late_unlock-crashed :
      (s : System) × Reach 1 s × (s.shared.log.ran ≡ job ∷ []) × (s.stage ≡ crashed)
  unfolding new_pool done thpool_add_work thpool_jobqueue_push thpool_jobqueue_pull pull_from shrink
      clear_loop thpool_jobqueue_clear
  late_unlock-crashed =
      let r0 = later done.1 (destroy refl) in
      let r1 = later r0 (pick 0 only over (stop refl)) in
      let r2 = later r1 (pick 0 only over (leave refl)) in
      let r3 = later r2 (clean_up refl refl refl) in
      (_, later r3 (unlock_freed 0 only refl refl), refl, refl)
