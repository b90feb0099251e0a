-- ===== src/Main/Serving.antt =====
-- The handlers of src/master/master.c keep the bookkeeping of the process manager right and its listen sockets open, if
-- they return.
use nowra.Base.{
  ℕ, ◌≤◌, ◌<◌, ◌≡◌, refl, sym, ap, subst, inl, inr, Bool, true, false, not, ◌||◌, Option, some,
  arith, length, ◌==◌, if◌then◌else◌, Bool-cases, Outcome, Abort, abort, undefined, Ensures,
  Ensures-ok, Ensures-abort, Ensures-if, Ensures-then, Ensures-Returns,
}
use nowra.Events.Kernel.{Epoll}
use nowra.Timer.{Timer, Timers, next_due}
use nowra.Timer.Request.{IsValid, event_cancel_timer-length}
use nowra.Timer.Wait.{IsValid-tail, next_due-shorter}
use nowra.Wait.{before_wait}
use nowra.Wait.Turns.{Fewer, IsKept, before_wait-IsValid}
use nowra.Master.Table.{ChildTable}
use nowra.Master.{
  World, listen_flag, master_unthrottle_wrapper, master_avail_event_fn, master_status_event_fn,
}
use nowra.Master.Keeps.{IsBlind, Keeps, master_avail_listen-Keeps}
use nowra.Master.Listening.{is_nonneg}
use nowra.Master.Counts.{is_child_of, is_idle_child_of, load, IsConsistent, recounted}
use nowra.Master.Fixtures.{Fixed, fixtures}
use nowra.Master.Spawn.{master_unthrottle, master_spawn, master_avail_event}
use nowra.Master.Spawn.Throttle.{unthrottle-Leaves}
use nowra.Master.Spawn.Fixtures.{unthrottle-Kept, avail_event-Kept}
use nowra.Master.Spawn.Adopt.{master_avail_event-IsConsistent}
use nowra.Master.Status.{Message, master_status_event}
use nowra.Master.Status.Fixtures.{status_event-Kept}
use nowra.Master.Status.Update.{master_status_event-IsConsistent}
use nowra.Main.{Input, joined, split, call_timer, call_ready, master_handlers}

-- The guards of `master_spawn` on a service that is not throttled.
refused :
    {A : Type 0} (P : A → Type 0) (t i l : Bool) (a b : Abort) (x : Outcome A)
    → t ≡ false
    → (if t || i then false else if l then true else false) ≡ false
    → Ensures P (if not l then abort a else if i then abort b else x)
refused P t i false a b x off e = Ensures-abort P a
refused P t true true a b x off e = Ensures-abort P b
refused P true false true a b x off e = absurd (cc)
refused P false false true a b x off e = absurd (cc)

module _ (ep : Epoll) (ct : ChildTable) where
  abbrev Master : Type 0
  Master = World ep ct

  -- The bookkeeping is right, and every service has a listen socket.
  abbrev pub IsServing : Master → Type 0
  IsServing w = IsConsistent ep ct w × ((r : ℕ) → is_nonneg (w.servs r).listen_fd ≡ true)

  kept_up :
      (w : Master) (r : Outcome Master)
      → IsServing w
      → Ensures (IsConsistent ep ct) r
      → Ensures (Keeps ep ct (fixtures ep ct) w) r
      → Ensures IsServing r
  kept_up w r (c, open_fd) h k w' run =
      (h w' run, λ s. rw (ap (λ (f : ℕ → Fixed). (f s).3) (k w' run)) (open_fd s))

  unthrottle-Ensures :
      (s : ℕ) (w : Master) → IsServing w → Ensures IsServing (master_unthrottle ep ct s w)
  unthrottle-Ensures s w h =
      kept_up w (master_unthrottle ep ct s w) h
        (Ensures-Returns (IsConsistent ep ct) _ (
          let (w', run, (c, tb)) = unthrottle-Leaves ep ct s w h.0 (h.1 s) in
          (
            w',
            run,
            recounted ep ct w' c (λ r. sym (ap (load ep ct (is_child_of r)) tb))
                (λ r. sym (ap (load ep ct (is_idle_child_of r)) tb)),
          )))
        (unthrottle-Kept ep ct s w)

  timers-IsBlind : IsBlind ep ct (λ w. w.timers)
  timers-IsBlind = record { on_loop = λ w l k. refl; on_flags = λ w s f. refl }

  -- The end of a throttling adds no timer.
  abbrev FewerTimers : Master → Master → Type 0
  FewerTimers w w' = length w'.timers.queue ≤ length w.timers.queue

  unthrottle-fewer : (s : ℕ) (w : Master) → Ensures (FewerTimers w) (master_unthrottle ep ct s w)
  unfolding master_unthrottle
  unthrottle-fewer s w =
      Ensures-if (FewerTimers w) (w.servs s).flags.throttle _ _
        (λ w' run.
          let same = master_avail_listen-Keeps ep ct (λ w. w.timers) timers-IsBlind s _ w' run in
          rw same (event_cancel_timer-length master_unthrottle_wrapper s w.clock w.timers))
        (Ensures-ok (FewerTimers w) w (omega arith))

  -- A service that is not to be listened for is not spawned for.
  unwanted :
      (event : ℕ) (forked : Option ℕ) (s : ℕ) (w : Master)
      → IsConsistent ep ct w
      → (w.servs s).flags.throttle ≡ false
      → listen_flag (w.servs s) ≡ false
      → Ensures (IsConsistent ep ct) (master_avail_event ep ct event forked s w)
  unfolding master_avail_event master_spawn listen_flag
  unwanted event forked s w c off e =
      Ensures-if (IsConsistent ep ct) (event == 0) _ _ (Ensures-ok (IsConsistent ep ct) w c)
        (rw off (refused (IsConsistent ep ct) (w.servs s).flags.throttle _ _ _ _ _ off e))

  avail_event-Ensures :
      (event : ℕ) (forked : Option ℕ) (s : ℕ) (w : Master)
      → IsServing w
      → Ensures IsServing (master_avail_event ep ct event forked s w)
  avail_event-Ensures event forked s w h =
      kept_up w (master_avail_event ep ct event forked s w) h
        (elim (Bool-cases (w.servs s).flags.throttle) [
          | inl on ↦
              Ensures-Returns (IsConsistent ep ct) _
                (master_avail_event-IsConsistent ep ct s w h.0 (h.1 s) event forked (inl on))
          | inr off ↦ elim (Bool-cases (listen_flag (w.servs s))) [
            | inl wanted ↦
                Ensures-Returns (IsConsistent ep ct) _
                  (master_avail_event-IsConsistent ep ct s w h.0 (h.1 s) event forked (inr wanted))
            | inr not_wanted ↦ unwanted event forked s w h.0 off not_wanted
          ]
        ])
        (avail_event-Kept ep ct event forked s w)

  status_event-Ensures :
      (event : ℕ) (m : Message) (s : ℕ) (w : Master)
      → IsServing w
      → Ensures IsServing (master_status_event ep ct event m s w)
  status_event-Ensures event m s w h =
      kept_up w (master_status_event ep ct event m s w) h
        (elim (master_status_event-IsConsistent ep ct event s m w h.0) [
          | inl (w', run, (c, _)) ↦ Ensures-Returns (IsConsistent ep ct) _ (w', run, c)
          | inr (inl (_, run)) ↦ rw run (Ensures-abort (IsConsistent ep ct) _)
          | inr (inr (p, e, foreign, run)) ↦ rw run (Ensures-abort (IsConsistent ep ct) _)
        ])
        (status_event-Kept ep ct event m s w)

  -- What holds between any two calls of the loop.
  abbrev pub Holds : Timers × Master → Type 0
  Holds s = IsServing (joined ep ct s)

  retimed :
      (w : Master) (t : Timers) (now : ℕ)
      → IsServing w
      → IsValid t
      → 0 < now
      → IsServing (record w { timers = t; clock = now })
  retimed w t now (c, open_fd) v some_time = (
    record {
      sized = c.sized;
      table = c.table;
      statuses = c.statuses;
      timers = v;
      clock = some_time;
      counts = c.counts;
    },
    open_fd,
  )

  abbrev Calm : Timers × Master → Timers × Master → Type 0
  Calm s = Fewer (master_handlers ep ct) Holds (length s.0.queue)

  timer-Kept : (c x : ℕ) (s : Timers × Master) → Holds s → Ensures (Calm s) (call_timer ep ct c x s)
  unfolding call_timer
  timer-Kept c x s h =
      Ensures-if (Calm s) (c == master_unthrottle_wrapper) _ _
        (Ensures-then (Calm s) (λ w. IsServing w × FewerTimers (joined ep ct s) w)
          (master_unthrottle ep ct x (joined ep ct s)) _
          (λ w run. (
            unthrottle-Ensures x (joined ep ct s) h w run,
            unthrottle-fewer x (joined ep ct s) w run,
          ))
          (λ w q. Ensures-ok (Calm s) (split ep ct w) q))
        (Ensures-abort (Calm s) undefined)

  ready-Kept :
      (given : Input) (c fd x : ℕ) (s : Timers × Master)
      → Holds s
      → Ensures Holds (call_ready ep ct given c fd x s)
  unfolding call_ready
  ready-Kept given c fd x s h =
      Ensures-if Holds (c == master_avail_event_fn) _ _
        (Ensures-then Holds IsServing (master_avail_event ep ct fd given.forked x (joined ep ct s))
          _ (avail_event-Ensures fd given.forked x (joined ep ct s) h)
          (λ w q. Ensures-ok Holds (split ep ct w) q))
        (Ensures-if Holds (c == master_status_event_fn) _ _
          (Ensures-then Holds IsServing
            (master_status_event ep ct fd given.message x (joined ep ct s)) _
            (status_event-Ensures fd given.message x (joined ep ct s) h)
            (λ w q. Ensures-ok Holds (split ep ct w) q))
          (Ensures-abort Holds undefined))

  taken-Kept :
      (s : Timers × Master) (u : Timer) (t : Timers)
      → Holds s
      → next_due s.0 ≡ some (u, t)
      → Holds (t, s.1)
  taken-Kept s u t h e =
      let (same, first) = next_due-shorter s.0 t u e in
      retimed (joined ep ct s) t s.1.clock h
        (subst IsValid (sym same) (IsValid-tail s.0 h.0.timers first)) h.0.clock

  pub master_handlers-IsKept : IsKept (master_handlers ep ct) Holds
  master_handlers-IsKept = record {
    timers = timer-Kept;
    ready = ready-Kept;
    taken = taken-Kept;
    before = λ now s h some_time.
        retimed (joined ep ct s) (before_wait now s.0) s.1.clock h
          (before_wait-IsValid now s.0 h.0.timers some_time) h.0.clock;
    later = λ now s h some_time.
        retimed (joined ep ct s) (record s.0 { present = now }) now h
          (record { queue = h.0.timers.queue; fresh = λ z. absurd (omega arith) }) some_time;
  }
