-- ===== src/Master/Spawn.antt =====
-- src/master/master_spawn.c: children are spawned, throttled, reaped and deleted.
pub mod Throttle
pub mod Adopt
pub mod Delete
pub mod Reap
pub mod Fixtures
use nowra.Base.{
  ℕ, zero, suc, ◌+◌, Bool, true, false, not, ◌&&◌, ◌||◌, Option, none, some, List, [], ◌∷◌, ltb,
  ◌==◌, if◌then◌else◌, ℤ, pos, negsuc, incr, decr, ltb_ℤ, eqb_ℤ, Outcome, ok, abort, panic, ◌>>=◌,
}
use nowra.Events.Kernel.{Epoll}
use nowra.Master.Table.{Proc, ChildTable, stat_taken, stat_avail}
use nowra.Timer.{Timers, event_request_timer, event_cancel_timer}
use nowra.Master.{
  Flags, Serv, World, put_serv, set_flags, put_proc, find_proc, limit_ok, disable_read,
  master_avail_listen, master_avail_more, master_avail_less, master_unthrottle_wrapper,
}

module _ (ep : Epoll) (ct : ChildTable) where
  abbrev Master : Type 0
  Master = World ep ct

  -- master_spawn.c: `master_throttle`
  unfoldable pub master_throttle : ℕ → Master → Outcome Master
  master_throttle s w =
      let v = w.servs s in
      if v.flags.throttle then ok w else do
        (_, timers) ←
            event_request_timer master_unthrottle_wrapper s v.throttle_delay w.clock w.timers
        ok (record (set_flags ep ct s (record v.flags { throttle = true }) w) { timers = timers })

  -- `master_unthrottle`, and `master_unthrottle_wrapper`, which calls it
  unfoldable pub master_unthrottle : ℕ → Master → Outcome Master
  master_unthrottle s w =
      let v = w.servs s in
      if v.flags.throttle
      then (let (_, timers) = event_cancel_timer master_unthrottle_wrapper s w.clock w.timers in
          let released = set_flags ep ct s (record v.flags { throttle = false }) w in
          master_avail_listen ep ct s (record released { timers = timers }))
      else ok w

  -- `if (master_child_table == 0) master_child_table = binhash_create(0);`
  with_table : Option ct.T → ct.T
  with_table none = ct.create
  with_table (some t) = t

  -- The parent's branch of `fork()`.
  adopt : ℕ → ℕ → ct.T → Master → Outcome Master
  adopt pid s t w =
      let v = w.servs s in
      let p : Proc = record { pid = pid; avail = stat_taken; serv = s; use_count = 0 } in
      let counted = put_serv ep ct s (record v { total_proc = incr v.total_proc }) w in
      do
        w' ← master_avail_more ep ct s p (record counted { child_table = some (ct.enter t pid p) })
        ok (set_flags ep ct s (record (w'.servs s).flags { condwake = false }) w')

  -- `master_spawn`, where `fork()` returned -1 (`none`) or the process id of the child.
  unfoldable pub master_spawn : (forked : Option ℕ) → ℕ → Master → Outcome Master
  unfolding adopt with_table
  master_spawn forked s w =
      let v = w.servs s in
      if not (limit_ok v.max_proc v.total_proc)
      then abort (panic "%s: at process limit %d")
      else if ltb_ℤ (pos 0) v.avail_proc
      then abort (panic "%s: processes available: %d")
      else if v.flags.throttle
      then abort (panic "%s: throttled service: %s")
      else elim forked [
        | none ↦ master_throttle s (record w { child_table = some (with_table w.child_table) })
        | some pid ↦ adopt pid s (with_table w.child_table) w
      ]

  -- `master_avail_event`
  unfoldable pub master_avail_event :
      (event : ℕ) → (forked : Option ℕ) → ℕ → Master → Outcome Master
  master_avail_event event forked s w =
      if event == 0
      then ok w
      else if (w.servs s).flags.throttle
      then disable_read ep ct (w.servs s).listen_fd w
      else master_spawn forked s w

  -- The update of the service's counts in `master_delete_child`.
  uncount : Proc → Master → Outcome Master
  uncount p w =
      let v = w.servs p.serv in
      let fewer = record v { total_proc = decr v.total_proc } in
      let w' = put_serv ep ct p.serv fewer w in
      if eqb_ℤ p.avail stat_avail
      then master_avail_less ep ct p.serv p w'
      else if limit_ok fewer.max_proc fewer.total_proc && ltb_ℤ fewer.avail_proc (pos 1)
      then master_avail_listen ep ct p.serv w'
      else ok w'

  -- `binhash_delete(master_child_table, &proc->pid, sizeof(proc->pid), 0)`
  delete_in : ℕ → Option ct.T → Outcome (Option ct.T)
  delete_in pid none = ok none
  delete_in pid (some t) = do t' ← ct.delete t pid; ok (some t')

  -- `master_delete_child`
  unfoldable pub master_delete_child : Proc → Master → Outcome Master
  unfolding uncount delete_in
  master_delete_child p w = do
    w' ← uncount p w
    tb ← delete_in p.pid w'.child_table
    ok (record w' { child_table = tb })

  -- `status != 0 && proc->use_count == 0 && (serv->flags & MASTER_FLAG_THROTTLE) == 0`
  abbrev pub bad_startup : Proc → ℤ → Master → Bool
  bad_startup p status w =
      not (eqb_ℤ status (pos 0)) && p.use_count == 0 && not (w.servs p.serv).flags.throttle

  -- One turn of the loop of `master_reap_child`, with the child that `binhash_find` returned.
  reap_one : Option Proc → ℤ → Master → Outcome Master
  reap_one none status w = abort (panic "master_reap: unknown pid: %d")
  reap_one (some p) status w = do
    w' ← if bad_startup p status w then master_throttle p.serv w else ok w
    master_delete_child p w'

  -- `master_reap_child`, over what `waitpid` returns until it has no more dead children.
  unfoldable pub master_reap_child : List (ℕ × ℤ) → Master → Outcome Master
  unfolding reap_one
  master_reap_child [] w = ok w
  master_reap_child ((pid, status) ∷ more) w = do
    w' ← reap_one (find_proc ep ct pid w) status w
    master_reap_child more w'
