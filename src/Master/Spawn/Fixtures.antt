-- ===== src/Master/Spawn/Fixtures.antt =====
-- The functions of src/master/master_spawn.c, and `master_avail_event`, do not change the name, the type, MASTER_FLAG_MARK and the listen socket of a service.
use nowra.Base.{
  ℕ, refl, ◌∙◌, not, ◌&&◌, Option, none, some, List, [], ◌∷◌, ◌==◌, if◌then◌else◌, ℤ, pos, decr,
  ltb_ℤ, eqb_ℤ, ok, Ensures, Ensures-ok, Ensures-abort, Ensures-if, Ensures-bind,
}
use nowra.Events.Kernel.{Epoll}
use nowra.Master.Table.{Proc, ChildTable, stat_avail}
use nowra.Master.{World, find_proc, limit_ok, master_unthrottle_wrapper}
use nowra.Master.Keeps.{then-Keeps, disable_read-Keeps}
use nowra.Master.Fixtures.{
  fixtures, fixtures-put, fixtures-IsBlind, Kept, listen-Kept, more-Kept, less-Kept,
}
use nowra.Timer.{event_request_timer}
use nowra.Master.Spawn.{
  uncount, delete_in, master_delete_child, bad_startup, reap_one, master_reap_child,
  master_throttle, master_unthrottle, master_spawn, master_avail_event, adopt, with_table,
}

module _ (ep : Epoll) (ct : ChildTable) where
  abbrev Master : Type 0
  Master = World ep ct

  pub throttle-Kept : (s : ℕ) (w : Master) → Ensures (Kept ep ct w) (master_throttle ep ct s w)
  unfolding master_throttle
  throttle-Kept s w =
      let v = w.servs s in
      Ensures-if (Kept ep ct w) v.flags.throttle _ _ (Ensures-ok (Kept ep ct w) w refl) (
        Ensures-bind (Kept ep ct w)
          (event_request_timer master_unthrottle_wrapper s v.throttle_delay w.clock w.timers) _
          (λ r. Ensures-ok (Kept ep ct w) _ (fixtures-put ep ct w s _ refl)))

  pub unthrottle-Kept : (s : ℕ) (w : Master) → Ensures (Kept ep ct w) (master_unthrottle ep ct s w)
  unfolding master_unthrottle
  unthrottle-Kept s w =
      Ensures-if (Kept ep ct w) (w.servs s).flags.throttle _ _
        (listen-Kept ep ct s w _ (fixtures-put ep ct w s _ refl)) (Ensures-ok (Kept ep ct w) w refl)

  adopt-Kept : (pid s : ℕ) (t : ct.T) (w : Master) → Ensures (Kept ep ct w) (adopt ep ct pid s t w)
  unfolding adopt
  adopt-Kept pid s t w =
      then-Keeps ep ct (fixtures ep ct) w _ _
        (more-Kept ep ct s _ w _ (fixtures-put ep ct w s _ refl))
        (λ w'. Ensures-ok (Kept ep ct w') _ (fixtures-put ep ct w' s _ refl))

  spawn-Kept :
      (forked : Option ℕ) (s : ℕ) (w : Master)
      → Ensures (Kept ep ct w) (master_spawn ep ct forked s w)
  unfolding master_spawn
  spawn-Kept forked s w =
      let v = w.servs s in
      Ensures-if (Kept ep ct w) (not (limit_ok v.max_proc v.total_proc)) _ _
        (Ensures-abort (Kept ep ct w) _)
        (Ensures-if (Kept ep ct w) (ltb_ℤ (pos 0) v.avail_proc) _ _ (Ensures-abort (Kept ep ct w) _)
          (Ensures-if (Kept ep ct w) v.flags.throttle _ _ (Ensures-abort (Kept ep ct w) _)
            (branch forked)))
    where
      branch :
          (forked : Option ℕ)
          → Ensures (Kept ep ct w) (elim forked [
            | none ↦
                master_throttle ep ct s
                  (record w { child_table = some (with_table ep ct w.child_table) })
            | some pid ↦ adopt ep ct pid s (with_table ep ct w.child_table) w
          ])
      branch none = throttle-Kept s _
      branch (some pid) = adopt-Kept pid s _ w

  pub avail_event-Kept :
      (event : ℕ) (forked : Option ℕ) (s : ℕ) (w : Master)
      → Ensures (Kept ep ct w) (master_avail_event ep ct event forked s w)
  unfolding master_avail_event
  avail_event-Kept event forked s w =
      Ensures-if (Kept ep ct w) (event == 0) _ _ (Ensures-ok (Kept ep ct w) w refl) (
        Ensures-if (Kept ep ct w) (w.servs s).flags.throttle _ _
          (disable_read-Keeps ep ct (fixtures ep ct) (fixtures-IsBlind ep ct) (w.servs s).listen_fd
            w)
          (spawn-Kept forked s w))

  uncount-Kept : (p : Proc) (w : Master) → Ensures (Kept ep ct w) (uncount ep ct p w)
  unfolding uncount
  uncount-Kept p w =
      let v = w.servs p.serv in
      let fewer = record v { total_proc = decr v.total_proc } in
      let same = fixtures-put ep ct w p.serv fewer refl in
      Ensures-if (Kept ep ct w) (eqb_ℤ p.avail stat_avail) _ _
        (λ w' run. less-Kept ep ct p.serv p _ w' run ∙ same)
        (Ensures-if (Kept ep ct w)
          (limit_ok fewer.max_proc fewer.total_proc && ltb_ℤ fewer.avail_proc (pos 1)) _ _
          (listen-Kept ep ct p.serv w _ same) (Ensures-ok (Kept ep ct w) _ same))

  delete_child-Kept :
      (p : Proc) (w : Master) → Ensures (Kept ep ct w) (master_delete_child ep ct p w)
  unfolding master_delete_child
  delete_child-Kept p w =
      then-Keeps ep ct (fixtures ep ct) w (uncount ep ct p w) _ (uncount-Kept p w) (λ w'.
        Ensures-bind (Kept ep ct w') (delete_in ep ct p.pid w'.child_table) _
          (λ tb. Ensures-ok (Kept ep ct w') _ refl))

  reap_one-Kept :
      (found : Option Proc) (status : ℤ) (w : Master)
      → Ensures (Kept ep ct w) (reap_one ep ct found status w)
  unfolding reap_one
  reap_one-Kept none status w = Ensures-abort (Kept ep ct w) _
  reap_one-Kept (some p) status w =
      then-Keeps ep ct (fixtures ep ct) w
        (if bad_startup ep ct p status w then master_throttle ep ct p.serv w else ok w) _
        (Ensures-if (Kept ep ct w) (bad_startup ep ct p status w) _ _ (throttle-Kept p.serv w)
          (Ensures-ok (Kept ep ct w) w refl))
        (λ w'. delete_child-Kept p w')

  pub reap_child-Kept :
      (dead : List (ℕ × ℤ)) (w : Master) → Ensures (Kept ep ct w) (master_reap_child ep ct dead w)
  unfolding master_reap_child
  reap_child-Kept [] w = Ensures-ok (Kept ep ct w) w refl
  reap_child-Kept ((pid, status) ∷ more) w =
      then-Keeps ep ct (fixtures ep ct) w (reap_one ep ct (find_proc ep ct pid w) status w) _
        (reap_one-Kept (find_proc ep ct pid w) status w) (λ w'. reap_child-Kept more w')
