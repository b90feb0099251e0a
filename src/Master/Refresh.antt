-- ===== src/Master/Refresh.antt =====
-- `master_refresh` of src/master/master_conf.c, and the stopping of services in src/master/master_service.c, master_avail.c,
-- master_listen.c and master_spawn.c. The signal to the children is left out: what comes
-- of it is what `waitpid` gives.
pub mod Children
pub mod Deleted
pub mod Entries
pub mod Listed
pub mod Mirrors
pub mod Once
pub mod Served
pub mod Stopped
use nowra.Base.{
  ℕ, zero, suc, Bool, true, false, Option, none, some, List, [], ◌∷◌, ◌==◌, if◌then◌else◌, ℤ, pos,
  negsuc, ltb_ℤ, Outcome, ok, abort, undefined, ◌>>=◌,
}
use nowra.Events.Kernel.{Epoll}
use nowra.Master.Table.{Proc, ChildTable}
use nowra.Master.{Serv, World, put_serv, set_flags, disable_read}
use nowra.Master.Fields.{Settings, Conf}
use nowra.Master.Spawn.{master_throttle, master_unthrottle, master_reap_child}
use nowra.Master.Service.{Given, Services, master_status_cleanup, config_loop}

module _ (ep : Epoll) (ct : ChildTable) where
  abbrev Master : Type 0
  Master = World ep ct

  -- `while (serv->total_proc > 0) master_reap_child();`, over what `waitpid` gives in each turn. Without a further turn the
  -- loop has not come to its end.
  unfoldable pub reap_all : List (List (ℕ × ℤ)) → ℕ → Master → Outcome Master
  reap_all [] s w = if ltb_ℤ (pos 0) (w.servs s).total_proc then abort undefined else ok w
  reap_all (dead ∷ more) s w =
      let rest = master_reap_child ep ct dead w >>= λ w'. reap_all more s w' in
      if ltb_ℤ (pos 0) (w.servs s).total_proc then rest else ok w

  -- `master_delete_children`
  unfoldable pub master_delete_children : List (List (ℕ × ℤ)) → ℕ → Master → Outcome Master
  master_delete_children waits s w =
      master_throttle ep ct s w >>= λ w1. reap_all waits s w1 >>= λ w2. master_unthrottle ep ct s w2

  -- `master_avail_cleanup`
  unlisten : ℕ → Master → Outcome Master
  unlisten s w =
      if (w.servs s).flags.listen
      then (disable_read ep ct (w.servs s).listen_fd w >>= λ w'.
          ok (set_flags ep ct s (record (w'.servs s).flags { listen = false }) w'))
      else ok w

  unfoldable pub master_avail_cleanup : List (List (ℕ × ℤ)) → ℕ → Master → Outcome Master
  unfolding unlisten
  master_avail_cleanup waits s w = master_delete_children waits s w >>= λ w'. unlisten s w'

  -- `master_listen_cleanup`
  abbrev pub master_listen_cleanup : ℕ → Master → Master
  master_listen_cleanup s w = put_serv ep ct s (record (w.servs s) { listen_fd = negsuc 0 }) w

  -- `master_stop_service`
  unfoldable pub master_stop_service : List (List (ℕ × ℤ)) → ℕ → Master → Outcome Master
  master_stop_service waits s w = master_status_cleanup ep ct s w >>= λ w1.
      master_avail_cleanup waits s w1 >>= λ w2. ok (master_listen_cleanup s w2)

  -- The first loop of `master_refresh`
  unfoldable pub mark_all : List ℕ → Master → Master
  mark_all [] w = w
  mark_all (s ∷ head) w =
      mark_all head (set_flags ep ct s (record (w.servs s).flags { mark = true }) w)

  -- The last loop: what stays on the list, and the state. `waits` has what `waitpid` gives while a service is stopped.
  unfoldable pub sweep : (ℕ → List (List (ℕ × ℤ))) → List ℕ → Master → Outcome (List ℕ × Master)
  sweep waits [] w = ok ([], w)
  sweep waits (s ∷ head) w =
      let stopped = master_stop_service (waits s) s w >>= λ w'. sweep waits head w' in
      let kept = sweep waits head w >>= λ (left, w'). ok (s ∷ left, w') in
      if (w.servs s).flags.mark then stopped else kept

  -- `master_refresh`
  unfoldable pub master_refresh :
      Settings
      → List Given
      → Conf
      → (ℕ → List (List (ℕ × ℤ)))
      → Services ep ct
      → Outcome (Services ep ct)
  master_refresh set given conf waits st =
      config_loop ep ct set given conf (record st { world = mark_all st.head st.world }) >>= λ st'.
      sweep waits st'.head st'.world >>= λ (left, w). ok (record { head = left; world = w })
