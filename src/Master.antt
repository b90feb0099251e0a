-- ===== src/Master.antt =====
-- The process manager: the services and child processes of src/master/master.h, and the operations of
-- src/master/master_avail.c, src/master/master_spawn.c and src/master/master_status.c. Each function
-- takes the state of the master process and returns the state after it, or the panic that ends it.
pub mod Avail
pub mod Counts
pub mod Entry
pub mod Fields
pub mod Keeps
pub mod Listening
pub mod Table
pub mod Refresh
pub mod Service
pub mod Fixtures
pub mod Spawn
pub mod Status
use Prim.Native.String.{String}
use nowra.Base.{
  ℕ, zero, suc, ◌+◌, Bool, true, false, not, ◌&&◌, ◌||◌, Option, none, some, List, [], ◌∷◌, ltb,
  ◌==◌, if◌then◌else◌, ℤ, pos, negsuc, incr, decr, ltb_ℤ, eqb_ℤ, Outcome, ok, abort, panic, ◌>>=◌,
}
use nowra.Events.{Mask, EventLoop, event_read, event_enable_rw, event_disable_rw}
use nowra.Events.Kernel.{Epoll}
use nowra.Timer.{Timers, event_request_timer, event_cancel_timer}
use nowra.Master.Table.{Proc, ChildTable, stat_taken, stat_avail}

-- The bits of `flags`: MASTER_FLAG_THROTTLE, _MARK, _CONDWAKE, _INETHOST and _LISTEN.
pub record Flags : Type 0 where
  pub throttle : Bool
  pub mark : Bool
  pub condwake : Bool
  pub inethost : Bool
  pub listen : Bool

-- `MASTER_SERV`. Texts are lists of bytes; `children` is never used, and `next` is the list of the
-- service module.
pub record Serv : Type 0 where
  pub flags : Flags
  pub name : List ℕ
  pub type : ℕ
  pub wakeup_time : ℤ
  pub listen_fd : ℤ
  pub port : List ℕ
  pub host : Option (List ℕ)
  pub max_proc : ℕ
  pub path : List ℕ
  pub args : List (List ℕ)
  pub avail_proc : ℤ
  pub total_proc : ℤ
  pub throttle_delay : ℤ
  pub status_fd : ℤ × ℤ

-- The addresses of the handlers, of which only matters that they differ.
abbrev pub master_unthrottle_wrapper : ℕ
master_unthrottle_wrapper = 1

abbrev pub master_avail_event_fn : ℕ
master_avail_event_fn = 2

abbrev pub master_status_event_fn : ℕ
master_status_event_fn = 3

-- `MASTER_LIMIT_OK(limit, count)`
abbrev pub limit_ok : ℕ → ℤ → Bool
limit_ok limit count = limit == 0 || ltb_ℤ count (pos limit)

-- `servs` with the structure at address `s` replaced
abbrev pub update : (ℕ → Serv) → ℕ → Serv → ℕ → Serv
update servs s v r = if s == r then v else servs r

-- master_avail.c: the `listen_flag` of `master_avail_listen`.
unfoldable pub listen_flag : Serv → Bool
listen_flag v =
    if v.flags.throttle || ltb_ℤ (pos 0) v.avail_proc
    then false
    else if limit_ok v.max_proc v.total_proc
    then true
    else false

module _ (ep : Epoll) (ct : ChildTable) where
  -- The state of the master process. `servs` is the memory that holds the MASTER_SERV structures, by
  -- address; `child_table` is NULL until the first child; `clock` is what `time()` answers.
  pub record World : Type 0 where
    pub event_loop : EventLoop
    pub kernel : ep.K
    pub timers : Timers
    pub servs : ℕ → Serv
    pub child_table : Option ct.T
    pub clock : ℕ

  abbrev pub put_serv : ℕ → Serv → World → World
  put_serv s v w = record w { servs = update w.servs s v }

  abbrev pub set_flags : ℕ → Flags → World → World
  set_flags s f w = put_serv s (record (w.servs s) { flags = f }) w

  -- `event_enable_rw(master_el, fd, callback, serv, EVENT_READ)`; its result is not looked at.
  unfoldable pub enable_read : ℤ → ℕ → ℕ → World → Outcome World
  enable_read fd callback s w = do
    (_, l, k) ← event_enable_rw ep (some w.event_loop) w.kernel fd callback s event_read
    ok (record w { event_loop = l; kernel = k })

  -- `event_disable_rw(master_el, fd, EVENT_READ)`
  unfoldable pub disable_read : ℤ → World → Outcome World
  disable_read fd w = do
    (_, l, k) ← event_disable_rw ep (some w.event_loop) w.kernel fd event_read
    ok (record w { event_loop = l; kernel = k })

  unfoldable pub start_listening : ℕ → World → Outcome World
  start_listening s w = do
    w' ← enable_read (w.servs s).listen_fd master_avail_event_fn s w
    ok (set_flags s (record (w'.servs s).flags { listen = true }) w')

  unfoldable pub stop_listening : ℕ → World → Outcome World
  stop_listening s w = do
    w' ← disable_read (w.servs s).listen_fd w
    ok (set_flags s (record (w'.servs s).flags { listen = false }) w')

  -- `master_avail_listen`
  unfoldable pub master_avail_listen : ℕ → World → Outcome World
  unfolding start_listening stop_listening
  master_avail_listen s w =
      let v = w.servs s in
      if listen_flag v && not v.flags.listen
      then start_listening s w
      else if not (listen_flag v) && v.flags.listen
      then stop_listening s w
      else ok w

  unfoldable pub store_in : Proc → Option ct.T → Option ct.T
  store_in p none = none
  store_in p (some t) = some (ct.store t p.pid p)

  unfoldable pub find_in : ℕ → Option ct.T → Option Proc
  find_in pid none = none
  find_in pid (some t) = ct.find t pid

  -- A write to the structure of a child process, through the pointer that the table gave.
  abbrev pub put_proc : Proc → World → World
  put_proc p w = record w { child_table = store_in p w.child_table }

  -- `binhash_find(master_child_table, &pid, sizeof(pid))`
  abbrev pub find_proc : ℕ → World → Option Proc
  find_proc pid w = find_in pid w.child_table

  -- `master_avail_more`
  unfoldable pub master_avail_more : ℕ → Proc → World → Outcome World
  master_avail_more s p w =
      if eqb_ℤ p.avail stat_avail
      then abort (panic "%s: process already available")
      else let v = w.servs s in
        let counted = put_serv s (record v { avail_proc = incr v.avail_proc }) w in
        master_avail_listen s (put_proc (record p { avail = stat_avail }) counted)

  -- `master_avail_less`
  unfoldable pub master_avail_less : ℕ → Proc → World → Outcome World
  master_avail_less s p w =
      if eqb_ℤ p.avail stat_avail
      then (let v = w.servs s in
          let counted = put_serv s (record v { avail_proc = decr v.avail_proc }) w in
          master_avail_listen s (put_proc (record p { avail = stat_taken }) counted))
      else abort (panic "%s: process not available")
