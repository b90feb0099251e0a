-- ===== src/Main.antt =====
-- src/master/master.c: the process manager reads its configuration, and then waits for timers and descriptors for ever. Its
-- handlers are those of src/master/master_avail.c, master_status.c and master_spawn.c.
pub mod Loop
pub mod Serving
pub mod Stale
pub mod Startup
pub mod Idle
use nowra.Base.{
  ℕ, zero, suc, ◌+◌, Bool, true, false, Option, none, some, List, [], ◌∷◌, length, ◌==◌,
  if◌then◌else◌, ℤ, pos, negsuc, Outcome, ok, abort, panic, undefined, ◌>>=◌,
}
use nowra.Events.{EventLoop, event_init}
use nowra.Events.Kernel.{Epoll}
use nowra.Timer.{Timers}
use nowra.Wait.{Turn, Handlers, wait_forever}
use nowra.Master.Table.{ChildTable}
use nowra.Master.{
  Flags, Serv, World, master_unthrottle_wrapper, master_avail_event_fn, master_status_event_fn,
}
use nowra.Master.Fields.{Settings, Conf}
use nowra.Master.Spawn.{master_unthrottle, master_avail_event}
use nowra.Master.Status.{Message, master_status_event}
use nowra.Master.Service.{Given, Services, config_loop}

-- What a handler is given beside its arguments: what `fork` returns, and what `read` finds in the pipe.
pub record Input : Type 0 where
  pub forked : Option ℕ
  pub message : Message

-- MASTER_MAX_CLIENTS
abbrev pub master_max_clients : ℕ
master_max_clients = 10000

module _ (ep : Epoll) (ct : ChildTable) where
  abbrev pub Master : Type 0
  Master = World ep ct

  -- The timers are those of the state.
  abbrev pub joined : Timers × Master → Master
  joined s = record s.1 { timers = s.0 }

  abbrev pub split : Master → Timers × Master
  split w = (w.timers, w)

  -- The calls through the pointers. No other function is registered by the master.
  unfoldable pub call_timer : (callback context : ℕ) → Timers × Master → Outcome (Timers × Master)
  call_timer callback context s =
      if callback == master_unthrottle_wrapper
      then (master_unthrottle ep ct context (joined s) >>= λ w. ok (split w))
      else abort undefined

  unfoldable pub call_ready :
      Input → (callback fd context : ℕ) → Timers × Master → Outcome (Timers × Master)
  call_ready given callback fd context s =
      if callback == master_avail_event_fn
      then (master_avail_event ep ct fd given.forked context (joined s) >>= λ w. ok (split w))
      else if callback == master_status_event_fn
      then (master_status_event ep ct fd given.message context (joined s) >>= λ w. ok (split w))
      else abort undefined

  abbrev pub master_handlers : Handlers Input Master
  master_handlers = record {
    loop_of = λ w. some w.event_loop;
    at_time = λ now w. record w { clock = now };
    call_timer = call_timer;
    call_ready = call_ready;
  }

  -- The memory before `master_config` writes a service to it.
  abbrev pub unused : Serv
  unused = record {
    flags = record {
      throttle = false;
      mark = false;
      condwake = false;
      inethost = false;
      listen = false;
    };
    name = [];
    type = 0;
    wakeup_time = pos 0;
    listen_fd = pos 0;
    port = [];
    host = none;
    max_proc = 0;
    path = [];
    args = [];
    avail_proc = pos 0;
    total_proc = pos 0;
    throttle_delay = pos 0;
    status_fd = (negsuc 0, negsuc 0);
  }

  -- The state of the process after `event_init` has returned a loop.
  abbrev pub at_start : EventLoop → ep.K → (clock : ℕ) → Services ep ct
  at_start l k clock = record {
    head = [];
    world = record {
      event_loop = l;
      kernel = k;
      timers = record { present = 0; queue = [] };
      servs = λ s. unused;
      child_table = none;
      clock = clock;
    };
  }

  -- `static int nested = -1`
  run_from : List (Turn Input) → Outcome (Services ep ct) → Option (Outcome (ℤ × Timers × Master))
  run_from turns (abort x) = some (abort x)
  run_from turns (ok st) = wait_forever master_handlers turns (negsuc 0, st.world.timers, st.world)

  -- Without a loop the first registration or the first wait ends the program, if the configuration does not.
  started :
      Option EventLoop
      → Settings
      → List Given
      → Conf
      → ep.K
      → ℕ
      → List (Turn Input)
      → Option (Outcome (ℤ × Timers × Master))
  unfolding run_from
  started none set given conf k clock turns = some (abort (panic "%s: event no init."))
  started (some l) set given conf k clock turns =
      run_from turns (config_loop ep ct set given conf (at_start l k clock))

  unfoldable pub main :
      (created : Bool)
      → Settings
      → List Given
      → Conf
      → ep.K
      → ℕ
      → List (Turn Input)
      → Option (Outcome (ℤ × Timers × Master))
  unfolding started
  main created set given conf k clock turns =
      started (event_init created master_max_clients) set given conf k clock turns
