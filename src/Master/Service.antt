-- ===== src/Master/Service.antt =====
-- src/master/master_service.c and src/master/master_conf.c, with master_listen_init of master_listen.c and the start
-- and the end of status events of master_status.c: services are started and restarted as the
-- configuration is read. Whether flags of descriptors can be set is left out.
pub mod Enough
pub mod Idents
pub mod Names
pub mod Same
use nowra.Base.{
  ℕ, zero, suc, Bool, true, false, not, ◌&&◌, ◌||◌, Option, none, some, List, [], ◌∷◌, ◌==◌,
  if◌then◌else◌, ℤ, pos, negsuc, ltb_ℤ, Outcome, ok, abort, panic, fatal, undefined, ◌>>=◌,
}
use nowra.Events.Kernel.{Epoll}
use nowra.Master.Table.{ChildTable}
use nowra.Master.{
  Serv, World, put_serv, enable_read, disable_read, master_avail_listen, master_status_event_fn,
}
use nowra.Master.Fields.{Settings, Conf, same_text}
use nowra.Master.Entry.{get_master_ent}

-- What the system gives for an entry: the address of its structure, what inet_listen() returns, and the two ends of
-- the pipe, if there is one.
pub record Given : Type 0 where
  pub address : ℕ
  pub listen_fd : ℤ
  pub pipe : Option (ℤ × ℤ)

module _ (ep : Epoll) (ct : ChildTable) where
  abbrev Master : Type 0
  Master = World ep ct

  -- `master_listen_init`: MASTER_SERV_TYPE_UNIX is 1, _INET 2 and _FIFO 3.
  unfoldable pub master_listen_init : ℤ → ℕ → Master → Outcome Master
  master_listen_init listen_fd s w =
      let v = w.servs s in
      if v.type == 1 || v.type == 3
      then ok w
      else if v.type == 2
      then ok (put_serv ep ct s (record v { listen_fd = listen_fd }) w)
      else abort (panic "master_listen_init: unknown service type")

  -- `master_status_init`
  unfoldable pub with_pipe : Option (ℤ × ℤ) → ℕ → Master → Outcome Master
  with_pipe none s w = abort (fatal "pipe: %m")
  with_pipe (some (fd0, fd1)) s w =
      enable_read ep ct fd0 master_status_event_fn s
        (put_serv ep ct s (record (w.servs s) { status_fd = (fd0, fd1) }) w)

  unfoldable pub master_status_init : Option (ℤ × ℤ) → ℕ → Master → Outcome Master
  master_status_init pipe s w =
      let (fd0, fd1) = (w.servs s).status_fd in
      if not (ltb_ℤ fd0 (pos 0)) || not (ltb_ℤ fd1 (pos 0))
      then abort (panic "master_status_init: status events already enabled")
      else with_pipe pipe s w

  -- `master_status_cleanup`
  unfoldable pub master_status_cleanup : ℕ → Master → Outcome Master
  master_status_cleanup s w =
      let (fd0, fd1) = (w.servs s).status_fd in
      if ltb_ℤ fd0 (pos 0) || ltb_ℤ fd1 (pos 0)
      then abort (panic "master_status_cleanup: status events not enabled")
      else disable_read ep ct fd0 w >>= λ w'.
          ok (put_serv ep ct s (record (w'.servs s) { status_fd = (negsuc 0, negsuc 0) }) w')

  -- `master_start_service` and `master_restart_service`
  unfoldable pub master_start_service : Given → ℕ → Master → Outcome Master
  master_start_service given s w = master_listen_init given.listen_fd s w >>= λ w1.
      master_avail_listen ep ct s w1 >>= λ w2. master_status_init given.pipe s w2

  unfoldable pub master_restart_service : Given → ℕ → Master → Outcome Master
  master_restart_service given s w =
      master_status_cleanup s w >>= λ w'. master_status_init given.pipe s w'

-- `serv->name` and `serv->type`, by which a service is known.
abbrev pub names_of : (ℕ → Serv) → ℕ → List ℕ × ℕ
names_of servs s = ((servs s).name, (servs s).type)

-- The search of `master_config`
unfoldable pub find_service : List ℕ × ℕ → List ℕ → (ℕ → List ℕ × ℕ) → Option ℕ
find_service (name, type) [] names = none
find_service (name, type) (s ∷ head) names =
    let rest = find_service (name, type) head names in
    if same_text (names s).0 name && (names s).1 == type then some s else rest

-- The members of the existing service that an entry sets.
unfoldable pub updated : Serv → Serv → Serv
updated entry v = record v {
  flags = record (v.flags) { mark = false; condwake = entry.flags.condwake };
  wakeup_time = entry.wakeup_time;
  max_proc = entry.max_proc;
  throttle_delay = entry.throttle_delay;
  path = entry.path;
  args = entry.args;
}

module _ (ep : Epoll) (ct : ChildTable) where
  -- `master_head` as the list of the addresses, and the rest of the state.
  pub record Services : Type 0 where
    pub head : List ℕ
    pub world : World ep ct

  unfoldable pub enter_service : Given → Serv → Option ℕ → Services → Outcome Services
  enter_service given entry none st =
      master_start_service ep ct given given.address (put_serv ep ct given.address entry st.world)
      >>= λ w. ok (record { head = given.address ∷ st.head; world = w })
  enter_service given entry (some s) st =
      master_restart_service ep ct given s
        (put_serv ep ct s (updated entry (st.world.servs s)) st.world)
      >>= λ w. ok (record { head = st.head; world = w })

  -- A turn of the loop of `master_config`
  unfoldable pub config_entry : Given → Serv → Services → Outcome Services
  config_entry given entry st =
      enter_service given entry
        (find_service (entry.name, entry.type) st.head (names_of st.world.servs)) st

  -- The loop of `master_config`, for the entries that the list of what is given reaches.
  unfoldable pub config_turn :
      (Conf → Services → Outcome Services)
      → Given
      → Services
      → Option Serv × Conf
      → Outcome Services
  config_turn rest given st (none, conf) = ok st
  config_turn rest given st (some entry, conf) =
      config_entry given entry st >>= λ st'. rest conf st'

  unfoldable pub config_loop : Settings → List Given → Conf → Services → Outcome Services
  config_loop set [] conf st = abort undefined
  config_loop set (given ∷ more) conf st =
      let rest = config_loop set more in
      get_master_ent set conf >>= λ read. config_turn rest given st read
