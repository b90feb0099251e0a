-- ===== src/Main/Startup.antt =====
-- `master_config` of src/master/master_conf.c leaves a process manager without children whose services all listen, if it
-- returns.
use nowra.Base.{
  ℕ, ◌<◌, ◌≡◌, refl, inl, inr, true, false, ◌||◌, Option, none, some, List, [], ◌∷◌, arith,
  length-replicate, ◌==◌, ==_refl, ℤ, Bool-cases, Outcome, undefined, Ensures, Ensures-ok,
  Ensures-abort, Ensures-if, Ensures-then,
}
use nowra.Events.{blank, new_loop}
use nowra.Events.Kernel.{Epoll}
use nowra.Timer.Request.{empty-IsValid}
use nowra.Master.Table.{ChildTable}
use nowra.Master.{Serv, World, update, put_serv, master_avail_listen}
use nowra.Master.Listening.{is_nonneg}
use nowra.Master.Fields.{Settings, Conf}
use nowra.Master.Entry.{get_master_ent}
use nowra.Master.Entry.Fresh.{IsNew, IsRead, get_master_ent-Ensures}
use nowra.Master.Service.{
  Given, master_listen_init, master_status_cleanup, master_start_service, master_restart_service,
  updated, Services, enter_service, config_entry, config_turn, config_loop,
}
use nowra.Main.{at_start}
use nowra.Main.Serving.{IsServing}
use nowra.Main.Idle.{
  IsQuiet, same_processes, every, but, IsIdle, IsIdle-IsServing, put-IsIdle, rewrite-IsIdle,
  listen-IsIdle, status_init-IsIdle, status_cleanup-IsIdle,
}

module _ (ep : Epoll) (ct : ChildTable) where
  abbrev Master : Type 0
  Master = World ep ct

  -- A service whose structure is written, and that does not listen yet.
  abbrev Begun : ℕ → Master → Type 0
  Begun s w =
      IsIdle ep ct (but s) w
      × ((w.servs s).flags.throttle ≡ false)
      × ((w.servs s).flags.listen ≡ false)

  but_self :
      (s r : ℕ) (v : Serv) (w : Master)
      → IsIdle ep ct (but s) w
      → but s r ≡ true
      → is_nonneg (update w.servs s v r).listen_fd ≡ true
  but_self s r v w h e = elim (Bool-cases (s == r)) [
    | inl same ↦ absurd (ground arith)
    | inr other ↦ rw other (h.sockets r e)
  ]

  rebegun :
      (s : ℕ) (v : Serv) (w : Master)
      → IsIdle ep ct (but s) w
      → IsQuiet v
      → v.flags.throttle ≡ false
      → v.flags.listen ≡ false
      → Begun s (put_serv ep ct s v w)
  rebegun s v w h q awake unlistened = (
    put-IsIdle ep ct (but s) (but s) w s v h q (λ r e. but_self s r v w h e),
    rw ==_refl awake,
    rw ==_refl unlistened,
  )

  listen_init-Begun :
      (fd : ℤ) (s : ℕ) (w : Master)
      → Begun s w
      → Ensures (Begun s) (master_listen_init ep ct fd s w)
  unfolding master_listen_init
  listen_init-Begun fd s w b =
      let v = w.servs s in
      Ensures-if (Begun s) (v.type == 1 || v.type == 3) _ _ (Ensures-ok (Begun s) w b) (
        Ensures-if (Begun s) (v.type == 2) _ _
          (Ensures-ok (Begun s) _ (
            rebegun s (record v { listen_fd = fd }) w b.0
              (same_processes v _ (b.0.quiet s) refl refl refl) b.1 b.2))
          (Ensures-abort (Begun s) _))

  written :
      (set : Settings) (s : ℕ) (entry : Serv) (w : Master)
      → IsIdle ep ct every w
      → IsNew set entry
      → is_nonneg set.var_throttle_time ≡ true
      → Begun s (put_serv ep ct s entry w)
  written set s entry w h new d =
      rebegun s entry w
        (record {
          sized = h.sized;
          table = h.table;
          timers = h.timers;
          clock = h.clock;
          quiet = h.quiet;
          sockets = λ r e. h.sockets r refl;
        })
        (record { total = new.no_processes.1; avail = new.no_processes.0; delay = rw new.delay d })
        new.calm.0 new.calm.2

  -- A new service is started.
  start-IsIdle :
      (given : Given) (s : ℕ) (w : Master)
      → Begun s w
      → Ensures (IsIdle ep ct every) (master_start_service ep ct given s w)
  unfolding master_start_service
  start-IsIdle given s w b =
      Ensures-then (IsIdle ep ct every) (Begun s) (master_listen_init ep ct given.listen_fd s w) _
        (listen_init-Begun given.listen_fd s w b)
        (λ w1 b1.
          Ensures-then (IsIdle ep ct every) (IsIdle ep ct every) (master_avail_listen ep ct s w1) _
            (listen-IsIdle ep ct s w1 b1.0 b1.1 b1.2)
            (λ w2 h2. status_init-IsIdle ep ct given.pipe s w2 h2))

  restart-IsIdle :
      (given : Given) (s : ℕ) (w : Master)
      → IsIdle ep ct every w
      → Ensures (IsIdle ep ct every) (master_restart_service ep ct given s w)
  unfolding master_restart_service
  restart-IsIdle given s w h =
      Ensures-then (IsIdle ep ct every) (IsIdle ep ct every) (master_status_cleanup ep ct s w) _
        (status_cleanup-IsIdle ep ct s w h) (λ w' h'. status_init-IsIdle ep ct given.pipe s w' h')

  update-IsIdle :
      (set : Settings) (s : ℕ) (entry : Serv) (w : Master)
      → IsIdle ep ct every w
      → IsNew set entry
      → is_nonneg set.var_throttle_time ≡ true
      → IsIdle ep ct every (put_serv ep ct s (updated entry (w.servs s)) w)
  unfolding updated
  update-IsIdle set s entry w h new d =
      rewrite-IsIdle ep ct every w s (updated entry (w.servs s)) h
        (record { total = (h.quiet s).total; avail = (h.quiet s).avail; delay = rw new.delay d })
        refl

  abbrev AllIdle : Services ep ct → Type 0
  AllIdle st = IsIdle ep ct every st.world

  module _ (set : Settings) (d : is_nonneg set.var_throttle_time ≡ true) where
    enter-IsIdle :
        (given : Given) (entry : Serv) (found : Option ℕ) (st : Services ep ct)
        → IsNew set entry
        → AllIdle st
        → Ensures AllIdle (enter_service ep ct given entry found st)
    unfolding enter_service
    enter-IsIdle given entry none st new h =
        Ensures-then AllIdle (IsIdle ep ct every) _ _
          (start-IsIdle given given.address _ (written set given.address entry st.world h new d))
          (λ w h'. Ensures-ok AllIdle _ h')
    enter-IsIdle given entry (some s) st new h =
        Ensures-then AllIdle (IsIdle ep ct every) _ _
          (restart-IsIdle given s _ (update-IsIdle set s entry st.world h new d))
          (λ w h'. Ensures-ok AllIdle _ h')

    turn-IsIdle :
        (rest : Conf → Services ep ct → Outcome (Services ep ct)) (given : Given)
        (st : Services ep ct) (fp : List (List ℕ)) (read : Option Serv × Conf)
        → IsRead set fp read
        → AllIdle st
        → ((conf : Conf) (left : List (List ℕ)) (st' : Services ep ct)
            → conf.master_fp ≡ some left
            → AllIdle st'
            → Ensures AllIdle (rest conf st'))
        → Ensures AllIdle (config_turn ep ct rest given st read)
    unfolding config_turn config_entry
    turn-IsIdle rest given st fp (none, conf) r h k = Ensures-ok AllIdle st h
    turn-IsIdle rest given st fp (some entry, conf) (new, (left, open_file, less)) h k =
        Ensures-then AllIdle AllIdle (config_entry ep ct given entry st) _
          (enter-IsIdle given entry _ st new h) (λ st' h'. k conf left st' open_file h')

    config_loop-IsIdle :
        (given : List Given) (conf : Conf) (st : Services ep ct) (fp : List (List ℕ))
        → conf.master_fp ≡ some fp
        → AllIdle st
        → Ensures AllIdle (config_loop ep ct set given conf st)
    unfolding config_loop
    config_loop-IsIdle [] conf st fp open_file h = Ensures-abort AllIdle undefined
    config_loop-IsIdle (given ∷ more) conf st fp open_file h =
        Ensures-then AllIdle (IsRead set fp) (get_master_ent set conf) _
          (get_master_ent-Ensures set conf fp open_file)
          (λ read r.
            turn-IsIdle (config_loop ep ct set more) given st fp read r h
              (λ conf' left st' open_file' h'.
                config_loop-IsIdle more conf' st' left open_file' h'))

    start-AllIdle :
        (size clock : ℕ) (k : ep.K) → 0 < clock → AllIdle (at_start ep ct (new_loop size) k clock)
    start-AllIdle size clock k some_time = record {
      sized = length-replicate size blank;
      table = refl;
      timers = empty-IsValid;
      clock = some_time;
      quiet = λ r. record { total = refl; avail = refl; delay = refl };
      sockets = λ r e. refl;
    }

    -- The bookkeeping is right when the loop over the entries has ended.
    pub config_loop-IsServing :
        (given : List Given) (conf : Conf) (fp : List (List ℕ)) (size clock : ℕ) (k : ep.K)
        → conf.master_fp ≡ some fp
        → 0 < clock
        → Ensures
            (λ st. IsServing ep ct st.world)
            (config_loop ep ct set given conf (at_start ep ct (new_loop size) k clock))
    config_loop-IsServing given conf fp size clock k open_file some_time st run =
        IsIdle-IsServing ep ct st.world (
          config_loop-IsIdle given conf _ fp open_file (start-AllIdle size clock k some_time) st
            run)
