-- ===== src/Main/Loop.antt =====
-- `main` of src/master/master.c: whatever the system answers, the bookkeeping is right whenever the loop is at its top.
use nowra.Base.{
  ℕ, ◌<◌, ◌≡◌, refl, Bool, true, false, some, List, All, ℤ, Outcome, ok, abort, Ensures,
  Ensures-abort, Concludes,
}
use nowra.Events.{event_init}
use nowra.Events.Kernel.{Epoll}
use nowra.Timer.{Timers}
use nowra.Wait.{Turn}
use nowra.Wait.Turns.{HasTime, wait_forever-Concludes}
use nowra.Master.Table.{ChildTable}
use nowra.Master.Listening.{is_nonneg}
use nowra.Master.Fields.{Settings, Conf}
use nowra.Master.Service.{Given, Services}
use nowra.Main.{Input, Master, run_from, started, main, master_handlers, master_max_clients}
use nowra.Main.Serving.{IsServing, Holds, master_handlers-IsKept}
use nowra.Main.Startup.{config_loop-IsServing}

module _ (ep : Epoll) (ct : ChildTable) where
  abbrev pub AtTop : ℤ × Timers × Master ep ct → Type 0
  AtTop s = Holds ep ct (s.1, s.2)

  run_from-Concludes :
      (turns : List (Turn Input)) (r : Outcome (Services ep ct))
      → All HasTime turns
      → Ensures (λ st. IsServing ep ct st.world) r
      → Concludes AtTop (run_from ep ct turns r)
  unfolding run_from
  run_from-Concludes turns (abort x) times h = (abort x, refl, Ensures-abort AtTop x)
  run_from-Concludes turns (ok st) times h =
      wait_forever-Concludes (master_handlers ep ct) (Holds ep ct) (master_handlers-IsKept ep ct)
        turns _ times (h st refl)

  started-Concludes :
      (created : Bool) (set : Settings) (given : List Given) (conf : Conf) (k : ep.K) (clock : ℕ)
      (turns : List (Turn Input)) (fp : List (List ℕ))
      → is_nonneg set.var_throttle_time ≡ true
      → conf.master_fp ≡ some fp
      → 0 < clock
      → All HasTime turns
      → Concludes AtTop
          (started ep ct (event_init created master_max_clients) set given conf k clock turns)
  unfolding started event_init
  started-Concludes false set given conf k clock turns fp d open_file some_time times =
      (_, refl, Ensures-abort AtTop _)
  started-Concludes true set given conf k clock turns fp d open_file some_time times =
      run_from-Concludes turns _ times (
        config_loop-IsServing ep ct set d given conf fp master_max_clients clock k open_file
          some_time)

  -- If the configuration file is open, the delay for throttling is not negative and the clock is past zero, then whatever the file holds and
  -- whatever the system answers, `main` comes through any number of turns of its loop, or it aborts; and as long as it does
  -- not abort, the counts of every service are those of the children in the table, and every service has a listen socket.
  pub main-IsServing :
      (created : Bool) (set : Settings) (given : List Given) (conf : Conf) (k : ep.K) (clock : ℕ)
      (turns : List (Turn Input)) (fp : List (List ℕ))
      → is_nonneg set.var_throttle_time ≡ true
      → conf.master_fp ≡ some fp
      → 0 < clock
      → All HasTime turns
      → Concludes AtTop (main ep ct created set given conf k clock turns)
  unfolding main
  main-IsServing created set given conf k clock turns fp d open_file some_time times =
      started-Concludes created set given conf k clock turns fp d open_file some_time times
