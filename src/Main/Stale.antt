-- ===== src/Main/Stale.antt =====
-- A turn of the loop of src/master/master.c in which `epoll_wait` reports a status message and a connection.
use nowra.Base.{
  subst, ◌∙◌, ℕ, suc, ◌≡◌, refl, true, false, some, [], ◌∷◌, ◌==◌, ℤ, pos, ltb_ℤ, abort, panic, ◌<◌,
}
use nowra.Events.Kernel.{Epoll}
use nowra.Events.Stays.{IsCalled}
use nowra.Timer.Queue.{IsQueue}
use nowra.Wait.{Ready, events, event_wait, call_all}
use nowra.Wait.Aborts.{call_all-first, event_wait-aborts}
use nowra.Master.Table.{Proc, ChildTable, stat_taken, stat_avail}
use nowra.Master.{World, find_in, listen_flag, master_avail_event_fn, master_status_event_fn}
use nowra.Master.Counts.{IsConsistent}
use nowra.Master.Status.Update.Stale.{told_first}
use nowra.Main.{Input, master_handlers, call_ready}

-- An event for reading.
abbrev pub readable : (fd : ℕ) → Input → Ready Input
readable fd given = record { fd = pos fd; epollin = true; epollout = false; given = given }

module _ (ep : Epoll) (ct : ChildTable) (p : Proc) where
  -- The state of the master during the calls of a turn without timers.
  abbrev in_turn : (now' : ℕ) → World ep ct → World ep ct
  in_turn now' w = record w { clock = now'; timers = record { present = now'; queue = [] } }

  in_turn-IsConsistent :
      (now' : ℕ) (w : World ep ct)
      → 0 < now'
      → w.timers.queue ≡ []
      → IsConsistent ep ct w
      → IsConsistent ep ct (in_turn now' w)
  in_turn-IsConsistent now' w some_time no_timers c = record {
    sized = c.sized;
    table = c.table;
    statuses = c.statuses;
    timers = record { queue = subst IsQueue no_timers c.timers.queue; fresh = λ z. refl };
    clock = some_time;
    counts = c.counts;
  }

  -- Both calls, one after the other.
  module _ (fd fd' : ℕ) (given given' : Input) (w : World ep ct) (c : IsConsistent ep ct w)
      (e : find_in ep ct p.pid w.child_table ≡ some p)
      (status : IsCalled fd master_status_event_fn p.serv w.event_loop)
      (listen : IsCalled fd' master_avail_event_fn p.serv w.event_loop)
      (lower : ltb_ℤ (pos fd') w.event_loop.maxfd ≡ true)
      (socket : (w.servs p.serv).listen_fd ≡ pos fd') (nonzero : (fd == 0) ≡ false)
      (nonzero' : (fd' == 0) ≡ false) where
    both_calls :
        given.message.n ≡ pos 8
        → given.message.pid ≡ p.pid
        → given.message.avail ≡ stat_avail
        → p.avail ≡ stat_taken
        → listen_flag (w.servs p.serv) ≡ true
        → call_all
            (master_handlers ep ct)
            (readable fd given ∷ readable fd' given' ∷ [])
            (w.timers, w)
          ≡ abort (panic "%s: processes available: %d")
    unfolding call_ready
    both_calls whole same_pid avail taken wanted =
        let (below, (eb, found, cb, kept)) = status in
        let (w', run, ((below', (eb', found', cb', kept')), refuses)) =
          told_first ep ct p w c e fd' socket listen lower fd given.message nonzero whole same_pid
            avail taken wanted in
        call_all-first (master_handlers ep ct) (readable fd given) (readable fd' given' ∷ [])
          (w.timers, w) w.event_loop fd eb refl refl below found refl
        ∙ rw (cb, kept, run)
            (call_all-first (master_handlers ep ct) (readable fd' given') [] (w'.timers, w')
                w'.event_loop fd' eb' refl refl below' found' refl
              ∙ rw (cb', kept', refuses fd' given'.forked nonzero') refl)

  -- A service is listened for and one of its children is taken. If in one wait the kernel reports first that this child tells
  -- that it is available and then that there is a connection, `event_wait` makes the master panic: the listen socket is no
  -- longer waited for after the first, but its function is called all the same. There are no timers, the clock is past zero,
  -- and the listen socket is not the highest descriptor that is watched.
  pub stale-panics :
      (fuel now now' : ℕ) (nested : ℤ) (fd fd' : ℕ) (given given' : Input) (w : World ep ct)
      → 0 < now'
      → ltb_ℤ (pos 0) nested ≡ false
      → w.timers.queue ≡ []
      → IsConsistent ep ct w
      → find_in ep ct p.pid w.child_table ≡ some p
      → IsCalled fd master_status_event_fn p.serv w.event_loop
      → IsCalled fd' master_avail_event_fn p.serv w.event_loop
      → ltb_ℤ (pos fd') w.event_loop.maxfd ≡ true
      → (w.servs p.serv).listen_fd ≡ pos fd'
      → (fd == 0) ≡ false
      → (fd' == 0) ≡ false
      → given.message.n ≡ pos 8
      → given.message.pid ≡ p.pid
      → given.message.avail ≡ stat_avail
      → p.avail ≡ stat_taken
      → listen_flag (w.servs p.serv) ≡ true
      → event_wait
          (master_handlers ep ct)
          (suc fuel)
          now
          now'
          (events (readable fd given ∷ readable fd' given' ∷ []))
          (nested, w.timers, w)
        ≡ some (abort (panic "%s: processes available: %d"))
  unfolding call_all call_ready
  stale-panics fuel now now' nested fd fd' given given' w some_time flat no_timers c e status listen
        lower socket nonzero nonzero' whole same_pid avail taken wanted =
      event_wait-aborts (master_handlers ep ct) fuel now now'
        (readable fd given ∷ readable fd' given' ∷ []) nested w.timers w w.event_loop
        (panic "%s: processes available: %d") refl no_timers flat
        (both_calls fd fd' given given' (in_turn now' w)
          (in_turn-IsConsistent now' w some_time no_timers c) e status listen lower socket nonzero
          nonzero' whole same_pid avail taken wanted)
