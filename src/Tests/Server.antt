-- ===== src/Tests/Server.antt =====
-- A process of src/master/single_server.c that serves a connection, and the master that reads what it tells.
use nowra.Base.{
  none, ℤ, Outcome, ok, ℕ, ◌+◌, ◌≡◌, refl, Bool, true, false, some, List, [], ◌∷◌, pos, Returns,
  Concludes,
}
use nowra.Wait.{
  Turn, events, wait_forever, wait_turn, event_wait, before_wait, after_wait, call_all,
}
use nowra.Wait.Called.{called}
use nowra.Timer.{Timers, time_ready, run_timers, next_due}
use nowra.Events.{event_init, event_enable_rw}
use nowra.Stringop.{basename}
use nowra.Server.{
  call_accept, single_server_accept_inet, single_server_wakeup, master_notify, Process, Accepted,
  connected, single_server_main, take_options, xport_inet,
}
use nowra.Server.Told.{HasTold, single_server_main-HasTold}
use nowra.Server.Rounds.{read_all, Served, rounds-Served}
use nowra.Tests.Kernel.{watch}
use nowra.Tests.Children.{hashed, child}
use nowra.Tests.Events.{watching}
use nowra.Tests.Master.{busy, busy-IsConsistent, child_found}

-- The application counts its connections.
abbrev count_up : ℕ → List ℕ → List (List ℕ) → ℕ → ℕ
count_up fd name argv n = n + 1

abbrev as_written : List ℕ → List ℕ → Bool
as_written s t = true

abbrev serving : List (Turn Accepted)
serving =
    record {
      now = 9;
      now' = 10;
      waited = events (
          record {
            fd = pos 4;
            epollin = true;
            epollout = false;
            given = connected 7 (pos 8) (pos 8);
          }
          ∷ []);
    }
    ∷ []

-- "smtpd -n smtp -t inet"
abbrev options : List (ℕ × List ℕ)
options = (110, 115 ∷ 109 ∷ 116 ∷ 112 ∷ []) ∷ (116, xport_inet) ∷ []

options_taken :
    take_options options (115 ∷ []) (some []) ≡ (115 ∷ 109 ∷ 116 ∷ 112 ∷ [], some xport_inet)
unfolding take_options
options_taken = refl

-- "smtp"
abbrev smtp : List ℕ
smtp = 115 ∷ 109 ∷ 116 ∷ 112 ∷ []

abbrev Ends : Outcome (ℤ × Timers × Process watch count_up as_written) → Type 0
Ends o =
    single_server_main watch count_up as_written true (115 ∷ []) options [] 100 watching 0 serving
    ≡ some o

single_server_main_example :
    Concludes
      (λ r.
        HasTold watch count_up as_written
          (called serving)
          100
          (take_options options (basename (115 ∷ [])) none).0
          []
          0
          r.2)
      (single_server_main watch count_up as_written true
        (115 ∷ [])
        options
        []
        100
        watching
        0
        serving)
single_server_main_example =
    single_server_main-HasTold watch count_up as_written true (115 ∷ []) options [] 100 watching 0
      serving

server_run : (r : ℤ × Timers × Process watch count_up as_written) × Ends (ok r)
unfolding single_server_main take_options event_init event_enable_rw wait_forever wait_turn
    event_wait before_wait time_ready after_wait run_timers next_due call_all call_accept
    single_server_accept_inet single_server_wakeup master_notify
server_run = (_, refl)

rounds_example :
    Returns (read_all watch hashed 2 server_run.0.2.sent 0 busy) (Served watch hashed 1 child busy)
rounds_example =
    rounds-Served watch hashed count_up as_written true (115 ∷ []) options [] watching 0 serving
      server_run.0.0 server_run.0.1 server_run.0.2 2 child busy server_run.1 ((refl, refl), tt) refl
      busy-IsConsistent child_found refl
