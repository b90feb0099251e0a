-- ===== src/Tests/Timers.antt =====
-- The timer queue of src/util/events.c on three timers.
use nowra.Base.{ℕ, ◌+◌, ◌≤◌, ◌<◌, ◌≡◌, refl, some, [], ◌∷◌, arith, pos, Outcome, ok, Returns}
use nowra.Timer.{
  Timer, Timers, detach_match, insert_timer, time_ready, event_request_timer, event_cancel_timer,
  next_due, run_timers,
}
use nowra.Timer.Queue.{count}
use nowra.Timer.Request.{
  IsValid, Requested, Cancelled, event_request_timer-Requested, event_cancel_timer-Cancelled,
}
use nowra.Timer.Wait.{due, IsCalm, run_timers-drained}

abbrev at_ten : Timer
at_ten = record { when = 10; callback = 1; context = 5 }

abbrev at_twelve : Timer
at_twelve = record { when = 12; callback = 2; context = 5 }

abbrev pub timers : Timers
timers = record { present = 9; queue = at_ten ∷ at_twelve ∷ [] }

count_le : (c x : ℕ) → count c x (at_ten ∷ at_twelve ∷ []) ≤ 1
unfolding count
count_le c x = ground arith

pub timers-IsValid : IsValid timers
timers-IsValid = record {
  queue = record { sorted = ((omega arith, tt), (tt, tt)); once = λ c x. count_le c x };
  fresh = λ e. cc;
}

event_request_timer_at_eleven :
    event_request_timer 1 5 (pos 2) 9 timers
    ≡ ok (
      11,
      record {
        present = 9;
        queue = record { when = 11; callback = 1; context = 5 } ∷ at_twelve ∷ [];
      },
    )
unfolding event_request_timer detach_match insert_timer time_ready
event_request_timer_at_eleven = refl

event_cancel_timer_at_twelve :
    event_cancel_timer 2 5 11 timers ≡ (pos 3, record { present = 9; queue = at_ten ∷ [] })
unfolding event_cancel_timer detach_match time_ready
event_cancel_timer_at_twelve = refl

event_request_timer_example :
    Returns (event_request_timer 1 5 (pos 2) 9 timers) (Requested 1 5 2 9 timers)
event_request_timer_example = event_request_timer-Requested 1 5 9 timers timers-IsValid 2

event_cancel_timer_example : Cancelled 2 5 9 timers (event_cancel_timer 2 5 9 timers)
event_cancel_timer_example = event_cancel_timer-Cancelled 2 5 9 timers timers-IsValid

-- A callback that requests nothing, and counts its calls.
abbrev counting : (callback context : ℕ) → Timers × ℕ → Outcome (Timers × ℕ)
counting callback context (t, n) = ok (t, n + 1)

counting-IsCalm : IsCalm counting
counting-IsCalm c x t w v = ((t, w + 1), refl, (v, omega arith))

abbrev late : Timers
late = record { present = 11; queue = at_ten ∷ at_twelve ∷ [] }

late-IsValid : IsValid late
late-IsValid = record { queue = timers-IsValid.queue; fresh = λ e. cc }

run_timers_once :
    run_timers counting 2 (late, 0) ≡ some (ok (record { present = 11; queue = at_twelve ∷ [] }, 1))
unfolding run_timers next_due
run_timers_once = refl

few_due : due late < 2
unfolding due
few_due = omega arith

run_timers_example :
    (r : Timers × ℕ) × (run_timers counting 2 (late, 0) ≡ some (ok r)) × IsValid r.0 × (due r.0 ≡ 0)
run_timers_example = run_timers-drained counting counting-IsCalm 2 (late, 0) late-IsValid few_due
