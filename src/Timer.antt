-- ===== src/Timer.antt =====
-- The timer queue of src/util/events.c: `event_time_init`, `event_request_timer`,
-- `event_cancel_timer`, and the parts of `event_wait` that read the queue. The circular list under
-- `event_timer_head` is the list of its entries from `RING_SUCC(&event_timer_head)` on; what
-- `time()` answers is an argument.
pub mod Queue
pub mod Request
pub mod Wait
use Prim.Native.String.{String}
use nowra.Base.{
  ℕ, zero, suc, ◌+◌, ◌-◌, ◌*◌, Bool, true, false, ◌&&◌, Option, none, some, List, [], ◌∷◌, ltb, leb,
  ◌==◌, if◌then◌else◌, ℤ, pos, negsuc, sub_ℕ, ltb_ℤ, Outcome, ok, abort, panic,
}

-- A callback and its context are addresses, of which the queue knows only whether they are the same.
pub record Timer : Type 0 where
  pub when : ℕ
  pub callback : ℕ
  pub context : ℕ

-- `event_present`, and the queue
pub record Timers : Type 0 where
  pub present : ℕ
  pub queue : List Timer

event_time_init : ℕ → Timers
event_time_init now = record { present = now; queue = [] }

-- `if (event_present == 0) event_time_init();`
unfoldable pub time_ready : ℕ → Timers → Timers
unfolding event_time_init
time_ready now t = if t.present == 0 then event_time_init now else t

abbrev pub is_for : ℕ → ℕ → Timer → Bool
is_for callback context t = t.callback == callback && t.context == context

-- The search loop: the first entry with this callback and context, and the queue without it.
unfoldable pub detach_match : ℕ → ℕ → List Timer → Option Timer × List Timer
detach_match callback context [] = (none, [])
detach_match callback context (t ∷ q) =
    let (found, rest) = detach_match callback context q in
    if is_for callback context t then (some t, q) else (found, t ∷ rest)

-- The insertion loop, and `ring_prepend` where it stops.
unfoldable pub insert_timer : Timer → List Timer → List Timer
insert_timer t [] = t ∷ []
insert_timer t (u ∷ q) = if ltb t.when u.when then t ∷ u ∷ q else u ∷ insert_timer t q

-- `event_request_timer`: the time of the event, and the queue after it.
unfoldable pub event_request_timer : (callback context : ℕ) → ℤ → ℕ → Timers → Outcome (ℕ × Timers)
event_request_timer callback context (negsuc d) now t = abort (panic "%s: invalid delay: %d")
event_request_timer callback context (pos delay) now t =
    let (_, rest) = detach_match callback context (time_ready now t).queue in
    let timer : Timer = record { when = now + delay; callback = callback; context = context } in
    ok (timer.when, record { present = now; queue = insert_timer timer rest })

-- `time_left`: -1 if there was no entry, 0 if its time has passed.
unfoldable pub time_left : Option Timer → ℕ → ℤ
time_left none present = negsuc 0
time_left (some t) present =
    let left = sub_ℕ t.when present in if ltb_ℤ left (pos 0) then pos 0 else left

-- `event_cancel_timer`
unfoldable pub event_cancel_timer : (callback context : ℕ) → ℕ → Timers → ℤ × Timers
unfolding time_left
event_cancel_timer callback context now t =
    let (found, rest) = detach_match callback context (time_ready now t).queue in
    let present = (time_ready now t).present in
    (time_left found present, record { present = present; queue = rest })

-- `event_wait`: how long the wait may last, in seconds, negative for no limit.
limit_delay : ℤ → ℤ → ℤ
limit_delay delay left =
    if ltb_ℤ left (pos 0)
    then pos 0
    else if ltb_ℤ (negsuc 0) delay && ltb_ℤ delay left
    then delay
    else left

delay_for : List Timer → ℤ → ℕ → ℤ
delay_for [] delay now = delay
delay_for (t ∷ q) delay now = limit_delay delay (sub_ℕ t.when now)

unfoldable pub select_delay : ℤ → ℕ → Timers → ℤ
unfolding limit_delay delay_for
select_delay delay now t = delay_for (time_ready now t).queue delay now

-- The timeout argument of `epoll_wait`, in milliseconds.
unfoldable pub epoll_timeout : ℤ → ℤ
epoll_timeout (pos s) = pos (s * 1000)
epoll_timeout (negsuc s) = negsuc 0

-- The test of the timer loop: the first entry, if it is due, and the queue without it.
due_first : ℕ → List Timer → Option (Timer × List Timer)
due_first present [] = none
due_first present (t ∷ q) = if ltb present t.when then none else some (t, q)

unfoldable pub next_due : Timers → Option (Timer × Timers)
unfolding due_first
next_due t = elim (due_first t.present t.queue) [
  | none ↦ none
  | some (timer, rest) ↦ some (timer, record t { queue = rest })
]

-- The timer loop of `event_wait`, over any further state `W` that the callbacks work on: `call` is
-- the call through the function pointer. `none` means that the fuel ran out.
module _ {W : Type 0} (call : (callback context : ℕ) → Timers × W → Outcome (Timers × W)) where
  unfoldable pub run_timers : ℕ → Timers × W → Option (Outcome (Timers × W))
  unfolding next_due
  run_timers zero s = none
  run_timers (suc fuel) s = elim (next_due s.0) [
    | none ↦ some (ok s)
    | some (timer, t) ↦ elim (call timer.callback timer.context (t, s.1)) [
      | abort e ↦ some (abort e)
      | ok s' ↦ run_timers fuel s'
    ]
  ]
