-- ===== src/Wait.antt =====
-- `event_wait` of src/util/events.c: a wait for descriptors and timers, the timers that are due, and the calls for
-- the descriptors that are ready. `epoll_wait` and `time` are the system's: what they answer is an argument.
pub mod Aborts
pub mod Called
pub mod Turns
use nowra.Base.{
  ℕ, suc, length, ◌+◌, ◌-◌, Bool, true, false, ◌||◌, Option, none, some, List, [], ◌∷◌,
  if◌then◌else◌, ℤ, pos, negsuc, incr, decr, ltb_ℤ, Outcome, ok, abort, panic, fatal, undefined,
  ◌>>=◌, get_elem?,
}
use nowra.Events.{EventBase, EventLoop}
use nowra.Timer.{Timer, Timers, time_ready, run_timers}

-- `struct epoll_event`, its two bits that are looked at, and what the handler of the descriptor will be given.
pub record Ready (I : Type 0) : Type 0 where
  pub fd : ℤ
  pub epollin : Bool
  pub epollout : Bool
  pub given : I

-- What `epoll_wait` answers: -1 with EINTR, -1 with another error, or the events.
pub data Waited (I : Type 0) : Type 0 where
  interrupted : Waited I
  failed : Waited I
  events : List (Ready I) → Waited I

-- What the system answers during a call of `event_wait`: `time` before and after the wait, and `epoll_wait`.
pub record Turn (I : Type 0) : Type 0 where
  pub now : ℕ
  pub now' : ℕ
  pub waited : Waited I

-- What the program keeps beside the timers, and its functions behind the function pointers. A handler does not call
-- `event_wait`.
pub record Handlers (I W : Type 0) : Type 0 where
  -- the event loop, or NULL
  pub loop_of : W → Option EventLoop
  -- `time` answers
  pub at_time : ℕ → W → W
  pub call_timer : (callback context : ℕ) → Timers × W → Outcome (Timers × W)
  pub call_ready : I → (callback : ℕ) → (fd : ℕ) → (context : ℕ) → Timers × W → Outcome (Timers × W)

-- `event_present` before the wait; `time` answers `now`.
read_again : ℕ → List Timer → Timers → Timers
read_again now [] t = t
read_again now (u ∷ q) t = record t { present = now }

unfoldable pub before_wait : ℕ → Timers → Timers
unfolding read_again
before_wait now t = read_again now (time_ready now t).queue (time_ready now t)

module _ {I W : Type 0} (h : Handlers I W) where
  abbrev State : Type 0
  State = Timers × W

  -- The calls for one event.
  call_base : Ready I → ℕ → EventBase → State → Outcome State
  call_base e fd eb s =
      if e.epollin
      then h.call_ready e.given eb.read_cb fd eb.client_data s
      else if e.epollout
      then h.call_ready e.given eb.write_cb fd eb.client_data s
      else ok s

  on_fd : Ready I → EventLoop → ℤ → State → Outcome State
  unfolding call_base
  on_fd e l (negsuc n) s = abort (panic "%s: bad file descriptor: %d")
  on_fd e l (pos fd) s =
      if ltb_ℤ l.maxfd (pos fd)
      then abort (panic "%s: bad file descriptor: %d")
      else elim (get_elem? l.reg_events fd) [
        | none ↦ abort undefined
        | some eb ↦ call_base e fd eb s
      ]

  on_ready : Ready I → Option EventLoop → State → Outcome State
  unfolding on_fd
  on_ready e none s = abort undefined
  on_ready e (some l) s = on_fd e l e.fd s

  -- `for (j = 0; j < event_count; j++)`: the event loop is looked at anew for each event.
  unfoldable pub call_all : List (Ready I) → State → Outcome State
  unfolding on_ready
  call_all [] s = ok s
  call_all (e ∷ more) s = on_ready e (h.loop_of s.1) s >>= λ s'. call_all more s'

  -- What follows the timer loop, if that ended.
  after_timers : List (Ready I) → Option (Outcome State) → Option (Outcome State)
  after_timers es none = none
  after_timers es (some r) = some (r >>= λ s. call_all es s)

  -- `nested--`
  unnest : ℤ → Option (Outcome State) → Option (Outcome (ℤ × Timers × W))
  unnest nested none = none
  unnest nested (some r) = some (r >>= λ s. ok (decr nested, s.0, s.1))

  -- What follows `epoll_wait`; `time` answers `now`.
  unfoldable pub after_wait : ℕ → ℕ → Waited I → ℤ → State → Option (Outcome (ℤ × Timers × W))
  unfolding after_timers unnest
  after_wait fuel now interrupted nested s = some (ok (nested, s.0, s.1))
  after_wait fuel now failed nested s = some (abort (fatal "event_loop: %s: %s"))
  after_wait fuel now (events es) nested s =
      if ltb_ℤ (pos 0) nested
      then some (abort (panic "event_loop: recursive call"))
      else unnest (incr nested) (
          after_timers es
            (run_timers h.call_timer fuel (record s.0 { present = now }, h.at_time now s.1)))

  -- `event_wait`; `none` means that the fuel for the timers ran out.
  unfoldable pub event_wait :
      ℕ → (now now' : ℕ) → Waited I → ℤ × Timers × W → Option (Outcome (ℤ × Timers × W))
  event_wait fuel now now' waited (nested, t, w) = elim (h.loop_of w) [
    | none ↦ some (abort (panic "%s: event no init."))
    | some l ↦ after_wait fuel now' waited nested (before_wait now t, w)
  ]

  -- A call of `event_wait` with fuel for all timers.
  unfoldable pub wait_turn : Turn I → ℤ × Timers × W → Option (Outcome (ℤ × Timers × W))
  wait_turn turn (nested, t, w) =
      event_wait (suc (length t.queue)) turn.now turn.now' turn.waited (nested, t, w)

  -- The first of the turns, and then the others.
  next_turns :
      (ℤ × Timers × W → Option (Outcome (ℤ × Timers × W)))
      → Option (Outcome (ℤ × Timers × W))
      → Option (Outcome (ℤ × Timers × W))
  next_turns rest none = none
  next_turns rest (some (abort x)) = some (abort x)
  next_turns rest (some (ok s)) = rest s

  -- `for (;;) event_wait(...)`, for the turns given.
  unfoldable pub wait_forever : List (Turn I) → ℤ × Timers × W → Option (Outcome (ℤ × Timers × W))
  unfolding next_turns
  wait_forever [] s = some (ok s)
  wait_forever (turn ∷ more) s = next_turns (wait_forever more) (wait_turn turn s)
