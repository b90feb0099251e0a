-- ===== src/Wait/Aborts.antt =====
-- A call of `event_wait` of src/util/events.c without timers, and the call for one of its events.
use nowra.Base.{
  ℕ, suc, ◌≡◌, refl, ap, true, false, some, List, [], ◌∷◌, arith, ℤ, pos, ltb_ℤ, length, Abort,
  abort, ◌>>=◌, get_elem?,
}
use nowra.Events.{EventBase, EventLoop}
use nowra.Timer.{Timer, Timers, run_timers, next_due}
use nowra.Wait.{
  Ready, events, Handlers, call_base, on_fd, on_ready, call_all, after_timers, unnest, after_wait,
  before_wait, event_wait,
}
use nowra.Wait.Turns.{before_wait-length}

no_timers : (q : List Timer) → length q ≡ 0 → q ≡ []
no_timers [] e = refl
no_timers (u ∷ q) e = absurd (omega arith)

module _ {I W : Type 0} (h : Handlers I W) where
  -- The first event is one for reading, on a registered descriptor.
  pub call_all-first :
      (e : Ready I) (more : List (Ready I)) (s : Timers × W) (l : EventLoop) (fd : ℕ)
      (eb : EventBase)
      → h.loop_of s.1 ≡ some l
      → e.fd ≡ pos fd
      → ltb_ℤ l.maxfd (pos fd) ≡ false
      → get_elem? l.reg_events fd ≡ some eb
      → e.epollin ≡ true
      → call_all h (e ∷ more) s
        ≡ (h.call_ready e.given eb.read_cb fd eb.client_data s >>= λ s'. call_all h more s')
  unfolding call_all on_ready on_fd call_base
  call_all-first e more s l fd eb loop at below found input =
      rw (loop, at, below, found, input) refl

  -- Without timers a call of `event_wait` aborts as the calls for its events do.
  pub event_wait-aborts :
      (fuel now now' : ℕ) (es : List (Ready I)) (nested : ℤ) (t : Timers) (w : W) (l : EventLoop)
      (x : Abort)
      → h.loop_of w ≡ some l
      → t.queue ≡ []
      → ltb_ℤ (pos 0) nested ≡ false
      → call_all h es (record { present = now'; queue = [] }, h.at_time now' w) ≡ abort x
      → event_wait h (suc fuel) now now' (events es) (nested, t, w) ≡ some (abort x)
  unfolding event_wait after_wait after_timers unnest run_timers next_due
  event_wait-aborts fuel now now' es nested t w l x loop none_due flat run =
      let empty : (before_wait now t).queue ≡ [] =
        no_timers (before_wait now t).queue
          (omega (arith, before_wait-length now t, ap length none_due)) in
      rw (loop, event_wait) (rw flat (rw empty (rw run refl)))
