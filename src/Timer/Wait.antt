-- ===== src/Timer/Wait.antt =====
-- The timer half of `event_wait` of src/util/events.c: how long the wait may last, and the loop that
-- runs the timers that are due.
use Prim.Native.Nat.{min}
use nowra.Base.{
  ℕ, zero, suc, ap, ◌-◌, ◌≤◌, ◌<◌, ◌≡◌, refl, ◌⊎◌, Option, none, some, List, [], ◌∷◌, arith, leb,
  Option-cases, inl, inr, to_nat, weight, All, ℤ, pos, negsuc, Outcome, ok, Returns,
}
use nowra.Timer.{
  Timer, Timers, select_delay, next_due, due_first, run_timers, limit_delay, delay_for,
}
use nowra.Timer.Queue.{IsSorted, count}
use nowra.Timer.Request.{IsValid, queue-time_ready}

-- The wait that `event_wait` asks for: no longer than it was told, nor than until the first timer.
unfoldable pub longest_wait : ℤ → ℕ → ℕ
longest_wait (pos d) left = min d left
longest_wait (negsuc d) left = left

-- The least deadline of all, whatever the order.
unfoldable pub earliest : List Timer → Option ℕ
earliest [] = none
earliest (t ∷ q) = elim (earliest q) [ none ↦ some t.when | some w ↦ some (min t.when w) ]

unfoldable pub wait_for : ℤ → ℕ → Option ℕ → ℤ
wait_for delay now none = delay
wait_for delay now (some w) = pos (longest_wait delay (w - now))

earliest-le :
    (m : ℕ) (q : List Timer) {w : ℕ} → All (λ u. m ≤ u.when) q → earliest q ≡ some w → m ≤ w
unfolding earliest
earliest-le m [] h e = cc
earliest-le m (u ∷ q) h e = elim (Option-cases (earliest q)) [
  | inl e' ↦ ground arith
  | inr (v, e') ↦ let le = earliest-le m q h.1 e' in ground arith
]

earliest-head : (t : Timer) (q : List Timer) → IsSorted (t ∷ q) → earliest (t ∷ q) ≡ some t.when
unfolding earliest
earliest-head t q s = elim (Option-cases (earliest q)) [
  | inl e ↦ rw e
  | inr (w, e) ↦ rw e (ap some (omega (arith, earliest-le t.when q s.0 e)))
]

delay_for-earliest :
    (delay : ℤ) (now : ℕ) (q : List Timer)
    → IsSorted q
    → delay_for q delay now ≡ wait_for delay now (earliest q)
unfolding delay_for limit_delay wait_for longest_wait earliest
delay_for-earliest delay now [] s = refl
delay_for-earliest delay now (t ∷ q) s = rw (earliest-head t q s) (ground arith)

-- `event_wait` lets `epoll_wait` wait until the earliest of all timers is due, or for `delay` seconds
-- if that is less (a negative `delay` is no limit); with no timer it waits for `delay`.
pub select_delay-wait_for :
    (delay : ℤ) (now : ℕ) (t : Timers)
    → IsValid t
    → select_delay delay now t ≡ wait_for delay now (earliest t.queue)
unfolding select_delay
select_delay-wait_for delay now t v =
    rw (queue-time_ready now t v) (delay_for-earliest delay now t.queue v.queue.sorted)

-- How many timers are due.
unfoldable pub due : Timers → ℕ
due t = weight (λ u. to_nat (leb u.when t.present)) t.queue

weight-zero :
    (present : ℕ) (m : ℕ) (q : List Timer)
    → present < m
    → All (λ u. m ≤ u.when) q
    → weight (λ u. to_nat (leb u.when present)) q ≡ 0
weight-zero present m [] h a = refl
weight-zero present m (u ∷ q) h a = ground (arith, weight-zero present m q h a.1)

due_first-none :
    (present : ℕ) (q : List Timer)
    → IsSorted q
    → due_first present q ≡ none
    → weight (λ u. to_nat (leb u.when present)) q ≡ 0
unfolding due_first
due_first-none present [] s e = refl
due_first-none present (u ∷ q) s e = ground (arith, weight-zero present u.when q)

due_first-some :
    (present : ℕ) (q : List Timer) {t : Timer} {r : List Timer}
    → due_first present q ≡ some (t, r)
    → (q ≡ t ∷ r) × (t.when ≤ present)
unfolding due_first
due_first-some present [] e = cc
due_first-some present (u ∷ q) e = ground arith

-- The queue without its first timer.
pub IsValid-tail :
    (t : Timers) {u : Timer} {r : List Timer}
    → IsValid t
    → t.queue ≡ u ∷ r
    → IsValid (record t { queue = r })
unfolding count
IsValid-tail t {u} {r} v e = record {
  queue = record {
    sorted = (rw e at v.queue.sorted).1;
    once = λ c x. omega (arith, (rw e at (v.queue.once c x)));
  };
  fresh = λ z. cc (v.fresh z);
}

-- One turn of the timer loop: the first timer is taken off if it is due, and there is none to take
-- only if no timer is due.
pub next_due-cases :
    (t : Timers)
    → IsValid t
    → ((next_due t ≡ none) × (due t ≡ 0))
      ⊎ ((u : Timer) × (t' : Timers) × (next_due t ≡ some (u, t'))
          × IsValid t'
          × (due t ≡ suc (due t')))
unfolding next_due due
next_due-cases t v = elim (Option-cases (due_first t.present t.queue)) [
  | inl e ↦ inl (rw (e, next_due), due_first-none t.present t.queue v.queue.sorted e)
  | inr ((u, r), e) ↦
      let (split, le) = due_first-some t.present t.queue e in
      inr (
        u,
        record t { queue = r },
        rw (e, next_due),
        IsValid-tail t v split,
        rw split (ground arith),
      )
]

-- A timer that is taken off leaves a queue that is shorter by one, and the clock.
pub next_due-shorter :
    (t t' : Timers) (u : Timer)
    → next_due t ≡ some (u, t')
    → (t' ≡ record t { queue = t'.queue }) × (t.queue ≡ u ∷ t'.queue)
unfolding next_due due_first
next_due-shorter t t' u e = elim (Option-cases (due_first t.present t.queue)) [
  | inl none_due ↦ let idle : next_due t ≡ none = rw (none_due, next_due) in cc
  | inr ((v, r), first) ↦
      let popped : next_due t ≡ some (v, record t { queue = r }) = rw (first, next_due) in
      let (split, _) = due_first-some t.present t.queue first in (ground arith, ground arith)
]

-- The calls that the loop makes return, keep the queue valid, and make no further timer due.
module _ {W : Type 0} (call : (callback context : ℕ) → Timers × W → Outcome (Timers × W)) where
  abbrev pub IsCalm : Type 0
  IsCalm =
      (c x : ℕ) (t : Timers) (w : W)
      → IsValid t
      → Returns (call c x (t, w)) (λ s. IsValid s.0 × (due s.0 ≤ due t))

module _ {W : Type 0} (call : (callback context : ℕ) → Timers × W → Outcome (Timers × W))
    (calm : IsCalm call) where
  -- With fuel for more turns than timers are due, the timer loop of `event_wait` ends, and no timer is
  -- due after it, provided that the callbacks return, keep the queue valid and do not make more
  -- timers due.
  pub run_timers-drained :
      (fuel : ℕ) (s : Timers × W)
      → IsValid s.0
      → due s.0 < fuel
      → (r : Timers × W) × (run_timers call fuel s ≡ some (ok r)) × IsValid r.0 × (due r.0 ≡ 0)
  unfolding run_timers
  run_timers-drained zero s v h = absurd (omega arith)
  run_timers-drained (suc fuel) s v h = elim (next_due-cases s.0 v) [
    | inl (e, idle) ↦ (s, rw (e, run_timers), v, idle)
    | inr (u, t', e, v', less) ↦
        let (s', run, (v'', le)) = calm u.callback u.context t' s.1 v' in
        let (r, run', valid, idle) = run_timers-drained fuel s' v'' (omega arith) in
        (r, rw (e, run_timers, run) run', valid, idle)
  ]
