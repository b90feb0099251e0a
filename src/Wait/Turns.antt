-- ===== src/Wait/Turns.antt =====
-- A turn of `event_wait` of src/util/events.c ends, if there is fuel for the timers in the queue, and keeps what the
-- functions that it calls keep.
use nowra.Base.{
  ℕ, zero, suc, ◌≤◌, ◌<◌, ◌≡◌, refl, ap, inl, inr, Option, none, some, List, [], ◌∷◌, arith, length,
  ℤ, pos, negsuc, incr, decr, ltb_ℤ, Bool-cases, Option-cases, ◌⊎◌, Outcome, ok, abort, undefined,
  ◌>>=◌, get_elem?, Ensures, Ensures-ok, Ensures-abort, Ensures-if, Ensures-then, Concludes, All,
}
use nowra.Events.{EventBase, EventLoop}
use nowra.Timer.{Timer, Timers, time_ready, run_timers, next_due}
use nowra.Timer.Request.{IsValid, queue-time_ready, present-time_ready, time_ready-length}
use nowra.Timer.Wait.{next_due-shorter}
use nowra.Wait.{
  Turn, wait_turn, next_turns, wait_forever, Ready, Waited, interrupted, failed, events, Handlers,
  call_base, on_fd, on_ready, call_all, after_timers, unnest, after_wait, before_wait, read_again,
  event_wait,
}

read_again-cases :
    (now : ℕ) (q : List Timer) (t : Timers)
    → (read_again now q t ≡ t) ⊎ (read_again now q t ≡ record t { present = now })
unfolding read_again
read_again-cases now [] t = inl refl
read_again-cases now (u ∷ q) t = inr refl

-- Before the wait the clock is read once more if there are timers.
pub before_wait-cases :
    (now : ℕ) (t : Timers)
    → (before_wait now t ≡ time_ready now t)
      ⊎ (before_wait now t ≡ record (time_ready now t) { present = now })
unfolding before_wait
before_wait-cases now t = read_again-cases now (time_ready now t).queue (time_ready now t)

pub before_wait-length : (now : ℕ) (t : Timers) → length (before_wait now t).queue ≤ length t.queue
before_wait-length now t = elim (before_wait-cases now t) [
  | inl e ↦ rw e (time_ready-length now t)
  | inr e ↦ rw e (time_ready-length now t)
]

-- The queue is valid before the wait.
pub before_wait-IsValid : (now : ℕ) (t : Timers) → IsValid t → 0 < now → IsValid (before_wait now t)
before_wait-IsValid now t v h =
    let q = queue-time_ready now t v in
    elim (before_wait-cases now t) [
      | inl e ↦ rw e (record {
        queue = rw q v.queue;
        fresh = λ z. absurd (omega (arith, present-time_ready now t h));
      })
      | inr e ↦ rw e (record { queue = rw q v.queue; fresh = λ z. absurd (omega arith) })
    ]

pub decr-incr : (z : ℤ) → decr (incr z) ≡ z
decr-incr z = ground arith

-- The clock of the system is past zero.
abbrev pub HasTime : {I : Type 0} → Turn I → Type 0
HasTime turn = (0 < turn.now) × (0 < turn.now')

module _ {I W : Type 0} (h : Handlers I W) (P : Timers × W → Type 0) where
  -- The property stays, and there are not more timers.
  abbrev pub Fewer : ℕ → Timers × W → Type 0
  Fewer n s = P s × (length s.0.queue ≤ n)

  -- What the calls, the loop over the timers and the clock do to the property.
  pub record IsKept : Type 0 where
    pub timers :
        (c x : ℕ) (s : Timers × W) → P s → Ensures (Fewer (length s.0.queue)) (h.call_timer c x s)
    pub ready :
        (given : I) (c fd x : ℕ) (s : Timers × W) → P s → Ensures P (h.call_ready given c fd x s)
    pub taken :
        (s : Timers × W) (u : Timer) (t : Timers) → P s → next_due s.0 ≡ some (u, t) → P (t, s.1)
    pub before : (now : ℕ) (s : Timers × W) → P s → 0 < now → P (before_wait now s.0, s.1)
    pub later :
        (now : ℕ) (s : Timers × W)
        → P s
        → 0 < now
        → P (record s.0 { present = now }, h.at_time now s.1)

module _ {I W : Type 0} (h : Handlers I W) (P : Timers × W → Type 0) (k : IsKept h P) where
  on_fd-Ensures :
      (e : Ready I) (l : EventLoop) (fd : ℤ) (s : Timers × W) → P s → Ensures P (on_fd h e l fd s)
  unfolding on_fd call_base
  on_fd-Ensures e l (negsuc n) s p = Ensures-abort P _
  on_fd-Ensures e l (pos fd) s p =
      Ensures-if P (ltb_ℤ l.maxfd (pos fd)) _ _ (Ensures-abort P _) (at (get_elem? l.reg_events fd))
    where
      at :
          (found : Option EventBase)
          → Ensures P (elim found [ none ↦ abort undefined | some eb ↦ call_base h e fd eb s ])
      at none = Ensures-abort P undefined
      at (some eb) = Ensures-if P e.epollin _ _ (k.ready e.given eb.read_cb fd eb.client_data s p) (
          Ensures-if P e.epollout _ _ (k.ready e.given eb.write_cb fd eb.client_data s p)
            (Ensures-ok P s p))

  on_ready-Ensures :
      (e : Ready I) (l : Option EventLoop) (s : Timers × W) → P s → Ensures P (on_ready h e l s)
  unfolding on_ready
  on_ready-Ensures e none s p = Ensures-abort P undefined
  on_ready-Ensures e (some l) s p = on_fd-Ensures e l e.fd s p

  pub call_all-Ensures : (es : List (Ready I)) (s : Timers × W) → P s → Ensures P (call_all h es s)
  unfolding call_all
  call_all-Ensures [] s p = Ensures-ok P s p
  call_all-Ensures (e ∷ more) s p =
      Ensures-then P P (on_ready h e (h.loop_of s.1) s) _ (on_ready-Ensures e (h.loop_of s.1) s p)
        (λ s' p'. call_all-Ensures more s' p')

  after_call :
      (n fuel : ℕ) (r : Outcome (Timers × W))
      → Ensures (Fewer h P n) r
      → ((s : Timers × W)
          → P s
          → length s.0.queue ≤ n
          → Concludes P (run_timers h.call_timer fuel s))
      → Concludes P (elim r [ abort e ↦ some (abort e) | ok s ↦ run_timers h.call_timer fuel s ])
  after_call n fuel (abort x) e go = (abort x, refl, Ensures-abort P x)
  after_call n fuel (ok s) e go = let (p, less) = e s refl in go s p less

  pub run_timers-Concludes :
      (fuel : ℕ) (s : Timers × W)
      → P s
      → length s.0.queue < fuel
      → Concludes P (run_timers h.call_timer fuel s)
  unfolding run_timers
  run_timers-Concludes zero s p less = absurd (omega arith)
  run_timers-Concludes (suc fuel) s p less = elim (Option-cases (next_due s.0)) [
    | inl e ↦ (ok s, rw (e, run_timers), Ensures-ok P s p)
    | inr ((u, t), e) ↦
        let shorter = ap length (next_due-shorter s.0 t u e).1 in
        rw (e, run_timers)
          (after_call (length t.queue) fuel (h.call_timer u.callback u.context (t, s.1))
            (k.timers u.callback u.context (t, s.1) (k.taken s u t p e))
            (λ s' p' le. run_timers-Concludes fuel s' p' (omega (arith, shorter, le, less))))
  ]

  -- A turn leaves `nested` as it was.
  abbrev Kept : ℤ → ℤ × Timers × W → Type 0
  Kept nested r = (r.0 ≡ nested) × P (r.1, r.2)

  ready_turn :
      (es : List (Ready I)) (nested : ℤ) (r : Option (Outcome (Timers × W)))
      → Concludes P r
      → Concludes (Kept nested) (unnest h (incr nested) (after_timers h es r))
  unfolding unnest after_timers
  ready_turn es nested r (o, e, p) = rw e (
    _,
    refl,
    Ensures-then (Kept nested) P (o >>= λ s. call_all h es s) _
        (Ensures-then P P o _ p (λ s q. call_all-Ensures es s q))
        (λ s q. Ensures-ok (Kept nested) _ (decr-incr nested, q)),
  )

  after_wait-Concludes :
      (fuel now : ℕ) (waited : Waited I) (nested : ℤ) (s : Timers × W)
      → P s
      → 0 < now
      → length s.0.queue < fuel
      → Concludes (Kept nested) (after_wait h fuel now waited nested s)
  unfolding after_wait
  after_wait-Concludes fuel now interrupted nested s p some_time less =
      (_, refl, Ensures-ok (Kept nested) _ (refl, p))
  after_wait-Concludes fuel now failed nested s p some_time less =
      (_, refl, Ensures-abort (Kept nested) _)
  after_wait-Concludes fuel now (events es) nested s p some_time less =
      elim (Bool-cases (ltb_ℤ (pos 0) nested)) [
        | inl deep ↦ rw deep (_, refl, Ensures-abort (Kept nested) _)
        | inr flat ↦
            rw flat (
              ready_turn es nested _ (run_timers-Concludes fuel _ (k.later now s p some_time) less))
      ]

  -- If the functions that it calls keep a property of the state, those of the timers add no timers, and the clock is past
  -- zero, then with fuel for more turns than there are timers, a call of `event_wait` comes to an end, whatever the kernel
  -- answers; if it returns, `nested` is as before and the property holds.
  pub event_wait-Concludes :
      (fuel now now' : ℕ) (waited : Waited I) (nested : ℤ) (t : Timers) (w : W)
      → P (t, w)
      → 0 < now
      → 0 < now'
      → length t.queue < fuel
      → Concludes (Kept nested) (event_wait h fuel now now' waited (nested, t, w))
  unfolding event_wait
  event_wait-Concludes fuel now now' waited nested t w p some_time some_time' less =
      elim (Option-cases (h.loop_of w)) [
        | inl e ↦ rw (e, event_wait) (_, refl, Ensures-abort (Kept nested) _)
        | inr (l, e) ↦
            rw (e, event_wait)
              (after_wait-Concludes fuel now' waited nested (before_wait now t, w)
                (k.before now (t, w) p some_time) some_time'
                (omega (arith, before_wait-length now t, less)))
      ]

  abbrev pub AtTop : ℤ × Timers × W → Type 0
  AtTop s = P (s.1, s.2)

  next-Concludes :
      (rest : ℤ × Timers × W → Option (Outcome (ℤ × Timers × W)))
      (r : Option (Outcome (ℤ × Timers × W))) (nested : ℤ)
      → Concludes (Kept nested) r
      → ((s : ℤ × Timers × W) → AtTop s → Concludes AtTop (rest s))
      → Concludes AtTop (next_turns h rest r)
  unfolding next_turns
  next-Concludes rest r nested (abort x, e, q) go = rw e (abort x, refl, Ensures-abort AtTop x)
  next-Concludes rest r nested (ok s, e, q) go = rw e (go s (q s refl).1)

  wait_turn-Concludes :
      (turn : Turn I) (s : ℤ × Timers × W)
      → HasTime turn
      → AtTop s
      → Concludes (Kept s.0) (wait_turn h turn s)
  unfolding wait_turn
  wait_turn-Concludes turn (nested, t, w) times p =
      event_wait-Concludes (suc (length t.queue)) turn.now turn.now' turn.waited nested t w p
        times.0 times.1 (omega arith)

  -- Whatever the system answers, each wait of the loop ends, and keeps what its functions keep.
  pub wait_forever-Concludes :
      (turns : List (Turn I)) (s : ℤ × Timers × W)
      → All HasTime turns
      → AtTop s
      → Concludes AtTop (wait_forever h turns s)
  unfolding wait_forever
  wait_forever-Concludes [] s times p = (ok s, refl, Ensures-ok AtTop s p)
  wait_forever-Concludes (turn ∷ more) s times p =
      next-Concludes (wait_forever h more) (wait_turn h turn s) s.0
        (wait_turn-Concludes turn s times.0 p) (λ s' p'. wait_forever-Concludes more s' times.1 p')
