-- ===== src/Timer/Request.antt =====
-- `event_request_timer` and `event_cancel_timer` of src/util/events.c: the invariant of the queue,
-- and their effect on the deadlines.
use nowra.Base.{
  length, ◌≤◌, ℕ, ◌+◌, ◌-◌, ◌<◌, ◌≡◌, refl, true, false, Option, none, some, List, [], ◌∷◌, arith,
  ◌==◌, Bool-cases, inl, inr, ℤ, pos, negsuc, Returns,
}
use nowra.Timer.{
  Timer, Timers, is_for, time_ready, detach_match, insert_timer, event_request_timer,
  event_cancel_timer, time_left,
}
use nowra.Timer.Queue.{
  IsQueue, is_for-eq, count, deadline, Inserted, insert_timer-Inserted, insert_timer-IsSorted,
  detach_match-IsSorted, count-insert_timer, count-detach_match-le, count-detach_match_self,
  deadline-eq-none, deadline-insert_timer, deadline-detach_match,
}

-- Before the first call the queue is empty: only then may `event_present` be 0.
pub record IsValid (t : Timers) : Type 0 where
  pub queue : IsQueue t.queue
  pub fresh : t.present ≡ 0 → t.queue ≡ []

pub queue-time_ready : (now : ℕ) (t : Timers) → IsValid t → (time_ready now t).queue ≡ t.queue
unfolding time_ready
queue-time_ready now t v = elim (Bool-cases (t.present == 0)) [
  | inl zero ↦ rw zero (ground (arith, v.fresh))
  | inr set ↦ rw set
]

pub detach_match-IsQueue : (c x : ℕ) (q : List Timer) → IsQueue q → IsQueue (detach_match c x q).1
detach_match-IsQueue c x q h = record {
  sorted = detach_match-IsSorted c x q h.sorted;
  once = λ d y. omega (arith, count-detach_match-le c x d y q, h.once d y);
}

count_of_key :
    (d y : ℕ) (t : Timer) (q : List Timer)
    → is_for d y t ≡ true
    → count t.callback t.context q ≡ 0
    → count d y q ≡ 0
count_of_key d y t q same absent = let (e, f) = is_for-eq d y t same in rw (← e, ← f) absent

pub insert_timer-IsQueue :
    (t : Timer) (q : List Timer)
    → IsQueue q
    → count t.callback t.context q ≡ 0
    → IsQueue (insert_timer t q)
insert_timer-IsQueue t q h absent = record {
  sorted = insert_timer-IsSorted t q h.sorted;
  once = λ d y. rw count-insert_timer (elim (Bool-cases (is_for d y t)) [
    | inl same ↦ rw same (omega (arith, count_of_key d y t q same absent))
    | inr other ↦ rw other (omega (arith, h.once d y))
  ]);
}

-- What a call of `event_request_timer` returns and leaves behind.
pub record Requested (c x delay now : ℕ) (t : Timers) (r : ℕ × Timers) : Type 0 where
  pub returned : r.0 ≡ now + delay
  pub valid : 0 < now → IsValid r.1
  pub clock : r.1.present ≡ now
  pub deadline_set : deadline c x r.1.queue ≡ some (now + delay)
  pub others : (d y : ℕ) → (c ≡ d → x ≡ y → ⊥) → deadline d y r.1.queue ≡ deadline d y t.queue
  pub placed :
      Inserted
        (record { when = now + delay; callback = c; context = x })
        (detach_match c x t.queue).1
        r.1.queue

module _ (c x now : ℕ) (t : Timers) (v : IsValid t) where
  request-Requested :
      (delay : ℕ)
      → let timer : Timer = record { when = now + delay; callback = c; context = x } in
        Requested c x delay now t (
          now + delay,
          record { present = now; queue = insert_timer timer (detach_match c x t.queue).1 },
        )
  request-Requested delay =
      let timer : Timer = record { when = now + delay; callback = c; context = x } in
      let rest = (detach_match c x t.queue).1 in
      let absent = count-detach_match_self c x t.queue (v.queue.once c x) in
      let left = detach_match-IsQueue c x t.queue v.queue in
      record {
        returned = refl;
        valid = λ h. record {
          queue = insert_timer-IsQueue timer rest left absent;
          fresh = λ e. absurd (omega arith);
        };
        clock = refl;
        deadline_set = rw (deadline-insert_timer c x timer rest (λ _. absent)) (ground arith);
        others = λ d y ne.
            let miss : is_for d y timer ≡ false = ground (arith, ne) in
            rw (deadline-insert_timer d y timer rest (λ e. cc), miss)
              (deadline-detach_match c x d y t.queue ne);
        placed = insert_timer-Inserted timer rest left.sorted;
      }

  -- For a delay that is not negative and a valid queue, `event_request_timer` returns the time of the event. The entry for
  -- this callback and context is moved or made, behind all that are due no later and before all that are due later; all
  -- others keep their deadlines. If the clock is past zero, the queue is valid again: sorted, with one entry at most for a
  -- callback and context.
  pub event_request_timer-Requested :
      (delay : ℕ) → Returns (event_request_timer c x (pos delay) now t) (Requested c x delay now t)
  unfolding event_request_timer
  event_request_timer-Requested delay = (_, rw queue-time_ready refl, request-Requested delay)

-- How long until a deadline, as `event_cancel_timer` tells it: -1 if there is none.
unfoldable pub left_until : Option ℕ → ℕ → ℤ
left_until none present = negsuc 0
left_until (some w) present = pos (w - present)

time_left-deadline :
    (c x present : ℕ) (q : List Timer)
    → time_left (detach_match c x q).0 present ≡ left_until (deadline c x q) present
unfolding time_left left_until detach_match deadline
time_left-deadline c x present [] = refl
time_left-deadline c x present (t ∷ q) = elim (Bool-cases (is_for c x t)) [
  | inl hit ↦ rw hit (ground arith)
  | inr miss ↦ rw miss (time_left-deadline c x present q)
]

-- What a call of `event_cancel_timer` returns and leaves behind.
pub record Cancelled (c x now : ℕ) (t : Timers) (r : ℤ × Timers) : Type 0 where
  pub returned : r.0 ≡ left_until (deadline c x t.queue) r.1.present
  pub valid : 0 < now → IsValid r.1
  pub deadline_gone : deadline c x r.1.queue ≡ none
  pub others : (d y : ℕ) → (c ≡ d → x ≡ y → ⊥) → deadline d y r.1.queue ≡ deadline d y t.queue

pub present-time_ready : (now : ℕ) (t : Timers) → 0 < now → 0 < (time_ready now t).present
unfolding time_ready
present-time_ready now t h = ground arith

-- `event_cancel_timer` returns the time that was left, 0 if it has passed and -1 if there was no
-- such request; afterwards there is no entry for this callback and context, all others keep their
-- deadlines, and the queue is still valid.
pub event_cancel_timer-Cancelled :
    (c x now : ℕ) (t : Timers) → IsValid t → Cancelled c x now t (event_cancel_timer c x now t)
unfolding event_cancel_timer
event_cancel_timer-Cancelled c x now t v =
    let absent = count-detach_match_self c x t.queue (v.queue.once c x) in
    rw (queue-time_ready now t v) (record {
      returned = time_left-deadline c x (time_ready now t).present t.queue;
      valid = λ h. record {
        queue = detach_match-IsQueue c x t.queue v.queue;
        fresh = λ e. absurd (omega (arith, present-time_ready now t h));
      };
      deadline_gone = deadline-eq-none c x _ absent;
      others = λ d y ne. deadline-detach_match c x d y t.queue ne;
    })

detach_match-length : (c x : ℕ) (q : List Timer) → length (detach_match c x q).1 ≤ length q
unfolding detach_match
detach_match-length c x [] = omega arith
detach_match-length c x (t ∷ q) = ground (arith, detach_match-length c x q)

pub time_ready-length : (now : ℕ) (t : Timers) → length (time_ready now t).queue ≤ length t.queue
unfolding time_ready
time_ready-length now t = ground arith

-- A request that is cancelled leaves no more timers than there were.
pub event_cancel_timer-length :
    (c x now : ℕ) (t : Timers) → length (event_cancel_timer c x now t).1.queue ≤ length t.queue
unfolding event_cancel_timer
event_cancel_timer-length c x now t =
    omega (arith, detach_match-length c x (time_ready now t).queue, time_ready-length now t)

pub empty-IsValid : IsValid (record { present = 0; queue = [] })
unfolding count
empty-IsValid = record {
  queue = record { sorted = tt; once = λ c x. omega arith };
  fresh = λ z. refl;
}
