-- ===== src/Tests/Events.antt =====
-- The registrations of src/util/events.c on a loop of four descriptors, of which one is registered.
use nowra.Base.{
  ℕ, zero, suc, ◌<◌, ◌≡◌, refl, true, false, inl, some, none, [], ◌∷◌, arith, pos, Returns, ◌==◌,
  if◌then◌else◌,
}
use nowra.Events.{
  EventBase, EventLoop, event_read, event_write, blank, event_enable_rw, event_disable_rw,
}
use nowra.Events.Agreement.{
  Agrees, Added, Removed, wanted, event_enable_rw-Agrees, event_disable_rw-Agrees,
}
use nowra.Events.Highest.{mask_at, is_registered}
use nowra.Events.Poison.{Refused, Stuck, event_enable_rw-Stuck}
use nowra.Tests.Kernel.{watch, State}

abbrev reading : EventBase
reading = record { mask = event_read; read_cb = 7; write_cb = 0; client_data = 1 }

abbrev pub four : EventLoop
four = record { maxfd = pos 1; size = 4; reg_events = blank ∷ reading ∷ blank ∷ blank ∷ [] }

-- The kernel watches descriptor 1 for reading.
abbrev pub watching : State
watching = (false, λ j. if 1 == j then some (record { epollin = true; epollout = false }) else none)

same_at : (j : ℕ) → watching.1 j ≡ wanted (mask_at four.reg_events j)
unfolding wanted
same_at zero = refl
same_at (suc zero) = refl
same_at (suc (suc zero)) = refl
same_at (suc (suc (suc zero))) = refl
same_at (suc (suc (suc (suc j)))) = ground arith

above_one : (i : ℕ) → 1 < i → i < 4 → is_registered four.reg_events i ≡ false
unfolding is_registered
above_one zero p q = absurd (omega arith)
above_one (suc zero) p q = absurd (omega arith)
above_one (suc (suc zero)) p q = refl
above_one (suc (suc (suc zero))) p q = refl
above_one (suc (suc (suc (suc i)))) p q = absurd (omega arith)

one_registered : is_registered four.reg_events 1 ≡ true
unfolding is_registered
one_registered = refl

four-Agrees : Agrees watch four watching
four-Agrees = record {
  sized = refl;
  same = same_at;
  top = (omega arith, one_registered, above_one);
}

two_below : 2 < four.size
two_below = omega arith

event_enable_rw_example :
    Returns (event_enable_rw watch (some four) watching (pos 2) 8 3 event_write) (λ (done, l', k').
      done ≡ true
      → Agrees watch l' k' × Added watch four watching four-Agrees 2 two_below event_write l')
event_enable_rw_example =
    event_enable_rw-Agrees watch four watching four-Agrees 2 two_below event_write 8 3 refl

one_below : 1 < four.size
one_below = omega arith

event_disable_rw_example :
    Returns (event_disable_rw watch (some four) watching (pos 1) event_read) (λ (done, l', k').
      Agrees watch l' k'
      × (done ≡ true → Removed watch four watching four-Agrees 1 one_below event_read l'))
event_disable_rw_example =
    event_disable_rw-Agrees watch four watching four-Agrees 1 one_below event_read

-- A kernel that refuses every call, and watches nothing.
abbrev refusing : State
refusing = (true, λ j. none)

refusing-Refused : Refused watch four refusing 2 event_read
refusing-Refused = record {
  inside = omega arith;
  sized = refl;
  unmarked = refl;
  unwatched = refl;
  some_mask = refl;
  refused = refl;
}

event_enable_rw_refused_example :
    Returns
      (event_enable_rw watch (some four) refusing (pos 2) 8 3 event_read)
      (λ (done, l', k'). (done ≡ false) × Stuck watch l' k' 2)
event_enable_rw_refused_example =
    event_enable_rw-Stuck watch four refusing 2 8 3 event_read (inl refusing-Refused)
