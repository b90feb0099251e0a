-- ===== src/Iostuff/Waiting.antt =====
-- `write_wait`, `read_wait`, `readable` and `writable` of src/util/iostuff.c: calls of poll() that a signal interrupted
-- are repeated, and the first other answer decides.
use Prim.Native.String.{String}
use nowra.Base.{
  ℕ, zero, suc, ◌≡◌, ◌≢◌, refl, true, false, some, List, ◌∷◌, ◌++◌, ℤ, pos, negsuc, ltb_ℤ,
  replicate, Outcome, ok, abort, fatal,
}
use nowra.Iostuff.{
  Polled, failed, timed_out, ready, poll_loop, wait_for, write_wait, read_wait, readable, writable,
}

-- What an answer means to the caller.
abbrev pub outcome_of : (over done : ℤ) → String → Polled → Outcome ℤ
outcome_of over done text (failed interrupted) = abort (fatal text)
outcome_of over done text timed_out = ok over
outcome_of over done text (ready true) = abort (fatal text)
outcome_of over done text (ready false) = ok done

poll_loop-first :
    (over done : ℤ) (text : String) (k : ℕ) (a : Polled) (rest : List Polled)
    → a ≢ failed true
    → poll_loop over done text (replicate k (failed true) ++ a ∷ rest)
      ≡ some (outcome_of over done text a)
unfolding poll_loop
poll_loop-first over done text zero (failed true) rest h = absurd (h refl)
poll_loop-first over done text zero (failed false) rest h = refl
poll_loop-first over done text zero timed_out rest h = refl
poll_loop-first over done text zero (ready true) rest h = refl
poll_loop-first over done text zero (ready false) rest h = refl
poll_loop-first over done text (suc k) a rest h = poll_loop-first over done text k a rest h

-- However often poll() is interrupted, its first other answer decides, for a timeout of at most 2147483 seconds:
-- `write_wait` and `read_wait` return -1 if the time is over and 0 if the descriptor is ready, `readable` and `writable`
-- 0 and 1; a failed call and a descriptor that is not open end the program.
pub poll-first :
    (timeout : ℤ) (k : ℕ) (a : Polled) (rest : List Polled)
    → a ≢ failed true
    → ltb_ℤ (pos 2147483) timeout ≡ false
    → (write_wait timeout (replicate k (failed true) ++ a ∷ rest)
        ≡ some (outcome_of (negsuc 0) (pos 0) "write_wait: poll" a))
      × (read_wait timeout (replicate k (failed true) ++ a ∷ rest)
          ≡ some (outcome_of (negsuc 0) (pos 0) "read_wait: poll" a))
      × (readable (replicate k (failed true) ++ a ∷ rest)
          ≡ some (outcome_of (pos 0) (pos 1) "readable: poll" a))
      × (writable (replicate k (failed true) ++ a ∷ rest)
          ≡ some (outcome_of (pos 0) (pos 1) "writable: poll" a))
unfolding write_wait read_wait wait_for readable writable
poll-first timeout k a rest h small = (
  rw small (poll_loop-first (negsuc 0) (pos 0) "write_wait: poll" k a rest h),
  rw small (poll_loop-first (negsuc 0) (pos 0) "read_wait: poll" k a rest h),
  poll_loop-first (pos 0) (pos 1) "readable: poll" k a rest h,
  poll_loop-first (pos 0) (pos 1) "writable: poll" k a rest h,
)
