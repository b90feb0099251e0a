-- ===== src/Iostuff.antt =====
-- src/util/iostuff.c: waiting for a descriptor, and writing a buffer. What poll(), write() and time() answer, call after
-- call, is an argument; a list of answers that ends before the call returns gives none.
pub mod Waiting
pub mod Writing
use Prim.Native.String.{String}
use nowra.Base.{
  ℕ, zero, suc, ◌+◌, ◌-◌, ◌%◌, Bool, true, false, not, ◌&&◌, Option, none, some, List, [], ◌∷◌,
  ◌++◌, ltb, ◌==◌, if◌then◌else◌, ℤ, pos, negsuc, ltb_ℤ, sub_ℕ, take, drop, Outcome, ok, abort,
  fatal, undefined,
}

-- What poll() returns: -1 (with EINTR or not), 0, or 1 (with POLLNVAL or not).
pub data Polled : Type 0 where
  failed : (interrupted : Bool) → Polled
  timed_out : Polled
  ready : (invalid : Bool) → Polled

-- The loop that `write_wait`, `read_wait`, `readable` and `writable` have, with what they return if the time is over
-- and if the descriptor is ready.
unfoldable pub poll_loop : (over done : ℤ) → String → List Polled → Option (Outcome ℤ)
poll_loop over done text [] = none
poll_loop over done text (failed true ∷ answers) = poll_loop over done text answers
poll_loop over done text (failed false ∷ answers) = some (abort (fatal text))
poll_loop over done text (timed_out ∷ answers) = some (ok over)
poll_loop over done text (ready true ∷ answers) = some (abort (fatal text))
poll_loop over done text (ready false ∷ answers) = some (ok done)

-- `timeout * 1000` has to be an int.
unfoldable pub wait_for : (timeout : ℤ) → String → List Polled → Option (Outcome ℤ)
wait_for timeout text answers =
    if ltb_ℤ (pos 2147483) timeout
    then some (abort undefined)
    else poll_loop (negsuc 0) (pos 0) text answers

unfoldable pub write_wait : (timeout : ℤ) → List Polled → Option (Outcome ℤ)
write_wait timeout answers = wait_for timeout "write_wait: poll" answers

unfoldable pub read_wait : (timeout : ℤ) → List Polled → Option (Outcome ℤ)
read_wait timeout answers = wait_for timeout "read_wait: poll" answers

unfoldable pub readable : List Polled → Option (Outcome ℤ)
readable answers = poll_loop (pos 0) (pos 1) "readable: poll" answers

unfoldable pub writable : List Polled → Option (Outcome ℤ)
writable answers = poll_loop (pos 0) (pos 1) "writable: poll" answers

-- What write() returns: a number of bytes, or -1.
pub data Wrote : Type 0 where
  wrote : ℕ → Wrote
  refused : Wrote

-- A turn of the loop of `write_buf`.
pub record Turn : Type 0 where
  pub polls : List Polled
  pub wrote_bytes : Wrote
  pub now : ℕ

-- `buf - start`, `len` and `time_left`, and the bytes that were written.
pub record Progress : Type 0 where
  pub at : ℕ
  pub left : ℕ
  pub time_left : ℤ
  pub sent : List ℕ

-- `count`, a size_t: -1 is the greatest, and `count < 0` never holds, so that the branch for errors is not taken.
abbrev pub count_of : Wrote → ℕ
count_of (wrote n) = n % 18446744073709551616
count_of refused = 18446744073709551615

abbrev pub sent_by : List ℕ → Progress → Wrote → List ℕ
sent_by buf p (wrote n) = p.sent ++ take n (drop p.at buf)
sent_by buf p refused = p.sent

-- `buf += count; len -= count;` and the clock
unfoldable pub advance : (buf : List ℕ) → (expire : ℕ) → Turn → Progress → Progress
advance buf expire t p =
    let left = (p.left + 18446744073709551616 - count_of t.wrote_bytes) % 18446744073709551616 in
    record {
      at = (p.at + count_of t.wrote_bytes) % 18446744073709551616;
      left = left;
      time_left =
          if ltb 0 left && ltb_ℤ (pos 0) p.time_left then sub_ℕ expire t.now else p.time_left;
      sent = sent_by buf p t.wrote_bytes;
    }

-- A turn after `write_wait`: the deadline is tested if there was one.
unfoldable pub in_time :
    (had_deadline : Bool) → Progress → Option (Outcome (ℤ × List ℕ)) → Option (Outcome (ℤ × List ℕ))
in_time had_deadline p rest =
    if had_deadline && (ltb 0 p.left && not (ltb_ℤ (pos 0) p.time_left))
    then some (ok (negsuc 0, p.sent))
    else rest

unfoldable pub after_wait :
    (sent : List ℕ)
    → Option (Outcome ℤ)
    → Option (Outcome (ℤ × List ℕ))
    → Option (Outcome (ℤ × List ℕ))
after_wait sent none rest = none
after_wait sent (some (abort x)) rest = some (abort x)
after_wait sent (some (ok (negsuc n))) rest = some (ok (negsuc 0, sent))
after_wait sent (some (ok (pos n))) rest = rest

-- The loop: what is returned, and the bytes that were written.
unfoldable pub write_loop :
    (buf : List ℕ) → (expire : ℕ) → List Turn → Progress → Option (Outcome (ℤ × List ℕ))
write_loop buf expire [] p = if p.left == 0 then some (ok (pos p.at, p.sent)) else none
write_loop buf expire (t ∷ turns) p =
    let p' = advance buf expire t p in
    let rest = write_loop buf expire turns p' in
    let deadline = ltb_ℤ (pos 0) p.time_left in
    if p.left == 0
    then some (ok (pos p.at, p.sent))
    else if deadline
    then after_wait p.sent (write_wait p.time_left t.polls) (in_time true p' rest)
    else in_time false p' rest

-- `write_buf` of the `len` bytes at `buf`
unfoldable pub write_buf :
    (buf : List ℕ)
    → (len : ℕ) → (timeout : ℤ) → (expire : ℕ) → List Turn
    → Option (Outcome (ℤ × List ℕ))
write_buf buf len timeout expire turns =
    write_loop buf expire turns (record { at = 0; left = len; time_left = timeout; sent = [] })

-- `timed_read` and `timed_write`, with what read() or write() returns. `ret` is a size_t: `ret < 0` never holds, so that
-- the loop is left in its first turn and -1 is the greatest size.
unfoldable pub timed_result : Option (Outcome ℤ) → ℕ → Option (Outcome ℕ)
timed_result none ret = none
timed_result (some (abort x)) ret = some (abort x)
timed_result (some (ok (negsuc n))) ret = some (ok 18446744073709551615)
timed_result (some (ok (pos n))) ret = some (ok ret)

unfoldable pub timed_read : (timeout : ℤ) → List Polled → Wrote → Option (Outcome ℕ)
timed_read timeout polls ret =
    if ltb_ℤ (pos 0) timeout
    then timed_result (read_wait timeout polls) (count_of ret)
    else some (ok (count_of ret))

unfoldable pub timed_write : (timeout : ℤ) → List Polled → Wrote → Option (Outcome ℕ)
timed_write timeout polls ret =
    if ltb_ℤ (pos 0) timeout
    then timed_result (write_wait timeout polls) (count_of ret)
    else some (ok (count_of ret))
