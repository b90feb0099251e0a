-- ===== src/Iostuff/Writing.antt =====
-- `write_buf` of src/util/iostuff.c: all bytes are written, in pieces of any sizes.
use nowra.Base.{
  ℕ, zero, suc, ◌+◌, ◌-◌, ◌%◌, ◌≤◌, ◌<◌, ◌≡◌, refl, ap, ◌∙◌, ◌⊎◌, inl, inr, Bool, true, false, ◌&&◌,
  Option, some, List, [], ◌∷◌, ◌++◌, arith, ◌==◌, if◌then◌else◌, ℤ, pos, negsuc, ltb_ℤ, length,
  take, drop, Outcome, ok, ==_positive,
}
use nowra.Iostuff.{
  Turn, Progress, wrote, refused, count_of, sent_by, advance, in_time, write_loop, write_buf,
}

-- Every turn writes a byte at least and no more than are left, until none are.
abbrev pub Writes : List Turn → ℕ → Type 0
Writes [] left = left ≡ 0
Writes (t ∷ turns) left =
    (left ≡ 0)
    ⊎ ((n : ℕ) × (t.wrote_bytes ≡ wrote n) × (0 < n) × (n ≤ left) × Writes turns (left - n))

take_more : (i n m : ℕ) (xs : List ℕ) → m ≡ i + n → take i xs ++ take n (drop i xs) ≡ take m xs
take_more zero n m xs e = ap (λ k. take k xs) (omega arith)
take_more (suc i) n zero xs e = absurd (omega arith)
take_more (suc i) zero (suc m) [] e = refl
take_more (suc i) (suc n) (suc m) [] e = refl
take_more (suc i) n (suc m) (x ∷ xs) e = ap (λ l. x ∷ l) (take_more i n m xs (omega arith))

take_length : (xs : List ℕ) → take (length xs) xs ≡ xs
take_length [] = refl
take_length (x ∷ xs) = ap (λ l. x ∷ l) (take_length xs)

not_taken : {A : Type 0} (b c : Bool) (x y : A) → c ≡ false → (if b && c then x else y) ≡ y
not_taken true c x y e = rw e refl
not_taken false c x y e = refl

-- A turn that writes `n` bytes, without a deadline.
record Advanced (buf : List ℕ) (n : ℕ) (p p' : Progress) : Type 0 where
  at : p'.at ≡ p.at + n
  left : p'.left ≡ p.left - n
  time_left : p'.time_left ≡ p.time_left
  sent : p'.sent ≡ p.sent ++ take n (drop p.at buf)

advance-Advanced :
    (buf : List ℕ) (expire : ℕ) (t : Turn) (p : Progress) (n : ℕ)
    → t.wrote_bytes ≡ wrote n
    → n ≤ p.left
    → p.at + p.left < 18446744073709551616
    → ltb_ℤ (pos 0) p.time_left ≡ false
    → Advanced buf n p (advance buf expire t p)
unfolding advance
advance-Advanced buf expire t p n e h j d =
    let count : count_of t.wrote_bytes ≡ n % 18446744073709551616 = ap count_of e in
    record {
      at = omega (arith, count);
      left = omega (arith, count);
      time_left = not_taken _ (ltb_ℤ (pos 0) p.time_left) _ p.time_left d;
      sent = ap (sent_by buf p) e;
    }

is_zero : (n : ℕ) → n ≡ 0 → (n == 0) ≡ true
is_zero n h = ground arith

abbrev pub returned : ℤ → List ℕ → Option (Outcome (ℤ × List ℕ))
returned result sent = some (ok (result, sent))

finished :
    (buf : List ℕ) (p : Progress)
    → p.left ≡ 0
    → p.at + p.left ≡ length buf
    → p.sent ≡ take p.at buf
    → returned (pos p.at) p.sent ≡ returned (pos (length buf)) buf
finished buf p over e s =
    let end : p.at ≡ length buf = omega (arith, over, e) in
    ap (λ k. returned (pos k) p.sent) end
    ∙ ap (λ l. returned (pos (length buf)) l) (s ∙ ap (λ k. take k buf) end ∙ take_length buf)

-- The loop goes on to the end of the buffer.
write_loop-all :
    (buf : List ℕ) (expire : ℕ) (turns : List Turn) (p : Progress)
    → Writes turns p.left
    → p.at + p.left ≡ length buf
    → length buf < 18446744073709551616
    → ltb_ℤ (pos 0) p.time_left ≡ false
    → p.sent ≡ take p.at buf
    → write_loop buf expire turns p ≡ some (ok (pos (length buf), buf))
unfolding write_loop in_time
write_loop-all buf expire [] p w e j d s = rw (is_zero p.left w) (finished buf p w e s)
write_loop-all buf expire (t ∷ turns) p (inl over) e j d s =
    rw (is_zero p.left over, write_loop) (finished buf p over e s)
write_loop-all buf expire (t ∷ turns) p (inr (n, wrote_n, some_bytes, few, others)) e j d s =
    let p' = advance buf expire t p in
    let a = advance-Advanced buf expire t p n wrote_n few (omega (arith, e, j)) d in
    rw (==_positive p.left (omega (arith, some_bytes, few)), d, write_loop)
      (write_loop-all buf expire turns p' (rw a.left others) (omega (arith, a.at, a.left, e, few)) j
        (ap (ltb_ℤ (pos 0)) a.time_left ∙ d)
        (a.sent ∙ ap (λ l. l ++ take n (drop p.at buf)) s ∙ take_more p.at n p'.at buf a.at))

-- Without a timeout, if each turn writes at least one of the bytes that are left and the turns are enough for all,
-- `write_buf` of a buffer that a size_t can measure returns its length and has written its bytes in order.
pub write_buf-all :
    (buf : List ℕ) (n expire : ℕ) (turns : List Turn)
    → Writes turns (length buf)
    → length buf < 18446744073709551616
    → write_buf buf (length buf) (negsuc n) expire turns ≡ some (ok (pos (length buf), buf))
unfolding write_buf
write_buf-all buf n expire turns w h = write_loop-all buf expire turns _ w (omega arith) h refl refl

-- A failed write() is taken for the write of 2^64 - 1 bytes: `buf` goes one byte back and `len` up by one.
pub write_loop-refused :
    (buf : List ℕ) (expire : ℕ) (t : Turn) (turns : List Turn) (p : Progress)
    → t.wrote_bytes ≡ refused
    → 0 < p.left
    → p.left < 18446744073709551615
    → ltb_ℤ (pos 0) p.time_left ≡ false
    → (write_loop buf expire (t ∷ turns) p ≡ write_loop buf expire turns (advance buf expire t p))
      × ((advance buf expire t p).left ≡ p.left + 1)
unfolding write_loop in_time advance
write_loop-refused buf expire t turns p e some_left fits d =
    let count : count_of t.wrote_bytes ≡ 18446744073709551615 = ap count_of e in
    (rw (==_positive p.left some_left, d, write_loop) refl, omega (arith, count))
