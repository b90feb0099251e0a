-- ===== src/Vstring/Range.antt =====
-- `vstring_range` of src/util/vstring.c: the part of a string that is kept.
use nowra.Base.{
  ℕ, zero, suc, ◌+◌, ◌-◌, ◌*◌, ◌≤◌, ◌<◌, ◌≡◌, refl, sym, ap, ◌∙◌, Bool, true, List, [], ◌∷◌, arith,
  ℤ, pos, negsuc, length, take, drop, ◌>>=◌, Returns, ==_positive, leb-false,
}
use nowra.Mymalloc.Copies.{IsString}
use nowra.Vstring.{
  Vbuf, Vstring, from_end, span, range_of, move_range, reset, vstring_range, with_vbuf, terminate,
}
use nowra.Vstring.Bytes.{length-take, length-drop}
use nowra.Vstring.Buffer.{IsBuffer, contents}
use nowra.Vstring.Put.{copy_to-Copied}
use nowra.Vstring.Copy.{IsText, IsBuffer-reset, terminated-IsText}

drop-take : (k n m : ℕ) (xs : List ℕ) → m ≡ k + n → drop k (take m xs) ≡ take n (drop k xs)
drop-take zero n m xs e = ap (λ j. take j xs) (omega arith)
drop-take (suc k) n zero xs e = absurd (omega arith)
drop-take (suc k) zero (suc m) [] e = refl
drop-take (suc k) (suc n) (suc m) [] e = refl
drop-take (suc k) n (suc m) (x ∷ xs) e = drop-take k n m xs (omega arith)

drop-IsString : (k : ℕ) (s : List ℕ) → IsString s → IsString (drop k s)
drop-IsString zero s h = h
drop-IsString (suc k) [] h = tt
drop-IsString (suc k) (c ∷ s) h = drop-IsString k s h.1

span_to_end : (len start : ℕ) → start < len → span start (len - 1) ≡ len - start
span_to_end len start h = ground arith

range_to_end :
    (len start : ℕ) → 0 < start → start < len → range_of len start (len - 1) ≡ (start, len - start)
unfolding range_of
range_to_end len start h j =
    rw
      (
        span_to_end len start j,
        ==_positive (len - start) (omega arith),
        leb-false len start j,
        leb-false len (len - 1) (omega arith),
      )
      refl

range_from_zero : (len end : ℕ) → (n : ℕ) × (range_of len 0 end ≡ (0, n))
unfolding range_of
range_from_zero len end =
    let first : (range_of len 0 end).0 ≡ 0 = ground arith in
    ((range_of len 0 end).1, ap (λ z. (z, (range_of len 0 end).1)) first)

-- The bytes from `start` on are moved to the front.
move_range-suffix :
    (bp : Vbuf) (start : ℕ)
    → IsBuffer bp
    → 0 < start
    → start < bp.ptr
    → Returns
        (move_range (start, bp.ptr - start) bp)
        (λ bp'. IsBuffer bp' × (contents bp' ≡ drop start (contents bp)) × (bp'.ptr ≤ bp.ptr))
unfolding move_range
move_range-suffix bp start v h j =
    let n = bp.ptr - start in
    let held : n ≤ length (drop start bp.data_block.payload) =
      omega (arith, length-drop start bp.data_block.payload, v.fits, v.split) in
    let moved = take n (drop start bp.data_block.payload) in
    let (bp', run, (v', at, left, e)) =
      copy_to-Copied 0 moved bp v
        (omega (arith, length-take n (drop start bp.data_block.payload) held, v.split)) in
    rw (==_positive start h, ==_positive n (omega arith), run, move_range)
      (
        _,
        refl,
        (
          record {
            block = v'.block;
            fits = v'.fits;
            split = omega (arith, at, v'.split);
            small = v'.small;
          },
          ap (λ k. take k bp'.data_block.payload)
                (omega (arith, at, length-take n (drop start bp.data_block.payload) held))
              ∙ e
              ∙ sym (drop-take start n bp.ptr bp.data_block.payload (omega arith)),
          omega (arith, at),
        ),
      )

module _ (grants : ℕ → Bool) (plenty : (n : ℕ) → grants n ≡ true) where
  emptied :
      (vp : Vstring) (n : ℕ)
      → IsBuffer vp.vbuf
      → Returns
          (with_vbuf vp (move_range (0, n) vp.vbuf >>= λ moved. terminate grants moved))
          (IsText [])
  unfolding move_range reset
  emptied vp n v =
      terminated-IsText grants plenty vp (reset vp.vbuf) [] (IsBuffer-reset vp.vbuf v) refl tt
        (omega arith)

  -- For a string that is not empty and a `start` in it that is not 0, `vstring_range` to the last byte (-1)
  -- leaves the bytes from `start` on; for `start` 0 and any `end` it leaves the empty string.
  pub vstring_range-suffix :
      (vp : Vstring) (start : ℕ) (end : ℤ)
      → IsBuffer vp.vbuf
      → IsString (contents vp.vbuf)
      → 2 * vp.vbuf.ptr + 1 < 2147483648
      → start < vp.vbuf.ptr
      → (0 < start
          → Returns
              (vstring_range grants vp (pos start) (negsuc 0))
              (IsText (drop start (contents vp.vbuf))))
        × Returns (vstring_range grants vp (pos 0) end) (IsText [])
  unfolding vstring_range
  vstring_range-suffix vp start end v h k j = (
    (λ positive.
        let (bp, run, (v', e, less)) = move_range-suffix vp.vbuf start v positive j in
        rw
          (
            ==_positive vp.vbuf.ptr (omega arith),
            range_to_end vp.vbuf.ptr start positive j,
            run,
            vstring_range,
          )
          (terminated-IsText grants plenty vp bp (drop start (contents vp.vbuf)) v' e
            (drop-IsString start (contents vp.vbuf) h) (omega (arith, less, k)))),
    let (n, e) = range_from_zero vp.vbuf.ptr (from_end vp.vbuf.ptr end) in
        rw (==_positive vp.vbuf.ptr (omega arith), e, vstring_range) (emptied vp n v),
  )
