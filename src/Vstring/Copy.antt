-- ===== src/Vstring/Copy.antt =====
-- `vstring_strcpy`, `vstring_strcat` and their kin, of src/util/vstring.c: the string that is read back.
use nowra.Base.{
  ℕ, zero, suc, ◌+◌, ◌*◌, ◌≤◌, ◌<◌, ◌≡◌, refl, sym, ap, ◌∙◌, Bool, true, some, List, [], ◌∷◌, ◌++◌,
  arith, pos, negsuc, length, take, All-append, Outcome, ok, ◌>>=◌, Returns,
}
use nowra.Mymalloc.{c_string}
use nowra.Mymalloc.Copies.{IsString}
use nowra.Vstring.{
  Vbuf, Vstring, add_chars, add_some_chars, terminate, reset, at_offset, with_vbuf, vbuf_put,
  vstring_strcpy, vstring_strncpy, vstring_strcat, vstring_strncat, vstring_memcat,
}
use nowra.Vstring.Bytes.{append_assoc, append_nil, c_string-taken}
use nowra.Vstring.Buffer.{IsBuffer, contents, vstring_buf_space-room, minus_size-difference}
use nowra.Vstring.Put.{vbuf_put-Put, terminate-Terminated, copy_to-Copied}

-- The string is `s`: those are the bytes before `ptr`, a 0 follows them in the buffer, and there is room
-- for it.
pub record IsText (s : List ℕ) (vp : Vstring) : Type 0 where
  pub buffer : IsBuffer vp.vbuf
  pub bytes : contents vp.vbuf ≡ s
  pub read_back : c_string vp.vbuf.data_block.payload ≡ some s
  pub room : 0 < vp.vbuf.cnt

pub IsBuffer-reset : (bp : Vbuf) → IsBuffer bp → IsBuffer (reset bp)
unfolding reset
IsBuffer-reset bp v = record {
  block = v.block;
  fits = v.fits;
  split = omega arith;
  small = v.small;
}

module _ (grants : ℕ → Bool) (plenty : (n : ℕ) → grants n ≡ true) where
  add_chars-Added :
      (bp : Vbuf) (src : List ℕ)
      → IsBuffer bp
      → 2 * (bp.ptr + length src) < 2147483648
      → Returns (add_chars grants bp src) (λ bp'.
        IsBuffer bp' × (contents bp' ≡ contents bp ++ src) × (bp'.ptr ≡ bp.ptr + length src))
  unfolding add_chars
  add_chars-Added bp [] v h = (bp, refl, (v, sym (append_nil (contents bp)), omega arith))
  add_chars-Added bp (c ∷ src) v h =
      let (bp', run, (v', e, at)) = vbuf_put-Put grants plenty bp c v (omega arith) in
      let (bp'', run', (v'', e', at')) = add_chars-Added bp' src v' (omega (arith, at)) in
      rw (run, run', add_chars)
        (
          bp'',
          refl,
          (
            v'',
            e' ∙ ap (λ l. l ++ src) e ∙ append_assoc (contents bp) (c ∷ []) src,
            omega (arith, at, at'),
          ),
        )

  pub terminated-IsText :
      (vp : Vstring) (bp : Vbuf) (s : List ℕ)
      → IsBuffer bp
      → contents bp ≡ s
      → IsString s
      → bp.ptr + bp.ptr + 1 < 2147483648
      → Returns (with_vbuf vp (terminate grants bp)) (IsText s)
  unfolding with_vbuf
  terminated-IsText vp bp s v e h j =
      let (bp', run, (v', same, at, room, ended)) = terminate-Terminated grants plenty bp v j in
      rw (run, with_vbuf)
        (
          _,
          refl,
          record {
            buffer = v';
            bytes = same ∙ e;
            read_back =
                c_string-taken bp'.ptr s bp'.data_block.payload h (ended ∙ ap (λ l. l ++ 0 ∷ []) e);
            room = room;
          },
        )

  added-IsText :
      (vp : Vstring) (bp : Vbuf) (src : List ℕ)
      → IsBuffer bp
      → IsString (contents bp)
      → IsString src
      → 2 * (bp.ptr + length src) + 1 < 2147483648
      → Returns
          (with_vbuf vp (add_chars grants bp src >>= λ bp'. terminate grants bp'))
          (IsText (contents bp ++ src))
  added-IsText vp bp src v h j k =
      let (bp', run, (v', e, at)) = add_chars-Added bp src v (omega (arith, k)) in
      rw run (
        terminated-IsText vp bp' (contents bp ++ src) v' e
          (All-append (λ c. 0 < c) (contents bp) src h j) (omega (arith, at)))

  -- If there is memory and the size stays in an int, `vstring_strcat` makes the string in a buffer the
  -- old one followed by the source, with the 0 behind it in the buffer, which grows as needed.
  pub vstring_strcat-IsText :
      (vp : Vstring) (src : List ℕ)
      → IsBuffer vp.vbuf
      → IsString (contents vp.vbuf)
      → IsString src
      → 2 * (vp.vbuf.ptr + length src) + 1 < 2147483648
      → Returns (vstring_strcat grants vp src) (IsText (contents vp.vbuf ++ src))
  unfolding vstring_strcat
  vstring_strcat-IsText vp src v h j k = added-IsText vp vp.vbuf src v h j k

  -- If there is memory and the size stays in an int, what is read back after `vstring_strcpy` is the
  -- source, whatever was in the buffer and however small it was.
  pub vstring_strcpy-IsText :
      (vp : Vstring) (src : List ℕ)
      → IsBuffer vp.vbuf
      → IsString src
      → 2 * length src + 1 < 2147483648
      → Returns (vstring_strcpy grants vp src) (IsText src)
  unfolding vstring_strcpy reset
  vstring_strcpy-IsText vp src v h k =
      added-IsText vp (reset vp.vbuf) src (IsBuffer-reset vp.vbuf v) tt h (omega arith)

  -- If there is memory and the size stays in an int, `vstring_memcat` puts the bytes at `src` behind those
  -- of the buffer, zeros included.
  pub vstring_memcat-appended :
      (vp : Vstring) (src : List ℕ)
      → IsBuffer vp.vbuf
      → vp.vbuf.len + vp.vbuf.len + length src < 2147483648
      → Returns
          (vstring_memcat grants vp src)
          (λ vp'. IsBuffer vp'.vbuf × (contents vp'.vbuf ≡ contents vp.vbuf ++ src))
  unfolding vstring_memcat with_vbuf at_offset
  vstring_memcat-appended vp src v h =
      let (bp, run, (v', same, at, room)) =
        vstring_buf_space-room grants plenty vp.vbuf (length src) v (omega arith) (λ more. h) in
      let (bp', run', (v'', at', left, e)) =
        copy_to-Copied bp.ptr src bp v' (omega (arith, room, v'.split)) in
      let fit : length src + bp'.ptr ≤ bp'.len = omega (arith, room, left, v''.split) in
      rw (run, run', vstring_memcat)
        (
          _,
          refl,
          (
            record {
              block = v''.block;
              fits = v''.fits;
              split =
                  rw (minus_size-difference bp'.len (length src + bp'.ptr) fit v''.small)
                    (omega (arith, fit));
              small = v''.small;
            },
            ap (λ n. take n bp'.data_block.payload) (omega (arith, at'))
                ∙ e
                ∙ ap (λ l. l ++ src) same,
          ),
        )

module _ (grants : ℕ → Bool) where
  add_some_chars-take :
      (bp : Vbuf) (src : List ℕ) (n : ℕ)
      → add_some_chars grants bp src (pos n) ≡ add_chars grants bp (take n src)
  unfolding add_some_chars add_chars
  add_some_chars-take bp [] zero = refl
  add_some_chars-take bp [] (suc n) = refl
  add_some_chars-take bp (c ∷ src) zero = refl
  add_some_chars-take bp (c ∷ src) (suc n) =
      ap (λ rest. vbuf_put grants 2 bp c >>= rest) (λ i longer. add_some_chars-take longer src n i)

  add_some_chars-negative :
      (bp : Vbuf) (src : List ℕ) (n : ℕ) → add_some_chars grants bp src (negsuc n) ≡ ok bp
  unfolding add_some_chars
  add_some_chars-negative bp [] n = refl
  add_some_chars-negative bp (c ∷ src) n = refl

  -- `vstring_strncpy` and `vstring_strncat` are `vstring_strcpy` and `vstring_strcat` of the first `len`
  -- bytes of the source, of none if `len` is negative.
  pub vstring_strncpy-strcpy :
      (vp : Vstring) (src : List ℕ) (n : ℕ)
      → (vstring_strncpy grants vp src (pos n) ≡ vstring_strcpy grants vp (take n src))
        × (vstring_strncat grants vp src (pos n) ≡ vstring_strcat grants vp (take n src))
        × (vstring_strncpy grants vp src (negsuc n) ≡ vstring_strcpy grants vp [])
        × (vstring_strncat grants vp src (negsuc n) ≡ vstring_strcat grants vp [])
  unfolding vstring_strncpy vstring_strcpy vstring_strncat vstring_strcat add_chars
  vstring_strncpy-strcpy vp src n =
      let copy = λ (r : Outcome Vbuf). with_vbuf vp (r >>= λ bp. terminate grants bp) in
      (
        ap copy (add_some_chars-take (reset vp.vbuf) src n),
        ap copy (add_some_chars-take vp.vbuf src n),
        ap copy (add_some_chars-negative (reset vp.vbuf) src n),
        ap copy (add_some_chars-negative vp.vbuf src n),
      )
