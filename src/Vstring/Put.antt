-- ===== src/Vstring/Put.antt =====
-- Bytes written to the buffers of src/util/vstring.c, a byte put into one, and the 0 behind a string.
use nowra.Base.{
  ℕ, suc, ◌+◌, ◌-◌, ◌≤◌, ◌<◌, ◌≡◌, refl, ap, ◌∙◌, inl, inr, Bool, true, List, [], ◌∷◌, ◌++◌, arith,
  ltb, ◌==◌, if◌then◌else◌, length, take, ok, Returns, Bool-cases, ltb-true, ltb→lt, ==_iff,
}
use nowra.Vstring.Bytes.{write_bytes-Written, take-written}
use nowra.Vstring.{Vbuf, copy_to, vstring_buf_space, vbuf_put, terminate}
use nowra.Vstring.Buffer.{
  IsBuffer, contents, vstring_extend-IsBuffer, vstring_buf_space-room, growth_enough, not_more,
}

-- The first part of a buffer after bytes were written to an offset.
abbrev pub written_part : ℕ → List ℕ → Vbuf → List ℕ
written_part i bytes bp = take (i + length bytes) bp.data_block.payload

pub copy_to-Copied :
    (i : ℕ) (bytes : List ℕ) (bp : Vbuf)
    → IsBuffer bp
    → i + length bytes ≤ bp.len
    → Returns (copy_to i bytes bp) (λ bp'.
      IsBuffer bp'
      × (bp'.ptr ≡ bp.ptr)
      × (bp'.cnt ≡ bp.cnt)
      × (written_part i bytes bp' ≡ take i bp.data_block.payload ++ bytes))
unfolding copy_to
copy_to-Copied i bytes bp v h =
    let (b, run, (same, e)) =
      write_bytes-Written i bytes bp.data_block.payload (omega (arith, v.fits)) in
    rw (run, copy_to)
      (
        _,
        refl,
        (
          record {
            block = record {
              signed = v.block.signed;
              measured = rw same v.block.measured;
              some_bytes = omega (arith, same, v.block.some_bytes);
            };
            fits = same ∙ v.fits;
            split = v.split;
            small = v.small;
          },
          refl,
          refl,
          e,
        ),
      )

-- A buffer with the contents of another and a 0 behind them.
abbrev pub Terminated : Vbuf → Vbuf → Type 0
Terminated bp bp' =
    IsBuffer bp'
    × (contents bp' ≡ contents bp)
    × (bp'.ptr ≡ bp.ptr)
    × (0 < bp'.cnt)
    × (written_part bp'.ptr (0 ∷ []) bp' ≡ contents bp ++ 0 ∷ [])

write_zero :
    (bp : Vbuf) → IsBuffer bp → 0 < bp.cnt → Returns (copy_to bp.ptr (0 ∷ []) bp) (Terminated bp)
write_zero bp v h =
    let (bp', run, (v', at, left, e)) =
      copy_to-Copied bp.ptr (0 ∷ []) bp v (omega (arith, v.split)) in
    let held : bp.ptr ≤ length bp.data_block.payload = omega (arith, v.split, v.fits) in
    (
      bp',
      run,
      (
        v',
        ap (λ n. take n bp'.data_block.payload) at
            ∙ take-written bp.ptr (0 ∷ []) bp.data_block.payload bp'.data_block.payload held e,
        at,
        omega (arith, left, h),
        ap (λ n. take (n + 1) bp'.data_block.payload) at ∙ e,
      ),
    )

module _ (grants : ℕ → Bool) (plenty : (n : ℕ) → grants n ≡ true) where
  -- A byte put into a buffer with room.
  put_room :
      (depth : ℕ) (bp : Vbuf) (ch : ℕ)
      → IsBuffer bp
      → 0 < bp.cnt
      → Returns
          (vbuf_put grants (suc depth) bp ch)
          (λ bp'. IsBuffer bp' × (contents bp' ≡ contents bp ++ ch ∷ []) × (bp'.ptr ≡ bp.ptr + 1))
  unfolding vbuf_put
  put_room depth bp ch v h =
      let further = record bp { cnt = bp.cnt - 1; ptr = bp.ptr + 1 } in
      let (bp', run, (v', at, left, e)) =
        copy_to-Copied bp.ptr (ch ∷ []) further
          (record {
            block = v.block;
            fits = v.fits;
            split = omega (arith, v.split);
            small = v.small;
          })
          (omega (arith, v.split)) in
      rw (ltb-true 0 bp.cnt h, vbuf_put) (bp', run, (v', rw at e, at))

  -- A byte put into a buffer, which grows if it is full, comes behind the others.
  pub vbuf_put-Put :
      (bp : Vbuf) (ch : ℕ)
      → IsBuffer bp
      → bp.ptr + bp.ptr < 2147483648
      → Returns
          (vbuf_put grants 2 bp ch)
          (λ bp'. IsBuffer bp' × (contents bp' ≡ contents bp ++ ch ∷ []) × (bp'.ptr ≡ bp.ptr + 1))
  unfolding vbuf_put
  vbuf_put-Put bp ch v h = elim (Bool-cases (ltb 0 bp.cnt)) [
    | inl room ↦ put_room 1 bp ch v (ltb→lt 0 bp.cnt room)
    | inr full ↦
        let none_left = not_more 0 bp.cnt full in
        let (bp', run, (v', same, at, longer)) =
          vstring_extend-IsBuffer grants plenty bp 0 v (omega (arith, v.split))
            (omega (arith, v.small)) in
        let (bp'', run', (v'', more, at')) = put_room 0 bp' ch v' (
          omega (
            arith,
            longer,
            at,
            v'.split,
            v.split,
            v.block.some_bytes,
            v.fits,
            (growth_enough bp.len 0).1,
          )) in
        rw (full, vbuf_put, run, run')
          (bp'', refl, (v'', more ∙ ap (λ l. l ++ ch ∷ []) same, omega (arith, at, at')))
  ]

  ready :
      (bp : Vbuf)
      → IsBuffer bp
      → bp.ptr + bp.ptr + 1 < 2147483648
      → Returns
          (if bp.cnt == 0 then vstring_buf_space grants bp 1 else ok bp)
          (λ bp'. IsBuffer bp' × (contents bp' ≡ contents bp) × (bp'.ptr ≡ bp.ptr) × (0 < bp'.cnt))
  ready bp v h = elim (Bool-cases (bp.cnt == 0)) [
    | inl full ↦
        let empty = (==_iff bp.cnt 0).0 full in
        rw full (
          vstring_buf_space-room grants plenty bp 1 v (omega arith)
            (λ more. omega (arith, v.split, empty)))
    | inr room ↦ rw room (bp, refl, (v, refl, refl, ground arith))
  ]

  -- `VSTRING_TERMINATE` writes a 0 behind the contents, and keeps them.
  pub terminate-Terminated :
      (bp : Vbuf)
      → IsBuffer bp
      → bp.ptr + bp.ptr + 1 < 2147483648
      → Returns (terminate grants bp) (Terminated bp)
  unfolding terminate
  terminate-Terminated bp v h =
      let (bp', run, (v', same, at, room)) = ready bp v h in
      let (bp'', run', (v'', same', at', left, e)) = write_zero bp' v' room in
      rw (run, run', terminate)
        (bp'', refl, (v'', same' ∙ same, at' ∙ at, left, e ∙ ap (λ l. l ++ 0 ∷ []) same))
