-- ===== src/Vstring/Write.antt =====
-- `vbuf_write` of src/util/vbuf.c on the buffers of vstring.c: the loop ends, with all bytes written.
use nowra.Base.{
  ℕ, zero, suc, ◌+◌, ◌-◌, ◌*◌, ◌≤◌, ◌<◌, ◌≡◌, refl, sym, ap, ◌∙◌, inl, inr, Bool, true, some, List,
  [], ◌∷◌, ◌++◌, arith, ltb, ◌==◌, if◌then◌else◌, length, take, drop, ok, Returns, Bool-cases,
  ==_iff,
}
use nowra.Vstring.{Vbuf, vbuf_write, copy_to, vstring_extend}
use nowra.Vstring.Bytes.{append_assoc, append_nil, length-take, take-drop, length-drop}
use nowra.Vstring.Buffer.{IsBuffer, contents, vstring_extend-IsBuffer, growth_enough}
use nowra.Vstring.Put.{copy_to-Copied}

-- The bytes that a turn writes: at least one, and no more than there are or fit.
turn_size : (count cnt : ℕ) → ℕ
turn_size count cnt = if ltb count cnt then count else cnt

turn_size-bounds :
    (count cnt : ℕ)
    → 0 < count
    → 0 < cnt
    → (0 < turn_size count cnt) × (turn_size count cnt ≤ count) × (turn_size count cnt ≤ cnt)
unfolding turn_size
turn_size-bounds count cnt h j = (ground arith, ground arith, ground arith)

-- A turn of the loop on a buffer with room.
copy_turn :
    (bp : Vbuf) (buf : List ℕ) (n : ℕ)
    → IsBuffer bp
    → n ≤ length buf
    → n ≤ bp.cnt
    → Returns (copy_to bp.ptr (take n buf) bp) (λ bp'.
      IsBuffer (record bp' { cnt = bp'.cnt - n; ptr = bp'.ptr + n })
      × (contents (record bp' { cnt = bp'.cnt - n; ptr = bp'.ptr + n }) ≡ contents bp ++ take n buf)
      × (bp'.ptr ≡ bp.ptr))
copy_turn bp buf n v h j =
    let (bp', run, (v', at, left, e)) =
      copy_to-Copied bp.ptr (take n buf) bp v (omega (arith, length-take n buf h, v.split)) in
    (
      bp',
      run,
      (
        record {
          block = v'.block;
          fits = v'.fits;
          split = omega (arith, v'.split, left);
          small = v'.small;
        },
        ap (λ k. take k bp'.data_block.payload) (omega (arith, at, length-take n buf h)) ∙ e,
        at,
      ),
    )

module _ (grants : ℕ → Bool) (plenty : (n : ℕ) → grants n ≡ true) where
  with_room :
      (bp : Vbuf)
      → IsBuffer bp
      → bp.ptr + bp.ptr < 2147483648
      → Returns
          (if bp.cnt == 0 then vstring_extend grants bp 0 else ok bp)
          (λ bp'. IsBuffer bp' × (contents bp' ≡ contents bp) × (bp'.ptr ≡ bp.ptr) × (0 < bp'.cnt))
  with_room bp v h = elim (Bool-cases (bp.cnt == 0)) [
    | inl full ↦
        let empty = (==_iff bp.cnt 0).0 full in
        let (bp', run, (v', same, at, longer)) =
          vstring_extend-IsBuffer grants plenty bp 0 v (omega (arith, v.split))
            (omega (arith, v.small)) in
        rw full (
          bp',
          run,
          (
            v',
            same,
            at,
            omega (
              arith,
              longer,
              at,
              empty,
              v'.split,
              v.split,
              v.block.some_bytes,
              v.fits,
              (growth_enough bp.len 0).1,
            ),
          ),
        )
    | inr room ↦ rw room (bp, refl, (v, refl, refl, ground arith))
  ]

  -- If there is memory and the size stays in an int, `vbuf_write` ends after no more turns than there are
  -- bytes, without an error, and has put all of them behind those of the buffer.
  pub vbuf_write-all :
      (turns : ℕ) (bp : Vbuf) (buf : List ℕ)
      → IsBuffer bp
      → length buf ≤ turns
      → 2 * (bp.ptr + length buf) < 2147483648
      → (bp' : Vbuf) × (vbuf_write grants turns bp buf ≡ ok (some bp'))
        × IsBuffer bp'
        × (contents bp' ≡ contents bp ++ buf)
  unfolding vbuf_write turn_size
  vbuf_write-all turns bp [] v h j = (bp, refl, v, sym (append_nil (contents bp)))
  vbuf_write-all zero bp (c ∷ buf) v h j = absurd (omega arith)
  vbuf_write-all (suc turns) bp (c ∷ buf) v h j =
      let (ready, run, (v', same, at, room)) = with_room bp v (omega (arith, j)) in
      let n = turn_size (length (c ∷ buf)) ready.cnt in
      let (some_bytes, few, fit) =
        turn_size-bounds (length (c ∷ buf)) ready.cnt (omega arith) room in
      let (bp', run', (v'', e, at')) = copy_turn ready (c ∷ buf) n v' few fit in
      let (end, run'', w, e') =
        vbuf_write-all turns (record bp' { cnt = bp'.cnt - n; ptr = bp'.ptr + n })
          (drop n (c ∷ buf)) v'' (omega (arith, some_bytes, h, length-drop n (c ∷ buf)))
          (omega (arith, at, at', few, length-drop n (c ∷ buf), j)) in
      rw (run, run', run'', vbuf_write)
        (
          end,
          refl,
          w,
          e'
              ∙ ap (λ l. l ++ drop n (c ∷ buf)) e
              ∙ append_assoc (contents ready) (take n (c ∷ buf)) (drop n (c ∷ buf))
              ∙ ap (λ l. contents ready ++ l) (take-drop n (c ∷ buf))
              ∙ ap (λ l. l ++ c ∷ buf) same,
        )
