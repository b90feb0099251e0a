-- ===== src/Vstring/Buffer.antt =====
-- The buffers of src/util/vbuf.c and src/util/vstring.c: what is kept of a buffer, and its growth.
use nowra.Base.{
  ℕ, ◌+◌, ◌-◌, ◌%◌, ◌≤◌, ◌<◌, ◌≡◌, refl, ap, ◌∙◌, inl, inr, Bool, true, false, some, List, arith,
  ltb, if◌then◌else◌, pos, length, take, ok, Returns, Bool-cases, int_of, int_of-pos, int_of-negsuc,
  ltb-true, ltb-false, ltb→lt, negsuc,
}
use nowra.Mymalloc.{Mblock, myrealloc, resized, signature}
use nowra.Mymalloc.Blocks.{IsBlock, length-resized, take-resized, check_in-ok, not_below}
use nowra.Vstring.{Vbuf, vstring_extend, vstring_buf_space, minus_size}

-- The buffer is a block of `len` bytes, of which `cnt` are free from `ptr` on.
pub record IsBuffer (bp : Vbuf) : Type 0 where
  pub block : IsBlock bp.data_block
  pub fits : length bp.data_block.payload ≡ bp.len
  pub split : bp.ptr + bp.cnt ≡ bp.len
  pub small : bp.len < 2147483648

-- The bytes before `ptr`.
abbrev pub contents : Vbuf → List ℕ
contents bp = take bp.ptr bp.data_block.payload

modulo_64 : (n : ℕ) → n < 2147483648 → n % 18446744073709551616 ≡ n
modulo_64 n h = omega arith

modulo_32 : (n : ℕ) → n < 2147483648 → n % 4294967296 ≡ n
modulo_32 n h = omega arith

pub minus_size-difference : (a b : ℕ) → b ≤ a → a < 2147483648 → minus_size a b ≡ a - b
minus_size-difference a b h j = omega arith

abbrev growth : ℕ → ℕ → ℕ
growth len incr = if ltb incr len then len else incr

pub growth_enough : (len incr : ℕ) → (incr ≤ growth len incr) × (len ≤ growth len incr)
growth_enough len incr = (ground arith, ground arith)

growth_small :
    (len incr : ℕ)
    → len + len < 2147483648
    → len + incr < 2147483648
    → len + growth len incr < 2147483648
growth_small len incr h j = ground arith

need-more :
    (len cnt : ℕ) → cnt ≤ len → len < 2147483648 → int_of (minus_size len cnt) ≡ pos (len - cnt)
need-more len cnt h j =
    ap int_of (minus_size-difference len cnt h j) ∙ int_of-pos (len - cnt) (omega arith)

need-less :
    (len cnt : ℕ)
    → len < cnt
    → cnt < 2147483648
    → (n : ℕ) × (int_of (minus_size len cnt) ≡ negsuc n)
need-less len cnt h j = (_, int_of-negsuc (minus_size len cnt) (omega arith))

pub not_more : (a b : ℕ) → ltb a b ≡ false → b ≤ a
not_more a b h = ground arith

module _ (grants : ℕ → Bool) (plenty : (n : ℕ) → grants n ≡ true) where
  reallocated :
      (b : Mblock) (len : ℕ)
      → IsBlock b
      → 0 < len
      → len < 2147483648
      → myrealloc grants (some b) (int_of len)
        ≡ ok (record {
          signature = pos signature;
          length = pos len;
          payload = resized len b.payload;
        })
  unfolding myrealloc
  reallocated b len v h j =
      rw (int_of-pos len j, myrealloc, not_below len h, check_in-ok b v, plenty len) refl

  -- The buffer grows by its size or by what is asked for; it keeps its bytes.
  pub vstring_extend-IsBuffer :
      (bp : Vbuf) (incr : ℕ)
      → IsBuffer bp
      → bp.len + bp.len < 2147483648
      → bp.len + incr < 2147483648
      → Returns (vstring_extend grants bp incr) (λ bp'.
        IsBuffer bp'
        × (contents bp' ≡ contents bp)
        × (bp'.ptr ≡ bp.ptr)
        × (bp'.len ≡ bp.len + growth bp.len incr))
  unfolding vstring_extend
  vstring_extend-IsBuffer bp incr v h j =
      let n = bp.len + growth bp.len incr in
      let small = growth_small bp.len incr h j in
      let low : bp.ptr < 2147483648 = omega (arith, v.split, v.small) in
      let up : 0 < bp.len + growth bp.len incr = omega (arith, v.block.some_bytes, v.fits) in
      let fit : bp.ptr ≤ bp.len + growth bp.len incr = omega (arith, v.split) in
      let held : bp.ptr ≤ length bp.data_block.payload = omega (arith, v.split, v.fits) in
      rw
        (
          modulo_64 n small,
          modulo_32 bp.ptr low,
          reallocated bp.data_block n v.block up small,
          minus_size-difference n bp.ptr fit small,
        )
        (
          _,
          refl,
          (
            record {
              block = record {
                signed = refl;
                measured = rw length-resized refl;
                some_bytes = omega (arith, up, length-resized n bp.data_block.payload);
              };
              fits = length-resized n bp.data_block.payload;
              split = omega (arith, fit);
              small = small;
            },
            take-resized bp.ptr n bp.data_block.payload fit held,
            refl,
            refl,
          ),
        )

  -- `vstring_buf_space` leaves room for as many bytes as it is asked for.
  pub vstring_buf_space-room :
      (bp : Vbuf) (len : ℕ)
      → IsBuffer bp
      → len < 2147483648
      → (bp.cnt < len → bp.len + bp.len + len < 2147483648)
      → Returns (vstring_buf_space grants bp len) (λ bp'.
        IsBuffer bp' × (contents bp' ≡ contents bp) × (bp'.ptr ≡ bp.ptr) × (len ≤ bp'.cnt))
  unfolding vstring_buf_space
  vstring_buf_space-room bp len v h j = elim (Bool-cases (ltb bp.cnt len)) [
    | inl more ↦
        let room = j (ltb→lt bp.cnt len more) in
        let (bp', run, (v', same, at, longer)) =
          vstring_extend-IsBuffer bp (len - bp.cnt) v (omega arith) (omega arith) in
        rw
          (
            need-more len bp.cnt (omega (arith, ltb→lt bp.cnt len more)) h,
            vstring_buf_space,
            ltb-true 0 (len - bp.cnt) (omega (arith, ltb→lt bp.cnt len more)),
          )
          (
            bp',
            run,
            (
              v',
              same,
              at,
              omega (arith, longer, at, v'.split, v.split, (growth_enough bp.len (len - bp.cnt)).0),
            ),
          )
    | inr less ↦ elim (Bool-cases (ltb len bp.cnt)) [
      | inl below ↦
          let (n, e) =
            need-less len bp.cnt (ltb→lt len bp.cnt below) (omega (arith, v.split, v.small)) in
          rw (e, vstring_buf_space) (bp, refl, (v, refl, refl, not_more bp.cnt len less))
      | inr level ↦
          let same : len ≡ bp.cnt =
            omega (arith, not_more bp.cnt len less, not_more len bp.cnt level) in
          rw
            (
              need-more len bp.cnt (omega arith) h,
              ltb-false 0 (len - bp.cnt) (omega arith),
              vstring_buf_space,
            )
            (bp, refl, (v, refl, refl, not_more bp.cnt len less))
    ]
  ]
