-- ===== src/Tests/Buffers.antt =====
-- Blocks of src/util/mymalloc.c and string buffers of src/util/vstring.c, with memory for all.
use nowra.Base.{
  ℕ, ◌<◌, ◌≡◌, refl, Bool, true, some, List, [], ◌∷◌, ◌++◌, arith, pos, negsuc, length, get_or, ok,
  Returns,
}
use nowra.Mymalloc.{Mblock, filler, mymalloc, myrealloc}
use nowra.Mymalloc.Blocks.{IsBlock, myrealloc-kept}
use nowra.Vstring.{
  Vbuf, Vstring, vstring_strcpy, vstring_strcat, vstring_range, vbuf_write, vstring_alloc, copy_to,
  write_bytes,
}
use nowra.Vstring.Buffer.{IsBuffer, contents}
use nowra.Vstring.Copy.{IsText, vstring_strcpy-IsText, vstring_strcat-IsText}
use nowra.Vstring.Range.{vstring_range-suffix}
use nowra.Vstring.Write.{vbuf_write-all}

abbrev plenty : ℕ → Bool
plenty n = true

abbrev two_bytes : Mblock
two_bytes = record { signature = pos 57005; length = pos 2; payload = 97 ∷ 98 ∷ [] }

two_bytes-IsBlock : IsBlock two_bytes
two_bytes-IsBlock = record { signed = refl; measured = refl; some_bytes = omega arith }

myrealloc_example : Returns (myrealloc plenty (some two_bytes) (pos 4)) (λ b'.
    IsBlock b'
    × (length b'.payload ≡ 4)
    × ((i : ℕ) → i < 4 → get_or b'.payload i filler ≡ get_or two_bytes.payload i filler))
myrealloc_example = myrealloc-kept plenty two_bytes 4 two_bytes-IsBlock (omega arith) refl

abbrev ab : List ℕ
ab = 97 ∷ 98 ∷ []

-- A buffer of two bytes that "ab" fills, without room for the 0.
abbrev full : Vstring
full = record {
  vbuf = record { data_block = two_bytes; len = 2; cnt = 0; ptr = 2 };
  maxlen = pos 0;
}

full-IsBuffer : IsBuffer full.vbuf
full-IsBuffer = record { block = two_bytes-IsBlock; fits = refl; split = refl; small = omega arith }

vstring_strcpy_example : Returns (vstring_strcpy plenty full ab) (IsText ab)
vstring_strcpy_example =
    vstring_strcpy-IsText plenty (λ n. refl) full ab full-IsBuffer (omega arith, (omega arith, tt))
      (omega arith)

vstring_strcat_example : Returns (vstring_strcat plenty full ab) (IsText (ab ++ ab))
vstring_strcat_example =
    vstring_strcat-IsText plenty (λ n. refl) full ab full-IsBuffer (omega arith, (omega arith, tt))
      (omega arith, (omega arith, tt)) (omega arith)

vbuf_write_example :
    (bp' : Vbuf) × (vbuf_write plenty 3 full.vbuf (99 ∷ ab) ≡ ok (some bp'))
    × IsBuffer bp'
    × (contents bp' ≡ ab ++ 99 ∷ ab)
vbuf_write_example =
    vbuf_write-all plenty (λ n. refl) 3 full.vbuf (99 ∷ ab) full-IsBuffer (omega arith)
      (omega arith)

-- "ab" from 1 to the end, and from 0 to 0.
vstring_range_example :
    (0 < 1 → Returns (vstring_range plenty full (pos 1) (negsuc 0)) (IsText (98 ∷ [])))
    × Returns (vstring_range plenty full (pos 0) (pos 0)) (IsText [])
vstring_range_example =
    vstring_range-suffix plenty (λ n. refl) full 1 (pos 0) full-IsBuffer
      (omega arith, (omega arith, tt)) (omega arith) (omega arith)

-- A new string of one byte is the empty one.
vstring_alloc_one :
    vstring_alloc plenty (pos 1)
    ≡ ok (record {
      vbuf = record {
        data_block = record { signature = pos 57005; length = pos 1; payload = 0 ∷ [] };
        len = 1;
        cnt = 1;
        ptr = 0;
      };
      maxlen = pos 0;
    })
unfolding vstring_alloc mymalloc copy_to write_bytes
vstring_alloc_one = refl
