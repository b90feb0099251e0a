-- ===== src/Vstring.antt =====
-- src/util/vstring.c and src/util/vbuf.c, with the macros of vstring.h and vbuf.h: strings in buffers
-- that grow. A `char *` into the buffer is its distance from `data`; sizes are taken modulo 2^64, as
-- a size_t is. The flags and the callbacks of a VBUF do not change and are left out.
pub mod Buffer
pub mod Bytes
pub mod Copy
pub mod Put
pub mod Range
pub mod Write
use nowra.Base.{
  ℕ, zero, suc, ◌+◌, ◌-◌, ◌*◌, ◌%◌, Bool, true, false, not, ◌&&◌, Option, none, some, List, [], ◌∷◌,
  ◌++◌, ltb, leb, ◌==◌, if◌then◌else◌, ℤ, pos, negsuc, ltb_ℤ, int_of, sub_ℕ, length, take, drop,
  set, get_elem?, Outcome, ok, abort, panic, fatal, undefined, ◌>>=◌,
}
use nowra.Mymalloc.{Mblock, mymalloc, myrealloc, myfree, c_string}

-- `VBUF`
pub record Vbuf : Type 0 where
  pub data_block : Mblock
  pub len : ℕ
  pub cnt : ℕ
  pub ptr : ℕ

-- `VSTRING`
pub record Vstring : Type 0 where
  pub vbuf : Vbuf
  pub maxlen : ℤ

-- a - b, as a size_t
abbrev pub minus_size : ℕ → ℕ → ℕ
minus_size a b = (a + 18446744073709551616 - b) % 18446744073709551616

-- The bytes that are written from an offset on have to be in the block.
unfoldable pub write_bytes : ℕ → List ℕ → List ℕ → Outcome (List ℕ)
write_bytes i [] block = ok block
write_bytes i (c ∷ bytes) block =
    if ltb i (length block) then write_bytes (i + 1) bytes (set block i c) else abort undefined

-- `memcpy` to the offset, or a single `*ptr = c`.
unfoldable pub copy_to : ℕ → List ℕ → Vbuf → Outcome Vbuf
copy_to i bytes bp = write_bytes i bytes bp.data_block.payload >>= λ payload.
    ok (record bp { data_block = record (bp.data_block) { payload = payload } })

-- `VSTRING_RESET` and `VSTRING_AT_OFFSET`
unfoldable pub reset : Vbuf → Vbuf
reset bp = record bp { cnt = bp.len; ptr = 0 }

unfoldable pub at_offset : ℕ → Vbuf → Vbuf
at_offset offset bp = record bp { cnt = minus_size bp.len offset; ptr = offset }

-- `vstring_range`: an index from the end; one before the start is 0.
abbrev pub from_end : ℕ → ℤ → ℕ
from_end len (pos n) = n
from_end len (negsuc n) = len - (n + 1)

abbrev pub span : ℕ → ℕ → ℕ
span start end = if ltb end start then 0 else end - start + 1

-- What `start` and `newlen` are after the tests.
unfoldable pub range_of : (len start end : ℕ) → ℕ × ℕ
range_of len start end =
    if not (span start end == 0)
    then (if leb len start
        then (start, 0)
        else if leb len end
        then (start, span start (len - 1))
        else (start, span start end))
    else (0, span start end)

unfoldable pub with_vbuf : Vstring → Outcome Vbuf → Outcome Vstring
with_vbuf vp r = r >>= λ bp. ok (record vp { vbuf = bp })

unfoldable pub move_range : ℕ × ℕ → Vbuf → Outcome Vbuf
move_range (start, newlen) bp =
    if not (start == 0) && not (newlen == 0)
    then (copy_to 0 (take newlen (drop start bp.data_block.payload)) bp >>= λ moved.
        ok (record moved { cnt = moved.cnt + start; ptr = moved.ptr - start }))
    else ok (reset bp)

-- `vstring_truncate`
unfoldable pub vstring_truncate : Vstring → ℤ → Outcome Vstring
vstring_truncate vp (negsuc n) = abort (panic "vstring_truncate: bad length")
vstring_truncate vp (pos len) =
    if ltb len vp.vbuf.ptr then ok (record vp { vbuf = at_offset len vp.vbuf }) else ok vp

module _ (grants : ℕ → Bool) where
  -- `vstring_extend`: `used` is an unsigned int, and the size goes to `myrealloc` as an int.
  unfoldable pub vstring_extend : Vbuf → ℕ → Outcome Vbuf
  vstring_extend bp incr =
      let used = bp.ptr % 4294967296 in
      let len = (bp.len + (if ltb incr bp.len then bp.len else incr)) % 18446744073709551616 in
      myrealloc grants (some bp.data_block) (int_of len) >>= λ block.
      ok (record { data_block = block; len = len; cnt = minus_size len used; ptr = used })

  -- `vstring_buf_space`: `need` is an int, and a size_t is never less than 0.
  unfoldable pub vstring_buf_space : Vbuf → ℕ → Outcome Vbuf
  vstring_buf_space bp len = elim (int_of (minus_size len bp.cnt)) [
    | pos need ↦ if ltb 0 need then vstring_extend bp need else ok bp
    | negsuc n ↦ ok bp
  ]

  -- `VBUF_PUT`, which calls `vbuf_put` on a full buffer, and `vbuf_put`, which makes room and uses
  -- VBUF_PUT again. The calls may nest `depth` deep before the stack is full.
  unfoldable pub vbuf_put : (depth : ℕ) → Vbuf → ℕ → Outcome Vbuf
  vbuf_put zero bp ch = abort undefined
  vbuf_put (suc depth) bp ch =
      if ltb 0 bp.cnt
      then copy_to bp.ptr (ch ∷ []) (record bp { cnt = bp.cnt - 1; ptr = bp.ptr + 1 })
      else vstring_extend bp 0 >>= λ extended. vbuf_put depth extended ch

  -- `vbuf_write`: the loop takes at least one byte a turn; `turns` bounds it.
  unfoldable pub vbuf_write : (turns : ℕ) → Vbuf → List ℕ → Outcome (Option Vbuf)
  vbuf_write turns bp [] = ok (some bp)
  vbuf_write zero bp (c ∷ buf) = ok none
  vbuf_write (suc turns) bp (c ∷ buf) =
      (if bp.cnt == 0 then vstring_extend bp 0 else ok bp) >>= λ ready.
      let n = if ltb (length (c ∷ buf)) ready.cnt then length (c ∷ buf) else ready.cnt in
      copy_to ready.ptr (take n (c ∷ buf)) ready >>= λ written.
      vbuf_write turns (record written { cnt = written.cnt - n; ptr = written.ptr + n })
        (drop n (c ∷ buf))

  -- `VSTRING_TERMINATE`
  unfoldable pub terminate : Vbuf → Outcome Vbuf
  terminate bp = (if bp.cnt == 0 then vstring_buf_space bp 1 else ok bp) >>= λ ready.
      copy_to ready.ptr (0 ∷ []) ready

  -- `vstring_alloc`
  unfoldable pub vstring_alloc : ℤ → Outcome Vstring
  vstring_alloc (negsuc n) = abort (panic "vstring_alloc: bad length")
  vstring_alloc (pos len) =
      if ltb len 1
      then abort (panic "vstring_alloc: bad length")
      else mymalloc grants (pos len) >>= λ block.
          copy_to 0 (0 ∷ []) (record { data_block = block; len = len; cnt = len; ptr = 0 })
          >>= λ bp. ok (record { vbuf = bp; maxlen = pos 0 })

  -- The loop of `vstring_strcpy` and `vstring_strcat`; a source is the list of its bytes before the 0.
  unfoldable pub add_chars : Vbuf → List ℕ → Outcome Vbuf
  add_chars bp [] = ok bp
  add_chars bp (c ∷ src) = vbuf_put 2 bp c >>= λ longer. add_chars longer src

  -- The loop of `vstring_strncpy` and `vstring_strncat`
  unfoldable pub add_some_chars : Vbuf → List ℕ → ℤ → Outcome Vbuf
  add_some_chars bp [] len = ok bp
  add_some_chars bp (c ∷ src) (negsuc n) = ok bp
  add_some_chars bp (c ∷ src) (pos zero) = ok bp
  add_some_chars bp (c ∷ src) (pos (suc n)) =
      vbuf_put 2 bp c >>= λ longer. add_some_chars longer src (pos n)

  unfoldable pub vstring_strcpy : Vstring → List ℕ → Outcome Vstring
  vstring_strcpy vp src = with_vbuf vp (add_chars (reset vp.vbuf) src >>= λ bp. terminate bp)

  unfoldable pub vstring_strncpy : Vstring → List ℕ → ℤ → Outcome Vstring
  vstring_strncpy vp src len =
      with_vbuf vp (add_some_chars (reset vp.vbuf) src len >>= λ bp. terminate bp)

  unfoldable pub vstring_strcat : Vstring → List ℕ → Outcome Vstring
  vstring_strcat vp src = with_vbuf vp (add_chars vp.vbuf src >>= λ bp. terminate bp)

  unfoldable pub vstring_strncat : Vstring → List ℕ → ℤ → Outcome Vstring
  vstring_strncat vp src len = with_vbuf vp (add_some_chars vp.vbuf src len >>= λ bp. terminate bp)

  -- `vstring_memcpy` and `vstring_memcat`, of the `len` bytes at `src`
  unfoldable pub vstring_memcpy : Vstring → List ℕ → Outcome Vstring
  vstring_memcpy vp src = with_vbuf vp (
      vstring_buf_space (reset vp.vbuf) (length src) >>= λ bp.
      copy_to 0 src bp >>= λ copied. ok (at_offset (length src) copied))

  unfoldable pub vstring_memcat : Vstring → List ℕ → Outcome Vstring
  vstring_memcat vp src = with_vbuf vp (
      vstring_buf_space vp.vbuf (length src) >>= λ bp.
      copy_to bp.ptr src bp >>= λ copied. ok (at_offset (length src + copied.ptr) copied))

  unfoldable pub vstring_range : Vstring → ℤ → ℤ → Outcome Vstring
  vstring_range vp start end =
      let bp = vp.vbuf in
      let len = bp.ptr in
      if len == 0
      then ok vp
      else with_vbuf vp (
          move_range (range_of len (from_end len start) (from_end len end)) bp >>= λ moved.
          terminate moved)

-- `vstring_memchr`: the distance of the byte from the start.
unfoldable pub find_byte : ℕ → List ℕ → ℤ → Option ℕ
find_byte i [] ch = none
find_byte i (c ∷ bytes) (negsuc n) = none
find_byte i (c ∷ bytes) (pos ch) =
    let rest = find_byte (i + 1) bytes (pos ch) in if c == ch then some i else rest

unfoldable pub vstring_memchr : Vstring → ℤ → Option ℕ
vstring_memchr vp ch = find_byte 0 (take vp.vbuf.ptr vp.vbuf.data_block.payload) ch

-- `vstring_ctl`, of the arguments that follow; VSTRING_CTL_END is 0, VSTRING_CTL_MAXLEN 1.
unfoldable pub vstring_ctl : Vstring → List ℤ → Outcome Vstring
vstring_ctl vp [] = abort undefined
vstring_ctl vp (pos zero ∷ args) = ok vp
vstring_ctl vp (pos (suc zero) ∷ []) = abort undefined
vstring_ctl vp (pos (suc zero) ∷ negsuc n ∷ args) = abort (panic "vstring_ctl: bad max length")
vstring_ctl vp (pos (suc zero) ∷ pos n ∷ args) = vstring_ctl (record vp { maxlen = pos n }) args
vstring_ctl vp (pos (suc (suc n)) ∷ args) = abort (panic "vstring_ctl: unknown code")
vstring_ctl vp (negsuc n ∷ args) = abort (panic "vstring_ctl: unknown code")

-- `vstring_free`, `vstring_export` and `vstring_import`
unfoldable pub vstring_free : {A : Type 0} → (free : Mblock → A) → Vstring → Outcome A
vstring_free free vp = myfree free (some vp.vbuf.data_block)

unfoldable pub vstring_export : Vstring → Mblock
vstring_export vp = vp.vbuf.data_block

unfoldable pub vstring_import : Mblock → Outcome Vstring
vstring_import str = elim (c_string str.payload) [
  | none ↦ abort undefined
  | some s ↦ ok (record {
    vbuf = at_offset (length s) (record { data_block = str; len = length s + 1; cnt = 0; ptr = 0 });
    maxlen = pos 0;
  })
]
