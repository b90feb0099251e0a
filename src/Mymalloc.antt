-- ===== src/Mymalloc.antt =====
-- src/util/mymalloc.c: blocks of memory with a header, and the checks of it. A pointer is the block
-- that it points to, or none for NULL.
pub mod Blocks
pub mod Copies
use nowra.Base.{
  ℕ, zero, suc, ◌+◌, Bool, true, false, not, Option, none, some, List, [], ◌∷◌, ◌++◌, ltb,
  if◌then◌else◌, ℤ, pos, negsuc, eqb_ℤ, ltb_ℤ, int_of, length, replicate, take, drop, Outcome, ok,
  abort, panic, fatal, undefined, ◌>>=◌,
}

abbrev pub signature : ℕ
signature = 57005

abbrev pub filler : ℕ
filler = 255

-- `MBLOCK`: the payload is as many bytes as the block has.
pub record Mblock : Type 0 where
  pub signature : ℤ
  pub length : ℤ
  pub payload : List ℕ

-- `CHECK_OUT_PTR`
abbrev check_out : ℕ → List ℕ → Mblock
check_out len payload = record { signature = pos signature; length = pos len; payload = payload }

-- `mymalloc`: whether malloc has memory of a size is an argument, also below.
unfoldable pub mymalloc : (grants : ℕ → Bool) → ℤ → Outcome Mblock
mymalloc grants (negsuc n) = abort (panic "mymalloc: requested length")
mymalloc grants (pos len) =
    if ltb len 1
    then abort (panic "mymalloc: requested length")
    else if grants len
    then ok (check_out len (replicate len filler))
    else abort (fatal "mymalloc: insufficient memory")

-- `CHECK_IN_PTR`: the length of the block, and the block with its signature cleared.
unfoldable pub check_in : Option Mblock → Outcome (ℕ × Mblock)
check_in none = abort (panic "null pointer input")
check_in (some b) =
    if not (eqb_ℤ b.signature (pos signature))
    then abort (panic "corrupt or unallocated memory block")
    else if ltb_ℤ b.length (pos 1)
    then abort (panic "corrupt memory block length")
    else elim b.length [
      | pos len ↦ ok (len, record b { signature = pos 0 })
      | negsuc n ↦ abort (panic "corrupt memory block length")
    ]

-- What realloc and the memset after it make of the payload.
unfoldable pub resized : ℕ → List ℕ → List ℕ
resized zero bytes = []
resized (suc n) [] = filler ∷ resized n []
resized (suc n) (c ∷ bytes) = c ∷ resized n bytes

-- `myrealloc`
unfoldable pub myrealloc : (grants : ℕ → Bool) → Option Mblock → ℤ → Outcome Mblock
myrealloc grants ptr (negsuc n) = abort (panic "myrealloc: requested length")
myrealloc grants ptr (pos len) =
    if ltb len 1
    then abort (panic "myrealloc: requested length")
    else check_in ptr >>= λ (old_len, b).
        if grants len
        then ok (check_out len (resized len b.payload))
        else abort (fatal "myrealloc: insufficient memory")

-- `myfree`: the block is overwritten, the header as well, and goes to `free`, which is the system's.
unfoldable pub myfree : {A : Type 0} → (free : Mblock → A) → Option Mblock → Outcome A
myfree free ptr = check_in ptr >>= λ (len, b).
    ok (free (record { signature = negsuc 0; length = negsuc 0; payload = replicate len filler }))

-- What `mystrdup` and `mystrndup` return: the shared empty string or a block of their own.
pub data Copy : Type 0 where
  shared_empty : Copy
  own : Mblock → Copy

-- `strcpy` and `memcpy` to the start of a block
unfoldable pub copy_bytes : Mblock → List ℕ → Outcome Mblock
copy_bytes b bytes =
    if ltb (length b.payload) (length bytes)
    then abort undefined
    else ok (record b { payload = bytes ++ drop (length bytes) b.payload })

-- `mystrdup`
unfoldable pub mystrdup : (grants : ℕ → Bool) → Option (List ℕ) → Outcome Copy
mystrdup grants none = abort (panic "mystrdup: null pointer argument")
mystrdup grants (some []) = ok shared_empty
mystrdup grants (some (c ∷ str)) = mymalloc grants (int_of (length (c ∷ str) + 1)) >>= λ b.
    copy_bytes b (c ∷ str ++ 0 ∷ []) >>= λ copy. ok (own copy)

-- `mystrndup`: `memchr` finds the end of the string if it is among the first `len` bytes. A size_t is
-- never less than 0.
unfoldable pub mystrndup : (grants : ℕ → Bool) → Option (List ℕ) → ℕ → Outcome Copy
mystrndup grants none len = abort (panic "mystrndup: null pointer argument")
mystrndup grants (some []) len = ok shared_empty
mystrndup grants (some (c ∷ str)) len =
    let n = if ltb (length (c ∷ str)) len then length (c ∷ str) else len in
    mymalloc grants (int_of (n + 1)) >>= λ b.
    copy_bytes b (take n (c ∷ str) ++ 0 ∷ []) >>= λ copy. ok (own copy)

-- `mymemdup`, of the bytes at `ptr`
unfoldable pub mymemdup : (grants : ℕ → Bool) → Option (List ℕ) → Outcome Mblock
mymemdup grants none = abort (panic "mymemdup: null pointer argument")
mymemdup grants (some bytes) = mymalloc grants (int_of (length bytes)) >>= λ b. copy_bytes b bytes

-- The string at the start of some memory, none if no 0 ends it.
abbrev pub c_string : List ℕ → Option (List ℕ)
c_string [] = none
c_string (zero ∷ bytes) = some []
c_string (suc c ∷ bytes) = elim (c_string bytes) [ none ↦ none | some s ↦ some (suc c ∷ s) ]
