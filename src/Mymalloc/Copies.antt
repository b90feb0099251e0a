-- ===== src/Mymalloc/Copies.antt =====
-- `mystrdup` and `mystrndup` of src/util/mymalloc.c: what is read back from the copies.
use nowra.Base.{
  ℕ, zero, suc, ◌+◌, ◌≤◌, ◌<◌, ◌≡◌, ◌≢◌, refl, ap, Bool, true, Option, some, List, [], ◌∷◌, ◌++◌,
  arith, ltb, if◌then◌else◌, length, replicate, take, drop, All, length-replicate, length-append,
  Outcome, ok, Returns, ltb_irrefl, int_of, int_of-pos,
}
use nowra.Mymalloc.{
  Mblock, Copy, shared_empty, own, filler, mymalloc, copy_bytes, mystrdup, c_string,
}
use nowra.Mymalloc.Blocks.{IsBlock, not_below}

-- No byte is the terminating 0: the bytes of a string.
abbrev pub IsString : List ℕ → Type 0
IsString = All (λ c. 0 < c)

pub c_string-terminated : (s rest : List ℕ) → IsString s → c_string (s ++ 0 ∷ rest) ≡ some s
c_string-terminated [] rest h = refl
c_string-terminated (zero ∷ s) rest h = absurd (omega (arith, h.0))
c_string-terminated (suc c ∷ s) rest h = rw (c_string-terminated s rest h.1) refl

-- The string that a copy is.
abbrev pub text : Copy → Option (List ℕ)
text shared_empty = some []
text (own b) = c_string b.payload

pub length-take : (n : ℕ) (s : List ℕ) → n ≤ length s → length (take n s) ≡ n
length-take zero s h = refl
length-take (suc n) [] h = absurd (omega arith)
length-take (suc n) (c ∷ s) h = ap suc (length-take n s (omega arith))

pub take-IsString : (n : ℕ) (s : List ℕ) → IsString s → IsString (take n s)
take-IsString zero s h = tt
take-IsString (suc n) [] h = tt
take-IsString (suc n) (c ∷ s) h = (h.0, take-IsString n s h.1)

pub take_all : (n : ℕ) (s : List ℕ) → length s ≤ n → take n s ≡ s
take_all zero [] h = refl
take_all zero (c ∷ s) h = absurd (omega arith)
take_all (suc n) [] h = refl
take_all (suc n) (c ∷ s) h = ap (λ l. c ∷ l) (take_all n s (omega arith))

drop_all : (n : ℕ) (s : List ℕ) → length s ≤ n → drop n s ≡ []
drop_all zero [] h = refl
drop_all zero (c ∷ s) h = absurd (omega arith)
drop_all (suc n) [] h = refl
drop_all (suc n) (c ∷ s) h = drop_all n s (omega arith)

append_nil : (s : List ℕ) → s ++ [] ≡ s
append_nil [] = refl
append_nil (c ∷ s) = ap (λ l. c ∷ l) (append_nil s)

-- A new block that the bytes fill.
abbrev Filled : List ℕ → Outcome Mblock → Type 0
Filled bytes r = Returns r (λ b. IsBlock b × (b.payload ≡ bytes))

filled :
    (grants : ℕ → Bool) (bytes : List ℕ) (len : ℕ)
    → len ≡ length bytes
    → 0 < len
    → len < 2147483648
    → grants len ≡ true
    → (b : Mblock) × (mymalloc grants (int_of len) ≡ ok b) × Filled bytes (copy_bytes b bytes)
unfolding mymalloc copy_bytes
filled grants bytes len e h j g =
    rw (int_of-pos len j, not_below len h, g, mymalloc)
      (
        _,
        refl,
        rw
            (
              length-replicate len filler,
              e,
              ltb_irrefl (length bytes),
              drop_all (length bytes) (replicate (length bytes) filler)
                  (omega (arith, length-replicate (length bytes) filler)),
              append_nil bytes,
            )
            (_, refl, (record { signed = refl; measured = refl; some_bytes = omega arith }, refl)),
      )

-- A copy that reads back as a string, and, unless the original is empty, is a block of its own that
-- has the string's bytes and no more.
abbrev pub Copied : (original copied : List ℕ) → Copy → Type 0
Copied original copied shared_empty = (original ≡ []) × (copied ≡ [])
Copied original copied (own b) =
    (original ≢ [])
    × IsBlock b
    × (c_string b.payload ≡ some copied)
    × (length b.payload ≡ length copied + 1)

-- If there is memory for it, `mystrdup` of a string returns a copy that reads back as the same string:
-- the shared empty string for the empty one, and for any other a block of its bytes and the 0.
pub mystrdup-Copied :
    (grants : ℕ → Bool) (str : List ℕ)
    → IsString str
    → length str + 1 < 2147483648
    → grants (length str + 1) ≡ true
    → Returns (mystrdup grants (some str)) (Copied str str)
unfolding mystrdup
mystrdup-Copied grants [] h j g = (shared_empty, refl, (refl, refl))
mystrdup-Copied grants (c ∷ str) h j g =
    let (b, got, (b', run, (v, e))) =
      filled grants (c ∷ str ++ 0 ∷ []) (length (c ∷ str) + 1)
        (omega (arith, length-append str (0 ∷ []))) (omega arith) j g in
    rw (got, run)
      (
        own b',
        refl,
        (
          λ clash. cc,
          v,
          rw (e, c_string-terminated (c ∷ str) [] h) refl,
          rw e (omega (arith, length-append str (0 ∷ []))),
        ),
      )

-- `min`, as `mystrndup` takes it, is at most both and the string taken up to it is the one taken up to `len`.
shorter : (str : List ℕ) → ℕ → ℕ
shorter str len = if ltb (length str) len then length str else len
