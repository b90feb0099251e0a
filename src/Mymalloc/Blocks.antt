-- ===== src/Mymalloc/Blocks.antt =====
-- `mymalloc` and `myrealloc` of src/util/mymalloc.c: what is kept in a block, and what the
-- checks of the header catch.
use nowra.Base.{
  ℕ, zero, suc, ◌≤◌, ◌<◌, ◌≡◌, refl, ap, Bool, true, false, some, List, [], ◌∷◌, arith, ltb, pos,
  length, take, get_or, ok, Returns,
}
use nowra.Mymalloc.{Mblock, signature, filler, check_in, resized, myrealloc}

-- A block that `mymalloc` or `myrealloc` gave: the header is in order.
pub record IsBlock (b : Mblock) : Type 0 where
  pub signed : b.signature ≡ pos signature
  pub measured : b.length ≡ pos (length b.payload)
  pub some_bytes : 0 < length b.payload

pub length-resized : (n : ℕ) (bytes : List ℕ) → length (resized n bytes) ≡ n
unfolding resized
length-resized zero bytes = refl
length-resized (suc n) [] = ap suc (length-resized n [])
length-resized (suc n) (c ∷ bytes) = ap suc (length-resized n bytes)

pub take-resized :
    (k n : ℕ) (bytes : List ℕ) → k ≤ n → k ≤ length bytes → take k (resized n bytes) ≡ take k bytes
unfolding resized
take-resized zero n bytes h j = refl
take-resized (suc k) zero bytes h j = absurd (omega arith)
take-resized (suc k) (suc n) [] h j = absurd (omega arith)
take-resized (suc k) (suc n) (c ∷ bytes) h j =
    ap (λ l. c ∷ l) (take-resized k n bytes (omega arith) (omega arith))

get_or-resized_nil : (n i : ℕ) → get_or (resized n []) i filler ≡ filler
unfolding resized
get_or-resized_nil zero i = refl
get_or-resized_nil (suc n) zero = refl
get_or-resized_nil (suc n) (suc i) = get_or-resized_nil n i

get_or-resized :
    (n : ℕ) (bytes : List ℕ) (i : ℕ)
    → i < n
    → get_or (resized n bytes) i filler ≡ get_or bytes i filler
unfolding resized
get_or-resized zero bytes i h = absurd (omega arith)
get_or-resized (suc n) [] zero h = refl
get_or-resized (suc n) [] (suc i) h = get_or-resized_nil n i
get_or-resized (suc n) (c ∷ bytes) zero h = refl
get_or-resized (suc n) (c ∷ bytes) (suc i) h = get_or-resized n bytes i (omega arith)

pub check_in-ok :
    (b : Mblock)
    → IsBlock b
    → check_in (some b) ≡ ok (length b.payload, record b { signature = pos 0 })
unfolding check_in
check_in-ok b v = rw (v.signed, v.measured) (ground (arith, v.some_bytes))

pub not_below : (len : ℕ) → 0 < len → ltb len 1 ≡ false
not_below len h = ground arith

-- If there is memory for it, `myrealloc` of a block to 1 byte or more returns a block of that many bytes;
-- those that the old block had are kept, and the others are the filler.
pub myrealloc-kept :
    (grants : ℕ → Bool) (b : Mblock) (len : ℕ)
    → IsBlock b
    → 0 < len
    → grants len ≡ true
    → Returns (myrealloc grants (some b) (pos len)) (λ b'.
      IsBlock b'
      × (length b'.payload ≡ len)
      × ((i : ℕ) → i < len → get_or b'.payload i filler ≡ get_or b.payload i filler))
unfolding myrealloc
myrealloc-kept grants b len v h g =
    rw (check_in-ok b v, g, not_below len h)
      (
        _,
        refl,
        (
          record {
            signed = refl;
            measured = rw length-resized refl;
            some_bytes = omega (arith, length-resized len b.payload);
          },
          length-resized len b.payload,
          (λ i less. get_or-resized len b.payload i less),
        ),
      )
