-- ===== src/Stringop/Number.antt =====
-- `string2ll` of src/util/stringop.c reads a numeral as it is meant, and its overflow tests refuse
-- exactly the numbers that a long long cannot hold.
use nowra.Base.{
  ℕ, suc, ◌+◌, ◌-◌, ◌*◌, ◌/◌, ◌<◌, ◌≡◌, refl, sym, ltb→lt, Bool, true, false, ◌&&◌, Option, none,
  some, List, [], ◌∷◌, arith, ltb, leb, ◌==◌, if◌then◌else◌, Bool-cases, inl, inr, ℤ, pos, length,
}
use nowra.Stringop.{
  ullong_max, llong_max, is_digit, read_digits, minus, finish, from_digit, string2ll,
}

-- The number that digits stand for after `v`, of any size; none if a byte is no digit.
unfoldable pub horner : ℕ → List ℕ → Option ℕ
horner v [] = some v
horner v (c ∷ s) = let rest = horner (v * 10 + (c - 48)) s in if is_digit c then rest else none

-- A number without a leading zero.
unfoldable pub positive : List ℕ → Option ℕ
positive [] = none
positive (c ∷ s) = if leb 49 c && leb c 57 then horner (c - 48) s else none

-- A number with its sign, if a long long can hold it.
unfoldable pub represented : (negative : Bool) → Option ℕ → Option ℤ
represented negative none = none
represented true (some n) = if leb n (llong_max + 1) then some (minus n) else none
represented false (some n) = if leb n llong_max then some (pos n) else none

-- The value of a numeral: 0, a number without a leading zero, or such a number after '-'.
unfoldable pub numeral : List ℕ → Option ℤ
numeral [] = none
numeral (c ∷ s) =
    if length s == 0 && c == 48
    then some (pos 0)
    else if c == 45
    then represented true (positive s)
    else represented false (positive (c ∷ s))

-- Beyond what either sign can hold.
too_big :
    (negative : Bool) (v : ℕ) (s : List ℕ)
    → llong_max + 1 < v
    → represented negative (horner v s) ≡ none
unfolding horner represented
too_big true v [] h = ground arith
too_big false v [] h = ground arith
too_big negative v (c ∷ s) h = elim (Bool-cases (is_digit c)) [
  | inl digit ↦ rw digit (too_big negative (v * 10 + (c - 48)) s (omega arith))
  | inr other ↦ rw other
]

finish-read_digits :
    (negative : Bool) (v : ℕ) (s : List ℕ)
    → finish negative (read_digits v s) ≡ represented negative (horner v s)
unfolding finish read_digits horner represented
finish-read_digits true v [] = ground arith
finish-read_digits false v [] = ground arith
finish-read_digits negative v (c ∷ s) = elim (Bool-cases (is_digit c)) [
  | inr other ↦ rw other
  | inl digit ↦ elim (Bool-cases (ltb (ullong_max / 10) v)) [
    | inl over ↦
        rw (digit, over)
          (sym (too_big negative (v * 10 + (c - 48)) s (let lt = ltb→lt _ _ over in omega arith)))
    | inr under ↦ elim (Bool-cases (ltb (ullong_max - (c - 48)) (v * 10))) [
      | inl over ↦
          rw (digit, under, over)
            (sym (too_big negative (v * 10 + (c - 48)) s (let lt = ltb→lt _ _ over in omega arith)))
      | inr fits ↦ rw (digit, under, fits) (finish-read_digits negative (v * 10 + (c - 48)) s)
    ]
  ]
]

-- Two bytes at least: the test for a single 0 fails.
long_enough : (c d : ℕ) (s : List ℕ) → (length (c ∷ d ∷ s) == 1) ≡ false
long_enough c d s = ground arith

nonzero : (n : ℕ) → (suc n == 0) ≡ false
nonzero n = ground arith

single : (c : ℕ) (s : List ℕ) → (length (c ∷ s) == 1) ≡ (length s == 0)
single c [] = refl
single c (d ∷ s) = ground arith

no_zero : (a b : Bool) → (a && b) ≡ false → (if b && a then some (pos 0) else none) ≡ none
no_zero true true h = cc
no_zero true false h = refl
no_zero false true h = refl
no_zero false false h = refl

from_digit-positive :
    (negative : Bool) (slen c : ℕ) (s : List ℕ)
    → ((slen == 1) && (c == 48)) ≡ false
    → from_digit negative slen (c ∷ s) ≡ represented negative (positive (c ∷ s))
unfolding from_digit positive represented
from_digit-positive negative slen c s h = elim (Bool-cases (leb 49 c && leb c 57)) [
  | inl first ↦ rw first (finish-read_digits negative (c - 48) s)
  | inr other ↦ rw other (no_zero (slen == 1) (c == 48) h)
]

after_minus :
    (c : ℕ) (s : List ℕ)
    → (if length s == 0 then none else from_digit true (length (c ∷ s)) s)
      ≡ represented true (positive s)
unfolding positive represented
after_minus c [] = refl
after_minus c (d ∷ s) =
    rw (nonzero (length s)) (from_digit-positive true _ d s (rw (long_enough c d s)))

-- `string2ll` returns 1 exactly for the numerals whose value a long long can hold, and sets the value.
pub string2ll-numeral : (s : List ℕ) → string2ll s ≡ numeral s
unfolding string2ll numeral
string2ll-numeral [] = refl
string2ll-numeral (c ∷ s) = elim (Bool-cases (length s == 0 && c == 48)) [
  | inl zero_alone ↦ rw (single c s, zero_alone)
  | inr other ↦ elim (Bool-cases (c == 45)) [
    | inl dash ↦ rw (single c s, other, dash) (after_minus c s)
    | inr plain ↦
        rw (single c s, other, plain)
          (from_digit-positive false (length (c ∷ s)) c s (rw (single c s) other))
  ]
]
