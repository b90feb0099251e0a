-- ===== src/Stringop/Break.antt =====
-- `split_at`, `split_at_right`, `host_port` and `basename` of src/util/stringop.c: where a string is
-- broken.
use nowra.Base.{
  ℕ, ◌≡◌, ◌⊎◌, refl, ap, Option, none, some, List, [], ◌∷◌, ◌++◌, arith, ◌==◌, Bool-cases, inl, inr,
  weight, to_nat,
}
use nowra.Stringop.{split_at, split_at_right, host_port}

-- How often a byte stands in a string.
abbrev pub occurrences : ℕ → List ℕ → ℕ
occurrences d = weight (λ c. to_nat (c == d))

-- The string has no delimiter and is whole, or it is broken at one, and a part of it has none.
abbrev pub BrokenAt :
    (part : List ℕ → List ℕ → List ℕ) → ℕ → List ℕ → List ℕ × Option (List ℕ) → Type 0
BrokenAt part d s (before, after) =
    ((after ≡ none) × (before ≡ s) × (occurrences d s ≡ 0))
    ⊎ ((rest : List ℕ) × (after ≡ some rest)
        × (s ≡ before ++ d ∷ rest)
        × (occurrences d (part before rest) ≡ 0))

-- The part before the delimiter, and that after it.
abbrev pub left_part : List ℕ → List ℕ → List ℕ
left_part before rest = before

abbrev pub right_part : List ℕ → List ℕ → List ℕ
right_part before rest = rest

-- `split_at` breaks a string at the first delimiter: none is left before it; without a delimiter the
-- string stays whole and NULL is returned.
pub split_at-BrokenAt : (s : List ℕ) (d : ℕ) → BrokenAt left_part d s (split_at s d)
unfolding split_at
split_at-BrokenAt [] d = inl (refl, refl, refl)
split_at-BrokenAt (c ∷ s) d = elim (Bool-cases (c == d)) [
  | inl same ↦ let e : c ≡ d = ground arith in rw same (inr (s, refl, ap (λ x. x ∷ s) e, refl))
  | inr other ↦ elim (split_at-BrokenAt s d) [
    | inl (e, whole, none_there) ↦ rw other (inl (e, ap (λ l. c ∷ l) whole, omega arith))
    | inr (rest, e, split, none_before) ↦
        rw (other, other) (inr (rest, e, ap (λ l. c ∷ l) split, omega arith))
  ]
]

-- `split_at_right` breaks a string at the last delimiter: none is left after it.
pub split_at_right-BrokenAt : (s : List ℕ) (d : ℕ) → BrokenAt right_part d s (split_at_right s d)
unfolding split_at_right
split_at_right-BrokenAt [] d = inl (refl, refl, refl)
split_at_right-BrokenAt (c ∷ s) d = elim (split_at_right-BrokenAt s d) [
  | inr (rest, e, split, none_after) ↦
      rw (e, split_at_right) (inr (rest, refl, ap (λ l. c ∷ l) split, none_after))
  | inl (e, whole, none_there) ↦ elim (Bool-cases (c == d)) [
    | inl same ↦
        let z : c ≡ d = ground arith in
        rw (e, same, split_at_right) (inr (s, refl, ap (λ x. x ∷ s) z, none_there))
    | inr other ↦ rw (e, other, split_at_right) (inl (refl, refl, omega arith))
  ]
]

-- `host_port` takes the part after the last ':' for the port and the part before it for the host; an
-- address without ':' is a port without a host.
pub host_port-last_colon :
    (addr : List ℕ)
    → let (host, port) = host_port addr in
      ((occurrences 58 addr ≡ 0) × (host ≡ []) × (port ≡ addr))
      ⊎ ((occurrences 58 port ≡ 0) × (addr ≡ host ++ 58 ∷ port))
unfolding host_port
host_port-last_colon addr = elim (split_at_right-BrokenAt addr 58) [
  | inl (e, whole, none_there) ↦ rw (e, host_port) (inl (none_there, refl, whole))
  | inr (rest, e, split, none_after) ↦ rw (e, host_port) (inr (none_after, split))
]
