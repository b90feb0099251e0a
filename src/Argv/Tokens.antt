-- ===== src/Argv/Tokens.antt =====
-- The tokens of a string, described without the tokenizer, and that `mystrtok` of src/util/stringop.c
-- takes the first of them off.
use nowra.Base.{
  ℕ, ◌<◌, ◌≤◌, ◌≡◌, refl, sym, ap, ◌∙◌, ◌⊎◌, inl, inr, false, none, some, List, [], ◌∷◌, arith,
  if◌then◌else◌, Bool-cases, List-cases, length,
}
use nowra.Argv.{is_delim, skip_delims, token, after_token, past_delim, mystrtok}

-- A byte before the first piece.
unfoldable pub push : ℕ → List (List ℕ) → List (List ℕ)
push c [] = (c ∷ []) ∷ []
push c (p ∷ ps) = (c ∷ p) ∷ ps

-- The string cut at every delimiter, empty pieces included.
unfoldable pub pieces : List ℕ → List ℕ → List (List ℕ)
unfolding push
pieces sep [] = [] ∷ []
pieces sep (c ∷ s) = if is_delim sep c then [] ∷ pieces sep s else push c (pieces sep s)

unfoldable pub nonempty : List (List ℕ) → List (List ℕ)
nonempty [] = []
nonempty ([] ∷ ps) = nonempty ps
nonempty ((c ∷ p) ∷ ps) = (c ∷ p) ∷ nonempty ps

-- The tokens: the pieces that are not empty.
abbrev pub tokens : List ℕ → List ℕ → List (List ℕ)
tokens sep s = nonempty (pieces sep s)

tokens-skip_delims : (sep s : List ℕ) → tokens sep (skip_delims sep s) ≡ tokens sep s
unfolding skip_delims pieces nonempty
tokens-skip_delims sep [] = refl
tokens-skip_delims sep (c ∷ s) = elim (Bool-cases (is_delim sep c)) [
  | inl cut ↦ rw cut (tokens-skip_delims sep s)
  | inr kept ↦ rw (kept, kept)
]

-- What stands first after the delimiters are skipped is none of them.
skip_delims_head :
    (sep s : List ℕ) {c : ℕ} {r : List ℕ}
    → skip_delims sep s ≡ c ∷ r
    → (is_delim sep c ≡ false) × (length r < length s)
unfolding skip_delims
skip_delims_head sep [] h = cc
skip_delims_head sep (d ∷ s) {c} {r} h = elim (Bool-cases (is_delim sep d)) [
  | inl cut ↦
      let (first, less) = skip_delims_head sep s {c = c} {r = r} (rw cut at h) in
      (first, omega arith)
  | inr kept ↦
      let h' : d ∷ s ≡ c ∷ r = rw kept at h in
      let d_is : d ≡ c = cc in
      let s_is : s ≡ r = cc in (rw (← d_is) kept, let l = ap length s_is in omega arith)
]

-- The first piece is the token, and the others are those of what comes after it.
first_piece :
    (sep s : List ℕ)
    → (ps : List (List ℕ)) × (pieces sep s ≡ token sep s ∷ ps)
      × (nonempty ps ≡ tokens sep (past_delim (after_token sep s)))
unfolding pieces token after_token nonempty push
first_piece sep [] = ([], refl, refl)
first_piece sep (c ∷ s) = elim (Bool-cases (is_delim sep c)) [
  | inl cut ↦ rw cut (pieces sep s, refl, refl)
  | inr kept ↦ let (ps, e, rest) = first_piece sep s in rw (kept, e) (ps, refl, rest)
]

shorter : (sep s : List ℕ) → length (past_delim (after_token sep s)) ≤ length s
unfolding after_token
shorter sep [] = omega arith
shorter sep (c ∷ s) = elim (Bool-cases (is_delim sep c)) [
  | inl cut ↦ rw cut (omega arith)
  | inr kept ↦ rw kept (omega (arith, shorter sep s))
]

shorter_by_one :
    (sep s : List ℕ) (c : ℕ)
    → is_delim sep c ≡ false
    → length (past_delim (after_token sep (c ∷ s))) ≤ length s
unfolding after_token
shorter_by_one sep s c kept = rw kept (shorter sep s)

-- A string whose first byte is no delimiter starts with a token.
tokens_from :
    (sep s : List ℕ) (c : ℕ)
    → is_delim sep c ≡ false
    → tokens sep (c ∷ s) ≡ token sep (c ∷ s) ∷ tokens sep (past_delim (after_token sep (c ∷ s)))
unfolding nonempty token
tokens_from sep s c kept =
    let (ps, e, rest) = first_piece sep (c ∷ s) in
    rw e (rw kept (ap (λ x. (c ∷ token sep s) ∷ x) rest))

tokens_of_nothing : (sep : List ℕ) → tokens sep [] ≡ []
unfolding pieces nonempty
tokens_of_nothing sep = refl

-- `mystrtok` takes the first token off: it returns NULL only if the string has no token; otherwise the
-- tokens of what `*src` is then are the others, and that is shorter.
pub mystrtok-tokens :
    (src sep : List ℕ)
    → (((mystrtok src sep).0 ≡ none) × (tokens sep src ≡ []))
      ⊎ ((t : List ℕ) × ((mystrtok src sep).0 ≡ some t)
          × (tokens sep src ≡ t ∷ tokens sep (mystrtok src sep).1)
          × (length (mystrtok src sep).1 < length src))
unfolding mystrtok
mystrtok-tokens src sep = elim (List-cases (skip_delims sep src)) [
  | inl empty ↦
      rw (empty, mystrtok)
        (inl
          (refl, sym (tokens-skip_delims sep src) ∙ ap (tokens sep) empty ∙ tokens_of_nothing sep))
  | inr (c, s, e) ↦
      let (kept, less) = skip_delims_head sep src e in
      let left = shorter_by_one sep s c kept in
      rw (e, mystrtok)
        (inr (
          token sep (c ∷ s),
          refl,
          sym (tokens-skip_delims sep src) ∙ ap (tokens sep) e ∙ tokens_from sep s c kept,
          omega (arith, less, left),
        ))
]
