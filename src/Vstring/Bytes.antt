-- ===== src/Vstring/Bytes.antt =====
-- The bytes that `memcpy` and `*ptr = c` write into a buffer of src/util/vstring.c, as lists.
use nowra.Base.{
  ℕ, zero, suc, ◌+◌, ◌-◌, ◌≤◌, ◌<◌, ◌≡◌, refl, sym, ap, ◌∙◌, List, [], ◌∷◌, ◌++◌, arith, length,
  take, drop, set, some, length-set, Returns, ltb-true,
}
use nowra.Mymalloc.{c_string}
use nowra.Mymalloc.Copies.{IsString, c_string-terminated}
use nowra.Vstring.{write_bytes}

module _ {ℓ} {A : Type ℓ} where
  pub append_assoc : (xs ys zs : List A) → (xs ++ ys) ++ zs ≡ xs ++ (ys ++ zs)
  append_assoc [] ys zs = refl
  append_assoc (x ∷ xs) ys zs = ap (λ l. x ∷ l) (append_assoc xs ys zs)

  pub append_nil : (xs : List A) → xs ++ [] ≡ xs
  append_nil [] = refl
  append_nil (x ∷ xs) = ap (λ l. x ∷ l) (append_nil xs)

  pub take-set :
      (xs : List A) (i : ℕ) (c : A)
      → i < length xs
      → take (suc i) (set xs i c) ≡ take i xs ++ c ∷ []
  take-set [] i c h = absurd (omega arith)
  take-set (x ∷ xs) zero c h = refl
  take-set (x ∷ xs) (suc i) c h = ap (λ l. x ∷ l) (take-set xs i c (omega arith))

  pub take-append : (xs ys : List A) → take (length xs) (xs ++ ys) ≡ xs
  take-append [] ys = refl
  take-append (x ∷ xs) ys = ap (λ l. x ∷ l) (take-append xs ys)

  pub take-drop : (n : ℕ) (xs : List A) → take n xs ++ drop n xs ≡ xs
  take-drop zero xs = refl
  take-drop (suc n) [] = refl
  take-drop (suc n) (x ∷ xs) = ap (λ l. x ∷ l) (take-drop n xs)

  pub take-take : (k n : ℕ) (xs : List A) → k ≤ n → take k (take n xs) ≡ take k xs
  take-take zero n xs h = refl
  take-take (suc k) zero xs h = absurd (omega arith)
  take-take (suc k) (suc n) [] h = refl
  take-take (suc k) (suc n) (x ∷ xs) h = ap (λ l. x ∷ l) (take-take k n xs (omega arith))

  pub length-take : (n : ℕ) (xs : List A) → n ≤ length xs → length (take n xs) ≡ n
  length-take zero xs h = refl
  length-take (suc n) [] h = absurd (omega arith)
  length-take (suc n) (x ∷ xs) h = ap suc (length-take n xs (omega arith))

  pub length-drop : (n : ℕ) (xs : List A) → length (drop n xs) ≡ length xs - n
  length-drop zero xs = omega arith
  length-drop (suc n) [] = omega arith
  length-drop (suc n) (x ∷ xs) = omega (arith, length-drop n xs)

-- Bytes that fit are written, behind the ones before the offset.
pub write_bytes-Written :
    (i : ℕ) (bytes block : List ℕ)
    → i + length bytes ≤ length block
    → Returns
        (write_bytes i bytes block)
        (λ b. (length b ≡ length block) × (take (i + length bytes) b ≡ take i block ++ bytes))
unfolding write_bytes
write_bytes-Written i [] block h =
    (block, refl, (refl, rw append_nil (ap (λ n. take n block) (omega arith))))
write_bytes-Written i (c ∷ bytes) block h =
    let (b, run, (same, e)) =
      write_bytes-Written (i + 1) bytes (set block i c) (omega (arith, length-set block i c)) in
    rw (ltb-true i (length block) (omega arith), run, write_bytes)
      (
        b,
        refl,
        (
          omega (arith, same, length-set block i c),
          ap (λ n. take n b) (omega arith)
              ∙ e
              ∙ ap (λ n. take n (set block i c) ++ bytes) {y = suc i} (omega arith)
              ∙ ap (λ l. l ++ bytes) (take-set block i c (omega arith))
              ∙ append_assoc (take i block) (c ∷ []) bytes,
        ),
      )

-- What stands before the offset is kept.
pub take-written :
    (i : ℕ) (bytes block b : List ℕ)
    → i ≤ length block
    → take (i + length bytes) b ≡ take i block ++ bytes
    → take i b ≡ take i block
take-written i bytes block b h e =
    sym (take-take i (i + length bytes) b (omega arith))
    ∙ ap (take i) e
    ∙ ap (λ n. take n (take i block ++ bytes)) (sym (length-take i block h))
    ∙ take-append (take i block) bytes

-- A 0 behind the first bytes ends the string that they are.
pub c_string-taken :
    (i : ℕ) (s b : List ℕ) → IsString s → take (i + 1) b ≡ s ++ 0 ∷ [] → c_string b ≡ some s
c_string-taken i s b h e =
    ap c_string (sym (take-drop (i + 1) b) ∙ ap (λ l. l ++ drop (i + 1) b) e)
    ∙ ap c_string (append_assoc s (0 ∷ []) (drop (i + 1) b))
    ∙ c_string-terminated s (drop (i + 1) b) h
