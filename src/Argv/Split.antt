-- ===== src/Argv/Split.antt =====
-- `argv_add`, `argv_split` and `argv_split_append` of src/util/argv.c: the room of a vector, and what a
-- string is split into.
use nowra.Base.{
  ℕ, zero, suc, ◌<◌, ◌≡◌, refl, sym, ap, ◌∙◌, inl, inr, Option, some, List, [], ◌∷◌, ◌++◌, arith,
  length, length-append, ok, ok,
}
use nowra.Argv.{
  Argv, mystrtok, argv_alloc, argv_add, add_tokens, argv_split_append, argv_split, freed,
  free_saved,
}
use nowra.Argv.Tokens.{tokens, mystrtok-tokens}

-- `argc` is the number of strings, and less than `len`: there is room for the terminating NULL.
pub record IsValid (a : Argv) : Type 0 where
  pub counted : a.argc ≡ length a.argv
  pub room : a.argc < a.len

pub argv_alloc-IsValid : (len : ℕ) → IsValid (argv_alloc len)
unfolding argv_alloc
argv_alloc-IsValid len = record { counted = refl; room = ground arith }

pub argv_add-IsValid : (a : Argv) (arg : List ℕ) → IsValid a → IsValid (argv_add a arg)
unfolding argv_add
argv_add-IsValid a arg v = record {
  counted = omega (arith, v.counted, length-append a.argv (arg ∷ []));
  room = ground (arith, v.room);
}

append_assoc : (xs ys zs : List (List ℕ)) → (xs ++ ys) ++ zs ≡ xs ++ (ys ++ zs)
append_assoc [] ys zs = refl
append_assoc (x ∷ xs) ys zs = ap (λ l. x ∷ l) (append_assoc xs ys zs)

append_nil : (xs : List (List ℕ)) → xs ++ [] ≡ xs
append_nil [] = refl
append_nil (x ∷ xs) = ap (λ l. x ∷ l) (append_nil xs)

-- The vector has the strings that it had and then the tokens.
abbrev pub Splits : Argv → List ℕ → List ℕ → Option Argv → Type 0
Splits a string delim r =
    (a' : Argv) × (r ≡ some a') × IsValid a' × (a'.argv ≡ a.argv ++ tokens delim string)

pub added_argv : (a : Argv) (arg : List ℕ) → (argv_add a arg).argv ≡ a.argv ++ (arg ∷ [])
unfolding argv_add
added_argv a arg = refl

pub add_tokens-Splits :
    (fuel : ℕ) (a : Argv) (string delim : List ℕ)
    → IsValid a
    → length string < fuel
    → Splits a string delim (add_tokens fuel a string delim)
unfolding add_tokens
add_tokens-Splits zero a string delim v h = absurd (omega arith)
add_tokens-Splits (suc fuel) a string delim v h = elim (mystrtok-tokens string delim) [
  | inl (e, none_left) ↦
      rw (e, add_tokens)
        (a, refl, v, sym (append_nil a.argv) ∙ ap (λ l. a.argv ++ l) (sym none_left))
  | inr (t, e, more, less) ↦
      let (a', run, v', all) =
        add_tokens-Splits fuel (argv_add a t) (mystrtok string delim).1 delim
          (argv_add-IsValid a t v) (omega arith) in
      rw (e, add_tokens, run)
        (
          a',
          refl,
          v',
          all
              ∙ ap (λ l. l ++ tokens delim (mystrtok string delim).1) (added_argv a t)
              ∙ append_assoc a.argv (t ∷ []) (tokens delim (mystrtok string delim).1)
              ∙ ap (λ l. a.argv ++ l) (sym more),
        )
]

-- For a string that is not empty and with fuel for more turns than it has bytes, `argv_split_append`
-- ends; the vector is valid after it and has its strings, followed by the pieces of the string
-- between delimiters that are not empty, in order.
pub argv_split_append-Splits :
    (fuel : ℕ) (a : Argv) (c : ℕ) (s delim : List ℕ)
    → IsValid a
    → length (c ∷ s) < fuel
    → (a' : Argv) × (argv_split_append fuel a (c ∷ s) delim ≡ some (ok a'))
      × IsValid a'
      × (a'.argv ≡ a.argv ++ tokens delim (c ∷ s))
unfolding argv_split_append freed free_saved
argv_split_append-Splits fuel a c s delim v h =
    let (a', run, v', all) = add_tokens-Splits fuel a (c ∷ s) delim v h in
    rw run (a', refl, v', all)

-- For a string that is not empty and with fuel for more turns than it has bytes, `argv_split` ends in a
-- valid vector of the pieces of the string between delimiters that are not empty, in order.
pub argv_split-tokens :
    (fuel : ℕ) (c : ℕ) (s delim : List ℕ)
    → length (c ∷ s) < fuel
    → (a : Argv) × (argv_split fuel (c ∷ s) delim ≡ some (ok a))
      × IsValid a
      × (a.argv ≡ tokens delim (c ∷ s))
unfolding argv_split argv_alloc freed free_saved
argv_split-tokens fuel c s delim h =
    let (a', run, v', all) =
      add_tokens-Splits fuel (argv_alloc 1) (c ∷ s) delim (argv_alloc-IsValid 1) h in
    rw run (a', refl, v', all)
