-- ===== src/Argv.antt =====
-- The tokenizer of src/util/stringop.c and the growing vectors of strings of src/util/argv.c. A string
-- is the list of its bytes before the terminating 0.
pub mod Tokens
pub mod Split
use nowra.Base.{
  ℕ, zero, suc, ◌+◌, ◌*◌, Bool, true, false, ◌||◌, Option, none, some, List, [], ◌∷◌, ◌++◌, ltb,
  leb, ◌==◌, if◌then◌else◌, Outcome, ok, abort, undefined,
}

-- A byte is one of the delimiters.
unfoldable pub is_delim : List ℕ → ℕ → Bool
is_delim [] c = false
is_delim (d ∷ sep) c = d == c || is_delim sep c

-- `start + strspn(start, sep)`
unfoldable pub skip_delims : List ℕ → List ℕ → List ℕ
skip_delims sep [] = []
skip_delims sep (c ∷ s) = let rest = skip_delims sep s in if is_delim sep c then rest else c ∷ s

-- The bytes from `start` to `end = start + strcspn(start, sep)`, and those from `end` on.
unfoldable pub token : List ℕ → List ℕ → List ℕ
token sep [] = []
token sep (c ∷ s) = let rest = token sep s in if is_delim sep c then [] else c ∷ rest

unfoldable pub after_token : List ℕ → List ℕ → List ℕ
after_token sep [] = []
after_token sep (c ∷ s) = let rest = after_token sep s in if is_delim sep c then c ∷ s else rest

-- `if (*end != 0) *end++ = 0;`
abbrev pub past_delim : List ℕ → List ℕ
past_delim [] = []
past_delim (c ∷ s) = s

-- `mystrtok`: the token, NULL if there is none, and what `*src` is after the call.
unfoldable pub mystrtok : List ℕ → List ℕ → Option (List ℕ) × List ℕ
mystrtok src sep = elim (skip_delims sep src) [
  | [] ↦ (none, [])
  | c ∷ s ↦ (some (token sep (c ∷ s)), past_delim (after_token sep (c ∷ s)))
]

-- `ARGV`: `len` is the room, and `argv` the strings in use, `argc` of them.
pub record Argv : Type 0 where
  pub len : ℕ
  pub argc : ℕ
  pub argv : List (List ℕ)

-- `argv_alloc`
unfoldable pub argv_alloc : ℕ → Argv
argv_alloc len = record { len = if ltb len 2 then 2 else len; argc = 0; argv = [] }

-- `argv_add` of one string
unfoldable pub argv_add : Argv → List ℕ → Argv
argv_add a arg = record {
  len = if leb a.len (a.argc + 1) then a.len * 2 else a.len;
  argc = a.argc + 1;
  argv = a.argv ++ arg ∷ [];
}

-- The loop of `argv_split` and `argv_split_append`; `none` means that the fuel ran out.
unfoldable pub add_tokens : ℕ → Argv → List ℕ → List ℕ → Option Argv
add_tokens zero a src delim = none
add_tokens (suc fuel) a src delim =
    let (found, rest) = mystrtok src delim in
    elim found [ none ↦ some a | some arg ↦ add_tokens fuel (argv_add a arg) rest delim ]

-- `myfree(saved_string)`: for an empty string `mystrdup` gave the shared empty string, which is no block
-- of `mymalloc`.
free_saved : List ℕ → Argv → Outcome Argv
free_saved [] a = abort undefined
free_saved (c ∷ s) a = ok a

freed : List ℕ → Option Argv → Option (Outcome Argv)
unfolding free_saved
freed string none = none
freed string (some a) = some (free_saved string a)

-- `argv_split_append`
unfoldable pub argv_split_append : ℕ → Argv → List ℕ → List ℕ → Option (Outcome Argv)
unfolding freed
argv_split_append fuel a string delim = freed string (add_tokens fuel a string delim)

-- `argv_split`
unfoldable pub argv_split : ℕ → List ℕ → List ℕ → Option (Outcome Argv)
unfolding freed
argv_split fuel string delim = freed string (add_tokens fuel (argv_alloc 1) string delim)
