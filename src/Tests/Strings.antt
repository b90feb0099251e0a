-- ===== src/Tests/Strings.antt =====
-- The strings and vectors of src/util on "smtp -v", split at spaces, on numerals and on an address.
use nowra.Base.{ℕ, negsuc, ok, ◌<◌, ◌≡◌, refl, none, some, List, [], ◌∷◌, arith, length}
use nowra.Stringop.{string2ll, from_digit, read_digits, finish, split_at_right, host_port}
use nowra.Stringop.Number.{numeral, string2ll-numeral}
use nowra.Argv.{Argv, mystrtok, argv_split, is_delim, skip_delims, token, after_token}
use nowra.Argv.Tokens.{tokens}
use nowra.Argv.Split.{IsValid, argv_split-tokens}

abbrev smtp_v : List ℕ
smtp_v = 115 ∷ 109 ∷ 116 ∷ 112 ∷ 32 ∷ 32 ∷ 45 ∷ 118 ∷ []

abbrev space : List ℕ
space = 32 ∷ []

mystrtok_smtp : mystrtok smtp_v space ≡ (some (115 ∷ 109 ∷ 116 ∷ 112 ∷ []), 32 ∷ 45 ∷ 118 ∷ [])
unfolding mystrtok is_delim skip_delims token after_token
mystrtok_smtp = refl

enough : length smtp_v < 9
enough = omega arith

argv_split_example :
    (a : Argv) × (argv_split 9 smtp_v space ≡ some (ok a))
    × IsValid a
    × (a.argv ≡ tokens space smtp_v)
argv_split_example =
    argv_split-tokens 9 115 (109 ∷ 116 ∷ 112 ∷ 32 ∷ 32 ∷ 45 ∷ 118 ∷ []) space enough

abbrev one_arg : Argv
one_arg = record { len = 2; argc = 1; argv = (100 ∷ []) ∷ [] }

one_arg-IsValid : IsValid one_arg
one_arg-IsValid = record { counted = refl; room = omega arith }

-- "-9223372036854775808" is LLONG_MIN, and one less is refused.
string2ll_min :
    string2ll (
      45 ∷ 57 ∷ 50 ∷ 50 ∷ 51 ∷ 51 ∷ 55 ∷ 50 ∷ 48 ∷ 51 ∷ 54 ∷ 56 ∷ 53 ∷ 52 ∷ 55 ∷ 55 ∷ 53 ∷ 56 ∷ 48
      ∷ 56 ∷ [])
    ≡ some (negsuc 9223372036854775807)
unfolding string2ll from_digit read_digits finish
string2ll_min = refl

string2ll_below :
    string2ll (
      45 ∷ 57 ∷ 50 ∷ 50 ∷ 51 ∷ 51 ∷ 55 ∷ 50 ∷ 48 ∷ 51 ∷ 54 ∷ 56 ∷ 53 ∷ 52 ∷ 55 ∷ 55 ∷ 53 ∷ 56 ∷ 48
      ∷ 57 ∷ [])
    ≡ none
unfolding string2ll from_digit read_digits finish
string2ll_below = refl

string2ll_example : string2ll (45 ∷ 52 ∷ 50 ∷ []) ≡ numeral (45 ∷ 52 ∷ 50 ∷ [])
string2ll_example = string2ll-numeral (45 ∷ 52 ∷ 50 ∷ [])

-- "a:b:25"
abbrev address : List ℕ
address = 97 ∷ 58 ∷ 98 ∷ 58 ∷ 50 ∷ 53 ∷ []

host_port_parts : host_port address ≡ (97 ∷ 58 ∷ 98 ∷ [], 50 ∷ 53 ∷ [])
unfolding host_port split_at_right
host_port_parts = refl
