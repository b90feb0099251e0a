-- ===== src/Stringop.antt =====
-- src/util/stringop.c: `string2ll`, which reads a long long from bytes, and the functions that break
-- a string at a delimiter. (`mystrtok` is in Argv.)
pub mod Number
pub mod Break
use nowra.Base.{
  ℕ, zero, suc, ◌+◌, ◌-◌, ◌*◌, ◌/◌, ◌^◌, Bool, true, false, not, ◌&&◌, Option, none, some, List, [],
  ◌∷◌, ltb, leb, ◌==◌, if◌then◌else◌, ℤ, pos, negsuc, length,
}

-- ULLONG_MAX and LLONG_MAX
abbrev pub ullong_max : ℕ
ullong_max = 18446744073709551615

abbrev pub llong_max : ℕ
llong_max = 9223372036854775807

-- `p[0] >= '0' && p[0] <= '9'`
abbrev pub is_digit : ℕ → Bool
is_digit c = leb 48 c && leb c 57

-- The loop of `string2ll`: none on overflow, otherwise `v` and the bytes that were not used.
unfoldable pub read_digits : ℕ → List ℕ → Option (ℕ × List ℕ)
read_digits v [] = some (v, [])
read_digits v (c ∷ s) =
    let rest = read_digits (v * 10 + (c - 48)) s in
    if not (is_digit c)
    then some (v, c ∷ s)
    else if ltb (ullong_max / 10) v
    then none
    else if ltb (ullong_max - (c - 48)) (v * 10)
    then none
    else rest

-- `-v`, as a long long
abbrev pub minus : ℕ → ℤ
minus v = if v == 0 then pos 0 else negsuc (v - 1)

-- What follows the loop; `-(LLONG_MIN+1)+1` is LLONG_MAX + 1.
unfoldable pub finish : (negative : Bool) → Option (ℕ × List ℕ) → Option ℤ
finish negative none = none
finish negative (some (v, c ∷ s)) = none
finish true (some (v, [])) = if ltb (llong_max + 1) v then none else some (minus v)
finish false (some (v, [])) = if ltb llong_max v then none else some (pos v)

-- From the test of the first digit on.
unfoldable pub from_digit : (negative : Bool) → ℕ → List ℕ → Option ℤ
from_digit negative slen [] = none
from_digit negative slen (c ∷ s) =
    if leb 49 c && leb c 57
    then finish negative (read_digits (c - 48) s)
    else if c == 48 && slen == 1
    then some (pos 0)
    else none

-- `string2ll`: the value if it returns 1, none if it returns 0. The bytes are those up to `slen`.
unfoldable pub string2ll : List ℕ → Option ℤ
string2ll [] = none
string2ll (c ∷ s) =
    let slen = length (c ∷ s) in
    if slen == 1 && c == 48
    then some (pos 0)
    else if c == 45
    then (if length s == 0 then none else from_digit true slen s)
    else from_digit false slen (c ∷ s)

-- `split_at`: what is left in the string, and the remainder, NULL if the delimiter is not there.
unfoldable pub split_at : List ℕ → ℕ → List ℕ × Option (List ℕ)
split_at [] delimiter = ([], none)
split_at (c ∷ s) delimiter =
    let (before, after) = split_at s delimiter in
    if c == delimiter then ([], some s) else (c ∷ before, after)

-- `split_at_right`, with `strrchr` for `strchr`
unfoldable pub split_at_right : List ℕ → ℕ → List ℕ × Option (List ℕ)
split_at_right [] delimiter = ([], none)
split_at_right (c ∷ s) delimiter =
    let (before, after) = split_at_right s delimiter in
    elim after [
      | some rest ↦ (c ∷ before, some rest)
      | none ↦ if c == delimiter then ([], some s) else (c ∷ s, none)
    ]

-- `host_port`: the host and the port.
unfoldable pub host_port : List ℕ → List ℕ × List ℕ
host_port addr =
    let (before, after) = split_at_right addr 58 in
    elim after [ some port ↦ (before, port) | none ↦ ([], before) ]

-- `basename`
unfoldable pub basename : List ℕ → List ℕ
basename path =
    let (before, after) = split_at_right path 47 in elim after [ some name ↦ name | none ↦ path ]
