-- ===== src/Master/Fields.antt =====
-- src/master/master_ent.c: the configuration file, and the fields of its lines. A text is the list of its bytes.
use Prim.Native.String.{String}
use nowra.Base.{
  ℕ, ◌+◌, ◌-◌, ◌*◌, Bool, true, false, ◌&&◌, ◌||◌, Option, none, some, List, [], ◌∷◌, ltb, leb,
  ◌==◌, if◌then◌else◌, ℤ, pos, negsuc, int_of, Abort, Outcome, ok, abort, panic, fatal, ◌>>=◌,
}
use nowra.Argv.{mystrtok}
use nowra.Stringop.{is_digit}

-- `strcmp(a, b) == 0`
unfoldable pub same_text : List ℕ → List ℕ → Bool
same_text [] [] = true
same_text (a ∷ s) (b ∷ t) = a == b && same_text s t
same_text _ _ = false

-- `master_blanks`, and the texts "-", "y", "n", "inet", "-l", "-n", "-t", "0" and "/"
abbrev pub master_blanks : List ℕ
master_blanks = 32 ∷ 9 ∷ 13 ∷ 10 ∷ []

abbrev pub dash : List ℕ
dash = 45 ∷ []

abbrev pub inet : List ℕ
inet = 105 ∷ 110 ∷ 101 ∷ 116 ∷ []

abbrev pub option_l : List ℕ
option_l = 45 ∷ 108 ∷ []

abbrev pub option_n : List ℕ
option_n = 45 ∷ 110 ∷ []

abbrev pub option_t : List ℕ
option_t = 45 ∷ 116 ∷ []

-- `var_proc_limit`, `var_throttle_time` and `var_daemon_dir`, and the byte before `buf`
pub record Settings : Type 0 where
  pub var_proc_limit : ℕ
  pub var_throttle_time : ℤ
  pub var_daemon_dir : List ℕ
  pub before_buf : ℕ

-- `master_path`, `master_fp` and `master_line`
pub record Conf : Type 0 where
  pub master_path : Option (List ℕ)
  pub master_fp : Option (List (List ℕ))
  pub master_line : ℕ

-- `fset_master_ent`: `myfree` of the empty path, which `mystrdup` shares, panics.
unfoldable pub fset_master_ent : List ℕ → Conf → Outcome Conf
fset_master_ent path conf = elim conf.master_path [
  | some [] ↦ abort (panic "myfree: corrupt or unallocated memory block")
  | _ ↦ ok (record conf { master_path = some path })
]

-- `set_master_ent`, with what `fopen` gives
unfoldable pub set_master_ent : (opened : Option (List (List ℕ))) → Conf → Outcome Conf
set_master_ent opened conf = elim conf.master_fp [
  | some fp ↦ abort (panic "set_master_ent: configuration file still open")
  | none ↦ elim conf.master_path [
    | none ↦ abort (panic "set_master_ent: no configuration file specified")
    | some path ↦ elim opened [
      | none ↦ abort (fatal "open: %m")
      | some lines ↦ ok (record conf { master_fp = some lines; master_line = 0 })
    ]
  ]
]

-- `end_master_ent`, with whether `fclose` succeeds
unfoldable pub end_master_ent : (closed : Bool) → Conf → Outcome Conf
end_master_ent closed conf = elim conf.master_fp [
  | none ↦ abort (panic "end_master_ent: configuration file not open")
  | some fp ↦
      if closed
      then ok (record conf { master_fp = none })
      else abort (fatal "end_master_ent: close configuration file: %m")
]

-- `fatal_with_context`
unfoldable pub fatal_with_context : Conf → String → Abort
fatal_with_context conf text = elim conf.master_path [
  | none ↦ panic "fatal_with_context: no configuration file specified"
  | some path ↦ fatal text
]

-- `get_str_ent`: the value, and what `*bufp` is after it.
unfoldable pub str_value :
    Conf → (def_val : Option (List ℕ)) → Option (List ℕ) × List ℕ → Outcome (List ℕ × List ℕ)
str_value conf def_val (none, rest) = abort (fatal_with_context conf "missing field")
str_value conf none (some value, rest) =
    if same_text value dash
    then abort (fatal_with_context conf "field has no default value")
    else ok (value, rest)
str_value conf (some def_val) (some value, rest) =
    if same_text value dash then ok (def_val, rest) else ok (value, rest)

unfoldable pub get_str_ent : Conf → List ℕ → (def_val : Option (List ℕ)) → Outcome (List ℕ × List ℕ)
get_str_ent conf bufp def_val = str_value conf def_val (mystrtok bufp master_blanks)

-- `get_bool_ent`; 1 is true.
unfoldable pub get_bool_ent : Conf → List ℕ → Option (List ℕ) → Outcome (Bool × List ℕ)
get_bool_ent conf bufp def_val = get_str_ent conf bufp def_val >>= λ (value, rest).
    if same_text (121 ∷ []) value
    then ok (true, rest)
    else if same_text (110 ∷ []) value
    then ok (false, rest)
    else abort (fatal_with_context conf "bad value")

-- `atoi`: spaces, a sign and digits; beyond a long it stops, and the long is converted to an int.
unfoldable pub skip_spaces : List ℕ → List ℕ
skip_spaces [] = []
skip_spaces (c ∷ s) =
    let rest = skip_spaces s in if c == 32 || (leb 9 c && leb c 13) then rest else c ∷ s

unfoldable pub digits_value : ℕ → List ℕ → ℕ
digits_value v [] = v
digits_value v (c ∷ s) =
    let rest = digits_value (v * 10 + (c - 48)) s in if is_digit c then rest else v

abbrev pub at_most : ℕ → ℕ → ℕ
at_most limit v = if ltb limit v then limit else v

unfoldable pub signed_value : List ℕ → ℤ
signed_value [] = pos 0
signed_value (c ∷ s) =
    if c == 45
    then int_of (18446744073709551616 - at_most 9223372036854775808 (digits_value 0 s))
    else if c == 43
    then int_of (at_most 9223372036854775807 (digits_value 0 s))
    else int_of (at_most 9223372036854775807 (digits_value 0 (c ∷ s)))

unfoldable pub atoi : List ℕ → ℤ
atoi s = signed_value (skip_spaces s)

-- `get_int_ent`, whose `min_val` is 0 in all calls
unfoldable pub int_value : Conf → ℤ → List ℕ → Outcome (ℕ × List ℕ)
int_value conf (negsuc n) rest = abort (fatal_with_context conf "bad value")
int_value conf (pos n) rest = ok (n, rest)

unfoldable pub get_int_ent : Conf → List ℕ → Option (List ℕ) → Outcome (ℕ × List ℕ)
get_int_ent conf bufp def_val =
    get_str_ent conf bufp def_val >>= λ (value, rest). int_value conf (atoi value) rest
