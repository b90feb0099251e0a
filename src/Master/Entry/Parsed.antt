-- ===== src/Master/Entry/Parsed.antt =====
-- `get_master_ent` of src/master/master_ent.c: the service that a line describes.
use nowra.Base.{
  ℕ, ◌<◌, ◌≡◌, refl, ap, ◌∙◌, inl, inr, Bool, true, false, some, List, [], ◌∷◌, ◌++◌, arith, ◌==◌,
  if◌then◌else◌, pos, length, ok, ◌>>=◌, All, ◌⊎◌,
}
use nowra.Argv.{Argv, mystrtok, argv_alloc, argv_add}
use nowra.Argv.Tokens.{tokens}
use nowra.Argv.Split.{IsValid, add_tokens-Splits}
use nowra.Stringop.{basename}
use nowra.Master.Entry.{
  decimal, is_comment, line_name, skip_lines, add_options, option_args, service, with_args,
  parse_entry, parsed_lines, entry_from, get_master_ent,
}
use nowra.Master.Fields.{
  Settings, Conf, same_text, dash, inet, option_l, option_n, option_t, master_blanks, atoi,
}
use nowra.Master.Entry.Fields.{
  mystrtok-next, mystrtok_end, field_value, get_str_ent-next, get_int_ent-next,
}

-- The arguments that a process of the service is started with, before those of the line: the option -l if there
-- is one process at most, and -n with the name if the command has another one.
abbrev pub options : (single same_name : Bool) → (command name : List ℕ) → List (List ℕ)
options single same_name command name =
    (command ∷ [])
    ++ ((if single then option_l ∷ [] else [])
        ++ ((if same_name then [] else option_n ∷ name ∷ []) ++ (option_t ∷ inet ∷ [])))

abbrev pub own_options : (max_proc : ℕ) → (command name : List ℕ) → List (List ℕ)
own_options max_proc command name =
    options (max_proc == 1) (same_text (basename command) name) command name

add_options-own :
    (single same_name : Bool) (command name : List ℕ)
    → IsValid (add_options single same_name command name inet (argv_alloc 0))
      × ((add_options single same_name command name inet (argv_alloc 0)).argv
          ≡ options single same_name command name)
unfolding add_options argv_add argv_alloc
add_options-own true true command name = (record { counted = refl; room = omega arith }, refl)
add_options-own true false command name = (record { counted = refl; room = omega arith }, refl)
add_options-own false true command name = (record { counted = refl; room = omega arith }, refl)
add_options-own false false command name = (record { counted = refl; room = omega arith }, refl)

module _ (set : Settings) (conf : Conf) where
  -- The fields of a line behind the name.
  parse_entry-service :
      (turns : ℕ) (name bufp w m command : List ℕ) (args : List (List ℕ)) (wakeup limit : ℕ)
      → tokens master_blanks bufp ≡ inet ∷ w ∷ m ∷ command ∷ args
      → same_text command dash ≡ false
      → atoi (field_value (48 ∷ []) w) ≡ pos wakeup
      → atoi (field_value (decimal 10 set.var_proc_limit) m) ≡ pos limit
      → length bufp < turns
      → (a : Argv) × (parse_entry set conf turns name bufp
          ≡ ok (service set name inet command wakeup limit a))
        × (a.argv ≡ own_options limit command name ++ args)
  unfolding parse_entry option_args same_text with_args
  parse_entry-service turns name bufp w m command args wakeup limit e plain hw hm enough =
      let (b1, run1, e1, less1) = get_str_ent-next conf bufp inet (w ∷ m ∷ command ∷ args) e refl in
      let (b2, run2, e2, less2) =
        get_int_ent-next conf b1 (48 ∷ []) w (m ∷ command ∷ args) wakeup e1 hw in
      let (b3, run3, e3, less3) =
        get_int_ent-next conf b2 (decimal 10 set.var_proc_limit) m (command ∷ args) limit e2 hm in
      let (b4, run4, e4, less4) = get_str_ent-next conf b3 command args e3 plain in
      let (v, own) =
        add_options-own (limit == 1) (same_text (basename command) name) command name in
      let (a, run5, v', all) =
        add_tokens-Splits turns
          (add_options (limit == 1) (same_text (basename command) name) command name inet
            (argv_alloc 0))
          b4 master_blanks v (omega (arith, less1, less2, less3, less4, enough)) in
      rw (run1, run2, run3, run4, parse_entry)
        (
          a,
          ap (with_args set name inet command wakeup limit) run5,
          all
              ∙ ap (λ l. l ++ tokens master_blanks b4) own
              ∙ ap (λ l. own_options limit command name ++ l) e4,
        )

-- A line without a token, or whose first token starts with '#'.
abbrev pub IsSkipped : List ℕ → Type 0
IsSkipped line =
    (tokens master_blanks line ≡ [])
    ⊎ ((c : ℕ) × (t : List ℕ) × (ts : List (List ℕ)) × (tokens master_blanks line ≡ (c ∷ t) ∷ ts)
        × (c ≡ 35))

comment : (c : ℕ) → c ≡ 35 → (c == 35) ≡ true
comment c h = ground arith

skip_lines-first :
    (skipped : List (List ℕ)) (line : List ℕ) (lines : List (List ℕ)) (name : List ℕ)
    (ts : List (List ℕ))
    → All IsSkipped skipped
    → tokens master_blanks line ≡ name ∷ ts
    → is_comment name ≡ false
    → (rest : List ℕ) × (skip_lines (skipped ++ line ∷ lines) ≡ some (name, rest, lines))
      × (tokens master_blanks rest ≡ ts)
      × (length rest < length line)
unfolding skip_lines line_name is_comment
skip_lines-first [] line lines name ts h e plain =
    let (rest, run, others, less) = mystrtok-next line master_blanks name ts e in
    (rest, ap (line_name (skip_lines lines) lines) run ∙ rw plain refl, others, less)
skip_lines-first (s ∷ skipped) line lines name ts h e plain =
    let later = skip_lines (skipped ++ line ∷ lines) in
    let (rest, run, others, less) = skip_lines-first skipped line lines name ts h.1 e plain in
    (
      rest,
      elim h.0 [
        | inl blank ↦
            ap (λ o. line_name later (skipped ++ line ∷ lines) (o, (mystrtok s master_blanks).1))
              (mystrtok_end s master_blanks blank)
            ∙ run
        | inr (c, t, us, more, hash) ↦
            let (after, got, others', less') = mystrtok-next s master_blanks (c ∷ t) us more in
            ap (line_name later (skipped ++ line ∷ lines)) got ∙ rw (comment c hash) run
      ],
      others,
      less,
    )

-- If the file goes on with blank lines and comments and then a line of fewer than 1024 bytes with a name that
-- does not start with '#', "inet", wake-up time, process limit, command and arguments, where "-" stands for the
-- default of the two numbers, neither is negative and the command is not "-", `get_master_ent` returns the service
-- that those describe, with the options and then the arguments in its command line, and the file behind the line.
pub get_master_ent-service :
    (set : Settings) (conf : Conf) (skipped lines : List (List ℕ)) (line name w m command : List ℕ)
    (args : List (List ℕ)) (wakeup limit : ℕ)
    → conf.master_fp ≡ some (skipped ++ line ∷ lines)
    → All IsSkipped skipped
    → tokens master_blanks line ≡ name ∷ inet ∷ w ∷ m ∷ command ∷ args
    → length line < 1024
    → is_comment name ≡ false
    → same_text command dash ≡ false
    → atoi (field_value (48 ∷ []) w) ≡ pos wakeup
    → atoi (field_value (decimal 10 set.var_proc_limit) m) ≡ pos limit
    → (a : Argv) × (get_master_ent set conf
        ≡ ok (
          some (service set name inet command wakeup limit a),
          record conf { master_fp = some lines },
        ))
      × (a.argv ≡ own_options limit command name ++ args)
unfolding get_master_ent entry_from parsed_lines
get_master_ent-service set conf skipped lines line name w m command args wakeup limit open_file h e
      short plain named hw hm =
    let (bufp, run, others, less) =
      skip_lines-first skipped line lines name (inet ∷ w ∷ m ∷ command ∷ args) h e plain in
    let (a, got, all) =
      parse_entry-service set conf 1024 name bufp w m command args wakeup limit others named hw hm
        (omega (arith, less, short)) in
    (
      a,
      ap (entry_from set conf) open_file
          ∙ ap (parsed_lines set conf) run
          ∙ ap (λ r. r >>= λ serv. ok (some serv, record conf { master_fp = some lines })) got,
      all,
    )
