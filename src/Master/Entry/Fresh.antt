-- ===== src/Master/Entry/Fresh.antt =====
-- Every entry that `get_master_ent` of src/master/master_ent.c returns is that of a service that has not been started,
-- and the file gets shorter: a loop that reads all entries ends.
use nowra.Base.{
  ℕ, ◌≤◌, ◌<◌, ◌≡◌, refl, sym, ap, subst, ◌∙◌, inl, inr, false, not, Option, none, some, List, [],
  ◌∷◌, arith, if◌then◌else◌, pos, negsuc, length, ok, undefined, Bool-cases, Option-cases, Ensures,
  Ensures-ok, Ensures-abort, Ensures-if, Ensures-bind, Ensures-then,
}
use nowra.Argv.{Argv, mystrtok, argv_alloc, add_tokens}
use nowra.Master.{Serv}
use nowra.Master.Entry.{
  decimal, is_comment, line_name, skip_lines, option_args, service_flags, service, with_args,
  parse_entry, parsed_lines, entry_from, get_master_ent,
}
use nowra.Master.Fields.{
  Settings, Conf, same_text, inet, master_blanks, get_str_ent, get_int_ent, fatal_with_context,
}

-- An inet service without processes, sockets and timers, with the delay of the settings.
pub record IsNew (set : Settings) (v : Serv) : Type 0 where
  pub calm : (v.flags.throttle ≡ false) × (v.flags.mark ≡ false) × (v.flags.listen ≡ false)
  pub inet_type : v.type ≡ 2
  pub closed : (v.listen_fd ≡ negsuc 0) × (v.status_fd ≡ (negsuc 0, negsuc 0))
  pub no_processes : (v.avail_proc ≡ pos 0) × (v.total_proc ≡ pos 0)
  pub wakeup : (n : ℕ) × (v.wakeup_time ≡ pos n)
  pub delay : v.throttle_delay ≡ set.var_throttle_time

service-IsNew :
    (set : Settings) (name transport command : List ℕ) (wakeup_time max_proc : ℕ) (args : Argv)
    → IsNew set (service set name transport command wakeup_time max_proc args)
unfolding service service_flags
service-IsNew set name transport command wakeup_time max_proc args = record {
  calm = (refl, refl, refl);
  inet_type = refl;
  closed = (refl, refl);
  no_processes = (refl, refl);
  wakeup = (wakeup_time, refl);
  delay = refl;
}

with_args-IsNew :
    (set : Settings) (name transport command : List ℕ) (wakeup_time max_proc : ℕ)
    (args : Option Argv)
    → Ensures (IsNew set) (with_args set name transport command wakeup_time max_proc args)
unfolding with_args
with_args-IsNew set name transport command wakeup_time max_proc none =
    Ensures-abort (IsNew set) undefined
with_args-IsNew set name transport command wakeup_time max_proc (some args) =
    Ensures-ok (IsNew set) _ (service-IsNew set name transport command wakeup_time max_proc args)

parse_entry-IsNew :
    (set : Settings) (conf : Conf) (turns : ℕ) (name bufp : List ℕ)
    → Ensures (IsNew set) (parse_entry set conf turns name bufp)
unfolding parse_entry
parse_entry-IsNew set conf turns name bufp =
    Ensures-bind (IsNew set) (get_str_ent conf bufp none) _ (λ (transport, bufp1).
      Ensures-if (IsNew set) (not (same_text transport inet)) _ _
        (Ensures-abort (IsNew set) (fatal_with_context conf "bad transport type"))
        (Ensures-bind (IsNew set) (get_int_ent conf bufp1 (some (48 ∷ []))) _ (λ (wakeup, bufp2).
          Ensures-bind (IsNew set) (get_int_ent conf bufp2 (some (decimal 10 set.var_proc_limit))) _
            (λ (limit, bufp3).
              Ensures-bind (IsNew set) (get_str_ent conf bufp3 none) _ (λ (command, bufp4).
                with_args-IsNew set name transport command wakeup limit (
                  add_tokens turns (option_args limit command name transport (argv_alloc 0)) bufp4
                    master_blanks))))))

-- The lines behind the first entry.
line_name-shorter :
    (later : Option (List ℕ × List ℕ × List (List ℕ))) (lines : List (List ℕ))
    (found : Option (List ℕ) × List ℕ) (z : List ℕ × List ℕ × List (List ℕ))
    → ((y : List ℕ × List ℕ × List (List ℕ)) → later ≡ some y → length y.2 < length lines)
    → line_name later lines found ≡ some z
    → length z.2 ≤ length lines
unfolding line_name
line_name-shorter later lines (none, rest) z h e = omega (arith, h z e)
line_name-shorter later lines (some name, rest) z h e = elim (Bool-cases (is_comment name)) [
  | inl skipped ↦
      omega (arith, h z (sym (ap (λ b. if b then later else some (name, rest, lines)) skipped) ∙ e))
  | inr kept ↦
      let same = sym (ap (λ b. if b then later else some (name, rest, lines)) kept) ∙ e in
      omega (arith, ap {B = ℕ} (λ o. elim o [ some y ↦ length y.2 | none ↦ 0 ]) same)
]

skip_lines-shorter :
    (fp : List (List ℕ)) (z : List ℕ × List ℕ × List (List ℕ))
    → skip_lines fp ≡ some z
    → length z.2 < length fp
unfolding skip_lines
skip_lines-shorter [] z e = cc
skip_lines-shorter (buf ∷ lines) z e = omega (
  arith,
  line_name-shorter (skip_lines lines) lines (mystrtok buf master_blanks) z
      (skip_lines-shorter lines) e,
)

-- What a call of `get_master_ent` on the lines `fp` gives.
abbrev pub IsRead : Settings → List (List ℕ) → Option Serv × Conf → Type 0
IsRead set fp (none, conf') = conf'.master_fp ≡ some []
IsRead set fp (some v, conf') =
    IsNew set v
    × ((left : List (List ℕ)) × (conf'.master_fp ≡ some left) × (length left < length fp))

parsed_lines-IsRead :
    (set : Settings) (conf : Conf) (fp : List (List ℕ))
    (z : Option (List ℕ × List ℕ × List (List ℕ)))
    → ((y : List ℕ × List ℕ × List (List ℕ)) → z ≡ some y → length y.2 < length fp)
    → Ensures (IsRead set fp) (parsed_lines set conf z)
unfolding parsed_lines
parsed_lines-IsRead set conf fp none h = Ensures-ok (IsRead set fp) _ refl
parsed_lines-IsRead set conf fp (some (name, bufp, lines)) h =
    Ensures-then (IsRead set fp) (IsNew set) (parse_entry set conf 1024 name bufp) _
      (parse_entry-IsNew set conf 1024 name bufp)
      (λ v new. Ensures-ok (IsRead set fp) _ (new, (lines, refl, h (name, bufp, lines) refl)))

pub get_master_ent-Ensures :
    (set : Settings) (conf : Conf) (fp : List (List ℕ))
    → conf.master_fp ≡ some fp
    → Ensures (IsRead set fp) (get_master_ent set conf)
unfolding get_master_ent entry_from
get_master_ent-Ensures set conf fp e =
    subst (λ o. Ensures (IsRead set fp) (entry_from set conf o)) (sym e)
      (parsed_lines-IsRead set conf fp (skip_lines fp) (skip_lines-shorter fp))

-- The same of any configuration.
pub get_master_ent-IsNew :
    (set : Settings) (conf conf' : Conf) (v : Serv)
    → get_master_ent set conf ≡ ok (some v, conf')
    → IsNew set v
unfolding get_master_ent entry_from
get_master_ent-IsNew set conf conf' v run = elim (Option-cases conf.master_fp) [
  | inl closed ↦ absurd (let bad = sym (ap (entry_from set conf) closed) ∙ run in cc)
  | inr (fp, opened) ↦ (get_master_ent-Ensures set conf fp opened (some v, conf') run).0
]

-- Whatever entry `get_master_ent` returns for an open file is that of a service without processes, sockets and timers
-- whose wake-up time is not negative, and the rest of the file is shorter; at the end of the file nothing is left.
pub get_master_ent-IsRead :
    (set : Settings) (conf : Conf) (fp : List (List ℕ)) (read : Option Serv × Conf)
    → conf.master_fp ≡ some fp
    → get_master_ent set conf ≡ ok read
    → IsRead set fp read
get_master_ent-IsRead set conf fp read e run = get_master_ent-Ensures set conf fp e read run
