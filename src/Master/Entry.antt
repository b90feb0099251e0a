-- ===== src/Master/Entry.antt =====
-- `get_master_ent` of src/master/master_ent.c: an entry of the configuration file, a service to a line. The stream
-- of the open file is the list of the strings that `fgets` is going to store in `buf`, of 1023 bytes at
-- most each.
pub mod Fields
pub mod Fresh
pub mod Parsed
use Prim.Native.String.{String}
use nowra.Base.{
  ℕ, zero, suc, ◌+◌, ◌-◌, ◌*◌, ◌/◌, ◌%◌, Bool, true, false, not, ◌&&◌, ◌||◌, Option, none, some,
  List, [], ◌∷◌, ◌++◌, ltb, leb, ◌==◌, if◌then◌else◌, ℤ, pos, negsuc, ltb_ℤ, int_of, Abort, Outcome,
  ok, abort, panic, fatal, undefined, ◌>>=◌,
}
use nowra.Argv.{Argv, argv_alloc, argv_add, mystrtok, add_tokens}
use nowra.Stringop.{host_port, basename, is_digit}
use nowra.Master.{Flags, Serv}
use nowra.Master.Fields.{
  same_text, master_blanks, dash, inet, option_l, option_n, option_t, Settings, Conf,
  fset_master_ent, set_master_ent, end_master_ent, fatal_with_context, str_value, get_str_ent,
  get_bool_ent, skip_spaces, digits_value, at_most, signed_value, atoi, int_value, get_int_ent,
}

-- "%d" of a number: as many turns as it has digits.
unfoldable pub decimal : (turns : ℕ) → ℕ → List ℕ
decimal zero n = []
decimal (suc turns) n =
    let front = decimal turns (n / 10) in
    if ltb n 10 then (48 + n) ∷ [] else front ++ (48 + n % 10) ∷ []

-- The loop that skips blank lines and comments: the name of the service, what `bufp` is behind it, and the
-- lines that are left; none at the end of the file.
unfoldable pub is_comment : List ℕ → Bool
is_comment [] = false
is_comment (c ∷ s) = c == 35

unfoldable pub line_name :
    (later : Option (List ℕ × List ℕ × List (List ℕ)))
    → (lines : List (List ℕ)) → Option (List ℕ) × List ℕ
    → Option (List ℕ × List ℕ × List (List ℕ))
line_name later lines (none, rest) = later
line_name later lines (some name, rest) =
    if is_comment name then later else some (name, rest, lines)

unfoldable pub skip_lines : List (List ℕ) → Option (List ℕ × List ℕ × List (List ℕ))
skip_lines [] = none
skip_lines (buf ∷ lines) =
    let later = skip_lines lines in line_name later lines (mystrtok buf master_blanks)

-- The command line: `argv_add`, one string after the other.
unfoldable pub add_options :
    (single same_name : Bool) → (command name transport : List ℕ) → Argv → Argv
add_options single same_name command name transport args =
    let first = argv_add args command in
    let limited = if single then argv_add first option_l else first in
    let named = if same_name then limited else argv_add (argv_add limited option_n) name in
    argv_add (argv_add named option_t) transport

unfoldable pub option_args : (max_proc : ℕ) → (command name transport : List ℕ) → Argv → Argv
option_args max_proc command name transport args =
    add_options (max_proc == 1) (same_text (basename command) name) command name transport args

-- The members that `get_master_ent` sets.
module _ (set : Settings) where
  unfoldable pub service_flags : (host : List ℕ) → (wakeup_time : ℕ) → Flags
  service_flags host wakeup_time = record {
    throttle = false;
    mark = false;
    condwake = ltb 0 wakeup_time && set.before_buf == 63;
    inethost = not (same_text host []);
    listen = false;
  }

  unfoldable pub service :
      (name transport command : List ℕ) → (wakeup_time max_proc : ℕ) → Argv → Serv
  service name transport command wakeup_time max_proc args =
      let (host, port) = host_port name in
      record {
        flags = service_flags host wakeup_time;
        name = name;
        type = 2;
        wakeup_time = pos wakeup_time;
        listen_fd = negsuc 0;
        port = port;
        host = if same_text host [] then none else some host;
        max_proc = max_proc;
        path = set.var_daemon_dir ++ 47 ∷ command;
        args = args.argv;
        avail_proc = pos 0;
        total_proc = pos 0;
        throttle_delay = set.var_throttle_time;
        status_fd = (negsuc 0, negsuc 0);
      }

  unfoldable pub with_args :
      (name transport command : List ℕ) → (wakeup_time max_proc : ℕ) → Option Argv → Outcome Serv
  with_args name transport command wakeup_time max_proc none = abort undefined
  with_args name transport command wakeup_time max_proc (some args) =
      ok (service name transport command wakeup_time max_proc args)

-- `get_master_ent` behind the loop: the fields in their order.
module _ (set : Settings) (conf : Conf) where
  -- `turns` bounds the loop over the arguments that are left on the line.
  unfoldable pub parse_entry : (turns : ℕ) → (name bufp : List ℕ) → Outcome Serv
  parse_entry turns name bufp = get_str_ent conf bufp none >>= λ (transport, bufp1).
      if not (same_text transport inet)
      then abort (fatal_with_context conf "bad transport type")
      else get_int_ent conf bufp1 (some (48 ∷ [])) >>= λ (wakeup_time, bufp2).
          get_int_ent conf bufp2 (some (decimal 10 set.var_proc_limit)) >>= λ (max_proc, bufp3).
          get_str_ent conf bufp3 none >>= λ (command, bufp4).
          with_args set name transport command wakeup_time max_proc (
            add_tokens turns (option_args max_proc command name transport (argv_alloc 0)) bufp4
              master_blanks)

-- `get_master_ent`: the entry, none at the end of the file, and the file after it.
unfoldable pub parsed_lines :
    Settings → Conf → Option (List ℕ × List ℕ × List (List ℕ)) → Outcome (Option Serv × Conf)
parsed_lines set conf none = ok (none, record conf { master_fp = some [] })
parsed_lines set conf (some (name, bufp, lines)) = parse_entry set conf 1024 name bufp >>= λ serv.
    ok (some serv, record conf { master_fp = some lines })

unfoldable pub entry_from : Settings → Conf → Option (List (List ℕ)) → Outcome (Option Serv × Conf)
entry_from set conf none = abort (panic "get_master_ent: config file not open")
entry_from set conf (some fp) = parsed_lines set conf (skip_lines fp)

unfoldable pub get_master_ent : Settings → Conf → Outcome (Option Serv × Conf)
get_master_ent set conf = entry_from set conf conf.master_fp
