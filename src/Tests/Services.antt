-- ===== src/Tests/Services.antt =====
-- The configuration of Tests/Entries is read by a master process without services.
use nowra.Base.{ℕ, ◌≡◌, refl, some, List, [], ◌∷◌, ◌++◌, arith, pos, ok}
use nowra.Argv.{
  argv_add, argv_alloc, mystrtok, skip_delims, token, after_token, is_delim, add_tokens,
}
use nowra.Stringop.{basename, split_at_right, host_port, split_at}
use nowra.Events.{event_enable_rw}
use nowra.Master.{master_avail_listen, start_listening, listen_flag, enable_read}
use nowra.Master.Fields.{
  get_str_ent, str_value, get_int_ent, int_value, atoi, skip_spaces, signed_value, digits_value,
  same_text,
}
use nowra.Master.Entry.{
  get_master_ent, entry_from, parsed_lines, skip_lines, line_name, is_comment, parse_entry, decimal,
  option_args, add_options, service, service_flags, with_args,
}
use nowra.Master.Service.{
  Given, Services, config_loop, config_turn, config_entry, enter_service, find_service,
  master_start_service, master_listen_init, master_status_init, with_pipe,
}
use nowra.Master.Service.Enough.{config_loop-enough}
use nowra.Master.Service.Names.{IsUnique, config_loop-IsUnique}
use nowra.Tests.Kernel.{watch}
use nowra.Tests.Children.{hashed}
use nowra.Tests.Master.{quiet}
use nowra.Tests.Entries.{set, conf, comment, blank_line, line}

abbrev pub given : ℕ → Given
given address = record { address = address; listen_fd = pos 1; pipe = some (pos 2, pos 3) }

abbrev no_services : Services watch hashed
no_services = record { head = []; world = quiet }

-- The first turn enters the service that the file has, the second finds the end of the file.
config_run :
    (st' : Services watch hashed) × (config_loop watch hashed set
        (given 7 ∷ given 8 ∷ [])
        conf
        no_services
      ≡ ok st')
unfolding config_loop config_turn config_entry enter_service find_service get_master_ent entry_from
    parsed_lines skip_lines line_name is_comment parse_entry get_str_ent str_value get_int_ent
    int_value atoi skip_spaces signed_value digits_value decimal option_args add_options argv_add
    argv_alloc mystrtok skip_delims token after_token is_delim add_tokens same_text basename
    split_at_right host_port split_at service service_flags with_args master_start_service
    master_listen_init master_avail_listen start_listening listen_flag enable_read event_enable_rw
    master_status_init with_pipe
config_run = (_, refl)

config_loop_example : IsUnique watch hashed config_run.0
config_loop_example =
    config_loop-IsUnique watch hashed set (given 7 ∷ given 8 ∷ []) conf no_services config_run.0 tt
      (tt, (tt, tt)) ((refl, tt), (tt, tt)) config_run.1

-- One more than the three lines of the file.
abbrev four : List Given
four = given 7 ∷ given 8 ∷ given 9 ∷ given 10 ∷ []

enough_example :
    config_loop watch hashed set (four ++ given 11 ∷ []) conf no_services
    ≡ config_loop watch hashed set four conf no_services
enough_example =
    config_loop-enough watch hashed set four (given 11 ∷ []) conf no_services
      (comment ∷ blank_line ∷ line ∷ []) refl (omega arith)
