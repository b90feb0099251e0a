-- ===== src/Tests/Refresh.antt =====
-- A master process with a service that has no children reads the configuration of Tests/Entries, which does not have it.
-- It also deletes the children of a service.
use nowra.Base.{List, ℤ, ℕ, ◌≡◌, refl, some, [], ◌∷◌, pos, ok}
use nowra.Argv.{
  argv_add, argv_alloc, mystrtok, skip_delims, token, after_token, is_delim, add_tokens,
}
use nowra.Stringop.{basename, split_at_right, host_port, split_at}
use nowra.Timer.{event_request_timer}
use nowra.Events.{event_enable_rw, event_disable_rw}
use nowra.Master.{master_avail_listen, start_listening, listen_flag, enable_read, disable_read}
use nowra.Master.Fields.{
  get_str_ent, str_value, get_int_ent, int_value, atoi, skip_spaces, signed_value, digits_value,
  same_text,
}
use nowra.Master.Entry.{
  get_master_ent, entry_from, parsed_lines, skip_lines, line_name, is_comment, parse_entry, decimal,
  option_args, add_options, service, service_flags, with_args,
}
use nowra.Master.Service.{
  Given, Services, config_loop, config_turn, config_entry, enter_service, find_service,
  master_start_service, master_listen_init, master_status_init, with_pipe, master_status_cleanup,
}
use nowra.Master.Spawn.{master_throttle, master_unthrottle}
use nowra.Master.Refresh.{
  mark_all, sweep, master_refresh, master_stop_service, master_avail_cleanup,
  master_delete_children, reap_all,
}
use nowra.Master.Refresh.Mirrors.{Mirrors, master_refresh-Mirrors}
use nowra.Tests.Kernel.{watch}
use nowra.Tests.Children.{hashed}
use nowra.Tests.Entries.{set, conf}
use nowra.Tests.Master.{quiet}

-- One service, of no name.
abbrev one_service : Services watch hashed
one_service = record { head = 0 ∷ []; world = quiet }

abbrev new_given : ℕ → Given
new_given address = record { address = address; listen_fd = pos 4; pipe = some (pos 5, pos 6) }

refresh_run :
    (st' : Services watch hashed) × (master_refresh watch hashed set
        (new_given 7 ∷ new_given 8 ∷ [])
        conf
        (λ s. [])
        one_service
      ≡ ok st')
unfolding config_loop config_turn config_entry enter_service find_service get_master_ent entry_from
    parsed_lines skip_lines line_name is_comment parse_entry get_str_ent str_value get_int_ent
    int_value atoi skip_spaces signed_value digits_value decimal option_args add_options argv_add
    argv_alloc mystrtok skip_delims token after_token is_delim add_tokens same_text basename
    split_at_right host_port split_at service service_flags with_args master_start_service
    master_listen_init master_avail_listen start_listening listen_flag enable_read event_enable_rw
    master_status_init with_pipe mark_all sweep master_refresh master_stop_service
    master_avail_cleanup master_delete_children reap_all master_status_cleanup disable_read
    event_disable_rw event_request_timer master_throttle master_unthrottle
refresh_run = (_, refl)

refresh_example : Mirrors watch hashed set conf refresh_run.0
refresh_example =
    master_refresh-Mirrors watch hashed set (new_given 7 ∷ new_given 8 ∷ []) conf (λ s. [])
      one_service refresh_run.0 (tt, tt) ((refl, tt), ((refl, tt), tt)) ((refl, tt), (tt, tt))
      refresh_run.1

-- The child ends by the signal.
abbrev one_dead : List (List (ℕ × ℤ))
one_dead = ((100, pos 15) ∷ []) ∷ []
