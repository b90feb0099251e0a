-- ===== src/Tests/Main.antt =====
-- Turns of the loop of src/master/master.c: a child that is taken tells that it is available while there is a connection.
use nowra.Base.{
  ℕ, ◌≡◌, refl, true, false, some, List, [], ◌∷◌, arith, ◌==◌, if◌then◌else◌, ℤ, pos, negsuc, abort,
  panic, Concludes,
}
use nowra.Binhash.{
  Binhash, binhash_create, enter_copied, binhash_link, binhash_size, binhash_hash, binhash_find,
  binhash_list, chain_find, key_eq,
}
use nowra.Binhash.Children.{IsChildren, enter-IsChildren, create-IsChildren}
use nowra.Wait.{Turn, Ready, interrupted, events, event_wait}
use nowra.Wait.Turns.{event_wait-Concludes}
use nowra.Master.Table.{Proc, stat_taken, stat_avail}
use nowra.Master.{master_avail_event_fn, master_status_event_fn, Serv, World, find_in, listen_flag}
use nowra.Master.Counts.{load, TableIsValid, IsConsistent}
use nowra.Master.Status.{Message}
use nowra.Timer.Queue.{count}
use nowra.Main.Stale.{readable, stale-panics}
use nowra.Events.{EventLoop, blank, event_read}
use nowra.Main.{Input, main, master_handlers}
use nowra.Main.Serving.{Holds, master_handlers-IsKept}
use nowra.Main.Loop.{AtTop, main-IsServing}
use nowra.Tests.Kernel.{watch}
use nowra.Tests.Children.{hashed, key_of, distinct}
use nowra.Tests.Events.{watching}
use nowra.Tests.Timers.{timers, timers-IsValid}
use nowra.Tests.Master.{quiet, quiet-IsConsistent, service}
use nowra.Tests.Entries.{set, conf, comment, blank_line, line}
use nowra.Tests.Services.{given}

abbrev available : Message
available = record { n = pos 8; pid = 100; avail = stat_avail }

abbrev on : ℤ → Ready Input
on fd = record {
  fd = fd;
  epollin = true;
  epollout = false;
  given = record { forked = some 101; message = available };
}

-- A connection on descriptor 1, and then nothing.
abbrev turns : List (Turn Input)
turns =
    record { now = 9; now' = 10; waited = events (on (pos 1) ∷ []) }
    ∷ record { now = 11; now' = 12; waited = interrupted }
    ∷ []

main-IsServing_example :
    Concludes
      (AtTop watch hashed)
      (main watch hashed true set (given 7 ∷ given 8 ∷ []) conf watching 9 turns)
main-IsServing_example =
    main-IsServing watch hashed true set (given 7 ∷ given 8 ∷ []) conf watching 9 turns
      (comment ∷ blank_line ∷ line ∷ []) refl refl (omega arith)
      ((omega arith, omega arith), ((omega arith, omega arith), tt))

quiet-Holds : Holds watch hashed (timers, quiet)
quiet-Holds = (quiet-IsConsistent, λ r. ground arith)

event_wait_example :
    Concludes
      (λ s. (s.0 ≡ negsuc 0) × Holds watch hashed (s.1, s.2))
      (event_wait
        (master_handlers watch hashed)
        3
        9
        10
        (events (on (pos 1) ∷ []))
        (negsuc 0, timers, quiet))
event_wait_example =
    event_wait-Concludes (master_handlers watch hashed) (Holds watch hashed)
      (master_handlers-IsKept watch hashed) 3 9 10 (events (on (pos 1) ∷ [])) (negsuc 0) timers
      quiet quiet-Holds (omega arith) (omega arith) (omega arith)

-- The child of the service at address 0 is taken.
abbrev taken_child : Proc
taken_child = record { pid = 100; avail = stat_taken; serv = 0; use_count = 1 }

abbrev one_taken : Binhash Proc
one_taken = enter_copied (binhash_create 0) (key_of 100) taken_child

one_taken-IsChildren : IsChildren key_of distinct one_taken
one_taken-IsChildren =
    enter-IsChildren key_of distinct (binhash_create 0) 100 taken_child
      (create-IsChildren key_of distinct) refl

abbrev serving_one : ℕ → Serv
serving_one r = if 0 == r then record (service 0) { total_proc = pos 1 } else service 0

abbrev pub one_child : World watch hashed
one_child = record quiet { servs = serving_one; child_table = some one_taken }

pub one_child-IsConsistent : IsConsistent watch hashed one_child
unfolding load TableIsValid binhash_create enter_copied binhash_link binhash_size binhash_hash
    binhash_list
one_child-IsConsistent = record {
  sized = refl;
  table = one_taken-IsChildren;
  statuses = refl;
  timers = timers-IsValid;
  clock = omega arith;
  counts = record {
    totals = λ r. ground arith;
    avails = λ r. ground arith;
    delays = λ r. ground arith;
    opened = λ r h. ground arith;
  };
}

taken_found : find_in watch hashed 100 one_child.child_table ≡ some taken_child
unfolding find_in binhash_create enter_copied binhash_link binhash_size binhash_hash binhash_find
    chain_find key_eq
taken_found = refl

listened_for : listen_flag (one_child.servs 0) ≡ true
unfolding listen_flag
listened_for = refl

-- The listen socket is descriptor 1, and the status pipe descriptor 2.
abbrev both_watched : EventLoop
both_watched = record {
  maxfd = pos 2;
  size = 4;
  reg_events =
      blank
      ∷ record { mask = event_read; read_cb = master_avail_event_fn; write_cb = 0; client_data = 0 }
      ∷ record {
        mask = event_read;
        read_cb = master_status_event_fn;
        write_cb = 0;
        client_data = 0;
      }
      ∷ blank
      ∷ [];
}

abbrev in_loop : World watch hashed
in_loop = record one_child {
  event_loop = both_watched;
  timers = record { present = 9; queue = [] };
}

in_loop-IsConsistent : IsConsistent watch hashed in_loop
unfolding count
in_loop-IsConsistent = record {
  sized = refl;
  table = one_child-IsConsistent.table;
  statuses = one_child-IsConsistent.statuses;
  timers = record { queue = record { sorted = tt; once = λ c x. omega arith }; fresh = λ z. refl };
  clock = one_child-IsConsistent.clock;
  counts = one_child-IsConsistent.counts;
}

abbrev told_one : Input
told_one = record { forked = some 101; message = available }

stale_example :
    event_wait
      (master_handlers watch hashed)
      1
      9
      10
      (events (readable 2 told_one ∷ readable 1 told_one ∷ []))
      (negsuc 0, in_loop.timers, in_loop)
    ≡ some (abort (panic "%s: processes available: %d"))
stale_example =
    stale-panics watch hashed taken_child 0 9 10 (negsuc 0) 2 1 told_one told_one in_loop
      (omega arith) refl refl in_loop-IsConsistent taken_found (refl, (_, refl, refl, refl))
      (refl, (_, refl, refl, refl)) refl refl refl refl refl refl refl refl listened_for
