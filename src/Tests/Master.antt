-- ===== src/Tests/Master.antt =====
-- The process manager of src/master on a master process with one service, without children and with
-- one.
use nowra.Base.{
  ℕ, ◌≡◌, refl, true, false, ◌⊎◌, some, none, [], arith, pos, abort, panic, Returns, ◌==◌,
  if◌then◌else◌, eqb_ℤ,
}
use nowra.Master.Table.{Proc, stat_taken}
use nowra.Master.{Flags, Serv, World, find_in, listen_flag}
use nowra.Master.Counts.{load, TableIsValid, IsConsistent}
use nowra.Master.Spawn.{master_spawn}
use nowra.Master.Spawn.Adopt.{Spawned, master_spawn-Spawned}
use nowra.Master.Status.{Message, master_status_event}
use nowra.Master.Status.Update.{master_status_event-IsConsistent}
use nowra.Master.Status.Told.{Told}
use nowra.Binhash.{
  binhash_create, enter_copied, binhash_link, binhash_size, binhash_hash, binhash_find,
  binhash_list, chain_find, key_eq,
}
use nowra.Tests.Kernel.{watch}
use nowra.Tests.Children.{hashed, child, family, family-IsChildren}
use nowra.Tests.Timers.{timers, timers-IsValid}
use nowra.Tests.Events.{four, watching}

abbrev pub no_flags : Flags
no_flags = record {
  throttle = false;
  mark = false;
  condwake = false;
  inethost = false;
  listen = false;
}

-- A service of type 1 on descriptor 1, with `n` available children of at most two.
abbrev pub service : ℕ → Serv
service n = record {
  flags = no_flags;
  name = [];
  type = 1;
  wakeup_time = pos 0;
  listen_fd = pos 1;
  port = [];
  host = none;
  max_proc = 2;
  path = [];
  args = [];
  avail_proc = pos n;
  total_proc = pos n;
  throttle_delay = pos 60;
  status_fd = (pos 2, pos 3);
}

-- All services are without children, but the one at address 0, which has `n`.
abbrev pub services : ℕ → ℕ → Serv
services n r = if 0 == r then service n else service 0

abbrev pub quiet : World watch hashed
quiet = record {
  event_loop = four;
  kernel = watching;
  timers = timers;
  servs = services 0;
  child_table = none;
  clock = 9;
}

abbrev pub busy : World watch hashed
busy = record {
  event_loop = four;
  kernel = watching;
  timers = timers;
  servs = services 1;
  child_table = some family;
  clock = 9;
}

pub quiet-IsConsistent : IsConsistent watch hashed quiet
unfolding load TableIsValid
quiet-IsConsistent = record {
  sized = refl;
  table = tt;
  statuses = refl;
  timers = timers-IsValid;
  clock = omega arith;
  counts = record {
    totals = λ r. ground arith;
    avails = λ r. ground arith;
    delays = λ r. ground arith;
    opened = λ r h. ground arith;
  };
}

pub busy-IsConsistent : IsConsistent watch hashed busy
unfolding load TableIsValid binhash_create enter_copied binhash_link binhash_size binhash_hash
    binhash_list
busy-IsConsistent = record {
  sized = refl;
  table = family-IsChildren;
  statuses = refl;
  timers = timers-IsValid;
  clock = omega arith;
  counts = record {
    totals = λ r. ground arith;
    avails = λ r. ground arith;
    delays = λ r. ground arith;
    opened = λ r h. ground arith;
  };
}

wanted : listen_flag (quiet.servs 0) ≡ true
unfolding listen_flag
wanted = refl

master_spawn_example :
    Returns (master_spawn watch hashed (some 101) 0 quiet) (Spawned watch hashed (some 101) 0 quiet)
master_spawn_example =
    master_spawn-Spawned watch hashed 0 quiet quiet-IsConsistent refl (some 101) wanted

pub child_found : find_in watch hashed child.pid busy.child_table ≡ some child
unfolding find_in binhash_create enter_copied binhash_link binhash_size binhash_hash binhash_find
    chain_find key_eq
child_found = refl

abbrev taken : Message
taken = record { n = pos 8; pid = 100; avail = stat_taken }

master_status_event_example :
    Returns (master_status_event watch hashed 1 taken 0 busy) (λ w'.
      IsConsistent watch hashed w'
      × ((w' ≡ busy)
          ⊎ ((p : Proc) × (find_in watch hashed 100 busy.child_table ≡ some p)
              × (p.serv ≡ 0)
              × Told watch hashed p busy stat_taken w')))
    ⊎ ((eqb_ℤ (pos 8) (pos 0) ≡ true)
        × (master_status_event watch hashed 1 taken 0 busy ≡ abort (panic "%s: read EOF status")))
    ⊎ ((p : Proc) × (find_in watch hashed 100 busy.child_table ≡ some p)
        × ((p.serv == 0) ≡ false)
        × (master_status_event watch hashed 1 taken 0 busy
            ≡ abort (panic "%s: pointer corruption: %p != %p")))
master_status_event_example =
    master_status_event-IsConsistent watch hashed 1 0 taken busy busy-IsConsistent
