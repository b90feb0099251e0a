-- ===== src/Master/Spawn/Adopt.antt =====
-- `master_spawn` of src/master/master_spawn.c and `master_avail_event` of src/master/master_avail.c: a
-- child that was forked is entered, counted, and available.
use nowra.Base.{
  ℕ, ◌+◌, ◌≡◌, refl, sym, ap, Outcome, incr, ◌∙◌, ◌⊎◌, Bool, true, false, ◌||◌, Option, none, some,
  arith, ◌==◌, if◌then◌else◌, ==_refl, pos, ltb_ℤ, Bool-cases, inl, inr, Returns, weight,
}
use nowra.Events.Kernel.{Epoll}
use nowra.Master.Table.{Proc, ChildTable, stat_taken, stat_avail}
use nowra.Master.{World, put_serv, store_in, find_in, limit_ok, listen_flag, disable_read}
use nowra.Master.Listening.{is_nonneg, nonneg-pos, Reread, disable_read-Reread}
use nowra.Master.Counts.{
  Counts-cong, Counts-update, at, is_child_of, is_idle_child_of, has_odd_status, load, TableIsValid,
  IsCounted, IsConsistent, recounted, reflagged, load-store_in,
}
use nowra.Master.Avail.{avail_more-Leaves}
use nowra.Master.Spawn.Throttle.{throttle-Leaves}
use nowra.Master.Spawn.{with_table, adopt, master_throttle, master_spawn, master_avail_event}

flag_parts :
    (t i l : Bool)
    → (if t || i then false else if l then true else false) ≡ true
    → (t ≡ false) × (i ≡ false) × (l ≡ true)
flag_parts t i l h = ground arith

module _ (ep : Epoll) (ct : ChildTable) where
  -- A table that is created when there was none weighs the same.
  with_table-IsValid : (tb : Option ct.T) → TableIsValid ep ct tb → ct.IsValid (with_table ep ct tb)
  unfolding TableIsValid with_table
  with_table-IsValid none v = ct.create-IsValid
  with_table-IsValid (some t) v = v

  load-with_table :
      (tb : Option ct.T) (f : Proc → ℕ)
      → weight f (ct.entries (with_table ep ct tb)) ≡ load ep ct f tb
  unfolding load with_table
  load-with_table none f = ct.create-weight f
  load-with_table (some t) f = refl

  module _ (pid s : ℕ) (w : World ep ct) (c : IsConsistent ep ct w)
      (open_fd : is_nonneg (w.servs s).listen_fd ≡ true) where
    abbrev child : Proc
    child = record { pid = pid; avail = stat_taken; serv = s; use_count = 0 }

    abbrev entered : Option ct.T
    entered = some (ct.enter (with_table ep ct w.child_table) pid child)

    load-entered : (f : Proc → ℕ) → load ep ct f entered ≡ f child + load ep ct f w.child_table
    unfolding load
    load-entered f =
        rw (ct.enter-weight _ pid child f (with_table-IsValid w.child_table c.table))
          (ap (λ n. f child + n) (load-with_table w.child_table f))

    valid-entered : TableIsValid ep ct entered
    unfolding TableIsValid
    valid-entered = ct.enter-IsValid _ pid child (with_table-IsValid w.child_table c.table) refl

    find-entered : find_in ep ct pid entered ≡ some child
    unfolding find_in
    find-entered = ct.find-enter _ pid child (with_table-IsValid w.child_table c.table)

    abbrev total_now : ℕ → ℕ
    total_now r = load ep ct (is_child_of r) w.child_table

    abbrev idle_now : ℕ → ℕ
    idle_now r = load ep ct (is_idle_child_of r) w.child_table

    abbrev counted : World ep ct
    counted =
        let v = w.servs s in
        record (put_serv ep ct s (record v { total_proc = incr v.total_proc }) w) {
          child_table = entered;
        }

    counted-IsCounted :
        IsCounted ep ct (at s (total_now s + 1) total_now) (at s (idle_now s) idle_now) counted
    counted-IsCounted = record {
      sized = c.sized;
      table = valid-entered;
      statuses = omega (arith, load-entered has_odd_status, c.statuses);
      timers = c.timers;
      clock = c.clock;
      counts =
          Counts-update w.servs s (total_now s + 1) (idle_now s) _ c.counts (rw (c.counts.totals s))
            (c.counts.avails s) refl refl open_fd;
    }

    -- After the child is available, its entry weighs so.
    load-available :
        (f : Proc → ℕ)
        → load ep ct f (store_in ep ct (record child { avail = stat_avail }) entered)
          ≡ f (record child { avail = stat_avail }) + load ep ct f w.child_table
    load-available f = omega (
      arith,
      load-store_in ep ct (record child { avail = stat_avail }) child f entered valid-entered
          find-entered,
      load-entered f,
    )

    adopt-IsConsistent : Returns (adopt ep ct pid s (with_table ep ct w.child_table) w) (λ w'.
        IsConsistent ep ct w'
        × ((f : Proc → ℕ)
            → load ep ct f w'.child_table
              ≡ f (record child { avail = stat_avail }) + load ep ct f w.child_table))
    unfolding adopt
    adopt-IsConsistent =
        let (w', run, (c', tb)) =
          avail_more-Leaves ep ct s child child counted counted-IsCounted find-entered
            (rw ==_refl open_fd) refl in
        rw run (
          _,
          refl,
          (
            recounted ep ct _ (reflagged ep ct w' s _ c')
                (λ r. rw (tb, load-available) (ground arith))
                (λ r. rw (tb, load-available) (ground arith)),
            λ f. rw tb (load-available f),
          ),
        )

    -- The table made sure of, with no child entered.
    abbrev tabled : World ep ct
    tabled = record w { child_table = some (with_table ep ct w.child_table) }

    tabled-IsConsistent : IsConsistent ep ct tabled
    unfolding load TableIsValid
    tabled-IsConsistent = record {
      sized = c.sized;
      table = with_table-IsValid w.child_table c.table;
      statuses = load-with_table w.child_table has_odd_status ∙ c.statuses;
      timers = c.timers;
      clock = c.clock;
      counts =
          Counts-cong c.counts (λ r. sym (load-with_table w.child_table (is_child_of r)))
            (λ r. sym (load-with_table w.child_table (is_idle_child_of r)));
    }

  -- The weight of the child that `fork()` made, if it made one.
  unfoldable pub newborn : Option ℕ → ℕ → (Proc → ℕ) → ℕ
  newborn none s f = 0
  newborn (some pid) s f = f (record { pid = pid; avail = stat_avail; serv = s; use_count = 0 })

  -- The bookkeeping is right, and the table has one more entry, of an available child, if and only if
  -- there was a child.
  abbrev pub Spawned : Option ℕ → ℕ → World ep ct → World ep ct → Type 0
  Spawned forked s w w' =
      IsConsistent ep ct w'
      × ((f : Proc → ℕ)
          → load ep ct f w'.child_table ≡ newborn forked s f + load ep ct f w.child_table)

  module _ (s : ℕ) (w : World ep ct) (c : IsConsistent ep ct w)
      (open_fd : is_nonneg (w.servs s).listen_fd ≡ true) where
    load-tabled :
        (f : Proc → ℕ)
        → load ep ct f (some (with_table ep ct w.child_table)) ≡ load ep ct f w.child_table
    unfolding load
    load-tabled f = load-with_table w.child_table f

    branch :
        (forked : Option ℕ)
        → Returns
            (elim forked as (λ _. Outcome (World ep ct)) [
              | none ↦
                  master_throttle ep ct s
                    (record w { child_table = some (with_table ep ct w.child_table) })
              | some pid ↦ adopt ep ct pid s (with_table ep ct w.child_table) w
            ])
            (Spawned forked s w)
    unfolding newborn
    branch none =
        let (w', run, (c', tb)) =
          throttle-Leaves ep ct s (tabled 0 s w c open_fd) (tabled-IsConsistent 0 s w c open_fd) in
        (
          w',
          run,
          (
            recounted ep ct w' c' (λ r. sym (ap (load ep ct (is_child_of r)) tb))
                (λ r. sym (ap (load ep ct (is_idle_child_of r)) tb)),
            λ f. omega (arith, ap (load ep ct f) tb, load-tabled f),
          ),
        )
    branch (some pid) = adopt-IsConsistent pid s w c open_fd

    -- `master_spawn` for a service that is to be listened for (not throttled, with no available child,
    -- below its limit) does not panic, whether or not `fork()` fails; the bookkeeping is right after
    -- it, with one more child, which is available, exactly if `fork()` made one.
    pub master_spawn-Spawned :
        (forked : Option ℕ)
        → listen_flag (w.servs s) ≡ true
        → Returns (master_spawn ep ct forked s w) (Spawned forked s w)
    unfolding master_spawn listen_flag
    master_spawn-Spawned forked wanted =
        let v = w.servs s in
        let (ready, none_idle, room) =
          flag_parts v.flags.throttle (ltb_ℤ (pos 0) v.avail_proc)
            (limit_ok v.max_proc v.total_proc) wanted in
        rw (room, none_idle, ready) (branch forked)

    Reread-IsConsistent : (w' : World ep ct) → Reread ep ct w w' → IsConsistent ep ct w'
    Reread-IsConsistent w' (rest, same) = record {
      sized = rest.sized c.sized;
      table = rw rest.child_table c.table;
      statuses = rw rest.child_table c.statuses;
      timers = rw rest.timers c.timers;
      clock = rw rest.clock c.clock;
      counts = rw same (
          Counts-cong c.counts (λ r. sym (ap (load ep ct (is_child_of r)) rest.child_table))
            (λ r. sym (ap (load ep ct (is_idle_child_of r)) rest.child_table)));
    }

    ignored : Returns (disable_read ep ct (w.servs s).listen_fd w) (IsConsistent ep ct)
    ignored =
        let (fd, e) = nonneg-pos (w.servs s).listen_fd open_fd in
        let (w', run, kept) = disable_read-Reread ep ct w c.sized fd in
        (w', rw e run, Reread-IsConsistent w' kept)

    -- `master_avail_event` for a service that is throttled or to be listened for does not panic, and the
    -- bookkeeping is right after it.
    pub master_avail_event-IsConsistent :
        (event : ℕ) (forked : Option ℕ)
        → ((w.servs s).flags.throttle ≡ true) ⊎ (listen_flag (w.servs s) ≡ true)
        → Returns (master_avail_event ep ct event forked s w) (IsConsistent ep ct)
    unfolding master_avail_event
    master_avail_event-IsConsistent event forked h = elim (Bool-cases (event == 0)) [
      | inl nothing ↦ rw nothing (w, refl, c)
      | inr something ↦ elim (Bool-cases (w.servs s).flags.throttle) [
        | inl on ↦ rw (something, on) ignored
        | inr off ↦
            let wanted : listen_flag (w.servs s) ≡ true = ground arith in
            let (w', run, (c', _)) = master_spawn-Spawned forked wanted in
            rw (something, off) (w', run, c')
      ]
    ]
