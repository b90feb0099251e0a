-- ===== src/Main/Idle.antt =====
-- A process manager without children: what the start of its services, in src/master/master_service.c and
-- src/master/master_status.c, keeps.
use nowra.Base.{
  ℕ, ◌<◌, ◌≡◌, refl, ◌∙◌, inl, inr, Bool, true, false, not, ◌||◌, Option, none, some, arith, ◌==◌,
  ℤ, pos, negsuc, ltb_ℤ, Bool-cases, Ensures, Ensures-ok, Ensures-abort, Ensures-if, Ensures-then,
  Ensures-Returns,
}
use nowra.Events.{EventLoop, event_enable_rw, event_disable_rw, event_read}
use nowra.Events.Kernel.{Epoll}
use nowra.Events.Sized.{IsSized, event_enable_rw-IsSized, event_disable_rw-IsSized}
use nowra.Timer.Request.{IsValid}
use nowra.Master.Table.{ChildTable}
use nowra.Master.{
  Flags, Serv, World, update, put_serv, set_flags, enable_read, disable_read, start_listening,
  listen_flag, master_avail_listen, master_avail_event_fn, master_status_event_fn,
}
use nowra.Master.Listening.{is_nonneg}
use nowra.Master.Counts.{load, TableIsValid}
use nowra.Master.Service.{with_pipe, master_status_init, master_status_cleanup}
use nowra.Main.Serving.{IsServing}

-- A service without processes.
pub record IsQuiet (v : Serv) : Type 0 where
  pub total : v.total_proc ≡ pos 0
  pub avail : v.avail_proc ≡ pos 0
  pub delay : is_nonneg v.throttle_delay ≡ true

pub same_processes :
    (v v' : Serv)
    → IsQuiet v
    → v'.total_proc ≡ v.total_proc
    → v'.avail_proc ≡ v.avail_proc
    → v'.throttle_delay ≡ v.throttle_delay
    → IsQuiet v'
same_processes v v' q t a d = record {
  total = t ∙ q.total;
  avail = a ∙ q.avail;
  delay = rw d q.delay;
}

pub quiet-wanted : (v : Serv) → IsQuiet v → v.flags.throttle ≡ false → listen_flag v ≡ true
unfolding listen_flag
quiet-wanted v q awake = ground arith

abbrev pub every : ℕ → Bool
every r = true

abbrev pub but : ℕ → ℕ → Bool
but s r = not (s == r)

module _ (ep : Epoll) (ct : ChildTable) where
  abbrev Master : Type 0
  Master = World ep ct

  -- There is no child yet; `opened` says which services have a listen socket.
  pub record IsIdle (opened : ℕ → Bool) (w : Master) : Type 0 where
    pub sized : IsSized w.event_loop
    pub table : w.child_table ≡ none
    pub timers : IsValid w.timers
    pub clock : 0 < w.clock
    pub quiet : (r : ℕ) → IsQuiet (w.servs r)
    pub sockets : (r : ℕ) → opened r ≡ true → is_nonneg (w.servs r).listen_fd ≡ true

  pub IsIdle-IsServing : (w : Master) → IsIdle every w → IsServing ep ct w
  unfolding load TableIsValid
  IsIdle-IsServing w h = (
    record {
      sized = h.sized;
      table = rw h.table tt;
      statuses = rw h.table refl;
      timers = h.timers;
      clock = h.clock;
      counts = record {
        totals = λ r. rw h.table (h.quiet r).total;
        avails = λ r. rw h.table (h.quiet r).avail;
        delays = λ r. (h.quiet r).delay;
        opened = λ r some_child. h.sockets r refl;
      };
    },
    λ r. h.sockets r refl,
  )

  -- A write of a service.
  pub put-IsIdle :
      (opened opened' : ℕ → Bool) (w : Master) (s : ℕ) (v : Serv)
      → IsIdle opened w
      → IsQuiet v
      → ((r : ℕ) → opened' r ≡ true → is_nonneg (update w.servs s v r).listen_fd ≡ true)
      → IsIdle opened' (put_serv ep ct s v w)
  put-IsIdle opened opened' w s v h q o = record {
    sized = h.sized;
    table = h.table;
    timers = h.timers;
    clock = h.clock;
    quiet =
        λ r. elim (Bool-cases (s == r)) [ inl same ↦ rw same q | inr other ↦ rw other (h.quiet r) ];
    sockets = o;
  }

  pub relooped :
      (opened : ℕ → Bool) (w : Master) (l : EventLoop) (k : ep.K)
      → IsIdle opened w
      → IsSized l
      → IsIdle opened (record w { event_loop = l; kernel = k })
  relooped opened w l k h sized = record {
    sized = sized;
    table = h.table;
    timers = h.timers;
    clock = h.clock;
    quiet = h.quiet;
    sockets = h.sockets;
  }

  pub enable-IsIdle :
      (opened : ℕ → Bool) (fd : ℤ) (callback s : ℕ) (w : Master)
      → IsIdle opened w
      → Ensures (IsIdle opened) (enable_read ep ct fd callback s w)
  unfolding enable_read
  enable-IsIdle opened (negsuc fd) callback s w h =
      unfold event_enable_rw in Ensures-abort (IsIdle opened) _
  enable-IsIdle opened (pos fd) callback s w h =
      Ensures-then (IsIdle opened) (λ (done, l, k). IsSized l)
        (event_enable_rw ep (some w.event_loop) w.kernel (pos fd) callback s event_read) _
        (Ensures-Returns (λ (done, l, k). IsSized l) _
          (event_enable_rw-IsSized ep w.event_loop w.kernel h.sized fd event_read callback s))
        (λ r sized. Ensures-ok (IsIdle opened) _ (relooped opened w r.1 r.2 h sized))

  pub disable-IsIdle :
      (opened : ℕ → Bool) (fd : ℤ) (w : Master)
      → IsIdle opened w
      → Ensures (IsIdle opened) (disable_read ep ct fd w)
  unfolding disable_read
  disable-IsIdle opened (negsuc fd) w h = unfold event_disable_rw in Ensures-abort (IsIdle opened) _
  disable-IsIdle opened (pos fd) w h =
      Ensures-then (IsIdle opened) (λ (done, l, k). IsSized l)
        (event_disable_rw ep (some w.event_loop) w.kernel (pos fd) event_read) _
        (Ensures-Returns (λ (done, l, k). IsSized l) _
          (event_disable_rw-IsSized ep w.event_loop w.kernel h.sized fd event_read))
        (λ r sized. Ensures-ok (IsIdle opened) _ (relooped opened w r.1 r.2 h sized))

  -- A write that keeps the listen socket.
  pub rewrite-IsIdle :
      (opened : ℕ → Bool) (w : Master) (s : ℕ) (v : Serv)
      → IsIdle opened w
      → IsQuiet v
      → v.listen_fd ≡ (w.servs s).listen_fd
      → IsIdle opened (put_serv ep ct s v w)
  rewrite-IsIdle opened w s v h q e = put-IsIdle opened opened w s v h q (λ r o.
      elim (Bool-cases (s == r)) [
        | inl same ↦
            let here : s ≡ r = ground arith in rw (same, e) (rw (← here) at (h.sockets r o))
        | inr other ↦ rw other (h.sockets r o)
      ])

  pub reflag-IsIdle :
      (opened : ℕ → Bool) (w : Master) (s : ℕ) (f : Flags)
      → IsIdle opened w
      → IsIdle opened (set_flags ep ct s f w)
  reflag-IsIdle opened w s f h =
      rewrite-IsIdle opened w s (record (w.servs s) { flags = f }) h
        (same_processes (w.servs s) _ (h.quiet s) refl refl refl) refl

  pub with_pipe-IsIdle :
      (pipe : Option (ℤ × ℤ)) (s : ℕ) (w : Master)
      → IsIdle every w
      → Ensures (IsIdle every) (with_pipe ep ct pipe s w)
  unfolding with_pipe
  with_pipe-IsIdle none s w h = Ensures-abort (IsIdle every) _
  with_pipe-IsIdle (some (fd0, fd1)) s w h = enable-IsIdle every fd0 master_status_event_fn s _ (
      rewrite-IsIdle every w s (record (w.servs s) { status_fd = (fd0, fd1) }) h
        (same_processes (w.servs s) _ (h.quiet s) refl refl refl) refl)

  pub all_open :
      (s fd : ℕ) (w : Master) → IsIdle (but s) w → (w.servs s).listen_fd ≡ pos fd → IsIdle every w
  all_open s fd w h e = record {
    sized = h.sized;
    table = h.table;
    timers = h.timers;
    clock = h.clock;
    quiet = h.quiet;
    sockets = λ r any. elim (Bool-cases (s == r)) [
      | inl same ↦ let here : s ≡ r = ground arith in rw (← here, e) refl
      | inr other ↦ h.sockets r (rw other refl)
    ];
  }

  pub start_listening-IsIdle :
      (fd : ℤ) (s : ℕ) (w : Master)
      → IsIdle (but s) w
      → (w.servs s).listen_fd ≡ fd
      → Ensures (IsIdle every) (start_listening ep ct s w)
  unfolding start_listening
  start_listening-IsIdle (negsuc fd) s w h e =
      rw e (unfold enable_read event_enable_rw in Ensures-abort (IsIdle every) _)
  start_listening-IsIdle (pos fd) s w h e =
      Ensures-then (IsIdle every) (IsIdle every)
        (enable_read ep ct (w.servs s).listen_fd master_avail_event_fn s w) _
        (enable-IsIdle every (w.servs s).listen_fd master_avail_event_fn s w (all_open s fd w h e))
        (λ w' h'. Ensures-ok (IsIdle every) _ (reflag-IsIdle every w' s _ h'))

  -- A service that is new is listened for, or the program ends.
  pub listen-IsIdle :
      (s : ℕ) (w : Master)
      → IsIdle (but s) w
      → (w.servs s).flags.throttle ≡ false
      → (w.servs s).flags.listen ≡ false
      → Ensures (IsIdle every) (master_avail_listen ep ct s w)
  unfolding master_avail_listen
  listen-IsIdle s w h awake unlistened =
      rw (quiet-wanted (w.servs s) (h.quiet s) awake, unlistened)
        (start_listening-IsIdle (w.servs s).listen_fd s w h refl)

  pub status_init-IsIdle :
      (pipe : Option (ℤ × ℤ)) (s : ℕ) (w : Master)
      → IsIdle every w
      → Ensures (IsIdle every) (master_status_init ep ct pipe s w)
  unfolding master_status_init
  status_init-IsIdle pipe s w h =
      let (fd0, fd1) = (w.servs s).status_fd in
      Ensures-if (IsIdle every) (not (ltb_ℤ fd0 (pos 0)) || not (ltb_ℤ fd1 (pos 0))) _ _
        (Ensures-abort (IsIdle every) _) (with_pipe-IsIdle pipe s w h)

  pub status_cleanup-IsIdle :
      (s : ℕ) (w : Master)
      → IsIdle every w
      → Ensures (IsIdle every) (master_status_cleanup ep ct s w)
  unfolding master_status_cleanup
  status_cleanup-IsIdle s w h =
      let (fd0, fd1) = (w.servs s).status_fd in
      Ensures-if (IsIdle every) (ltb_ℤ fd0 (pos 0) || ltb_ℤ fd1 (pos 0)) _ _
        (Ensures-abort (IsIdle every) _)
        (Ensures-then (IsIdle every) (IsIdle every) (disable_read ep ct fd0 w) _
          (disable-IsIdle every fd0 w h)
          (λ w' h'. Ensures-ok (IsIdle every) _ (
            rewrite-IsIdle every w' s (record (w'.servs s) { status_fd = (negsuc 0, negsuc 0) }) h'
              (same_processes (w'.servs s) _ (h'.quiet s) refl refl refl) refl)))
