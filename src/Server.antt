-- ===== src/Server.antt =====
-- The processes of the services: src/master/single_server.c, which accepts connections one after the other, and
-- `master_notify` of src/master/master_proto.c, by which it tells the master what it does.
pub mod Rounds
pub mod Told
use nowra.Base.{
  eqb_ℤ, ltb_ℤ, ℕ, zero, suc, Bool, true, false, Option, none, some, List, [], ◌∷◌, ◌++◌, ◌==◌,
  if◌then◌else◌, ℤ, pos, negsuc, Outcome, ok, abort, panic, fatal, undefined, ◌>>=◌,
}
use nowra.Stringop.{basename}
use nowra.Events.{EventLoop, event_init, event_enable_rw, event_read}
use nowra.Events.Kernel.{Epoll}
use nowra.Timer.{Timers}
use nowra.Wait.{Turn, Handlers, wait_forever}
use nowra.Master.Table.{stat_taken, stat_avail}
use nowra.Master.Status.{Message}

-- What `inet_accept` returns: a descriptor, -1 with EAGAIN, or -1 with another error. With a descriptor, also what the two
-- calls of write() in `single_server_wakeup` will return, by which the master is told.
pub data Accepted : Type 0 where
  connected : (fd : ℕ) → (taken avail : ℤ) → Accepted
  try_again : Accepted
  refused : Accepted

-- MASTER_LISTEN_FD, and the address of `single_server_accept_inet`
abbrev pub master_listen_fd : ℕ
master_listen_fd = 4

abbrev pub accept_inet_fn : ℕ
accept_inet_fn = 4

-- "inet", MASTER_XPORT_NAME_INET
abbrev pub xport_inet : List ℕ
xport_inet = 105 ∷ 110 ∷ 101 ∷ 116 ∷ []

-- The options that `getopt` finds, each a letter with its argument. The last -n and the last -t count.
unfoldable pub take_options :
    List (ℕ × List ℕ) → List ℕ → Option (List ℕ) → List ℕ × Option (List ℕ)
take_options [] name transport = (name, transport)
take_options ((c, optarg) ∷ more) name transport =
    take_options more (if c == 110 then optarg else name)
      (if c == 116 then some optarg else transport)

-- The service, a function on the state `A` of the application, and `strcasecmp(s, t) == 0`.
module _ (ep : Epoll) {A : Type 0} (service : ℕ → List ℕ → List (List ℕ) → A → A)
    (same_ignoring_case : List ℕ → List ℕ → Bool) where
  -- The state of the process. Signals of the pipe are ignored.
  pub record Process : Type 0 where
    pub event_loop : EventLoop
    pub kernel : ep.K
    pub var_pid : ℕ
    pub name : List ℕ
    pub argv : List (List ℕ)
    pub use_count : ℕ
    pub sent : List Message
    pub app : A

  -- `master_notify`: did it return 0? `written` is what write() returns, and as many bytes of the message are in the pipe;
  -- a message has 8 bytes.
  unfoldable pub master_notify : (pid : ℕ) → (status written : ℤ) → Process → Bool × Process
  master_notify pid status written s =
      let stat : Message = record { n = written; pid = pid; avail = status } in
      (
        eqb_ℤ written (pos 8),
        if ltb_ℤ (pos 0) written then record s { sent = s.sent ++ stat ∷ [] } else s,
      )

  -- `single_server_wakeup`; a notification that failed is only logged.
  unfoldable pub single_server_wakeup : ℕ → (taken avail : ℤ) → Process → Process
  single_server_wakeup fd taken avail s =
      let (_, s1) = master_notify s.var_pid stat_taken taken s in
      let s2 = record s1 { app = service fd s1.name s1.argv s1.app } in
      let (_, s3) = master_notify s2.var_pid stat_avail avail s2 in
      record s3 { use_count = suc s3.use_count }

  -- `single_server_accept_inet`
  unfoldable pub single_server_accept_inet : Accepted → Process → Outcome Process
  single_server_accept_inet (connected fd taken avail) s =
      ok (single_server_wakeup fd taken avail s)
  single_server_accept_inet try_again s = ok s
  single_server_accept_inet refused s = abort (fatal "%s: accept connection: %s.")

  unfoldable pub call_accept :
      Accepted → (callback fd context : ℕ) → Timers × Process → Outcome (Timers × Process)
  call_accept given callback fd context (t, s) =
      if callback == accept_inet_fn
      then (single_server_accept_inet given s >>= λ s'. ok (t, s'))
      else abort undefined

  abbrev pub server_handlers : Handlers Accepted Process
  server_handlers = record {
    loop_of = λ s. some s.event_loop;
    at_time = λ now s. s;
    call_timer = λ callback context s. abort undefined;
    call_ready = call_accept;
  }

  -- The process before the loop.
  abbrev pub at_start : EventLoop → ep.K → ℕ → List ℕ → List (List ℕ) → A → Process
  at_start l k pid name argv app = record {
    event_loop = l;
    kernel = k;
    var_pid = pid;
    name = name;
    argv = argv;
    use_count = 0;
    sent = [];
    app = app;
  }

  -- `event_enable_rw(el, fd, ...)` and the loop.
  listen_forever :
      List (Turn Accepted)
      → Process
      → Bool × EventLoop × ep.K
      → Option (Outcome (ℤ × Timers × Process))
  listen_forever turns s (done, l, k) =
      wait_forever server_handlers turns
        (negsuc 0, record { present = 0; queue = [] }, record s { event_loop = l; kernel = k })

  on_loop :
      List (Turn Accepted)
      → Process
      → Outcome (Bool × EventLoop × ep.K)
      → Option (Outcome (ℤ × Timers × Process))
  unfolding listen_forever
  on_loop turns s (abort x) = some (abort x)
  on_loop turns s (ok r) = listen_forever turns s r

  with_loop :
      List (Turn Accepted) → Process → Option EventLoop → Option (Outcome (ℤ × Timers × Process))
  unfolding on_loop
  with_loop turns s none = some (abort (panic "%s: event no init."))
  with_loop turns s (some l) = on_loop turns s (
      event_enable_rw ep (some l) s.kernel (pos master_listen_fd) accept_inet_fn master_listen_fd
        event_read)

  -- The test of the transport
  with_transport :
      Bool
      → List (Turn Accepted)
      → Process
      → Option (List ℕ)
      → Option (Outcome (ℤ × Timers × Process))
  unfolding with_loop
  with_transport created turns s none = some (abort (fatal "no transport type specified"))
  with_transport created turns s (some transport) =
      if same_ignoring_case transport xport_inet
      then with_loop turns s (event_init created 100)
      else some (abort (fatal "unsupported transport type: %s"))

  -- `single_server_main`, with what `getopt` finds in its arguments and what is left of them.
  unfoldable pub single_server_main :
      (created : Bool)
      → (argv0 : List ℕ) → List (ℕ × List ℕ)
      → List (List ℕ)
      → (pid : ℕ) → ep.K
      → A
      → List (Turn Accepted)
      → Option (Outcome (ℤ × Timers × Process))
  unfolding with_transport
  single_server_main created argv0 options argv pid k app turns =
      let (name, transport) = take_options options (basename argv0) none in
      with_transport created turns
        (at_start (record { maxfd = negsuc 0; size = 0; reg_events = [] }) k pid name argv app)
        transport
