-- ===== src/Server/Told.antt =====
-- What a process of src/master/single_server.c has done after some turns of its loop: every connection was served, and told to
-- the master before and after.
use nowra.Base.{
  ℕ, suc, ◌+◌, ◌≡◌, refl, sym, ap, ◌∙◌, inl, inr, Bool, Option, none, some, List, [], ◌∷◌, ◌++◌,
  ◌==◌, if◌then◌else◌, ℤ, pos, negsuc, ltb_ℤ, arith, Bool-cases, Outcome, ok, abort, undefined,
  Ensures, Ensures-ok, Ensures-abort, Ensures-if, Ensures-then, Concludes,
}
use nowra.Stringop.{basename}
use nowra.Vstring.Bytes.{append_assoc, append_nil}
use nowra.Events.{EventLoop, event_init}
use nowra.Events.Kernel.{Epoll}
use nowra.Timer.{Timers}
use nowra.Wait.{Turn}
use nowra.Wait.Called.{Calls, called, wait_forever-Called}
use nowra.Master.Table.{stat_taken, stat_avail}
use nowra.Master.Status.{Message}
use nowra.Server.{
  Accepted, connected, try_again, refused, Process, master_notify, single_server_wakeup,
  single_server_accept_inet, call_accept, server_handlers, accept_inet_fn, listen_forever, on_loop,
  with_loop, with_transport, take_options, xport_inet, single_server_main, at_start,
}

-- What the pipe gets of a message when write() returns `written`.
abbrev pub in_pipe : ℕ → (status written : ℤ) → List Message
in_pipe pid status written =
    if ltb_ℤ (pos 0) written then record { n = written; pid = pid; avail = status } ∷ [] else []

-- What the master is told of the connections, in order.
abbrev pub messages : ℕ → List Accepted → List Message
messages pid [] = []
messages pid (connected fd taken avail ∷ cs) =
    in_pipe pid stat_taken taken ++ (in_pipe pid stat_avail avail ++ messages pid cs)
messages pid (try_again ∷ cs) = messages pid cs
messages pid (refused ∷ cs) = messages pid cs

-- How many of the answers are connections.
abbrev pub connections : List Accepted → ℕ
connections [] = 0
connections (connected fd taken avail ∷ cs) = suc (connections cs)
connections (try_again ∷ cs) = connections cs
connections (refused ∷ cs) = connections cs

-- The service, called for each connection in order.
abbrev pub applied : {A : Type 0} → (ℕ → A → A) → List Accepted → A → A
applied f [] a = a
applied f (connected fd taken avail ∷ cs) a = applied f cs (f fd a)
applied f (try_again ∷ cs) a = applied f cs a
applied f (refused ∷ cs) a = applied f cs a

messages-append :
    (pid : ℕ) (cs ds : List Accepted) → messages pid (cs ++ ds) ≡ messages pid cs ++ messages pid ds
messages-append pid [] ds = refl
messages-append pid (connected fd taken avail ∷ cs) ds =
    ap (λ l. in_pipe pid stat_taken taken ++ (in_pipe pid stat_avail avail ++ l))
      (messages-append pid cs ds)
    ∙ ap (λ l. in_pipe pid stat_taken taken ++ l)
        (sym (append_assoc (in_pipe pid stat_avail avail) (messages pid cs) (messages pid ds)))
    ∙ sym (
        append_assoc (in_pipe pid stat_taken taken)
          (in_pipe pid stat_avail avail ++ messages pid cs) (messages pid ds))
messages-append pid (try_again ∷ cs) ds = messages-append pid cs ds
messages-append pid (refused ∷ cs) ds = messages-append pid cs ds

connections-append :
    (cs ds : List Accepted) → connections (cs ++ ds) ≡ connections cs + connections ds
connections-append [] ds = omega arith
connections-append (connected fd taken avail ∷ cs) ds = omega (arith, connections-append cs ds)
connections-append (try_again ∷ cs) ds = connections-append cs ds
connections-append (refused ∷ cs) ds = connections-append cs ds

applied-append :
    {A : Type 0} (f : ℕ → A → A) (cs ds : List Accepted) (a : A)
    → applied f (cs ++ ds) a ≡ applied f ds (applied f cs a)
applied-append f [] ds a = refl
applied-append f (connected fd taken avail ∷ cs) ds a = applied-append f cs ds (f fd a)
applied-append f (try_again ∷ cs) ds a = applied-append f cs ds a
applied-append f (refused ∷ cs) ds a = applied-append f cs ds a

module _ (ep : Epoll) {A : Type 0} (service : ℕ → List ℕ → List (List ℕ) → A → A)
    (same_ignoring_case : List ℕ → List ℕ → Bool) where
  abbrev Proc : Type 0
  Proc = Process ep service same_ignoring_case

  -- From one state to another, through these answers of `inet_accept`.
  pub record HasServed (cs : List Accepted) (s s' : Proc) : Type 0 where
    pub own : (s'.var_pid ≡ s.var_pid) × (s'.name ≡ s.name) × (s'.argv ≡ s.argv)
    pub told : s'.sent ≡ s.sent ++ messages s.var_pid cs
    pub done : s'.app ≡ applied (λ fd. service fd s.name s.argv) cs s.app
    pub counted : s'.use_count ≡ s.use_count + connections cs

  nothing-HasServed : (s : Proc) → HasServed [] s s
  nothing-HasServed s = record {
    own = (refl, refl, refl);
    told = sym (append_nil s.sent);
    done = refl;
    counted = omega arith;
  }

  both-HasServed :
      (cs ds : List Accepted) (s s' s'' : Proc)
      → HasServed cs s s'
      → HasServed ds s' s''
      → HasServed (cs ++ ds) s s''
  both-HasServed cs ds s s' s'' h k = record {
    own = (k.own.0 ∙ h.own.0, k.own.1 ∙ h.own.1, k.own.2 ∙ h.own.2);
    told =
        k.told
        ∙ ap (λ l. l ++ messages s'.var_pid ds) h.told
        ∙ ap (λ pid. (s.sent ++ messages s.var_pid cs) ++ messages pid ds) h.own.0
        ∙ append_assoc s.sent (messages s.var_pid cs) (messages s.var_pid ds)
        ∙ ap (λ l. s.sent ++ l) (sym (messages-append s.var_pid cs ds));
    done =
        k.done
        ∙ ap (λ (n : List ℕ). applied (λ fd. service fd n s'.argv) ds s'.app) h.own.1
        ∙ ap (λ (v : List (List ℕ)). applied (λ fd. service fd s.name v) ds s'.app) h.own.2
        ∙ ap (applied (λ fd. service fd s.name s.argv) ds) h.done
        ∙ sym (applied-append (λ fd. service fd s.name s.argv) cs ds s.app);
    counted = omega (arith, k.counted, h.counted, connections-append cs ds);
  }

  wakeup-HasServed :
      (fd : ℕ) (taken avail : ℤ) (s : Proc)
      → HasServed
          (connected fd taken avail ∷ [])
          s
          (single_server_wakeup ep service same_ignoring_case fd taken avail s)
  unfolding single_server_wakeup master_notify
  wakeup-HasServed fd taken avail s = elim (Bool-cases (ltb_ℤ (pos 0) taken)) [
    | inl first ↦ elim (Bool-cases (ltb_ℤ (pos 0) avail)) [
      | inl second ↦
          rw (first, second)
            (record {
              own = (refl, refl, refl);
              told = rw (first, second) (append_assoc s.sent _ _);
              done = refl;
              counted = omega arith;
            })
      | inr no_second ↦
          rw (first, no_second)
            (record {
              own = (refl, refl, refl);
              told = rw (first, no_second) refl;
              done = refl;
              counted = omega arith;
            })
    ]
    | inr no_first ↦ elim (Bool-cases (ltb_ℤ (pos 0) avail)) [
      | inl second ↦
          rw (no_first, second)
            (record {
              own = (refl, refl, refl);
              told = rw (no_first, second) refl;
              done = refl;
              counted = omega arith;
            })
      | inr no_second ↦
          rw (no_first, no_second)
            (record {
              own = (refl, refl, refl);
              told = rw (no_first, no_second) (sym (append_nil s.sent));
              done = refl;
              counted = omega arith;
            })
    ]
  ]

  accept-HasServed :
      (given : Accepted) (s : Proc)
      → Ensures
          (HasServed (given ∷ []) s)
          (single_server_accept_inet ep service same_ignoring_case given s)
  unfolding single_server_accept_inet
  accept-HasServed (connected fd taken avail) s =
      Ensures-ok (HasServed (connected fd taken avail ∷ []) s) _ (wakeup-HasServed fd taken avail s)
  accept-HasServed try_again s = Ensures-ok (HasServed (try_again ∷ []) s) s (record {
    own = (refl, refl, refl);
    told = sym (append_nil s.sent);
    done = refl;
    counted = omega arith;
  })
  accept-HasServed refused s = Ensures-abort (HasServed (refused ∷ []) s) _

  ready-HasServed :
      (given : Accepted) (c fd x : ℕ) (t : Timers) (s : Proc)
      → Ensures
          (λ r. HasServed (given ∷ []) s r.1)
          (call_accept ep service same_ignoring_case given c fd x (t, s))
  unfolding call_accept
  ready-HasServed given c fd x t s =
      Ensures-if _ (c == accept_inet_fn) _ _
        (Ensures-then _ (HasServed (given ∷ []) s)
          (single_server_accept_inet ep service same_ignoring_case given s) _
          (accept-HasServed given s)
          (λ s' h. Ensures-ok (λ r. HasServed (given ∷ []) s r.1) (t, s') h))
        (Ensures-abort _ undefined)

  handlers-Calls : Calls (server_handlers ep service same_ignoring_case) HasServed
  handlers-Calls = record {
    none_yet = nothing-HasServed;
    both = both-HasServed;
    timers = λ c x t s. Ensures-abort _ undefined;
    clock = λ now s. refl;
    ready = ready-HasServed;
  }

  abbrev Started : Type 0
  Started = ℤ × Timers × Proc

  -- The loop has served what `inet_accept` returned, but for the registration of its socket.
  abbrev Since : List (Turn Accepted) → Proc → Started → Type 0
  Since turns s r =
      (l : EventLoop) × (k : ep.K) × HasServed (called turns)
        (record s { event_loop = l; kernel = k }) r.2

  on_loop-Since :
      (turns : List (Turn Accepted)) (s : Proc) (r : Outcome (Bool × EventLoop × ep.K))
      → Concludes (Since turns s) (on_loop ep service same_ignoring_case turns s r)
  unfolding on_loop listen_forever
  on_loop-Since turns s (abort x) = (_, refl, Ensures-abort (Since turns s) x)
  on_loop-Since turns s (ok (done, l, k)) =
      let (o, run, h) =
        wait_forever-Called (server_handlers ep service same_ignoring_case) HasServed handlers-Calls
          turns _ in
      (o, run, λ r e. (l, k, h r e))

  with_loop-Since :
      (turns : List (Turn Accepted)) (s : Proc) (l : Option EventLoop)
      → Concludes (Since turns s) (with_loop ep service same_ignoring_case turns s l)
  unfolding with_loop
  with_loop-Since turns s none = (_, refl, Ensures-abort (Since turns s) _)
  with_loop-Since turns s (some l) = on_loop-Since turns s _

  with_transport-Since :
      (created : Bool) (turns : List (Turn Accepted)) (s : Proc) (transport : Option (List ℕ))
      → Concludes
          (Since turns s)
          (with_transport ep service same_ignoring_case created turns s transport)
  unfolding with_transport
  with_transport-Since created turns s none = (_, refl, Ensures-abort (Since turns s) _)
  with_transport-Since created turns s (some transport) =
      elim (Bool-cases (same_ignoring_case transport xport_inet)) [
        | inl inet ↦ rw inet (with_loop-Since turns s (event_init created 100))
        | inr other ↦ rw other (_, refl, Ensures-abort (Since turns s) _)
      ]

  -- What a process that was started with these arguments has done, when `inet_accept` has given these answers.
  pub record HasTold (cs : List Accepted) (pid : ℕ) (name : List ℕ) (argv : List (List ℕ)) (app : A)
      (s : Proc) : Type 0 where
    pub told : s.sent ≡ messages pid cs
    pub done : s.app ≡ applied (λ fd. service fd name argv) cs app
    pub counted : s.use_count ≡ connections cs

  -- The process comes through any number of turns of its loop, or it aborts. As long as it does not abort, the service was
  -- called for each connection that `inet_accept` returned in these turns, in order; the pipe has got, before and after each,
  -- that the process is taken and available, as far as write() wrote it, and nothing else; and the connections are counted.
  pub single_server_main-HasTold :
      (created : Bool) (argv0 : List ℕ) (options : List (ℕ × List ℕ)) (argv : List (List ℕ))
      (pid : ℕ) (k : ep.K) (app : A) (turns : List (Turn Accepted))
      → Concludes
          (λ r.
            HasTold (called turns) pid (take_options options (basename argv0) none).0 argv app r.2)
          (single_server_main ep service same_ignoring_case created argv0 options argv pid k app
            turns)
  unfolding single_server_main
  single_server_main-HasTold created argv0 options argv pid k app turns =
      let (name, transport) = take_options options (basename argv0) none in
      let (o, run, h) =
        with_transport-Since created turns
          (at_start ep service same_ignoring_case
            (record { maxfd = negsuc 0; size = 0; reg_events = [] }) k pid name argv app)
          transport in
      (
        o,
        run,
        λ r e.
            let (l', k', served) = h r e in
            record {
              told = served.told;
              done = served.done;
              counted = omega (arith, served.counted);
            },
      )
