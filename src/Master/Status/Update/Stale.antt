-- ===== src/Master/Status/Update/Stale.antt =====
-- What src/master/master_avail.c does for a connection that was reported in the same wait as the end of the service of
-- another: `event_wait` calls `master_avail_event` for it although the listen socket is no longer waited for.
use nowra.Base.{
  Returns, Ensures-ok, Ensures-then, incr, ℕ, ◌≤◌, ◌≡◌, refl, ap, ◌∙◌, Bool, true, false, Option,
  some, arith, ◌==◌, ==_refl, ℤ, pos, ltb_ℤ, eqb_ℤ, abort, panic, Ensures, Ensures-if,
  Ensures-abort,
}
use nowra.Events.{event_disable_rw, event_read}
use nowra.Events.Kernel.{Epoll}
use nowra.Events.Stays.{IsCalled, event_disable_rw-IsCalled}
use nowra.Master.Table.{Proc, ChildTable, stat_taken, stat_avail}
use nowra.Master.{
  master_avail_listen, stop_listening, disable_read, master_avail_event_fn, Serv, World, find_in,
  limit_ok, listen_flag, master_avail_more,
}
use nowra.Master.Keeps.{each, update-view, IsBlind, Keeps, master_avail_listen-Keeps}
use nowra.Master.Counts.{is_idle_child_of, load, IsConsistent}
use nowra.Master.Spawn.{master_spawn, master_avail_event}
use nowra.Master.Spawn.Delete.{find_in-le}
use nowra.Master.Status.{Message, take_status, update_status, master_status_event}
use nowra.Master.Status.Told.{told, Told}
use nowra.Master.Status.Update.{take_status-Told_avail}

-- What `master_spawn` looks at, but for the available children.
abbrev guards : Serv → Bool × ℤ × ℕ
guards v = (v.flags.throttle, v.total_proc, v.max_proc)

wanted-guards :
    (v : Serv)
    → listen_flag v ≡ true
    → (v.flags.throttle ≡ false) × (limit_ok v.max_proc v.total_proc ≡ true)
unfolding listen_flag
wanted-guards v h = ground arith

module _ (ep : Epoll) (ct : ChildTable) where
  abbrev all_guards : World ep ct → ℕ → Bool × ℤ × ℕ
  all_guards w = each guards w.servs

  guards-IsBlind : IsBlind ep ct all_guards
  guards-IsBlind = record {
    on_loop = λ w l k. refl;
    on_flags = λ w s b. update-view guards w.servs s _ refl;
  }

  module _ (p : Proc) (w : World ep ct) (c : IsConsistent ep ct w)
      (e : find_in ep ct p.pid w.child_table ≡ some p) where
    take_status-guards :
        Ensures (Keeps ep ct all_guards w) (take_status ep ct p.serv p stat_avail w)
    unfolding take_status master_avail_more
    take_status-guards =
        Ensures-if (Keeps ep ct all_guards w) (eqb_ℤ p.avail stat_avail) _ _
          (Ensures-abort (Keeps ep ct all_guards w) _)
          (λ w' run.
            master_avail_listen-Keeps ep ct all_guards guards-IsBlind p.serv _ w' run
            ∙ update-view guards w.servs p.serv _ refl)

    -- A service that was listened for is not throttled and below its limit after the child told.
    still_wanted :
        (w' : World ep ct)
        → listen_flag (w.servs p.serv) ≡ true
        → all_guards w' ≡ all_guards w
        → ((w'.servs p.serv).flags.throttle ≡ false)
          × (limit_ok (w'.servs p.serv).max_proc (w'.servs p.serv).total_proc ≡ true)
    still_wanted w' wanted same =
        let at = ap (λ (f : ℕ → Bool × ℤ × ℕ). f p.serv) same in
        let (awake, room) = wanted-guards (w.servs p.serv) wanted in
        (
          ap (λ (g : Bool × ℤ × ℕ). g.0) at ∙ awake,
          ap (λ (g : Bool × ℤ × ℕ). limit_ok g.2 g.1) at ∙ room,
        )

    -- The child that told is counted.
    now_available :
        (w' : World ep ct)
        → Told ep ct p w stat_avail w'
        → ltb_ℤ (pos 0) (w'.servs p.serv).avail_proc ≡ true
    now_available w' (c', found, moved) =
        let le =
          find_in-le ep ct w'.child_table p.pid (told p stat_avail) (is_idle_child_of p.serv)
            c'.table found in
        let one : 1 ≤ load ep ct (is_idle_child_of p.serv) w'.child_table = rw ==_refl at le in
        rw (c'.counts.avails p.serv) (ground arith)

    refused :
        (event : ℕ) (forked : Option ℕ) (w' : World ep ct)
        → (event == 0) ≡ false
        → listen_flag (w.servs p.serv) ≡ true
        → all_guards w' ≡ all_guards w
        → Told ep ct p w stat_avail w'
        → master_avail_event ep ct event forked p.serv w'
          ≡ abort (panic "%s: processes available: %d")
    unfolding master_avail_event master_spawn
    refused event forked w' nonzero wanted same t =
        let (awake, room) = still_wanted w' wanted same in
        rw (nonzero, awake, room, now_available w' t) refl

    -- What `event_wait` calls for a descriptor below the highest one that is watched.
    abbrev Called : ℕ → World ep ct → Type 0
    Called fd w' = IsCalled fd master_avail_event_fn p.serv w'.event_loop

    module _ (fd : ℕ) (listen : (w.servs p.serv).listen_fd ≡ pos fd) (called : Called fd w)
        (lower : ltb_ℤ (pos fd) w.event_loop.maxfd ≡ true) where
      enough : (v : Serv) → ltb_ℤ (pos 0) v.avail_proc ≡ true → listen_flag v ≡ false
      unfolding listen_flag
      enough v h = ground arith

      one_more : ltb_ℤ (pos 0) (incr (w.servs p.serv).avail_proc) ≡ true
      one_more = rw (c.counts.avails p.serv) (ground arith)

      avail_listen-Called :
          (w1 : World ep ct)
          → w1.event_loop ≡ w.event_loop
          → (w1.servs p.serv).listen_fd ≡ pos fd
          → listen_flag (w1.servs p.serv) ≡ false
          → Ensures (Called fd) (master_avail_listen ep ct p.serv w1)
      unfolding master_avail_listen stop_listening disable_read
      avail_listen-Called w1 same listen1 off = rw off (
          Ensures-if (Called fd) (w1.servs p.serv).flags.listen _ _
            (rw (listen1, same)
              (Ensures-then (Called fd) (Called fd) _ _
                (Ensures-then (Called fd) (λ r. IsCalled fd master_avail_event_fn p.serv r.1)
                  (event_disable_rw ep (some w.event_loop) w1.kernel (pos fd) event_read) _
                  (event_disable_rw-IsCalled ep w.event_loop w1.kernel fd master_avail_event_fn
                    p.serv event_read called lower)
                  (λ r h. Ensures-ok (Called fd) (record w1 { event_loop = r.1; kernel = r.2 }) h))
                (λ w2 h. Ensures-ok (Called fd) _ h)))
            (Ensures-ok (Called fd) w1 (rw same called)))

      take_status-Called : Ensures (Called fd) (take_status ep ct p.serv p stat_avail w)
      unfolding take_status master_avail_more
      take_status-Called =
          Ensures-if (Called fd) (eqb_ℤ p.avail stat_avail) _ _ (Ensures-abort (Called fd) _)
            (avail_listen-Called _ refl (rw ==_refl listen) (rw ==_refl (enough _ one_more)))

      -- The status event of the child, and what it leaves.
      pub told_first :
          (event : ℕ) (m : Message)
          → (event == 0) ≡ false
          → m.n ≡ pos 8
          → m.pid ≡ p.pid
          → m.avail ≡ stat_avail
          → p.avail ≡ stat_taken
          → listen_flag (w.servs p.serv) ≡ true
          → Returns (master_status_event ep ct event m p.serv w) (λ w'.
            Called fd w'
            × ((event' : ℕ) (forked : Option ℕ)
                → (event' == 0) ≡ false
                → master_avail_event ep ct event' forked p.serv w'
                  ≡ abort (panic "%s: processes available: %d")))
      unfolding master_status_event update_status
      told_first event m nonzero whole same_pid avail taken wanted =
          let off : eqb_ℤ p.avail stat_avail ≡ false = ap (λ a. eqb_ℤ a stat_avail) taken in
          let (w', run, t) = take_status-Told_avail ep ct p w c e taken in
          rw (nonzero, whole, same_pid, e, ==_refl, avail, off)
            (
              w',
              run,
              (
                take_status-Called w' run,
                λ event' forked nonzero'.
                    refused event' forked w' nonzero' wanted (take_status-guards w' run) t,
              ),
            )
