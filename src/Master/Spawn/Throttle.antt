-- ===== src/Master/Spawn/Throttle.antt =====
-- `master_throttle` and `master_unthrottle` of src/master/master_spawn.c leave the bookkeeping right,
-- and keep the timer that ends the throttling.
use nowra.Base.{ℕ, ◌≡◌, refl, true, ==_refl, pos, Bool-cases, inl, inr, ok, Returns}
use nowra.Events.Kernel.{Epoll}
use nowra.Timer.{Timers, event_request_timer}
use nowra.Timer.Request.{IsValid, event_request_timer-Requested, event_cancel_timer-Cancelled}
use nowra.Master.Table.{ChildTable}
use nowra.Master.{Flags, World, set_flags, master_unthrottle_wrapper}
use nowra.Master.Listening.{is_nonneg, nonneg-pos}
use nowra.Master.Counts.{IsCounted, reflagged}
use nowra.Master.Avail.{Leaves, avail_listen-Leaves}
use nowra.Master.Spawn.{master_throttle, master_unthrottle}

module _ (ep : Epoll) (ct : ChildTable) {T A : ℕ → ℕ} (s : ℕ) (w : World ep ct)
    (c : IsCounted ep ct T A w) where
  retimed :
      (f : Flags) (t : Timers)
      → IsValid t
      → IsCounted ep ct T A (record (set_flags ep ct s f w) { timers = t })
  retimed f t v =
      let r = reflagged ep ct w s f c in
      record {
        sized = r.sized;
        table = r.table;
        statuses = r.statuses;
        timers = v;
        clock = r.clock;
        counts = r.counts;
      }

  throttle_at :
      (d : ℕ)
      → (w.servs s).throttle_delay ≡ pos d
      → Returns (master_throttle ep ct s w) (Leaves ep ct T A w.child_table)
  unfolding master_throttle
  throttle_at d e = elim (Bool-cases (w.servs s).flags.throttle) [
    | inl on ↦ rw on (w, refl, (c, refl))
    | inr off ↦
        let (r, run, h) =
          event_request_timer-Requested master_unthrottle_wrapper s w.clock w.timers c.timers d in
        let run' : event_request_timer master_unthrottle_wrapper s (w.servs s).throttle_delay
              w.clock w.timers
            ≡ ok r =
          rw e run in
        rw (off, run') (_, refl, (retimed _ r.1 (h.valid c.clock), refl))
  ]

  pub throttle-Leaves : Returns (master_throttle ep ct s w) (Leaves ep ct T A w.child_table)
  throttle-Leaves =
      let (d, e) = nonneg-pos (w.servs s).throttle_delay (c.counts.delays s) in throttle_at d e

  pub unthrottle-Leaves :
      is_nonneg (w.servs s).listen_fd ≡ true
      → Returns (master_unthrottle ep ct s w) (Leaves ep ct T A w.child_table)
  unfolding master_unthrottle
  unthrottle-Leaves open_fd = elim (Bool-cases (w.servs s).flags.throttle) [
    | inr off ↦ rw off (w, refl, (c, refl))
    | inl on ↦
        let h =
          event_cancel_timer-Cancelled master_unthrottle_wrapper s w.clock w.timers c.timers in
        rw on (avail_listen-Leaves ep ct s _ (retimed _ _ (h.valid c.clock)) (rw ==_refl open_fd))
  ]
