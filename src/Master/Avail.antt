-- ===== src/Master/Avail.antt =====
-- `master_avail_more` and `master_avail_less` of src/master/master_avail.c move the count of available
-- children with the entry of the child table.
use nowra.Base.{
  ℕ, ◌+◌, ◌-◌, ◌<◌, ◌≡◌, refl, true, false, Option, some, arith, ==_refl, pos, decr-pos, eqb_ℤ,
  Returns,
}
use nowra.Events.Kernel.{Epoll}
use nowra.Master.Table.{Proc, ChildTable, stat_taken, stat_avail}
use nowra.Master.{
  Serv, World, put_serv, put_proc, store_in, find_in, master_avail_listen, master_avail_more,
  master_avail_less,
}
use nowra.Master.Listening.{is_nonneg, Listened, master_avail_listen-Listened}
use nowra.Master.Counts.{
  Counts-update, Counts-SameButFlags, relisten-SameButFlags, at, has_odd_status, IsCounted,
  store_in-IsValid, load-store_in,
}

module _ (ep : Epoll) (ct : ChildTable) where
  -- A step that leaves the state counted as `T'` and `A'`, and the table `tb`.
  abbrev pub Leaves : (T' A' : ℕ → ℕ) → Option ct.T → World ep ct → Type 0
  Leaves T' A' tb w = IsCounted ep ct T' A' w × (w.child_table ≡ tb)

  Listened-Leaves :
      {T' A' : ℕ → ℕ} (s : ℕ) (w w' : World ep ct)
      → IsCounted ep ct T' A' w
      → Listened ep ct s w w'
      → Leaves T' A' w.child_table w'
  Listened-Leaves s w w' c h =
      let open_rest = h.rest in
      (
        record {
          sized = open_rest.sized c.sized;
          table = rw open_rest.child_table c.table;
          statuses = rw open_rest.child_table c.statuses;
          timers = rw open_rest.timers c.timers;
          clock = rw open_rest.clock c.clock;
          counts = Counts-SameButFlags (relisten-SameButFlags w.servs w'.servs s h.servs) c.counts;
        },
        open_rest.child_table,
      )

  pub avail_listen-Leaves :
      {T' A' : ℕ → ℕ} (s : ℕ) (w : World ep ct)
      → IsCounted ep ct T' A' w
      → is_nonneg (w.servs s).listen_fd ≡ true
      → Returns (master_avail_listen ep ct s w) (Leaves T' A' w.child_table)
  avail_listen-Leaves s w c open_fd =
      let (w', run, h) = master_avail_listen-Listened ep ct w c.sized s open_fd in
      (w', run, Listened-Leaves s w w' c h)

  -- A child's entry written with a status that is not odd, and a service written with its counts.
  write-IsCounted :
      {T A : ℕ → ℕ} (s t a : ℕ) (w : World ep ct) (v : Serv) (p old : Proc)
      → IsCounted ep ct T A w
      → find_in ep ct p.pid w.child_table ≡ some old
      → has_odd_status p ≡ 0
      → v.total_proc ≡ pos t
      → v.avail_proc ≡ pos a
      → v.throttle_delay ≡ (w.servs s).throttle_delay
      → v.listen_fd ≡ (w.servs s).listen_fd
      → is_nonneg (w.servs s).listen_fd ≡ true
      → IsCounted ep ct (at s t T) (at s a A) (put_proc ep ct p (put_serv ep ct s v w))
  write-IsCounted s t a w v p old c e even total avail delay fd open_fd = record {
    sized = c.sized;
    table = store_in-IsValid ep ct p w.child_table c.table;
    statuses =
        omega (arith, c.statuses, load-store_in ep ct p old has_odd_status w.child_table c.table e);
    timers = c.timers;
    clock = c.clock;
    counts = Counts-update w.servs s t a v c.counts total avail delay fd open_fd;
  }

  module _ {T A : ℕ → ℕ} (s : ℕ) (p old : Proc) (w : World ep ct) (c : IsCounted ep ct T A w)
      (e : find_in ep ct p.pid w.child_table ≡ some old)
      (open_fd : is_nonneg (w.servs s).listen_fd ≡ true) where
    pub avail_more-Leaves :
        eqb_ℤ p.avail stat_avail ≡ false
        → Returns (master_avail_more ep ct s p w) (
            Leaves
              (at s (T s) T)
              (at s (A s + 1) A)
              (store_in ep ct (record p { avail = stat_avail }) w.child_table))
    unfolding master_avail_more
    avail_more-Leaves taken = rw taken (
        avail_listen-Leaves s _
          (write-IsCounted s (T s) (A s + 1) w _ (record p { avail = stat_avail }) old c e refl
            (c.counts.totals s) (rw (c.counts.avails s)) refl refl open_fd)
          (rw ==_refl open_fd))

    pub avail_less-Leaves :
        eqb_ℤ p.avail stat_avail ≡ true
        → 0 < A s
        → Returns (master_avail_less ep ct s p w) (
            Leaves
              (at s (T s) T)
              (at s (A s - 1) A)
              (store_in ep ct (record p { avail = stat_taken }) w.child_table))
    unfolding master_avail_less
    avail_less-Leaves idle some_idle = rw idle (
        avail_listen-Leaves s _
          (write-IsCounted s (T s) (A s - 1) w _ (record p { avail = stat_taken }) old c e refl
            (c.counts.totals s) (rw (c.counts.avails s) (decr-pos (A s) some_idle)) refl refl
            open_fd)
          (rw ==_refl open_fd))
