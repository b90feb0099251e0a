-- ===== src/Master/Spawn/Delete.antt =====
-- `master_delete_child` of src/master/master_spawn.c: a child is taken out of the table and out of the counts.
use nowra.Base.{
  ℕ, ◌+◌, ◌-◌, ◌<◌, ◌≤◌, ◌≡◌, refl, Bool, true, false, ◌&&◌, Option, none, some, arith, ◌==◌,
  if◌then◌else◌, ==_refl, pos, decr, decr-pos, ltb_ℤ, eqb_ℤ, to_nat, Bool-cases, inl, inr, ok,
  Returns,
}
use nowra.Events.Kernel.{Epoll}
use nowra.Master.Table.{Proc, ChildTable, stat_taken, stat_avail}
use nowra.Master.{World, put_serv, find_in, limit_ok, master_avail_listen, master_avail_less}
use nowra.Master.Listening.{is_nonneg}
use nowra.Master.Counts.{
  Counts-cong, Counts-update, at, is_child_of, is_idle_child_of, has_odd_status, load, TableIsValid,
  IsCounted, IsConsistent, load-store_in, find_in-store_in,
}
use nowra.Master.Avail.{avail_listen-Leaves, avail_less-Leaves}
use nowra.Master.Spawn.{uncount, delete_in, master_delete_child}

-- One child less at `s`, after one more write there.
less_once : (s : ℕ) (f : ℕ → ℕ) (r : ℕ) → at s (f s - 1) f r ≡ f r - to_nat (s == r)
less_once s f r = elim (Bool-cases (s == r)) [
  | inl same ↦ let e : s ≡ r = ground arith in rw (same, e)
  | inr other ↦ rw other (omega arith)
]

less_kept :
    (s : ℕ) (f : ℕ → ℕ) (r : ℕ)
    → at s (at s (f s - 1) f s) (at s (f s - 1) f) r ≡ f r - to_nat (s == r)
less_kept s f r = elim (Bool-cases (s == r)) [
  | inl same ↦ let e : s ≡ r = ground arith in rw (same, ==_refl, e)
  | inr other ↦ rw other (omega arith)
]

kept_less :
    (s : ℕ) (b : Bool) (f : ℕ → ℕ) (r : ℕ)
    → b ≡ true
    → at s (at s (f s) f s - 1) (at s (f s) f) r ≡ f r - to_nat (s == r && b)
kept_less s b f r h = elim (Bool-cases (s == r)) [
  | inl same ↦ let e : s ≡ r = ground arith in rw (same, ==_refl, h, e)
  | inr other ↦ rw other (omega arith)
]

kept_once :
    (s : ℕ) (b : Bool) (f : ℕ → ℕ) (r : ℕ) → b ≡ false → at s (f s) f r ≡ f r - to_nat (s == r && b)
kept_once s b f r h = elim (Bool-cases (s == r)) [
  | inl same ↦ let e : s ≡ r = ground arith in rw (same, h, e) (omega arith)
  | inr other ↦ rw other (omega arith)
]

kept_pos :
    (s : ℕ) (b : Bool) (f : ℕ → ℕ) → b ≡ true → to_nat (s == s && b) ≤ f s → 0 < at s (f s) f s
kept_pos s b f h le = let le' : 1 ≤ f s = rw (==_refl, h) at le in rw ==_refl le'

module _ (ep : Epoll) (ct : ChildTable) where
  -- `binhash_delete` of a child that is in the table.
  delete_in-removes :
      (tb : Option ct.T) (pid : ℕ) (p : Proc)
      → TableIsValid ep ct tb
      → find_in ep ct pid tb ≡ some p
      → Returns (delete_in ep ct pid tb) (λ tb'.
        TableIsValid ep ct tb' × ((f : Proc → ℕ) → load ep ct f tb' + f p ≡ load ep ct f tb))
  unfolding delete_in TableIsValid find_in load
  delete_in-removes none pid p v e = cc
  delete_in-removes (some t) pid p v e =
      let (t', run, (v', less)) = ct.delete-removes t pid p v e in (some t', rw run, (v', less))

  pub find_in-le :
      (tb : Option ct.T) (pid : ℕ) (p : Proc) (f : Proc → ℕ)
      → TableIsValid ep ct tb
      → find_in ep ct pid tb ≡ some p
      → f p ≤ load ep ct f tb
  find_in-le tb pid p f v e =
      let (tb', run, (v', less)) = delete_in-removes tb pid p v e in omega (arith, less f)

  module _ (p : Proc) (w : World ep ct) (c : IsConsistent ep ct w)
      (e : find_in ep ct p.pid w.child_table ≡ some p) where
    abbrev total_now : ℕ → ℕ
    total_now r = load ep ct (is_child_of r) w.child_table

    abbrev idle_now : ℕ → ℕ
    idle_now r = load ep ct (is_idle_child_of r) w.child_table

    some_total : 0 < total_now p.serv
    some_total =
        let le = find_in-le w.child_table p.pid p (is_child_of p.serv) c.table e in ground arith

    open_fd : is_nonneg (w.servs p.serv).listen_fd ≡ true
    open_fd = c.counts.opened p.serv some_total

    recut :
        {T A T' A' : ℕ → ℕ} (w' : World ep ct)
        → IsCounted ep ct T A w'
        → ((r : ℕ) → T r ≡ T' r)
        → ((r : ℕ) → A r ≡ A' r)
        → IsCounted ep ct T' A' w'
    recut w' i t a = record {
      sized = i.sized;
      table = i.table;
      statuses = i.statuses;
      timers = i.timers;
      clock = i.clock;
      counts = Counts-cong i.counts t a;
    }

    abbrev fewer : World ep ct
    fewer =
        let v = w.servs p.serv in
        put_serv ep ct p.serv (record v { total_proc = decr v.total_proc }) w

    fewer-IsCounted :
        IsCounted ep ct
          (at p.serv (total_now p.serv - 1) total_now)
          (at p.serv (idle_now p.serv) idle_now)
          fewer
    fewer-IsCounted = record {
      sized = c.sized;
      table = c.table;
      statuses = c.statuses;
      timers = c.timers;
      clock = c.clock;
      counts =
          Counts-update w.servs p.serv (total_now p.serv - 1) (idle_now p.serv) _ c.counts
            (rw (c.counts.totals p.serv) (decr-pos (total_now p.serv) some_total))
            (c.counts.avails p.serv) refl refl open_fd;
    }

    -- The state that `uncount` leaves: the counts are without the child, whose entry is still there,
    -- as `q`.
    abbrev Uncounted : Proc → World ep ct → Type 0
    Uncounted q w' =
        IsCounted ep ct (λ r. total_now r - is_child_of r p)
          (λ r. idle_now r - is_idle_child_of r p) w'
        × (find_in ep ct p.pid w'.child_table ≡ some q)
        × ((f : Proc → ℕ) → load ep ct f w'.child_table + f p ≡ load ep ct f w.child_table + f q)

    uncount_idle_run :
        eqb_ℤ p.avail stat_avail ≡ true → uncount ep ct p w ≡ master_avail_less ep ct p.serv p fewer
    unfolding uncount
    uncount_idle_run idle = rw idle

    uncount_taken_run :
        (b : Bool)
        → eqb_ℤ p.avail stat_avail ≡ false
        → (limit_ok (w.servs p.serv).max_proc (decr (w.servs p.serv).total_proc)
            && ltb_ℤ (w.servs p.serv).avail_proc (pos 1))
          ≡ b
        → uncount ep ct p w ≡ (if b then master_avail_listen ep ct p.serv fewer else ok fewer)
    unfolding uncount
    uncount_taken_run b taken h = rw (taken, h)

    uncount-idle :
        eqb_ℤ p.avail stat_avail ≡ true
        → Returns (uncount ep ct p w) (Uncounted (record p { avail = stat_taken }))
    uncount-idle idle =
        let q = record p { avail = stat_taken } in
        let le = find_in-le w.child_table p.pid p (is_idle_child_of p.serv) c.table e in
        let (w', run, (c', tb)) =
          avail_less-Leaves ep ct p.serv p p fewer fewer-IsCounted e (rw ==_refl open_fd) idle
            (kept_pos p.serv (eqb_ℤ p.avail stat_avail) idle_now idle le) in
        rw (uncount_idle_run idle) (
          w',
          run,
          (
            recut w' c' (less_kept p.serv total_now)
                (λ r. kept_less p.serv (eqb_ℤ p.avail stat_avail) idle_now r idle),
            rw tb (find_in-store_in ep ct q p w.child_table c.table e),
            λ f. rw tb (load-store_in ep ct q p f w.child_table c.table e),
          ),
        )

    uncount-taken : eqb_ℤ p.avail stat_avail ≡ false → Returns (uncount ep ct p w) (Uncounted p)
    uncount-taken taken =
        let c' =
          recut fewer fewer-IsCounted (less_once p.serv total_now)
            (λ r. kept_once p.serv (eqb_ℤ p.avail stat_avail) idle_now r taken) in
        let (w', run, (c'', tb)) = avail_listen-Leaves ep ct p.serv fewer c' (rw ==_refl open_fd) in
        let v = w.servs p.serv in
        elim (Bool-cases (limit_ok v.max_proc (decr v.total_proc) && ltb_ℤ v.avail_proc (pos 1))) [
          | inl wanted ↦
              rw (uncount_taken_run true taken wanted) (w', run, (c'', rw tb e, λ f. rw tb refl))
          | inr unwanted ↦
              rw (uncount_taken_run false taken unwanted) (fewer, refl, (c', e, λ f. refl))
        ]

    uncount-Uncounted :
        Returns
          (uncount ep ct p w)
          λ w'. (q : Proc) × (q.pid ≡ p.pid) × (has_odd_status q ≡ 0) × Uncounted q w'
    uncount-Uncounted = elim (Bool-cases (eqb_ℤ p.avail stat_avail)) [
      | inl idle ↦
          let (w', run, u) = uncount-idle idle in
          (w', run, (record p { avail = stat_taken }, refl, refl, u))
      | inr taken ↦
          let (w', run, u) = uncount-taken taken in
          let even = find_in-le w.child_table p.pid p has_odd_status c.table e in
          (w', run, (p, refl, omega (arith, even, c.statuses), u))
    ]

    -- A child that is in the table, with its entry, is deleted: the bookkeeping is right without it, and
    -- every weight of the table is less by that of the child, so that the table holds the others as
    -- they were.
    pub master_delete_child-IsConsistent : Returns (master_delete_child ep ct p w) λ w'.
        IsConsistent ep ct w'
        × ((f : Proc → ℕ) → load ep ct f w'.child_table + f p ≡ load ep ct f w.child_table)
    unfolding master_delete_child
    master_delete_child-IsConsistent =
        let (w', run, (q, same, even, (c', found, moved))) = uncount-Uncounted in
        let (tb, run', (v, less)) = delete_in-removes w'.child_table p.pid q c'.table found in
        let gone : (f : Proc → ℕ) → load ep ct f tb + f p ≡ load ep ct f w.child_table =
          λ f. omega (arith, less f, moved f) in
        rw (run, run')
          (
            record w' { child_table = tb },
            refl,
            (
              record {
                sized = c'.sized;
                table = v;
                statuses = omega (arith, less has_odd_status, c'.statuses);
                timers = c'.timers;
                clock = c'.clock;
                counts =
                    Counts-cong c'.counts (λ r. omega (arith, gone (is_child_of r)))
                      (λ r. omega (arith, gone (is_idle_child_of r)));
              },
              gone,
            ),
          )
