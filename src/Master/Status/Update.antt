-- ===== src/Master/Status/Update.antt =====
-- `master_status_event` of src/master/master_status.c keeps the bookkeeping right.
pub mod Exact
pub mod Stale
use nowra.Base.{
  ℕ, ◌+◌, ◌<◌, ◌≤◌, ◌≡◌, ◌⊎◌, refl, sym, ap, subst, ◌∙◌, true, false, ◌||◌, some, arith, ◌==◌,
  ==_refl, ℤ, pos, negsuc, eqb_ℤ, Bool-cases, Option-cases, inl, inr, abort, panic, Returns,
}
use nowra.Events.Kernel.{Epoll}
use nowra.Master.Table.{Proc, ChildTable, stat_taken, stat_avail}
use nowra.Master.{World, put_proc, store_in, find_in}
use nowra.Master.Listening.{is_nonneg}
use nowra.Master.Counts.{
  is_child_of, is_idle_child_of, has_odd_status, load, IsCounted, IsConsistent, find_in-pid,
  recounted, load-store_in, find_in-store_in, store_in-IsValid,
}
use nowra.Master.Avail.{avail_more-Leaves, avail_less-Leaves}
use nowra.Master.Spawn.Delete.{find_in-le}
use nowra.Master.Status.{Message, take_status, update_status, master_status_event}
use nowra.Master.Status.Told.{one_more, one_less, as_many, told, Told, Differs, is_odd, differs}

module _ (ep : Epoll) (ct : ChildTable) (p : Proc) (w : World ep ct) (c : IsConsistent ep ct w)
    (e : find_in ep ct p.pid w.child_table ≡ some p) where
  abbrev total_now : ℕ → ℕ
  total_now r = load ep ct (is_child_of r) w.child_table

  abbrev idle_now : ℕ → ℕ
  idle_now r = load ep ct (is_idle_child_of r) w.child_table

  total_pos : 0 < load ep ct (is_child_of p.serv) w.child_table
  total_pos =
      let le = find_in-le ep ct w.child_table p.pid p (is_child_of p.serv) c.table e in
      let le' : 1 ≤ load ep ct (is_child_of p.serv) w.child_table = rw ==_refl at le in le'

  open_fd : is_nonneg (w.servs p.serv).listen_fd ≡ true
  open_fd = c.counts.opened p.serv total_pos

  abbrev used : Proc
  used = record p { use_count = p.use_count + 1 }

  load-used :
      (f : Proc → ℕ)
      → load ep ct f (store_in ep ct used w.child_table) + f p ≡ load ep ct f w.child_table + f used
  load-used f = load-store_in ep ct used p f w.child_table c.table e

  used-IsCounted :
      IsCounted ep ct
        (λ r. load ep ct (is_child_of r) w.child_table)
        (λ r. load ep ct (is_idle_child_of r) w.child_table)
        (put_proc ep ct used w)
  used-IsCounted = record {
    sized = c.sized;
    table = store_in-IsValid ep ct used w.child_table c.table;
    statuses = omega (arith, load-used has_odd_status, c.statuses);
    timers = c.timers;
    clock = c.clock;
    counts = c.counts;
  }

  take_status-Told_avail :
      p.avail ≡ stat_taken
      → Returns (take_status ep ct p.serv p stat_avail w) (Told ep ct p w stat_avail)
  unfolding take_status
  take_status-Told_avail h =
      let found = find_in-store_in ep ct used p w.child_table c.table e in
      let (w', run, (c', tb)) =
        avail_more-Leaves ep ct p.serv used used (put_proc ep ct used w) used-IsCounted found
          open_fd (rw h refl) in
      let moved : (f : Proc → ℕ)
          → load ep ct f w'.child_table + f p ≡ load ep ct f w.child_table + f (told p stat_avail) =
        λ f. rw tb (
          let l = load-store_in ep ct (told p stat_avail) used f _ used-IsCounted.table found in
          omega (arith, l, load-used f)) in
      (
        w',
        run,
        (
          recounted ep ct w' c' (λ r. as_many p.serv r total_now _ (moved (is_child_of r)))
              (λ r.
                one_more p.serv r (eqb_ℤ p.avail stat_avail) idle_now _ (rw h refl)
                  (moved (is_idle_child_of r))),
          rw tb (find_in-store_in ep ct (told p stat_avail) used _ used-IsCounted.table found),
          moved,
        ),
      )

  take_status-Told_taken :
      p.avail ≡ stat_avail
      → Returns (take_status ep ct p.serv p stat_taken w) (Told ep ct p w stat_taken)
  unfolding take_status
  take_status-Told_taken h =
      let some_idle : 0 < load ep ct (is_idle_child_of p.serv) w.child_table =
        let le = find_in-le ep ct w.child_table p.pid p (is_idle_child_of p.serv) c.table e in
        let le' : 1 ≤ load ep ct (is_idle_child_of p.serv) w.child_table = rw (==_refl, h) at le in
        le' in
      let (w', run, (c', tb)) =
        avail_less-Leaves ep ct p.serv p p w c e open_fd (rw h refl) some_idle in
      let moved : (f : Proc → ℕ)
          → load ep ct f w'.child_table + f p ≡ load ep ct f w.child_table + f (told p stat_taken) =
        λ f. rw tb (load-store_in ep ct (told p stat_taken) p f w.child_table c.table e) in
      (
        w',
        run,
        (
          recounted ep ct w' c' (λ r. as_many p.serv r total_now _ (moved (is_child_of r)))
              (λ r.
                one_less p.serv r (eqb_ℤ p.avail stat_avail) idle_now _ (rw h refl)
                  (moved (is_idle_child_of r))),
          rw tb (find_in-store_in ep ct (told p stat_taken) p w.child_table c.table e),
          moved,
        ),
      )

  abbrev Acted : ℤ → World ep ct → Type 0
  Acted a w' = (w' ≡ w) ⊎ Told ep ct p w a w'

  take_status-Acted :
      (a : ℤ) → eqb_ℤ p.avail a ≡ false → Returns (take_status ep ct p.serv p a w) (Acted a)
  unfolding take_status Differs is_odd
  take_status-Acted a other =
      let even : has_odd_status p ≡ 0 =
        let le = find_in-le ep ct w.child_table p.pid p has_odd_status c.table e in
        omega (arith, c.statuses) in
      elim (differs p.avail a even other) [
        | inl (a_is, z_is) ↦
            let (w', run, h) = take_status-Told_avail z_is in
            subst (λ x. Returns (take_status ep ct p.serv p x w) (Acted x)) (sym a_is)
              (w', run, inr h)
        | inr (inl (a_is, z_is)) ↦
            let (w', run, h) = take_status-Told_taken z_is in
            subst (λ x. Returns (take_status ep ct p.serv p x w) (Acted x)) (sym a_is)
              (w', run, inr h)
        | inr (inr (not_idle, not_taken)) ↦ rw (not_idle, not_taken) (w, refl, inl refl)
      ]

  update_status-Acted :
      (s : ℕ) (a : ℤ) → p.serv ≡ s → Returns (update_status ep ct s (some p) a w) (Acted a)
  unfolding update_status
  update_status-Acted s a mine =
      subst (λ x. Returns (update_status ep ct x (some p) a w) (Acted a)) mine
        (elim (Bool-cases (eqb_ℤ p.avail a)) [
          | inl same ↦ rw (==_refl, same) (w, refl, inl refl)
          | inr other ↦ rw (==_refl, other) (take_status-Acted a other)
        ])

module _ (ep : Epoll) (ct : ChildTable) where
  known_child :
      (p : Proc) (w : World ep ct) (pid s : ℕ) (a : ℤ)
      → IsConsistent ep ct w
      → find_in ep ct pid w.child_table ≡ some p
      → Returns
          (update_status ep ct s (some p) a w)
          (λ w'. IsConsistent ep ct w' × (p.serv ≡ s) × ((w' ≡ w) ⊎ Told ep ct p w a w'))
        ⊎ (((p.serv == s) ≡ false)
            × (update_status ep ct s (some p) a w
                ≡ abort (panic "%s: pointer corruption: %p != %p")))
  unfolding update_status
  known_child p w pid s a c e = elim (Bool-cases (p.serv == s)) [
    | inr other ↦ rw other (inr (refl, refl))
    | inl same ↦
        let mine : p.serv ≡ s = ground arith in
        let key = find_in-pid ep ct w.child_table pid p c.table e in
        let (w', run, acted) =
          update_status-Acted ep ct p w c (ap (λ k. find_in ep ct k w.child_table) key ∙ e) s a
            mine in
        inl (
          w',
          run,
          (
            elim acted [
              | inl kept ↦ subst (IsConsistent ep ct) (sym kept) c
              | inr told_it ↦ told_it.0
            ],
            mine,
            acted,
          ),
        )
  ]

  -- When the pipe of service `s` is readable and its message is read, the master either panics, on the end of the file or on a child that is not of this service, or it returns with the bookkeeping right: nothing has changed, or exactly the entry of the child is as it told.
  pub master_status_event-IsConsistent :
      (event s : ℕ) (m : Message) (w : World ep ct)
      → IsConsistent ep ct w
      → Returns (master_status_event ep ct event m s w) (λ w'.
        IsConsistent ep ct w'
        × ((w' ≡ w)
            ⊎ ((p : Proc) × (find_in ep ct m.pid w.child_table ≡ some p)
                × (p.serv ≡ s)
                × Told ep ct p w m.avail w')))
        ⊎ ((eqb_ℤ m.n (pos 0) ≡ true)
            × (master_status_event ep ct event m s w ≡ abort (panic "%s: read EOF status")))
        ⊎ ((p : Proc) × (find_in ep ct m.pid w.child_table ≡ some p)
            × ((p.serv == s) ≡ false)
            × (master_status_event ep ct event m s w
                ≡ abort (panic "%s: pointer corruption: %p != %p")))
  unfolding master_status_event update_status
  master_status_event-IsConsistent event s m w c =
      elim (Bool-cases (event == 0 || eqb_ℤ m.n (negsuc 0))) [
        | inl idle ↦ rw idle (inl (w, refl, (c, inl refl)))
        | inr busy ↦ elim (Bool-cases (eqb_ℤ m.n (pos 0))) [
          | inl eof ↦ rw (busy, eof) (inr (inl (refl, refl)))
          | inr more ↦ elim (Bool-cases (eqb_ℤ m.n (pos 8))) [
            | inr partial ↦ rw (busy, more, partial) (inl (w, refl, (c, inl refl)))
            | inl whole ↦
                rw (busy, more, whole)
                  (elim (Option-cases (find_in ep ct m.pid w.child_table)) [
                    | inl unknown ↦ rw unknown (inl (w, refl, (c, inl refl)))
                    | inr (p, e) ↦ elim (known_child p w m.pid s m.avail c e) [
                      | inr (foreign, run) ↦ rw (e, run) (inr (inr (p, refl, foreign, refl)))
                      | inl (w', run, (c', mine, acted)) ↦
                          rw (e, run)
                            (inl (
                              w',
                              refl,
                              (
                                c',
                                elim acted [
                                  | inl kept ↦ inl kept
                                  | inr told_it ↦ inr (p, refl, mine, told_it)
                                ],
                              ),
                            ))
                    ]
                  ])
          ]
        ]
      ]
