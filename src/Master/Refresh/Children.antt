-- ===== src/Master/Refresh/Children.antt =====
-- What the parts of `master_delete_children` of src/master/master_spawn.c keep.
use nowra.Base.{
  Returns, ℕ, ◌≡◌, refl, sym, ap, true, false, List, [], ◌∷◌, arith, ℤ, pos, ltb_ℤ, undefined,
  Ensures, ◌∙◌, Ensures-ok, Ensures-abort, Ensures-if,
}
use nowra.Events.Kernel.{Epoll}
use nowra.Master.Table.{ChildTable}
use nowra.Master.{World}
use nowra.Master.Listening.{is_nonneg}
use nowra.Master.Counts.{is_child_of, is_idle_child_of, load, IsConsistent, recounted}
use nowra.Master.Avail.{Leaves}
use nowra.Master.Spawn.{master_unthrottle, master_reap_child}
use nowra.Master.Spawn.Throttle.{unthrottle-Leaves}
use nowra.Master.Keeps.{then-Keeps}
use nowra.Master.Fixtures.{Fixed, fixtures, Kept}
use nowra.Master.Spawn.Fixtures.{reap_child-Kept}
use nowra.Master.Refresh.{reap_all}

-- A count that is not above 0.
no_more : (n : ℕ) → ltb_ℤ (pos 0) (pos n) ≡ false → n ≡ 0
no_more n h = ground arith

module _ (ep : Epoll) (ct : ChildTable) where
  abbrev Master : Type 0
  Master = World ep ct

  -- The table with the counts that follow from it.
  pub same_table :
      (w w' : Master)
      → Leaves ep ct
          (λ r. load ep ct (is_child_of r) w.child_table)
          (λ r. load ep ct (is_idle_child_of r) w.child_table)
          w.child_table
          w'
      → IsConsistent ep ct w'
  same_table w w' (c, tb) =
      recounted ep ct w' c (λ r. sym (ap (load ep ct (is_child_of r)) tb))
        (λ r. sym (ap (load ep ct (is_idle_child_of r)) tb))

  -- The bookkeeping is right, and the service has no child.
  abbrev pub Childless : ℕ → Master → Type 0
  Childless s w = IsConsistent ep ct w × (load ep ct (is_child_of s) w.child_table ≡ 0)

  pub gone :
      (s : ℕ) (w : Master)
      → IsConsistent ep ct w
      → ltb_ℤ (pos 0) (w.servs s).total_proc ≡ false
      → load ep ct (is_child_of s) w.child_table ≡ 0
  gone s w c empty = no_more _ (ap (ltb_ℤ (pos 0)) (sym (c.counts.totals s)) ∙ empty)

  pub reap_all-Kept :
      (waits : List (List (ℕ × ℤ))) (s : ℕ) (w : Master)
      → Ensures (Kept ep ct w) (reap_all ep ct waits s w)
  unfolding reap_all
  reap_all-Kept [] s w =
      Ensures-if (Kept ep ct w) (ltb_ℤ (pos 0) (w.servs s).total_proc) _ _
        (Ensures-abort (Kept ep ct w) undefined) (Ensures-ok (Kept ep ct w) w refl)
  reap_all-Kept (dead ∷ more) s w =
      Ensures-if (Kept ep ct w) (ltb_ℤ (pos 0) (w.servs s).total_proc) _ _
        (then-Keeps ep ct (fixtures ep ct) w (master_reap_child ep ct dead w) _
          (reap_child-Kept ep ct dead w) (λ w'. reap_all-Kept more s w'))
        (Ensures-ok (Kept ep ct w) w refl)

  pub unthrottled :
      (s : ℕ) (w : Master)
      → Childless s w
      → is_nonneg (w.servs s).listen_fd ≡ true
      → Returns (master_unthrottle ep ct s w) (Childless s)
  unthrottled s w (c, empty) open_fd =
      let (w', run, l) = unthrottle-Leaves ep ct s w c open_fd in
      (w', run, (same_table w w' l, ap (load ep ct (is_child_of s)) l.1 ∙ empty))

  pub still_open :
      (s : ℕ) (w w' : Master)
      → Kept ep ct w w'
      → is_nonneg (w.servs s).listen_fd ≡ true
      → is_nonneg (w'.servs s).listen_fd ≡ true
  still_open s w w' kept open_fd = rw (ap (λ (f : ℕ → Fixed). (f s).3) kept) open_fd
