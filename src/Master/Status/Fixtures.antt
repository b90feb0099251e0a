-- ===== src/Master/Status/Fixtures.antt =====
-- `master_status_event` of src/master/master_status.c does not change the name, the type, MASTER_FLAG_MARK and the listen socket of a service.
use nowra.Base.{
  ℕ, refl, not, ◌||◌, Option, none, some, ◌==◌, ℤ, pos, negsuc, eqb_ℤ, Ensures, Ensures-ok,
  Ensures-abort, Ensures-if,
}
use nowra.Events.Kernel.{Epoll}
use nowra.Master.Table.{Proc, ChildTable, stat_avail, stat_taken}
use nowra.Master.{World, find_proc}
use nowra.Master.Fixtures.{Kept, more-Kept, less-Kept}
use nowra.Master.Status.{Message, take_status, update_status, master_status_event}

module _ (ep : Epoll) (ct : ChildTable) where
  abbrev Master : Type 0
  Master = World ep ct

  take-Kept :
      (s : ℕ) (p : Proc) (avail : ℤ) (w : Master)
      → Ensures (Kept ep ct w) (take_status ep ct s p avail w)
  unfolding take_status
  take-Kept s p avail w =
      Ensures-if (Kept ep ct w) (eqb_ℤ avail stat_avail) _ _ (more-Kept ep ct s _ w _ refl) (
        Ensures-if (Kept ep ct w) (eqb_ℤ avail stat_taken) _ _ (less-Kept ep ct s p w)
          (Ensures-ok (Kept ep ct w) w refl))

  update-Kept :
      (s : ℕ) (found : Option Proc) (avail : ℤ) (w : Master)
      → Ensures (Kept ep ct w) (update_status ep ct s found avail w)
  unfolding update_status
  update-Kept s none avail w = Ensures-ok (Kept ep ct w) w refl
  update-Kept s (some p) avail w =
      Ensures-if (Kept ep ct w) (not (p.serv == s)) _ _ (Ensures-abort (Kept ep ct w) _) (
        Ensures-if (Kept ep ct w) (eqb_ℤ p.avail avail) _ _ (Ensures-ok (Kept ep ct w) w refl)
          (take-Kept s p avail w))

  pub status_event-Kept :
      (event : ℕ) (m : Message) (s : ℕ) (w : Master)
      → Ensures (Kept ep ct w) (master_status_event ep ct event m s w)
  unfolding master_status_event
  status_event-Kept event m s w =
      Ensures-if (Kept ep ct w) (event == 0 || eqb_ℤ m.n (negsuc 0)) _ _
        (Ensures-ok (Kept ep ct w) w refl)
        (Ensures-if (Kept ep ct w) (eqb_ℤ m.n (pos 0)) _ _ (Ensures-abort (Kept ep ct w) _) (
          Ensures-if (Kept ep ct w) (not (eqb_ℤ m.n (pos 8))) _ _ (Ensures-ok (Kept ep ct w) w refl)
            (update-Kept s (find_proc ep ct m.pid w) m.avail w)))
