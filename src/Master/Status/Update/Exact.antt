-- ===== src/Master/Status/Update/Exact.antt =====
-- What a whole message of a known child does in src/master/master_status.c when it tells the status that the child has not.
use nowra.Base.{ℕ, ◌≡◌, refl, ap, false, some, ◌==◌, ==_refl, ℤ, pos, eqb_ℤ, Returns}
use nowra.Events.Kernel.{Epoll}
use nowra.Master.Table.{Proc, ChildTable, stat_taken, stat_avail}
use nowra.Master.{World, find_in}
use nowra.Master.Counts.{IsConsistent}
use nowra.Master.Status.{Message, take_status, update_status, master_status_event}
use nowra.Master.Status.Told.{Told}
use nowra.Master.Status.Update.{take_status-Told_avail, take_status-Told_taken}

module _ (ep : Epoll) (ct : ChildTable) (p : Proc) (w : World ep ct)
    (e : find_in ep ct p.pid w.child_table ≡ some p) where
  -- The message of a child as `master_notify` writes it.
  abbrev pub IsFrom : Message → ℤ → Type 0
  IsFrom m a = (m.n ≡ pos 8) × (m.pid ≡ p.pid) × (m.avail ≡ a)

  opens :
      (event : ℕ) (m : Message) (a : ℤ)
      → (event == 0) ≡ false
      → IsFrom m a
      → eqb_ℤ p.avail a ≡ false
      → master_status_event ep ct event m p.serv w ≡ take_status ep ct p.serv p a w
  unfolding master_status_event update_status
  opens event m a nonzero (whole, same_pid, avail) off =
      rw (nonzero, whole, same_pid, e, ==_refl, avail, off) refl

  module _ (c : IsConsistent ep ct w) where
    -- A taken child that tells that it is available.
    pub tells_avail :
        (event : ℕ) (m : Message)
        → (event == 0) ≡ false
        → IsFrom m stat_avail
        → p.avail ≡ stat_taken
        → Returns (master_status_event ep ct event m p.serv w) (Told ep ct p w stat_avail)
    tells_avail event m nonzero from was =
        rw (opens event m stat_avail nonzero from (ap (λ a. eqb_ℤ a stat_avail) was))
          (take_status-Told_avail ep ct p w c e was)

    -- An available child that tells that it is taken.
    pub tells_taken :
        (event : ℕ) (m : Message)
        → (event == 0) ≡ false
        → IsFrom m stat_taken
        → p.avail ≡ stat_avail
        → Returns (master_status_event ep ct event m p.serv w) (Told ep ct p w stat_taken)
    tells_taken event m nonzero from was =
        rw (opens event m stat_taken nonzero from (ap (λ a. eqb_ℤ a stat_taken) was))
          (take_status-Told_taken ep ct p w c e was)
