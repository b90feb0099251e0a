-- ===== src/Master/Fixtures.antt =====
-- The functions of src/master/master_avail.c do not change the name, the type, MASTER_FLAG_MARK and the listen socket of a service.
use nowra.Base.{List, Bool, ℕ, ◌≡◌, refl, ◌∙◌, ℤ, eqb_ℤ, Ensures, Ensures-abort, Ensures-if}
use nowra.Events.Kernel.{Epoll}
use nowra.Master.Table.{Proc, ChildTable, stat_avail}
use nowra.Master.{Serv, World, put_serv, master_avail_listen, master_avail_more, master_avail_less}
use nowra.Master.Keeps.{each, update-view, IsBlind, Keeps, master_avail_listen-Keeps}

-- What no handler changes: the name, the type, MASTER_FLAG_MARK and the listen socket.
abbrev pub Fixed : Type 0
Fixed = List ℕ × ℕ × Bool × ℤ

abbrev pub fixed : Serv → Fixed
fixed v = (v.name, v.type, v.flags.mark, v.listen_fd)

module _ (ep : Epoll) (ct : ChildTable) where
  abbrev Master : Type 0
  Master = World ep ct

  abbrev pub fixtures : Master → ℕ → Fixed
  fixtures w = each fixed w.servs

  pub fixtures-put :
      (w : Master) (s : ℕ) (v : Serv)
      → fixed v ≡ fixed (w.servs s)
      → fixtures (put_serv ep ct s v w) ≡ fixtures w
  fixtures-put w s v e = update-view fixed w.servs s v e

  pub fixtures-IsBlind : IsBlind ep ct fixtures
  fixtures-IsBlind = record { on_loop = λ w l k. refl; on_flags = λ w s f. fixtures-put w s _ refl }

  abbrev pub Kept : Master → Master → Type 0
  Kept = Keeps ep ct fixtures

  -- A call that starts from a state with the same fixtures.
  pub listen-Kept :
      (s : ℕ) (w w' : Master)
      → fixtures w' ≡ fixtures w
      → Ensures (Kept w) (master_avail_listen ep ct s w')
  listen-Kept s w w' e v run =
      master_avail_listen-Keeps ep ct fixtures fixtures-IsBlind s w' v run ∙ e

  pub more-Kept :
      (s : ℕ) (p : Proc) (w w' : Master)
      → fixtures w' ≡ fixtures w
      → Ensures (Kept w) (master_avail_more ep ct s p w')
  unfolding master_avail_more
  more-Kept s p w w' e =
      Ensures-if (Kept w) (eqb_ℤ p.avail stat_avail) _ _ (Ensures-abort (Kept w) _)
        (listen-Kept s w _ (fixtures-put w' s _ refl ∙ e))

  pub less-Kept : (s : ℕ) (p : Proc) (w : Master) → Ensures (Kept w) (master_avail_less ep ct s p w)
  unfolding master_avail_less
  less-Kept s p w =
      Ensures-if (Kept w) (eqb_ℤ p.avail stat_avail) _ _
        (listen-Kept s w _ (fixtures-put w s _ refl)) (Ensures-abort (Kept w) _)
