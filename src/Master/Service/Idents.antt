-- ===== src/Master/Service/Idents.antt =====
-- The start and the restart of services in src/master/master_service.c change the name, the type and MASTER_FLAG_MARK of no
-- service.
use nowra.Base.{
  Bool, ap, ℕ, ◌≡◌, refl, ◌∙◌, not, ◌||◌, Option, none, some, List, ◌==◌, ℤ, pos, ltb_ℤ, panic,
  fatal, Ensures, Ensures-ok, Ensures-abort, Ensures-if, Ensures-then,
}
use nowra.Events.Kernel.{Epoll}
use nowra.Master.Table.{ChildTable}
use nowra.Master.{Serv, World, disable_read, master_avail_listen, master_status_event_fn}
use nowra.Master.Keeps.{
  each, update-view, IsBlind, Keeps, then-Keeps, enable_read-Keeps, disable_read-Keeps,
  master_avail_listen-Keeps,
}
use nowra.Master.Service.{
  Given, master_listen_init, with_pipe, master_status_init, master_status_cleanup,
  master_start_service, master_restart_service, names_of,
}

-- What a service is known by, and MASTER_FLAG_MARK.
abbrev pub Ident : Type 0
Ident = List ℕ × ℕ × Bool

abbrev pub ident : Serv → Ident
ident v = (v.name, v.type, v.flags.mark)

module _ (ep : Epoll) (ct : ChildTable) where
  -- The names, types and marks of all services.
  abbrev pub idents : World ep ct → ℕ → Ident
  idents w = each ident w.servs

  pub idents-IsBlind : IsBlind ep ct idents
  idents-IsBlind = record {
    on_loop = λ w l k. refl;
    on_flags = λ w s b. update-view ident w.servs s _ refl;
  }

  abbrev pub Kept : World ep ct → World ep ct → Type 0
  Kept = Keeps ep ct idents

  master_listen_init-Keeps :
      (fd : ℤ) (s : ℕ) (w : World ep ct) → Ensures (Kept w) (master_listen_init ep ct fd s w)
  unfolding master_listen_init
  master_listen_init-Keeps fd s w =
      let v = w.servs s in
      Ensures-if (Kept w) (v.type == 1 || v.type == 3) _ _ (Ensures-ok (Kept w) w refl) (
        Ensures-if (Kept w) (v.type == 2) _ _
          (Ensures-ok (Kept w) _ (update-view ident w.servs s _ refl))
          (Ensures-abort (Kept w) (panic "master_listen_init: unknown service type")))

  with_pipe-Keeps :
      (pipe : Option (ℤ × ℤ)) (s : ℕ) (w : World ep ct)
      → Ensures (Kept w) (with_pipe ep ct pipe s w)
  unfolding with_pipe
  with_pipe-Keeps none s w = Ensures-abort (Kept w) (fatal "pipe: %m")
  with_pipe-Keeps (some (fd0, fd1)) s w = λ w' e.
      enable_read-Keeps ep ct idents idents-IsBlind fd0 master_status_event_fn s _ w' e
      ∙ update-view ident w.servs s _ refl

  master_status_init-Keeps :
      (pipe : Option (ℤ × ℤ)) (s : ℕ) (w : World ep ct)
      → Ensures (Kept w) (master_status_init ep ct pipe s w)
  unfolding master_status_init
  master_status_init-Keeps pipe s w =
      let (fd0, fd1) = (w.servs s).status_fd in
      Ensures-if (Kept w) (not (ltb_ℤ fd0 (pos 0)) || not (ltb_ℤ fd1 (pos 0))) _ _
        (Ensures-abort (Kept w) (panic "master_status_init: status events already enabled"))
        (with_pipe-Keeps pipe s w)

  pub master_status_cleanup-Keeps :
      (s : ℕ) (w : World ep ct) → Ensures (Kept w) (master_status_cleanup ep ct s w)
  unfolding master_status_cleanup
  master_status_cleanup-Keeps s w =
      let (fd0, fd1) = (w.servs s).status_fd in
      Ensures-if (Kept w) (ltb_ℤ fd0 (pos 0) || ltb_ℤ fd1 (pos 0)) _ _
        (Ensures-abort (Kept w) (panic "master_status_cleanup: status events not enabled"))
        (Ensures-then (Kept w) (Kept w) (disable_read ep ct fd0 w) _
          (disable_read-Keeps ep ct idents idents-IsBlind fd0 w)
          (λ w' k. Ensures-ok (Kept w) _ (update-view ident w'.servs s _ refl ∙ k)))

  pub start-Keeps :
      (given : Given) (s : ℕ) (w : World ep ct)
      → Ensures (Kept w) (master_start_service ep ct given s w)
  unfolding master_start_service
  start-Keeps given s w =
      then-Keeps ep ct idents w (master_listen_init ep ct given.listen_fd s w) _
        (master_listen_init-Keeps given.listen_fd s w)
        (λ w1.
          then-Keeps ep ct idents w1 (master_avail_listen ep ct s w1) _
            (master_avail_listen-Keeps ep ct idents idents-IsBlind s w1)
            (λ w2. master_status_init-Keeps given.pipe s w2))

  pub restart-Keeps :
      (given : Given) (s : ℕ) (w : World ep ct)
      → Ensures (Kept w) (master_restart_service ep ct given s w)
  unfolding master_restart_service
  restart-Keeps given s w =
      then-Keeps ep ct idents w (master_status_cleanup ep ct s w) _
        (master_status_cleanup-Keeps s w) (λ w'. master_status_init-Keeps given.pipe s w')

  -- The names and types are among them.
  pub same_names : (w w' : World ep ct) → Kept w w' → names_of w'.servs ≡ names_of w.servs
  same_names w w' same =
      let view : (ℕ → Ident) → ℕ → List ℕ × ℕ = λ f r. ((f r).0, (f r).1) in ap view same
