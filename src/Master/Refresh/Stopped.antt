-- ===== src/Master/Refresh/Stopped.antt =====
-- The stopping of a service in src/master/master_service.c changes the name, the type and MASTER_FLAG_MARK of no service.
use nowra.Base.{
  ℕ, ◌∷◌, [], Ensures-then, refl, ap, ◌∙◌, List, ℤ, false, Outcome, negsuc, Ensures, Ensures-if,
  Ensures-ok,
}
use nowra.Events.Kernel.{Epoll}
use nowra.Master.Table.{ChildTable}
use nowra.Master.{World, disable_read}
use nowra.Master.Keeps.{update-view, then-Keeps, disable_read-Keeps}
use nowra.Master.Fixtures.{Fixed}
use nowra.Master.Fixtures
use nowra.Master.Spawn.Fixtures.{throttle-Kept, unthrottle-Kept}
use nowra.Master.Spawn.{master_throttle}
use nowra.Master.Service.{master_status_cleanup}
use nowra.Master.Service.Idents.{
  Ident, ident, idents, idents-IsBlind, Kept, master_status_cleanup-Keeps,
}
use nowra.Master.Refresh.Children.{reap_all-Kept}
use nowra.Master.Refresh.{
  reap_all, master_delete_children, unlisten, master_avail_cleanup, master_listen_cleanup,
  master_stop_service, sweep,
}

module _ (ep : Epoll) (ct : ChildTable) where
  abbrev Master : Type 0
  Master = World ep ct

  -- What keeps more keeps this.
  fixed-Kept :
      (w : Master) (r : Outcome Master)
      → Ensures (Fixtures.Kept ep ct w) r
      → Ensures (Kept ep ct w) r
  fixed-Kept w r h w' run =
      let view : (ℕ → Fixed) → ℕ → Ident = λ f s. ((f s).0, (f s).1, (f s).2) in ap view (h w' run)

  delete_children-Kept :
      (waits : List (List (ℕ × ℤ))) (s : ℕ) (w : Master)
      → Ensures (Kept ep ct w) (master_delete_children ep ct waits s w)
  unfolding master_delete_children
  delete_children-Kept waits s w =
      then-Keeps ep ct (idents ep ct) w (master_throttle ep ct s w) _
        (fixed-Kept w _ (throttle-Kept ep ct s w))
        (λ w1.
          then-Keeps ep ct (idents ep ct) w1 (reap_all ep ct waits s w1) _
            (fixed-Kept w1 _ (reap_all-Kept ep ct waits s w1))
            (λ w2. fixed-Kept w2 _ (unthrottle-Kept ep ct s w2)))

  unlisten-Kept : (s : ℕ) (w : Master) → Ensures (Kept ep ct w) (unlisten ep ct s w)
  unfolding unlisten
  unlisten-Kept s w =
      Ensures-if (Kept ep ct w) (w.servs s).flags.listen _ _
        (then-Keeps ep ct (idents ep ct) w (disable_read ep ct (w.servs s).listen_fd w) _
          (disable_read-Keeps ep ct (idents ep ct) (idents-IsBlind ep ct) (w.servs s).listen_fd w)
          (λ w'. Ensures-ok (Kept ep ct w') _ ((idents-IsBlind ep ct).on_flags w' s false)))
        (Ensures-ok (Kept ep ct w) w refl)

  pub stop_service-Kept :
      (waits : List (List (ℕ × ℤ))) (s : ℕ) (w : Master)
      → Ensures (Kept ep ct w) (master_stop_service ep ct waits s w)
  unfolding master_stop_service master_avail_cleanup
  stop_service-Kept waits s w =
      then-Keeps ep ct (idents ep ct) w (master_status_cleanup ep ct s w) _
        (master_status_cleanup-Keeps ep ct s w)
        (λ w1.
          then-Keeps ep ct (idents ep ct) w1 (master_avail_cleanup ep ct waits s w1) _
            (then-Keeps ep ct (idents ep ct) w1 (master_delete_children ep ct waits s w1) _
              (delete_children-Kept waits s w1) (λ w2. unlisten-Kept s w2))
            (λ w3.
              Ensures-ok (Kept ep ct w3) (master_listen_cleanup ep ct s w3)
                (update-view ident w3.servs s (record (w3.servs s) { listen_fd = negsuc 0 }) refl)))

  pub sweep-Kept :
      (waits : ℕ → List (List (ℕ × ℤ))) (head : List ℕ) (w : Master)
      → Ensures (λ left. Kept ep ct w left.1) (sweep ep ct waits head w)
  unfolding sweep
  sweep-Kept waits [] w = Ensures-ok (λ left. Kept ep ct w left.1) _ refl
  sweep-Kept waits (s ∷ head) w =
      Ensures-if _ (w.servs s).flags.mark _ _
        (Ensures-then _ (Kept ep ct w) (master_stop_service ep ct (waits s) s w) _
          (stop_service-Kept (waits s) s w)
          (λ w' kept left run. sweep-Kept waits head w' left run ∙ kept))
        (Ensures-then _ (λ left. Kept ep ct w left.1) (sweep ep ct waits head w) _
          (sweep-Kept waits head w)
          (λ (left, w') kept. Ensures-ok (λ left. Kept ep ct w left.1) (s ∷ left, w') kept))
