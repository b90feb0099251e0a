-- ===== src/Master/Keeps.antt =====
-- What the switching on and off of events in src/master/master_avail.c leaves alone: any view of the state that sees neither
-- the event loop nor MASTER_FLAG_LISTEN.
use nowra.Base.{
  ℕ, ◌≡◌, refl, ap, ◌∙◌, inl, inr, Bool, true, false, not, ◌&&◌, arith, ◌==◌, some, ℤ, Outcome, ok,
  ◌>>=◌, Bool-cases, Ensures, Ensures-ok, Ensures-if, Ensures-bind, Ensures-then,
}
use nowra.Events.Kernel.{Epoll}
use nowra.Events.{EventLoop, event_enable_rw, event_disable_rw, event_read}
use nowra.Master.Table.{ChildTable}
use nowra.Master.{
  Serv, World, update, set_flags, enable_read, disable_read, start_listening, stop_listening,
  listen_flag, master_avail_listen, master_avail_event_fn,
}

-- A view of each service.
abbrev pub each : {A : Type 0} → (Serv → A) → (ℕ → Serv) → ℕ → A
each view servs r = view (servs r)

-- A write of a service that keeps a view of it.
pub update-view :
    {A : Type 0} (view : Serv → A) (servs : ℕ → Serv) (s : ℕ) (v : Serv)
    → view v ≡ view (servs s)
    → each view (update servs s v) ≡ each view servs
update-view view servs s v e i r = at r i
  where
    at : (r : ℕ) → view (update servs s v r) ≡ view (servs r)
    at r = elim (Bool-cases (s == r)) [
      | inl same ↦ let here : s ≡ r = ground arith in rw same (e ∙ ap (each view servs) here)
      | inr other ↦ rw other refl
    ]

module _ (ep : Epoll) (ct : ChildTable) where
  -- A view that sees neither.
  pub record IsBlind {A : Type 0} (view : World ep ct → A) : Type 0 where
    pub on_loop :
        (w : World ep ct) (l : EventLoop) (k : ep.K)
        → view (record w { event_loop = l; kernel = k }) ≡ view w
    pub on_flags :
        (w : World ep ct) (s : ℕ) (b : Bool)
        → view (set_flags ep ct s (record (w.servs s).flags { listen = b }) w) ≡ view w

  module _ {A : Type 0} (view : World ep ct → A) where
    abbrev pub Keeps : World ep ct → World ep ct → Type 0
    Keeps w w' = view w' ≡ view w

    -- One call after the other.
    pub then-Keeps :
        (w : World ep ct) (r : Outcome (World ep ct)) (f : World ep ct → Outcome (World ep ct))
        → Ensures (Keeps w) r
        → ((w' : World ep ct) → Ensures (Keeps w') (f w'))
        → Ensures (Keeps w) (r >>= f)
    then-Keeps w r f h k =
        Ensures-then (Keeps w) (Keeps w) r f h (λ w' same w'' e. k w' w'' e ∙ same)

    module _ (blind : IsBlind view) where
      pub enable_read-Keeps :
          (fd : ℤ) (callback s : ℕ) (w : World ep ct)
          → Ensures (Keeps w) (enable_read ep ct fd callback s w)
      unfolding enable_read
      enable_read-Keeps fd callback s w =
          Ensures-bind (Keeps w)
            (event_enable_rw ep (some w.event_loop) w.kernel fd callback s event_read) _
            (λ r. Ensures-ok (Keeps w) _ (blind.on_loop w r.1 r.2))

      pub disable_read-Keeps :
          (fd : ℤ) (w : World ep ct) → Ensures (Keeps w) (disable_read ep ct fd w)
      unfolding disable_read
      disable_read-Keeps fd w =
          Ensures-bind (Keeps w) (event_disable_rw ep (some w.event_loop) w.kernel fd event_read) _
            (λ r. Ensures-ok (Keeps w) _ (blind.on_loop w r.1 r.2))

      flags-Keeps :
          (s : ℕ) (b : Bool) (w : World ep ct)
          → Ensures (Keeps w) (ok (set_flags ep ct s (record (w.servs s).flags { listen = b }) w))
      flags-Keeps s b w = Ensures-ok (Keeps w) _ (blind.on_flags w s b)

      pub master_avail_listen-Keeps :
          (s : ℕ) (w : World ep ct) → Ensures (Keeps w) (master_avail_listen ep ct s w)
      unfolding master_avail_listen start_listening stop_listening
      master_avail_listen-Keeps s w =
          let v = w.servs s in
          Ensures-if (Keeps w) (listen_flag v && not v.flags.listen) _ _
            (then-Keeps w (enable_read ep ct v.listen_fd master_avail_event_fn s w) _
              (enable_read-Keeps v.listen_fd master_avail_event_fn s w)
              (λ w'. flags-Keeps s true w'))
            (Ensures-if (Keeps w) (not (listen_flag v) && v.flags.listen) _ _
              (then-Keeps w (disable_read ep ct v.listen_fd w) _ (disable_read-Keeps v.listen_fd w)
                (λ w'. flags-Keeps s false w'))
              (Ensures-ok (Keeps w) w refl))
