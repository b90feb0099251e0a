-- ===== src/Master/Listening.antt =====
-- `master_avail_listen` of src/master/master_avail.c: it returns, sets MASTER_FLAG_LISTEN to what the
-- counts and the throttle say, and leaves everything else of the master's state alone but the
-- event loop.
use nowra.Base.{
  ℕ, ◌≡◌, refl, sym, ap, Bool, true, false, arith, ◌==◌, if◌then◌else◌, ℤ, pos, negsuc, Returns,
  Bool-cases, inl, inr,
}
use nowra.Events.{event_read}
use nowra.Events.Kernel.{Epoll}
use nowra.Events.Sized.{IsSized, event_enable_rw-IsSized, event_disable_rw-IsSized}
use nowra.Master.Table.{ChildTable}
use nowra.Master.{
  Serv, World, enable_read, disable_read, update, listen_flag, master_avail_listen,
  master_avail_event_fn,
}

abbrev pub is_nonneg : ℤ → Bool
is_nonneg (pos n) = true
is_nonneg (negsuc n) = false

pub nonneg-pos : (z : ℤ) → is_nonneg z ≡ true → (n : ℕ) × (z ≡ pos n)
nonneg-pos (pos n) h = (n, refl)
nonneg-pos (negsuc n) h = cc

-- A service with its MASTER_FLAG_LISTEN as the policy has it.
abbrev pub relisten : Serv → Serv
relisten v = record v { flags = record v.flags { listen = listen_flag v } }

-- MASTER_FLAG_LISTEN set to `b`.
abbrev with_listen : Serv → Bool → Serv
with_listen v b = record v { flags = record v.flags { listen = b } }

relisten_at :
    (servs : ℕ → Serv) (s : ℕ)
    → listen_flag (servs s) ≡ (servs s).flags.listen
    → (r : ℕ) → servs r ≡ (if s == r then relisten (servs r) else servs r)
relisten_at servs s h r = elim (Bool-cases (s == r)) [
  | inl same ↦
      let e : s ≡ r = ground arith in rw same (ap (with_listen (servs r)) (rw e at (sym h)))
  | inr other ↦ rw other
]

relisten_set :
    (servs servs' : ℕ → Serv) (s : ℕ) (b : Bool)
    → servs' ≡ servs
    → listen_flag (servs s) ≡ b
    → (r : ℕ)
    → update servs' s (with_listen (servs' s) b) r
      ≡ (if s == r then relisten (servs r) else servs r)
relisten_set servs servs' s b kept h r = rw kept (elim (Bool-cases (s == r)) [
  | inl same ↦
      let e : s ≡ r = ground arith in rw (same, e) (ap (with_listen (servs r)) (rw e at (sym h)))
  | inr other ↦ rw other
])

module _ (ep : Epoll) (ct : ChildTable) where
  abbrev Master : Type 0
  Master = World ep ct

  -- All but the event loop and the services is as before.
  pub record SameRest (w w' : Master) : Type 0 where
    pub child_table : w'.child_table ≡ w.child_table
    pub timers : w'.timers ≡ w.timers
    pub clock : w'.clock ≡ w.clock
    pub sized : IsSized w.event_loop → IsSized w'.event_loop

  -- What `master_avail_listen` does.
  pub record Listened (s : ℕ) (w w' : Master) : Type 0 where
    pub rest : SameRest w w'
    pub servs : (r : ℕ) → w'.servs r ≡ (if s == r then relisten (w.servs r) else w.servs r)

  abbrev pub Reread : Master → Master → Type 0
  Reread w w' = SameRest w w' × (w'.servs ≡ w.servs)

  module _ (w : Master) (v : IsSized w.event_loop) where
    enable_read-Reread :
        (fd callback s : ℕ) → Returns (enable_read ep ct (pos fd) callback s w) (Reread w)
    unfolding enable_read
    enable_read-Reread fd callback s =
        let ((done, l, k), run, sized) =
          event_enable_rw-IsSized ep w.event_loop w.kernel v fd event_read callback s in
        (
          record w { event_loop = l; kernel = k },
          rw run,
          (record { child_table = refl; timers = refl; clock = refl; sized = λ _. sized }, refl),
        )

    pub disable_read-Reread : (fd : ℕ) → Returns (disable_read ep ct (pos fd) w) (Reread w)
    unfolding disable_read
    disable_read-Reread fd =
        let ((done, l, k), run, sized) =
          event_disable_rw-IsSized ep w.event_loop w.kernel v fd event_read in
        (
          record w { event_loop = l; kernel = k },
          rw run,
          (record { child_table = refl; timers = refl; clock = refl; sized = λ _. sized }, refl),
        )

    same_rest : {s : ℕ} → listen_flag (w.servs s) ≡ (w.servs s).flags.listen → Listened s w w
    same_rest {s} h = record {
      rest = record { child_table = refl; timers = refl; clock = refl; sized = λ z. z };
      servs = relisten_at w.servs s h;
    }

    listen_at :
        (fd s : ℕ)
        → (w.servs s).listen_fd ≡ pos fd
        → Returns (master_avail_listen ep ct s w) (Listened s w)
    unfolding master_avail_listen
    listen_at fd s open_fd = elim (Bool-cases (listen_flag (w.servs s))) [
      | inl wanted ↦ elim (Bool-cases (w.servs s).flags.listen) [
        | inl on ↦ rw (wanted, on) (w, refl, same_rest (rw (wanted, on)))
        | inr off ↦
            let (w', run, (rest, same)) = enable_read-Reread fd master_avail_event_fn s in
            rw (wanted, off, open_fd, run)
              (
                _,
                refl,
                record {
                  rest = record {
                    child_table = rest.child_table;
                    timers = rest.timers;
                    clock = rest.clock;
                    sized = rest.sized;
                  };
                  servs = relisten_set w.servs w'.servs s true same wanted;
                },
              )
      ]
      | inr unwanted ↦ elim (Bool-cases (w.servs s).flags.listen) [
        | inl on ↦
            let (w', run, (rest, same)) = disable_read-Reread fd in
            rw (unwanted, on, open_fd, run)
              (
                _,
                refl,
                record {
                  rest = record {
                    child_table = rest.child_table;
                    timers = rest.timers;
                    clock = rest.clock;
                    sized = rest.sized;
                  };
                  servs = relisten_set w.servs w'.servs s false same unwanted;
                },
              )
        | inr off ↦ rw (unwanted, off) (w, refl, same_rest (rw (unwanted, off)))
      ]
    ]

    -- On a service with an open listen socket `master_avail_listen` returns, and sets
    -- MASTER_FLAG_LISTEN exactly when the service is not throttled, has no available child and is
    -- below its process limit.
    pub master_avail_listen-Listened :
        (s : ℕ)
        → is_nonneg (w.servs s).listen_fd ≡ true
        → Returns (master_avail_listen ep ct s w) (Listened s w)
    master_avail_listen-Listened s h =
        let (fd, e) = nonneg-pos (w.servs s).listen_fd h in listen_at fd s e
