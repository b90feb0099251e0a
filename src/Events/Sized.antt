-- ===== src/Events/Sized.antt =====
-- `event_enable_rw` and `event_disable_rw` of src/util/events.c return for every descriptor that is not
-- negative, and keep the table of registrations at its size.
use nowra.Base.{
  ℕ, ◌≡◌, refl, Bool, true, false, some, arith, leb, pos, Returns, Returns-if, length, length-set,
  get_or, get_elem?-get_or, Bool-cases, inl, inr,
}
use nowra.Events.Kernel.{Epoll}
use nowra.Events.{
  Mask, EventBase, EventLoop, blank, is_none, event_enable_rw, event_disable_rw, enable_base,
  disable_base,
}

abbrev pub IsSized : EventLoop → Type 0
IsSized l = length l.reg_events ≡ l.size

module _ (ep : Epoll) (l : EventLoop) (k : ep.K) (v : IsSized l) (fd : ℕ) (mask : Mask) where
  abbrev Kept : Bool × EventLoop × ep.K → Type 0
  Kept (done, l', k') = IsSized l'

  enable_base-sized :
      (eb : EventBase) (callback context : ℕ)
      → Returns (enable_base ep l k fd eb callback context mask) Kept
  unfolding enable_base
  enable_base-sized eb callback context =
      Returns-if Kept _ _ _ (λ _. rw (length-set, length-set) v) (λ _. rw length-set v)

  disable_base-sized : (eb : EventBase) → Returns (disable_base ep l k fd eb mask) Kept
  unfolding disable_base
  disable_base-sized eb = Returns-if Kept _ _ _ (λ _. rw length-set v) (λ _. v)

  pub event_enable_rw-IsSized :
      (callback context : ℕ)
      → Returns
          (event_enable_rw ep (some l) k (pos fd) callback context mask)
          (λ (done, l', k'). IsSized l')
  unfolding event_enable_rw
  event_enable_rw-IsSized callback context = elim (Bool-cases (leb l.size fd)) [
    | inl out ↦ rw out ((false, l, k), refl, v)
    | inr inside ↦
        rw (inside, get_elem?-get_or l.reg_events fd blank (ground arith))
          (enable_base-sized (get_or l.reg_events fd blank) callback context)
  ]

  pub event_disable_rw-IsSized :
      Returns (event_disable_rw ep (some l) k (pos fd) mask) (λ (done, l', k'). IsSized l')
  unfolding event_disable_rw
  event_disable_rw-IsSized =
      let eb = get_or l.reg_events fd blank in
      elim (Bool-cases (leb l.size fd)) [
        | inl out ↦ rw out ((false, l, k), refl, v)
        | inr inside ↦
            rw (inside, get_elem?-get_or l.reg_events fd blank (ground arith))
              (elim (Bool-cases (is_none eb.mask)) [
                | inl gone ↦ rw gone ((true, l, k), refl, v)
                | inr some_mask ↦ rw some_mask (disable_base-sized eb)
              ])
      ]
