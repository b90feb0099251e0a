-- ===== src/Events/Stays.antt =====
-- `event_disable_rw` of src/util/events.c leaves the functions of a descriptor registered, so that `event_wait` still calls them
-- for an event that was reported before.
use nowra.Base.{
  ℕ, zero, suc, ◌≡◌, refl, Bool, true, false, ◌&&◌, some, List, [], ◌∷◌, arith, leb, pos, eqb_ℤ,
  ltb_ℤ, ok, get_elem?, set, if◌then◌else◌, Ensures, Ensures-ok, Ensures-if,
}
use nowra.Events.{
  EventBase, EventLoop, Mask, is_none, mask_diff, interest_of, top_registered, disable_base,
  event_disable_rw,
}
use nowra.Events.Kernel.{Epoll, ctl_del, ctl_mod}

get_elem?-set :
    {A : Type 0} (xs : List A) (i : ℕ) (x y : A)
    → get_elem? xs i ≡ some x
    → get_elem? (set xs i y) i ≡ some y
get_elem?-set [] i x y h = cc
get_elem?-set (z ∷ xs) zero x y h = refl
get_elem?-set (z ∷ xs) (suc i) x y h = get_elem?-set xs i x y h

-- `event_wait` calls this function with this context when the descriptor is reported for reading.
abbrev pub IsCalled : (fd callback context : ℕ) → EventLoop → Type 0
IsCalled fd callback context l =
    (ltb_ℤ l.maxfd (pos fd) ≡ false)
    × ((eb : EventBase) × (get_elem? l.reg_events fd ≡ some eb)
        × (eb.read_cb ≡ callback)
        × (eb.client_data ≡ context))

module _ (ep : Epoll) (l : EventLoop) (k : ep.K) (fd callback context : ℕ) (mask : Mask)
    (called : IsCalled fd callback context l) (lower : ltb_ℤ (pos fd) l.maxfd ≡ true) where
  abbrev Stays : Bool × EventLoop × ep.K → Type 0
  Stays r = IsCalled fd callback context r.1

  not_highest : eqb_ℤ (pos fd) l.maxfd ≡ false
  not_highest = ground arith

  disable_base-IsCalled :
      (eb : EventBase)
      → get_elem? l.reg_events fd ≡ some eb
      → eb.read_cb ≡ callback
      → eb.client_data ≡ context
      → Ensures Stays (disable_base ep l k fd eb mask)
  unfolding disable_base
  disable_base-IsCalled eb found same_cb same_data =
      let left = mask_diff eb.mask mask in
      let (accepted, k') =
        ep.ctl k (if is_none left then ctl_del else ctl_mod) fd (interest_of left) in
      let bases = set l.reg_events fd (record eb { mask = left }) in
      let after : EventLoop = record l {
        reg_events = bases;
        maxfd = if eqb_ℤ (pos fd) l.maxfd && is_none left then top_registered fd bases else l.maxfd;
      } in
      Ensures-if Stays accepted (ok (true, after, k')) (ok (false, l, k'))
        (Ensures-ok Stays (true, after, k')
          (
            rw not_highest called.0,
            (_, get_elem?-set l.reg_events fd eb _ found, same_cb, same_data),
          ))
        (Ensures-ok Stays (false, l, k') called)

  pub event_disable_rw-IsCalled : Ensures Stays (event_disable_rw ep (some l) k (pos fd) mask)
  unfolding event_disable_rw
  event_disable_rw-IsCalled =
      let (below, (eb, found, same_cb, same_data)) = called in
      rw found (
        Ensures-if Stays (leb l.size fd) _ _ (Ensures-ok Stays (false, l, k) called) (
          Ensures-if Stays (is_none eb.mask) _ _ (Ensures-ok Stays (true, l, k) called)
            (disable_base-IsCalled eb found same_cb same_data)))
