-- ===== src/Events.antt =====
-- Registration of file descriptors in src/util/events.c: `event_init`, `event_enable_rw`,
-- `event_disable_rw`, and the part of `event_wait` that calls back the descriptors that are ready.
-- `epoll_ctl` is the kernel's: a parameter, with what epoll_ctl(2) says of it.
pub mod Kernel
pub mod Highest
pub mod Agreement
pub mod Poison
pub mod Sized
pub mod Stays
use nowra.Base.{
  ℕ, zero, suc, ◌+◌, ◌-◌, Bool, true, false, not, ◌&&◌, ◌||◌, Option, none, some, List, [], ◌∷◌,
  ltb, leb, ◌==◌, if◌then◌else◌, ℤ, pos, negsuc, ltb_ℤ, eqb_ℤ, Outcome, ok, abort, panic, undefined,
  ◌>>=◌, get_elem?, set, replicate,
}
use nowra.Events.Kernel.{Interest, CtlOp, ctl_add, ctl_mod, ctl_del, Epoll}

-- EVENT_READ, EVENT_WRITE, EVENT_XCPT and EVENT_TIME, a bit each; EVENT_NONE has none.
pub record Mask : Type 0 where
  pub read : Bool
  pub write : Bool
  pub xcpt : Bool
  pub time : Bool

abbrev pub event_none : Mask
event_none = record { read = false; write = false; xcpt = false; time = false }

abbrev pub event_read : Mask
event_read = record { read = true; write = false; xcpt = false; time = false }

abbrev pub event_write : Mask
event_write = record { read = false; write = true; xcpt = false; time = false }

-- `m == EVENT_NONE`
abbrev pub is_none : Mask → Bool
is_none m = not (m.read || m.write || m.xcpt || m.time)

-- `m | n`
abbrev pub mask_or : Mask → Mask → Mask
mask_or m n = record {
  read = m.read || n.read;
  write = m.write || n.write;
  xcpt = m.xcpt || n.xcpt;
  time = m.time || n.time;
}

-- `m & ~n`
abbrev pub mask_diff : Mask → Mask → Mask
mask_diff m n = record {
  read = m.read && not n.read;
  write = m.write && not n.write;
  xcpt = m.xcpt && not n.xcpt;
  time = m.time && not n.time;
}

-- `event_base`; callbacks and the context are addresses.
pub record EventBase : Type 0 where
  pub mask : Mask
  pub read_cb : ℕ
  pub write_cb : ℕ
  pub client_data : ℕ

-- `event_loop`; its epoll descriptor and event array belong to the kernel's side.
pub record EventLoop : Type 0 where
  pub maxfd : ℤ
  pub size : ℕ
  pub reg_events : List EventBase

-- What `mymalloc` leaves in the callbacks is never read before it is set.
abbrev pub blank : EventBase
blank = record { mask = event_none; read_cb = 0; write_cb = 0; client_data = 0 }

-- The loop that `event_init` fills in.
abbrev pub new_loop : ℕ → EventLoop
new_loop size = record { maxfd = negsuc 0; size = size; reg_events = replicate size blank }

-- `event_init`: NULL if `epoll_create` fails.
unfoldable pub event_init : (created : Bool) → ℕ → Option EventLoop
event_init created size = if created then some (new_loop size) else none

-- `ee.events` for a mask
abbrev pub interest_of : Mask → Interest
interest_of m = record { epollin = m.read; epollout = m.write }

-- `for (j = maxfd - 1; j >= 0; j--) if (reg_events[j].mask != EVENT_NONE) break;`, `n` rounds left.
unfoldable pub top_registered : ℕ → List EventBase → ℤ
top_registered zero bases = negsuc 0
top_registered (suc n) bases =
    let below = top_registered n bases in
    elim (get_elem? bases n) [ none ↦ below | some eb ↦ if is_none eb.mask then below else pos n ]

-- `if (fd > maxfd) maxfd = fd`
abbrev pub raise_maxfd : ℕ → ℤ → ℤ
raise_maxfd fd maxfd = if ltb_ℤ maxfd (pos fd) then pos fd else maxfd

module _ (ep : Epoll) where
  open ep use {K, ctl}

  -- The result of a call: did it return 0, and the loop and the kernel after it.
  abbrev pub Called : Type 0
  Called = Outcome (Bool × EventLoop × K)

  -- The entry `eb`, once `epoll_ctl` has accepted the change.
  abbrev pub registered : EventBase → (callback context : ℕ) → Mask → EventBase
  registered eb callback context mask = record {
    mask = mask_or eb.mask mask;
    read_cb = if mask.read then callback else eb.read_cb;
    write_cb = if mask.write then callback else eb.write_cb;
    client_data = context;
  }

  enable_base : EventLoop → K → ℕ → EventBase → (callback context : ℕ) → Mask → Called
  enable_base l k fd eb callback context mask =
      let op = if is_none eb.mask then ctl_add else ctl_mod in
      let marked = set l.reg_events fd (record eb { mask = mask_or eb.mask mask }) in
      let (accepted, k') = ctl k op fd (interest_of (mask_or eb.mask mask)) in
      if accepted
      then ok (
        true,
        record l {
          reg_events = set marked fd (registered eb callback context mask);
          maxfd = raise_maxfd fd l.maxfd;
        },
        k',
      )
      else ok (false, record l { reg_events = marked }, k')

  -- `event_enable_rw`
  unfoldable pub event_enable_rw : Option EventLoop → K → ℤ → (callback context : ℕ) → Mask → Called
  unfolding enable_base
  event_enable_rw none k fd callback context mask = abort (panic "%s: event no init.")
  event_enable_rw (some l) k (negsuc n) callback context mask =
      abort (panic "%s: bad file descriptor: %d")
  event_enable_rw (some l) k (pos fd) callback context mask =
      if leb l.size fd then ok (false, l, k) else elim (get_elem? l.reg_events fd) [
        | none ↦ abort undefined
        | some eb ↦ enable_base l k fd eb callback context mask
      ]

  disable_base : EventLoop → K → ℕ → EventBase → Mask → Called
  disable_base l k fd eb mask =
      let left = mask_diff eb.mask mask in
      let op = if is_none left then ctl_del else ctl_mod in
      let (accepted, k') = ctl k op fd (interest_of left) in
      let bases = set l.reg_events fd (record eb { mask = left }) in
      if accepted
      then ok (
        true,
        record l {
          reg_events = bases;
          maxfd =
              if eqb_ℤ (pos fd) l.maxfd && is_none left then top_registered fd bases else l.maxfd;
        },
        k',
      )
      else ok (false, l, k')

  -- `event_disable_rw`
  unfoldable pub event_disable_rw : Option EventLoop → K → ℤ → Mask → Called
  unfolding disable_base
  event_disable_rw none k fd mask = abort (panic "%s: event no init.")
  event_disable_rw (some l) k (negsuc n) mask = abort (panic "%s: bad file descriptor: %d")
  event_disable_rw (some l) k (pos fd) mask =
      if leb l.size fd then ok (false, l, k) else elim (get_elem? l.reg_events fd) [
        | none ↦ abort undefined
        | some eb ↦ if is_none eb.mask then ok (true, l, k) else disable_base l k fd eb mask
      ]
