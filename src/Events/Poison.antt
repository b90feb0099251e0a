-- ===== src/Events/Poison.antt =====
-- What a refused registration does to later ones in `event_enable_rw` of src/util/events.c: the mask
-- is written before `epoll_ctl` is asked, and is not taken back when it refuses.
use nowra.Base.{
  ℕ, ◌<◌, ◌≡◌, refl, ◌⊎◌, inl, inr, true, false, none, some, arith, leb, if◌then◌else◌, pos,
  Returns, length, get_or, set, get_elem?-get_or, length-set, ◌∙◌,
}
use nowra.Events.Kernel.{Epoll, ctl_add, ctl_mod}
use nowra.Events.{Mask, EventBase, EventLoop, blank, is_none, mask_or, interest_of, event_enable_rw}
use nowra.Events.Highest.{mask_at, mask_at-set}

module _ (ep : Epoll) where
  open ep use {K, ctl, interest}

  -- The mask says that the descriptor is registered, and the kernel does not watch it.
  pub record Stuck (l : EventLoop) (k : K) (fd : ℕ) : Type 0 where
    pub inside : fd < l.size
    pub sized : length l.reg_events ≡ l.size
    pub marked : is_none (mask_at l.reg_events fd) ≡ false
    pub unwatched : interest k fd ≡ none

  -- A descriptor that is not registered, of which the kernel refuses the first registration.
  pub record Refused (l : EventLoop) (k : K) (fd : ℕ) (mask : Mask) : Type 0 where
    pub inside : fd < l.size
    pub sized : length l.reg_events ≡ l.size
    pub unmarked : is_none (mask_at l.reg_events fd) ≡ true
    pub unwatched : interest k fd ≡ none
    pub some_mask : is_none mask ≡ false
    pub refused :
        (ctl k ctl_add fd (interest_of (mask_or (mask_at l.reg_events fd) mask))).0 ≡ false

  module _ (l : EventLoop) (k : K) (fd : ℕ) (inside : fd < l.size)
      (sized : length l.reg_events ≡ l.size) (callback context : ℕ) (mask : Mask) where
    -- A refusal by the kernel leaves the mask behind.
    refusal :
        let old = mask_at l.reg_events fd in
        let op = if is_none old then ctl_add else ctl_mod in
        (ctl k op fd (interest_of (mask_or old mask))).0 ≡ false
        → is_none (mask_or old mask) ≡ false
        → interest k fd ≡ none
        → Returns
            (event_enable_rw ep (some l) k (pos fd) callback context mask)
            (λ (done, l', k'). (done ≡ false) × Stuck l' k' fd)
    unfolding event_enable_rw
    refusal refused marked unwatched =
        let old = mask_at l.reg_events fd in
        let op = if is_none old then ctl_add else ctl_mod in
        let low : leb l.size fd ≡ false = ground arith in
        let room : fd < length l.reg_events = omega arith in
        let eb : EventBase = record (get_or l.reg_events fd blank) { mask = mask_or old mask } in
        (
          (
            false,
            record l { reg_events = set l.reg_events fd eb },
            (ctl k op fd (interest_of (mask_or old mask))).1,
          ),
          rw (low, get_elem?-get_or l.reg_events fd blank room, refused),
          (
            refl,
            record {
              inside = inside;
              sized = rw length-set sized;
              marked = ground (arith, mask_at-set l.reg_events fd fd eb room);
              unwatched = ep.ctl-refused k op fd _ fd refused ∙ unwatched;
            },
          ),
        )

  -- When the kernel refuses the first registration of a descriptor, `event_enable_rw` returns -1, and
  -- from then on every call for this descriptor returns -1, whatever the kernel would now accept:
  -- the mask that was left behind makes it ask for EPOLL_CTL_MOD.
  pub event_enable_rw-Stuck :
      (l : EventLoop) (k : K) (fd callback context : ℕ) (mask : Mask)
      → Refused l k fd mask ⊎ Stuck l k fd
      → Returns
          (event_enable_rw ep (some l) k (pos fd) callback context mask)
          (λ (done, l', k'). (done ≡ false) × Stuck l' k' fd)
  event_enable_rw-Stuck l k fd callback context mask (inl r) =
      refusal l k fd r.inside r.sized callback context mask (rw r.unmarked r.refused)
        (ground (arith, r.some_mask)) r.unwatched
  event_enable_rw-Stuck l k fd callback context mask (inr s) =
      refusal l k fd s.inside s.sized callback context mask
        (rw s.marked (ep.mod-absent k fd _ s.unwatched)) (ground (arith, s.marked)) s.unwatched
