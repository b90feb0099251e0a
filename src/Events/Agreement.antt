-- ===== src/Events/Agreement.antt =====
-- The registrations of src/util/events.c agree with the kernel's interest list, and `maxfd` is the
-- highest registered descriptor.
use nowra.Base.{
  ℕ, ◌<◌, ◌≡◌, ◌≢◌, refl, Bool, true, false, ◌&&◌, Option, none, some, arith, leb, ◌==◌,
  if◌then◌else◌, Bool-cases, inl, inr, pos, eqb_ℤ, ok, Returns, Returns-if, get_elem?, get_or, set,
  length, length-set, ◌∙◌, get_elem?-get_or, set-set,
}
use nowra.Events.Kernel.{Interest, CtlOp, Epoll, ctl_add, ctl_mod, ctl_del}
use nowra.Events.{
  Mask, EventBase, EventLoop, is_none, mask_or, mask_diff, interest_of, blank, registered,
  top_registered, raise_maxfd, event_enable_rw, event_disable_rw, enable_base, disable_base,
}
use nowra.Events.Highest.{
  mask_at, IsTop, mask_at-set, registered_of, diff_none, IsTop-raise, IsTop-lower,
}

-- What the kernel is to watch for a mask.
unfoldable pub wanted : Mask → Option Interest
wanted m = if is_none m then none else some (interest_of m)

module _ (ep : Epoll) where
  open ep use {K, ctl, interest}

  -- The loop's table has its size, the kernel watches exactly what the masks say, and `maxfd` is the
  -- highest registered descriptor.
  pub record Agrees (l : EventLoop) (k : K) : Type 0 where
    pub sized : length l.reg_events ≡ l.size
    pub same : (j : ℕ) → interest k j ≡ wanted (mask_at l.reg_events j)
    pub top : IsTop l.size l.reg_events l.maxfd

  wanted-set :
      (l : EventLoop) (k' : K) (fd : ℕ) (eb : EventBase)
      → fd < length l.reg_events
      → interest k' fd ≡ wanted eb.mask
      → ((j : ℕ) → fd ≢ j → interest k' j ≡ wanted (mask_at l.reg_events j))
      → (j : ℕ) → interest k' j ≡ wanted (mask_at (set l.reg_events fd eb) j)
  wanted-set l k' fd eb h here there j = elim (Bool-cases (fd == j)) [
    | inl same ↦
        let e : fd ≡ j = ground arith in
        rw (mask_at-set l.reg_events fd j eb h, same) (rw e at here)
    | inr other ↦ rw (mask_at-set l.reg_events fd j eb h, other) (there j (ground arith))
  ]

  module _ (l : EventLoop) (k : K) (v : Agrees l k) (fd : ℕ) (h : fd < l.size) (mask : Mask) where
    base : EventBase
    base = get_or l.reg_events fd blank

    found : get_elem? l.reg_events fd ≡ some base
    unfolding base
    found = get_elem?-get_or l.reg_events fd blank (omega (arith, v.sized))

    enable_opens :
        (callback context : ℕ)
        → event_enable_rw ep (some l) k (pos fd) callback context mask
          ≡ enable_base ep l k fd base callback context mask
    unfolding event_enable_rw
    enable_opens callback context =
        let inside : leb l.size fd ≡ false = ground arith in rw (inside, found)

    -- An accepted ADD or MOD writes the entry.
    ctl-writes :
        (b : Bool) (e : Interest)
        → (ctl k (if b then ctl_add else ctl_mod) fd e).0 ≡ true
        → interest (ctl k (if b then ctl_add else ctl_mod) fd e).1 fd ≡ some e
    ctl-writes true e h = ep.ctl-add k fd e h
    ctl-writes false e h = ep.ctl-mod k fd e h

    -- The descriptor's mask after a call that returned 0.
    abbrev pub Added : EventLoop → Type 0
    Added l' =
        (j : ℕ)
        → mask_at l'.reg_events j
          ≡ (if fd == j then mask_or (mask_at l.reg_events j) mask else mask_at l.reg_events j)

    enabled-Agrees :
        (callback context : ℕ) (k' : K)
        → is_none mask ≡ false
        → interest k' fd ≡ some (interest_of (mask_or base.mask mask))
        → ((j : ℕ) → fd ≢ j → interest k' j ≡ interest k j)
        → let l' : EventLoop = record l {
          reg_events = set l.reg_events fd (registered ep base callback context mask);
          maxfd = raise_maxfd fd l.maxfd;
        } in
          Agrees l' k' × Added l'
    unfolding wanted base
    enabled-Agrees callback context k' some_mask here there =
        let eb = registered ep base callback context mask in
        let room : fd < length l.reg_events = omega (arith, v.sized) in
        (
          record {
            sized = rw length-set v.sized;
            same =
                wanted-set l k' fd eb room (rw here (ground arith)) λ j ne. there j ne ∙ v.same j;
            top =
                IsTop-raise l.size fd l.reg_events eb h (omega (arith, v.sized)) l.maxfd v.top
                  (ground arith);
          },
          λ j. ground (arith, mask_at-set l.reg_events fd j eb room),
        )

    -- For a mask that is not EVENT_NONE, a descriptor of the loop and a loop that agrees with the kernel (its masks with
    -- the interest list, and maxfd is the highest registered descriptor), `event_enable_rw` returns. If it returns 0, the
    -- loop still agrees with the kernel, and the mask of the descriptor has the new events added; all others are kept.
    pub event_enable_rw-Agrees :
        (callback context : ℕ)
        → is_none mask ≡ false
        → Returns
            (event_enable_rw ep (some l) k (pos fd) callback context mask)
            (λ (done, l', k'). done ≡ true → Agrees l' k' × Added l')
    unfolding enable_base
    event_enable_rw-Agrees callback context some_mask =
        let e = interest_of (mask_or base.mask mask) in
        let op = if is_none base.mask then ctl_add else ctl_mod in
        rw (enable_opens callback context) (
          Returns-if (λ (done, l', k'). done ≡ true → Agrees l' k' × Added l') _ _ _
            (λ taken _. rw set-set (
              enabled-Agrees callback context (ctl k op fd e).1 some_mask
                (ctl-writes (is_none base.mask) e taken) λ j ne. ep.ctl-other k op fd e j ne))
            (λ refused b. cc))

    -- The descriptor's mask after `event_disable_rw`.
    abbrev pub Removed : EventLoop → Type 0
    Removed l' =
        (j : ℕ)
        → mask_at l'.reg_events j
          ≡ (if fd == j then mask_diff (mask_at l.reg_events j) mask else mask_at l.reg_events j)

    disable_opens :
        event_disable_rw ep (some l) k (pos fd) mask
        ≡ (if is_none base.mask then ok (true, l, k) else disable_base ep l k fd base mask)
    unfolding event_disable_rw
    disable_opens = let inside : leb l.size fd ≡ false = ground arith in rw (inside, found)

    -- An accepted MOD or DEL leaves what the remaining mask wants.
    ctl-leaves :
        (m : Mask)
        → (ctl k (if is_none m then ctl_del else ctl_mod) fd (interest_of m)).0 ≡ true
        → interest (ctl k (if is_none m then ctl_del else ctl_mod) fd (interest_of m)).1 fd
          ≡ wanted m
    unfolding wanted
    ctl-leaves m h = elim (Bool-cases (is_none m)) [
      | inl gone ↦ rw gone (ep.ctl-del k fd (interest_of m) (rw gone at h))
      | inr kept ↦ rw kept (ep.ctl-mod k fd (interest_of m) (rw kept at h))
    ]

    disabled-Agrees :
        (k' : K)
        → is_none base.mask ≡ false
        → interest k' fd ≡ wanted (mask_diff base.mask mask)
        → ((j : ℕ) → fd ≢ j → interest k' j ≡ interest k j)
        → let bases = set l.reg_events fd (record base { mask = mask_diff base.mask mask }) in
          let l' : EventLoop = record l {
            reg_events = bases;
            maxfd =
                if eqb_ℤ (pos fd) l.maxfd && is_none (mask_diff base.mask mask)
                then top_registered fd bases
                else l.maxfd;
          } in
          Agrees l' k' × Removed l'
    unfolding base
    disabled-Agrees k' some_base here there =
        let eb : EventBase = record base { mask = mask_diff base.mask mask } in
        let room : fd < length l.reg_events = omega (arith, v.sized) in
        (
          record {
            sized = rw length-set v.sized;
            same = wanted-set l k' fd eb room here λ j ne. there j ne ∙ v.same j;
            top =
                IsTop-lower l.size fd l.reg_events eb h (omega (arith, v.sized)) l.maxfd v.top
                  (registered_of l.reg_events fd some_base);
          },
          λ j. ground (arith, mask_at-set l.reg_events fd j eb room),
        )

    nothing-Removed : is_none base.mask ≡ true → Removed l
    unfolding base
    nothing-Removed gone j = elim (Bool-cases (fd == j)) [
      | inl same ↦
          let z : fd ≡ j = ground arith in
          rw same (diff_none (mask_at l.reg_events j) mask (rw z at gone))
      | inr other ↦ rw other
    ]

    refused-Agrees :
        (op : CtlOp) (e : Interest) → (ctl k op fd e).0 ≡ false → Agrees l (ctl k op fd e).1
    refused-Agrees op e no_change = record {
      sized = v.sized;
      same = λ j. ep.ctl-refused k op fd e j no_change ∙ v.same j;
      top = v.top;
    }

    -- `event_disable_rw` on a descriptor of the loop returns, and the loop agrees with the kernel
    -- after it, whether or not it returns 0. If it does, the events are taken out of the
    -- descriptor's mask and all other masks are kept.
    pub event_disable_rw-Agrees :
        Returns
          (event_disable_rw ep (some l) k (pos fd) mask)
          (λ (done, l', k'). Agrees l' k' × (done ≡ true → Removed l'))
    unfolding disable_base
    event_disable_rw-Agrees =
        let left = mask_diff base.mask mask in
        let e = interest_of left in
        let op = if is_none left then ctl_del else ctl_mod in
        rw disable_opens (elim (Bool-cases (is_none base.mask)) [
          | inl gone ↦ rw gone ((true, l, k), refl, (v, λ _. nothing-Removed gone))
          | inr some_base ↦ rw some_base (
              Returns-if (λ (done, l', k'). Agrees l' k' × (done ≡ true → Removed l')) _ _ _
                (λ taken.
                  let (agrees, gone) =
                    disabled-Agrees (ctl k op fd e).1 some_base (ctl-leaves left taken)
                      (λ j ne. ep.ctl-other k op fd e j ne) in
                  (agrees, λ _. gone))
                (λ refused. (refused-Agrees op e refused, λ b. cc)))
        ])
