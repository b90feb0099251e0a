-- ===== src/Master/Counts.antt =====
-- The counts that a MASTER_SERV keeps, `total_proc` and `avail_proc`, against numbers given from
-- outside, and what the writes to a service do to them.
use nowra.Base.{
  ℕ, ◌+◌, ◌<◌, ◌≡◌, refl, true, ◌&&◌, Option, none, some, arith, ◌==◌, if◌then◌else◌, pos, eqb_ℤ,
  to_nat, Bool-cases, inl, inr, weight,
}
use nowra.Events.Kernel.{Epoll}
use nowra.Events.Sized.{IsSized}
use nowra.Timer.Request.{IsValid}
use nowra.Master.Table.{Proc, ChildTable, stat_taken, stat_avail}
use nowra.Master.{Serv, Flags, World, update, set_flags, store_in, find_in}
use nowra.Master.Listening.{is_nonneg, relisten}

-- `total_proc` is `T` and `avail_proc` is `A`, for every service; a service with children has an open
-- listen socket, and no throttle delay is negative.
pub record Counts (T A : ℕ → ℕ) (servs : ℕ → Serv) : Type 0 where
  pub totals : (r : ℕ) → (servs r).total_proc ≡ pos (T r)
  pub avails : (r : ℕ) → (servs r).avail_proc ≡ pos (A r)
  pub delays : (r : ℕ) → is_nonneg (servs r).throttle_delay ≡ true
  pub opened : (r : ℕ) → 0 < T r → is_nonneg (servs r).listen_fd ≡ true

-- `f` with its value at `s` replaced
abbrev pub at : ℕ → ℕ → (ℕ → ℕ) → ℕ → ℕ
at s n f r = if s == r then n else f r

-- A write of a service that keeps its delay and its socket.
pub Counts-update :
    {T A : ℕ → ℕ} (servs : ℕ → Serv) (s t a : ℕ) (v : Serv)
    → Counts T A servs
    → v.total_proc ≡ pos t
    → v.avail_proc ≡ pos a
    → v.throttle_delay ≡ (servs s).throttle_delay
    → v.listen_fd ≡ (servs s).listen_fd
    → is_nonneg (servs s).listen_fd ≡ true
    → Counts (at s t T) (at s a A) (update servs s v)
Counts-update {T} {A} servs s t a v c total avail delay fd open_fd = record {
  totals = λ r. elim (Bool-cases (s == r)) [
    | inl same ↦ rw same total
    | inr other ↦ rw other (c.totals r)
  ];
  avails = λ r. elim (Bool-cases (s == r)) [
    | inl same ↦ rw same avail
    | inr other ↦ rw other (c.avails r)
  ];
  delays = λ r. elim (Bool-cases (s == r)) [
    | inl same ↦ rw (same, delay) (c.delays s)
    | inr other ↦ rw other (c.delays r)
  ];
  opened = λ r. elim (Bool-cases (s == r)) [
    | inl same ↦ rw (same, fd) (λ _. open_fd)
    | inr other ↦ rw other (c.opened r)
  ];
}

pub Counts-cong :
    {T A T' A' : ℕ → ℕ} {servs : ℕ → Serv}
    → Counts T A servs
    → ((r : ℕ) → T r ≡ T' r)
    → ((r : ℕ) → A r ≡ A' r)
    → Counts T' A' servs
Counts-cong c t a = record {
  totals = λ r. rw (← t r) (c.totals r);
  avails = λ r. rw (← a r) (c.avails r);
  delays = c.delays;
  opened = λ r h. c.opened r (rw (t r) h);
}

-- Only flags differ.
pub record SameButFlags (servs servs' : ℕ → Serv) : Type 0 where
  pub total : (r : ℕ) → (servs' r).total_proc ≡ (servs r).total_proc
  pub avail : (r : ℕ) → (servs' r).avail_proc ≡ (servs r).avail_proc
  pub delay : (r : ℕ) → (servs' r).throttle_delay ≡ (servs r).throttle_delay
  pub listen_fd : (r : ℕ) → (servs' r).listen_fd ≡ (servs r).listen_fd
  pub max_proc : (r : ℕ) → (servs' r).max_proc ≡ (servs r).max_proc

pub Counts-SameButFlags :
    {T A : ℕ → ℕ} {servs servs' : ℕ → Serv}
    → SameButFlags servs servs'
    → Counts T A servs
    → Counts T A servs'
Counts-SameButFlags e c = record {
  totals = λ r. rw (e.total r) (c.totals r);
  avails = λ r. rw (e.avail r) (c.avails r);
  delays = λ r. rw (e.delay r) (c.delays r);
  opened = λ r h. rw (e.listen_fd r) (c.opened r h);
}

pub relisten-SameButFlags :
    (servs servs' : ℕ → Serv) (s : ℕ)
    → ((r : ℕ) → servs' r ≡ (if s == r then relisten (servs r) else servs r))
    → SameButFlags servs servs'
relisten-SameButFlags servs servs' s h = record {
  total = λ r. rw (h r) (ground arith);
  avail = λ r. rw (h r) (ground arith);
  delay = λ r. rw (h r) (ground arith);
  listen_fd = λ r. rw (h r) (ground arith);
  max_proc = λ r. rw (h r) (ground arith);
}

-- A field that a write leaves as it is.
update-keeps :
    {B : Type 0} (field : Serv → B) (servs : ℕ → Serv) (s : ℕ) (v : Serv)
    → field v ≡ field (servs s)
    → (r : ℕ) → field (update servs s v r) ≡ field (servs r)
update-keeps field servs s v kept r = elim (Bool-cases (s == r)) [
  | inl same ↦ let e : s ≡ r = ground arith in rw same (rw e at kept)
  | inr other ↦ rw other
]

pub flags-SameButFlags :
    (servs : ℕ → Serv) (s : ℕ) (f : Flags)
    → SameButFlags servs (update servs s (record (servs s) { flags = f }))
flags-SameButFlags servs s f = record {
  total = update-keeps (λ v. v.total_proc) servs s _ refl;
  avail = update-keeps (λ v. v.avail_proc) servs s _ refl;
  delay = update-keeps (λ v. v.throttle_delay) servs s _ refl;
  listen_fd = update-keeps (λ v. v.listen_fd) servs s _ refl;
  max_proc = update-keeps (λ v. v.max_proc) servs s _ refl;
}

-- How the weight of the child table is made up.
abbrev pub is_child_of : ℕ → Proc → ℕ
is_child_of s p = to_nat (p.serv == s)

abbrev pub is_idle_child_of : ℕ → Proc → ℕ
is_idle_child_of s p = to_nat (p.serv == s && eqb_ℤ p.avail stat_avail)

-- A child whose `avail` is neither MASTER_STAT_TAKEN nor MASTER_STAT_AVAIL.
abbrev pub has_odd_status : Proc → ℕ
has_odd_status p = if eqb_ℤ p.avail stat_avail then 0 else if eqb_ℤ p.avail stat_taken then 0 else 1

module _ (ep : Epoll) (ct : ChildTable) where
  -- The weight of all entries; a table that is still NULL has none.
  unfoldable pub load : (Proc → ℕ) → Option ct.T → ℕ
  load f none = 0
  load f (some t) = weight f (ct.entries t)

  unfoldable pub TableIsValid : Option ct.T → Type 0
  TableIsValid none = Unit {0}
  TableIsValid (some t) = ct.IsValid t

  -- What holds of the master's state between any two steps, with the counts given.
  pub record IsCounted (T A : ℕ → ℕ) (w : World ep ct) : Type 0 where
    pub sized : IsSized w.event_loop
    pub table : TableIsValid w.child_table
    pub statuses : load has_odd_status w.child_table ≡ 0
    pub timers : IsValid w.timers
    pub clock : 0 < w.clock
    pub counts : Counts T A w.servs

  -- The bookkeeping is right: `total_proc` counts the service's children in the table, and
  -- `avail_proc` those that are available.
  abbrev pub IsConsistent : World ep ct → Type 0
  IsConsistent w =
      IsCounted (λ s. load (is_child_of s) w.child_table)
        (λ s. load (is_idle_child_of s) w.child_table) w

  pub store_in-IsValid :
      (p : Proc) (tb : Option ct.T) → TableIsValid tb → TableIsValid (store_in ep ct p tb)
  unfolding store_in TableIsValid
  store_in-IsValid p none v = tt
  store_in-IsValid p (some t) v = ct.store-IsValid t p.pid p v refl

  pub find_in-pid :
      (tb : Option ct.T) (pid : ℕ) (p : Proc)
      → TableIsValid tb
      → find_in ep ct pid tb ≡ some p
      → p.pid ≡ pid
  unfolding find_in TableIsValid
  find_in-pid none pid p v e = cc
  find_in-pid (some t) pid p v e = ct.find-pid t pid p v e

  module _ (p old : Proc) (f : Proc → ℕ) where
    pub load-store_in :
        (tb : Option ct.T)
        → TableIsValid tb
        → find_in ep ct p.pid tb ≡ some old
        → load f (store_in ep ct p tb) + f old ≡ load f tb + f p
    unfolding store_in find_in TableIsValid load
    load-store_in none v e = cc
    load-store_in (some t) v e = ct.store-weight t p.pid old p f v e

  pub find_in-store_in :
      (p old : Proc) (tb : Option ct.T)
      → TableIsValid tb
      → find_in ep ct p.pid tb ≡ some old
      → find_in ep ct p.pid (store_in ep ct p tb) ≡ some p
  unfolding store_in find_in TableIsValid
  find_in-store_in p old none v e = cc
  find_in-store_in p old (some t) v e = ct.find-store t p.pid old p v e

  pub recounted :
      {T A : ℕ → ℕ} (w : World ep ct)
      → IsCounted T A w
      → ((r : ℕ) → T r ≡ load (is_child_of r) w.child_table)
      → ((r : ℕ) → A r ≡ load (is_idle_child_of r) w.child_table)
      → IsConsistent w
  recounted w c t a = record {
    sized = c.sized;
    table = c.table;
    statuses = c.statuses;
    timers = c.timers;
    clock = c.clock;
    counts = Counts-cong c.counts t a;
  }

  pub reflagged :
      {T A : ℕ → ℕ} (w : World ep ct) (s : ℕ) (f : Flags)
      → IsCounted T A w
      → IsCounted T A (set_flags ep ct s f w)
  reflagged w s f c = record {
    sized = c.sized;
    table = c.table;
    statuses = c.statuses;
    timers = c.timers;
    clock = c.clock;
    counts = Counts-SameButFlags (flags-SameButFlags w.servs s f) c.counts;
  }
