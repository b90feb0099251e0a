-- ===== src/Master/Status/Told.antt =====
-- What a child tells through the pipe of src/master/master_status.c, and what that does to the counts.
use nowra.Base.{
  ℕ, ◌+◌, ◌-◌, ◌≡◌, ◌⊎◌, ap, subst, Bool, true, false, ◌&&◌, some, arith, ◌==◌, if◌then◌else◌, ℤ,
  pos, negsuc, eqb_ℤ, to_nat, Bool-cases, inl, inr,
}
use nowra.Events.Kernel.{Epoll}
use nowra.Master.Table.{Proc, ChildTable, stat_taken, stat_avail}
use nowra.Master.{World, find_in}
use nowra.Master.Counts.{at, load, IsConsistent}

-- The status that a child tells replaces the other in the count of the available ones.
pub one_more :
    (s r : ℕ) (b : Bool) (f : ℕ → ℕ) (m : ℕ)
    → b ≡ false
    → m + to_nat (s == r && b) ≡ f r + to_nat (s == r && true)
    → at s (f s + 1) f r ≡ m
one_more s r b f m off h = elim (Bool-cases (s == r)) [
  | inl same ↦
      let e : s ≡ r = ground arith in
      let h' : m + 0 ≡ f r + 1 = rw (same, off) at h in rw (same, e) (omega arith)
  | inr other ↦ let h' : m + 0 ≡ f r + 0 = rw other at h in rw other (omega arith)
]

pub one_less :
    (s r : ℕ) (b : Bool) (f : ℕ → ℕ) (m : ℕ)
    → b ≡ true
    → m + to_nat (s == r && b) ≡ f r + to_nat (s == r && false)
    → at s (f s - 1) f r ≡ m
one_less s r b f m on h = elim (Bool-cases (s == r)) [
  | inl same ↦
      let e : s ≡ r = ground arith in
      let h' : m + 1 ≡ f r + 0 = rw (same, on) at h in rw (same, e) (omega arith)
  | inr other ↦ let h' : m + 0 ≡ f r + 0 = rw other at h in rw other (omega arith)
]

pub as_many :
    (s r : ℕ) (f : ℕ → ℕ) (m : ℕ) → m + to_nat (s == r) ≡ f r + to_nat (s == r) → at s (f s) f r ≡ m
as_many s r f m h = elim (Bool-cases (s == r)) [
  | inl same ↦ let e : s ≡ r = ground arith in rw (same, e) (omega arith)
  | inr other ↦ rw other (omega arith)
]

-- The entry of a child that told `a`: its status is `a`, and `use_count` went up if it is available.
abbrev pub told : Proc → ℤ → Proc
told p a = record p {
  avail = a;
  use_count = if eqb_ℤ a stat_avail then p.use_count + 1 else p.use_count;
}

-- The bookkeeping is right, the entry is as told, and the other entries are as they were.
abbrev pub Told : (ep : Epoll) (ct : ChildTable) → Proc → World ep ct → ℤ → World ep ct → Type 0
Told ep ct p w a w' =
    IsConsistent ep ct w'
    × (find_in ep ct p.pid w'.child_table ≡ some (told p a))
    × ((f : Proc → ℕ)
        → load ep ct f w'.child_table + f p ≡ load ep ct f w.child_table + f (told p a))

pub eqb_ℤ-eq : (a b : ℤ) → eqb_ℤ a b ≡ true → a ≡ b
eqb_ℤ-eq (pos a) (pos b) h = let e : a ≡ b = ground arith in ap pos e
eqb_ℤ-eq (negsuc a) (negsuc b) h = let e : a ≡ b = ground arith in ap negsuc e
eqb_ℤ-eq (pos a) (negsuc b) h = cc
eqb_ℤ-eq (negsuc a) (pos b) h = cc

-- A status that is told and differs from that of the entry, which is not odd.
unfoldable pub Differs : ℤ → ℤ → Type 0
Differs z a =
    ((a ≡ stat_avail) × (z ≡ stat_taken))
    ⊎ ((a ≡ stat_taken) × (z ≡ stat_avail))
    ⊎ ((eqb_ℤ a stat_avail ≡ false) × (eqb_ℤ a stat_taken ≡ false))

unfoldable pub is_odd : ℤ → ℕ
is_odd z = if eqb_ℤ z stat_avail then 0 else if eqb_ℤ z stat_taken then 0 else 1

pub odd_of : (z : ℤ) → eqb_ℤ z stat_avail ≡ false → eqb_ℤ z stat_taken ≡ false → is_odd z ≡ 1
unfolding is_odd
odd_of z h k = rw (h, k)

pub differs : (z a : ℤ) → is_odd z ≡ 0 → eqb_ℤ z a ≡ false → Differs z a
unfolding Differs
differs z a even other = elim (Bool-cases (eqb_ℤ a stat_avail)) [
  | inl idle ↦
      let e = eqb_ℤ-eq a stat_avail idle in
      let other' : eqb_ℤ z stat_avail ≡ false = subst (λ x. eqb_ℤ z x ≡ false) e other in
      elim (Bool-cases (eqb_ℤ z stat_taken)) [
        | inl taken ↦ inl (e, eqb_ℤ-eq z stat_taken taken)
        | inr odd ↦ let o = odd_of z other' odd in cc
      ]
  | inr not_idle ↦ elim (Bool-cases (eqb_ℤ a stat_taken)) [
    | inr not_taken ↦ inr (inr (not_idle, not_taken))
    | inl taken ↦
        let e = eqb_ℤ-eq a stat_taken taken in
        let other' : eqb_ℤ z stat_taken ≡ false = subst (λ x. eqb_ℤ z x ≡ false) e other in
        elim (Bool-cases (eqb_ℤ z stat_avail)) [
          | inl idle ↦ inr (inl (e, eqb_ℤ-eq z stat_avail idle))
          | inr odd ↦ let o = odd_of z odd other' in cc
        ]
  ]
]
