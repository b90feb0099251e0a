-- ===== src/Timer/Queue.antt =====
-- The queue of timers of src/util/events.c: order, at most one entry for a callback and context,
-- and what the two loops over it do.
use nowra.Base.{
  ℕ, ◌+◌, ◌≤◌, ◌<◌, ◌≡◌, refl, ap, true, Option, none, some, List, [], ◌∷◌, ◌++◌, arith, ltb,
  if◌then◌else◌, Bool-cases, inl, inr, to_nat, weight, All, All-mono,
}
use nowra.Timer.{Timer, is_for, detach_match, insert_timer}

-- In the order of the time of the event.
abbrev pub IsSorted : List Timer → Type 0
IsSorted [] = Unit {0}
IsSorted (t ∷ q) = All (λ u. t.when ≤ u.when) q × IsSorted q

unfoldable pub count : ℕ → ℕ → List Timer → ℕ
count callback context = weight (λ t. to_nat (is_for callback context t))

-- When the entry for a callback and context is due.
unfoldable pub deadline : ℕ → ℕ → List Timer → Option ℕ
deadline callback context [] = none
deadline callback context (t ∷ q) =
    if is_for callback context t then some t.when else deadline callback context q

pub record IsQueue (q : List Timer) : Type 0 where
  pub sorted : IsSorted q
  pub once : (callback context : ℕ) → count callback context q ≤ 1

-- `q` with a timer put behind all that are due no later, and before all that are due later.
pub record Inserted (t : Timer) (q : List Timer) (r : List Timer) : Type 0 where
  pub before : List Timer
  pub after : List Timer
  pub split : q ≡ before ++ after
  pub joined : r ≡ before ++ t ∷ after
  pub earlier : All (λ u. u.when ≤ t.when) before
  pub later : All (λ u. t.when < u.when) after

pub insert_timer-Inserted :
    (t : Timer) (q : List Timer) → IsSorted q → Inserted t q (insert_timer t q)
unfolding insert_timer
insert_timer-Inserted t [] s = record {
  before = [];
  after = [];
  split = refl;
  joined = refl;
  earlier = tt;
  later = tt;
}
insert_timer-Inserted t (u ∷ q) s = elim (Bool-cases (ltb t.when u.when)) [
  | inl lt ↦ rw lt (record {
    before = [];
    after = u ∷ q;
    split = refl;
    joined = refl;
    earlier = tt;
    later = (ground arith, All-mono (λ v. u.when ≤ v.when) _ q (λ v h. ground arith) s.0);
  })
  | inr ge ↦
      let rest = insert_timer-Inserted t q s.1 in
      rw ge (record {
        before = u ∷ rest.before;
        after = rest.after;
        split = ap (λ l. u ∷ l) rest.split;
        joined = ap (λ l. u ∷ l) rest.joined;
        earlier = (ground arith, rest.earlier);
        later = rest.later;
      })
]

All-insert_timer :
    (P : Timer → Type 0) (t : Timer) (q : List Timer) → P t → All P q → All P (insert_timer t q)
unfolding insert_timer
All-insert_timer P t [] h hq = (h, tt)
All-insert_timer P t (u ∷ q) h hq = elim (Bool-cases (ltb t.when u.when)) [
  | inl lt ↦ rw lt (h, hq)
  | inr ge ↦ rw ge (hq.0, All-insert_timer P t q h hq.1)
]

pub insert_timer-IsSorted : (t : Timer) (q : List Timer) → IsSorted q → IsSorted (insert_timer t q)
unfolding insert_timer
insert_timer-IsSorted t [] s = (tt, tt)
insert_timer-IsSorted t (u ∷ q) s = elim (Bool-cases (ltb t.when u.when)) [
  | inl lt ↦
      rw lt ((ground arith, All-mono (λ v. u.when ≤ v.when) _ q (λ v h. ground arith) s.0), s)
  | inr ge ↦ rw ge (
    All-insert_timer (λ v. u.when ≤ v.when) t q (ground arith) s.0,
    insert_timer-IsSorted t q s.1,
  )
]

pub count-insert_timer :
    (c x : ℕ) (t : Timer) (q : List Timer)
    → count c x (insert_timer t q) ≡ to_nat (is_for c x t) + count c x q
unfolding insert_timer count
count-insert_timer c x t [] = refl
count-insert_timer c x t (u ∷ q) = elim (Bool-cases (ltb t.when u.when)) [
  | inl lt ↦ rw lt
  | inr ge ↦ rw ge (omega (arith, count-insert_timer c x t q))
]

All-detach_match :
    (P : Timer → Type 0) (c x : ℕ) (q : List Timer) → All P q → All P (detach_match c x q).1
unfolding detach_match
All-detach_match P c x [] h = tt
All-detach_match P c x (t ∷ q) h = elim (Bool-cases (is_for c x t)) [
  | inl same ↦ rw same h.1
  | inr other ↦ rw other (h.0, All-detach_match P c x q h.1)
]

pub detach_match-IsSorted :
    (c x : ℕ) (q : List Timer) → IsSorted q → IsSorted (detach_match c x q).1
unfolding detach_match
detach_match-IsSorted c x [] s = tt
detach_match-IsSorted c x (t ∷ q) s = elim (Bool-cases (is_for c x t)) [
  | inl same ↦ rw same s.1
  | inr other ↦
      rw other (All-detach_match (λ v. t.when ≤ v.when) c x q s.0, detach_match-IsSorted c x q s.1)
]

pub count-detach_match-le :
    (c x d y : ℕ) (q : List Timer) → count d y (detach_match c x q).1 ≤ count d y q
unfolding detach_match count
count-detach_match-le c x d y [] = omega arith
count-detach_match-le c x d y (t ∷ q) = elim (Bool-cases (is_for c x t)) [
  | inl same ↦ rw same (omega arith)
  | inr other ↦ rw other (omega (arith, count-detach_match-le c x d y q))
]

-- The first entry for a key goes: with at most one there is none left.
pub count-detach_match_self :
    (c x : ℕ) (q : List Timer) → count c x q ≤ 1 → count c x (detach_match c x q).1 ≡ 0
unfolding detach_match count
count-detach_match_self c x [] h = refl
count-detach_match_self c x (t ∷ q) h = elim (Bool-cases (is_for c x t)) [
  | inl same ↦ rw same (omega (arith, (rw same at h)))
  | inr other ↦ rw (other, other) (ground (arith, count-detach_match_self c x q))
]

pub deadline-eq-none : (c x : ℕ) (q : List Timer) → count c x q ≡ 0 → deadline c x q ≡ none
unfolding deadline count
deadline-eq-none c x [] h = refl
deadline-eq-none c x (t ∷ q) h = ground (arith, deadline-eq-none c x q)

pub is_for-eq : (c x : ℕ) (t : Timer) → is_for c x t ≡ true → (t.callback ≡ c) × (t.context ≡ x)
is_for-eq c x t h = ground arith

pub deadline-insert_timer :
    (c x : ℕ) (t : Timer) (q : List Timer)
    → (is_for c x t ≡ true → count c x q ≡ 0)
    → deadline c x (insert_timer t q) ≡ (if is_for c x t then some t.when else deadline c x q)
unfolding insert_timer deadline count
deadline-insert_timer c x t [] h = refl
deadline-insert_timer c x t (u ∷ q) h = elim (Bool-cases (ltb t.when u.when)) [
  | inl lt ↦ rw lt
  | inr ge ↦ elim (Bool-cases (is_for c x u)) [
    | inl hit ↦ ground (arith, h)
    | inr miss ↦ rw (ge, miss) (deadline-insert_timer c x t q λ e. omega (arith, h e))
  ]
]

-- Entries for other keys keep their deadlines.
pub deadline-detach_match :
    (c x d y : ℕ) (q : List Timer)
    → (c ≡ d → x ≡ y → ⊥)
    → deadline d y (detach_match c x q).1 ≡ deadline d y q
unfolding detach_match deadline
deadline-detach_match c x d y [] h = refl
deadline-detach_match c x d y (t ∷ q) h = elim (Bool-cases (is_for c x t)) [
  | inl hit ↦ ground (arith, h)
  | inr miss ↦ rw miss (ground (arith, deadline-detach_match c x d y q h))
]
