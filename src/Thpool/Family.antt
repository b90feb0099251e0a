-- ===== src/Thpool/Family.antt =====
-- Families indexed by thread: what one thread changes, and sums over the first `n`.
use nowra.Base.{
  ℕ, zero, suc, ◌+◌, ◌≤◌, ◌<◌, ◌≡◌, refl, inl, inr, arith, ◌==◌, ltb, if◌then◌else◌, Bool-cases,
  ltb→lt,
}

-- `family` with `x` for `thread`
abbrev pub update {ℓ} : {A : Type ℓ} → (family : ℕ → A) → (thread : ℕ) → A → ℕ → A
update family thread x other = if thread == other then x else family other

module _ {ℓ} {A : Type ℓ} (w : A → ℕ) where
  pub total : (threads : ℕ) → (ℕ → A) → ℕ
  total zero family = 0
  total (suc last) family = w (family last) + total last family

  same_below :
      (last thread : ℕ) (x : A) (family : ℕ → A)
      → last ≤ thread
      → total last (update family thread x) ≡ total last family
  unfolding total
  same_below zero thread x family above = refl
  same_below (suc last) thread x family above =
      ground (arith, same_below last thread x family (omega (arith, above)))

  -- The sum changes by what the one member changes.
  pub total-update :
      (threads : ℕ) (family : ℕ → A) (thread : ℕ) (x : A)
      → thread < threads
      → w (family thread) + total threads (update family thread x) ≡ w x + total threads family
  unfolding total
  total-update zero family thread x less = absurd (omega arith)
  total-update (suc last) family thread x less = elim (Bool-cases (thread == last)) [
    | inl here ↦ ground (arith, same_below last thread x family (ground arith))
    | inr there ↦ ground (arith, total-update last family thread x (ground arith))
  ]

  -- A member that counts makes the sum positive, and a positive sum has one.
  pub total-member : (n : ℕ) (f : ℕ → A) (i : ℕ) → i < n → w (f i) ≤ total n f
  unfolding total
  total-member zero f i h = absurd (omega arith)
  total-member (suc n) f i h = elim (Bool-cases (i == n)) [
    | inl last ↦ ground arith
    | inr other ↦ ground (arith, total-member n f i)
  ]

  pub total-positive : (n : ℕ) (f : ℕ → A) → 0 < total n f → (i : ℕ) × (i < n) × (0 < w (f i))
  unfolding total
  total-positive zero f h = absurd (omega arith)
  total-positive (suc n) f h = elim (Bool-cases (ltb 0 (w (f n)))) [
    | inl here ↦ (n, omega arith, ltb→lt 0 (w (f n)) here)
    | inr below ↦
        let (i, less, found) = total-positive n f (ground arith) in (i, omega arith, found)
  ]

  pub total_const : (threads : ℕ) (x : A) → w x ≡ 0 → total threads (λ thread. x) ≡ 0
  unfolding total
  total_const zero x nil = refl
  total_const (suc last) x nil = omega (arith, nil, total_const last x nil)

-- Two weights of which each member has at most 1 in all.
pub total-both {ℓ} :
    {A : Type ℓ} (u w : A → ℕ)
    → ((a : A) → u a + w a ≤ 1)
    → (n : ℕ) (f : ℕ → A) → total u n f + total w n f ≤ n
unfolding total
total-both u w h zero f = omega arith
total-both u w h (suc n) f = omega (arith, h (f n), total-both u w h n f)

-- A weight that is 0 where another is.
pub total-dominated {ℓ} :
    {A : Type ℓ} (u w : A → ℕ)
    → ((a : A) → w a ≡ 0 → u a ≡ 0)
    → (n : ℕ) (f : ℕ → A) → total w n f ≡ 0
    → total u n f ≡ 0
unfolding total
total-dominated u w h zero f e = refl
total-dominated u w h (suc n) f e =
    omega (arith, h (f n) (omega (arith, e)), total-dominated u w h n f (omega (arith, e)))
