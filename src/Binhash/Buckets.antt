-- ===== src/Binhash/Buckets.antt =====
-- The array of chains of src/util/binhash.c: what it weighs, and where its entries stand.
use nowra.Base.{
  ℕ, zero, suc, ◌+◌, ◌<◌, ◌≡◌, ◌≢◌, refl, List, [], ◌∷◌, arith, weight, weight-append, All, length,
  get_or, set, replicate,
}
use nowra.Binhash.{Info, binhash_hash, binhash_list}

abbrev pub Chains : Type 0 → Type 0
Chains V = List (List (Info V))

module _ {V : Type 0} where
  -- The weight of all entries, chain by chain.
  abbrev pub total : (Info V → ℕ) → Chains V → ℕ
  total w = weight (weight w)

  pub weight-binhash_list : (w : Info V → ℕ) (d : Chains V) → weight w (binhash_list d) ≡ total w d
  unfolding binhash_list
  weight-binhash_list w [] = refl
  weight-binhash_list w (c ∷ d) =
      omega (arith, weight-append w c (binhash_list d), weight-binhash_list w d)

  pub total-replicate : (w : Info V → ℕ) (n : ℕ) → total w (replicate n []) ≡ 0
  total-replicate w zero = refl
  total-replicate w (suc n) = omega (arith, total-replicate w n)

  pub total-set :
      (w : Info V → ℕ) (d : Chains V) (i : ℕ) (c : List (Info V))
      → i < length d
      → total w (set d i c) + weight w (get_or d i []) ≡ total w d + weight w c
  total-set w [] i c h = absurd (omega arith)
  total-set w (b ∷ d) zero c h = omega arith
  total-set w (b ∷ d) (suc i) c h = let ih = total-set w d i c (omega arith) in omega arith

  weight_past : (w : Info V → ℕ) (d : Chains V) → weight w (get_or d (length d) []) ≡ 0
  weight_past w [] = refl
  weight_past w (b ∷ d) = weight_past w d

  -- Chains without weight but one.
  pub total_only :
      (w : Info V → ℕ) (d : Chains V) (i : ℕ)
      → ((j : ℕ) → j ≢ i → weight w (get_or d j []) ≡ 0)
      → total w d ≡ weight w (get_or d i [])
  total_only w [] i h = refl
  total_only w (b ∷ d) zero h =
      let here = total_only w d (length d) (λ j ne. h (suc j) (λ e. cc)) in
      let past = weight_past w d in omega arith
  total_only w (b ∷ d) (suc i) h =
      let here : weight w b ≡ 0 = h zero (λ e. cc) in
      let rest = total_only w d i (λ j ne. h (suc j) (λ e. ne (omega arith))) in omega arith

  -- Every entry stands in the chain that its key hashes to.
  abbrev pub IsHashed : ℕ → Chains V → Type 0
  IsHashed size d = (i : ℕ) → All (λ e. binhash_hash e.key size ≡ i) (get_or d i [])
